-- ===== src/Requests.antt =====
-- The validators of the requests (src/pg_agmemory/models.py), beyond the types and lengths of fields.
pub mod Constraints
mod Tests
use pg_agmemory.Prelude.{
  ℕ, Bool, true, false, not, ◌&&◌, ◌||◌, Option, none, some, List, [], ◌∷◌, any, length, leb, ltb,
  ◌==◌, if◌then◌else◌,
}
use pg_agmemory.Text.{Text}
use pg_agmemory.Store.Tables.{
  EffectStatus, planned, dispatched, unknown, confirmed, failed, ReceiptSource, Evidence, Remember,
  pending, running,
}
use pg_agmemory.Service.{MemoryReference}
use pg_agmemory.Service.Memory.{ReviseAssertion}
use pg_agmemory.Effects.Models.{PlanToolEffect, TransitionToolEffect}
use pg_agmemory.Jobs.Models.{CancelJob}
use pg_agmemory.Jobs.Database.{state_eq}
use pg_agmemory.Capture.{CapturedMemory}
use pg_agmemory.Paging.{QueryEpisodes, QueryJobs}

-- len(set(xs)) == len(xs), by a test of equality
module _ {ℓ} {A : Type ℓ} (same : A → A → Bool) where
  unfoldable pub unique : List A → Bool
  unique [] = true
  unique (x ∷ xs) = let rest = unique xs in not (any (same x) xs) && rest

abbrev pub precedes : Option ℕ → Option ℕ → Bool
precedes (some from) (some to) = ltb from to
precedes _ _ = true

-- validate_assertion_content
unfoldable pub validate_assertion_content : Option ℕ → Option ℕ → List Evidence → Bool
unfolding unique
validate_assertion_content valid_from valid_to evidence =
    precedes valid_from valid_to && unique (λ (a b : Evidence). a.memory_id == b.memory_id) evidence

-- Remember.valid_interval
unfoldable pub remember_valid : Remember → Bool
unfolding validate_assertion_content
remember_valid r = validate_assertion_content r.valid_from r.valid_to r.evidence

-- CapturedMemory.valid_interval
unfoldable pub captured_valid : CapturedMemory → Bool
unfolding validate_assertion_content
captured_valid c = validate_assertion_content c.valid_from c.valid_to []

-- ReviseAssertion.valid_interval
unfoldable pub revise_valid : ReviseAssertion → Bool
unfolding validate_assertion_content
revise_valid r = validate_assertion_content r.valid_from r.valid_to r.evidence

-- PlanToolEffect.unique_references
unfoldable pub plan_valid : PlanToolEffect → Bool
unfolding unique
plan_valid p =
    unique (λ (a b : MemoryReference). a.memory_id == b.memory_id && a.revision == b.revision)
      p.memory_refs

-- `status in ("confirmed", "failed")`
abbrev is_outcome : EffectStatus → Bool
is_outcome planned = false
is_outcome dispatched = false
is_outcome unknown = false
is_outcome confirmed = true
is_outcome failed = true

abbrev given : {A : Type 0} → Option A → Bool
given none = false
given (some a) = true

-- TransitionToolEffect.terminal_receipt
unfoldable pub transition_valid : TransitionToolEffect → Bool
transition_valid t =
    if is_outcome t.status
    then given t.receipt_reference && given t.receipt_source
    else not (given t.receipt_reference || given t.receipt_source)

-- ShortText
short_text : Text → Bool
short_text t = leb 1 (length t) && leb (length t) 256

short_if_given : Option Text → Bool
unfolding short_text
short_if_given none = true
short_if_given (some t) = short_text t

-- The two fields of TransitionToolEffect of type ShortText.
unfoldable pub transition_fields : TransitionToolEffect → Bool
unfolding short_text short_if_given
transition_fields t = short_text t.reason && short_if_given t.receipt_reference

-- CancelJob.running_attempt
unfoldable pub cancel_valid : CancelJob → Bool
cancel_valid c = not (state_eq c.expected_state running && c.expected_attempt == 0)

-- QueryEpisodes.valid_filters
unfoldable pub query_episodes_valid : QueryEpisodes → Bool
unfolding unique
query_episodes_valid q =
    unique (λ a b. a == b) q.scope_ids && precedes q.occurred_from q.occurred_to

-- QueryJobs.unique_filters
unfoldable pub query_jobs_valid : QueryJobs → Bool
unfolding unique
query_jobs_valid q = unique (λ a b. a == b) q.scope_ids && unique state_eq q.states
