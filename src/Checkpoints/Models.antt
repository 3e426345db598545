-- ===== src/Checkpoints/Models.antt =====
-- The requests and answers of src/pg_agmemory/checkpoints.py, of src/pg_agmemory/models.py.
use pg_agmemory.Prelude.{ℕ, Bool, true, ◌&&◌, Option, List, [], ◌∷◌, map, length, leb, ◌==◌}
use pg_agmemory.Text.{Text}
use pg_agmemory.Store.Rows.{PendingEffect, CheckpointState}
use pg_agmemory.Service.{MemoryReference}
use pg_agmemory.Requests.{unique}
use pg_agmemory.Effects.Models.{EffectSummary}
use pg_agmemory.Checkpoints.Envelope.{Payload}

-- models.CheckpointBranch
pub record CheckpointBranch : Type 0 where
  pub scope_id : ℕ
  pub run_id : ℕ
  pub branch_id : ℕ

-- models.CreateCheckpoint
pub record CreateCheckpoint : Type 0 where
  pub scope_id : ℕ
  pub run_id : ℕ
  pub branch_id : ℕ
  pub expected_head : Option ℕ
  pub harness_id : Text
  pub harness_version : Text
  pub state_schema_version : ℕ
  pub event_watermark : ℕ
  pub state : CheckpointState
  pub memory_refs : List MemoryReference

-- models.RestoreCheckpoint
pub record RestoreCheckpoint : Type 0 where
  pub checkpoint_id : ℕ
  pub target_branch_id : ℕ
  pub harness_id : Text
  pub harness_version : Text
  pub state_schema_version : ℕ

-- pydantic's JSON of the requests.
pub record CheckpointJson : Type 0 where
  pub create_json : CreateCheckpoint → Text
  pub restore_json : RestoreCheckpoint → Text

-- What `load` returns.
pub record Saved : Type 0 where
  pub payload : Payload
  pub checksum : Text

-- What `envelope` returns; automatic_reexecution is false.
pub record CheckpointEnvelope : Type 0 where
  pub saved : Saved
  pub current_access_epoch : ℕ
  pub current_deletion_epoch : ℕ
  pub requires_reconciliation : List ℕ
  pub untracked_effects : List ℕ
  pub tool_effects : List EffectSummary
  pub resume_allowed : Bool

-- StateText and ShortText
unfoldable pub text_within : ℕ → Text → Bool
text_within limit t = leb 1 (length t) && leb (length t) limit

unfoldable pub all_within : ℕ → List Text → Bool
unfolding text_within
all_within limit [] = true
all_within limit (t ∷ ts) = let rest = all_within limit ts in text_within limit t && rest

-- CheckpointState.model_validate of a state that has the fields
unfoldable pub state_valid : CheckpointState → Bool
unfolding all_within unique
state_valid s =
    text_within 4096 s.goal
    && (all_within 4096 s.constraints
        && leb (length s.constraints) 64
        && (all_within 4096 s.completed_actions
            && leb (length s.completed_actions) 100
            && (all_within 4096 s.decisions
                && leb (length s.decisions) 64
                && (all_within 4096 s.unresolved_questions
                    && leb (length s.unresolved_questions) 64
                    && (all_within 4096 s.next_actions
                        && leb (length s.next_actions) 64
                        && (all_within 256
                              (map (λ (e : PendingEffect). e.description) s.pending_effects)
                            && leb (length s.pending_effects) 100
                            && unique (λ (a b : PendingEffect). a.operation_id == b.operation_id)
                                s.pending_effects))))))
