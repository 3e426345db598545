-- ===== src/Store/Exec.antt =====
-- A request runs in one transaction: it reads and writes the store, or it raises and everything
-- that it wrote is rolled back, so an error carries no store.
use pg_agmemory.Prelude.{ℕ, Option, none, some, Bool, true, false, List, [], ◌∷◌}
use pg_agmemory.Store.Tables.{Store}

-- The codes of MemoryError.
pub data Code : Type 0 where
  unauthenticated not_found idempotency_conflict source_event_conflict invalid_evidence
        invalid_checkpoint_reference invalid_effect_reference relation_revision_required
        revision_conflict revision_limit_exceeded effect_invalidated operation_conflict
        effect_run_invalidated effect_limit_exceeded effect_transition_conflict job_invalidated
        job_retry_conflict job_intent_conflict job_limit_exceeded job_cancel_conflict
        job_lease_conflict stale_context entity_invalidated invalid_relation_reference
        relation_invalidated assertion_invalidated graph_invalidated checkpoint_invalidated
        checkpoint_harness_conflict checkpoint_head_conflict checkpoint_watermark_conflict
        checkpoint_incompatible checkpoint_branch_conflict deletion_limit_exceeded :
      Code

-- What ends a request early. `memory_error` is MemoryError(code, status), `database_error` a
-- constraint or trigger of the database, `serialization_failure` its SQLSTATE 40001.
pub data Failure : Type 0 where
  memory_error : Code → ℕ → Failure
  database_error serialization_failure value_error tokenizer_unavailable : Failure

pub data Result {ℓ} (A : Type ℓ) : Type ℓ where
  ok : A → Result A
  err : Failure → Result A

abbrev pub Exec : Type 0 → Type 0
Exec A = Store → Result (A × Store)

module _ {A : Type 0} where
  unfoldable pub pure : A → Exec A
  pure a s = ok (a, s)

  unfoldable pub raise : Failure → Exec A
  raise e s = err e

  unfoldable pub gets : (Store → A) → Exec A
  gets f s = ok (f s, s)

  unfoldable pub or_raise : Option A → Failure → Exec A
  or_raise none e s = err e
  or_raise (some a) e s = ok (a, s)

-- `if not b: raise e`
unfoldable pub require : Bool → Failure → Exec (Unit {0})
require true e s = ok (tt, s)
require false e s = err e

unfoldable pub modify : (Store → Store) → Exec (Unit {0})
modify f s = ok (tt, f s)

abbrev pub continue : {A B : Type 0} → Result (A × Store) → (A → Exec B) → Result (B × Store)
continue (ok (a, s)) f = f a s
continue (err e) f = err e

infixl 5 ◌>>=◌ ◌>>◌
unfoldable pub ◌>>=◌ : {A B : Type 0} → Exec A → (A → Exec B) → Exec B
◌>>=◌ m f s = continue (m s) f

abbrev pub ◌>>◌ : {A B : Type 0} → Exec A → Exec B → Exec B
m >> k = m >>= λ _. k

-- `for x in xs: body(x)`
abbrev pub for_each {ℓ} : {A : Type ℓ} → List A → (A → Exec (Unit {0})) → Exec (Unit {0})
for_each [] body = pure tt
for_each (x ∷ xs) body = body x >> for_each xs body
