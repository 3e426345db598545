-- ===== src/Checkpoints/Reconcile.antt =====
-- What a run that goes on has to reconcile: the sets of envelope, src/pg_agmemory/checkpoints.py.
use pg_agmemory.Prelude.{
  ℕ, Bool, true, false, not, ◌&&◌, Option, none, some, List, [], ◌∷◌, ltb, ◌==◌, if◌then◌else◌,
}
use pg_agmemory.Store.Rows.{
  Run, Branch, PendingEffect, CheckpointState, Checkpoint, CheckpointReference,
}
use pg_agmemory.Store.Rows
use pg_agmemory.Store.Tables.{
  Store, Tenant, Permission, read, write, Kind, EffectStatus, Operation, checkpoint_saved,
  checkpoint_restored, Reply, checkpoint_reply,
}
use pg_agmemory.Store.Tables
use pg_agmemory.Effects.Models.{EffectSummary}
use pg_agmemory.Checkpoints.Models.{Saved, CheckpointEnvelope}

-- A set as its sorted list.
unfoldable pub set_add : ℕ → List ℕ → List ℕ
set_add x [] = x ∷ []
set_add x (y ∷ ys) =
    let rest = set_add x ys in if ltb x y then x ∷ y ∷ ys else if x == y then y ∷ ys else y ∷ rest

unfoldable pub set_union : List ℕ → List ℕ → List ℕ
unfolding set_add
set_union [] ys = ys
set_union (x ∷ xs) ys = set_add x (set_union xs ys)

-- `status in ("dispatched", "unknown")`
abbrev pub is_open : EffectStatus → Bool
is_open Tables.EffectStatus.planned = false
is_open Tables.EffectStatus.dispatched = true
is_open Tables.EffectStatus.unknown = true
is_open Tables.EffectStatus.confirmed = false
is_open Tables.EffectStatus.failed = false

-- `status in ("confirmed", "failed")`
abbrev pub is_closed : Option EffectStatus → Bool
is_closed none = false
is_closed (some Tables.EffectStatus.planned) = false
is_closed (some Tables.EffectStatus.dispatched) = false
is_closed (some Tables.EffectStatus.unknown) = false
is_closed (some Tables.EffectStatus.confirmed) = true
is_closed (some Tables.EffectStatus.failed) = true

-- hint["status"] in ("dispatched", "unknown")
abbrev pub hint_is_open : PendingEffect → Bool
hint_is_open e = elim e.status [
  | Rows.PendingStatus.planned ↦ false
  | Rows.PendingStatus.dispatched ↦ true
  | Rows.PendingStatus.unknown ↦ true
]

-- The dict `tracked`: of an operation that comes twice the last one counts.
unfoldable pub tracked : List EffectSummary → ℕ → Option EffectStatus
tracked [] operation = none
tracked (e ∷ es) operation = elim (tracked es operation) [
  | some status ↦ some status
  | none ↦ if e.operation_id == operation then some e.status else none
]

unfoldable pub add_if : Bool → ℕ → List ℕ → List ℕ
unfolding set_add
add_if true x l = set_add x l
add_if false x l = l

abbrev pub open_now : Option EffectStatus → Bool
open_now none = false
open_now (some status) = is_open status

abbrev pub is_untracked : Option EffectStatus → Bool
is_untracked none = true
is_untracked (some status) = false

-- The tracked operations with a status that is open.
unfoldable pub open_operations : List EffectSummary → List EffectSummary → List ℕ
unfolding tracked add_if
open_operations all [] = []
open_operations all (e ∷ es) =
    add_if (open_now (tracked all e.operation_id)) e.operation_id (open_operations all es)

-- The loop over the hints: what it adds to `untracked`, and to `unresolved`.
unfoldable pub untracked_hints : List EffectSummary → List PendingEffect → List ℕ
unfolding tracked add_if
untracked_hints effects [] = []
untracked_hints effects (hint ∷ hints) =
    add_if (is_untracked (tracked effects hint.operation_id)) hint.operation_id
      (untracked_hints effects hints)

unfoldable pub unresolved_hints : List EffectSummary → List PendingEffect → List ℕ
unfolding tracked add_if
unresolved_hints effects [] = []
unresolved_hints effects (hint ∷ hints) =
    add_if (hint_is_open hint && not (is_closed (tracked effects hint.operation_id)))
      hint.operation_id (unresolved_hints effects hints)

unfoldable pub is_empty : List ℕ → Bool
is_empty [] = true
is_empty (x ∷ xs) = false

-- What `envelope` makes of the effects of the run and the hints of the state.
unfoldable pub reconcile : Saved → Tenant → List EffectSummary → CheckpointEnvelope
unfolding open_operations untracked_hints unresolved_hints set_union is_empty
reconcile saved tenant effects =
    let hints = saved.payload.state.pending_effects in
    let unresolved = set_union (open_operations effects effects) (unresolved_hints effects hints) in
    let untracked = untracked_hints effects hints in
    record {
      saved = saved;
      current_access_epoch = tenant.access_epoch;
      current_deletion_epoch = tenant.deletion_epoch;
      requires_reconciliation = set_union unresolved untracked;
      untracked_effects = untracked;
      tool_effects = effects;
      resume_allowed = is_empty unresolved && is_empty untracked;
    }
