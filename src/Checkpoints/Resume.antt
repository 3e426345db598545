-- ===== src/Checkpoints/Resume.antt =====
-- When a run may be resumed from a checkpoint: envelope of src/pg_agmemory/checkpoints.py.
use pg_agmemory.Prelude.{
  ℕ, ◌≡◌, refl, Bool, true, false, not, ◌&&◌, ◌||◌, Option, none, some, List, [], ◌∷◌, any, ◌==◌,
  Option-cases, inl, inr, sym, arith,
}
use pg_agmemory.Store.Rows.{PendingEffect}
use pg_agmemory.Store.Tables.{Tenant, EffectStatus}
use pg_agmemory.Effects.Models.{EffectSummary}
use pg_agmemory.Checkpoints.Reconcile.{
  set_add, set_union, add_if, open_now, is_untracked, is_closed, hint_is_open, tracked,
  open_operations, untracked_hints, unresolved_hints, is_empty, reconcile,
}
use pg_agmemory.Checkpoints.Models.{Saved}

abbrev pub member : ℕ → List ℕ → Bool
member x l = any (λ y. y == x) l

-- An operation that the state hints at is not in the ledger, or it is open there and in the hint.
abbrev pub blocks : Option EffectStatus → PendingEffect → Bool
blocks none hint = true
blocks (some status) hint = hint_is_open hint && not (is_closed (some status))

member-set_add : (x y : ℕ) (l : List ℕ) → member x (set_add y l) ≡ (y == x || member x l)
unfolding set_add
member-set_add x y [] = ground arith
member-set_add x y (z ∷ l) = ground (arith, member-set_add x y l)

member-set_union : (x : ℕ) (l m : List ℕ) → member x (set_union l m) ≡ (member x l || member x m)
unfolding set_union
member-set_union x [] m = refl
member-set_union x (y ∷ l) m =
    ground (arith, member-set_add x y (set_union l m), member-set_union x l m)

is_empty-set_add : (y : ℕ) (l : List ℕ) → is_empty (set_add y l) ≡ false
unfolding set_add is_empty
is_empty-set_add y [] = refl
is_empty-set_add y (z ∷ l) = ground arith

is_empty-set_union : (l m : List ℕ) → is_empty (set_union l m) ≡ (is_empty l && is_empty m)
unfolding set_union is_empty
is_empty-set_union [] m = refl
is_empty-set_union (y ∷ l) m = is_empty-set_add y (set_union l m)

member-add_if :
    (x : ℕ) (b : Bool) (y : ℕ) (l : List ℕ)
    → member x (add_if b y l) ≡ ((b && y == x) || member x l)
unfolding add_if
member-add_if x true y l = member-set_add x y l
member-add_if x false y l = refl

open_operations-member :
    (x : ℕ) (all es : List EffectSummary)
    → member x (open_operations all es)
      ≡ any (λ (e : EffectSummary). e.operation_id == x && open_now (tracked all e.operation_id)) es
unfolding open_operations
open_operations-member x all [] = refl
open_operations-member x all (e ∷ es) = ground (
  arith,
  member-add_if x (open_now (tracked all e.operation_id)) e.operation_id (open_operations all es),
  open_operations-member x all es,
)

hints-member :
    (x : ℕ) (effects : List EffectSummary) (hints : List PendingEffect)
    → (member x (unresolved_hints effects hints) || member x (untracked_hints effects hints))
      ≡ any
          (λ (h : PendingEffect). h.operation_id == x && blocks (tracked effects h.operation_id) h)
          hints
unfolding unresolved_hints untracked_hints
hints-member x effects [] = refl
hints-member x effects (h ∷ hints) = elim (Option-cases (tracked effects h.operation_id)) [
  | inl missing ↦ ground (
    arith,
    member-add_if x (hint_is_open h && not (is_closed (tracked effects h.operation_id)))
        h.operation_id (unresolved_hints effects hints),
    member-add_if x (is_untracked (tracked effects h.operation_id)) h.operation_id
        (untracked_hints effects hints),
    hints-member x effects hints,
  )
  | inr (status, found) ↦ ground (
    arith,
    member-add_if x (hint_is_open h && not (is_closed (tracked effects h.operation_id)))
        h.operation_id (unresolved_hints effects hints),
    member-add_if x (is_untracked (tracked effects h.operation_id)) h.operation_id
        (untracked_hints effects hints),
    hints-member x effects hints,
  )
]

-- Whether the state asks the operation to be reconciled before the run goes on.
abbrev pub asked : ℕ → List EffectSummary → List PendingEffect → Bool
asked x effects hints =
    any (λ (e : EffectSummary). e.operation_id == x && open_now (tracked effects e.operation_id))
      effects
    || any (λ (h : PendingEffect). h.operation_id == x && blocks (tracked effects h.operation_id) h)
        hints

-- An operation is to be reconciled exactly when the ledger has it and holds it for dispatched or
-- unknown, or when the saved state hints at it and the ledger does not have it, or the hint is
-- dispatched or unknown and the ledger has it not confirmed and not failed. The run may be resumed
-- exactly when there is none.
pub reconcile-eq-asked :
    (saved : Saved) (tenant : Tenant) (effects : List EffectSummary) (x : ℕ)
    → let e = reconcile saved tenant effects in
      (member x e.requires_reconciliation ≡ asked x effects saved.payload.state.pending_effects)
      × (e.resume_allowed ≡ is_empty e.requires_reconciliation)
unfolding reconcile
reconcile-eq-asked saved tenant effects x =
    let hints = saved.payload.state.pending_effects in
    let opened = open_operations effects effects in
    let unresolved = unresolved_hints effects hints in
    let untracked = untracked_hints effects hints in
    (
      ground (
        arith,
        member-set_union x (set_union opened unresolved) untracked,
        member-set_union x opened unresolved,
        open_operations-member x effects effects,
        hints-member x effects hints,
      ),
      sym (is_empty-set_union (set_union opened unresolved) untracked),
    )
