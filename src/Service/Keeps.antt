-- ===== src/Service/Keeps.antt =====
-- Which parts of the store the operations of MemoryService write: an invariant that does not look
-- at the bookkeeping tables is kept by all of them.
use pg_agmemory.Prelude.{ℕ, Option, none, some, List, [], ◌∷◌}
use pg_agmemory.Text.{Text}
use pg_agmemory.Store.Tables.{
  Store, Object, Permission, Kind, Operation, Action, Reply, Idempotency, Audit, Evidence,
}
use pg_agmemory.Store.Exec.{Code}
use pg_agmemory.Store.Keeps.{Keeps, keeps_rules, Keeps-modify, Keeps-bind-pure, Keeps-pure}
use pg_agmemory.Store.Visibility.{Session}
use pg_agmemory.Service.{
  MemoryReference, draw, scope, object, digest, check_replied, replay_row, replay, save_result,
  audit, new_object, validate_ref, validate_each, validate_refs, validate_one, validate_evidence,
}

-- The invariant looks at none of the tables that the service itself writes.
pub record Ignores (P : Store → Type 0) : Type 0 where
  pub idempotency :
      (s : Store) (rows : List Idempotency) → P s → P (record s { idempotency = rows })
  pub audits : (s : Store) (rows : List Audit) → P s → P (record s { audits = rows })
  pub objects : (s : Store) (rows : List Object) → P s → P (record s { objects = rows })
  pub drawn : (s : Store) (n : ℕ) → P s → P (record s { drawn = n })

module _ (env : Session) {P : Store → Type 0} where
  pub scope-Keeps : (scope_id : ℕ) (p : Permission) → Keeps P (scope env scope_id p)
  unfolding scope
  scope-Keeps scope_id p = search keeps_rules

  pub object-Keeps : (id : ℕ) (p : Permission) → Keeps P (object env id p)
  unfolding object
  object-Keeps id p = search (keeps_rules, scope-Keeps)

  pub digest-Keeps : (value : Text) → Keeps P (digest env value)
  unfolding digest
  digest-Keeps value = search keeps_rules

  check_replied-Keeps : (result : Reply) → Keeps P (check_replied env result)
  unfolding check_replied
  check_replied-Keeps result = search (keeps_rules, object-Keeps)

  replay_row-Keeps : (k r : Text) (o : Option Idempotency) → Keeps P (replay_row env k r o)
  unfolding replay_row
  replay_row-Keeps k r none = search keeps_rules
  replay_row-Keeps k r (some row) = search (keeps_rules, check_replied-Keeps)

  pub replay-Keeps : (o : Operation) (key payload : Text) → Keeps P (replay env o key payload)
  unfolding replay
  replay-Keeps o key payload = search (keeps_rules, digest-Keeps, replay_row-Keeps)

  validate_ref-Keeps :
      (scope_id : ℕ) (c : Code) (r : MemoryReference) → Keeps P (validate_ref env scope_id c r)
  unfolding validate_ref
  validate_ref-Keeps scope_id c r = search (keeps_rules, object-Keeps) depth 9

  validate_each-Keeps :
      (scope_id : ℕ) (c : Code) (rs : List MemoryReference)
      → Keeps P (validate_each env scope_id c rs)
  unfolding validate_each
  validate_each-Keeps scope_id c [] = search keeps_rules
  validate_each-Keeps scope_id c (r ∷ rs) =
      Keeps-bind-pure _ _ (validate_ref-Keeps scope_id c r)
        (λ v. Keeps-bind-pure _ _ (validate_each-Keeps scope_id c rs) (λ vs. Keeps-pure (v ∷ vs)))

  pub validate_refs-Keeps :
      (scope_id : ℕ) (rs : List MemoryReference) (c : Code)
      → Keeps P (validate_refs env scope_id rs c)
  unfolding validate_refs
  validate_refs-Keeps scope_id rs c = validate_each-Keeps scope_id c _

  validate_one-Keeps : (scope_id : ℕ) (e : Evidence) → Keeps P (validate_one env scope_id e)
  unfolding validate_one
  validate_one-Keeps scope_id e = search (keeps_rules, object-Keeps)

  pub validate_evidence-Keeps :
      (scope_id : ℕ) (es : List Evidence) → Keeps P (validate_evidence env scope_id es)
  unfolding validate_evidence
  validate_evidence-Keeps scope_id es = search (keeps_rules, validate_one-Keeps)

module _ (env : Session) {P : Store → Type 0} (i : Ignores P) where
  pub draw-Keeps : Keeps P (draw env)
  unfolding draw
  draw-Keeps = search (keeps_rules, Keeps-modify, i.drawn)

  pub save_result-Keeps :
      (o : Operation) (k r : Text) (result : Reply) → Keeps P (save_result env o k r result)
  unfolding save_result
  save_result-Keeps o k r result = search (keeps_rules, Keeps-modify, i.idempotency)

  pub audit-Keeps : (a : Action) (target : ℕ) → Keeps P (audit env a target)
  unfolding audit
  audit-Keeps a target = search (Keeps-modify, i.audits)

  pub new_object-Keeps : (scope_id : ℕ) (k : Kind) → Keeps P (new_object env scope_id k)
  unfolding new_object
  new_object-Keeps scope_id k = search (keeps_rules, draw-Keeps, Keeps-modify, i.objects) depth 9
