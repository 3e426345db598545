-- ===== src/Deletion.antt =====
-- Deletion: MemoryService.forget of src/pg_agmemory/service.py.
pub mod Closure
pub mod Complete
pub mod Rows
pub mod Seen
pub mod Hiding
pub mod Steps
pub mod Purged
mod Tests
use pg_agmemory.Prelude.{
  ℕ, ◌+◌, Bool, true, false, not, ◌&&◌, ◌||◌, Option, none, some, List, [], ◌∷◌, ◌++◌, map, any,
  select, length, leb, ◌==◌,
}
use pg_agmemory.Text.{Text}
use pg_agmemory.Store.Rows.{DeletionRequest}
use pg_agmemory.Store.Tables.{Store, Object, Operation, forgotten, Reply, forget_reply, delete}
use pg_agmemory.Store.Exec.{
  Exec, deletion_limit_exceeded, memory_error, database_error, pure, gets, require, modify, ◌>>=◌,
  ◌>>◌,
}
use pg_agmemory.Store.Visibility.{Session, permitted, shown}
use pg_agmemory.Service
use pg_agmemory.Service.{draw, object, replay, save_result, audit}
use pg_agmemory.Checkpoints.Reconcile.{set_add}
use Closure.{member, closure}
use Rows.{edges_of, purge}

pub data Mode : Type 0 where
  preview purging : Mode

-- models.Forget
pub record Forget : Type 0 where
  pub memory_ids : List ℕ
  pub mode : Mode

-- What `forget` returns: how many objects it would delete, or the receipt.
pub data ForgetAnswer : Type 0 where
  previewed : ℕ → ForgetAnswer
  deleted : Reply → ForgetAnswer

module _ (env : Session) where
  -- The set `scopes`.
  unfoldable pub scopes_of : List ℕ → Exec (List ℕ)
  unfolding object set_add
  scopes_of [] = pure []
  scopes_of (id ∷ ids) = do
    obj ← object env id delete
    rest ← scopes_of ids
    pure (set_add obj.scope_id rest)

  -- The objects that memory.object shows among the targets.
  abbrev pub hit : List ℕ → Store → Object → Bool
  hit targets s o = member targets o.id && shown env s o

  -- INSERT INTO memory_ops.object_tombstone, with its policy
  unfoldable pub entomb : List ℕ → Exec (Unit {0})
  entomb targets = do
    barred ← gets (λ s.
        any (λ (o : Object). hit targets s o && not (permitted env s o.scope_id delete)) s.objects)
    require (not barred) database_error
    modify (λ s. record s {
      tombstones = map (λ (o : Object). o.id) (select (hit targets s) s.objects) ++ s.tombstones;
    })

  unfoldable pub insert_request : DeletionRequest → Exec (Unit {0})
  insert_request r = do
    taken ← gets (λ s. any (λ (o : DeletionRequest). o.id == r.id) s.deletion_requests)
    require (not taken) database_error
    modify (λ s. record s { deletion_requests = r ∷ s.deletion_requests })

  -- From the receipt on.
  unfoldable pub conclude : List ℕ → ℕ → ℕ → Text → Text → Exec ForgetAnswer
  unfolding insert_request
  conclude scopes count epoch key_hash payload_hash = do
    receipt ← draw env
    insert_request (record {
      id = receipt;
      principal_id = env.principal;
      object_count = count;
      deletion_epoch = epoch;
    })
    save_result env Operation.forget_memory key_hash payload_hash
        (forget_reply receipt count epoch scopes)
    audit env forgotten receipt
    pure (deleted (forget_reply receipt count epoch scopes))

  -- UPDATE memory.tenant SET deletion_epoch = deletion_epoch + 1 ... RETURNING deletion_epoch
  abbrev pub next_epoch : Store → Store
  next_epoch s = record s {
    tenant = record s.tenant { deletion_epoch = s.tenant.deletion_epoch + 1 };
  }

  -- From `if data.mode == "purge"` on.
  unfoldable pub purge_targets : List ℕ → List ℕ → Text → Text → Exec ForgetAnswer
  unfolding purge entomb conclude
  purge_targets scopes targets key_hash payload_hash = do
    modify (purge env targets)
    entomb targets
    modify next_epoch
    epoch ← gets (λ s. s.tenant.deletion_epoch)
    conclude scopes (length targets) epoch key_hash payload_hash

  unfoldable pub forget_targets : Mode → List ℕ → List ℕ → Text → Text → Exec ForgetAnswer
  unfolding purge_targets
  forget_targets preview scopes targets key_hash payload_hash = pure (previewed (length targets))
  forget_targets purging scopes targets key_hash payload_hash =
      purge_targets scopes targets key_hash payload_hash

  unfoldable pub forget_replayed : Forget → Text × Text × Option Reply → Exec ForgetAnswer
  unfolding scopes_of edges_of closure forget_targets
  forget_replayed request (key_hash, payload_hash, some previous) = pure (deleted previous)
  forget_replayed request (key_hash, payload_hash, none) = do
    scopes ← scopes_of request.memory_ids
    targets ← gets (λ s. closure (edges_of env s) request.memory_ids)
    require (leb (length targets) (10000 + length request.memory_ids))
        (memory_error deletion_limit_exceeded 422)
    forget_targets request.mode scopes targets key_hash payload_hash

  -- MemoryService.forget; `payload` is pydantic's JSON of the request.
  unfoldable pub forget : (Forget → Text) → Forget → Text → Exec ForgetAnswer
  unfolding forget_replayed
  forget forget_json request key = do
    replayed ← replay env Operation.forget_memory key (forget_json request)
    forget_replayed request replayed

-- Opening this name opens every operation above: for tests.
unfoldable pub executing : Unit {0}
unfolding Service.executing forget
executing = tt
