-- ===== src/Checkpoints/Operations.antt =====
-- What every step of the checkpoints keeps, saving a checkpoint and restoring one keep.
pub mod Linked
use pg_agmemory.Prelude.{ℕ, Option, none, some, List, ◌∷◌, ◌≡◌, refl, Bool, arith}
use pg_agmemory.Text.{Text}
use pg_agmemory.Store.Rows.{Run, Branch, Checkpoint, CheckpointReference}
use pg_agmemory.Store.Tables.{
  Store, Reply, Permission, EffectStatus, Origin, ReceiptSource, ToolEffect, EffectRevision,
}
use pg_agmemory.Store.Exec.{pure, modify, gets, ◌>>=◌}
use pg_agmemory.Store.Keeps.{Leads, Keeps, Leads-bind, Keeps-modify, Keeps-for_each, keeps_rules}
use pg_agmemory.Store.Visibility.{Session}
use pg_agmemory.Service.{ValidReference}
use pg_agmemory.Service.Keeps.{
  Ignores, object-Keeps, scope-Keeps, digest-Keeps, replay-Keeps, save_result-Keeps, audit-Keeps,
  new_object-Keeps, validate_refs-Keeps,
}
use pg_agmemory.Effects.Database
use pg_agmemory.Effects.{list_run, append, fence_one, fence_restore}
use pg_agmemory.Effects.Models.{EffectSummary}
use pg_agmemory.Effects.Invariant.{IsConsistent}
use pg_agmemory.Effects.Operations.{fence_restore-IsConsistent, IsConsistent-ignores}
use pg_agmemory.Checkpoints.{
  Payload, checksum, load, envelope, head, insert, check_watermark, create_replayed,
  restore_replayed, create, restore,
}
use pg_agmemory.Checkpoints.Models.{
  CheckpointBranch, CreateCheckpoint, RestoreCheckpoint, CheckpointJson, Saved,
}
use pg_agmemory.Checkpoints.Database.{
  insert_run, insert_branch, check_parent, adopt_checkpoint, insert_checkpoint,
  insert_checkpoint_reference,
}
use pg_agmemory.Checkpoints.Chains.{IsLinked}
use pg_agmemory.Checkpoints.Chains.Linking.{insert_checkpoint-IsLinked, insert_branch-IsLinked}

pub record Passes (P : Store → Type 0) : Type 0 where
  service : Ignores P
  runs : (s : Store) (l : List Run) → P s → P (record s { runs = l })
  references :
      (s : Store) (l : List CheckpointReference) → P s → P (record s { checkpoint_references = l })
  branch : (scope_id run_id branch_id : ℕ) → Keeps P (insert_branch scope_id run_id branch_id)
  checkpoint : (new : Checkpoint) → Keeps P (insert_checkpoint new)
  fence : (env : Session) (scope_id run_id : ℕ) → Keeps P (fence_restore env scope_id run_id)

module _ (env : Session) where
  module _ {P : Store → Type 0} where
    checksum-Keeps : (p : Payload) → Keeps P (checksum env p)
    unfolding checksum
    checksum-Keeps p = digest-Keeps env _

    pub load-Keeps : (id : ℕ) (p : Permission) → Keeps P (load env id p)
    unfolding load
    load-Keeps id p = search (keeps_rules, object-Keeps, checksum-Keeps) depth 20

    list_run-Keeps : (scope_id run_id : ℕ) → Keeps P (list_run env scope_id run_id)
    unfolding list_run
    list_run-Keeps scope_id run_id = search keeps_rules

    pub envelope-Keeps : (id : ℕ) → Keeps P (envelope env id)
    unfolding envelope
    envelope-Keeps id = search (keeps_rules, load-Keeps, list_run-Keeps)

    check_watermark-Keeps :
        (request : CreateCheckpoint) (o : Option ℕ) → Keeps P (check_watermark env request o)
    unfolding check_watermark
    check_watermark-Keeps request none = search keeps_rules
    check_watermark-Keeps request (some id) = search (keeps_rules, load-Keeps)

  module _ {P : Store → Type 0} (o : Passes P) where
    insert_found-Keeps :
        (run : Run) (found : Option Run)
        → Keeps P (elim found [
          | none ↦ modify (λ s. record s { runs = run ∷ s.runs })
          | some _ ↦ pure tt
        ])
    insert_found-Keeps run none = search (Keeps-modify, o.runs)
    insert_found-Keeps run (some _) = search keeps_rules

    insert_run-Keeps : (run : Run) → Keeps P (insert_run run)
    unfolding insert_run
    insert_run-Keeps run =
        Leads-bind _ _ (search keeps_rules) (λ found. insert_found-Keeps run found)

    insert_reference-Keeps : (r : CheckpointReference) → Keeps P (insert_checkpoint_reference r)
    unfolding insert_checkpoint_reference
    insert_reference-Keeps r = search (keeps_rules, Keeps-modify, o.references)

    insert-Keeps :
        (request : CreateCheckpoint) (n : ℕ) (parent : Option ℕ)
        → Keeps P (insert env request n parent)
    unfolding insert
    insert-Keeps request n parent =
        search
          (
            keeps_rules, validate_refs-Keeps, new_object-Keeps, checksum-Keeps, o.checkpoint,
            insert_reference-Keeps, audit-Keeps, o.service,
          )
          depth 20

    create_replayed-Keeps :
        (request : CreateCheckpoint) (r : Text × Text × Option Reply)
        → Keeps P (create_replayed env request r)
    unfolding create_replayed
    create_replayed-Keeps request (k, h, some previous) = search (keeps_rules, load-Keeps)
    create_replayed-Keeps request (k, h, none) =
        search
          (
            keeps_rules, insert_run-Keeps, o.branch, check_watermark-Keeps, insert-Keeps,
            save_result-Keeps, o.service,
          )
          depth 30

    restore_replayed-Keeps :
        (request : RestoreCheckpoint) (saved : Payload) (r : Text × Text × Option Reply)
        → Keeps P (restore_replayed env request saved r)
    unfolding restore_replayed
    restore_replayed-Keeps request saved (k, h, some previous) = envelope-Keeps _
    restore_replayed-Keeps request saved (k, h, none) =
        search
          (
            keeps_rules, o.branch, o.fence, insert-Keeps, save_result-Keeps, audit-Keeps, o.service,
            envelope-Keeps,
          )
          depth 30

    module _ (json : CheckpointJson) where
      pub create-Keeps :
          (request : CreateCheckpoint) (key : Text) → Keeps P (create env json request key)
      unfolding create
      create-Keeps request key =
          search (keeps_rules, scope-Keeps, replay-Keeps, create_replayed-Keeps)

      pub restore-Keeps :
          (request : RestoreCheckpoint) (key : Text) → Keeps P (restore env json request key)
      unfolding restore
      restore-Keeps request key =
          search (keeps_rules, load-Keeps, replay-Keeps, restore_replayed-Keeps)
