-- ===== src/Checkpoints.antt =====
-- Checkpoints of src/pg_agmemory/checkpoints.py: the saved states of a run, in branches, with the
-- triggers of storage/003_checkpoints.sql.
pub mod Reconcile
pub mod Models
pub mod Database
pub mod Envelope
pub mod Chains
pub mod Operations
pub mod Ledger
pub mod Resume
mod Tests
use pg_agmemory.Prelude.{
  ℕ, zero, suc, ◌+◌, Bool, true, false, not, ◌&&◌, ◌||◌, Option, none, some, List, [], ◌∷◌, ◌++◌,
  map, any, find, select, length, leb, ltb, ◌==◌, if◌then◌else◌,
}
use pg_agmemory.Text.{Text, codes, text_eq, json_string}
use pg_agmemory.Store.Rows.{
  Run, Branch, PendingEffect, CheckpointState, Checkpoint, CheckpointReference,
}
use pg_agmemory.Store.Rows
use pg_agmemory.Store.Tables.{
  Store, Tenant, Permission, read, write, Kind, EffectStatus, Operation, checkpoint_saved,
  checkpoint_restored, Reply, checkpoint_reply,
}
use pg_agmemory.Store.Tables
use pg_agmemory.Store.Exec.{
  Exec, not_found, checkpoint_invalidated, checkpoint_harness_conflict, checkpoint_head_conflict,
  checkpoint_watermark_conflict, checkpoint_incompatible, checkpoint_branch_conflict,
  invalid_checkpoint_reference, memory_error, pure, raise, gets, or_raise, require, modify, ◌>>=◌,
  ◌>>◌, for_each,
}
use pg_agmemory.Store.Visibility.{Session, permitted, visible}
use pg_agmemory.Service.{
  MemoryReference, ValidReference, order_by, reference_before, kind_eq, scope, object, digest,
  replay, save_result, audit, new_object, validate_refs,
}
use pg_agmemory.Requests.{unique}
use pg_agmemory.Paging.{epochs}
use pg_agmemory.Effects
use pg_agmemory.Effects.{list_run, fence_restore}
use pg_agmemory.Effects.Rows.{reply_id}
use pg_agmemory.Effects.Models.{EffectSummary}
use pg_agmemory.Effects.Database.{run_row}
use Database.{
  branch_row, checkpoint_row, distinct, insert_run, insert_branch, insert_checkpoint,
  insert_checkpoint_reference,
}
use Envelope.{Payload, payload_json}
use Models.{
  CheckpointBranch, CreateCheckpoint, RestoreCheckpoint, CheckpointJson, Saved, CheckpointEnvelope,
  text_within, all_within, state_valid,
}
use Reconcile.{
  set_add, set_union, is_open, is_closed, hint_is_open, tracked, add_if, open_now, is_untracked,
  open_operations, untracked_hints, unresolved_hints, is_empty, reconcile,
}

to_reference : CheckpointReference → MemoryReference
to_reference r = record { memory_id = r.source_id; revision = r.source_revision }

payload_of : Checkpoint → Run → List MemoryReference → Payload
payload_of c run refs = record {
  checkpoint_id = c.id;
  scope_id = c.scope_id;
  run_id = c.run_id;
  branch_id = c.branch_id;
  sequence = c.sequence;
  parent_checkpoint = c.parent_id;
  harness_id = run.harness_id;
  harness_version = run.harness_version;
  state_schema_version = run.state_schema_version;
  event_watermark = c.event_watermark;
  state = c.state;
  memory_refs = refs;
  saved_access_epoch = c.access_epoch;
  saved_deletion_epoch = c.deletion_epoch;
}

-- The join of a checkpoint with its run.
joined_checkpoint : Store → ℕ → Option (Checkpoint × Run)
joined_checkpoint s id = elim (checkpoint_row s id) [
  | none ↦ none
  | some c ↦ elim (run_row s c.scope_id c.run_id) [ none ↦ none | some run ↦ some (c, run) ]
]

module _ (env : Session) where
  -- Checkpoints.checksum
  unfoldable pub checksum : Payload → Exec Text
  unfolding payload_json
  checksum payload = digest env (codes "checkpoint-envelope-v1:" ++ payload_json payload)

  references_of : ℕ → Store → List MemoryReference
  unfolding to_reference
  references_of id s = order_by reference_before (
      map to_reference (
        select
          (λ (r : CheckpointReference).
            r.checkpoint_id == id && (visible env s id && visible env s r.source_id))
          s.checkpoint_references))

  -- Checkpoints.load
  unfoldable pub load : ℕ → Permission → Exec Saved
  unfolding joined_checkpoint references_of payload_of checksum state_valid order_by
  load checkpoint_id permission = do
    obj ← object env checkpoint_id permission
    require (kind_eq obj.kind Kind.checkpoint) (memory_error not_found 404)
    joined ← gets (λ s. joined_checkpoint s checkpoint_id)
    row ← or_raise joined (memory_error checkpoint_invalidated 409)
    require (not row.1.effects_invalidated) (memory_error checkpoint_invalidated 409)
    refs ← gets (references_of checkpoint_id)
    require (length refs == row.0.reference_count) (memory_error checkpoint_invalidated 409)
    expected ← checksum (payload_of row.0 row.1 refs)
    require (text_eq row.0.checksum expected) (memory_error checkpoint_invalidated 409)
    require (state_valid row.0.state) (memory_error checkpoint_invalidated 409)
    pure (record { payload = payload_of row.0 row.1 refs; checksum = row.0.checksum })

  -- Checkpoints.envelope
  unfoldable pub envelope : ℕ → Exec CheckpointEnvelope
  unfolding load reconcile
  envelope checkpoint_id = do
    saved ← load checkpoint_id read
    tenant ← gets (λ s. s.tenant)
    effects ← list_run env saved.payload.scope_id saved.payload.run_id
    pure (reconcile saved tenant effects)

  -- Checkpoints.head
  unfoldable pub head : CheckpointBranch → Exec CheckpointEnvelope
  unfolding envelope
  head request = do
    scope env request.scope_id read
    found ← gets (λ s. branch_row s request.scope_id request.run_id request.branch_id)
    branch ← or_raise found (memory_error not_found 404)
    require (not branch.invalidated) (memory_error checkpoint_invalidated 409)
    head_id ← or_raise branch.head_id (memory_error not_found 404)
    result ← envelope head_id
    require
        (result.saved.payload.scope_id == request.scope_id
          && (result.saved.payload.run_id == request.run_id
              && (result.saved.payload.branch_id == request.branch_id
                  && result.saved.payload.sequence == branch.sequence)))
        (memory_error checkpoint_invalidated 409)
    pure result

  references_in : List ValidReference → List MemoryReference
  references_in [] = []
  references_in (r ∷ rs) =
      record { memory_id = r.memory_id; revision = r.revision } ∷ references_in rs

  -- Checkpoints.insert
  unfoldable pub insert : CreateCheckpoint → ℕ → Option ℕ → Exec Reply
  unfolding checksum insert_checkpoint insert_checkpoint_reference references_in
  insert request sequence parent_id = do
    refs ← validate_refs env request.scope_id request.memory_refs invalid_checkpoint_reference
    tenant ← gets (λ s. s.tenant)
    checkpoint_id ← new_object env request.scope_id Kind.checkpoint
    sum ← checksum (record {
      checkpoint_id = checkpoint_id;
      scope_id = request.scope_id;
      run_id = request.run_id;
      branch_id = request.branch_id;
      sequence = sequence;
      parent_checkpoint = parent_id;
      harness_id = request.harness_id;
      harness_version = request.harness_version;
      state_schema_version = request.state_schema_version;
      event_watermark = request.event_watermark;
      state = request.state;
      memory_refs = references_in refs;
      saved_access_epoch = tenant.access_epoch;
      saved_deletion_epoch = tenant.deletion_epoch;
    })
    insert_checkpoint (record {
      id = checkpoint_id;
      scope_id = request.scope_id;
      run_id = request.run_id;
      branch_id = request.branch_id;
      sequence = sequence;
      parent_id = parent_id;
      state = request.state;
      event_watermark = request.event_watermark;
      reference_count = length refs;
      access_epoch = tenant.access_epoch;
      deletion_epoch = tenant.deletion_epoch;
      checksum = sum;
    })
    for_each refs (λ (ref : ValidReference). insert_checkpoint_reference (record {
      checkpoint_id = checkpoint_id;
      source_id = ref.memory_id;
      source_revision = ref.revision;
      source_kind = ref.kind;
    }))
    audit env checkpoint_saved checkpoint_id
    pure (checkpoint_reply checkpoint_id request.run_id request.branch_id sequence parent_id sum)

  check_watermark : CreateCheckpoint → Option ℕ → Exec (Unit {0})
  unfolding load
  check_watermark request none = pure tt
  check_watermark request (some head_id) = do
    parent ← load head_id read
    require (leb parent.payload.event_watermark request.event_watermark)
        (memory_error checkpoint_watermark_conflict 409)

  create_replayed : CreateCheckpoint → Text × Text × Option Reply → Exec Reply
  unfolding load insert insert_run insert_branch check_watermark distinct reply_id
  create_replayed request (key_hash, payload_hash, some previous) = do
    load (reply_id previous) write
    pure previous
  create_replayed request (key_hash, payload_hash, none) = do
    insert_run (record {
      scope_id = request.scope_id;
      run_id = request.run_id;
      harness_id = request.harness_id;
      harness_version = request.harness_version;
      state_schema_version = request.state_schema_version;
      effects_invalidated = false;
    })
    found_run ← gets (λ s. run_row s request.scope_id request.run_id)
    run ← or_raise found_run (memory_error checkpoint_harness_conflict 409)
    require (not run.effects_invalidated) (memory_error checkpoint_invalidated 409)
    require
        (text_eq run.harness_id request.harness_id
          && (text_eq run.harness_version request.harness_version
              && run.state_schema_version == request.state_schema_version))
        (memory_error checkpoint_harness_conflict 409)
    insert_branch request.scope_id request.run_id request.branch_id
    found ← gets (λ s. branch_row s request.scope_id request.run_id request.branch_id)
    branch ← or_raise found (memory_error not_found 404)
    require (not branch.invalidated) (memory_error checkpoint_invalidated 409)
    require (not (distinct branch.head_id request.expected_head))
        (memory_error checkpoint_head_conflict 409)
    check_watermark request request.expected_head
    result ← insert request (branch.sequence + 1) request.expected_head
    save_result env Operation.save_checkpoint key_hash payload_hash result
    pure result

  -- An effect that was dispatched when the state was saved may have happened since.
  unsettle : PendingEffect → PendingEffect
  unsettle e = elim e.status [
    | Rows.PendingStatus.planned ↦ e
    | Rows.PendingStatus.dispatched ↦ record e { status = Rows.PendingStatus.unknown }
    | Rows.PendingStatus.unknown ↦ e
  ]

  fork_of : Payload → RestoreCheckpoint → CreateCheckpoint
  unfolding unsettle
  fork_of saved request = record {
    scope_id = saved.scope_id;
    run_id = saved.run_id;
    branch_id = request.target_branch_id;
    expected_head = none;
    harness_id = request.harness_id;
    harness_version = request.harness_version;
    state_schema_version = request.state_schema_version;
    event_watermark = saved.event_watermark;
    state = record saved.state { pending_effects = map unsettle saved.state.pending_effects };
    memory_refs = saved.memory_refs;
  }

  restore_replayed :
      RestoreCheckpoint → Payload → Text × Text × Option Reply → Exec CheckpointEnvelope
  unfolding envelope insert insert_branch fork_of reply_id fence_restore
  restore_replayed request saved (key_hash, payload_hash, some previous) =
      envelope (reply_id previous)
  restore_replayed request saved (key_hash, payload_hash, none) = do
    require
        (text_eq saved.harness_id request.harness_id
          && (text_eq saved.harness_version request.harness_version
              && saved.state_schema_version == request.state_schema_version))
        (memory_error checkpoint_incompatible 422)
    inserted ← insert_branch saved.scope_id saved.run_id request.target_branch_id
    require inserted (memory_error checkpoint_branch_conflict 409)
    fence_restore env saved.scope_id saved.run_id
    result ← insert (fork_of saved request) 1 (some request.checkpoint_id)
    save_result env Operation.restore_checkpoint key_hash payload_hash result
    audit env checkpoint_restored (reply_id result)
    envelope (reply_id result)

  module _ (json : CheckpointJson) where
    -- Checkpoints.create
    unfoldable pub create : CreateCheckpoint → Text → Exec Reply
    unfolding create_replayed
    create request key = do
      scope env request.scope_id write
      replayed ← replay env Operation.save_checkpoint key (json.create_json request)
      create_replayed request replayed

    -- Checkpoints.restore
    unfoldable pub restore : RestoreCheckpoint → Text → Exec CheckpointEnvelope
    unfolding load restore_replayed
    restore request key = do
      saved ← load request.checkpoint_id write
      replayed ← replay env Operation.restore_checkpoint key (json.restore_json request)
      restore_replayed request saved.payload replayed

-- Opening this name opens every operation above: for tests.
unfoldable pub executing : Unit {0}
unfolding Effects.executing json_string load envelope head insert create restore reconcile
executing = tt
