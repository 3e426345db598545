-- ===== src/Effects.antt =====
-- ToolEffects of src/pg_agmemory/effects.py: the durable ledger of a run's tool effects, with the
-- triggers of storage/004_tool_effects.sql that guard its tables.
pub mod Rows
pub mod Models
pub mod Database
pub mod Status
pub mod Invariant
pub mod Operations
pub mod Ledger
mod Tests
use pg_agmemory.Prelude.{
  ℕ, zero, suc, ◌+◌, Bool, true, false, not, ◌&&◌, ◌||◌, Option, none, some, List, [], ◌∷◌, ◌++◌,
  any, find, select, length, leb, ltb, ◌==◌, if◌then◌else◌,
}
use pg_agmemory.Text.{Text, codes, text_eq, uuid_text, json_string_ascii}
use pg_agmemory.Store.Tables.{
  Store, Permission, read, write, EffectStatus, planned, dispatched, unknown, confirmed, failed,
  ReceiptSource, Origin, api, checkpoint_restore, Operation, plan_tool_effect,
  transition_tool_effect, Action, effect_status, Reply, effect_reply, Run, ToolEffect,
  EffectRevision, EffectReference, EffectIdentity,
}
use pg_agmemory.Store.Tables.{Kind}
use pg_agmemory.Store.Exec.{
  Exec, not_found, effect_invalidated, operation_conflict, effect_run_invalidated,
  effect_limit_exceeded, invalid_effect_reference, revision_conflict, effect_transition_conflict,
  memory_error, pure, raise, gets, or_raise, require, modify, ◌>>=◌, ◌>>◌, for_each,
}
use pg_agmemory.Store.Visibility.{Session, visible}
use pg_agmemory.Service.{
  request_json, MemoryReference, ValidReference, order_by, reference_before, kind_eq, scope, object,
  digest, replay, save_result, audit, new_object, validate_refs,
}
use pg_agmemory.Service
use Status.{status_eq, adoptable, transitions, status_in}
use Database.{
  effect_row, revision_row, run_row, effect_references_of, insert_effect, insert_reference,
  insert_identity, insert_revision,
}
use Models.{
  PlanToolEffect, TransitionToolEffect, EffectJson, LoadedEffect, EffectDetail, EffectSummary,
  dispatch_json,
}
use Rows.{
  joined_effect, summary_of, summaries, operation_before, revision_before, to_reference, reply_id,
}

module _ (env : Session) where
  -- ToolEffects.load
  unfoldable pub load : ℕ → Permission → Exec LoadedEffect
  unfolding joined_effect to_reference
  load effect_id permission = do
    obj ← object env effect_id permission
    require (kind_eq obj.kind Kind.tool_effect) (memory_error not_found 404)
    joined ← gets (λ s. joined_effect s effect_id)
    row ← or_raise joined (memory_error effect_invalidated 409)
    refs ← gets (λ s. effect_references_of env s effect_id)
    require (length refs == row.0.reference_count) (memory_error effect_invalidated 409)
    pure (record {
      effect = row.0;
      status = row.1;
      run_invalidated = row.2;
      memory_refs = order_by reference_before (to_reference refs);
    })

  -- ToolEffects.get
  unfoldable pub get : ℕ → Exec EffectDetail
  unfolding load
  get effect_id = do
    row ← load effect_id read
    history ← gets (λ s.
        order_by revision_before
          (select (λ (r : EffectRevision). r.effect_id == effect_id) s.effect_revisions))
    require (length history == row.effect.current_revision) (memory_error effect_invalidated 409)
    pure (record { loaded = row; history = history })

  -- ToolEffects.list_run
  unfoldable pub list_run : ℕ → ℕ → Exec (List EffectSummary)
  unfolding summaries
  list_run scope_id run_id = gets (λ s. order_by operation_before (
      summaries s (
        select
          (λ (e : ToolEffect). e.scope_id == scope_id && (e.run_id == run_id && visible env s e.id))
          s.effects)))

  -- ToolEffects.append
  unfoldable pub append :
      ℕ → ℕ → EffectStatus → Text → Origin → Option Text → Option ReceiptSource → Exec Reply
  unfolding insert_revision
  append effect_id revision status reason origin receipt_reference receipt_source = do
    insert_revision (record {
      effect_id = effect_id;
      revision = revision;
      status = status;
      recorded_at = env.now;
      actor_id = env.principal;
      reason = reason;
      receipt_reference = receipt_reference;
      receipt_source = receipt_source;
      origin = origin;
    })
    audit env (effect_status status) effect_id
    pure (effect_reply effect_id revision status)

  fingerprint_message : PlanToolEffect → Text
  fingerprint_message request = codes "effect-action-v1:" ++ request.action_hash

  dispatch_message : PlanToolEffect → Text → Text
  unfolding dispatch_json
  dispatch_message request fingerprint =
      codes "effect-dispatch-v1:" ++ dispatch_json request fingerprint

  -- The rows of a new effect, and its first revision.
  insert_plan : PlanToolEffect → Text → Text → Text → List ValidReference → Exec Reply
  unfolding insert_effect insert_reference insert_identity append
  insert_plan request fingerprint external_key request_hash refs = do
    effect_id ← new_object env request.scope_id Kind.tool_effect
    insert_effect (record {
      id = effect_id;
      scope_id = request.scope_id;
      run_id = request.run_id;
      operation_id = request.operation_id;
      tool_name = request.tool_name;
      action_fingerprint = fingerprint;
      external_idempotency_key = external_key;
      current_revision = 1;
      reference_count = length refs;
    })
    for_each refs (λ (ref : ValidReference). insert_reference (record {
      effect_id = effect_id;
      source_id = ref.memory_id;
      source_revision = ref.revision;
      source_kind = ref.kind;
    }))
    insert_identity (record {
      scope_id = request.scope_id;
      run_id = request.run_id;
      operation_id = request.operation_id;
      effect_id = effect_id;
      request_digest = request_hash;
    })
    append effect_id 1 planned (codes "Intent recorded") api none none

  -- The branch of `plan` for an operation that the run does not know yet.
  plan_new : PlanToolEffect → Text → Exec Reply
  unfolding insert_plan list_run fingerprint_message dispatch_message
  plan_new request request_hash = do
    row ← gets (λ s. run_row s request.scope_id request.run_id)
    run ← or_raise row (memory_error not_found 404)
    require (not run.effects_invalidated) (memory_error effect_run_invalidated 409)
    current ← list_run request.scope_id request.run_id
    require (ltb (length current) 100) (memory_error effect_limit_exceeded 422)
    refs ← validate_refs env request.scope_id request.memory_refs invalid_effect_reference
    fingerprint ← digest env (fingerprint_message request)
    external_key ← digest env (dispatch_message request fingerprint)
    insert_plan request fingerprint external_key request_hash refs

  identity_row : PlanToolEffect → Store → Option EffectIdentity
  identity_row request s =
      find
        (λ (i : EffectIdentity).
          i.scope_id == request.scope_id
          && (i.run_id == request.run_id && i.operation_id == request.operation_id))
        s.effect_identities

  plan_identified : PlanToolEffect → Text → Option EffectIdentity → Exec Reply
  unfolding plan_new load
  plan_identified request request_hash none = plan_new request request_hash
  plan_identified request request_hash (some identity) = do
    require (text_eq identity.request_digest request_hash) (memory_error operation_conflict 409)
    load identity.effect_id write
    pure (effect_reply identity.effect_id 1 planned)

  plan_replayed : PlanToolEffect → Text × Text × Option Reply → Exec Reply
  unfolding load identity_row plan_identified reply_id
  plan_replayed request (key_hash, request_hash, some previous) = do
    load (reply_id previous) write
    pure previous
  plan_replayed request (key_hash, request_hash, none) = do
    identity ← gets (identity_row request)
    result ← plan_identified request request_hash identity
    save_result env plan_tool_effect key_hash request_hash result
    pure result

  transition_replayed :
      ℕ → TransitionToolEffect → LoadedEffect → Text × Text × Option Reply → Exec Reply
  unfolding append
  transition_replayed effect_id request row (key_hash, request_hash, some previous) = pure previous
  transition_replayed effect_id request row (key_hash, request_hash, none) = do
    require (request.expected_revision == row.effect.current_revision)
        (memory_error revision_conflict 409)
    require (status_in request.status (transitions row.status))
        (memory_error effect_transition_conflict 409)
    require (not (status_eq request.status dispatched && row.run_invalidated))
        (memory_error effect_run_invalidated 409)
    result ←
        append effect_id (request.expected_revision + 1) request.status request.reason api
          request.receipt_reference request.receipt_source
    save_result env transition_tool_effect key_hash request_hash result
    pure result

  unfoldable pub fence_one : EffectSummary → Exec (Unit {0})
  unfolding append
  fence_one effect =
      if status_eq effect.status dispatched
      then (do
        append effect.memory_id (effect.revision + 1) unknown
            (codes "Reconciliation required by checkpoint restore") checkpoint_restore none none
        pure tt)
      else pure tt

  -- ToolEffects.fence_restore
  unfoldable pub fence_restore : ℕ → ℕ → Exec (Unit {0})
  unfolding list_run fence_one
  fence_restore scope_id run_id = do current ← list_run scope_id run_id; for_each current fence_one

  module _ (json : EffectJson) where
    -- ToolEffects.plan
    unfoldable pub plan : PlanToolEffect → Text → Exec Reply
    unfolding plan_replayed
    plan request key = do
      scope env request.scope_id write
      replayed ← replay env plan_tool_effect key (json.plan_json request)
      plan_replayed request replayed

    -- ToolEffects.transition
    unfoldable pub transition : ℕ → TransitionToolEffect → Text → Exec Reply
    unfolding load request_json transition_replayed
    transition effect_id request key = do
      row ← load effect_id write
      replayed ←
          replay env transition_tool_effect key
            (request_json effect_id (json.transition_json request))
      transition_replayed effect_id request row replayed

-- Opening this name opens every operation of the ledger: for tests.
unfoldable pub executing : Unit {0}
unfolding Service.executing adoptable transitions insert_effect insert_reference insert_identity
    insert_revision load get list_run append plan transition fence_restore
executing = tt
