-- ===== src/Jobs.antt =====
-- Jobs of src/pg_agmemory/jobs.py: the queue of durable jobs, each of which remembers one assertion.
pub mod Models
pub mod Database
pub mod Machine
pub mod Keeps
pub mod History
pub mod Ledger
pub mod Lease
pub mod Settles
pub mod Idle
pub mod Tests
use pg_agmemory.Prelude.{
  ℕ, ◌+◌, ◌*◌, Bool, true, false, not, ◌&&◌, ◌||◌, Option, none, some, List, [], ◌∷◌, ◌++◌, find,
  select, length, leb, ltb, ◌==◌, if◌then◌else◌,
}
use Prim.Native.Nat.{◌^◌}
use pg_agmemory.Text.{Text, codes, text_eq, uuid_text}
use pg_agmemory.Store.Tables.{
  Store, Permission, read, write, Kind, Operation, Action, job_enqueued, job_retried, job_cancelled,
  job_claimed, job_succeeded, job_failed, job_pending, Reply, job_reply, JobState, pending, running,
  succeeded, failed, cancelled, JobError, Evidence, Remember, Job, JobInput, JobIdentity,
}
use pg_agmemory.Store.Exec.{
  Exec, not_found, job_invalidated, job_retry_conflict, job_intent_conflict, job_limit_exceeded,
  job_cancel_conflict, job_lease_conflict, stale_context, memory_error, value_error, pure, gets,
  or_raise, require, ◌>>=◌, ◌>>◌, for_each,
}
use pg_agmemory.Store.Visibility.{Session, permitted, visible}
use pg_agmemory.Service
use pg_agmemory.Service.{
  MemoryReference, kind_eq, order_by, scope, object, digest, replay, save_result, audit, new_object,
  validate_evidence, draw,
}
use pg_agmemory.Service.Memory
use pg_agmemory.Service.Memory.{publish_assertion}
use pg_agmemory.Jobs.Database.{
  state_eq, id_eq, payload_eq, claimable, job_row, active_in, update_job, insert_job, insert_input,
  insert_identity,
}
use Models.{
  CancelJob, JobJson, LoadedJob, Claim, idle, exhausted, claimed, source_refs, source_before,
  evidence_before, claim_before, head, retry_text, retry_json, enqueue_message, cancel_message,
  enqueue_operation, enqueue_action,
}

-- 1 second, in microseconds
abbrev second : ℕ
second = 1000000

abbrev after_failure : Bool → Job → JobState
after_failure retry j = if retry && ltb j.attempt 5 then pending else failed

abbrev state_action : JobState → Action
state_action pending = job_pending
state_action _ = job_failed

-- GREATEST(lease_until + 1 microsecond, now + 30 seconds)
abbrev extended : ℕ → Option ℕ → Option ℕ
extended now none = some (now + 30 * second)
extended now (some until) =
    some (if leb (until + 1) (now + 30 * second) then now + 30 * second else until + 1)

-- row["lease_until"] <= current["now"]
abbrev pub lease_over : ℕ → Option ℕ → Bool
lease_over now none = true
lease_over now (some until) = leb until now

module _ (env : Session) where
  -- Jobs.load
  unfoldable pub load : ℕ → Permission → Exec LoadedJob
  load job_id permission = do
    obj ← object env job_id permission
    require (kind_eq obj.kind Kind.job) (memory_error not_found 404)
    found ← gets (λ s. job_row s job_id)
    row ← or_raise found (memory_error job_invalidated 409)
    inputs ← gets (λ s.
        order_by source_before
          (select (λ (i : JobInput). i.job_id == job_id && visible env s i.source_id) s.job_inputs))
    require (length inputs == row.reference_count) (memory_error job_invalidated 409)
    pure (record { job = row; input_refs = source_refs inputs })

  check_result : Option ℕ → Exec (Unit {0})
  check_result none = pure tt
  check_result (some id) = object env id read >> pure tt

  -- Jobs.get
  unfoldable pub get : ℕ → Exec LoadedJob
  unfolding load check_result
  get job_id = do row ← load job_id read; check_result row.job.result_id; pure row

  -- The checks of `enqueue` on the job that is retried.
  check_retry : Option ℕ → Text → Exec (Unit {0})
  unfolding load
  check_retry none intent = pure tt
  check_retry (some parent_id) intent = do
    parent ← load parent_id write
    require (parent.job.principal_id == env.principal) (memory_error not_found 404)
    require (state_eq parent.job.state failed) (memory_error job_retry_conflict 409)
    require (text_eq parent.job.intent_digest intent) (memory_error job_intent_conflict 409)

  -- The branch of `enqueue` for a request that is not queued yet.
  enqueue_new : Remember → Option ℕ → Text → Text → Exec ℕ
  unfolding insert_job insert_input insert_identity
  enqueue_new memory retry_of intent identity = do
    total ← gets (λ s.
        length (select (λ (j : Job). active_in memory.scope_id j && visible env s j.id) s.jobs))
    require (ltb total 100) (memory_error job_limit_exceeded 422)
    validate_evidence env memory.scope_id memory.evidence
    job_id ← new_object env memory.scope_id Kind.job
    epochs ← gets (λ s. s.tenant)
    insert_job env (record {
      id = job_id;
      scope_id = memory.scope_id;
      principal_id = env.principal;
      intent_digest = intent;
      retry_of = retry_of;
      state = pending;
      payload = some memory;
      reference_count = length memory.evidence;
      attempt = 0;
      lease_token = none;
      lease_until = none;
      available_at = env.now;
      captured_access_epoch = epochs.access_epoch;
      captured_deletion_epoch = epochs.deletion_epoch;
      result_id = none;
      error_code = none;
      created_at = env.now;
    })
    for_each memory.evidence
        (λ (e : Evidence). insert_input (record { job_id = job_id; source_id = e.memory_id }))
    insert_identity (record {
      scope_id = memory.scope_id;
      principal_id = env.principal;
      input_digest = identity;
      job_id = job_id;
    })
    audit env (enqueue_action retry_of) job_id
    pure job_id

  identity_row : ℕ → Text → Store → Option JobIdentity
  identity_row scope_id identity s =
      find
        (λ (i : JobIdentity).
          i.scope_id == scope_id
          && (i.principal_id == env.principal && text_eq i.input_digest identity))
        s.job_identities

  enqueue_identified : Remember → Option ℕ → Text → Text → Option JobIdentity → Exec ℕ
  unfolding load enqueue_new
  enqueue_identified memory retry_of intent identity none =
      enqueue_new memory retry_of intent identity
  enqueue_identified memory retry_of intent identity (some duplicate) = do
    load duplicate.job_id write
    pure duplicate.job_id

  module _ (json : JobJson) where
    enqueue_replayed : Remember → Option ℕ → Text × Text × Option Reply → Exec Reply
    unfolding check_retry identity_row enqueue_identified retry_text
    enqueue_replayed memory retry_of (key_hash, request_hash, some previous) = pure previous
    enqueue_replayed memory retry_of (key_hash, request_hash, none) = do
      intent ← digest env (
          codes "structured-remember-v1:"
          ++ json.memory_json
              (record memory { evidence = order_by evidence_before memory.evidence }))
      check_retry retry_of intent
      identity ←
          digest env (codes "job-identity-v1:" ++ (intent ++ (codes ":" ++ retry_text retry_of)))
      duplicate ← gets (identity_row memory.scope_id identity)
      job_id ← enqueue_identified memory retry_of intent identity duplicate
      save_result env (enqueue_operation retry_of) key_hash request_hash (job_reply job_id)
      pure (job_reply job_id)

    -- Jobs.enqueue
    unfoldable pub enqueue : Remember → Text → Option ℕ → Exec Reply
    unfolding enqueue_replayed enqueue_message
    enqueue memory key retry_of = do
      scope env memory.scope_id write
      replayed ←
          replay env (enqueue_operation retry_of) key
            (enqueue_message retry_of (json.enqueue_json memory))
      enqueue_replayed memory retry_of replayed

  cancel_replayed : ℕ → CancelJob → Text × Text × Option Reply → Exec Reply
  cancel_replayed job_id request (key_hash, request_hash, some previous) = pure previous
  cancel_replayed job_id request (key_hash, request_hash, none) = do
    updated ←
        update_job env job_id
          (λ (o : Job).
            state_eq o.state request.expected_state && o.attempt == request.expected_attempt)
          (λ (o : Job). record o {
            state = cancelled;
            payload = none;
            lease_token = none;
            lease_until = none;
            error_code = none;
          })
    or_raise updated (memory_error job_cancel_conflict 409)
    audit env job_cancelled job_id
    save_result env Operation.cancel_job key_hash request_hash (job_reply job_id)
    pure (job_reply job_id)

  module _ (json : JobJson) where
    -- Jobs.cancel
    unfoldable pub cancel : ℕ → CancelJob → Text → Exec Reply
    unfolding load cancel_replayed cancel_message
    cancel job_id request key = do
      row ← load job_id write
      require (row.job.principal_id == env.principal) (memory_error not_found 404)
      replayed ←
          replay env Operation.cancel_job key (cancel_message job_id (json.cancel_json request))
      cancel_replayed job_id request replayed

  -- The job that `claim` selects.
  ready_job : Store → Option Job
  ready_job s = head (
      order_by claim_before (
        select
          (λ (j : Job).
            j.principal_id == env.principal
            && (permitted env s j.scope_id write && (visible env s j.id && claimable env.now j)))
          s.jobs))

  exhaust : ℕ → Exec Claim
  exhaust job_id = do
    update_job env job_id (λ _. true)
        (λ (o : Job). record o {
          state = failed;
          payload = none;
          lease_token = none;
          lease_until = none;
          error_code = some JobError.attempt_limit;
        })
    audit env job_failed job_id
    pure (exhausted job_id)

  start_attempt : ℕ → ℕ → Exec Claim
  start_attempt lease_seconds job_id = do
    token ← draw env
    epochs ← gets (λ s. s.tenant)
    updated ←
        update_job env job_id (λ _. true)
          (λ (o : Job). record o {
            state = running;
            attempt = o.attempt + 1;
            lease_token = some token;
            lease_until = some (env.now + lease_seconds * second);
            captured_access_epoch = epochs.access_epoch;
            captured_deletion_epoch = epochs.deletion_epoch;
            error_code = none;
          })
    row ← or_raise updated (memory_error job_invalidated 409)
    audit env job_claimed job_id
    pure (claimed job_id row.payload token row.attempt)

  claim_row : ℕ → Option Job → Exec Claim
  unfolding load exhaust start_attempt
  claim_row lease_seconds none = pure idle
  claim_row lease_seconds (some row) = do
    found ← load row.id write
    (if found.job.attempt == 5 then exhaust row.id else start_attempt lease_seconds row.id)

  -- Jobs.claim
  unfoldable pub claim : ℕ → Exec Claim
  unfolding ready_job claim_row
  claim lease_seconds = do
    require (leb 1 lease_seconds && leb lease_seconds 300) value_error
    row ← gets ready_job
    claim_row lease_seconds row

  -- Jobs.lease
  unfoldable pub lease : ℕ → ℕ → Bool → Exec LoadedJob
  unfolding load
  lease job_id token epochs = do
    row ← load job_id write
    require (row.job.principal_id == env.principal) (memory_error not_found 404)
    current ← gets (λ s. s.tenant)
    require
        (state_eq row.job.state running
          && (id_eq row.job.lease_token (some token)
              && not (lease_over env.now row.job.lease_until)))
        (memory_error job_lease_conflict 409)
    require
        (not epochs
          || (row.job.captured_access_epoch == current.access_epoch
              && row.job.captured_deletion_epoch == current.deletion_epoch))
        (memory_error stale_context 409)
    pure row

  -- Jobs.heartbeat
  unfoldable pub heartbeat : ℕ → ℕ → Exec (Unit {0})
  unfolding lease
  heartbeat job_id token = do
    lease job_id token true
    update_job env job_id (λ _. true)
        (λ (o : Job). record o { lease_until = extended env.now o.lease_until })
    pure tt

  abbrev pub payload_is : Remember → Option Remember → Bool
  payload_is prepared none = false
  payload_is prepared (some payload) = payload_eq prepared payload

  -- UUID(result["memory_id"])
  unfoldable pub result_memory : Reply → ℕ
  result_memory (Reply.assertion_reply memory_id _) = memory_id
  result_memory (Reply.effect_reply memory_id _ _) = memory_id
  result_memory (Reply.observe_reply memory_id) = memory_id
  result_memory (Reply.job_reply job_id) = job_id
  result_memory (Reply.capture_reply memory_id _) = memory_id
  result_memory (Reply.batch_reply memory_id _) = memory_id
  result_memory (Reply.entity_reply memory_id) = memory_id
  result_memory (Reply.checkpoint_reply checkpoint_id _ _ _ _ _) = checkpoint_id
  result_memory (Reply.forget_reply deletion_id _ _ _) = deletion_id

  -- Jobs.publish
  unfoldable pub publish : ℕ → ℕ → Remember → Exec Reply
  unfolding lease payload_eq result_memory
  publish job_id token prepared = do
    row ← lease job_id token true
    require (payload_is prepared row.job.payload) (memory_error job_intent_conflict 409)
    result ← publish_assertion env prepared
    saved ←
        update_job env job_id
          (λ (o : Job). id_eq o.lease_token (some token) && not (lease_over env.now o.lease_until))
          (λ (o : Job). record o {
            state = succeeded;
            result_id = some (result_memory result);
            payload = none;
            lease_token = none;
            lease_until = none;
            error_code = none;
          })
    or_raise saved (memory_error job_lease_conflict 409)
    audit env job_succeeded job_id
    pure result

  -- Jobs.fail; `jitter` is secrets.randbelow(1000), in milliseconds.
  unfoldable pub fail : ℕ → ℕ → JobError → Bool → ℕ → Exec JobState
  unfolding lease
  fail job_id token code retry jitter = do
    row ← lease job_id token false
    update_job env job_id (λ _. true)
        (λ (o : Job). record o {
          state = after_failure retry row.job;
          payload = elim (after_failure retry row.job) [ failed ↦ none | _ ↦ o.payload ];
          lease_token = none;
          lease_until = none;
          error_code = some code;
          available_at = env.now + 2 ^ row.job.attempt * second + jitter * 1000;
        })
    audit env (state_action (after_failure retry row.job)) job_id
    pure (after_failure retry row.job)

-- Opening this name opens every operation above: for tests.
unfoldable pub executing : Unit {0}
unfolding Service.Memory.executing payload_eq update_job insert_job insert_input insert_identity
    load get enqueue cancel claim lease heartbeat publish fail
executing = tt
