-- ===== src/Capture.antt =====
-- Captures of src/pg_agmemory/capture.py: an episode is observed and what is to be remembered of it
-- is queued, in one transaction.
mod Tests
use pg_agmemory.Prelude.{ℕ, suc, Option, none, some, List, [], ◌∷◌, ◌++◌}
use pg_agmemory.Text.{Text, codes, decimal}
use pg_agmemory.Store.Tables.{
  write, Operation, Action, captured, batch_captured, Reply, capture_reply, batch_reply, Remember,
}
use pg_agmemory.Store.Exec.{Exec, pure, ◌>>=◌, ◌>>◌}
use pg_agmemory.Store.Visibility.{Session}
use pg_agmemory.Service
use pg_agmemory.Service.{scope, replay, save_result, audit}
use pg_agmemory.Service.Memory.{Observe, MemoryJson, observe}
use pg_agmemory.Jobs
use pg_agmemory.Jobs.{enqueue, result_memory}
use pg_agmemory.Jobs.Models.{JobJson}

-- models.CapturedMemory; `explicit_intent` is always true.
pub record CapturedMemory : Type 0 where
  pub subject : Text
  pub predicate : Text
  pub value : Text
  pub evidence_quote : Text
  pub valid_from : Option ℕ
  pub valid_to : Option ℕ

-- models.Capture
pub record CaptureRequest : Type 0 where
  pub episode : Observe
  pub memory : CapturedMemory

-- models.CaptureBatch
pub record CaptureBatch : Type 0 where
  pub episode : Observe
  pub memories : List CapturedMemory

-- CapturedMemory.remember
unfoldable pub remember_of : CapturedMemory → ℕ → ℕ → Remember
remember_of memory scope_id episode_id = record {
  scope_id = scope_id;
  subject = memory.subject;
  predicate = memory.predicate;
  value = memory.value;
  evidence = record { memory_id = episode_id; quote = memory.evidence_quote } ∷ [];
  valid_from = memory.valid_from;
  valid_to = memory.valid_to;
}

-- pydantic's JSON of the requests.
pub record CaptureJson : Type 0 where
  pub capture_json : CaptureRequest → Text
  pub batch_json : CaptureBatch → Text
  pub memory : MemoryJson
  pub job : JobJson

module _ (env : Session) (json : CaptureJson) where
  create_replayed : CaptureRequest → Text × Text × Option Reply → Exec Reply
  unfolding remember_of result_memory
  create_replayed request (key_hash, payload_hash, some previous) = pure previous
  create_replayed request (key_hash, payload_hash, none) = do
    episode ← observe env json.memory request.episode (codes "capture-observe-v1:" ++ key_hash)
    job ←
        enqueue env json.job
          (remember_of request.memory request.episode.scope_id (result_memory env episode))
          (codes "capture-job-v1:" ++ key_hash) none
    save_result env Operation.capture key_hash payload_hash
        (capture_reply (result_memory env episode) (result_memory env job))
    audit env captured (result_memory env episode)
    pure (capture_reply (result_memory env episode) (result_memory env job))

  -- Captures.create
  unfoldable pub create : CaptureRequest → Text → Exec Reply
  unfolding create_replayed
  create request key = do
    scope env request.episode.scope_id write
    replayed ← replay env Operation.capture key (json.capture_json request)
    create_replayed request replayed

  -- The key of one job of a batch.
  batch_key : Text → ℕ → Text
  batch_key key_hash index =
      codes "capture-batch-job-v1:" ++ (key_hash ++ (codes ":" ++ decimal index))

  -- The loop over the memories, from one index on.
  pub enqueue_all : ℕ → ℕ → Text → ℕ → List CapturedMemory → Exec (List ℕ)
  unfolding remember_of result_memory batch_key
  enqueue_all scope_id episode_id key_hash index [] = pure []
  enqueue_all scope_id episode_id key_hash index (memory ∷ memories) = do
    job ←
        enqueue env json.job (remember_of memory scope_id episode_id) (batch_key key_hash index)
          none
    rest ← enqueue_all scope_id episode_id key_hash (suc index) memories
    pure (result_memory env job ∷ rest)

  batch_replayed : CaptureBatch → Text × Text × Option Reply → Exec Reply
  unfolding enqueue_all result_memory
  batch_replayed request (key_hash, payload_hash, some previous) = pure previous
  batch_replayed request (key_hash, payload_hash, none) = do
    episode ←
        observe env json.memory request.episode (codes "capture-batch-observe-v1:" ++ key_hash)
    job_ids ←
        enqueue_all request.episode.scope_id (result_memory env episode) key_hash 0 request.memories
    save_result env Operation.capture_batch key_hash payload_hash
        (batch_reply (result_memory env episode) job_ids)
    audit env batch_captured (result_memory env episode)
    pure (batch_reply (result_memory env episode) job_ids)

  -- Captures.create_batch
  unfoldable pub create_batch : CaptureBatch → Text → Exec Reply
  unfolding batch_replayed
  create_batch request key = do
    scope env request.episode.scope_id write
    replayed ← replay env Operation.capture_batch key (json.batch_json request)
    batch_replayed request replayed

-- Opening this name opens every operation above: for tests.
unfoldable pub executing : Unit {0}
unfolding Jobs.executing remember_of create create_batch
executing = tt
