-- ===== src/Jobs/Models.antt =====
-- The requests and answers of src/pg_agmemory/jobs.py, and the texts that its digests cover.
use pg_agmemory.Prelude.{
  ℕ, Bool, ◌&&◌, ◌||◌, Option, none, some, List, [], ◌∷◌, ◌++◌, leb, ltb, ◌==◌,
}
use pg_agmemory.Text.{Text, codes, uuid_text}
use pg_agmemory.Store.Tables.{
  Operation, Action, job_enqueued, job_retried, JobState, Evidence, Remember, Job, JobInput,
}
use pg_agmemory.Service.{MemoryReference}

-- models.CancelJob
pub record CancelJob : Type 0 where
  pub expected_state : JobState
  pub expected_attempt : ℕ

-- pydantic's JSON of the requests, with sorted keys: an EnqueueJob by its memory, the memory alone,
-- and a CancelJob.
pub record JobJson : Type 0 where
  pub enqueue_json : Remember → Text
  pub memory_json : Remember → Text
  pub cancel_json : CancelJob → Text

-- What `load` returns: the row and its inputs.
pub record LoadedJob : Type 0 where
  pub job : Job
  pub input_refs : List MemoryReference

pub data Claim : Type 0 where
  idle : Claim
  exhausted : ℕ → Claim
  claimed : ℕ → Option Remember → ℕ → ℕ → Claim

abbrev pub source_refs : List JobInput → List MemoryReference
source_refs [] = []
source_refs (i ∷ l) = record { memory_id = i.source_id; revision = 1 } ∷ source_refs l

abbrev pub source_before : JobInput → JobInput → Bool
source_before a b = leb a.source_id b.source_id

abbrev pub evidence_before : Evidence → Evidence → Bool
evidence_before a b = leb a.memory_id b.memory_id

-- ORDER BY available_at, created_at, id
abbrev pub claim_before : Job → Job → Bool
claim_before a b =
    ltb a.available_at b.available_at
    || (a.available_at == b.available_at
        && (ltb a.created_at b.created_at || (a.created_at == b.created_at && leb a.id b.id)))

abbrev pub head : List Job → Option Job
head [] = none
head (j ∷ l) = some j

-- str(retry_of)
unfoldable pub retry_text : Option ℕ → Text
retry_text none = codes "None"
retry_text (some id) = uuid_text id

unfoldable pub retry_json : Option ℕ → Text
retry_json none = codes "null"
retry_json (some id) = codes "\"" ++ (uuid_text id ++ codes "\"")

-- json.dumps({"retry_of": ..., "request": ...}, sort_keys=True)
unfoldable pub enqueue_message : Option ℕ → Text → Text
unfolding retry_json
enqueue_message retry_of request =
    codes "{\"request\": "
    ++ (request ++ (codes ", \"retry_of\": " ++ (retry_json retry_of ++ codes "}")))

-- json.dumps({"job_id": ..., "request": ...}, sort_keys=True)
unfoldable pub cancel_message : ℕ → Text → Text
cancel_message job_id request =
    codes "{\"job_id\": \""
    ++ (uuid_text job_id ++ (codes "\", \"request\": " ++ (request ++ codes "}")))

abbrev pub enqueue_operation : Option ℕ → Operation
enqueue_operation none = Operation.enqueue_job
enqueue_operation (some id) = Operation.retry_job

abbrev pub enqueue_action : Option ℕ → Action
enqueue_action none = job_enqueued
enqueue_action (some id) = job_retried
