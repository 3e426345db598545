-- ===== src/Worker.antt =====
-- The worker of src/pg_agmemory/worker.py: run_once claims a job, publishes its memory, and records a
-- failure of the attempt. Each step is a transaction of its own; others may come between them.
pub mod Verdicts
mod Tests
use pg_agmemory.Prelude.{
  ℕ, Bool, true, false, ◌&&◌, ◌||◌, Option, none, some, List, [], ◌∷◌, ◌==◌, if◌then◌else◌,
}
use pg_agmemory.Store.Tables.{
  Store, JobState, pending, failed, JobError, dependency_unavailable, stale_context, invalid_input,
  Remember, Reply,
}
use pg_agmemory.Store.Exec.{
  Exec, Result, ok, err, Failure, Code, memory_error, database_error, serialization_failure,
  value_error, tokenizer_unavailable,
}
use pg_agmemory.Store.Exec
use pg_agmemory.Store.Visibility.{Session}
use pg_agmemory.Jobs.{claim, publish, fail}
use pg_agmemory.Jobs.Models.{Claim, idle, exhausted, claimed}

-- What run_once returns, or raises.
pub data Outcome : Type 0 where
  outcome_idle : Outcome
  outcome_failed : ℕ → Outcome
  outcome_succeeded : ℕ → Reply → Outcome
  outcome_lease_lost : ℕ → Outcome
  outcome_state : ℕ → JobState → Outcome
  raised : Failure → Outcome

-- What the worker makes of a failure of `publish`.
pub data Verdict : Type 0 where
  lease_lost : Verdict
  record_failure : JobError → Bool → Verdict
  reraise : Failure → Verdict

-- exc.code in ("not_found", "unauthenticated", "job_lease_conflict")
unfoldable pub is_lost : Code → Bool
is_lost Code.not_found = true
is_lost Code.unauthenticated = true
is_lost Code.job_lease_conflict = true
is_lost _ = false

unfoldable pub judge_code : Code → ℕ → Verdict
judge_code Code.stale_context status = record_failure JobError.stale_context true
judge_code Code.invalid_evidence status = record_failure invalid_input false
judge_code Code.job_intent_conflict status = record_failure invalid_input false
judge_code code status = if is_lost code then lease_lost else reraise (memory_error code status)

-- The except clauses of the first `try`. SQLSTATE 40001 is a psycopg.OperationalError; a constraint
-- or a trigger that refuses a row is not.
unfoldable pub judge : Failure → Verdict
unfolding judge_code
judge (memory_error code status) = judge_code code status
judge tokenizer_unavailable = record_failure dependency_unavailable true
judge serialization_failure = record_failure dependency_unavailable true
judge database_error = reraise database_error
judge value_error = reraise value_error

-- The outcome of the last transaction, which records the failure.
after_fail : ℕ → Store → Result (JobState × Store) → Outcome × Store
after_fail job_id s (ok (state, s')) = (outcome_state job_id state, s')
after_fail job_id s (err (memory_error code status)) =
    if is_lost code then (outcome_lease_lost job_id, s) else (raised (memory_error code status), s)
after_fail job_id s (err e) = (raised e, s)

-- `at_claim`, `at_publish` and `at_fail` are the worker's sessions of its three transactions;
-- `meanwhile` and `later` what others do to the store between them; `valid` tells whether
-- Remember.model_validate accepts the payload; `jitter` is secrets.randbelow(1000).
module _ (at_claim at_publish at_fail : Session) (meanwhile later : Store → Store)
    (valid : Remember → Bool) (jitter : ℕ) where
  conclude : ℕ → ℕ → Verdict → Store → Outcome × Store
  unfolding after_fail
  conclude job_id token lease_lost s = (outcome_lease_lost job_id, s)
  conclude job_id token (reraise e) s = (raised e, s)
  conclude job_id token (record_failure code retry) s =
      after_fail job_id (later s) (fail at_fail job_id token code retry jitter (later s))

  after_publish : ℕ → ℕ → Store → Result (Reply × Store) → Outcome × Store
  unfolding conclude judge
  after_publish job_id token s (ok (result, s')) = (outcome_succeeded job_id result, s')
  after_publish job_id token s (err e) = conclude job_id token (judge e) s

  publish_prepared : ℕ → ℕ → Remember → Store → Outcome × Store
  unfolding after_publish
  publish_prepared job_id token prepared s =
      after_publish job_id token s (publish at_publish job_id token prepared s)

  attempt : ℕ → Option Remember → ℕ → Store → Outcome × Store
  unfolding publish_prepared conclude
  attempt job_id none token s = conclude job_id token (record_failure invalid_input false) s
  attempt job_id (some prepared) token s =
      if valid prepared
      then publish_prepared job_id token prepared (meanwhile s)
      else conclude job_id token (record_failure invalid_input false) s

  after_claim : Store → Result (Claim × Store) → Outcome × Store
  unfolding attempt
  after_claim s (ok (idle, s')) = (outcome_idle, s')
  after_claim s (ok (exhausted job_id, s')) = (outcome_failed job_id, s')
  after_claim s (ok (claimed job_id payload token n, s')) = attempt job_id payload token s'
  after_claim s (err e) = (raised e, s)

  -- run_once, with the default lease of 30 seconds
  unfoldable pub run_once : Store → Outcome × Store
  unfolding after_claim
  run_once s = after_claim s (claim at_claim 30 s)
