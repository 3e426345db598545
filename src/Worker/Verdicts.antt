-- ===== src/Worker/Verdicts.antt =====
-- What a run of the worker comes to after it has claimed a job (src/pg_agmemory/worker.py).
use pg_agmemory.Prelude.{ℕ, ◌≡◌, Bool, true, false}
use pg_agmemory.Store.Tables.{
  Store, JobState, JobError, dependency_unavailable, stale_context, invalid_input, Remember,
}
use pg_agmemory.Store.Exec.{
  ok, err, Failure, Code, memory_error, database_error, serialization_failure, value_error,
  tokenizer_unavailable,
}
use pg_agmemory.Store.Visibility.{Session}
use pg_agmemory.Jobs.{fail}
use pg_agmemory.Worker.{Outcome, outcome_lease_lost, outcome_state, raised, run_once}

-- The job is no longer the worker's.
pub data Lost : Failure → Type 0 where
  not_there : {status : ℕ} → Lost (memory_error Code.not_found status)
  not_known : {status : ℕ} → Lost (memory_error Code.unauthenticated status)
  taken_over : {status : ℕ} → Lost (memory_error Code.job_lease_conflict status)

-- The failures that are recorded in the job: under which code, and whether another attempt may help.
pub data Recorded : Failure → JobError → Bool → Type 0 where
  stale : {status : ℕ} → Recorded (memory_error Code.stale_context status) stale_context true
  no_tokenizer : Recorded tokenizer_unavailable dependency_unavailable true
  conflict : Recorded serialization_failure dependency_unavailable true
  bad_evidence :
      {status : ℕ} → Recorded (memory_error Code.invalid_evidence status) invalid_input false
  other_payload :
      {status : ℕ} → Recorded (memory_error Code.job_intent_conflict status) invalid_input false

-- All other failures of the service, and those of the database and the program that are no collision.
pub data Unhandled : Failure → Type 0 where
  refused_row : Unhandled database_error
  bad_value : Unhandled value_error
  other_code :
      {code : Code} {status : ℕ}
      → ¬ Lost (memory_error code status)
      → ((c : JobError) (retry : Bool) → ¬ Recorded (memory_error code status) c retry)
      → Unhandled (memory_error code status)

module _ (at_claim at_publish at_fail : Session) (meanwhile later : Store → Store)
    (valid : Remember → Bool) (jitter : ℕ) where
  abbrev run : Store → Outcome × Store
  run = run_once at_claim at_publish at_fail meanwhile later valid jitter

  -- What comes of a failure to publish: of a lost lease, of one that is recorded, whether recording it
  -- succeeds or not, and of any other.
  abbrev pub AfterFailure : ℕ → ℕ → Store → Failure → Outcome × Store → Type 0
  AfterFailure id token t e end =
      (Lost e → end ≡ (outcome_lease_lost id, t))
      × ((c : JobError) (retry : Bool)
          → Recorded e c retry
          → ((st : JobState) (s' : Store)
              → fail at_fail id token c retry jitter (later t) ≡ ok (st, s')
              → end ≡ (outcome_state id st, s'))
            × ((f : Failure)
                → fail at_fail id token c retry jitter (later t) ≡ err f
                → (Lost f → end ≡ (outcome_lease_lost id, later t))
                  × (¬ Lost f → end ≡ (raised f, later t))))
      × (Unhandled e → end ≡ (raised e, t))
