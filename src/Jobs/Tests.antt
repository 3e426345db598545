-- ===== src/Jobs/Tests.antt =====
-- The job queue on a concrete store, and the theorems applied to it.
use pg_agmemory.Prelude.{ℕ, ◌+◌, ◌≡◌, ◌≤◌, refl, true, false, Option, none, some, List, [], ◌∷◌}
use pg_agmemory.Text.{codes}
use pg_agmemory.Store.Tables.{
  Store, fresh_store, admin, Kind, JobState, pending, running, succeeded, JobError, Remember, Reply,
  Job,
}
use pg_agmemory.Jobs.Settles.{left_of, changes, changes-le}
use pg_agmemory.Jobs.Idle.{has_ready, idle_worker}
use pg_agmemory.Store.Keeps.{committed}
use pg_agmemory.Store.Exec.{ok}
use pg_agmemory.Store.Visibility.{Session}
use pg_agmemory.Jobs.Database.{job_row, id_eq, is_terminal}
use pg_agmemory.Jobs.History.{Since, HasValidRows}
use pg_agmemory.Jobs.Ledger.{
  JobCall, enqueue_call, claim_call, heartbeat_call, publish_call, serve_jobs, job_moves,
  ended_job_is_final, one_token_per_attempt, serve_jobs-HasValidRows,
}
use pg_agmemory.Jobs.Lease.{Holds, publish_needs_lease, stale_worker_writes_nothing}
use pg_agmemory.Jobs.{claim, publish, heartbeat, fail, payload_is, executing}
use pg_agmemory.Jobs.Models.{idle, JobJson}

-- A toy hash: the text itself.
abbrev at : ℕ → Session
at t = record {
  principal = 1;
  now = t;
  uuid4 = λ n. 100 + n;
  hmac_sha256 = λ secret m. m;
  tokenize = λ t. none;
}

abbrev json : JobJson
json = record {
  enqueue_json = λ r. r.value;
  memory_json = λ r. r.value;
  cancel_json = λ c. codes "c";
}

abbrev start : Store
start =
    record (fresh_store (
      record { scope_id = 10; principal_id = 1; permissions = admin ∷ []; expires_at = none }
      ∷ [])) {
        objects = record { id = 50; scope_id = 10; kind = Kind.episode; created_at = 0 } ∷ [];
        episodes =
            record {
              id = 50;
              scope_id = 10;
              occurred_at = 0;
              content = codes "blue sky";
              consent_reference = codes "c";
            }
            ∷ [];
      }

abbrev blue : Remember
blue = record {
  scope_id = 10;
  subject = codes "sky";
  predicate = codes "is";
  value = codes "blue";
  evidence = record { memory_id = 50; quote = codes "sky" } ∷ [];
  valid_from = none;
  valid_to = none;
}

abbrev state_of : Option Job → Option JobState
state_of none = none
state_of (some j) = some j.state

abbrev token_of : Option Job → Option ℕ
token_of none = none
token_of (some j) = j.lease_token

-- The job 100 is queued.
abbrev queued : List (Session × JobCall)
queued = (at 1000, enqueue_call blue (codes "k1") none) ∷ []

-- A worker claims it for one second; a second one takes it over, the first cannot publish, the
-- second can.
abbrev first_claim : List (Session × JobCall)
first_claim = (at 2000, claim_call 1) ∷ []

abbrev rest : List (Session × JobCall)
rest =
    (at 3000, claim_call 1)
    ∷ (at 2000000, claim_call 30)
    ∷ (at 2100000, publish_call 100 101 blue)
    ∷ (at 2200000, publish_call 100 102 blue)
    ∷ []

queued_state : state_of (job_row (serve_jobs json queued start) 100) ≡ some pending
unfolding serve_jobs executing
queued_state = refl

claimed_token :
    token_of (job_row (serve_jobs json first_claim (serve_jobs json queued start)) 100) ≡ some 101
unfolding serve_jobs executing
claimed_token = refl

rest_state :
    state_of (
      job_row
        (serve_jobs json rest (serve_jobs json first_claim (serve_jobs json queued start)))
        100)
    ≡ some succeeded
unfolding serve_jobs executing
rest_state = refl

abbrev claimed_store : Store
claimed_store = serve_jobs json first_claim (serve_jobs json queued start)

abbrev taken_over : List (Session × JobCall)
taken_over = (at 2000000, claim_call 30) ∷ []

abbrev published : List (Session × JobCall)
published = (at 2200000, publish_call 100 102 blue) ∷ []

abbrev taken_store : Store
taken_store = serve_jobs json taken_over claimed_store

abbrev done_store : Store
done_store = serve_jobs json published taken_store

claimed_row : (j : Job) × (job_row claimed_store 100 ≡ some j) × (j.state ≡ running)
unfolding serve_jobs executing
claimed_row = (_, refl, refl)

taken_row :
    (j : Job) × (job_row taken_store 100 ≡ some j) × (id_eq j.lease_token (some 101) ≡ false)
unfolding serve_jobs executing
taken_row = (_, refl, refl)

done_row : (j : Job) × (job_row done_store 100 ≡ some j) × (is_terminal j.state ≡ true)
unfolding serve_jobs executing
done_row = (_, refl, refl)

job_moves_example : Since claimed_row.0 (serve_jobs json taken_over claimed_store)
job_moves_example = job_moves json taken_over claimed_store 100 claimed_row.0 claimed_row.1

ended_job_is_final_example : job_row (serve_jobs json rest done_store) 100 ≡ some done_row.0
ended_job_is_final_example =
    ended_job_is_final json rest done_store 100 done_row.0 done_row.1 done_row.2

start-HasValidRows : HasValidRows start
start-HasValidRows = record { rows = λ id j h. cc }

-- The worker that was taken over.
stale_worker_writes_nothing_example :
    (committed (publish (at 2100000) 100 101 blue taken_store) taken_store ≡ taken_store)
    × (committed (heartbeat (at 2100000) 100 101 taken_store) taken_store ≡ taken_store)
    × (committed (fail (at 2100000) 100 101 JobError.invalid_input true 5 taken_store) taken_store
        ≡ taken_store)
stale_worker_writes_nothing_example =
    stale_worker_writes_nothing (at 2100000) taken_store 100 101 taken_row.0 taken_row.1 taken_row.2
      blue JobError.invalid_input true 5

-- A heartbeat between two rows of the same attempt.
abbrev heartbeats : List (Session × JobCall)
heartbeats = (at 2500, heartbeat_call 100 101) ∷ []

extended_row :
    (j : Job) × (job_row (serve_jobs json heartbeats claimed_store) 100 ≡ some j)
    × (j.state ≡ running)
    × (j.attempt ≡ claimed_row.0.attempt)
unfolding serve_jobs executing claimed_row
extended_row = (_, refl, refl, refl)

one_token_per_attempt_example : extended_row.0.lease_token ≡ claimed_row.0.lease_token
one_token_per_attempt_example =
    one_token_per_attempt json heartbeats claimed_store 100 claimed_row.0 extended_row.0
      claimed_row.1 extended_row.1 claimed_row.2 extended_row.2 extended_row.3

published_ok :
    (r : Reply) × (s' : Store) × (publish (at 2200000) 100 102 blue taken_store ≡ ok (r, s'))
unfolding serve_jobs executing
published_ok = (_, _, refl)

publish_needs_lease_example :
    (j : Job) × (job_row taken_store 100 ≡ some j)
    × Holds (at 2200000) taken_store 100 102 true j
    × (payload_is (at 2200000) blue j.payload ≡ true)
publish_needs_lease_example =
    publish_needs_lease (at 2200000) taken_store 100 102 blue published_ok.1 published_ok.0
      published_ok.2

changes-le_example : changes json 100 rest claimed_store ≤ left_of claimed_row.0
changes-le_example =
    changes-le json 100 rest claimed_store
      (serve_jobs-HasValidRows json first_claim (serve_jobs json queued start)
        (serve_jobs-HasValidRows json queued start start-HasValidRows))
      claimed_row.0 claimed_row.1

-- The job runs, and its lease is held.
nothing_claimed : claim (at 3000) 30 claimed_store ≡ ok (idle, claimed_store)
unfolding serve_jobs executing
nothing_claimed = refl

idle_worker_example : (claimed_store ≡ claimed_store) × (has_ready (at 3000) claimed_store ≡ false)
idle_worker_example = idle_worker (at 3000) 30 claimed_store claimed_store nothing_claimed
