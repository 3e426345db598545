-- ===== src/Worker/Tests.antt =====
-- A run of the worker on a concrete queue.
use pg_agmemory.Prelude.{ℕ, ◌+◌, ◌≡◌, refl, true, none, some, List, [], ◌∷◌}
use pg_agmemory.Text.{codes}
use pg_agmemory.Store.Tables.{Store, fresh_store, admin, Kind, JobState, assertion_reply, Remember}
use pg_agmemory.Store.Exec.{ok}
use pg_agmemory.Store.Visibility.{Session}
use pg_agmemory.Jobs.Ledger.{JobCall, enqueue_call, cancel_call, serve_jobs}
use pg_agmemory.Jobs.{claim, executing}
use pg_agmemory.Jobs.Models.{JobJson, claimed}
use pg_agmemory.Worker.{outcome_idle, outcome_succeeded, outcome_lease_lost, is_lost, run_once}

-- A toy hash: the text itself.
abbrev at : ℕ → Session
at t = record {
  principal = 1;
  now = t;
  uuid4 = λ n. 100 + n;
  hmac_sha256 = λ secret m. m;
  tokenize = λ t. none;
}

abbrev json : JobJson
json = record {
  enqueue_json = λ r. r.value;
  memory_json = λ r. r.value;
  cancel_json = λ c. codes "c";
}

abbrev start : Store
start =
    record (fresh_store (
      record { scope_id = 10; principal_id = 1; permissions = admin ∷ []; expires_at = none }
      ∷ [])) {
        objects = record { id = 50; scope_id = 10; kind = Kind.episode; created_at = 0 } ∷ [];
        episodes =
            record {
              id = 50;
              scope_id = 10;
              occurred_at = 0;
              content = codes "blue sky";
              consent_reference = codes "c";
            }
            ∷ [];
      }

abbrev blue : Remember
blue = record {
  scope_id = 10;
  subject = codes "sky";
  predicate = codes "is";
  value = codes "blue";
  evidence = record { memory_id = 50; quote = codes "sky" } ∷ [];
  valid_from = none;
  valid_to = none;
}

abbrev queued : List (Session × JobCall)
queued = (at 1000, enqueue_call blue (codes "k1") none) ∷ []

abbrev full : Store
full = serve_jobs json queued start

-- Nothing else happens, and every payload is valid.
published :
    (s : Store) × (run_once (at 2000) (at 3000) (at 4000) (λ s. s) (λ s. s) (λ r. true) 7 full
      ≡ (outcome_succeeded 100 (assertion_reply 102 1), s))
unfolding run_once serve_jobs executing
published = (_, refl)

-- A queue without jobs.
nothing :
    (s : Store) × (run_once (at 2000) (at 3000) (at 4000) (λ s. s) (λ s. s) (λ r. true) 7 start
      ≡ (outcome_idle, s))
unfolding run_once executing
nothing = (_, refl)

-- The client cancels while the worker prepares.
abbrev cancelling : List (Session × JobCall)
cancelling =
    (
      at 2500,
      cancel_call 100 (record { expected_state = JobState.running; expected_attempt = 1 })
          (codes "k2"),
    )
    ∷ []

cancelled_meanwhile :
    (s : Store) × (run_once
        (at 2000)
        (at 3000)
        (at 4000)
        (serve_jobs json cancelling)
        (λ s. s)
        (λ r. true)
        7
        full
      ≡ (outcome_lease_lost 100, s))
unfolding run_once is_lost serve_jobs executing
cancelled_meanwhile = (_, refl)

claims : (s : Store) × (claim (at 2000) 30 full ≡ ok (claimed 100 (some blue) 101 1, s))
unfolding serve_jobs executing
claims = (_, refl)

abbrev after_cancel : Store
after_cancel = serve_jobs json cancelling claims.0
