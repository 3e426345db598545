-- ===== src/Jobs/Ledger.antt =====
-- Any sequence of requests to the job queue, by clients and workers, each in its own transaction.
use pg_agmemory.Prelude.{ℕ, ◌≡◌, sym, Bool, true, Option, some, List, [], ◌∷◌}
use mathlib.Core.Path.{subst}
use pg_agmemory.Text.{Text}
use pg_agmemory.Store.Tables.{Store, running, JobError, Remember, Job}
use pg_agmemory.Store.Keeps.{committed, committed-Keeps}
use pg_agmemory.Store.Visibility.{Session}
use pg_agmemory.Jobs.Database.{job_row, is_terminal}
use pg_agmemory.Jobs.Machine.{Reaches, stay, Reaches-terminal, Reaches-token}
use pg_agmemory.Jobs.Keeps.{
  IsJobInvariant, enqueue-Keeps, cancel-Keeps, claim-Keeps, heartbeat-Keeps, publish-Keeps,
  fail-Keeps,
}
use pg_agmemory.Jobs.History.{
  find_id, Since, HasValidRows, Since-IsJobInvariant, HasValidRows-IsJobInvariant,
}
use pg_agmemory.Jobs.{enqueue, cancel, claim, heartbeat, publish, fail}
use pg_agmemory.Jobs.Models.{CancelJob, JobJson}

-- The requests that write jobs: of a client, with their idempotency keys, and of a worker.
pub data JobCall : Type 0 where
  enqueue_call : Remember → Text → Option ℕ → JobCall
  cancel_call : ℕ → CancelJob → Text → JobCall
  claim_call : ℕ → JobCall
  heartbeat_call : ℕ → ℕ → JobCall
  publish_call : ℕ → ℕ → Remember → JobCall
  fail_call : ℕ → ℕ → JobError → Bool → ℕ → JobCall

unfoldable pub serve_job : JobJson → Session → JobCall → Store → Store
serve_job json env (enqueue_call memory key retry_of) s =
    committed (enqueue env json memory key retry_of s) s
serve_job json env (cancel_call id request key) s = committed (cancel env json id request key s) s
serve_job json env (claim_call lease_seconds) s = committed (claim env lease_seconds s) s
serve_job json env (heartbeat_call id token) s = committed (heartbeat env id token s) s
serve_job json env (publish_call id token prepared) s =
    committed (publish env id token prepared s) s
serve_job json env (fail_call id token code retry jitter) s =
    committed (fail env id token code retry jitter s) s

unfoldable pub serve_jobs : JobJson → List (Session × JobCall) → Store → Store
unfolding serve_job
serve_jobs json [] s = s
serve_jobs json ((env, call) ∷ calls) s = serve_jobs json calls (serve_job json env call s)

module _ {P : Store → Type 0} (k : IsJobInvariant P) (json : JobJson) where
  serve_job-Keeps :
      (env : Session) (call : JobCall) (s : Store) → P s → P (serve_job json env call s)
  unfolding serve_job
  serve_job-Keeps env (enqueue_call memory key retry_of) s p =
      committed-Keeps _ s (enqueue-Keeps k env json memory key retry_of) p
  serve_job-Keeps env (cancel_call id request key) s p =
      committed-Keeps _ s (cancel-Keeps k env json id request key) p
  serve_job-Keeps env (claim_call lease_seconds) s p =
      committed-Keeps _ s (claim-Keeps k env lease_seconds) p
  serve_job-Keeps env (heartbeat_call id token) s p =
      committed-Keeps _ s (heartbeat-Keeps k env id token) p
  serve_job-Keeps env (publish_call id token prepared) s p =
      committed-Keeps _ s (publish-Keeps k env id token prepared) p
  serve_job-Keeps env (fail_call id token code retry jitter) s p =
      committed-Keeps _ s (fail-Keeps k env id token code retry jitter) p

  pub serve_jobs-Keeps :
      (calls : List (Session × JobCall)) (s : Store) → P s → P (serve_jobs json calls s)
  unfolding serve_jobs
  serve_jobs-Keeps [] s p = p
  serve_jobs-Keeps ((env, call) ∷ calls) s p =
      serve_jobs-Keeps calls (serve_job json env call s) (serve_job-Keeps env call s p)

module _ (json : JobJson) (calls : List (Session × JobCall)) (s : Store) where
  -- After any requests to enqueue, cancel, claim, extend, publish and fail jobs, by any principals at
  -- any times, failing or not, a job that was in the queue is still there, and it has come to its row
  -- by moves of the machine: it starts when it is available, is taken over when its lease is over, is
  -- extended, succeeds or is given back while its lease holds, fails while it runs, is cancelled while
  -- it has not ended. (A purge by forget, which deletes rows, is not among these requests.)
  pub job_moves : (id : ℕ) (o : Job) → job_row s id ≡ some o → Since o (serve_jobs json calls s)
  job_moves id o row = serve_jobs-Keeps (Since-IsJobInvariant o) json calls s (record {
    job = o;
    row = subst (λ i. job_row s i ≡ some o) (sym (find_id id s.jobs o row)) row;
    reached = stay;
  })

  -- After any requests to enqueue, cancel, claim, extend, publish and fail jobs, a job that had
  -- succeeded, failed or been cancelled has the same row. (A purge by forget, which deletes rows, is not
  -- among these requests.)
  pub ended_job_is_final :
      (id : ℕ) (o : Job)
      → job_row s id ≡ some o
      → is_terminal o.state ≡ true
      → job_row (serve_jobs json calls s) id ≡ some o
  ended_job_is_final id o row ended =
      let c = job_moves id o row in
      cc (c.row, Reaches-terminal o c.job c.reached ended, find_id id s.jobs o row)

  -- After any requests to enqueue, cancel, claim, extend, publish and fail jobs, if a job runs in an attempt in which it ran before, it has the same lease
  -- token: no two workers ever hold a token of the same attempt.
  pub one_token_per_attempt :
      (id : ℕ) (o n : Job)
      → job_row s id ≡ some o
      → job_row (serve_jobs json calls s) id ≡ some n
      → o.state ≡ running
      → n.state ≡ running
      → n.attempt ≡ o.attempt
      → n.lease_token ≡ o.lease_token
  one_token_per_attempt id o n before after ran runs same =
      let c = job_moves id o before in
      let same_row : c.job ≡ n = cc (c.row, after, find_id id s.jobs o before) in
      Reaches-token o n (subst (Reaches o) same_row c.reached) runs same

  -- The constraints of the rows are kept.
  pub serve_jobs-HasValidRows : HasValidRows s → HasValidRows (serve_jobs json calls s)
  serve_jobs-HasValidRows v = serve_jobs-Keeps HasValidRows-IsJobInvariant json calls s v
