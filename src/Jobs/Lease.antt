-- ===== src/Jobs/Lease.antt =====
-- What a worker must hold for its writes to be committed.
use pg_agmemory.Prelude.{
  ℕ, ◌≡◌, refl, Bool, true, false, not, ◌&&◌, ◌||◌, Option, none, some, ◌==◌, arith,
}
use mathlib.Core.Path.{subst}
use pg_agmemory.Store.Tables.{
  Store, Tenant, Permission, write, JobState, JobError, running, Remember, Reply, Job,
}
use pg_agmemory.Store.Exec.{Exec, Failure, Result, ok, err, require}
use pg_agmemory.Store.Keeps.{
  Leads, Leads-bind, Leads-gets, Leads-or_raise, Leads-require, Leads-pure, Keeps-gets, committed,
  Keeps-require, >>=-eq-ok,
}
use pg_agmemory.Store.Visibility.{Session}
use pg_agmemory.Service.Keeps.{object-Keeps}
use pg_agmemory.Jobs.Database.{job_row, state_eq, id_eq}
use pg_agmemory.Jobs.{load, lease, heartbeat, publish, fail, lease_over, payload_is}
use pg_agmemory.Jobs.Models.{LoadedJob}

require-true :
    (b : Bool) (e : Failure) (s : Store) {r : (Unit {0}) × Store} → require b e s ≡ ok r → b ≡ true
unfolding require
require-true true e s h = refl
require-true false e s h = cc

module _ (env : Session) (s : Store) (id : ℕ) where
  -- Reading the job `id`, in a transaction that has written nothing.
  load-row :
      (p : Permission)
      → Leads
          (λ t. t ≡ s)
          (load env id p)
          (λ (row : LoadedJob) t. (t ≡ s) × (job_row s id ≡ some row.job))
  unfolding load
  load-row p = Leads-bind _ _ (object-Keeps env id p) (λ obj.
      Leads-bind _ _ (Keeps-require _ _) (λ _.
        Leads-bind _ _ (Leads-gets (λ t. job_row t id)) (λ found.
          Leads-bind _ _ (Leads-or_raise found _) (λ row. Leads-bind _ _ (Keeps-gets _) (λ inputs.
            Leads-bind _ _ (Keeps-require _ _)
              (λ _. Leads-pure _ (λ t q. (q.0.0, cc (q.0.0, q.0.1, q.1)))))))))

  -- A worker holds the job: it runs, with this token, and the lease is not over; and if the epochs
  -- are compared, nothing was granted, revoked or deleted since it was claimed.
  abbrev pub Holds : ℕ → Bool → Job → Type 0
  Holds token epochs j =
      (j.principal_id ≡ env.principal)
      × (j.state ≡ running)
      × (j.lease_token ≡ some token)
      × (lease_over env.now j.lease_until ≡ false)
      × (epochs ≡ true
          → (j.captured_access_epoch ≡ s.tenant.access_epoch)
            × (j.captured_deletion_epoch ≡ s.tenant.deletion_epoch))

  lease_tests :
      (token : ℕ) (epochs : Bool) (j : Job)
      → (j.principal_id == env.principal) ≡ true
      → state_eq j.state running
          && (id_eq j.lease_token (some token) && not (lease_over env.now j.lease_until))
        ≡ true
      → (not epochs
          || (j.captured_access_epoch == s.tenant.access_epoch
              && j.captured_deletion_epoch == s.tenant.deletion_epoch))
        ≡ true
      → Holds token epochs j
  lease_tests token epochs j a b c =
      (ground arith, ground arith, ground arith, ground arith, λ e. (ground arith, ground arith))

  lease_end :
      (token : ℕ) (epochs : Bool) (t : Store) (current : Tenant) (j : Job)
      → t ≡ s
      → job_row s id ≡ some j
      → (j.principal_id == env.principal) ≡ true
      → current ≡ t.tenant
      → state_eq j.state running
          && (id_eq j.lease_token (some token) && not (lease_over env.now j.lease_until))
        ≡ true
      → (not epochs
          || (j.captured_access_epoch == current.access_epoch
              && j.captured_deletion_epoch == current.deletion_epoch))
        ≡ true
      → (t ≡ s) × (job_row s id ≡ some j) × Holds token epochs j
  lease_end token epochs t current j same row mine now held epochs_same =
      let e : current ≡ s.tenant = cc (now, same) in
      let epochs' =
        subst
          (λ (u : Tenant).
            (not epochs
              || (j.captured_access_epoch == u.access_epoch
                  && j.captured_deletion_epoch == u.deletion_epoch))
            ≡ true)
          e epochs_same in
      (same, row, lease_tests token epochs j mine held epochs')

  lease-Holds :
      (token : ℕ) (epochs : Bool)
      → Leads
          (λ t. t ≡ s)
          (lease env id token epochs)
          (λ (row : LoadedJob) t.
            (t ≡ s) × (job_row s id ≡ some row.job) × Holds token epochs row.job)
  unfolding lease
  lease-Holds token epochs = Leads-bind _ _ (load-row write) (λ row.
      Leads-bind _ _ (Leads-require _ _) (λ _. Leads-bind _ _ (Leads-gets _) (λ current.
        Leads-bind _ _ (Leads-require _ _) (λ _. Leads-bind _ _ (Leads-require _ _) (λ _.
          Leads-pure _ (λ t q.
            lease_end token epochs t current row.job q.0.0.0.0.0 q.0.0.0.0.1 q.0.0.0.1 q.0.0.1 q.0.1
              q.1))))))

  -- publish commits only for the worker that holds the job, in the epochs in which it was claimed,
  -- and for the memory that was queued.
  pub publish_needs_lease :
      (token : ℕ) (prepared : Remember) (s' : Store) (r : Reply)
      → publish env id token prepared s ≡ ok (r, s')
      → (j : Job) × (job_row s id ≡ some j)
        × Holds token true j
        × (payload_is env prepared j.payload ≡ true)
  unfolding publish
  publish_needs_lease token prepared s' r h =
      let (row, t, first, rest) = >>=-eq-ok (lease env id token true) _ s h in
      let (_, found, holds) = (lease-Holds token true).at s row t refl first in
      let (_, _, test, _) =
        >>=-eq-ok (require (payload_is env prepared row.job.payload) _) _ t rest in
      (row.job, found, holds, require-true _ _ t test)

  -- heartbeat extends the lease only of the worker that holds the job, in the same epochs.
  pub heartbeat_needs_lease :
      (token : ℕ) (s' : Store) (r : Unit {0})
      → heartbeat env id token s ≡ ok (r, s')
      → (j : Job) × (job_row s id ≡ some j) × Holds token true j
  unfolding heartbeat
  heartbeat_needs_lease token s' r h =
      let (row, t, first, _) = >>=-eq-ok (lease env id token true) _ s h in
      let (_, found, holds) = (lease-Holds token true).at s row t refl first in
      (row.job, found, holds)

  -- fail commits only for the worker that holds the job, in whatever epochs.
  pub fail_needs_lease :
      (token : ℕ) (code : JobError) (retry : Bool) (jitter : ℕ) (s' : Store) (r : JobState)
      → fail env id token code retry jitter s ≡ ok (r, s')
      → (j : Job) × (job_row s id ≡ some j) × Holds token false j
  unfolding fail
  fail_needs_lease token code retry jitter s' r h =
      let (row, t, first, _) = >>=-eq-ok (lease env id token false) _ s h in
      let (_, found, holds) = (lease-Holds token false).at s row t refl first in
      (row.job, found, holds)

committed_refused :
    {A : Type 0} (m : Exec A) (s : Store)
    → ((a : A) (s' : Store) → m s ≡ ok (a, s') → ⊥)
    → committed (m s) s ≡ s
committed_refused {A} m s k = go (m s) k
  where
    go : (r : Result (A × Store)) → ((a : A) (s' : Store) → r ≡ ok (a, s') → ⊥) → committed r s ≡ s
    go (ok (a, s')) f = absurd (f a s' refl)
    go (err e) f = refl

token_differs : (a : Option ℕ) (token : ℕ) → id_eq a (some token) ≡ false → a ≡ some token → ⊥
token_differs none token h e = cc
token_differs (some a) token h e = ground arith

-- A worker whose token is not the one that the job has (its lease was over and the job was taken
-- over, or the job has ended): whatever it asks, publish, heartbeat or fail, nothing is written.
pub stale_worker_writes_nothing :
    (env : Session) (s : Store) (id token : ℕ) (j : Job)
    → job_row s id ≡ some j
    → id_eq j.lease_token (some token) ≡ false
    → (prepared : Remember) (code : JobError) (retry : Bool) (jitter : ℕ)
    → (committed (publish env id token prepared s) s ≡ s)
      × (committed (heartbeat env id token s) s ≡ s)
      × (committed (fail env id token code retry jitter s) s ≡ s)
stale_worker_writes_nothing env s id token j row stale prepared code retry jitter = (
  committed_refused (publish env id token prepared) s (λ r s' h.
      let (i, found, holds, _) = publish_needs_lease env s id token prepared s' r h in
      other i found holds.2),
  committed_refused (heartbeat env id token) s (λ r s' h.
      let (i, found, holds) = heartbeat_needs_lease env s id token s' r h in other i found holds.2),
  committed_refused (fail env id token code retry jitter) s (λ r s' h.
      let (i, found, holds) = fail_needs_lease env s id token code retry jitter s' r h in
      other i found holds.2),
)
  where
    other : (i : Job) → job_row s id ≡ some i → i.lease_token ≡ some token → ⊥
    other i found held = token_differs j.lease_token token stale (cc (row, found, held))
