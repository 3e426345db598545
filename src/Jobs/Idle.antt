-- ===== src/Jobs/Idle.antt =====
-- When a worker finds nothing to claim (src/pg_agmemory/jobs.py).
use pg_agmemory.Prelude.{
  ℕ, ◌≡◌, refl, Bool, true, false, ◌&&◌, Option, none, some, List, [], ◌∷◌, any, select, ◌==◌,
  if◌then◌else◌, Bool-cases, inl, inr, arith,
}
use pg_agmemory.Store.Tables.{Store, write, Job}
use pg_agmemory.Store.Exec.{Exec, ok, pure, gets, require, value_error, ◌>>=◌, ◌>>◌}
use pg_agmemory.Store.Keeps.{>>=-eq-ok}
use pg_agmemory.Store.Visibility.{Session, permitted, visible}
use pg_agmemory.Service.{insert_sorted, order_by}
use pg_agmemory.Jobs.{ready_job, exhaust, start_attempt, claim_row, claim}
use pg_agmemory.Jobs.Models.{Claim, idle, exhausted, claimed, head}
use pg_agmemory.Jobs.Database.{claimable}

-- A job that the principal may claim now.
abbrev ready : Session → Store → Job → Bool
ready env s j =
    j.principal_id == env.principal
    && (permitted env s j.scope_id write && (visible env s j.id && claimable env.now j))

abbrev pub has_ready : Session → Store → Bool
has_ready env s = any (ready env s) s.jobs

insert_sorted-some :
    (before : Job → Job → Bool) (j : Job) (l : List Job)
    → (k : Job) × (head (insert_sorted before j l) ≡ some k)
unfolding insert_sorted
insert_sorted-some before j [] = (j, refl)
insert_sorted-some before j (k ∷ l) = elim (Bool-cases (before k j)) [
  | inl first ↦ (k, rw first refl)
  | inr later ↦ (j, rw later refl)
]

none_selected :
    (before : Job → Job → Bool) (p : Job → Bool) (l : List Job)
    → head (order_by before (select p l)) ≡ none
    → any p l ≡ false
unfolding order_by
none_selected before p [] h = refl
none_selected before p (j ∷ l) h = elim (Bool-cases (p j)) [
  | inl selected ↦
      let (k, there) = insert_sorted-some before j (order_by before (select p l)) in
      absurd (let empty = rw selected at h in cc)
  | inr other ↦ rw other (none_selected before p l (rw other at h))
]

-- A transaction that ends with a value that is not idle.
record Busy (m : Exec Claim) : Type 0 where
  busy : (s s' : Store) → m s ≡ ok (idle, s') → ⊥

Busy-bind : {A : Type 0} (m : Exec A) (f : A → Exec Claim) → ((a : A) → Busy (f a)) → Busy (m >>= f)
Busy-bind m f k = record {
  busy = λ s s' h. let (a, t, _, rest) = >>=-eq-ok m f s h in (k a).busy t s' rest;
}

Busy-exhausted : (id : ℕ) → Busy (pure (exhausted id))
unfolding pure
Busy-exhausted id = record { busy = λ s s' h. cc }

exhaust-Busy : (env : Session) (id : ℕ) → Busy (exhaust env id)
unfolding exhaust
exhaust-Busy env id = search (Busy-bind, Busy-exhausted)

Busy-claimed : (id : ℕ) (j : Job) (token : ℕ) → Busy (pure (claimed id j.payload token j.attempt))
unfolding pure
Busy-claimed id j token = record { busy = λ s s' h. cc }

start_attempt-Busy :
    (env : Session) (lease_seconds id : ℕ) → Busy (start_attempt env lease_seconds id)
unfolding start_attempt
start_attempt-Busy env lease_seconds id = search (Busy-bind, Busy-claimed) depth 12

Busy-if : (b : Bool) (m n : Exec Claim) → Busy m → Busy n → Busy (if b then m else n)
Busy-if true m n km kn = km
Busy-if false m n km kn = kn

claim_row-Busy :
    (env : Session) (lease_seconds : ℕ) (j : Job) → Busy (claim_row env lease_seconds (some j))
unfolding claim_row
claim_row-Busy env lease_seconds j = search (Busy-bind, Busy-if, exhaust-Busy, start_attempt-Busy)

claim_row_idle :
    (env : Session) (lease_seconds : ℕ) (o : Option Job) (s s' : Store)
    → claim_row env lease_seconds o s ≡ ok (idle, s')
    → (o ≡ none) × (s' ≡ s)
unfolding claim_row pure
claim_row_idle env lease_seconds none s s' h = (refl, ground arith)
claim_row_idle env lease_seconds (some j) s s' h =
    absurd ((claim_row-Busy env lease_seconds j).busy s s' h)

claim_rest :
    (env : Session) (lease_seconds : ℕ) (b : Bool) (s s' : Store)
    → (require b value_error >> (gets (ready_job env) >>= claim_row env lease_seconds)) s
      ≡ ok (idle, s')
    → claim_row env lease_seconds (ready_job env s) s ≡ ok (idle, s')
unfolding ◌>>=◌ require gets
claim_rest env lease_seconds true s s' h = h
claim_rest env lease_seconds false s s' h = cc

-- A worker that is told that there is nothing to claim leaves everything as it was, and there was no
-- job of its principal, in a scope that it may write and that it sees, that waits with its time come
-- or whose lease is over.
pub idle_worker :
    (env : Session) (lease_seconds : ℕ) (s s' : Store)
    → claim env lease_seconds s ≡ ok (idle, s')
    → (s' ≡ s) × (has_ready env s ≡ false)
unfolding claim ready_job
idle_worker env lease_seconds s s' h =
    let (nothing, same) =
      claim_row_idle env lease_seconds (ready_job env s) s s'
        (claim_rest env lease_seconds _ s s' h) in
    (same, none_selected _ (ready env s) s.jobs nothing)
