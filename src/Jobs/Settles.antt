-- ===== src/Jobs/Settles.antt =====
-- A job settles: only so many requests change its state (src/pg_agmemory/jobs.py).
use pg_agmemory.Prelude.{
  ℕ, ◌+◌, ◌-◌, ◌*◌, ◌≤◌, ◌≡◌, refl, Bool, true, false, not, ◌&&◌, Option, none, some, List, [], ◌∷◌,
  ◌==◌, if◌then◌else◌, Bool-cases, inl, inr, arith,
}
use mathlib.Core.Path.{subst}
use pg_agmemory.Store.Tables.{Store, JobState, pending, running, succeeded, failed, cancelled, Job}
use pg_agmemory.Store.Visibility.{Session}
use pg_agmemory.Jobs.Models.{JobJson}
use pg_agmemory.Jobs.Database.{job_row, state_eq, is_terminal, row_valid}
use pg_agmemory.Jobs.Machine.{
  JobMove, start, take_over, extend, succeed, give_back, give_up, cancel, Reaches, stay, step,
}
use pg_agmemory.Jobs.History.{Since, HasValidRows, find_id}
use pg_agmemory.Jobs.Ledger.{JobCall, serve_job, serve_jobs, job_moves, serve_jobs-HasValidRows}

-- How many changes of its state a job has left.
abbrev pub changes_left : JobState → ℕ → ℕ
changes_left pending attempt = 12 - 2 * attempt
changes_left running attempt = 13 - 2 * attempt
changes_left succeeded attempt = 0
changes_left failed attempt = 0
changes_left cancelled attempt = 0

abbrev pub left_of : Job → ℕ
left_of j = changes_left j.state j.attempt

-- The state or the number of the attempt is another one.
unfoldable pub differs : JobState → ℕ → JobState → ℕ → Bool
differs a m b n = not (state_eq a b && m == n)

abbrev pub status_differs : Job → Job → Bool
status_differs o n = differs o.state o.attempt n.state n.attempt

state_eq→eq : (a b : JobState) → state_eq a b ≡ true → a ≡ b
state_eq→eq pending b h = ground arith
state_eq→eq running b h = ground arith
state_eq→eq succeeded b h = ground arith
state_eq→eq failed b h = ground arith
state_eq→eq cancelled b h = ground arith

differs_self : (a : JobState) (m : ℕ) → differs a m a m ≡ false
unfolding differs
differs_self pending m = ground arith
differs_self running m = ground arith
differs_self succeeded m = ground arith
differs_self failed m = ground arith
differs_self cancelled m = ground arith

open_left :
    (from : JobState) (attempt : ℕ)
    → is_terminal from ≡ false
    → attempt ≤ 5
    → 1 ≤ changes_left from attempt
open_left pending attempt open_state h = omega arith
open_left running attempt open_state h = omega arith
open_left succeeded attempt open_state h = cc
open_left failed attempt open_state h = cc
open_left cancelled attempt open_state h = cc

one_at_most : (b : Bool) → (if b then 1 else 0) ≤ 1
one_at_most true = omega arith
one_at_most false = omega arith

cancel_left :
    (o n : Job)
    → is_terminal o.state ≡ false
    → n.state ≡ cancelled
    → o.attempt ≤ 5
    → left_of n + (if status_differs o n then 1 else 0) ≤ left_of o
cancel_left o n a b h =
    let enough = open_left o.state o.attempt a h in
    let least = one_at_most (status_differs o n) in
    let none_left : left_of n ≡ 0 = rw b refl in omega arith

-- A move within the five attempts either uses a change up, or it is a heartbeat.
JobMove-left :
    (now : ℕ) (o n : Job)
    → JobMove now o n
    → n.attempt ≤ 5
    → (o.attempt ≤ n.attempt) × (left_of n + (if status_differs o n then 1 else 0) ≤ left_of o)
unfolding differs
JobMove-left now _ _ (start o n a b c d e) h = rw (a, c) (ground arith)
JobMove-left now _ _ (take_over o n a b c d e f) h = rw (a, c) (ground arith)
JobMove-left now _ _ (extend o n a b c d e f) h = rw (a, c) (ground arith)
JobMove-left now _ _ (succeed o n a b c d) h = rw (a, c) (ground arith)
JobMove-left now _ _ (give_back o n a b c d) h = rw (a, c) (ground arith)
JobMove-left now _ _ (give_up o n a b c) h = rw (a, b) (ground arith)
JobMove-left now _ _ (cancel o n a b c) h = (omega arith, cancel_left o n a b (omega arith))

-- Two moves differ from the first row only if one of them does.
differs_through :
    (a b c : Job)
    → (if status_differs a c then 1 else 0)
      ≤ (if status_differs a b then 1 else 0) + (if status_differs b c then 1 else 0)
differs_through a b c = elim (Bool-cases (status_differs b c)) [
  | inl other ↦ let least = one_at_most (status_differs a c) in rw other (omega arith)
  | inr same ↦
      let states : b.state ≡ c.state =
        state_eq→eq b.state c.state (unfold differs in ground arith) in
      let attempts : b.attempt ≡ c.attempt = unfold differs in ground arith in
      rw (← states, ← attempts) (omega arith)
]

Reaches-left :
    (o n : Job)
    → Reaches o n
    → n.attempt ≤ 5
    → left_of n + (if status_differs o n then 1 else 0) ≤ left_of o
Reaches-left o _ stay h = rw (differs_self o.state o.attempt) (omega arith)
Reaches-left o _ (step now j n reached move same) h =
    let (grows, moved) = JobMove-left now j n move h in
    omega (arith, grows, moved, Reaches-left o j reached (omega arith), differs_through o j n)

valid_attempt : (j : Job) → row_valid j ≡ true → j.attempt ≤ 5
unfolding row_valid
valid_attempt j h = ground arith

row_differs : Option Job → Option Job → ℕ
row_differs (some o) (some n) = if status_differs o n then 1 else 0
row_differs (some o) none = 1
row_differs none n = 0

module _ (json : JobJson) (id : ℕ) where
  -- How many of the requests change the state or the attempt of the job.
  unfoldable pub changes : List (Session × JobCall) → Store → ℕ
  unfolding row_differs
  changes [] s = 0
  changes ((env, call) ∷ calls) s =
      let t = serve_job json env call s in
      row_differs (job_row s id) (job_row t id) + changes calls t

  -- In a store whose jobs meet the constraints: of any requests to enqueue, cancel, claim, extend,
  -- publish and fail jobs, however many, by any principals at any times, at most 12 - 2 n change the state or the attempt number of a job
  -- that waits with n attempts made, at most 13 - 2 n of one that runs in attempt n, and none of one
  -- that has ended. So no job goes back and forth for ever.
  pub changes-le :
      (calls : List (Session × JobCall)) (s : Store)
      → HasValidRows s
      → (o : Job) → job_row s id ≡ some o
      → changes calls s ≤ left_of o
  unfolding changes row_differs serve_jobs
  changes-le [] s valid o row = omega arith
  changes-le ((env, call) ∷ calls) s valid o row =
      let t = serve_job json env call s in
      let since : Since o t = job_moves json ((env, call) ∷ []) s id o row in
      let valid_after : HasValidRows t = serve_jobs-HasValidRows json ((env, call) ∷ []) s valid in
      let row_after : job_row t id ≡ some since.job =
        subst (λ i. job_row t i ≡ some since.job) (find_id id s.jobs o row) since.row in
      let spent =
        Reaches-left o since.job since.reached
          (valid_attempt since.job (valid_after.rows id since.job row_after)) in
      let later = changes-le calls t valid_after since.job row_after in
      rw (row, row_after) (omega arith)
