-- ===== src/Jobs/Machine.antt =====
-- The states of a job as an abstract machine, and the database's guard as an implementation of it.
use pg_agmemory.Prelude.{
  ℕ, ◌+◌, ◌≤◌, ◌<◌, ◌≡◌, refl, true, false, Option, none, some, inl, inr, ◌⊎◌, Bool-cases, arith,
}
use pg_agmemory.Text.{Text}
use pg_agmemory.Store.Tables.{JobState, pending, running, succeeded, failed, cancelled, Job}
use pg_agmemory.Jobs.Database.{id_eq, is_terminal, guard_update, lease_limit}

-- A lease that is over at `now`, and one that still holds.
abbrev pub IsOver : ℕ → Option ℕ → Type 0
IsOver now none = ⊥
IsOver now (some until) = until ≤ now

abbrev pub IsHeld : ℕ → Option ℕ → Type 0
IsHeld now none = Unit
IsHeld now (some until) = now < until

-- A lease that begins at `now` is held, for at most 300 seconds.
abbrev pub IsGranted : ℕ → Option ℕ → Type 0
IsGranted now none = Unit
IsGranted now (some until) = (now < until) × (until ≤ now + lease_limit)

-- What an attempt at a job may do at the time `now`.
pub data JobMove (now : ℕ) : Job → Job → Type 0 where
  start :
      (o n : Job)
      → o.state ≡ pending
      → o.available_at ≤ now
      → n.state ≡ running
      → n.attempt ≡ o.attempt + 1
      → IsGranted now n.lease_until
      → JobMove now o n
  take_over :
      (o n : Job)
      → o.state ≡ running
      → IsOver now o.lease_until
      → n.state ≡ running
      → n.attempt ≡ o.attempt + 1
      → id_eq n.lease_token o.lease_token ≡ false
      → IsGranted now n.lease_until
      → JobMove now o n
  extend :
      (o n : Job)
      → o.state ≡ running
      → IsHeld now o.lease_until
      → n.state ≡ running
      → n.attempt ≡ o.attempt
      → id_eq n.lease_token o.lease_token ≡ true
      → IsGranted now n.lease_until
      → JobMove now o n
  succeed :
      (o n : Job)
      → o.state ≡ running
      → IsHeld now o.lease_until
      → n.state ≡ succeeded
      → n.attempt ≡ o.attempt
      → JobMove now o n
  give_back :
      (o n : Job)
      → o.state ≡ running
      → IsHeld now o.lease_until
      → n.state ≡ pending
      → n.attempt ≡ o.attempt
      → JobMove now o n
  give_up :
      (o n : Job) → o.state ≡ running → n.state ≡ failed → n.attempt ≡ o.attempt → JobMove now o n
  cancel :
      (o n : Job)
      → is_terminal o.state ≡ false
      → n.state ≡ cancelled
      → n.attempt ≡ o.attempt
      → JobMove now o n

running_moves :
    (now : ℕ) (o n : Job)
    → o.state ≡ running
    → n.state ≡ running
    → guard_update now o n ≡ true
    → JobMove now o n
unfolding guard_update
running_moves now o n a b h = elim (Bool-cases (id_eq n.lease_token o.lease_token)) [
  | inl same ↦ extend o n a (ground arith) b (ground arith) same (ground arith)
  | inr other ↦ take_over o n a (ground arith) b (ground arith) other (ground arith)
]

guard_cases :
    (now : ℕ) (o n : Job) (from to : JobState)
    → o.state ≡ from
    → n.state ≡ to
    → guard_update now o n ≡ true
    → JobMove now o n
unfolding guard_update
guard_cases now o n succeeded to a b h = absurd (ground arith)
guard_cases now o n failed to a b h = absurd (ground arith)
guard_cases now o n cancelled to a b h = absurd (ground arith)
guard_cases now o n pending pending a b h = absurd (ground arith)
guard_cases now o n pending running a b h =
    start o n a (ground arith) b (ground arith) (ground arith)
guard_cases now o n pending succeeded a b h = absurd (ground arith)
guard_cases now o n pending failed a b h = absurd (ground arith)
guard_cases now o n pending cancelled a b h = cancel o n (ground arith) b (ground arith)
guard_cases now o n running pending a b h = give_back o n a (ground arith) b (ground arith)
guard_cases now o n running running a b h = running_moves now o n a b h
guard_cases now o n running succeeded a b h = succeed o n a (ground arith) b (ground arith)
guard_cases now o n running failed a b h = give_up o n a b (ground arith)
guard_cases now o n running cancelled a b h = cancel o n (ground arith) b (ground arith)

-- Whatever memory.guard_job lets an update do to a job at a time is a move of the machine.
pub guard_update-JobMove : (now : ℕ) (o n : Job) → guard_update now o n ≡ true → JobMove now o n
guard_update-JobMove now o n h = guard_cases now o n o.state n.state refl refl h

-- The columns that say which job it is, and what it is to do for whom.
abbrev pub identity_of : Job → ℕ × ℕ × ℕ × Text × Option ℕ × ℕ × ℕ
identity_of j =
    (j.id, j.scope_id, j.principal_id, j.intent_digest, j.retry_of, j.reference_count, j.created_at)

-- What no move changes: a payload is only dropped.
pub record IsSameJob (o n : Job) : Type 0 where
  pub identity : identity_of n ≡ identity_of o
  pub payload : (n.payload ≡ o.payload) ⊎ (n.payload ≡ none)

-- Any number of moves, at any times, of one job.
pub data Reaches (o : Job) : Job → Type 0 where
  stay : Reaches o o
  step : (now : ℕ) (j n : Job) → Reaches o j → JobMove now j n → IsSameJob j n → Reaches o n

no_move : (now : ℕ) (o n : Job) → JobMove now o n → is_terminal o.state ≡ true → ⊥
no_move now o n (start _ _ a _ _ _ _) t = ground arith
no_move now o n (take_over _ _ a _ _ _ _ _) t = ground arith
no_move now o n (extend _ _ a _ _ _ _ _) t = ground arith
no_move now o n (succeed _ _ a _ _ _) t = ground arith
no_move now o n (give_back _ _ a _ _ _) t = ground arith
no_move now o n (give_up _ _ a _ _) t = ground arith
no_move now o n (cancel _ _ a _ _) t = cc

-- The attempt that a lease is of: a token, while the job runs.
Attempting : ℕ → Option ℕ → Job → Type 0
Attempting attempt token j =
    (attempt < j.attempt)
    ⊎ ((j.attempt ≡ attempt) × (j.state ≡ running → id_eq j.lease_token token ≡ true))

id_eq_trans : (a b c : Option ℕ) → id_eq a b ≡ true → id_eq b c ≡ true → id_eq a c ≡ true
id_eq_trans none none c h k = k
id_eq_trans none (some b) c h k = cc
id_eq_trans (some a) none c h k = cc
id_eq_trans (some a) (some b) none h k = cc
id_eq_trans (some a) (some b) (some c) h k = ground arith

id_eq_self : (a : Option ℕ) → id_eq a a ≡ true
id_eq_self none = refl
id_eq_self (some a) = ground arith

id_eq→eq : (a b : Option ℕ) → id_eq a b ≡ true → a ≡ b
id_eq→eq none none h = refl
id_eq→eq none (some b) h = cc
id_eq→eq (some a) none h = cc
id_eq→eq (some a) (some b) h = ground arith

Attempting-move :
    (attempt : ℕ) (token : Option ℕ) (now : ℕ) (o n : Job)
    → JobMove now o n
    → Attempting attempt token o
    → Attempting attempt token n
unfolding Attempting
Attempting-move attempt token now o n (start _ _ a b c d e) k = ground arith
Attempting-move attempt token now o n (take_over _ _ a b c d e f) k = ground arith
Attempting-move attempt token now o n (extend _ _ a b c d e f) (inl lt) = inl (ground arith)
Attempting-move attempt token now o n (extend _ _ a b c d e f) (inr (same, k)) =
    inr (ground arith, λ _. id_eq_trans n.lease_token o.lease_token token e (k a))
Attempting-move attempt token now o n (succeed _ _ a b c d) k = ground arith
Attempting-move attempt token now o n (give_back _ _ a b c d) k = ground arith
Attempting-move attempt token now o n (give_up _ _ a b c) k = ground arith
Attempting-move attempt token now o n (cancel _ _ a b c) k = ground arith

module _ (o : Job) where
  -- A job that has ended moves no more.
  pub Reaches-terminal : (j : Job) → Reaches o j → is_terminal o.state ≡ true → j ≡ o
  Reaches-terminal j stay t = refl
  Reaches-terminal j (step now i _ r m same) t =
      absurd (no_move now i j m (rw (Reaches-terminal i r t) t))

  Reaches-Attempting : (j : Job) → Reaches o j → Attempting o.attempt o.lease_token j
  unfolding Attempting
  Reaches-Attempting j stay = inr (refl, λ _. id_eq_self o.lease_token)
  Reaches-Attempting j (step now i _ r m same) =
      Attempting-move o.attempt o.lease_token now i j m (Reaches-Attempting i r)

  -- An attempt has one lease token.
  pub Reaches-token :
      (j : Job)
      → Reaches o j
      → j.state ≡ running
      → j.attempt ≡ o.attempt
      → j.lease_token ≡ o.lease_token
  unfolding Attempting
  Reaches-token j r k e =
      id_eq→eq j.lease_token o.lease_token (elim (Reaches-Attempting j r) [
        | inl lt ↦ absurd (omega (arith, lt, e))
        | inr (_, t) ↦ t k
      ])
