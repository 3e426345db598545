-- ===== src/Service/Timeline/Known.antt =====
-- At every time since an assertion was recorded, one of its revisions was known.
use pg_agmemory.Prelude.{
  ℕ, ◌+◌, ◌≤◌, ◌<◌, ◌≡◌, Bool, true, false, ◌&&◌, Option, none, some, List, [], ◌∷◌, leb, ltb,
  if◌then◌else◌, arith,
}
use pg_agmemory.Store.Tables.{AssertionRevision}
use pg_agmemory.Service.Timeline.{Ends, IsTimeline}

abbrev before : ℕ → Option ℕ → Bool
before t none = true
before t (some until) = ltb t until

-- memory.assertion_revision as of `t`: recorded_at <= t and (known_until is null or t < known_until).
abbrev pub known_at : ℕ → AssertionRevision → Bool
known_at t r = leb r.recorded_at t && before t r.known_until

-- When the oldest revision was recorded.
abbrev pub first_recorded : List AssertionRevision → ℕ
first_recorded [] = 0
first_recorded (r ∷ []) = r.recorded_at
first_recorded (r ∷ p ∷ h) = first_recorded (p ∷ h)

-- How many of the revisions were known at `t`.
abbrev pub count_known : ℕ → List AssertionRevision → ℕ
count_known t [] = 0
count_known t (r ∷ h) = let rest = count_known t h in if known_at t r then rest + 1 else rest

known_step :
    (t from : ℕ) (end : Option ℕ) (rest : ℕ)
    → (t < from → (if leb from t && before t end then rest + 1 else rest) ≡ rest)
      × (before t end ≡ false → (if leb from t && before t end then rest + 1 else rest) ≡ rest)
      × (from ≤ t
          → before t end ≡ true
          → (if leb from t && before t end then rest + 1 else rest) ≡ rest + 1)
known_step t from none rest = ground arith
known_step t from (some until) rest = ground arith

first_recorded_le :
    (end : Option ℕ) (n : ℕ) (r : AssertionRevision) (h : List AssertionRevision)
    → IsTimeline end n (r ∷ h)
    → first_recorded (r ∷ h) ≤ r.recorded_at
first_recorded_le end n r [] k = omega arith
first_recorded_le end n r (p ∷ h) (_, _, _, lt, k) =
    omega (arith, first_recorded_le (some r.recorded_at) p.revision p h k, starts p h k)
  where
    starts :
        (q : AssertionRevision) (l : List AssertionRevision)
        → IsTimeline (some r.recorded_at) q.revision (q ∷ l)
        → q.recorded_at < r.recorded_at
    starts q [] (_, _, _, lt) = lt
    starts q (q' ∷ l) (_, _, _, lt, _) = lt

-- Between `first` and `end` there is exactly one, elsewhere none.
abbrev Counts : ℕ → ℕ → Option ℕ → ℕ → Type 0
Counts t first end count =
    (t < first → count ≡ 0)
    × (before t end ≡ false → count ≡ 0)
    × (first ≤ t → before t end ≡ true → count ≡ 1)

Counts-step :
    (t first from rest : ℕ) (end : Option ℕ)
    → first ≤ from
    → (before t end ≡ false → from ≤ t)
    → Counts t first (some from) rest
    → Counts t first end (if leb from t && before t end then rest + 1 else rest)
Counts-step t first from rest none le late k = ground arith
Counts-step t first from rest (some until) le late k = ground arith

Counts-last :
    (t from : ℕ) (end : Option ℕ)
    → Counts t from end (if leb from t && before t end then 0 + 1 else 0)
Counts-last t from none = ground arith
Counts-last t from (some until) = ground arith

late_after : (t from : ℕ) (end : Option ℕ) → Ends from end → before t end ≡ false → from ≤ t
late_after t from none k h = ground arith
late_after t from (some until) k h = ground arith

pub count_known_lem :
    (t n : ℕ) (end : Option ℕ) (h : List AssertionRevision)
    → IsTimeline end n h
    → Counts t (first_recorded h) end (count_known t h)
count_known_lem t n end [] k = absurd k
count_known_lem t n end (r ∷ []) (_, _, e, lt) = rw e (Counts-last t r.recorded_at end)
count_known_lem t n end (r ∷ p ∷ h) (a, b, e, lt, k) =
    let le : first_recorded (p ∷ h) ≤ r.recorded_at =
      first_recorded_le end n r (p ∷ h) (a, b, e, lt, k) in
    rw e (
      Counts-step t (first_recorded (p ∷ h)) r.recorded_at (count_known t (p ∷ h)) end le
        (late_after t r.recorded_at end lt)
        (count_known_lem t p.revision (some r.recorded_at) (p ∷ h) k))
