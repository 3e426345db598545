-- ===== src/Service/Timeline.antt =====
-- The system-time history of an assertion: its revisions divide the time since it was recorded.
use mathlib.Core.Option
use pg_agmemory.Prelude.{
  ℕ, suc, ◌+◌, ◌≤◌, ◌<◌, ◌≡◌, ◌≢◌, refl, sym, Bool, true, false, ◌&&◌, Bool-cases, at_or_else,
  Option, none, some, Option-cases, inl, inr, List, [], ◌∷◌, any, find, select, update, ◌==◌,
  ==_self, ==_ne, ==→eq, ==→ne, leb, ltb, if◌then◌else◌, arith,
}
use mathlib.Core.Path.{subst}
use pg_agmemory.Store.Tables.{Store, Assertion, AssertionRevision}
use pg_agmemory.Store.Exec.{ok, gets, or_raise, require, modify, ◌>>=◌}
use pg_agmemory.Store.Keeps.{Leads, Keeps}
use pg_agmemory.Service.Memory.{assertion_row, insert_assertion_revision, insert_assertion}
pub mod Insert
pub mod Operations
pub mod Known
pub mod Ledger
pub mod Tests

-- The revisions of an assertion, the newest first.
abbrev pub assertion_history : Store → ℕ → List AssertionRevision
assertion_history s id =
    select (λ (r : AssertionRevision). r.assertion_id == id) s.assertion_revisions

abbrev pub Ends : ℕ → Option ℕ → Type 0
Ends from none = Unit
Ends from (some to) = from < to

-- Revisions `n`, ..., 1, whose intervals follow one another and the last of which ends at `end`.
abbrev pub IsTimeline : Option ℕ → ℕ → List AssertionRevision → Type 0
IsTimeline end n [] = ⊥
IsTimeline end n (r ∷ []) =
    (n ≡ 1) × (r.revision ≡ 1) × (r.known_until ≡ end) × Ends r.recorded_at end
IsTimeline end n (r ∷ p ∷ h) =
    (r.revision ≡ n)
    × (n ≡ p.revision + 1)
    × (r.known_until ≡ end)
    × Ends r.recorded_at end
    × IsTimeline (some r.recorded_at) p.revision (p ∷ h)

abbrev pub TimelineOf : Option Assertion → List AssertionRevision → Type 0
TimelineOf none h = h ≡ []
TimelineOf (some a) h = IsTimeline none a.current_revision h

pub record HasTimelines (s : Store) : Type 0 where
  pub timeline : (id : ℕ) → TimelineOf (assertion_row s id) (assertion_history s id)

abbrev pub IsUnrevised : Option Assertion → List AssertionRevision → Type 0
IsUnrevised none h = ⊥
IsUnrevised (some a) h = (a.current_revision ≡ 1) × (h ≡ [])

-- Within a transaction: the assertion `x` has no revision yet.
pub record IsDrafting (x : ℕ) (s : Store) : Type 0 where
  pub draft : IsUnrevised (assertion_row s x) (assertion_history s x)
  pub others : (id : ℕ) → id ≢ x → TimelineOf (assertion_row s id) (assertion_history s id)

abbrev pub close : ℕ → AssertionRevision → AssertionRevision
close at o = record o { known_until = some at }

abbrev pub of_revision : ℕ → ℕ → AssertionRevision → Bool
of_revision id revision r = r.assertion_id == id && r.revision == revision

-- Closing one revision of an assertion, seen in the history of an assertion.
pub select-update :
    (i j n at : ℕ) (l : List AssertionRevision)
    → select
        (λ (r : AssertionRevision). r.assertion_id == i)
        (update (of_revision j n) (close at) l)
      ≡ (if i == j
          then update
              (λ (r : AssertionRevision). r.revision == n)
              (close at)
              (select (λ (r : AssertionRevision). r.assertion_id == i) l)
          else select (λ (r : AssertionRevision). r.assertion_id == i) l)
select-update i j n at [] = ground arith
select-update i j n at (r ∷ l) = ground (arith, select-update i j n at l)

pub assertion_row-update :
    (i j n : ℕ) (l : List Assertion)
    → find
        (λ (a : Assertion). a.id == i)
        (update
          (λ (o : Assertion). o.id == j)
          (λ (o : Assertion). record o { current_revision = n })
          l)
      ≡ (if i == j
          then Option.map
              (λ (o : Assertion). record o { current_revision = n })
              (find (λ (a : Assertion). a.id == i) l)
          else find (λ (a : Assertion). a.id == i) l)
assertion_row-update i j n [] = ground arith
assertion_row-update i j n (a ∷ l) = ground (arith, assertion_row-update i j n l)

-- Older revisions have smaller numbers.
older_unchanged :
    (end : Option ℕ) (m n at : ℕ) (h : List AssertionRevision)
    → IsTimeline end m h
    → m < n
    → update (λ (r : AssertionRevision). r.revision == n) (close at) h ≡ h
older_unchanged end m n at [] k lt = absurd k
older_unchanged end m n at (r ∷ []) k lt = ground arith
older_unchanged end m n at (r ∷ p ∷ h) k lt =
    ground (arith, older_unchanged (some r.recorded_at) p.revision n at (p ∷ h) k.4)

-- A new revision that begins where the newest one is closed.
pub extend-IsTimeline :
    (n : ℕ) (h : List AssertionRevision) (p r : AssertionRevision)
    → IsTimeline none n h
    → find (λ (o : AssertionRevision). o.revision == n) h ≡ some p
    → p.recorded_at < r.recorded_at
    → r.revision ≡ n + 1
    → r.known_until ≡ none
    → IsTimeline none r.revision
        (r ∷ update (λ (o : AssertionRevision). o.revision == n) (close r.recorded_at) h)
extend-IsTimeline n [] p r k e lt a b = absurd k
extend-IsTimeline n (q ∷ []) p r k e lt a b = ground arith
extend-IsTimeline n (q ∷ q' ∷ h) p r k e lt a b =
    ground (arith, older_unchanged (some q.recorded_at) q'.revision n r.recorded_at (q' ∷ h) k.4)
