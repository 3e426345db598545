-- ===== src/Service/Timeline/Insert.antt =====
-- Inserting a revision of an assertion keeps every history a timeline.
use pg_agmemory.Prelude.{
  ℕ, ◌+◌, ◌<◌, ◌≡◌, ◌≢◌, refl, sym, true, false, Bool-cases, at_or_else, Option, none, some,
  Option-cases, inl, inr, List, [], ◌∷◌, any, find, select, update, ◌==◌, ==_self, ==_ne, ==→eq,
  ==→ne, if◌then◌else◌, arith,
}
use mathlib.Core.Path.{subst}
use pg_agmemory.Store.Tables.{Store, Assertion, AssertionRevision}
use pg_agmemory.Store.Exec.{ok, gets, or_raise, require, modify, ◌>>=◌}
use pg_agmemory.Store.Keeps.{Leads, Keeps}
use pg_agmemory.Service.Memory.{assertion_row, insert_assertion_revision, insert_assertion}
use pg_agmemory.Service.Timeline.{
  IsTimeline, TimelineOf, HasTimelines, IsDrafting, assertion_history, close, of_revision,
  select-update, assertion_row-update, extend-IsTimeline,
}

abbrev revision_row : Store → ℕ → ℕ → Option AssertionRevision
revision_row s id n = find (λ (r : AssertionRevision). r.revision == n) (assertion_history s id)

find_of_select :
    (i n : ℕ) (l : List AssertionRevision)
    → find (of_revision i n) l
      ≡ find
          (λ (r : AssertionRevision). r.revision == n)
          (select (λ (r : AssertionRevision). r.assertion_id == i) l)
find_of_select i n [] = refl
find_of_select i n (r ∷ l) = ground (arith, find_of_select i n l)

any_of_select :
    (i n : ℕ) (l : List AssertionRevision)
    → any (of_revision i n) l
      ≡ any
          (λ (r : AssertionRevision). r.revision == n)
          (select (λ (r : AssertionRevision). r.assertion_id == i) l)
any_of_select i n [] = refl
any_of_select i n (r ∷ l) = ground (arith, any_of_select i n l)

pub insert_assertion_revision_known :
    (at : ℕ) (s s' : Store) (r : AssertionRevision)
    → insert_assertion_revision at r s ≡ ok (tt, s')
    → (a : Assertion) × (assertion_row s r.assertion_id ≡ some a)
unfolding insert_assertion_revision ◌>>=◌ require gets modify or_raise
insert_assertion_revision_known at s s' r h = ground arith

pub insert_assertion_revision_first :
    (at : ℕ) (s s' : Store) (r : AssertionRevision) (a : Assertion)
    → assertion_row s r.assertion_id ≡ some a
    → r.revision ≡ 1
    → insert_assertion_revision at r s ≡ ok (tt, s')
    → (s' ≡ record s { assertion_revisions = r ∷ s.assertion_revisions })
      × (any (of_revision r.assertion_id r.revision) s.assertion_revisions ≡ false)
unfolding insert_assertion_revision ◌>>=◌ require gets modify or_raise
insert_assertion_revision_first at s s' r a row one h = (ground arith, ground arith)

pub insert_assertion_revision_next :
    (at : ℕ) (s s' : Store) (r : AssertionRevision) (a : Assertion)
    → assertion_row s r.assertion_id ≡ some a
    → r.revision ≢ 1
    → insert_assertion_revision at r s ≡ ok (tt, s')
    → (p : AssertionRevision) × (find
          (of_revision r.assertion_id a.current_revision)
          s.assertion_revisions
        ≡ some p)
      × (s' ≡ record s {
        assertions =
            update
              (λ (o : Assertion). o.id == r.assertion_id)
              (λ (o : Assertion). record o { current_revision = r.revision })
              s.assertions;
        assertion_revisions =
            r
            ∷ update
                (of_revision r.assertion_id a.current_revision)
                (close at)
                s.assertion_revisions;
      })
      × (r.revision ≡ a.current_revision + 1)
      × (p.recorded_at < at)
unfolding insert_assertion_revision ◌>>=◌ require gets modify or_raise
insert_assertion_revision_next at s s' r a row one h =
    elim (Option-cases
      (find (of_revision r.assertion_id a.current_revision) s.assertion_revisions)) [
        | inl missing ↦ ground arith
        | inr (p, found) ↦ (p, found, ground arith, ground arith, ground arith)
      ]

-- A timeline always holds revision 1.
first_is_taken :
    (end : Option ℕ) (n : ℕ) (h : List AssertionRevision)
    → IsTimeline end n h
    → any (λ (o : AssertionRevision). o.revision == 1) h ≡ true
first_is_taken end n [] k = absurd k
first_is_taken end n (r ∷ []) k = ground arith
first_is_taken end n (r ∷ p ∷ h) k =
    ground (arith, first_is_taken (some r.recorded_at) p.revision (p ∷ h))

module _ (s : Store) (r : AssertionRevision) (a : Assertion)
    (row : assertion_row s r.assertion_id ≡ some a) where
  abbrev revised : Store
  revised = record s {
    assertions =
        update (λ (o : Assertion). o.id == r.assertion_id)
          (λ (o : Assertion). record o { current_revision = r.revision }) s.assertions;
    assertion_revisions =
        r
        ∷ update (of_revision r.assertion_id a.current_revision) (close r.recorded_at)
            s.assertion_revisions;
  }

  module _ (c : HasTimelines s) where
    TimelineOf-revised_self :
        (p : AssertionRevision)
        → find (of_revision r.assertion_id a.current_revision) s.assertion_revisions ≡ some p
        → r.revision ≡ a.current_revision + 1
        → p.recorded_at < r.recorded_at
        → r.known_until ≡ none
        → TimelineOf
            (assertion_row revised r.assertion_id)
            (assertion_history revised r.assertion_id)
    TimelineOf-revised_self p found next lt unclosed =
        let old : IsTimeline none a.current_revision (assertion_history s r.assertion_id) =
          rw row at (c.timeline r.assertion_id) in
        let newest =
          rw (find_of_select r.assertion_id a.current_revision s.assertion_revisions) at found in
        rw
          (
            assertion_row-update r.assertion_id r.assertion_id r.revision s.assertions,
            select-update r.assertion_id r.assertion_id a.current_revision r.recorded_at
                s.assertion_revisions,
            ==_self r.assertion_id,
            row,
          )
          (extend-IsTimeline a.current_revision (assertion_history s r.assertion_id) p r old newest
            lt next unclosed)

    TimelineOf-revised_ne :
        (id : ℕ)
        → id ≢ r.assertion_id
        → TimelineOf (assertion_row revised id) (assertion_history revised id)
    TimelineOf-revised_ne id ne =
        rw
          (
            assertion_row-update id r.assertion_id r.revision s.assertions,
            select-update id r.assertion_id a.current_revision r.recorded_at s.assertion_revisions,
            ==_ne id r.assertion_id ne,
            ==_ne r.assertion_id id (λ q. ne (sym q)),
          )
          (c.timeline id)

  draft_revised :
      IsDrafting r.assertion_id s
      → r.revision ≡ 1
      → r.known_until ≡ none
      → HasTimelines (record s { assertion_revisions = r ∷ s.assertion_revisions })
  draft_revised d one unclosed =
      let P = λ (i : ℕ).
        TimelineOf (assertion_row s i)
          (if r.assertion_id == i then r ∷ assertion_history s i else assertion_history s i) in
      let (first, empty) : (a.current_revision ≡ 1) × (assertion_history s r.assertion_id ≡ []) =
        rw row at d.draft in
      record {
        timeline =
            at_or_else P r.assertion_id
              (rw (==_self r.assertion_id, row, empty) (first, one, unclosed, tt))
              (λ id ne. rw (==_ne r.assertion_id id (λ q. ne (sym q))) (d.others id ne));
      }

no_second_first :
    (s : Store) (r : AssertionRevision) (a : Assertion)
    → HasTimelines s
    → assertion_row s r.assertion_id ≡ some a
    → r.revision ≡ 1
    → any (of_revision r.assertion_id r.revision) s.assertion_revisions ≡ false
    → ⊥
no_second_first s r a c row first free =
    let free' =
      subst (λ n. any (of_revision r.assertion_id n) s.assertion_revisions ≡ false) first free in
    let none_free = rw (any_of_select r.assertion_id 1 s.assertion_revisions) at free' in
    cc (
      none_free,
      first_is_taken none a.current_revision (assertion_history s r.assertion_id)
          (rw row at (c.timeline r.assertion_id)),
    )

-- The trigger keeps every history a timeline, for a revision that is recorded open.
pub insert_assertion_revision-HasTimelines :
    (r : AssertionRevision)
    → r.known_until ≡ none
    → Keeps HasTimelines (insert_assertion_revision r.recorded_at r)
insert_assertion_revision-HasTimelines r unclosed = record {
  at = λ s x s' c h.
      let (a, row) = insert_assertion_revision_known r.recorded_at s s' r h in
      elim (Bool-cases (r.revision == 1)) [
        | inl first ↦
            let one = ==→eq r.revision 1 first in
            let (_, free) = insert_assertion_revision_first r.recorded_at s s' r a row one h in
            absurd (no_second_first s r a c row one free)
        | inr next ↦
            let (p, found, same, number, lt) =
              insert_assertion_revision_next r.recorded_at s s' r a row (==→ne r.revision 1 next)
                h in
            rw same (record {
              timeline =
                  at_or_else
                    (λ i.
                      TimelineOf (assertion_row (revised s r a row) i)
                        (assertion_history (revised s r a row) i))
                    r.assertion_id (TimelineOf-revised_self s r a row c p found number lt unclosed)
                    (TimelineOf-revised_ne s r a row c);
            })
      ];
}

-- The first revision of a new assertion ends the draft.
pub insert_assertion_revision-draft :
    (r : AssertionRevision)
    → r.revision ≡ 1
    → r.known_until ≡ none
    → Leads
        (IsDrafting r.assertion_id)
        (insert_assertion_revision r.recorded_at r)
        (λ _. HasTimelines)
insert_assertion_revision-draft r one unclosed = record {
  at = λ s x s' d h.
      let (a, row) = insert_assertion_revision_known r.recorded_at s s' r h in
      let (same, _) = insert_assertion_revision_first r.recorded_at s s' r a row one h in
      rw same (draft_revised s r a row d one unclosed);
}

pub insert_assertion_lem :
    (a : Assertion) (s s' : Store)
    → insert_assertion a s ≡ ok (tt, s')
    → (s' ≡ record s { assertions = a ∷ s.assertions })
      × (find (λ (o : Assertion). o.id == a.id) s.assertions ≡ none)
unfolding insert_assertion ◌>>=◌ require gets modify or_raise
insert_assertion_lem a s s' h = (ground arith, find_of_free s.assertions (ground arith))
  where
    find_of_free :
        (l : List Assertion)
        → any (λ (o : Assertion). o.id == a.id) l ≡ false
        → find (λ (o : Assertion). o.id == a.id) l ≡ none
    find_of_free [] h = refl
    find_of_free (o ∷ l) h = ground (arith, find_of_free l)

-- A new assertion starts as a draft.
pub insert_assertion-draft :
    (a : Assertion)
    → a.current_revision ≡ 1
    → Leads HasTimelines (insert_assertion a) (λ _. IsDrafting a.id)
insert_assertion-draft a one = record {
  at = λ s x s' c h.
      let (same, none_yet) = insert_assertion_lem a s s' h in
      rw same (record {
        draft = rw (==_self a.id) (one, rw none_yet at (c.timeline a.id));
        others = λ id ne. rw (==_ne a.id id (λ q. ne (sym q))) (c.timeline id);
      });
}
