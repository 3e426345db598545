-- ===== src/Graph/Targets.antt =====
-- A relation has one target for each of its revisions (src/pg_agmemory/graphs.py).
pub mod Operations
use mathlib.Core.Option
use pg_agmemory.Prelude.{
  ℕ, ◌+◌, ◌≡◌, ◌≢◌, refl, sym, ap, ◌∙◌, Bool, true, false, Bool-cases, at_or_else, Option, none,
  some, inl, inr, List, [], ◌∷◌, map, any, find, select, update, ◌==◌, ==_self, ==_ne, ==→eq, ==→ne,
  if◌then◌else◌, arith,
}
use mathlib.Core.Path.{subst}
use pg_agmemory.Store.Tables.{Store, Assertion, AssertionRevision, RelationRevision}
use pg_agmemory.Store.Exec.{ok, gets, or_raise, require, modify, ◌>>=◌}
use pg_agmemory.Store.Keeps.{Leads, Keeps}
use pg_agmemory.Service.Memory.{assertion_row, insert_assertion, insert_assertion_revision}
use pg_agmemory.Service.Timeline.{
  assertion_history, close, of_revision, select-update, assertion_row-update,
}
use pg_agmemory.Service.Timeline.Insert.{
  insert_assertion_revision_known, insert_assertion_revision_first, insert_assertion_revision_next,
  insert_assertion_lem,
}
use pg_agmemory.Graph.Rows.{insert_target}

-- Whether there is such an assertion, and whether it is a relation.
abbrev pub kind_of : Store → ℕ → Option Bool
kind_of s id = Option.map (λ (a : Assertion). a.is_relation) (assertion_row s id)

-- The numbers of an assertion's revisions, the newest first.
abbrev pub numbers : Store → ℕ → List ℕ
numbers s id = map (λ (r : AssertionRevision). r.revision) (assertion_history s id)

-- The numbers of the revisions that have a target, the newest first.
abbrev pub target_numbers : Store → ℕ → List ℕ
target_numbers s id =
    map (λ (v : RelationRevision). v.revision)
      (select (λ (v : RelationRevision). v.assertion_id == id) s.relation_revisions)

abbrev pub TargetsOf : Option Bool → List ℕ → List ℕ → Type 0
TargetsOf none revisions targets = (revisions ≡ []) × (targets ≡ [])
TargetsOf (some true) revisions targets = targets ≡ revisions
TargetsOf (some false) revisions targets = targets ≡ []

-- Every revision of a relation has its target, in the same order; other assertions have no targets,
-- and no revision is left of an assertion that is not there.
pub record HasTargets (s : Store) : Type 0 where
  pub targets : (id : ℕ) → TargetsOf (kind_of s id) (numbers s id) (target_numbers s id)

-- Within a transaction, where the kind of one assertion is known.
pub record Knows (kind : Bool) (x : ℕ) (s : Store) : Type 0 where
  pub all : HasTargets s
  pub known : kind_of s x ≡ some kind

-- Within a transaction: revision `n` of the relation `x` has no target yet.
pub record IsPending (x n : ℕ) (s : Store) : Type 0 where
  pub relation : kind_of s x ≡ some true
  pub ahead : numbers s x ≡ n ∷ target_numbers s x
  pub others : (id : ℕ) → id ≢ x → TargetsOf (kind_of s id) (numbers s id) (target_numbers s id)

numbers_of_update :
    (n at : ℕ) (h : List AssertionRevision)
    → map
        (λ (r : AssertionRevision). r.revision)
        (update (λ (r : AssertionRevision). r.revision == n) (close at) h)
      ≡ map (λ (r : AssertionRevision). r.revision) h
numbers_of_update n at [] = refl
numbers_of_update n at (r ∷ h) = ground (arith, numbers_of_update n at h)

-- What an insertion does to the kinds and the numbers.
record Inserts (r : AssertionRevision) (s s' : Store) : Type 0 where
  kinds : (id : ℕ) → kind_of s' id ≡ kind_of s id
  revisions :
      (id : ℕ)
      → numbers s' id ≡ (if r.assertion_id == id then r.revision ∷ numbers s id else numbers s id)
  same_targets : s'.relation_revisions ≡ s.relation_revisions

numbers_of_if :
    (b : Bool) (r : AssertionRevision) (h : List AssertionRevision)
    → map (λ (r : AssertionRevision). r.revision) (if b then r ∷ h else h) ≡ (
        if b
        then r.revision ∷ map (λ (r : AssertionRevision). r.revision) h
        else map (λ (r : AssertionRevision). r.revision) h)
numbers_of_if true r h = refl
numbers_of_if false r h = refl

kind_of_if :
    (b : Bool) (n : ℕ) (o : Option Assertion)
    → Option.map
        (λ (a : Assertion). a.is_relation)
        (if b then Option.map (λ (a : Assertion). record a { current_revision = n }) o else o)
      ≡ Option.map (λ (a : Assertion). a.is_relation) o
kind_of_if true n none = refl
kind_of_if true n (some a) = refl
kind_of_if false n o = refl

numbers_of_close :
    (b : Bool) (n at : ℕ) (h : List AssertionRevision)
    → map
        (λ (r : AssertionRevision). r.revision)
        (if b then update (λ (r : AssertionRevision). r.revision == n) (close at) h else h)
      ≡ map (λ (r : AssertionRevision). r.revision) h
numbers_of_close true n at h = numbers_of_update n at h
numbers_of_close false n at h = refl

insert_assertion_revision-Inserts :
    (r : AssertionRevision) (s s' : Store)
    → insert_assertion_revision r.recorded_at r s ≡ ok (tt, s')
    → Inserts r s s'
insert_assertion_revision-Inserts r s s' h =
    let (a, row) = insert_assertion_revision_known r.recorded_at s s' r h in
    elim (Bool-cases (r.revision == 1)) [
      | inl first ↦
          let one = ==→eq r.revision 1 first in
          let (same, _) = insert_assertion_revision_first r.recorded_at s s' r a row one h in
          rw same (record {
            kinds = λ id. refl;
            revisions = λ id. numbers_of_if (r.assertion_id == id) r (assertion_history s id);
            same_targets = refl;
          })
      | inr next ↦
          let (p, found, same, number, lt) =
            insert_assertion_revision_next r.recorded_at s s' r a row (==→ne r.revision 1 next) h in
          rw same (record {
            kinds = λ id.
                rw (assertion_row-update id r.assertion_id r.revision s.assertions)
                  (kind_of_if (id == r.assertion_id) r.revision (assertion_row s id));
            revisions = λ id.
                numbers_of_if (r.assertion_id == id) r _
                ∙ ap (λ (l : List ℕ). if r.assertion_id == id then r.revision ∷ l else l)
                    (rw
                      (select-update id r.assertion_id a.current_revision r.recorded_at
                        s.assertion_revisions)
                      (numbers_of_close (id == r.assertion_id) a.current_revision r.recorded_at
                        (assertion_history s id)));
            same_targets = refl;
          })
    ]

same_target_numbers :
    (s s' : Store)
    → s'.relation_revisions ≡ s.relation_revisions
    → (id : ℕ) → target_numbers s' id ≡ target_numbers s id
same_target_numbers s s' e id =
    ap
      (λ (l : List RelationRevision).
        map (λ (v : RelationRevision). v.revision)
          (select (λ (v : RelationRevision). v.assertion_id == id) l))
      e

module _ (r : AssertionRevision) (s s' : Store) (i : Inserts r s s') where
  -- The assertions that the insertion is not about.
  TargetsOf-others :
      (id : ℕ)
      → id ≢ r.assertion_id
      → TargetsOf (kind_of s id) (numbers s id) (target_numbers s id)
      → TargetsOf (kind_of s' id) (numbers s' id) (target_numbers s' id)
  TargetsOf-others id ne t =
      rw
        (
          i.kinds id,
          i.revisions id,
          same_target_numbers s s' i.same_targets id,
          ==_ne r.assertion_id id (λ q. ne (sym q)),
        )
        t

  TargetsOf-plain :
      Knows false r.assertion_id s
      → TargetsOf
          (kind_of s' r.assertion_id)
          (numbers s' r.assertion_id)
          (target_numbers s' r.assertion_id)
  TargetsOf-plain k =
      rw (i.kinds r.assertion_id, same_target_numbers s s' i.same_targets r.assertion_id, k.known)
        (rw k.known at (k.all.targets r.assertion_id))

  IsPending-insert : Knows true r.assertion_id s → IsPending r.assertion_id r.revision s'
  IsPending-insert k =
      let even : target_numbers s r.assertion_id ≡ numbers s r.assertion_id =
        rw k.known at (k.all.targets r.assertion_id) in
      record {
        relation = i.kinds r.assertion_id ∙ k.known;
        ahead =
            i.revisions r.assertion_id
            ∙ rw
                (
                  ==_self r.assertion_id,
                  same_target_numbers s s' i.same_targets r.assertion_id,
                  even,
                )
                refl;
        others = λ id ne. TargetsOf-others id ne (k.all.targets id);
      }

-- A revision of an assertion that is no relation.
pub insert_assertion_revision-plain :
    (r : AssertionRevision)
    → Leads
        (Knows false r.assertion_id)
        (insert_assertion_revision r.recorded_at r)
        (λ _. HasTargets)
insert_assertion_revision-plain r = record {
  at = λ s x s' k h.
      let i = insert_assertion_revision-Inserts r s s' h in
      record {
        targets =
            at_or_else (λ id. TargetsOf (kind_of s' id) (numbers s' id) (target_numbers s' id))
              r.assertion_id (TargetsOf-plain r s s' i k)
              (λ id ne. TargetsOf-others r s s' i id ne (k.all.targets id));
      };
}

-- A revision of a relation waits for its target.
pub insert_assertion_revision-relation :
    (r : AssertionRevision)
    → Leads
        (Knows true r.assertion_id)
        (insert_assertion_revision r.recorded_at r)
        (λ _. IsPending r.assertion_id r.revision)
insert_assertion_revision-relation r = record {
  at = λ s x s' k h. IsPending-insert r s s' (insert_assertion_revision-Inserts r s s' h) k;
}

insert_target_lem :
    (v : RelationRevision) (s s' : Store)
    → insert_target v s ≡ ok (tt, s')
    → s' ≡ record s { relation_revisions = v ∷ s.relation_revisions }
unfolding insert_target ◌>>=◌ require gets modify
insert_target_lem v s s' h = ground arith

pub insert_target-HasTargets :
    (v : RelationRevision)
    → Leads (IsPending v.assertion_id v.revision) (insert_target v) (λ _. HasTargets)
insert_target-HasTargets v = record {
  at = λ s x s' p h. rw (insert_target_lem v s s' h) (record {
    targets =
        at_or_else
          (λ id.
            TargetsOf (kind_of s id) (numbers s id)
              (target_numbers (record s { relation_revisions = v ∷ s.relation_revisions }) id))
          v.assertion_id (rw (==_self v.assertion_id, p.relation) (sym p.ahead))
          (λ id ne. rw (==_ne v.assertion_id id (λ q. ne (sym q))) (p.others id ne));
  });
}

new_TargetsOf : (b : Bool) {h t : List ℕ} → h ≡ [] → t ≡ [] → TargetsOf (some b) h t
new_TargetsOf true p q = q ∙ sym p
new_TargetsOf false p q = q

-- A new assertion has no revisions and no targets yet.
pub insert_assertion-Knows :
    (a : Assertion) → Leads HasTargets (insert_assertion a) (λ _. Knows a.is_relation a.id)
insert_assertion-Knows a = record {
  at = λ s x s' c h.
      let (same, none_yet) = insert_assertion_lem a s s' h in
      let new = record s { assertions = a ∷ s.assertions } in
      let (no_revisions, no_targets) = rw none_yet at (c.targets a.id) in
      rw same (record {
        all = record {
          targets =
              at_or_else (λ id. TargetsOf (kind_of new id) (numbers s id) (target_numbers s id))
                a.id (rw (==_self a.id) (new_TargetsOf a.is_relation no_revisions no_targets))
                (λ id ne. rw (==_ne a.id id (λ q. ne (sym q))) (c.targets id));
        };
        known = rw (==_self a.id) refl;
      });
}
