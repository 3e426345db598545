-- ===== src/Effects/Invariant.antt =====
-- The history of every effect is one chain from `planned`, and its current revision is the newest.
use pg_agmemory.Prelude.{
  ℕ, ◌+◌, ◌≡◌, ◌≢◌, refl, true, false, Bool-cases, at_or_else, Option, none, some, Option-cases,
  inl, inr, List, [], ◌∷◌, any, find, update, ◌==◌, ==_self, ==_ne, ==→eq, ==→ne, sym, ◌||◌, ◌&&◌,
  if◌then◌else◌, arith,
}
use mathlib.Core.Option
use mathlib.Core.Path.{subst}
use pg_agmemory.Store.Tables.{Store, planned, ToolEffect, EffectRevision}
use pg_agmemory.Store.Exec.{ok, gets, or_raise, require, modify, ◌>>=◌}
use pg_agmemory.Store.Keeps.{Leads, Keeps}
use pg_agmemory.Effects.Status.{adoptable}
use pg_agmemory.Effects.Database.{
  effect_row, history_rows, in_run, revision_row, insert_effect, insert_revision,
}

-- A history of `n` revisions, the newest first: numbered without gaps from 1, begun as planned,
-- each status one that may follow the one before.
abbrev pub IsHistory : ℕ → List EffectRevision → Type 0
IsHistory n [] = ⊥
IsHistory n (r ∷ []) = (n ≡ 1) × (r.revision ≡ 1) × (r.status ≡ planned)
IsHistory n (r ∷ p ∷ h) =
    (r.revision ≡ n)
    × (n ≡ p.revision + 1)
    × (adoptable p.status r.status ≡ true)
    × IsHistory p.revision (p ∷ h)

abbrev pub HistoryOf : Option ToolEffect → List EffectRevision → Type 0
HistoryOf none h = h ≡ []
HistoryOf (some e) h = IsHistory e.current_revision h

pub record IsConsistent (s : Store) : Type 0 where
  pub history : (id : ℕ) → HistoryOf (effect_row s id) (history_rows s id)

-- Within a transaction: the effect `x` has no revision yet.
abbrev IsDraft : Option ToolEffect → List EffectRevision → Type 0
IsDraft none h = ⊥
IsDraft (some e) h = (e.current_revision ≡ 1) × (h ≡ [])

pub record IsDrafting (x : ℕ) (s : Store) : Type 0 where
  pub draft : IsDraft (effect_row s x) (history_rows s x)
  pub others : (id : ℕ) → id ≢ x → HistoryOf (effect_row s id) (history_rows s id)

-- The row that the current revision names is the newest.
pub find-history :
    (n : ℕ) (h : List EffectRevision) (p : EffectRevision)
    → IsHistory n h
    → find (λ (r : EffectRevision). r.revision == n) h ≡ some p
    → (l : List EffectRevision) × (h ≡ p ∷ l)
find-history n [] p k e = absurd k
find-history n (r ∷ []) p k e = ([], ground arith)
find-history n (r ∷ q ∷ h) p k e = (q ∷ h, ground arith)

extend-IsHistory :
    (n : ℕ) (h : List EffectRevision) (p r : EffectRevision)
    → IsHistory n h
    → find (λ (o : EffectRevision). o.revision == n) h ≡ some p
    → r.revision ≡ n + 1
    → adoptable p.status r.status ≡ true
    → IsHistory r.revision (r ∷ h)
extend-IsHistory n [] p r k e a b = absurd k
extend-IsHistory n (q ∷ []) p r k e a b = ground arith
extend-IsHistory n (q ∷ q' ∷ h) p r k e a b = ground (arith)

effect_row-update :
    (i j n : ℕ) (l : List ToolEffect)
    → find
        (λ (e : ToolEffect). e.id == i)
        (update
          (λ (o : ToolEffect). o.id == j)
          (λ (o : ToolEffect). record o { current_revision = n })
          l)
      ≡ (if i == j
          then Option.map
              (λ (o : ToolEffect). record o { current_revision = n })
              (find (λ (e : ToolEffect). e.id == i) l)
          else find (λ (e : ToolEffect). e.id == i) l)
effect_row-update i j n [] = ground arith
effect_row-update i j n (e ∷ l) = ground (arith, effect_row-update i j n l)

insert_revision_first :
    (s s' : Store) (r : EffectRevision) (e : ToolEffect)
    → effect_row s r.effect_id ≡ some e
    → r.revision ≡ 1
    → insert_revision r s ≡ ok (tt, s')
    → (s' ≡ record s { effect_revisions = r ∷ s.effect_revisions })
      × (r.status ≡ planned)
      × (e.current_revision ≡ 1)
      × (any (λ (o : EffectRevision). o.revision == r.revision) (history_rows s r.effect_id)
          ≡ false)
unfolding insert_revision ◌>>=◌ require gets modify or_raise
insert_revision_first s s' r e he h1 h = (ground arith, ground arith, ground arith, ground arith)

insert_revision_next :
    (s s' : Store) (r : EffectRevision) (e : ToolEffect)
    → effect_row s r.effect_id ≡ some e
    → r.revision ≢ 1
    → insert_revision r s ≡ ok (tt, s')
    → (p : EffectRevision) × (revision_row s r.effect_id e.current_revision ≡ some p)
      × (s' ≡ record s {
        effects =
            update
              (λ (o : ToolEffect). o.id == r.effect_id)
              (λ (o : ToolEffect). record o { current_revision = r.revision })
              s.effects;
        effect_revisions = r ∷ s.effect_revisions;
      })
      × (r.revision ≡ e.current_revision + 1)
      × (adoptable p.status r.status ≡ true)
unfolding insert_revision ◌>>=◌ require gets modify or_raise
insert_revision_next s s' r e he h1 h =
    elim (Option-cases (revision_row s r.effect_id e.current_revision)) [
      | inl missing ↦ ground arith
      | inr (p, found) ↦ (p, found, ground arith, ground arith, ground arith)
    ]

insert_revision_known :
    (s s' : Store) (r : EffectRevision)
    → insert_revision r s ≡ ok (tt, s')
    → (e : ToolEffect) × (effect_row s r.effect_id ≡ some e)
unfolding insert_revision ◌>>=◌ require gets modify or_raise
insert_revision_known s s' r h = ground arith

-- A history always holds revision 1.
first_is_taken :
    (n : ℕ) (h : List EffectRevision)
    → IsHistory n h
    → any (λ (o : EffectRevision). o.revision == 1) h ≡ true
first_is_taken n [] k = absurd k
first_is_taken n (r ∷ []) k = ground arith
first_is_taken n (r ∷ p ∷ h) k = ground (arith, first_is_taken p.revision (p ∷ h))

-- One more revision of an effect whose row is `e`.
module _ (s : Store) (r : EffectRevision) (e : ToolEffect)
    (row : effect_row s r.effect_id ≡ some e) where
  abbrev revised : Store
  revised = record s {
    effects =
        update (λ (o : ToolEffect). o.id == r.effect_id)
          (λ (o : ToolEffect). record o { current_revision = r.revision }) s.effects;
    effect_revisions = r ∷ s.effect_revisions;
  }

  module _ (c : IsConsistent s) where
    HistoryOf-revised_self :
        (p : EffectRevision)
        → revision_row s r.effect_id e.current_revision ≡ some p
        → r.revision ≡ e.current_revision + 1
        → adoptable p.status r.status ≡ true
        → HistoryOf (effect_row revised r.effect_id) (history_rows revised r.effect_id)
    HistoryOf-revised_self p found next may =
        let old : IsHistory e.current_revision (history_rows s r.effect_id) =
          rw row at (c.history r.effect_id) in
        rw
          (effect_row-update r.effect_id r.effect_id r.revision s.effects, ==_self r.effect_id, row)
          (extend-IsHistory e.current_revision (history_rows s r.effect_id) p r old found next may)

    HistoryOf-revised_ne :
        (id : ℕ) → id ≢ r.effect_id → HistoryOf (effect_row revised id) (history_rows revised id)
    HistoryOf-revised_ne id ne =
        rw
          (
            effect_row-update id r.effect_id r.revision s.effects,
            ==_ne id r.effect_id ne,
            ==_ne r.effect_id id (λ q. ne (sym q)),
          )
          (c.history id)

  draft_revised :
      IsDrafting r.effect_id s
      → r.revision ≡ 1
      → r.status ≡ planned
      → IsConsistent (record s { effect_revisions = r ∷ s.effect_revisions })
  draft_revised d h1 hp =
      let P = λ (i : ℕ).
        HistoryOf (effect_row s i)
          (if r.effect_id == i then r ∷ history_rows s i else history_rows s i) in
      let (one, empty) : (e.current_revision ≡ 1) × (history_rows s r.effect_id ≡ []) =
        rw row at d.draft in
      record {
        history =
            at_or_else P r.effect_id (rw (==_self r.effect_id, row, empty) (one, h1, hp))
              (λ id ne. rw (==_ne r.effect_id id (λ q. ne (sym q))) (d.others id ne));
      }

-- Revision 1 of an effect that has a history is refused.
no_second_first :
    (s : Store) (r : EffectRevision) (e : ToolEffect)
    → IsConsistent s
    → effect_row s r.effect_id ≡ some e
    → r.revision ≡ 1
    → any (λ (o : EffectRevision). o.revision == r.revision) (history_rows s r.effect_id) ≡ false
    → ⊥
no_second_first s r e c row first free =
    let free' =
      subst
        (λ n. any (λ (o : EffectRevision). o.revision == n) (history_rows s r.effect_id) ≡ false)
        first free in
    cc (
      free',
      first_is_taken e.current_revision (history_rows s r.effect_id)
          (rw row at (c.history r.effect_id)),
    )

-- The trigger keeps every history a chain, whatever revision is inserted.
pub insert_revision-IsConsistent : (r : EffectRevision) → Keeps IsConsistent (insert_revision r)
insert_revision-IsConsistent r = record {
  at = λ s a s' c h.
      let (e, row) = insert_revision_known s s' r h in
      elim (Bool-cases (r.revision == 1)) [
        | inl first ↦
            let one = ==→eq r.revision 1 first in
            let (_, _, _, free) = insert_revision_first s s' r e row one h in
            absurd (no_second_first s r e c row one free)
        | inr next ↦
            let (p, found, same, number, may) =
              insert_revision_next s s' r e row (==→ne r.revision 1 next) h in
            rw same (record {
              history =
                  at_or_else
                    (λ i.
                      HistoryOf (effect_row (revised s r e row) i)
                        (history_rows (revised s r e row) i))
                    r.effect_id (HistoryOf-revised_self s r e row c p found number may)
                    (HistoryOf-revised_ne s r e row c);
            })
      ];
}

-- The first revision of a new effect ends the draft.
pub insert_revision-draft :
    (r : EffectRevision)
    → r.revision ≡ 1
    → Leads (IsDrafting r.effect_id) (insert_revision r) (λ _. IsConsistent)
insert_revision-draft r one = record {
  at = λ s a s' d h.
      let (e, row) = insert_revision_known s s' r h in
      let (same, begun, _, _) = insert_revision_first s s' r e row one h in
      rw same (draft_revised s r e row d one begun);
}

insert_effect_lem :
    (e : ToolEffect) (s s' : Store)
    → insert_effect e s ≡ ok (tt, s')
    → (s' ≡ record s { effects = e ∷ s.effects })
      × (e.current_revision ≡ 1)
      × (any
            (λ (o : ToolEffect).
              o.id == e.id || (in_run e.scope_id e.run_id o && o.operation_id == e.operation_id))
            s.effects
          ≡ false)
unfolding insert_effect ◌>>=◌ require gets modify or_raise
insert_effect_lem e s s' h = (ground arith, ground arith, ground arith)

find_of_free :
    (e : ToolEffect) (l : List ToolEffect)
    → any
        (λ (o : ToolEffect).
          o.id == e.id || (in_run e.scope_id e.run_id o && o.operation_id == e.operation_id))
        l
      ≡ false
    → find (λ (o : ToolEffect). o.id == e.id) l ≡ none
find_of_free e [] h = refl
find_of_free e (o ∷ l) h = ground (arith, find_of_free e l)

-- A new effect starts as a draft.
pub insert_effect-draft :
    (e : ToolEffect) → Leads IsConsistent (insert_effect e) (λ _. IsDrafting e.id)
insert_effect-draft e = record {
  at = λ s a s' c h.
      let (same, one, free) = insert_effect_lem e s s' h in
      let none_yet = find_of_free e s.effects free in
      rw same (record {
        draft = rw (==_self e.id) (one, rw none_yet at (c.history e.id));
        others = λ id ne. rw (==_ne e.id id (λ q. ne (sym q))) (c.history id);
      });
}
