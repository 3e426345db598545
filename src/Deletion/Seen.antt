-- ===== src/Deletion/Seen.antt =====
-- A principal that deletes sees everything that it deletes.
use pg_agmemory.Prelude.{
  ℕ, ◌≡◌, sym, ◌∙◌, Bool, true, ◌&&◌, Option, some, Option-cases, List, [], ◌∷◌, any, find, All,
  All-append, ◌==◌, ==→eq, Bool-cases, inl, inr, arith,
}
use mathlib.Core.Path.{subst}
use pg_agmemory.Store.Rows.{Checkpoint}
use pg_agmemory.Store.Tables.{Store, Object, ToolEffect, Permission, delete}
use pg_agmemory.Store.Exec.{ok, gets, or_raise, require, pure, ◌>>=◌}
use pg_agmemory.Store.Keeps.{>>=-eq-ok}
use pg_agmemory.Store.Visibility.{Session, shown, visible, object_row}
use pg_agmemory.Service.{scope, object}
use pg_agmemory.Deletion.{scopes_of}
use pg_agmemory.Deletion.Closure.{Edge, member, Derived, asked_for, by_edge}
use pg_agmemory.Deletion.Rows.{edges_from, concat, run_edges, edge_lists, edges_of}

find-any {ℓ} : {A : Type ℓ} (p : A → Bool) (l : List A) (a : A) → find p l ≡ some a → any p l ≡ true
find-any p [] a h = cc
find-any p (x ∷ l) a h = ground (arith, find-any p l a)

module _ (env : Session) (s : Store) where
  abbrev Seen : Edge → Type 0
  Seen e = visible env s e.1 ≡ true

  object_lem :
      (id : ℕ) (p : Permission) (o : Object) (s' : Store)
      → object env id p s ≡ ok (o, s')
      → (s' ≡ s) × (visible env s id ≡ true)
  unfolding object scope ◌>>=◌ gets or_raise require pure visible object_row
  object_lem id p o s' h = elim (Option-cases (object_row env s id)) [
    | inl missing ↦ absurd (ground arith)
    | inr (row, found) ↦
        (ground arith, find-any (λ (o : Object). o.id == id && shown env s o) s.objects row found)
  ]

  pub scopes_of_lem :
      (ids l : List ℕ) (s' : Store)
      → scopes_of env ids s ≡ ok (l, s')
      → (s' ≡ s) × All (λ id. visible env s id ≡ true) ids
  unfolding scopes_of pure
  scopes_of_lem [] l s' h = (ground arith, tt)
  scopes_of_lem (id ∷ ids) l s' h =
      let (o, t, first, rest) = >>=-eq-ok (object env id delete) _ s h in
      let (same, seen) = object_lem id delete o t first in
      let (l', t', second, last) = >>=-eq-ok (scopes_of env ids) _ t rest in
      let (same', all_seen) =
        scopes_of_lem ids l' t' (subst (λ u. scopes_of env ids u ≡ ok (l', t')) same second) in
      (let e : t' ≡ s' = ground arith in sym e ∙ same', (seen, all_seen))

  edges_from-Seen :
      {A : Type 0} (allowed : A → Bool) (parent : A → Option ℕ) (child : A → ℕ) (l : List A)
      → All Seen (edges_from (visible env s) allowed parent child l)
  unfolding edges_from
  edges_from-Seen allowed parent child [] = tt
  edges_from-Seen allowed parent child (a ∷ l) =
      let rest = edges_from-Seen allowed parent child l in
      elim (Bool-cases (visible env s (child a) && allowed a)) [
        | inl shown ↦ elim (Option-cases (parent a)) [
          | inl orphan ↦ rw (shown, orphan) rest
          | inr (p, found) ↦ rw (shown, found) (ground arith, rest)
        ]
        | inr barred ↦ rw barred rest
      ]

  run_edges-Seen : (es : List ToolEffect) → All Seen (run_edges env s es)
  unfolding run_edges
  run_edges-Seen [] = tt
  run_edges-Seen (e ∷ es) =
      let own =
        edges_from-Seen (λ (c : Checkpoint). c.scope_id == e.scope_id && c.run_id == e.run_id)
          (λ c. some e.id) (λ (c : Checkpoint). c.id) s.checkpoints in
      All-append Seen _ (run_edges env s es) own (run_edges-Seen es)

  concat-Seen : (ls : List (List Edge)) → All (All Seen) ls → All Seen (concat ls)
  unfolding concat
  concat-Seen [] h = tt
  concat-Seen (l ∷ ls) (this, rest) = All-append Seen l (concat ls) this (concat-Seen ls rest)

  edge_lists-Seen : All (All Seen) (edge_lists env s)
  unfolding edge_lists
  edge_lists-Seen = (
    edges_from-Seen _ (λ x. some x.parent_id) _ s.provenance,
    (
      edges_from-Seen _ (λ x. some x.source_id) _ s.job_inputs,
      (
        edges_from-Seen _ _ _ s.jobs,
        (
          edges_from-Seen _ _ _ s.jobs,
          (
            edges_from-Seen _ (λ x. some x.source_id) _ s.entity_evidence,
            (
              edges_from-Seen _ (λ x. some x.source_id) _ s.relations,
              (
                edges_from-Seen _ (λ x. some x.target_id) _ s.relation_revisions,
                (
                  edges_from-Seen _ (λ x. some x.source_id) _ s.checkpoint_references,
                  (
                    edges_from-Seen _ _ _ s.checkpoints,
                    (
                      edges_from-Seen _ (λ x. some x.source_id) _ s.effect_references,
                      (run_edges-Seen _, tt),
                    ),
                  ),
                ),
              ),
            ),
          ),
        ),
      ),
    ),
  )

  -- A principal follows edges only to what it sees.
  edges_of-Seen : All Seen (edges_of env s)
  unfolding edges_of
  edges_of-Seen = concat-Seen (edge_lists env s) edge_lists-Seen

  edge-Seen :
      (parent child : ℕ) (l : List Edge)
      → All Seen l
      → any (λ (e : Edge). e.0 == parent && e.1 == child) l ≡ true
      → visible env s child ≡ true
  edge-Seen parent child [] seen h = cc
  edge-Seen parent child ((p, c) ∷ l) (this, seen) h =
      elim (Bool-cases (p == parent && c == child)) [
        | inl here ↦
            let same : c ≡ child = ground arith in subst (λ z. visible env s z ≡ true) same this
        | inr other ↦ edge-Seen parent child l seen (rw other at h)
      ]

  root-Seen :
      (x : ℕ) (ids : List ℕ)
      → All (λ id. visible env s id ≡ true) ids
      → member ids x ≡ true
      → visible env s x ≡ true
  root-Seen x [] seen h = cc
  root-Seen x (id ∷ ids) (this, seen) h = elim (Bool-cases (id == x)) [
    | inl same ↦ subst (λ z. visible env s z ≡ true) (==→eq id x same) this
    | inr other ↦ root-Seen x ids seen (rw other at h)
  ]

  pub Derived-visible :
      (ids : List ℕ)
      → All (λ id. visible env s id ≡ true) ids
      → (x : ℕ) → Derived (edges_of env s) ids x
      → visible env s x ≡ true
  Derived-visible ids seen x (asked_for _ h) = root-Seen x ids seen h
  Derived-visible ids seen x (by_edge parent _ d e) =
      edge-Seen parent x (edges_of env s) edges_of-Seen e
