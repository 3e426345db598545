-- ===== src/Checkpoints/Chains/Adopting.antt =====
-- What an insertion of a checkpoint that commits has checked and written.
use pg_agmemory.Prelude.{
  ℕ, ◌+◌, ◌≡◌, inl, inr, refl, ap, ◌∙◌, Bool, true, false, not, ◌&&◌, ◌||◌, Option, none, some,
  Option-cases, List, [], ◌∷◌, any, find, update, ltb, leb, ◌==◌, arith,
}
use mathlib.Core.Path.{subst}
use pg_agmemory.Store.Rows.{Branch, Checkpoint}
use pg_agmemory.Store.Tables.{Store}
use pg_agmemory.Store.Exec.{
  ok, database_error, gets, or_raise, require, modify, pure, Exec, ◌>>=◌, ◌>>◌,
}
use pg_agmemory.Store.Keeps.{>>=-eq-ok}
use pg_agmemory.Checkpoints.Database.{
  in_branch, branch_row, checkpoint_row, distinct, parent_valid, check_parent, branch_guard,
  advance, adopt_checkpoint, insert_checkpoint,
}

not_taken :
    (id : ℕ) (q : Checkpoint → Bool) (l : List Checkpoint)
    → any (λ (c : Checkpoint). c.id == id || q c) l ≡ false
    → find (λ (c : Checkpoint). c.id == id) l ≡ none
not_taken id q [] h = refl
not_taken id q (c ∷ l) h = ground (arith, not_taken id q l)

-- What adopt_checkpoint has checked of the parent.
abbrev pub Checked : Store → Checkpoint → Branch → Option ℕ → Type 0
Checked s new b none = (ltb 0 b.sequence && distinct none b.head_id) ≡ false
Checked s new b (some id) =
    (parent : Checkpoint) × (checkpoint_row s id ≡ some parent)
    × ((ltb 0 b.sequence && distinct (some id) b.head_id) ≡ false)
    × (parent_valid new b parent ≡ true)

-- The store with a new checkpoint at the head of its branch.
abbrev pub with_checkpoint : Checkpoint → Store → Store
with_checkpoint new s = record s {
  branches = update (in_branch new.scope_id new.run_id new.branch_id) (advance new) s.branches;
  checkpoints = new ∷ s.checkpoints;
}

pub record Adopts (new : Checkpoint) (s s' : Store) : Type 0 where
  pub branch : Branch
  pub found : branch_row s new.scope_id new.run_id new.branch_id ≡ some branch
  pub next : new.sequence ≡ branch.sequence + 1
  pub checked : Checked s new branch new.parent_id
  pub fresh : checkpoint_row s new.id ≡ none
  pub same : s' ≡ with_checkpoint new s

check_parent_lem :
    (new : Checkpoint) (b : Branch) (o : Option ℕ) (s s' : Store)
    → (ltb 0 b.sequence && distinct o b.head_id) ≡ false
    → check_parent new b o s ≡ ok (tt, s')
    → (s' ≡ s) × Checked s new b o
unfolding check_parent pure ◌>>=◌ gets or_raise require
check_parent_lem new b none s s' g h = (ground arith, g)
check_parent_lem new b (some id) s s' g h = elim (Option-cases (checkpoint_row s id)) [
  | inl missing ↦ absurd (ground arith)
  | inr (parent, found) ↦ (ground arith, (parent, found, g, ground arith))
]

-- The last part of adopt_checkpoint.
abbrev set_head : Checkpoint → Branch → Exec (Unit {0})
set_head new b = do
  require (branch_guard b new) database_error
  modify (λ s. record s {
    branches = update (in_branch new.scope_id new.run_id new.branch_id) (advance new) s.branches;
  })

set_head_lem :
    (new : Checkpoint) (b : Branch) (s s' : Store)
    → set_head new b s ≡ ok (tt, s')
    → s' ≡ record s {
      branches = update (in_branch new.scope_id new.run_id new.branch_id) (advance new) s.branches;
    }
unfolding ◌>>=◌ require modify
set_head_lem new b s s' h = ground arith

record HeadSet (new : Checkpoint) (s s' : Store) : Type 0 where
  branch : Branch
  found : branch_row s new.scope_id new.run_id new.branch_id ≡ some branch
  next : new.sequence ≡ branch.sequence + 1
  checked : Checked s new branch new.parent_id
  same : s' ≡ record s {
    branches = update (in_branch new.scope_id new.run_id new.branch_id) (advance new) s.branches;
  }

adopt_checkpoint_lem :
    (new : Checkpoint) (s s' : Store) → adopt_checkpoint new s ≡ ok (tt, s') → HeadSet new s s'
adopt_checkpoint_lem new s s' h =
    elim (Option-cases (branch_row s new.scope_id new.run_id new.branch_id)) [
      | inl missing ↦ unfold adopt_checkpoint ◌>>=◌ gets or_raise in absurd (ground arith)
      | inr (b, found) ↦
          let test =
            not b.invalidated
            && (new.sequence == b.sequence + 1
                && not (ltb 0 b.sequence && distinct new.parent_id b.head_id)) in
          let passed : test ≡ true =
            unfold adopt_checkpoint ◌>>=◌ gets or_raise require in ground arith in
          let rest : (check_parent new b new.parent_id >> set_head new b) s ≡ ok (tt, s') =
            unfold adopt_checkpoint ◌>>=◌ gets or_raise require in ground arith in
          let (_, t, checking, setting) = >>=-eq-ok (check_parent new b new.parent_id) _ s rest in
          let (unchanged, checked) =
            check_parent_lem new b new.parent_id s t (ground arith) checking in
          record {
            branch = b;
            found = found;
            next = ground arith;
            checked = checked;
            same =
                subst
                  (λ t. s' ≡ record t {
                    branches =
                        update (in_branch new.scope_id new.run_id new.branch_id) (advance new)
                          t.branches;
                  })
                  unchanged (set_head_lem new b t s' setting);
          }
    ]

-- What insert_checkpoint checks before it writes the row.
abbrev clashes : Checkpoint → Checkpoint → Bool
clashes new c =
    c.scope_id == new.scope_id
    && (c.run_id == new.run_id && (c.branch_id == new.branch_id && c.sequence == new.sequence))

abbrev add_row : Checkpoint → Exec (Unit {0})
add_row new = do
  taken ← gets (λ s. any (λ (c : Checkpoint). c.id == new.id || clashes new c) s.checkpoints)
  require (not taken && leb new.reference_count 100) database_error
  modify (λ s. record s { checkpoints = new ∷ s.checkpoints })

add_row_lem :
    (new : Checkpoint) (s s' : Store)
    → add_row new s ≡ ok (tt, s')
    → (any (λ (c : Checkpoint). c.id == new.id || clashes new c) s.checkpoints ≡ false)
      × (s' ≡ record s { checkpoints = new ∷ s.checkpoints })
unfolding ◌>>=◌ gets require modify
add_row_lem new s s' h = (ground arith, ground arith)

pub insert_checkpoint-Adopts :
    (new : Checkpoint) (s s' : Store) → insert_checkpoint new s ≡ ok (tt, s') → Adopts new s s'
unfolding insert_checkpoint
insert_checkpoint-Adopts new s s' h =
    let (_, t, adopting, adding) = >>=-eq-ok (adopt_checkpoint new) (λ _. add_row new) s h in
    let set = adopt_checkpoint_lem new s t adopting in
    let (free, added) = add_row_lem new t s' adding in
    record {
      branch = set.branch;
      found = set.found;
      next = set.next;
      checked = set.checked;
      fresh =
          subst (λ (l : List Checkpoint). find (λ (c : Checkpoint). c.id == new.id) l ≡ none)
            (ap (λ (t : Store). t.checkpoints) set.same)
            (not_taken new.id (clashes new) t.checkpoints free);
      same = added ∙ ap (λ (t : Store). record t { checkpoints = new ∷ t.checkpoints }) set.same;
    }
