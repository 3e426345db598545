-- ===== src/Checkpoints/Chains/Linking.antt =====
-- New branches and new checkpoints keep the chains linked.
use mathlib.Core.Option
use pg_agmemory.Prelude.{
  ℕ, ◌+◌, ◌≡◌, inl, inr, refl, sym, Bool, true, false, ◌&&◌, Option, none, some, Option-cases,
  Bool-cases, List, [], ◌∷◌, find, update, ◌==◌, ==_self, ==→eq, if◌then◌else◌, arith,
}
use mathlib.Core.Path.{subst}
use pg_agmemory.Store.Rows.{Branch, Checkpoint}
use pg_agmemory.Store.Tables.{Store}
use pg_agmemory.Store.Exec.{gets, modify, pure, ◌>>=◌}
use pg_agmemory.Store.Keeps.{Keeps}
use pg_agmemory.Checkpoints.Database.{
  in_branch, branch_row, checkpoint_row, distinct, parent_valid, advance, insert_checkpoint,
  insert_branch,
}
use pg_agmemory.Checkpoints.Chains.{HeadOf, ParentOf, IsLinked}
use pg_agmemory.Checkpoints.Chains.Adopting.{
  Adopts, Checked, with_checkpoint, insert_checkpoint-Adopts,
}

find-update {ℓ} :
    {A : Type ℓ} (p q : A → Bool) (f : A → A) (same : (a : A) → p (f a) ≡ p a) (l : List A)
    → find p (update q f l) ≡ Option.map (λ a. if q a then f a else a) (find p l)
find-update p q f same [] = refl
find-update p q f same (x ∷ l) = ground (arith, same x, find-update p q f same l)

find-passes {ℓ} : {A : Type ℓ} (p : A → Bool) (l : List A) (a : A) → find p l ≡ some a → p a ≡ true
find-passes p [] a h = cc
find-passes p (x ∷ l) a h = ground (arith, find-passes p l a)

-- Every row stays where it was.
abbrev Keeping : Store → Store → Type 0
Keeping s s' =
    (id : ℕ) (c : Checkpoint) → checkpoint_row s id ≡ some c → checkpoint_row s' id ≡ some c

HeadOf-Keeping :
    (s s' : Store) (scope_id run_id branch_id n : ℕ) (o : Option ℕ)
    → Keeping s s'
    → HeadOf s scope_id run_id branch_id n o
    → HeadOf s' scope_id run_id branch_id n o
HeadOf-Keeping s s' scope_id run_id branch_id n none k h = h
HeadOf-Keeping s s' scope_id run_id branch_id n (some id) k (c, row, stands) =
    (c, k id c row, stands)

ParentOf-Keeping :
    (s s' : Store) (c : Checkpoint) (o : Option ℕ) → Keeping s s' → ParentOf s c o → ParentOf s' c o
ParentOf-Keeping s s' c none k h = h
ParentOf-Keeping s s' c (some id) k (parent, row, in_scope, in_run, older, follows) =
    (parent, k id parent row, in_scope, in_run, older, follows)

Keeping-with_checkpoint :
    (new : Checkpoint) (s : Store)
    → checkpoint_row s new.id ≡ none
    → Keeping s (with_checkpoint new s)
Keeping-with_checkpoint new s fresh id c row = elim (Bool-cases (new.id == id)) [
  | inl same ↦
      let gone : checkpoint_row s id ≡ none =
        subst (λ i. checkpoint_row s i ≡ none) (==→eq new.id id same) fresh in
      absurd (cc)
  | inr other ↦ rw other row
]

-- The parent that the trigger accepts is the one that the chain wants.
accepted :
    (s : Store) (new : Checkpoint) (b : Branch) (head o : Option ℕ)
    → b.head_id ≡ head
    → HeadOf s new.scope_id new.run_id new.branch_id b.sequence head
    → new.sequence ≡ b.sequence + 1
    → Checked s new b o
    → ParentOf s new o
unfolding distinct parent_valid
accepted s new b none none e h next checked = omega arith
accepted s new b (some id) none e h next checked = ground arith
accepted s new b none (some id) e h next (parent, found, g, valid) = (
  parent,
  found,
  ground arith,
  ground arith,
  ground arith,
  inr (λ same. ground arith, omega arith),
)
accepted s new b (some head) (some id) e (c, row, stands) next (parent, found, g, valid) =
    elim (Bool-cases (b.sequence == 0)) [
      | inl first ↦ (
        parent,
        found,
        ground arith,
        ground arith,
        ground arith,
        inr (λ same. ground arith, ground arith),
      )
      | inr later ↦
          let at_head : id ≡ head = ground arith in
          let here : c ≡ parent =
            let q = subst (λ i. checkpoint_row s i ≡ some parent) at_head found in cc in
          (
            parent,
            found,
            ground arith,
            ground arith,
            ground arith,
            inl (ground arith, ground arith),
          )
    ]

branch_row-with_checkpoint :
    (new : Checkpoint) (s : Store) (scope_id run_id branch_id : ℕ)
    → branch_row (with_checkpoint new s) scope_id run_id branch_id
      ≡ Option.map
          (λ b. if in_branch new.scope_id new.run_id new.branch_id b then advance new b else b)
          (branch_row s scope_id run_id branch_id)
branch_row-with_checkpoint new s scope_id run_id branch_id =
    find-update (in_branch scope_id run_id branch_id)
      (in_branch new.scope_id new.run_id new.branch_id) (advance new) (λ b. refl) s.branches

-- The heads after a checkpoint, by whether the branch is the new one's.
heads_after :
    (new : Checkpoint) (s : Store) (scope_id run_id branch_id : ℕ) (old b : Branch)
    → Keeping s (with_checkpoint new s)
    → in_branch scope_id run_id branch_id old ≡ true
    → HeadOf s scope_id run_id branch_id old.sequence old.head_id
    → b ≡ (if in_branch new.scope_id new.run_id new.branch_id old then advance new old else old)
    → HeadOf (with_checkpoint new s) scope_id run_id branch_id b.sequence b.head_id
heads_after new s scope_id run_id branch_id old b kept sought head e =
    elim (Bool-cases (in_branch new.scope_id new.run_id new.branch_id old)) [
      | inl own ↦
          rw (rw own at e)
            (new, rw (==_self new.id) refl, (ground arith, ground arith, ground arith, refl))
      | inr other ↦ rw (rw other at e) (
          HeadOf-Keeping s (with_checkpoint new s) scope_id run_id branch_id old.sequence
            old.head_id kept head)
    ]

with_checkpoint-IsLinked :
    (new : Checkpoint) (s s' : Store)
    → Adopts new s s'
    → IsLinked s
    → IsLinked (with_checkpoint new s)
with_checkpoint-IsLinked new s s' a c =
    let kept = Keeping-with_checkpoint new s a.fresh in
    record {
      heads = λ scope_id run_id branch_id b found.
          elim (Option-cases (branch_row s scope_id run_id branch_id)) [
            | inl missing ↦
                let gone = branch_row-with_checkpoint new s scope_id run_id branch_id in
                absurd (let none_here = rw missing at gone in cc)
            | inr (old, before) ↦
                let now = branch_row-with_checkpoint new s scope_id run_id branch_id in
                let moved = rw before at now in
                heads_after new s scope_id run_id branch_id old b kept
                  (find-passes (in_branch scope_id run_id branch_id) s.branches old before)
                  (c.heads scope_id run_id branch_id old before) (cc)
          ];
      parents = λ id x row. elim (Bool-cases (new.id == id)) [
        | inl same ↦
            let here : x ≡ new = let shown = rw same at row in cc in
            rw here (
              ParentOf-Keeping s (with_checkpoint new s) new new.parent_id kept (
                accepted s new a.branch a.branch.head_id new.parent_id refl
                  (c.heads new.scope_id new.run_id new.branch_id a.branch a.found) a.next
                  a.checked))
        | inr other ↦
            ParentOf-Keeping s (with_checkpoint new s) x x.parent_id kept
              (c.parents id x (rw other at row))
      ];
    }

pub insert_checkpoint-IsLinked : (new : Checkpoint) → Keeps IsLinked (insert_checkpoint new)
insert_checkpoint-IsLinked new = record {
  at = λ s x s' c h.
      let a = insert_checkpoint-Adopts new s s' h in
      subst IsLinked (sym a.same) (with_checkpoint-IsLinked new s s' a c);
}

-- A new branch has no head.
abbrev with_branch : ℕ → ℕ → ℕ → Store → Store
with_branch scope_id run_id branch_id s = record s {
  branches =
      record {
        scope_id = scope_id;
        run_id = run_id;
        branch_id = branch_id;
        head_id = none;
        sequence = 0;
        invalidated = false;
      }
      ∷ s.branches;
}

heads-with_branch :
    (scope_id run_id branch_id : ℕ) (s : Store) (x y z : ℕ) (b : Branch)
    → IsLinked s
    → branch_row (with_branch scope_id run_id branch_id s) x y z ≡ some b
    → HeadOf s x y z b.sequence b.head_id
heads-with_branch scope_id run_id branch_id s x y z b c found =
    elim (Bool-cases (scope_id == x && (run_id == y && branch_id == z))) [
      | inl own ↦
          let shown = rw own at found in
          let no_head : b.head_id ≡ none = ground arith in
          let at_zero : b.sequence ≡ 0 = ground arith in rw no_head at_zero
      | inr other ↦ c.heads x y z b (rw other at found)
    ]

pub insert_branch-IsLinked :
    (scope_id run_id branch_id : ℕ) → Keeps IsLinked (insert_branch scope_id run_id branch_id)
unfolding insert_branch ◌>>=◌ gets modify pure
insert_branch-IsLinked scope_id run_id branch_id = record {
  at = λ s x s' c h. elim (Option-cases (branch_row s scope_id run_id branch_id)) [
    | inl missing ↦
        let new : s' ≡ with_branch scope_id run_id branch_id s = ground arith in
        rw new (record {
          heads = λ x y z b found. heads-with_branch scope_id run_id branch_id s x y z b c found;
          parents = c.parents;
        })
    | inr (b, there) ↦ let same : s ≡ s' = ground arith in subst IsLinked same c
  ];
}
