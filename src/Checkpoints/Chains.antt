-- ===== src/Checkpoints/Chains.antt =====
-- The checkpoints of a branch form a chain (src/pg_agmemory/checkpoints.py and the trigger
-- memory.adopt_checkpoint of storage/003_checkpoints.sql).
pub mod Adopting
pub mod Linking
pub mod Lineage
use mathlib.Core.Option
use pg_agmemory.Prelude.{
  ℕ, zero, suc, ◌+◌, ◌≤◌, ◌≡◌, ◌≢◌, ◌⊎◌, inl, inr, refl, sym, ap, ◌∙◌, Bool, true, false, not, ◌&&◌,
  ◌||◌, Option, none, some, Option-cases, Bool-cases, List, [], ◌∷◌, any, find, update, ltb, leb,
  ◌==◌, ==_self, ==_ne, ==→eq, ==→ne, if◌then◌else◌, arith,
}
use mathlib.Core.Path.{subst}
use pg_agmemory.Store.Rows.{Branch, Checkpoint}
use pg_agmemory.Store.Tables.{Store}
use pg_agmemory.Store.Exec.{
  ok, err, database_error, gets, or_raise, require, modify, pure, Exec, ◌>>=◌, ◌>>◌,
}
use pg_agmemory.Store.Keeps.{Leads, Keeps, >>=-eq-ok}
use pg_agmemory.Checkpoints.Database.{
  in_branch, branch_row, checkpoint_row, distinct, parent_valid, check_parent, branch_guard,
  advance, adopt_checkpoint, insert_checkpoint, insert_branch,
}

-- A checkpoint stands in the branch, with that number.
abbrev pub StandsIn : ℕ → ℕ → ℕ → ℕ → Checkpoint → Type 0
StandsIn scope_id run_id branch_id n c =
    (c.scope_id ≡ scope_id) × (c.run_id ≡ run_id) × (c.branch_id ≡ branch_id) × (c.sequence ≡ n)

abbrev pub HeadOf : Store → ℕ → ℕ → ℕ → ℕ → Option ℕ → Type 0
HeadOf s scope_id run_id branch_id n none = n ≡ 0
HeadOf s scope_id run_id branch_id n (some id) =
    (c : Checkpoint) × (checkpoint_row s id ≡ some c) × StandsIn scope_id run_id branch_id n c

-- The next one of its branch, or the first one of a new branch.
abbrev pub Follows : Checkpoint → Checkpoint → Type 0
Follows c parent =
    ((parent.branch_id ≡ c.branch_id) × (c.sequence ≡ suc parent.sequence))
    ⊎ ((parent.branch_id ≢ c.branch_id) × (c.sequence ≡ 1))

abbrev pub ParentOf : Store → Checkpoint → Option ℕ → Type 0
ParentOf s c none = c.sequence ≡ 1
ParentOf s c (some id) =
    (parent : Checkpoint) × (checkpoint_row s id ≡ some parent)
    × (parent.scope_id ≡ c.scope_id)
    × (parent.run_id ≡ c.run_id)
    × (parent.event_watermark ≤ c.event_watermark)
    × Follows c parent

-- The head of a branch is the checkpoint with the branch's number, and each checkpoint has its
-- parent in the same run.
pub record IsLinked (s : Store) : Type 0 where
  pub heads :
      (scope_id run_id branch_id : ℕ) (b : Branch)
      → branch_row s scope_id run_id branch_id ≡ some b
      → HeadOf s scope_id run_id branch_id b.sequence b.head_id
  pub parents : (id : ℕ) (c : Checkpoint) → checkpoint_row s id ≡ some c → ParentOf s c c.parent_id
