-- ===== src/Checkpoints/Database.antt =====
-- The tables of checkpoints with their constraints and triggers (storage/003_checkpoints.sql).
use pg_agmemory.Prelude.{
  ℕ, ◌+◌, Bool, true, false, not, ◌&&◌, ◌||◌, Option, none, some, ◌∷◌, any, find, update, leb, ltb,
  ◌==◌, if◌then◌else◌,
}
use pg_agmemory.Store.Rows.{Run, Branch, Checkpoint, CheckpointReference}
use pg_agmemory.Store.Tables.{Store}
use pg_agmemory.Store.Exec.{
  Exec, database_error, gets, or_raise, require, modify, pure, ◌>>=◌, ◌>>◌,
}
use pg_agmemory.Effects.Database.{run_row}

abbrev pub in_branch : ℕ → ℕ → ℕ → Branch → Bool
in_branch scope_id run_id branch_id b =
    b.scope_id == scope_id && (b.run_id == run_id && b.branch_id == branch_id)

abbrev pub branch_row : Store → ℕ → ℕ → ℕ → Option Branch
branch_row s scope_id run_id branch_id = find (in_branch scope_id run_id branch_id) s.branches

abbrev pub checkpoint_row : Store → ℕ → Option Checkpoint
checkpoint_row s id = find (λ (c : Checkpoint). c.id == id) s.checkpoints

-- `a IS DISTINCT FROM b`
unfoldable pub distinct : Option ℕ → Option ℕ → Bool
distinct none none = false
distinct none (some b) = true
distinct (some a) none = true
distinct (some a) (some b) = not (a == b)

-- INSERT INTO memory.checkpoint_run ... ON CONFLICT DO NOTHING
unfoldable pub insert_run : Run → Exec (Unit {0})
insert_run run = do
  found ← gets (λ s. run_row s run.scope_id run.run_id)
  elim found [ none ↦ modify (λ s. record s { runs = run ∷ s.runs }) | some _ ↦ pure tt ]

-- INSERT INTO memory.checkpoint_branch ... ON CONFLICT DO NOTHING RETURNING branch_id: whether there
-- was no such branch.
unfoldable pub insert_branch : ℕ → ℕ → ℕ → Exec Bool
insert_branch scope_id run_id branch_id = do
  found ← gets (λ s. branch_row s scope_id run_id branch_id)
  elim found [
    | none ↦ (do
      modify (λ s. record s {
        branches =
            record {
              scope_id = scope_id;
              run_id = run_id;
              branch_id = branch_id;
              head_id = none;
              sequence = 0;
              invalidated = false;
            }
            ∷ s.branches;
      })
      pure true)
    | some _ ↦ pure false
  ]

-- The parent as memory.adopt_checkpoint wants it. It stands in the table, so its ordinal is smaller.
unfoldable pub parent_valid : Checkpoint → Branch → Checkpoint → Bool
parent_valid new branch parent =
    parent.scope_id == new.scope_id
    && (parent.run_id == new.run_id
        && (leb parent.event_watermark new.event_watermark
            && not (branch.sequence == 0 && parent.branch_id == new.branch_id)))

unfoldable pub check_parent : Checkpoint → Branch → Option ℕ → Exec (Unit {0})
unfolding parent_valid
check_parent new branch none = pure tt
check_parent new branch (some parent_id) = do
  found ← gets (λ s. checkpoint_row s parent_id)
  parent ← or_raise found database_error
  require (parent_valid new branch parent) database_error

-- memory.guard_checkpoint_branch, for a new head and sequence
unfoldable pub branch_guard : Branch → Checkpoint → Bool
unfolding distinct
branch_guard old new =
    not old.invalidated
    && (if distinct (some new.id) old.head_id
        then new.sequence == old.sequence + 1
        else new.sequence == old.sequence)

abbrev pub advance : Checkpoint → Branch → Branch
advance new b = record b { head_id = some new.id; sequence = new.sequence }

-- memory.adopt_checkpoint
unfoldable pub adopt_checkpoint : Checkpoint → Exec (Unit {0})
unfolding check_parent branch_guard distinct
adopt_checkpoint new = do
  found ← gets (λ s. branch_row s new.scope_id new.run_id new.branch_id)
  branch ← or_raise found database_error
  require
      (not branch.invalidated
        && (new.sequence == branch.sequence + 1
            && not (ltb 0 branch.sequence && distinct new.parent_id branch.head_id)))
      database_error
  check_parent new branch new.parent_id
  require (branch_guard branch new) database_error
  modify (λ s. record s {
    branches = update (in_branch new.scope_id new.run_id new.branch_id) (advance new) s.branches;
  })

-- INSERT INTO memory.checkpoint
unfoldable pub insert_checkpoint : Checkpoint → Exec (Unit {0})
unfolding adopt_checkpoint
insert_checkpoint new = do
  adopt_checkpoint new
  taken ← gets (λ s.
      any
        (λ (c : Checkpoint).
          c.id == new.id
          || (c.scope_id == new.scope_id
              && (c.run_id == new.run_id
                  && (c.branch_id == new.branch_id && c.sequence == new.sequence))))
        s.checkpoints)
  require (not taken && leb new.reference_count 100) database_error
  modify (λ s. record s { checkpoints = new ∷ s.checkpoints })

-- INSERT INTO memory.checkpoint_reference
unfoldable pub insert_checkpoint_reference : CheckpointReference → Exec (Unit {0})
insert_checkpoint_reference r = do
  taken ← gets (λ s.
      any
        (λ (o : CheckpointReference).
          o.checkpoint_id == r.checkpoint_id
          && (o.source_id == r.source_id && o.source_revision == r.source_revision))
        s.checkpoint_references)
  require (not taken) database_error
  modify (λ s. record s { checkpoint_references = r ∷ s.checkpoint_references })
