-- ===== src/Checkpoints/Ledger.antt =====
-- Any requests on checkpoints, one after another.
use pg_agmemory.Prelude.{ℕ, ◌≡◌, some, List, [], ◌∷◌}
use pg_agmemory.Text.{Text}
use pg_agmemory.Store.Rows.{Branch}
use pg_agmemory.Store.Tables.{Store}
use pg_agmemory.Store.Keeps.{committed, committed-Keeps}
use pg_agmemory.Store.Visibility.{Session}
use pg_agmemory.Checkpoints.{create, restore}
use pg_agmemory.Checkpoints.Models.{CreateCheckpoint, RestoreCheckpoint, CheckpointJson}
use pg_agmemory.Checkpoints.Database.{branch_row}
use pg_agmemory.Checkpoints.Chains.{IsLinked}
use pg_agmemory.Checkpoints.Chains.Lineage.{lineage, IsLine, branch-IsLine}
use pg_agmemory.Checkpoints.Operations.{Passes, create-Keeps, restore-Keeps}
use pg_agmemory.Checkpoints.Operations.Linked.{IsLinked-passes}

-- The requests that write checkpoints, with their idempotency keys.
pub data CheckpointCall : Type 0 where
  save_call : CreateCheckpoint → Text → CheckpointCall
  restore_call : RestoreCheckpoint → Text → CheckpointCall

module _ (json : CheckpointJson) where
  unfoldable pub serve_checkpoint : Session → CheckpointCall → Store → Store
  serve_checkpoint env (save_call request key) s = committed (create env json request key s) s
  serve_checkpoint env (restore_call request key) s = committed (restore env json request key s) s

  unfoldable pub serve_checkpoints : List (Session × CheckpointCall) → Store → Store
  unfolding serve_checkpoint
  serve_checkpoints [] s = s
  serve_checkpoints ((env, call) ∷ calls) s = serve_checkpoints calls (serve_checkpoint env call s)

  serve_checkpoint-Passes :
      {P : Store → Type 0} (o : Passes P) (env : Session) (call : CheckpointCall) (s : Store)
      → P s
      → P (serve_checkpoint env call s)
  unfolding serve_checkpoint
  serve_checkpoint-Passes o env (save_call request key) s p =
      committed-Keeps _ s (create-Keeps env o json request key) p
  serve_checkpoint-Passes o env (restore_call request key) s p =
      committed-Keeps _ s (restore-Keeps env o json request key) p

  serve_checkpoints-Passes :
      {P : Store → Type 0} (o : Passes P) (calls : List (Session × CheckpointCall)) (s : Store)
      → P s
      → P (serve_checkpoints calls s)
  unfolding serve_checkpoints
  serve_checkpoints-Passes o [] s p = p
  serve_checkpoints-Passes o ((env, call) ∷ calls) s p =
      serve_checkpoints-Passes o calls (serve_checkpoint env call s)
        (serve_checkpoint-Passes o env call s p)

  -- On a store in which the head of every branch is the checkpoint with the branch's number and every
  -- checkpoint is the next one after a parent in its branch, or the first one of its branch: after any
  -- requests that save or restore checkpoints, by any principals at any times, failing or not, one
  -- finds by following the parents from the head of a branch its checkpoints numbered from the
  -- branch's number down to 1, all in the branch, with watermarks that do not rise on the way back.
  -- (A purge by forget, which deletes rows, is not among these requests.)
  pub branches_are_chains :
      (calls : List (Session × CheckpointCall)) (s : Store)
      → IsLinked s
      → (scope_id run_id branch_id : ℕ) (b : Branch)
      → branch_row (serve_checkpoints calls s) scope_id run_id branch_id ≡ some b
      → (bound : ℕ) × IsLine scope_id run_id branch_id b.sequence bound
          (lineage (serve_checkpoints calls s) b.sequence b.head_id)
  branches_are_chains calls s linked scope_id run_id branch_id b found =
      branch-IsLine (serve_checkpoints calls s)
        (serve_checkpoints-Passes IsLinked-passes calls s linked) scope_id run_id branch_id b found
