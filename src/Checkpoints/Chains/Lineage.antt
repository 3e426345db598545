-- ===== src/Checkpoints/Chains/Lineage.antt =====
-- The ancestors of a checkpoint, as one finds them by following the parents.
use pg_agmemory.Prelude.{
  ℕ, zero, suc, ◌≤◌, ◌≡◌, inl, inr, refl, sym, Option, none, some, List, [], ◌∷◌, arith,
}
use mathlib.Core.Path.{subst}
use pg_agmemory.Store.Rows.{Branch, Checkpoint}
use pg_agmemory.Store.Tables.{Store}
use pg_agmemory.Checkpoints.Database.{branch_row, checkpoint_row}
use pg_agmemory.Checkpoints.Chains.{HeadOf, StandsIn, ParentOf, IsLinked}

-- The checkpoint and its ancestors, `n` at most, the newest first.
unfoldable pub lineage : Store → ℕ → Option ℕ → List Checkpoint
lineage s zero o = []
lineage s (suc n) none = []
lineage s (suc n) (some id) = elim (checkpoint_row s id) [
  | none ↦ []
  | some c ↦ c ∷ lineage s n c.parent_id
]

-- Checkpoints of one branch with the numbers n, n - 1, ..., 1, whose watermarks do not rise and are
-- at most `bound`.
abbrev pub IsLine : ℕ → ℕ → ℕ → ℕ → ℕ → List Checkpoint → Type 0
IsLine scope_id run_id branch_id zero bound l = l ≡ []
IsLine scope_id run_id branch_id (suc n) bound [] = ⊥
IsLine scope_id run_id branch_id (suc n) bound (c ∷ l) =
    StandsIn scope_id run_id branch_id (suc n) c
    × (c.event_watermark ≤ bound)
    × IsLine scope_id run_id branch_id n c.event_watermark l

lineage_step :
    (s : Store) (n id : ℕ) (c : Checkpoint)
    → checkpoint_row s id ≡ some c
    → lineage s (suc n) (some id) ≡ c ∷ lineage s n c.parent_id
unfolding lineage
lineage_step s n id c row = ground arith

module _ (s : Store) (linked : IsLinked s) (scope_id run_id branch_id : ℕ) where
  -- The ancestors of a checkpoint, if those of a parent in the branch are a line.
  before :
      (n : ℕ) (c : Checkpoint) (o : Option ℕ)
      → ((id : ℕ) (q : Checkpoint)
          → checkpoint_row s id ≡ some q
          → StandsIn scope_id run_id branch_id n q
          → q.event_watermark ≤ c.event_watermark
          → IsLine scope_id run_id branch_id n c.event_watermark (lineage s n (some id)))
      → StandsIn scope_id run_id branch_id (suc n) c
      → ParentOf s c o
      → IsLine scope_id run_id branch_id n c.event_watermark (lineage s n o)
  unfolding lineage
  before zero c o rest stands p = refl
  before (suc n) c none rest stands p = absurd (omega arith)
  before (suc n) c (some id) rest stands (parent, row, in_scope, in_run, older, inl (same, next)) =
      rest id parent row (ground arith, ground arith, ground arith, omega arith) older
  before (suc n) c (some id) rest stands
        (parent, row, in_scope, in_run, older, inr (other, first)) =
      absurd (omega arith)

  lineage-IsLine :
      (n id bound : ℕ) (c : Checkpoint)
      → checkpoint_row s id ≡ some c
      → StandsIn scope_id run_id branch_id n c
      → c.event_watermark ≤ bound
      → IsLine scope_id run_id branch_id n bound (lineage s n (some id))
  lineage-IsLine zero id bound c row stands le = unfold lineage in refl
  lineage-IsLine (suc n) id bound c row stands le =
      subst (IsLine scope_id run_id branch_id (suc n) bound) (sym (lineage_step s n id c row)) (
        stands,
        le,
        before n c c.parent_id
            (λ parent q found here older.
              lineage-IsLine n parent c.event_watermark q found here older)
            stands (linked.parents id c row),
      )

  -- The bound for the head of the branch: its own watermark.
  head-IsLine :
      (n : ℕ) (o : Option ℕ)
      → HeadOf s scope_id run_id branch_id n o
      → (bound : ℕ) × IsLine scope_id run_id branch_id n bound (lineage s n o)
  unfolding lineage
  head-IsLine n none h = rw h (0, refl)
  head-IsLine n (some id) (c, row, stands) =
      (c.event_watermark, lineage-IsLine n id c.event_watermark c row stands (omega arith))

  pub branch-IsLine :
      (b : Branch)
      → branch_row s scope_id run_id branch_id ≡ some b
      → (bound : ℕ) × IsLine scope_id run_id branch_id b.sequence bound
          (lineage s b.sequence b.head_id)
  branch-IsLine b found =
      head-IsLine b.sequence b.head_id (linked.heads scope_id run_id branch_id b found)
