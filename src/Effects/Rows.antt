-- ===== src/Effects/Rows.antt =====
-- The joins of src/pg_agmemory/effects.py.
use pg_agmemory.Prelude.{ℕ, Bool, Option, none, some, List, [], ◌∷◌, ◌++◌, leb}
use pg_agmemory.Store.Tables.{
  Store, EffectStatus, Reply, ToolEffect, EffectRevision, EffectReference,
}
use pg_agmemory.Service.{MemoryReference}
use pg_agmemory.Effects.Database.{effect_row, revision_row, run_row}
use pg_agmemory.Effects.Models.{EffectSummary}

-- The three-way join of `load`.
unfoldable pub joined_effect : Store → ℕ → Option (ToolEffect × EffectStatus × Bool)
joined_effect s id = elim (effect_row s id) [
  | none ↦ none
  | some e ↦ elim (revision_row s id e.current_revision) [
    | none ↦ none
    | some r ↦ elim (run_row s e.scope_id e.run_id) [
      | none ↦ none
      | some run ↦ some (e, r.status, run.effects_invalidated)
    ]
  ]
]

-- One row of the join of `list_run`, if the effect belongs to the run and has its revision.
unfoldable pub summary_of : Store → ToolEffect → List EffectSummary
summary_of s e = elim (revision_row s e.id e.current_revision) [
  | none ↦ []
  | some r ↦
      record {
        memory_id = e.id;
        operation_id = e.operation_id;
        revision = r.revision;
        status = r.status;
      }
      ∷ []
]

unfoldable pub summaries : Store → List ToolEffect → List EffectSummary
unfolding summary_of
summaries s [] = []
summaries s (e ∷ es) = summary_of s e ++ summaries s es

abbrev pub operation_before : EffectSummary → EffectSummary → Bool
operation_before a b = leb a.operation_id b.operation_id

abbrev pub revision_before : EffectRevision → EffectRevision → Bool
revision_before a b = leb a.revision b.revision

unfoldable pub to_reference : List EffectReference → List MemoryReference
to_reference [] = []
to_reference (r ∷ rs) =
    record { memory_id = r.source_id; revision = r.source_revision } ∷ to_reference rs

-- previous["memory_id"]
unfoldable pub reply_id : Reply → ℕ
reply_id (Reply.effect_reply memory_id _ _) = memory_id
reply_id (Reply.observe_reply memory_id) = memory_id
reply_id (Reply.assertion_reply memory_id _) = memory_id
reply_id (Reply.job_reply job_id) = job_id
reply_id (Reply.capture_reply memory_id _) = memory_id
reply_id (Reply.batch_reply memory_id _) = memory_id
reply_id (Reply.entity_reply memory_id) = memory_id
reply_id (Reply.checkpoint_reply checkpoint_id _ _ _ _ _) = checkpoint_id
reply_id (Reply.forget_reply deletion_id _ _ _) = deletion_id
