-- ===== src/Deletion/Rows.antt =====
-- What MemoryService.forget, src/pg_agmemory/service.py, reads and deletes, under the policies of the
-- tables. Foreign keys are not modelled but for the two that cascade (storage/007_japanese_fts.sql).
use pg_agmemory.Prelude.{
  ℕ, Bool, true, false, not, ◌&&◌, ◌||◌, Option, none, some, List, [], ◌∷◌, ◌++◌, any, select,
  update, ◌==◌, if◌then◌else◌,
}
use pg_agmemory.Store.Rows.{
  Run, Branch, Checkpoint, CheckpointReference, EntityEvidence, Relation, RelationRevision,
}
use pg_agmemory.Store.Tables.{
  Store, Object, Provenance, Job, JobInput, ToolEffect, EffectReference, EffectRevision, Episode,
  EpisodeLexical, Assertion, AssertionRevision, AssertionLexical, Entity, read, write, delete,
}
use pg_agmemory.Store.Visibility.{Session, permitted, shown, visible}
use pg_agmemory.Deletion.Closure.{Edge, member}

-- One SELECT of the common table expression `edges`: the rows that the policies show, with a parent.
-- A policy shows the child, and `allowed` is the rest of it.
unfoldable pub edges_from :
    {A : Type 0} → (ℕ → Bool) → (A → Bool) → (A → Option ℕ) → (A → ℕ) → List A → List Edge
edges_from seen allowed parent child [] = []
edges_from seen allowed parent child (a ∷ l) =
    let rest = edges_from seen allowed parent child l in
    if seen (child a) && allowed a
    then (elim (parent a) [ none ↦ rest | some p ↦ (p, child a) ∷ rest ])
    else rest

unfoldable pub concat : List (List Edge) → List Edge
concat [] = []
concat (l ∷ ls) = l ++ concat ls

module _ (env : Session) where
  -- The policy source_read of memory.relation.
  abbrev pub relation_visible : Store → ℕ → Bool
  relation_visible s id =
      any (λ (r : Relation). r.id == id && (visible env s r.id && visible env s r.source_id))
        s.relations

  -- The join of memory.tool_effect and memory.checkpoint by scope and run.
  unfoldable pub run_edges : Store → List ToolEffect → List Edge
  unfolding edges_from
  run_edges s [] = []
  run_edges s (e ∷ es) =
      edges_from (visible env s)
        (λ (c : Checkpoint). c.scope_id == e.scope_id && c.run_id == e.run_id) (λ c. some e.id)
        (λ (c : Checkpoint). c.id) s.checkpoints
      ++ run_edges s es

  -- The branches of the UNION.
  unfoldable pub edge_lists : Store → List (List Edge)
  unfolding edges_from run_edges
  edge_lists s =
      edges_from (visible env s) (λ (p : Provenance). visible env s p.parent_id)
        (λ p. some p.parent_id) (λ (p : Provenance). p.child_id) s.provenance
      ∷ edges_from (visible env s) (λ (i : JobInput). visible env s i.source_id)
          (λ i. some i.source_id) (λ (i : JobInput). i.job_id) s.job_inputs
      ∷ edges_from (visible env s) (λ (j : Job). true) (λ j. j.result_id) (λ (j : Job). j.id) s.jobs
      ∷ edges_from (visible env s) (λ (j : Job). true) (λ j. j.retry_of) (λ (j : Job). j.id) s.jobs
      ∷ edges_from (visible env s) (λ (e : EntityEvidence). visible env s e.source_id)
          (λ e. some e.source_id) (λ (e : EntityEvidence). e.entity_id) s.entity_evidence
      ∷ edges_from (visible env s) (λ (r : Relation). visible env s r.source_id)
          (λ r. some r.source_id) (λ (r : Relation). r.id) s.relations
      ∷ edges_from (visible env s)
          (λ (v : RelationRevision). visible env s v.target_id && relation_visible s v.assertion_id)
          (λ v. some v.target_id) (λ (v : RelationRevision). v.assertion_id) s.relation_revisions
      ∷ edges_from (visible env s) (λ (r : CheckpointReference). visible env s r.source_id)
          (λ r. some r.source_id) (λ (r : CheckpointReference). r.checkpoint_id)
          s.checkpoint_references
      ∷ edges_from (visible env s) (λ (c : Checkpoint). true) (λ c. c.parent_id)
          (λ (c : Checkpoint). c.id) s.checkpoints
      ∷ edges_from (visible env s) (λ (r : EffectReference). visible env s r.source_id)
          (λ r. some r.source_id) (λ (r : EffectReference). r.effect_id) s.effect_references
      ∷ run_edges s (select (λ (e : ToolEffect). visible env s e.id) s.effects)
      ∷ []

  unfoldable pub edges_of : Store → List Edge
  unfolding edge_lists concat
  edges_of s = concat (edge_lists s)

  -- memory.deletable(id)
  unfoldable pub deletable : Store → ℕ → Bool
  deletable s id =
      any (λ (o : Object). o.id == id && (shown env s o && permitted env s o.scope_id delete))
        s.objects

  module _ (targets : List ℕ) where
    -- A row of such an object is deleted: its policies for SELECT and for DELETE.
    unfoldable pub gone : Store → ℕ → Bool
    unfolding deletable
    gone s id = member targets id && (visible env s id && deletable s id)

    run_hit : Store → Run → Bool
    run_hit s r =
        permitted env s r.scope_id read
        && (permitted env s r.scope_id delete
            && (not r.effects_invalidated
                && any
                    (λ (e : ToolEffect).
                      member targets e.id
                      && (visible env s e.id && (e.scope_id == r.scope_id && e.run_id == r.run_id)))
                    s.effects))

    head_hit : Option ℕ → Bool
    head_hit none = false
    head_hit (some id) = member targets id

    branch_hit : Store → Branch → Bool
    unfolding head_hit
    branch_hit s b =
        permitted env s b.scope_id read
        && ((permitted env s b.scope_id write || permitted env s b.scope_id delete)
            && (head_hit b.head_id && not b.invalidated))

    -- The statements of `if data.mode == "purge"`. Each reads no table that one before it has changed,
    -- but for the rows that it deletes itself.
    unfoldable pub purge : Store → Store
    unfolding gone run_hit branch_hit
    purge s = record s {
      job_inputs =
          select (λ (i : JobInput). not (gone s i.job_id && visible env s i.source_id))
            s.job_inputs;
      jobs = select (λ (j : Job). not (gone s j.id)) s.jobs;
      runs = update (run_hit s) (λ (r : Run). record r { effects_invalidated = true }) s.runs;
      branches = update (branch_hit s) (λ (b : Branch). record b { invalidated = true }) s.branches;
      checkpoint_references =
          select
            (λ (r : CheckpointReference). not (gone s r.checkpoint_id && visible env s r.source_id))
            s.checkpoint_references;
      checkpoints = select (λ (c : Checkpoint). not (gone s c.id)) s.checkpoints;
      effect_references =
          select (λ (r : EffectReference). not (gone s r.effect_id && visible env s r.source_id))
            s.effect_references;
      effect_revisions =
          select (λ (r : EffectRevision). not (gone s r.effect_id)) s.effect_revisions;
      effects = select (λ (e : ToolEffect). not (gone s e.id)) s.effects;
      provenance =
          select (λ (p : Provenance). not (gone s p.child_id && visible env s p.parent_id))
            s.provenance;
      relation_revisions =
          select
            (λ (v : RelationRevision). not (
              gone s v.assertion_id
              && (visible env s v.target_id && relation_visible s v.assertion_id)))
            s.relation_revisions;
      relations =
          select (λ (r : Relation). not (gone s r.id && visible env s r.source_id)) s.relations;
      assertion_revisions =
          select (λ (r : AssertionRevision). not (gone s r.assertion_id)) s.assertion_revisions;
      assertion_lexicals =
          select (λ (l : AssertionLexical). not (gone s l.assertion_id)) s.assertion_lexicals;
      assertions = select (λ (a : Assertion). not (gone s a.id)) s.assertions;
      entity_evidence =
          select (λ (e : EntityEvidence). not (gone s e.entity_id && visible env s e.source_id))
            s.entity_evidence;
      entities = select (λ (e : Entity). not (gone s e.id)) s.entities;
      episodes = select (λ (e : Episode). not (gone s e.id)) s.episodes;
      episode_lexicals =
          select (λ (l : EpisodeLexical). not (gone s l.episode_id)) s.episode_lexicals;
    }
