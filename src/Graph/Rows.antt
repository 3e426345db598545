-- ===== src/Graph/Rows.antt =====
-- The rows of src/pg_agmemory/graphs.py: what the queries show and what is inserted.
use pg_agmemory.Prelude.{
  ℕ, Bool, true, not, ◌&&◌, Option, none, some, List, [], ◌∷◌, any, find, ◌==◌, if◌then◌else◌,
}
use pg_agmemory.Text.{Text, text_eq}
use pg_agmemory.Store.Rows.{
  EntityType, person, organization, project, component, incident, task, decision, other,
}
use pg_agmemory.Store.Tables.{
  Store, Episode, Evidence, Entity, EntityEvidence, Relation, RelationRevision,
}
use pg_agmemory.Store.Exec.{Exec, database_error, gets, require, modify, ◌>>=◌, ◌>>◌}
use pg_agmemory.Store.Visibility.{Session, visible}
use pg_agmemory.Paging.{Cursor, newer}
use pg_agmemory.Graph.Expand.Models.{EntitySummary}

-- One row of the query of `query_entities`.
pub record EntityRow : Type 0 where
  pub summary : EntitySummary
  pub reference_count : ℕ
  pub evidence_count : ℕ

unfoldable pub type_code : EntityType → ℕ
type_code person = 0
type_code organization = 1
type_code project = 2
type_code component = 3
type_code incident = 4
type_code task = 5
type_code decision = 6
type_code other = 7

unfoldable pub type_selected : Option EntityType → EntityType → Bool
unfolding type_code
type_selected none t = true
type_selected (some u) t = type_code t == type_code u

unfoldable pub label_selected : Option Text → Text → Bool
label_selected none label = true
label_selected (some l) label = text_eq label l

unfoldable pub cursor_of : EntityRow → Cursor
cursor_of r = record { at = r.summary.recorded_at; id = r.summary.memory_id }

unfoldable pub row_newer : EntityRow → EntityRow → Bool
unfolding cursor_of
row_newer a b = newer (cursor_of a) (cursor_of b)

-- The rows of memory.entity_evidence that may be seen, with the time of their episodes.
unfoldable pub evidence_of : Session → Store → ℕ → List EntityEvidence → List (EntityEvidence × ℕ)
evidence_of env s id [] = []
evidence_of env s id (e ∷ es) =
    let rest = evidence_of env s id es in
    if e.entity_id == id && (visible env s id && visible env s e.source_id)
    then (elim (find (λ (p : Episode). p.id == e.source_id) s.episodes) [
      | none ↦ rest
      | some p ↦ (e, p.occurred_at) ∷ rest
    ])
    else rest

unfoldable pub evidence_rows : Session → Store → ℕ → List (EntityEvidence × ℕ)
unfolding evidence_of
evidence_rows env s id = evidence_of env s id s.entity_evidence

unfoldable pub insert_entity : Entity → Exec (Unit {0})
insert_entity e = do
  taken ← gets (λ s. any (λ (o : Entity). o.id == e.id) s.entities)
  require (not taken) database_error
  modify (λ s. record s { entities = e ∷ s.entities })

unfoldable pub insert_evidence : ℕ → Evidence → Exec (Unit {0})
insert_evidence entity_id e = do
  taken ← gets (λ s.
      any (λ (o : EntityEvidence). o.entity_id == entity_id && o.source_id == e.memory_id)
        s.entity_evidence)
  require (not taken) database_error
  modify (λ s. record s {
    entity_evidence =
        record { entity_id = entity_id; source_id = e.memory_id; quote = e.quote }
        ∷ s.entity_evidence;
  })

unfoldable pub insert_relation : Relation → Exec (Unit {0})
insert_relation r = do
  taken ← gets (λ s. any (λ (o : Relation). o.id == r.id) s.relations)
  require (not taken) database_error
  modify (λ s. record s { relations = r ∷ s.relations })

-- SqlGraph.insert_target
unfoldable pub insert_target : RelationRevision → Exec (Unit {0})
insert_target v = do
  taken ← gets (λ s.
      any (λ (o : RelationRevision). o.assertion_id == v.assertion_id && o.revision == v.revision)
        s.relation_revisions)
  require (not taken) database_error
  modify (λ s. record s { relation_revisions = v ∷ s.relation_revisions })
