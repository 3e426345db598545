-- ===== src/Graph.antt =====
-- SqlGraph of src/pg_agmemory/graphs.py: entities with their evidence, and relations between them,
-- which are assertions with a source and, for each revision, a target.
pub mod Rows
pub mod Models
pub mod Expand
pub mod Targets
pub mod Ledger
mod Tests
use pg_agmemory.Prelude.{
  ℕ, suc, ◌+◌, Bool, true, false, not, ◌&&◌, Option, none, some, List, [], ◌∷◌, map, any, find,
  select, take, length, ◌==◌, if◌then◌else◌,
}
use pg_agmemory.Text.{Text, text_eq}
use pg_agmemory.Store.Rows.{
  EntityType, person, organization, project, component, incident, task, decision, other,
}
use pg_agmemory.Store.Tables.{
  Store, Permission, read, write, Kind, Operation, entity_created, relation_created,
  relation_revised, Reply, entity_reply, assertion_reply, Object, Episode, Evidence, Entity,
  EntityEvidence, Relation, RelationRevision,
}
use pg_agmemory.Store.Exec.{
  Exec, not_found, entity_invalidated, invalid_relation_reference, revision_conflict,
  revision_limit_exceeded, memory_error, database_error, pure, gets, or_raise, require, modify,
  ◌>>=◌, ◌>>◌, for_each,
}
use pg_agmemory.Store.Visibility.{Session, visible, object_row}
use pg_agmemory.Service
use pg_agmemory.Service.{
  kind_eq, order_by, scope, object, replay, save_result, audit, new_object, validate_evidence,
  request_json, reply_objects,
}
use pg_agmemory.Service.Memory
use pg_agmemory.Service.Memory.{assertion_row, insert_assertion, insert_revision}
use pg_agmemory.Paging.{Cursor, continues, newer, page_of}
use Expand.Models.{EntitySummary}
use Expand.Neighbors.{id_in}
use Models.{CreateEntity, CreateRelation, ReviseRelation, QueryEntities, GraphJson, EntityDetail}
use Rows.{
  EntityRow, type_code, type_selected, label_selected, cursor_of, row_newer, evidence_of,
  evidence_rows, insert_entity, insert_evidence, insert_relation, insert_target,
}

module _ (env : Session) where
  -- SqlGraph.entity
  unfoldable pub entity : ℕ → Exec EntityDetail
  unfolding evidence_rows order_by
  entity entity_id = do
    obj ← object env entity_id read
    require (kind_eq obj.kind Kind.entity) (memory_error not_found 404)
    found ← gets (λ s. find (λ (e : Entity). e.id == entity_id && visible env s e.id) s.entities)
    row ← or_raise found (memory_error entity_invalidated 409)
    evidence ← gets (λ s. evidence_rows env s entity_id)
    require (length evidence == row.reference_count) (memory_error entity_invalidated 409)
    pure (record { row = row; recorded_at = obj.created_at; evidence = evidence })

  -- SqlGraph.endpoint
  unfoldable pub endpoint : ℕ → ℕ → Exec EntityDetail
  unfolding entity
  endpoint entity_id scope_id = do
    found ← entity entity_id
    require (found.row.scope_id == scope_id) (memory_error invalid_relation_reference 422)
    pure found

  entity_row : Store → QueryEntities → Entity → Option EntityRow
  unfolding type_selected label_selected evidence_rows
  entity_row s query e =
      if visible env s e.id
        && (id_in query.scope_ids e.scope_id
            && (type_selected query.entity_type e.entity_type
                && label_selected query.canonical_label e.canonical_label))
      then (elim (object_row env s e.id) [
        | none ↦ none
        | some o ↦ some (record {
          summary = record {
            memory_id = e.id;
            scope_id = e.scope_id;
            entity_type = e.entity_type;
            canonical_label = e.canonical_label;
            recorded_at = o.created_at;
          };
          reference_count = e.reference_count;
          evidence_count = length (evidence_rows env s e.id);
        })
      ])
      else none

  entity_rows : Store → QueryEntities → List Entity → List EntityRow
  unfolding entity_row
  entity_rows s query [] = []
  entity_rows s query (e ∷ es) =
      let rest = entity_rows s query es in
      elim (entity_row s query e) [ none ↦ rest | some r ↦ r ∷ rest ]

  check_rows : List EntityRow → Exec (List EntitySummary)
  check_rows [] = pure []
  check_rows (r ∷ rs) = do
    require (r.evidence_count == r.reference_count) (memory_error entity_invalidated 409)
    rest ← check_rows rs
    pure (r.summary ∷ rest)

  -- SqlGraph.query_entities; the consistency epochs are those of the tenant.
  unfoldable pub query_entities : QueryEntities → Exec (List EntitySummary × Option Cursor)
  unfolding entity_rows check_rows cursor_of row_newer order_by page_of
  query_entities query = do
    rows ← gets (λ s.
        order_by row_newer
          (select (λ r. continues query.before (cursor_of r)) (entity_rows s query s.entities)))
    entities ← check_rows (take query.max_items rows)
    pure (entities, (page_of query.max_items (map cursor_of rows)).next_cursor)

  create_entity_replayed : CreateEntity → Text × Text × Option Reply → Exec Reply
  unfolding entity insert_entity insert_evidence reply_objects
  create_entity_replayed request (key_hash, request_hash, some previous) = do
    for_each (reply_objects env previous) (λ id. entity id >> pure tt)
    pure previous
  create_entity_replayed request (key_hash, request_hash, none) = do
    validate_evidence env request.scope_id request.evidence
    entity_id ← new_object env request.scope_id Kind.entity
    insert_entity (record {
      id = entity_id;
      scope_id = request.scope_id;
      entity_type = request.entity_type;
      canonical_label = request.canonical_label;
      reference_count = length request.evidence;
    })
    for_each request.evidence (insert_evidence entity_id)
    audit env entity_created entity_id
    save_result env Operation.create_entity key_hash request_hash (entity_reply entity_id)
    pure (entity_reply entity_id)

  create_relation_replayed : CreateRelation → Text × Text × Option Reply → Exec Reply
  unfolding endpoint insert_relation insert_target
  create_relation_replayed request (key_hash, request_hash, some previous) = pure previous
  create_relation_replayed request (key_hash, request_hash, none) = do
    source ← endpoint request.source_entity request.scope_id
    target ← endpoint request.target_entity request.scope_id
    validate_evidence env request.scope_id request.evidence
    assertion_id ← new_object env request.scope_id Kind.assertion
    insert_assertion (record {
      id = assertion_id;
      scope_id = request.scope_id;
      subject = source.row.canonical_label;
      predicate = request.predicate;
      current_revision = 1;
      is_relation = true;
    })
    insert_relation (record {
      id = assertion_id;
      scope_id = request.scope_id;
      source_id = request.source_entity;
    })
    insert_revision env assertion_id 1 (record {
      value = target.row.canonical_label;
      evidence = request.evidence;
      valid_from = request.valid_from;
      valid_to = request.valid_to;
      reason = none;
    })
    insert_target
        (record { assertion_id = assertion_id; revision = 1; target_id = request.target_entity })
    audit env relation_created assertion_id
    save_result env Operation.create_relation key_hash request_hash (assertion_reply assertion_id 1)
    pure (assertion_reply assertion_id 1)

  revise_relation_replayed :
      ℕ → Object → ReviseRelation → ℕ → Text × Text × Option Reply → Exec Reply
  unfolding endpoint insert_target
  revise_relation_replayed assertion_id obj request current
        (key_hash, request_hash, some previous) =
      pure previous
  revise_relation_replayed assertion_id obj request current (key_hash, request_hash, none) = do
    require (request.expected_revision == current) (memory_error revision_conflict 409)
    require (not (request.expected_revision == 1000)) (memory_error revision_limit_exceeded 422)
    target ← endpoint request.target_entity obj.scope_id
    validate_evidence env obj.scope_id request.evidence
    insert_revision env assertion_id (request.expected_revision + 1) (record {
      value = target.row.canonical_label;
      evidence = request.evidence;
      valid_from = request.valid_from;
      valid_to = request.valid_to;
      reason = some request.reason;
    })
    insert_target (record {
      assertion_id = assertion_id;
      revision = request.expected_revision + 1;
      target_id = request.target_entity;
    })
    audit env relation_revised assertion_id
    save_result env Operation.revise_relation key_hash request_hash
        (assertion_reply assertion_id (request.expected_revision + 1))
    pure (assertion_reply assertion_id (request.expected_revision + 1))

  -- The revision of a relation that may be seen.
  relation_revision : ℕ → Store → Option ℕ
  relation_revision id s =
      if any (λ (r : Relation). r.id == id && (visible env s r.id && visible env s r.source_id))
        s.relations
      then (elim (assertion_row s id) [
        | none ↦ none
        | some a ↦ if a.is_relation && visible env s id then some a.current_revision else none
      ])
      else none

  module _ (json : GraphJson) where
    -- SqlGraph.create_entity
    unfoldable pub create_entity : CreateEntity → Text → Exec Reply
    unfolding create_entity_replayed
    create_entity request key = do
      scope env request.scope_id write
      replayed ← replay env Operation.create_entity key (json.entity_json request)
      create_entity_replayed request replayed

    -- SqlGraph.create_relation
    unfoldable pub create_relation : CreateRelation → Text → Exec Reply
    unfolding create_relation_replayed
    create_relation request key = do
      scope env request.scope_id write
      replayed ← replay env Operation.create_relation key (json.relation_json request)
      create_relation_replayed request replayed

    -- SqlGraph.revise_relation
    unfoldable pub revise_relation : ℕ → ReviseRelation → Text → Exec Reply
    unfolding relation_revision revise_relation_replayed
    revise_relation assertion_id request key = do
      obj ← object env assertion_id write
      found ← gets (relation_revision assertion_id)
      current ← or_raise found (memory_error not_found 404)
      replayed ←
          replay env Operation.revise_relation key
            (request_json assertion_id (json.revise_json request))
      revise_relation_replayed assertion_id obj request current replayed

-- Opening this name opens every operation above: for tests.
unfoldable pub executing : Unit {0}
unfolding Memory.executing entity endpoint query_entities create_entity create_relation
    revise_relation
executing = tt
