-- ===== src/Graph/Models.antt =====
-- The requests and answers of src/pg_agmemory/graphs.py, of src/pg_agmemory/models.py.
use pg_agmemory.Prelude.{ℕ, Option, List}
use pg_agmemory.Text.{Text}
use pg_agmemory.Store.Rows.{EntityType}
use pg_agmemory.Store.Tables.{Evidence, Entity, EntityEvidence}
use pg_agmemory.Paging.{Cursor}

-- models.CreateEntity
pub record CreateEntity : Type 0 where
  pub scope_id : ℕ
  pub entity_type : EntityType
  pub canonical_label : Text
  pub evidence : List Evidence

-- models.CreateRelation
pub record CreateRelation : Type 0 where
  pub scope_id : ℕ
  pub source_entity : ℕ
  pub target_entity : ℕ
  pub predicate : Text
  pub evidence : List Evidence
  pub valid_from : Option ℕ
  pub valid_to : Option ℕ

-- models.ReviseRelation
pub record ReviseRelation : Type 0 where
  pub expected_revision : ℕ
  pub target_entity : ℕ
  pub evidence : List Evidence
  pub valid_from : Option ℕ
  pub valid_to : Option ℕ
  pub reason : Text

-- models.QueryEntities
pub record QueryEntities : Type 0 where
  pub scope_ids : List ℕ
  pub entity_type : Option EntityType
  pub canonical_label : Option Text
  pub max_items : ℕ
  pub before : Option Cursor

-- pydantic's JSON of the requests.
pub record GraphJson : Type 0 where
  pub entity_json : CreateEntity → Text
  pub relation_json : CreateRelation → Text
  pub revise_json : ReviseRelation → Text

-- What `entity` returns.
pub record EntityDetail : Type 0 where
  pub row : Entity
  pub recorded_at : ℕ
  pub evidence : List (EntityEvidence × ℕ)
