-- ===== src/Graph/Expand/Models.antt =====
-- The request and the answer of expand, src/pg_agmemory/models.py.
use pg_agmemory.Prelude.{ℕ, Bool, Option, List}
use pg_agmemory.Text.{Text}
use pg_agmemory.Store.Rows.{EntityType}
use pg_agmemory.Service.{MemoryReference}

pub data Direction : Type 0 where
  outgoing incoming both : Direction

-- models.ExpandGraph, without its purpose
pub record ExpandGraph : Type 0 where
  pub scope_ids : List ℕ
  pub seeds : List ℕ
  pub relation_types : List Text
  pub direction : Direction
  pub max_hops : ℕ
  pub max_paths : ℕ
  pub as_of : Option ℕ
  pub known_at : Option ℕ

-- models.EntitySummary
pub record EntitySummary : Type 0 where
  pub memory_id : ℕ
  pub scope_id : ℕ
  pub entity_type : EntityType
  pub canonical_label : Text
  pub recorded_at : ℕ

-- models.GraphPath
pub record GraphPath : Type 0 where
  pub nodes : List ℕ
  pub assertions : List MemoryReference

-- models.GraphEdge
pub record GraphEdge : Type 0 where
  pub assertion : MemoryReference
  pub predicate : Text
  pub source_entity : ℕ
  pub target_entity : ℕ
  pub valid_from : Option ℕ
  pub valid_to : Option ℕ
  pub recorded_at : ℕ

-- A row that `neighbors` returns: an edge, and the entity that it leads to.
pub record Hop : Type 0 where
  pub edge : GraphEdge
  pub next_id : ℕ

-- models.GraphResult, without its constants
pub record GraphResult : Type 0 where
  pub as_of : ℕ
  pub known_at : ℕ
  pub nodes : List EntitySummary
  pub edges : List GraphEdge
  pub paths : List GraphPath
  pub truncated : Bool
  pub access_epoch : ℕ
  pub deletion_epoch : ℕ
  pub is_empty : Bool
