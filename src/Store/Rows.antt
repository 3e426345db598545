-- ===== src/Store/Rows.antt =====
-- The tables of storage/003_checkpoints.sql and 005_relational_graph.sql, and the deletion requests
-- of 001_initial.sql.
use pg_agmemory.Prelude.{ℕ, List, Option, Bool}
use pg_agmemory.Text.{Text}

-- memory.object.kind
pub data Kind : Type 0 where
  episode assertion checkpoint tool_effect entity job : Kind

pub record Run : Type 0 where
  pub scope_id : ℕ
  pub run_id : ℕ
  pub harness_id : Text
  pub harness_version : Text
  pub state_schema_version : ℕ
  pub effects_invalidated : Bool

pub record Branch : Type 0 where
  pub scope_id : ℕ
  pub run_id : ℕ
  pub branch_id : ℕ
  pub head_id : Option ℕ
  pub sequence : ℕ
  pub invalidated : Bool

-- models.PendingEffect.status
pub data PendingStatus : Type 0 where
  planned dispatched unknown : PendingStatus

-- models.PendingEffect
pub record PendingEffect : Type 0 where
  pub operation_id : ℕ
  pub description : Text
  pub status : PendingStatus

-- models.CheckpointState; its JSON is the `state` of a checkpoint.
pub record CheckpointState : Type 0 where
  pub goal : Text
  pub constraints : List Text
  pub completed_actions : List Text
  pub decisions : List Text
  pub unresolved_questions : List Text
  pub next_actions : List Text
  pub pending_effects : List PendingEffect

-- `ordinal`, an identity column, is the place in the table, which grows at its front.
pub record Checkpoint : Type 0 where
  pub id : ℕ
  pub scope_id : ℕ
  pub run_id : ℕ
  pub branch_id : ℕ
  pub sequence : ℕ
  pub parent_id : Option ℕ
  pub state : CheckpointState
  pub event_watermark : ℕ
  pub reference_count : ℕ
  pub access_epoch : ℕ
  pub deletion_epoch : ℕ
  pub checksum : Text

pub record CheckpointReference : Type 0 where
  pub checkpoint_id : ℕ
  pub source_id : ℕ
  pub source_revision : ℕ
  pub source_kind : Kind

pub data EntityType : Type 0 where
  person organization project component incident task decision other : EntityType

pub record Entity : Type 0 where
  pub id : ℕ
  pub scope_id : ℕ
  pub entity_type : EntityType
  pub canonical_label : Text
  pub reference_count : ℕ

pub record EntityEvidence : Type 0 where
  pub entity_id : ℕ
  pub source_id : ℕ
  pub quote : Text

pub record Relation : Type 0 where
  pub id : ℕ
  pub scope_id : ℕ
  pub source_id : ℕ

pub record RelationRevision : Type 0 where
  pub assertion_id : ℕ
  pub revision : ℕ
  pub target_id : ℕ

pub record DeletionRequest : Type 0 where
  pub id : ℕ
  pub principal_id : ℕ
  pub object_count : ℕ
  pub deletion_epoch : ℕ
