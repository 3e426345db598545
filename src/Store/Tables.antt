-- ===== src/Store/Tables.antt =====
-- The tables of storage/001_initial.sql, 002_assertion_revisions.sql, 004_tool_effects.sql and
-- 006_durable_jobs.sql, and the record that holds these and those of Rows.
use pg_agmemory.Prelude.{ℕ, List, [], Option, Bool}
pub use pg_agmemory.Store.Rows.{
  Kind, Run, Branch, Checkpoint, CheckpointReference, Entity, EntityEvidence, Relation,
  RelationRevision, DeletionRequest,
}
use pg_agmemory.Text.{Text}

pub data Permission : Type 0 where
  read write delete admin : Permission

pub data EffectStatus : Type 0 where
  planned dispatched unknown confirmed failed : EffectStatus

pub data ReceiptSource : Type 0 where
  provider_receipt operator_review : ReceiptSource

pub data Origin : Type 0 where
  api checkpoint_restore : Origin

pub data JobState : Type 0 where
  pending running succeeded failed cancelled : JobState

pub data JobError : Type 0 where
  dependency_unavailable stale_context invalid_input attempt_limit : JobError

-- The operations that keep an idempotency record.
pub data Operation : Type 0 where
  observe remember revise_assertion plan_tool_effect transition_tool_effect enqueue_job retry_job
        cancel_job capture capture_batch create_entity create_relation revise_relation
        save_checkpoint restore_checkpoint forget_memory :
      Operation

-- memory_ops.audit_event.action
pub data Action : Type 0 where
  observed remembered assertion_revised job_enqueued job_retried job_cancelled job_claimed
        job_succeeded job_failed job_pending captured batch_captured entity_created relation_created
        relation_revised checkpoint_saved checkpoint_restored forgotten :
      Action
  effect_status : EffectStatus → Action

-- The JSON results that the idempotency records hold, by their keys.
pub data Reply : Type 0 where
  effect_reply : ℕ → ℕ → EffectStatus → Reply
  observe_reply : ℕ → Reply
  assertion_reply : ℕ → ℕ → Reply
  job_reply : ℕ → Reply
  capture_reply : ℕ → ℕ → Reply
  batch_reply : ℕ → List ℕ → Reply
  entity_reply : ℕ → Reply
  checkpoint_reply : ℕ → ℕ → ℕ → ℕ → Option ℕ → Text → Reply
  forget_reply : ℕ → ℕ → ℕ → List ℕ → Reply

pub record Tenant : Type 0 where
  pub access_epoch : ℕ
  pub deletion_epoch : ℕ
  pub dedup_secret : Text

pub record Member : Type 0 where
  pub scope_id : ℕ
  pub principal_id : ℕ
  pub permissions : List Permission
  pub expires_at : Option ℕ

pub record Object : Type 0 where
  pub id : ℕ
  pub scope_id : ℕ
  pub kind : Kind
  pub created_at : ℕ

pub record Idempotency : Type 0 where
  pub principal_id : ℕ
  pub operation : Operation
  pub key_digest : Text
  pub request_digest : Text
  pub result : Reply

pub record Audit : Type 0 where
  pub principal_id : ℕ
  pub action : Action
  pub target_id : ℕ

pub record Episode : Type 0 where
  pub id : ℕ
  pub scope_id : ℕ
  pub occurred_at : ℕ
  pub content : Text
  pub consent_reference : Text

pub record SourceEvent : Type 0 where
  pub scope_id : ℕ
  pub event_digest : Text
  pub request_digest : Text
  pub object_id : ℕ

pub record Assertion : Type 0 where
  pub id : ℕ
  pub scope_id : ℕ
  pub subject : Text
  pub predicate : Text
  pub current_revision : ℕ
  pub is_relation : Bool

pub record AssertionRevision : Type 0 where
  pub assertion_id : ℕ
  pub revision : ℕ
  pub value : Text
  pub valid_from : Option ℕ
  pub valid_to : Option ℕ
  pub recorded_at : ℕ
  pub known_until : Option ℕ
  pub correction_reason : Option Text

-- memory.episode_lexical and memory.assertion_lexical: `search_text` is the text that
-- to_tsvector('simple', ...) is given.
pub record EpisodeLexical : Type 0 where
  pub episode_id : ℕ
  pub search_text : Text

pub record AssertionLexical : Type 0 where
  pub assertion_id : ℕ
  pub revision : ℕ
  pub search_text : Text

pub record Evidence : Type 0 where
  pub memory_id : ℕ
  pub quote : Text

-- models.Remember; its JSON is the payload of a job. `explicit_intent` is always true.
pub record Remember : Type 0 where
  pub scope_id : ℕ
  pub subject : Text
  pub predicate : Text
  pub value : Text
  pub evidence : List Evidence
  pub valid_from : Option ℕ
  pub valid_to : Option ℕ

-- memory_ops.job; `kind` and `recipe_version` are constants.
pub record Job : Type 0 where
  pub id : ℕ
  pub scope_id : ℕ
  pub principal_id : ℕ
  pub intent_digest : Text
  pub retry_of : Option ℕ
  pub state : JobState
  pub payload : Option Remember
  pub reference_count : ℕ
  pub attempt : ℕ
  pub lease_token : Option ℕ
  pub lease_until : Option ℕ
  pub available_at : ℕ
  pub captured_access_epoch : ℕ
  pub captured_deletion_epoch : ℕ
  pub result_id : Option ℕ
  pub error_code : Option JobError
  pub created_at : ℕ

pub record JobInput : Type 0 where
  pub job_id : ℕ
  pub source_id : ℕ

pub record JobIdentity : Type 0 where
  pub scope_id : ℕ
  pub principal_id : ℕ
  pub input_digest : Text
  pub job_id : ℕ

pub record Provenance : Type 0 where
  pub child_id : ℕ
  pub child_revision : ℕ
  pub parent_id : ℕ
  pub quote : Text

pub record ToolEffect : Type 0 where
  pub id : ℕ
  pub scope_id : ℕ
  pub run_id : ℕ
  pub operation_id : ℕ
  pub tool_name : Text
  pub action_fingerprint : Text
  pub external_idempotency_key : Text
  pub current_revision : ℕ
  pub reference_count : ℕ

pub record EffectRevision : Type 0 where
  pub effect_id : ℕ
  pub revision : ℕ
  pub status : EffectStatus
  pub recorded_at : ℕ
  pub actor_id : ℕ
  pub reason : Text
  pub receipt_reference : Option Text
  pub receipt_source : Option ReceiptSource
  pub origin : Origin

pub record EffectReference : Type 0 where
  pub effect_id : ℕ
  pub source_id : ℕ
  pub source_revision : ℕ
  pub source_kind : Kind

pub record EffectIdentity : Type 0 where
  pub scope_id : ℕ
  pub run_id : ℕ
  pub operation_id : ℕ
  pub effect_id : ℕ
  pub request_digest : Text

pub record Store : Type 0 where
  pub tenant : Tenant
  pub members : List Member
  pub objects : List Object
  pub tombstones : List ℕ
  pub idempotency : List Idempotency
  pub audits : List Audit
  -- how many UUIDs have been drawn
  pub drawn : ℕ
  pub episodes : List Episode
  pub episode_lexicals : List EpisodeLexical
  pub source_events : List SourceEvent
  pub assertions : List Assertion
  pub assertion_revisions : List AssertionRevision
  pub assertion_lexicals : List AssertionLexical
  pub provenance : List Provenance
  pub runs : List Run
  pub effects : List ToolEffect
  pub effect_revisions : List EffectRevision
  pub effect_references : List EffectReference
  pub effect_identities : List EffectIdentity
  pub jobs : List Job
  pub job_inputs : List JobInput
  pub job_identities : List JobIdentity
  pub entities : List Entity
  pub entity_evidence : List EntityEvidence
  pub relations : List Relation
  pub relation_revisions : List RelationRevision
  pub branches : List Branch
  pub checkpoints : List Checkpoint
  pub checkpoint_references : List CheckpointReference
  pub deletion_requests : List DeletionRequest

-- A tenant with members and nothing else.
abbrev pub fresh_store : List Member → Store
fresh_store members = record {
  tenant = record { access_epoch = 1; deletion_epoch = 1; dedup_secret = [] };
  members = members;
  objects = [];
  tombstones = [];
  idempotency = [];
  audits = [];
  drawn = 0;
  episodes = [];
  episode_lexicals = [];
  source_events = [];
  assertions = [];
  assertion_revisions = [];
  assertion_lexicals = [];
  provenance = [];
  runs = [];
  effects = [];
  effect_revisions = [];
  effect_references = [];
  effect_identities = [];
  jobs = [];
  job_inputs = [];
  job_identities = [];
  entities = [];
  entity_evidence = [];
  relations = [];
  relation_revisions = [];
  branches = [];
  checkpoints = [];
  checkpoint_references = [];
  deletion_requests = [];
}
