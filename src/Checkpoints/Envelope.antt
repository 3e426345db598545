-- ===== src/Checkpoints/Envelope.antt =====
-- What a checkpoint's checksum covers: the payload of src/pg_agmemory/checkpoints.py as sorted JSON.
use pg_agmemory.Prelude.{ℕ, Option, none, some, List, [], ◌∷◌, ◌++◌, map}
use pg_agmemory.Text.{Text, codes, json_string, decimal, uuid_text}
use pg_agmemory.Store.Rows.{PendingStatus, PendingEffect, CheckpointState}
use pg_agmemory.Store.Rows
use pg_agmemory.Service.{MemoryReference}

-- The dict `payload` of `load` and `insert`.
pub record Payload : Type 0 where
  pub checkpoint_id : ℕ
  pub scope_id : ℕ
  pub run_id : ℕ
  pub branch_id : ℕ
  pub sequence : ℕ
  pub parent_checkpoint : Option ℕ
  pub harness_id : Text
  pub harness_version : Text
  pub state_schema_version : ℕ
  pub event_watermark : ℕ
  pub state : CheckpointState
  pub memory_refs : List MemoryReference
  pub saved_access_epoch : ℕ
  pub saved_deletion_epoch : ℕ

-- ",".join
join_comma : List Text → Text
join_comma [] = []
join_comma (t ∷ []) = t
join_comma (t ∷ u ∷ us) = t ++ (44 ∷ join_comma (u ∷ us))

json_list : List Text → Text
unfolding join_comma
json_list items = codes "[" ++ (join_comma items ++ codes "]")

json_object : List (Text × Text) → Text
unfolding join_comma
json_object fields =
    codes "{"
    ++ (join_comma (map (λ (f : Text × Text). json_string f.0 ++ (58 ∷ f.1)) fields) ++ codes "}")

json_uuid : ℕ → Text
json_uuid id = json_string (uuid_text id)

json_optional : Option ℕ → Text
unfolding json_uuid
json_optional none = codes "null"
json_optional (some id) = json_uuid id

status_text : PendingStatus → Text
status_text Rows.PendingStatus.planned = codes "planned"
status_text Rows.PendingStatus.dispatched = codes "dispatched"
status_text Rows.PendingStatus.unknown = codes "unknown"

pending_json : PendingEffect → Text
unfolding json_object json_uuid status_text
pending_json e = json_object (
    (codes "description", json_string e.description)
    ∷ (codes "operation_id", json_uuid e.operation_id)
    ∷ (codes "status", json_string (status_text e.status))
    ∷ [])

state_json : CheckpointState → Text
unfolding json_object json_list pending_json
state_json s = json_object (
    (codes "completed_actions", json_list (map json_string s.completed_actions))
    ∷ (codes "constraints", json_list (map json_string s.constraints))
    ∷ (codes "decisions", json_list (map json_string s.decisions))
    ∷ (codes "goal", json_string s.goal)
    ∷ (codes "next_actions", json_list (map json_string s.next_actions))
    ∷ (codes "pending_effects", json_list (map pending_json s.pending_effects))
    ∷ (codes "unresolved_questions", json_list (map json_string s.unresolved_questions))
    ∷ [])

reference_json : MemoryReference → Text
unfolding json_object json_uuid
reference_json r =
    json_object
      ((codes "memory_id", json_uuid r.memory_id) ∷ (codes "revision", decimal r.revision) ∷ [])

-- json.dumps(payload, sort_keys=True, ensure_ascii=False, separators=(",", ":"))
unfoldable pub payload_json : Payload → Text
unfolding json_object json_list json_uuid json_optional state_json reference_json
payload_json p = json_object (
    (codes "branch_id", json_uuid p.branch_id)
    ∷ (codes "checkpoint_id", json_uuid p.checkpoint_id)
    ∷ (codes "event_watermark", decimal p.event_watermark)
    ∷ (codes "harness_id", json_string p.harness_id)
    ∷ (codes "harness_version", json_string p.harness_version)
    ∷ (codes "memory_refs", json_list (map reference_json p.memory_refs))
    ∷ (codes "parent_checkpoint", json_optional p.parent_checkpoint)
    ∷ (codes "run_id", json_uuid p.run_id)
    ∷ (codes "saved_access_epoch", decimal p.saved_access_epoch)
    ∷ (codes "saved_deletion_epoch", decimal p.saved_deletion_epoch)
    ∷ (codes "scope_id", json_uuid p.scope_id)
    ∷ (codes "sequence", decimal p.sequence)
    ∷ (codes "state", state_json p.state)
    ∷ (codes "state_schema_version", decimal p.state_schema_version)
    ∷ [])
