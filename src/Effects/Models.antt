-- ===== src/Effects/Models.antt =====
-- The requests and answers of src/pg_agmemory/effects.py.
use pg_agmemory.Prelude.{ℕ, Bool, Option, List, ◌++◌}
use pg_agmemory.Text.{Text, codes, uuid_text, json_string_ascii}
use pg_agmemory.Store.Tables.{EffectStatus, ReceiptSource, ToolEffect, EffectRevision}
use pg_agmemory.Service.{MemoryReference}

-- models.PlanToolEffect
pub record PlanToolEffect : Type 0 where
  pub scope_id : ℕ
  pub run_id : ℕ
  pub operation_id : ℕ
  pub tool_name : Text
  pub action_hash : Text
  pub memory_refs : List MemoryReference

-- models.TransitionToolEffect
pub record TransitionToolEffect : Type 0 where
  pub expected_revision : ℕ
  pub status : EffectStatus
  pub reason : Text
  pub receipt_reference : Option Text
  pub receipt_source : Option ReceiptSource

-- pydantic's JSON of the requests: `model_dump_json` of a plan, and the sorted JSON of
-- `model_dump(mode="json")` of a transition.
pub record EffectJson : Type 0 where
  pub plan_json : PlanToolEffect → Text
  pub transition_json : TransitionToolEffect → Text

-- The row that `load` returns: the effect joined with its current revision and its run.
pub record LoadedEffect : Type 0 where
  pub effect : ToolEffect
  pub status : EffectStatus
  pub run_invalidated : Bool
  pub memory_refs : List MemoryReference

-- What `get` returns of an effect.
pub record EffectDetail : Type 0 where
  pub loaded : LoadedEffect
  pub history : List EffectRevision

-- One row of `list_run`.
pub record EffectSummary : Type 0 where
  pub memory_id : ℕ
  pub operation_id : ℕ
  pub revision : ℕ
  pub status : EffectStatus

-- json.dumps([scope, run, operation, fingerprint])
unfoldable pub dispatch_json : PlanToolEffect → Text → Text
dispatch_json request fingerprint =
    codes "["
    ++ (json_string_ascii (uuid_text request.scope_id)
        ++ (codes ", "
            ++ (json_string_ascii (uuid_text request.run_id)
                ++ (codes ", "
                    ++ (json_string_ascii (uuid_text request.operation_id)
                        ++ (codes ", " ++ (json_string_ascii fingerprint ++ codes "]")))))))
