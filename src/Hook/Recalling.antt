-- ===== src/Hook/Recalling.antt =====
-- recall, parse_input and main of src/pg_agmemory/recall_hook.py, and RecallResult of
-- src/pg_agmemory/models.py. The API, json.loads with pydantic's validators, and the deadline are
-- parameters.
pub mod Main
use pg_agmemory.Prelude.{
  ℕ, suc, ◌+◌, Bool, true, false, not, ◌&&◌, Option, none, some, List, [], ◌∷◌, any, length, take,
  leb, ltb, ◌==◌, if◌then◌else◌,
}
use pg_agmemory.Text.{Text, codes}
use pg_agmemory.Context.{ContextPack, MemoryItem, serialized_size}
use pg_agmemory.Client.{AdapterError, Answer, answered, failed, failure}
use pg_agmemory.Hook.{
  max_input_bytes, HookEvent, HookInput, SearchProfile, simple_v1, ja_janome, HookSettings,
  RetrievalMode, Recall, is_none, is_lexical, within, request,
}

-- RecallResult with the fields that the hook reads; of an item, whether it has retrieval evidence.
pub record RecallResult : Type 0 where
  pub items : List (MemoryItem × Bool)
  pub context_pack : ContextPack
  pub vector_incomplete : Bool
  pub search_profile : SearchProfile
  pub retrieval_mode : RetrievalMode
  pub embedding_model : Option Text

-- A surrogate has no UTF-8.
is_surrogate : ℕ → Bool
unfolding within
is_surrogate c = within 0xd800 0xdfff c

unfoldable pub encodable : Text → Bool
unfolding is_surrogate
encodable t = not (any is_surrogate t)

abbrev pub profile_eq : SearchProfile → SearchProfile → Bool
profile_eq simple_v1 simple_v1 = true
profile_eq ja_janome ja_janome = true
profile_eq _ _ = false

-- The checks of `recall` on what the API answered.
unfoldable pub result_fits : HookSettings → RecallResult → Bool
unfolding is_none
result_fits s r =
    (serialized_size r.context_pack == r.context_pack.byte_count)
    && (leb (serialized_size r.context_pack) s.token_budget
        && (leb (length r.items) s.max_items
            && (profile_eq r.search_profile s.search_profile
                && (is_lexical r.retrieval_mode
                    && (is_none r.embedding_model
                        && (not r.vector_incomplete && not (any (λ i. i.1) r.items)))))))

checked : HookSettings → RecallResult → Answer RecallResult
unfolding encodable result_fits
checked s r =
    if encodable r.context_pack.text && result_fits s r
    then answered r
    else failed (failure (codes "invalid_native_response") false false)

-- What the two calls of the API come to: the deadline may pass in either.
pub data Timed (A : Type 0) : Type 0 where
  too_late : Timed A
  in_time : Answer A → Timed A

abbrev hook_deadline_exceeded : AdapterError
hook_deadline_exceeded = failure (codes "hook_deadline_exceeded") true false

after_request : HookSettings → Timed RecallResult → Answer RecallResult
unfolding checked
after_request s too_late = failed hook_deadline_exceeded
after_request s (in_time (failed e)) = failed e
after_request s (in_time (answered r)) = checked s r

-- parse_input; `model_validate` is json.loads of the decoded bytes with HookInput's validator.
unfoldable pub parse_input : (List ℕ → Option HookInput) → List ℕ → Answer HookInput
unfolding encodable
parse_input model_validate raw =
    if ltb max_input_bytes (length raw)
    then failed (failure (codes "hook_input_too_large") false false)
    else elim (model_validate raw) [
      | none ↦ failed (failure (codes "invalid_hook_input") false false)
      | some data_ ↦
          if encodable data_.query
          then answered data_
          else failed (failure (codes "invalid_hook_input") false false)
    ]

module _ {V F : Type 0} (validate : Timed (Unit {0}))
    (native_recall : Recall V F → Timed RecallResult) where
  after_validate : HookSettings → HookInput → Timed (Unit {0}) → Answer RecallResult
  unfolding after_request request
  after_validate s data_ too_late = failed hook_deadline_exceeded
  after_validate s data_ (in_time (failed e)) = failed e
  after_validate s data_ (in_time (answered u)) = after_request s (native_recall (request s data_))

  unfoldable pub recall : HookSettings → HookInput → Answer RecallResult
  unfolding after_validate
  recall s data_ = after_validate s data_ validate

-- HookOutput, with its status.
pub data HookOutput : Type 0 where
  status_ok : HookEvent → RecallResult → HookOutput
  status_error : Option HookEvent → AdapterError → HookOutput

-- `printed` is whether the output can be written.
exit_with : Bool → HookOutput → ℕ → Option HookOutput × ℕ
exit_with true output exit_code = (some output, exit_code)
exit_with false output exit_code = (none, 1)

conclude : HookEvent → Answer RecallResult → HookOutput × ℕ
conclude event (answered r) = (status_ok event r, 0)
conclude event (failed e) = (status_error (some event) e, 1)

module _ {V F : Type 0} (validate : Timed (Unit {0}))
    (native_recall : Recall V F → Timed RecallResult)
    (model_validate : List ℕ → Option HookInput) where
  with_input : HookSettings → Answer HookInput → HookOutput × ℕ
  unfolding recall conclude
  with_input s (failed e) = (status_error none e, 2)
  with_input s (answered data_) = conclude data_.event (recall validate native_recall s data_)

  -- sys.stdin.buffer.read(MAX_INPUT_BYTES + 1), which may be unavailable
  with_stdin : HookSettings → Option (List ℕ) → HookOutput × ℕ
  unfolding with_input parse_input
  with_stdin s none = (status_error none (failure (codes "hook_input_unavailable") false false), 2)
  with_stdin s (some bytes) =
      with_input s (parse_input model_validate (take (suc max_input_bytes) bytes))

  with_settings : Answer HookSettings → Option (List ℕ) → HookOutput × ℕ
  unfolding with_stdin
  with_settings (failed e) stdin = (status_error none e, 2)
  with_settings (answered s) stdin = with_stdin s stdin

  -- What is printed, and the exit code.
  unfoldable pub main : Answer HookSettings → Option (List ℕ) → Bool → Option HookOutput × ℕ
  unfolding with_settings exit_with
  main from_env stdin printed =
      let done = with_settings from_env stdin in exit_with printed done.0 done.1
