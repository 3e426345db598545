-- ===== src/Hook.antt =====
-- The settings, the input and the request of the recall hook: src/pg_agmemory/recall_hook.py, and
-- Recall of src/pg_agmemory/models.py.
pub mod Accepted
pub mod Recalling
mod Tests
use pg_agmemory.Prelude.{
  ℕ, suc, ◌+◌, Bool, true, false, not, ◌&&◌, ◌||◌, Option, none, some, List, [], ◌∷◌, any, length,
  take, leb, ltb, ◌==◌, if◌then◌else◌,
}
use pg_agmemory.Text.{Text, codes}
use pg_agmemory.Service.{MemoryReference}
use pg_agmemory.Context.{ContextPack, MemoryItem, serialized_size}
use pg_agmemory.Client.{AdapterError, Answer, answered, failed, failure}
use pg_agmemory.Requests.{unique}

-- MAX_INPUT_BYTES
abbrev pub max_input_bytes : ℕ
max_input_bytes = 32768

pub data HookEvent : Type 0 where
  session_start task_switch after_compaction : HookEvent

pub record HookInput : Type 0 where
  pub event : HookEvent
  pub query : Text

pub data SearchProfile : Type 0 where
  simple_v1 ja_janome : SearchProfile

-- Without `timeout_seconds`: whether the API answers in time is a parameter.
pub record HookSettings : Type 0 where
  pub api_url : Text
  pub api_token : Text
  pub scope_ids : List ℕ
  pub purpose : Text
  pub token_budget : ℕ
  pub max_items : ℕ
  pub search_profile : SearchProfile

pub data RecallMode : Type 0 where
  implicit explicit : RecallMode

pub data RetrievalMode : Type 0 where
  lexical vector hybrid : RetrievalMode

-- Recall, without its constant `tokenizer_id`; `vector_query` and `filters` are what they are.
pub record Recall (V F : Type 0) : Type 0 where
  pub query : Text
  pub scope_ids : List ℕ
  pub purpose : Text
  pub as_of : Option ℕ
  pub known_at : Option ℕ
  pub mode : RecallMode
  pub token_budget : ℕ
  pub max_items : ℕ
  pub search_profile : SearchProfile
  pub retrieval_mode : RetrievalMode
  pub vector_query : Option V
  pub required_memory_refs : List MemoryReference
  pub filters : Option F

is_none : {A : Type 0} → Option A → Bool
is_none none = true
is_none (some a) = false

is_empty : {A : Type 0} → List A → Bool
is_empty [] = true
is_empty (a ∷ l) = false

is_implicit : RecallMode → Bool
is_implicit implicit = true
is_implicit explicit = false

abbrev pub is_lexical : RetrievalMode → Bool
is_lexical lexical = true
is_lexical _ = false

query_fits : RetrievalMode → Text → Bool
unfolding is_empty
query_fits lexical query = true
query_fits vector query = is_empty query
query_fits hybrid query = not (is_empty query)

references_fit : RetrievalMode → ℕ → List MemoryReference → Bool
unfolding unique
references_fit mode max_items [] = true
references_fit mode max_items (r ∷ refs) =
    is_lexical mode
    && (leb (length (r ∷ refs)) max_items
        && unique (λ (a b : MemoryReference). a.memory_id == b.memory_id) (r ∷ refs))

both_or_neither : Bool → Bool → Bool
both_or_neither true b = b
both_or_neither false b = not b

-- Recall.implicit_budget
unfoldable pub implicit_budget : {V F : Type 0} → Recall V F → Bool
unfolding is_implicit is_none query_fits references_fit both_or_neither
implicit_budget r =
    not (is_implicit r.mode && ltb 2000 r.token_budget)
    && (both_or_neither (is_lexical r.retrieval_mode) (is_none r.vector_query)
        && (query_fits r.retrieval_mode r.query
            && references_fit r.retrieval_mode r.max_items r.required_memory_refs))

within : ℕ → ℕ → ℕ → Bool
within lo hi n = leb lo n && leb n hi

-- The lengths and ranges of the fields of Recall.
unfoldable pub recall_fields : {V F : Type 0} → Recall V F → Bool
unfolding within
recall_fields r =
    leb (length r.query) 4096
    && (within 1 32 (length r.scope_ids)
        && (within 1 256 (length r.purpose)
            && (within 64 8000 r.token_budget
                && (within 1 100 r.max_items && leb (length r.required_memory_refs) 16))))

-- HookInput's field
unfoldable pub input_fields : HookInput → Bool
input_fields data_ = leb (length data_.query) 4096

-- The fields of HookSettings, and validate_startup; `native_settings` is whether NativeSettings
-- accepts the URL and the token.
unfoldable pub validate_startup : (Text → Text → Bool) → HookSettings → Bool
unfolding within unique
validate_startup native_settings s =
    within 1 32 (length s.scope_ids)
    && (within 1 256 (length s.purpose)
        && (within 64 2000 s.token_budget
            && (within 1 20 s.max_items
                && (native_settings s.api_url s.api_token
                    && unique (λ (a b : ℕ). a == b) s.scope_ids))))

-- HookSettings.request
unfoldable pub request : {V F : Type 0} → HookSettings → HookInput → Recall V F
request s data_ = record {
  query = data_.query;
  scope_ids = s.scope_ids;
  purpose = s.purpose;
  as_of = none;
  known_at = none;
  mode = implicit;
  token_budget = s.token_budget;
  max_items = s.max_items;
  search_profile = s.search_profile;
  retrieval_mode = lexical;
  vector_query = none;
  required_memory_refs = [];
  filters = none;
}
