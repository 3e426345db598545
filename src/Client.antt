-- ===== src/Client.antt =====
-- NativeHTTPClient of src/pg_agmemory/native_client.py: one exchange with the HTTP API, and what a
-- failure tells the caller. The network, json.loads and pydantic's validators are parameters.
pub mod Failures
mod Tests
use pg_agmemory.Prelude.{
  ℕ, ◌+◌, Bool, true, false, not, ◌&&◌, ◌||◌, Option, none, some, List, [], ◌∷◌, ◌++◌, any, length,
  leb, ltb, ◌==◌, if◌then◌else◌,
}
use pg_agmemory.Text.{Text, codes, text_eq}

-- MAX_REQUEST_BYTES, MAX_RESPONSE_BYTES
abbrev pub max_request_bytes : ℕ
max_request_bytes = 262144

abbrev pub max_response_bytes : ℕ
max_response_bytes = 2097152

-- AdapterError
pub record AdapterError : Type 0 where
  pub code : Text
  pub retryable : Bool
  pub outcome_unknown : Bool
  pub native_status : Option ℕ
  pub request_id : Option ℕ

-- A value, or AdapterFailure.
pub data Answer (A : Type 0) : Type 0 where
  answered : A → Answer A
  failed : AdapterError → Answer A

-- failure(code, retryable=..., unknown=...) without a native status
unfoldable pub failure : Text → Bool → Bool → AdapterError
failure code retryable unknown = record {
  code = code;
  retryable = retryable;
  outcome_unknown = unknown;
  native_status = none;
  request_id = none;
}

-- What is sent; a GET has no body.
pub record Message : Type 0 where
  pub path : Text
  pub body : Option (List ℕ)
  pub key : Option Text

-- What comes back: two headers, the status, and the body in the parts in which it arrives.
pub record NativeResponse : Type 0 where
  pub content_type : Option Text
  pub content_encoding : Option Text
  pub status_code : ℕ
  pub parts : List (List ℕ)

-- headers.get("content-type", "").split(";")[0]
before_semicolon : Text → Text
before_semicolon [] = []
before_semicolon (c ∷ t) = let rest = before_semicolon t in if c == 59 then [] else c ∷ rest

header : Option Text → Text → Text
header none default = default
header (some value) default = value

-- `async for part in response.aiter_raw()`, with the bytes read so far; none if they are too many
read_parts : List ℕ → List (List ℕ) → Option (List ℕ)
read_parts content [] = some content
read_parts content (part ∷ parts) =
    let all = content ++ part in
    let rest = read_parts all parts in if ltb max_response_bytes (length all) then none else rest

-- The versions that `validate` compares.
pub record Capabilities : Type 0 where
  pub api_version : Text
  pub service_version : Text
  pub schema_version : ℕ

-- The request as it is serialized: there is none, or it cannot be encoded, or it is these bytes.
pub data Serialized : Type 0 where
  absent unencodable : Serialized
  bytes : List ℕ → Serialized

-- `Json` is a JSON value. `error_body` is ErrorBody.model_validate and UUID(native.request_id);
-- `safe_codes` is the set that the client was built with; `send` is none on a transport error or a
-- timeout.
module _ {Json : Type 0} (loads : List ℕ → Option Json) (error_body : Json → Option (Text × ℕ))
    (safe_codes : List Text) (send : Message → Option NativeResponse) where
  safe_code : Text → Text
  safe_code code = if any (text_eq code) safe_codes then code else codes "native_api_error"

  -- The answer of the API to a status that is not 2xx.
  native_failure : Bool → ℕ → Option (Text × ℕ) → AdapterError
  unfolding safe_code failure
  native_failure mutation status none =
      record (failure (codes "invalid_native_response") false mutation) {
        native_status = some status;
      }
  native_failure mutation status (some (code, request_id)) = record {
    code = safe_code code;
    retryable = status == 429 || status == 503;
    outcome_unknown = mutation && leb 500 status;
    native_status = some status;
    request_id = some request_id;
  }

  -- The payload of a response that was read.
  accept : Bool → ℕ → Json → Answer (ℕ × Json)
  unfolding native_failure
  accept mutation status payload =
      if leb 200 status && ltb status 300
      then answered (status, payload)
      else failed (native_failure mutation status (error_body payload))

  parsed : Bool → ℕ → Option Json → Answer (ℕ × Json)
  unfolding accept failure
  parsed mutation status none = failed (failure (codes "invalid_native_response") false mutation)
  parsed mutation status (some payload) = accept mutation status payload

  decode : Bool → ℕ → Option (List ℕ) → Answer (ℕ × Json)
  unfolding parsed failure
  decode mutation status none = failed (failure (codes "invalid_native_response") false mutation)
  decode mutation status (some content) = parsed mutation status (loads content)

  respond : Bool → Option NativeResponse → Answer (ℕ × Json)
  unfolding decode read_parts before_semicolon header failure
  respond mutation none = failed (failure (codes "native_api_unavailable") true mutation)
  respond mutation (some response) =
      if text_eq (before_semicolon (header response.content_type [])) (codes "application/json")
        && text_eq (header response.content_encoding (codes "identity")) (codes "identity")
      then decode mutation response.status_code (read_parts [] response.parts)
      else failed (failure (codes "invalid_native_response") false mutation)

  -- NativeHTTPClient.exchange
  unfoldable pub exchange : Message → Bool → Answer (ℕ × Json)
  unfolding respond
  exchange message mutation = respond mutation (send message)

  -- The client's own versions, and what a payload says if it is an object with the three keys.
  module _ (own : Capabilities) (capabilities : Json → Option Capabilities) where
    compatible : Option Capabilities → Bool
    compatible none = false
    compatible (some c) =
        text_eq c.api_version (codes "v1")
        && (text_eq c.service_version own.service_version && c.schema_version == own.schema_version)

    verified : Answer (ℕ × Json) → Answer (Unit {0})
    unfolding compatible failure
    verified (failed e) = failed e
    verified (answered (status, payload)) =
        if status == 200 && compatible (capabilities payload)
        then answered tt
        else failed (failure (codes "native_version_mismatch") false false)

    -- NativeHTTPClient.validate
    unfoldable pub validate : Answer (Unit {0})
    unfolding exchange verified
    validate =
        verified
          (exchange (record { path = codes "/v1/capabilities"; body = none; key = none }) false)

  module _ {A : Type 0} (validate_python : Json → Option A) where
    validated : Bool → Option A → Answer A
    unfolding failure
    validated mutation none = failed (failure (codes "invalid_native_response") false mutation)
    validated mutation (some a) = answered a

    check : ℕ → Bool → Answer (ℕ × Json) → Answer A
    unfolding validated failure
    check expected_status mutation (failed e) = failed e
    check expected_status mutation (answered (status, payload)) =
        if status == expected_status
        then validated mutation (validate_python payload)
        else failed (failure (codes "invalid_native_response") false mutation)

    -- NativeHTTPClient.request
    unfoldable pub request : Text → Serialized → ℕ → Option Text → Bool → ℕ → Answer A
    unfolding exchange check failure
    request path absent expected_status key mutation limit =
        check expected_status mutation
          (exchange (record { path = path; body = none; key = key }) mutation)
    request path unencodable expected_status key mutation limit =
        failed (failure (codes "invalid_request") false false)
    request path (bytes body) expected_status key mutation limit =
        if ltb limit (length body)
        then failed (failure (codes "body_too_large") false false)
        else check expected_status mutation
            (exchange (record { path = path; body = some body; key = key }) mutation)
