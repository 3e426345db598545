-- ===== src/Client/Tests.antt =====
-- The client against answers of an API, and the theorem applied to one.
use pg_agmemory.Prelude.{ℕ, ◌≡◌, refl, true, false, Option, none, some, List, [], ◌∷◌}
use pg_agmemory.Text.{Text, codes, text_eq}
use pg_agmemory.Client.Failures.{IsHonest, Ensures, Unsent, request-IsHonest}
use pg_agmemory.Client.{
  AdapterError, Answer, answered, failed, failure, NativeResponse, bytes, request,
}

-- A JSON value is its bytes; every byte list parses; the bytes 9 are an error body.
abbrev loads : List ℕ → Option (List ℕ)
loads content = some content

abbrev error_body : List ℕ → Option (Text × ℕ)
error_body content = some (codes "not_found", 77)

abbrev response : ℕ → NativeResponse
response status = record {
  content_type = some (codes "application/json; charset=utf-8");
  content_encoding = none;
  status_code = status;
  parts = (1 ∷ []) ∷ (2 ∷ []) ∷ [];
}

abbrev ask : Option NativeResponse → Answer (List ℕ)
ask r =
    request loads error_body (codes "not_found" ∷ []) (λ m. r) (λ j. some j) (codes "/v1/remember")
      (bytes (5 ∷ [])) 200 (some (codes "k")) true 262144

good : ask (some (response 200)) ≡ answered (1 ∷ 2 ∷ [])
unfolding request codes text_eq
good = refl

abbrev unavailable : AdapterError
unavailable = record {
  code = codes "native_api_unavailable";
  retryable = true;
  outcome_unknown = true;
  native_status = none;
  request_id = none;
}

lost : ask none ≡ failed unavailable
unfolding request codes text_eq
lost = refl

abbrev busy : AdapterError
busy = record {
  code = codes "not_found";
  retryable = true;
  outcome_unknown = true;
  native_status = some 503;
  request_id = some 77;
}

overloaded : ask (some (response 503)) ≡ failed busy
unfolding request codes text_eq
overloaded = refl

-- A body that is over the limit: the API would have answered.
abbrev over_limit : Answer (List ℕ)
over_limit =
    request loads error_body (codes "not_found" ∷ []) (λ m. some (response 200)) (λ j. some j)
      (codes "/v1/remember") (bytes (5 ∷ 6 ∷ [])) 200 (some (codes "k")) true 1

refused_unsent : over_limit ≡ failed (failure (codes "body_too_large") false false)
unfolding request failure
refused_unsent = refl

request-IsHonest_example :
    Ensures
      (IsHonest
        (Unsent loads error_body
          (codes "not_found" ∷ [])
          (λ j. some j)
          (codes "/v1/remember")
          (bytes (5 ∷ 6 ∷ []))
          200
          (some (codes "k"))
          true
          1)
        true)
      over_limit
request-IsHonest_example =
    request-IsHonest loads error_body (codes "not_found" ∷ []) (λ j. some j) (codes "/v1/remember")
      (bytes (5 ∷ 6 ∷ [])) 200 (some (codes "k")) true 1 (λ m. some (response 200))
