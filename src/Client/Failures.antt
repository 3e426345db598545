-- ===== src/Client/Failures.antt =====
-- What a failure of the client tells its caller.
use pg_agmemory.Prelude.{
  ℕ, ◌<◌, ◌≡◌, refl, ap, Bool, true, false, ◌&&◌, ◌||◌, Bool-cases, Option, none, some, inl, inr,
  ◌⊎◌, List, [], length, leb, ltb, ◌==◌, ==→eq, arith,
}
use pg_agmemory.Text.{Text, codes, text_eq}
use pg_agmemory.Client.{
  AdapterError, Answer, answered, failed, failure, Message, NativeResponse, Serialized, absent,
  unencodable, bytes, before_semicolon, header, read_parts, native_failure, accept, parsed,
  validated, decode, respond, exchange, check, request,
}

-- A failure of a request that mutates, or does not:
--   * the outcome is unknown only of a mutation;
--   * if it is known of a mutation, the request fails in the same way whatever the network would
--     have done with what is sent, or the API answered with a status below 500;
--   * a retry is advised only when the API could not be reached, or answered with 429 or 503.
pub record IsHonest (Unsent : AdapterError → Type 0) (mutation : Bool) (e : AdapterError)
    : Type 0 where
  pub unknown : (e.outcome_unknown ≡ false) ⊎ (mutation ≡ true)
  pub known :
      ((mutation ≡ false) ⊎ (e.outcome_unknown ≡ true))
      ⊎ (Unsent e ⊎ ((status : ℕ) × (e.native_status ≡ some status) × (status < 500)))
  pub retry :
      (e.retryable ≡ false)
      ⊎ ((e.code ≡ codes "native_api_unavailable")
          ⊎ ((e.native_status ≡ some 429) ⊎ (e.native_status ≡ some 503)))

no_or : {P : Type 0} (b : Bool) → (b ≡ true → P) → (b ≡ false) ⊎ P
no_or true f = inr (f refl)
no_or false f = inl refl

no_or_yes_or :
    {P : Type 0} (m u : Bool) → (m ≡ true → u ≡ false → P) → ((m ≡ false) ⊎ (u ≡ true)) ⊎ P
no_or_yes_or false u f = inl (inl refl)
no_or_yes_or true true f = inl (inr refl)
no_or_yes_or true false f = inr (f refl refl)

abbrev pub Ensures : {A : Type 0} → (AdapterError → Type 0) → Answer A → Type 0
Ensures P (answered a) = Unit
Ensures P (failed e) = P e

-- A failure after something was sent, without a status below 500.
unknown_failure :
    (Unsent : AdapterError → Type 0) (mutation : Bool) (code : Text)
    → IsHonest Unsent mutation (failure code false mutation)
unfolding failure
unknown_failure Unsent mutation code = record {
  unknown = no_or _ (λ h. h);
  known = no_or_yes_or _ _ (λ a b. absurd (cc (a, b)));
  retry = no_or _ (λ h. absurd (cc h));
}

unavailable :
    (Unsent : AdapterError → Type 0) (mutation : Bool)
    → IsHonest Unsent mutation (failure (codes "native_api_unavailable") true mutation)
unfolding failure
unavailable Unsent mutation = record {
  unknown = no_or _ (λ h. h);
  known = no_or_yes_or _ _ (λ a b. absurd (cc (a, b)));
  retry = no_or _ (λ h. inl refl);
}

below_500 : (m : Bool) (status : ℕ) → m ≡ true → m && leb 500 status ≡ false → status < 500
below_500 m status a b = ground arith

and_left : (a b : Bool) → a && b ≡ true → a ≡ true
and_left a b h = ground arith

either_status :
    (status : ℕ)
    → (status == 429 || status == 503) ≡ true
    → (some status ≡ some 429) ⊎ (some status ≡ some 503)
either_status status h = elim (Bool-cases (status == 429)) [
  | inl e ↦ inl (ap some (==→eq status 429 e))
  | inr e ↦ inr (ap some (==→eq status 503 (ground (arith))))
]

module _ {Json : Type 0} (loads : List ℕ → Option Json) (error_body : Json → Option (Text × ℕ))
    (safe_codes : List Text) (send : Message → Option NativeResponse)
    (Unsent : AdapterError → Type 0) where
  native_failure-IsHonest :
      (mutation : Bool) (status : ℕ) (o : Option (Text × ℕ))
      → IsHonest Unsent mutation (native_failure loads error_body safe_codes send mutation status o)
  unfolding native_failure failure
  native_failure-IsHonest mutation status none = record {
    unknown = no_or _ (λ h. h);
    known = no_or_yes_or _ _ (λ a b. absurd (cc (a, b)));
    retry = no_or _ (λ h. absurd (cc h));
  }
  native_failure-IsHonest mutation status (some (code, request_id)) = record {
    unknown = no_or _ (λ h. and_left mutation (leb 500 status) h);
    known = no_or_yes_or _ _ (λ a b. inr (status, refl, below_500 mutation status a b));
    retry = no_or _ (λ h. inr (either_status status h));
  }

  accept-IsHonest :
      (mutation : Bool) (status : ℕ) (payload : Json)
      → Ensures
          (IsHonest Unsent mutation)
          (accept loads error_body safe_codes send mutation status payload)
  unfolding accept
  accept-IsHonest mutation status payload = elim (Bool-cases (leb 200 status && ltb status 300)) [
    | inl good ↦ rw good tt
    | inr bad ↦ rw bad (native_failure-IsHonest mutation status (error_body payload))
  ]

  parsed-IsHonest :
      (mutation : Bool) (status : ℕ) (o : Option Json)
      → Ensures
          (IsHonest Unsent mutation)
          (parsed loads error_body safe_codes send mutation status o)
  unfolding parsed
  parsed-IsHonest mutation status none = unknown_failure Unsent mutation _
  parsed-IsHonest mutation status (some payload) = accept-IsHonest mutation status payload

  decode-IsHonest :
      (mutation : Bool) (status : ℕ) (o : Option (List ℕ))
      → Ensures
          (IsHonest Unsent mutation)
          (decode loads error_body safe_codes send mutation status o)
  unfolding decode
  decode-IsHonest mutation status none = unknown_failure Unsent mutation _
  decode-IsHonest mutation status (some content) = parsed-IsHonest mutation status (loads content)

  respond-IsHonest :
      (mutation : Bool) (o : Option NativeResponse)
      → Ensures (IsHonest Unsent mutation) (respond loads error_body safe_codes send mutation o)
  unfolding respond
  respond-IsHonest mutation none = unavailable Unsent mutation
  respond-IsHonest mutation (some r) =
      elim (Bool-cases (
        text_eq (before_semicolon (header r.content_type [])) (codes "application/json")
        && text_eq (header r.content_encoding (codes "identity")) (codes "identity"))) [
          | inl good ↦ rw good (decode-IsHonest mutation r.status_code (read_parts [] r.parts))
          | inr bad ↦ rw bad (unknown_failure Unsent mutation _)
        ]

  module _ {A : Type 0} (validate_python : Json → Option A) where
    validated-IsHonest :
        (mutation : Bool) (o : Option A)
        → Ensures
            (IsHonest Unsent mutation)
            (validated loads error_body safe_codes send validate_python mutation o)
    unfolding validated
    validated-IsHonest mutation none = unknown_failure Unsent mutation _
    validated-IsHonest mutation (some a) = tt

    check-IsHonest :
        (expected_status : ℕ) (mutation : Bool) (r : Answer (ℕ × Json))
        → Ensures (IsHonest Unsent mutation) r
        → Ensures
            (IsHonest Unsent mutation)
            (check loads error_body safe_codes send validate_python expected_status mutation r)
    unfolding check
    check-IsHonest expected_status mutation (failed e) h = h
    check-IsHonest expected_status mutation (answered (status, payload)) h =
        elim (Bool-cases (status == expected_status)) [
          | inl same ↦ rw same (validated-IsHonest mutation (validate_python payload))
          | inr other ↦ rw other (unknown_failure Unsent mutation _)
        ]

-- The cases of the body.
module _ {Json : Type 0} (loads : List ℕ → Option Json) (error_body : Json → Option (Text × ℕ))
    (safe_codes : List Text) (send : Message → Option NativeResponse) {A : Type 0}
    (validate_python : Json → Option A) (path : Text) (expected_status : ℕ) (key : Option Text)
    (mutation : Bool) (limit : ℕ) where
  abbrev Same : Serialized → AdapterError → Type 0
  Same body e =
      (other : Message → Option NativeResponse)
      → request loads error_body safe_codes other validate_python path body expected_status key
          mutation limit
        ≡ failed e

  exchanged-IsHonest :
      (body : Serialized) (o : Option NativeResponse)
      → Ensures (IsHonest (Same body) mutation) (
          check loads error_body safe_codes send validate_python expected_status mutation
            (respond loads error_body safe_codes send mutation o))
  exchanged-IsHonest body o =
      check-IsHonest loads error_body safe_codes send (Same body) validate_python expected_status
        mutation _ (respond-IsHonest loads error_body safe_codes send (Same body) mutation o)

  request_by_body :
      (body : Serialized)
      → Ensures (IsHonest (Same body) mutation) (
          request loads error_body safe_codes send validate_python path body expected_status key
            mutation limit)
  unfolding request exchange failure
  request_by_body absent = exchanged-IsHonest absent (send _)
  request_by_body unencodable = record {
    unknown = no_or _ (λ h. absurd (cc h));
    known = no_or_yes_or _ _ (λ a b. inl (λ other. refl));
    retry = no_or _ (λ h. absurd (cc h));
  }
  request_by_body (bytes body) = elim (Bool-cases (ltb limit (length body))) [
    | inl large ↦ rw large (record {
      unknown = no_or _ (λ h. absurd (cc h));
      known = no_or_yes_or _ _ (λ a b. inl (λ other. rw large refl));
      retry = no_or _ (λ h. absurd (cc h));
    })
    | inr small ↦ rw small (exchanged-IsHonest (bytes body) (send _))
  ]

module _ {Json : Type 0} (loads : List ℕ → Option Json) (error_body : Json → Option (Text × ℕ))
    (safe_codes : List Text) {A : Type 0} (validate_python : Json → Option A) (path : Text)
    (body : Serialized) (expected_status : ℕ) (key : Option Text) (mutation : Bool)
    (limit : ℕ) where
  -- The request fails with this error whatever the network would have done with what is sent.
  abbrev pub Unsent : AdapterError → Type 0
  Unsent e =
      (send : Message → Option NativeResponse)
      → request loads error_body safe_codes send validate_python path body expected_status key
          mutation limit
        ≡ failed e

  -- Whatever the network, the API and the validators do, a request either answers, or it fails
  -- with an error whose `outcome_unknown` is set only of a mutation; which, if it is not set of a
  -- mutation, is the same whatever the network would have done with what is sent, or carries a status
  -- of the API below 500; and which is `retryable` only if the API could not be reached, or its
  -- status was 429 or 503.
  pub request-IsHonest :
      (send : Message → Option NativeResponse)
      → Ensures (IsHonest Unsent mutation) (
          request loads error_body safe_codes send validate_python path body expected_status key
            mutation limit)
  request-IsHonest send =
      request_by_body loads error_body safe_codes send validate_python path expected_status key
        mutation limit body
