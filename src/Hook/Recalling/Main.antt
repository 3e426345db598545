-- ===== src/Hook/Recalling/Main.antt =====
-- What the hook prints, and its exit code (src/pg_agmemory/recall_hook.py).
use mathlib.Core.Path.{subst}
use pg_agmemory.Prelude.{
  ℕ, suc, take, ◌≤◌, ◌≡◌, refl, sym, Bool, true, false, ◌&&◌, leb, length, List, Option, none, some,
  inl, inr, Bool-cases, ==→eq, arith,
}
use pg_agmemory.Text.{codes}
use pg_agmemory.Context.{serialized_size}
use pg_agmemory.Client.{AdapterError, Answer, answered, failed, failure}
use pg_agmemory.Hook.{
  max_input_bytes, HookInput, HookSettings, SearchProfile, simple_v1, ja_janome, Recall,
  RetrievalMode, lexical, vector, hybrid, is_lexical, request,
}
use pg_agmemory.Hook.Recalling.{
  RecallResult, parse_input, profile_eq, encodable, result_fits, checked, Timed, too_late, in_time,
  HookOutput, status_ok, status_error, after_request, after_validate, recall, exit_with, conclude,
  with_input, with_stdin, main,
}

-- A result that keeps to the settings: its pack can be encoded, tells its exact size and keeps to the
-- budget, there are not too many items, and it is a lexical result of the profile that was asked for.
pub record Fits (s : HookSettings) (r : RecallResult) : Type 0 where
  pub encoded : encodable r.context_pack.text ≡ true
  pub exact : r.context_pack.byte_count ≡ serialized_size r.context_pack
  pub budget : serialized_size r.context_pack ≤ s.token_budget
  pub items : length r.items ≤ s.max_items
  pub profile : r.search_profile ≡ s.search_profile
  pub mode : r.retrieval_mode ≡ lexical

profile_eq→eq : (p q : SearchProfile) → profile_eq p q ≡ true → p ≡ q
profile_eq→eq simple_v1 simple_v1 h = refl
profile_eq→eq ja_janome ja_janome h = refl
profile_eq→eq simple_v1 ja_janome h = absurd (cc h)
profile_eq→eq ja_janome simple_v1 h = absurd (cc h)

is_lexical→eq : (m : RetrievalMode) → is_lexical m ≡ true → m ≡ lexical
is_lexical→eq lexical h = refl
is_lexical→eq vector h = absurd (cc h)
is_lexical→eq hybrid h = absurd (cc h)

and_left : (a b : Bool) → a && b ≡ true → a ≡ true
and_left a b h = ground arith

and_right : (a b : Bool) → a && b ≡ true → b ≡ true
and_right a b h = ground arith

leb→le : (a b : ℕ) → leb a b ≡ true → a ≤ b
leb→le a b h = ground arith

result_fits-Fits :
    (s : HookSettings) (r : RecallResult)
    → encodable r.context_pack.text ≡ true
    → result_fits s r ≡ true
    → Fits s r
unfolding result_fits
result_fits-Fits s r e h =
    let h1 = and_right _ _ h in
    let h2 = and_right _ _ h1 in
    let h3 = and_right _ _ h2 in
    let h4 = and_right _ _ h3 in
    record {
      encoded = e;
      exact = sym (==→eq _ _ (and_left _ _ h));
      budget = leb→le _ _ (and_left _ _ h1);
      items = leb→le _ _ (and_left _ _ h2);
      profile = profile_eq→eq _ _ (and_left _ _ h3);
      mode = is_lexical→eq _ (and_left _ _ h4);
    }

checked_lem :
    (s : HookSettings) (r r' : RecallResult) → checked s r ≡ answered r' → (r ≡ r') × Fits s r'
unfolding checked
checked_lem s r r' h = elim (Bool-cases (encodable r.context_pack.text && result_fits s r)) [
  | inl good ↦
      let kept : answered r ≡ answered r' = rw good at h in
      let same : r ≡ r' = cc kept in
      (same, subst (Fits s) same (result_fits-Fits s r (and_left _ _ good) (and_right _ _ good)))
  | inr bad ↦
      let refused : failed (failure (codes "invalid_native_response") false false) ≡ answered r' =
        rw bad at h in
      absurd (cc refused)
]

module _ {V F : Type 0} (validate : Timed (Unit {0}))
    (native_recall : Recall V F → Timed RecallResult) (model_validate : List ℕ → Option HookInput)
    (s : HookSettings) where
  -- The API is there, and its answer to the request that is made of the input keeps to the settings.
  pub record Recalled (data_ : HookInput) (r : RecallResult) : Type 0 where
    pub compatible : validate ≡ in_time (answered tt)
    pub api_answered : native_recall (request s data_) ≡ in_time (answered r)
    pub fits : Fits s r

  -- What is read and how it parses: no more than the bytes that the hook accepts and one are read.
  abbrev pub Parsed : Option (List ℕ) → Answer HookInput → Type 0
  Parsed none a = a ≡ failed (failure (codes "hook_input_unavailable") false false)
  Parsed (some bytes) a = parse_input model_validate (take (suc max_input_bytes) bytes) ≡ a

  -- What is printed with which exit code: the result of a recall that keeps to the settings, with the
  -- event of the input, with 0; the error of the recall, with that event, with 1; the error of reading
  -- or parsing the input, without an event, with 2; or nothing, if the output cannot be written, with 1.
  pub data Exit (stdin : Option (List ℕ)) (printed : Bool) : Option HookOutput × ℕ → Type 0 where
    fitting :
        (data_ : HookInput) (r : RecallResult)
        → Parsed stdin (answered data_)
        → Recalled data_ r
        → printed ≡ true
        → Exit stdin printed (some (status_ok data_.event r), 0)
    recall_failed :
        (data_ : HookInput) (e : AdapterError)
        → Parsed stdin (answered data_)
        → recall validate native_recall s data_ ≡ failed e
        → printed ≡ true
        → Exit stdin printed (some (status_error (some data_.event) e), 1)
    input_failed :
        (e : AdapterError)
        → Parsed stdin (failed e)
        → printed ≡ true
        → Exit stdin printed (some (status_error none e), 2)
    not_printed : printed ≡ false → Exit stdin printed (none, 1)

  after_request_lem :
      (t : Timed RecallResult) (r : RecallResult)
      → after_request s t ≡ answered r
      → (t ≡ in_time (answered r)) × Fits s r
  unfolding after_request
  after_request_lem too_late r h = absurd (cc h)
  after_request_lem (in_time (failed e)) r h = absurd (cc h)
  after_request_lem (in_time (answered r')) r h =
      let (same, fits) = checked_lem s r' r h in (rw same refl, fits)

  after_validate_lem :
      (data_ : HookInput) (v : Timed (Unit {0})) (r : RecallResult)
      → after_validate validate native_recall s data_ v ≡ answered r
      → (v ≡ in_time (answered tt))
        × (native_recall (request s data_) ≡ in_time (answered r))
        × Fits s r
  unfolding after_validate
  after_validate_lem data_ too_late r h = absurd (cc h)
  after_validate_lem data_ (in_time (failed e)) r h = absurd (cc h)
  after_validate_lem data_ (in_time (answered tt)) r h =
      let (api, fits) = after_request_lem (native_recall (request s data_)) r h in (refl, api, fits)

  recall_lem :
      (data_ : HookInput) (r : RecallResult)
      → recall validate native_recall s data_ ≡ answered r
      → Recalled data_ r
  unfolding recall
  recall_lem data_ r h =
      let (there, api, fits) = after_validate_lem data_ validate r h in
      record { compatible = there; api_answered = api; fits = fits }

  conclude-Exit :
      (stdin : Option (List ℕ)) (data_ : HookInput) (a : Answer RecallResult)
      → Parsed stdin (answered data_)
      → recall validate native_recall s data_ ≡ a
      → (printed : Bool)
      → Exit stdin printed (exit_with printed (conclude data_.event a).0 (conclude data_.event a).1)
  unfolding conclude exit_with
  conclude-Exit stdin data_ (answered r) parsed h true =
      fitting data_ r parsed (recall_lem data_ r h) refl
  conclude-Exit stdin data_ (failed e) parsed h true = recall_failed data_ e parsed h refl
  conclude-Exit stdin data_ (answered r) parsed h false = not_printed refl
  conclude-Exit stdin data_ (failed e) parsed h false = not_printed refl

  refused-Exit :
      (stdin : Option (List ℕ)) (e : AdapterError)
      → Parsed stdin (failed e)
      → (printed : Bool) → Exit stdin printed (exit_with printed (status_error none e) 2)
  unfolding exit_with
  refused-Exit stdin e parsed true = input_failed e parsed refl
  refused-Exit stdin e parsed false = not_printed refl

  with_input-Exit :
      (stdin : Option (List ℕ)) (a : Answer HookInput)
      → Parsed stdin a
      → (printed : Bool)
      → let done = with_input validate native_recall model_validate s a in
        Exit stdin printed (exit_with printed done.0 done.1)
  unfolding with_input
  with_input-Exit stdin (failed e) parsed printed = refused-Exit stdin e parsed printed
  with_input-Exit stdin (answered data_) parsed printed =
      conclude-Exit stdin data_ _ parsed refl printed

  -- Whatever the API answers and in whatever time, whatever is read and whether the output can be
  -- written: with settings that were accepted, the hook prints a result, with exit code 0 and the
  -- input's event, only if the API's answer to the request of that input keeps to the settings; it
  -- prints the error of the recall with the input's event and exit code 1; it prints the error of
  -- reading or parsing the input without an event and exit code 2; or nothing, with 1, exactly if the
  -- output cannot be written.
  pub main-Exit :
      (stdin : Option (List ℕ)) (printed : Bool)
      → Exit stdin printed (main validate native_recall model_validate (answered s) stdin printed)
  unfolding main with_stdin
  main-Exit none printed = refused-Exit none _ refl printed
  main-Exit (some bytes) printed = with_input-Exit (some bytes) _ refl printed
