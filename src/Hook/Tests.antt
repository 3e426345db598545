-- ===== src/Hook/Tests.antt =====
-- The hook on a concrete request, and the theorems applied to it.
use pg_agmemory.Prelude.{ℕ, ◌≡◌, refl, Bool, true, false, none, some, Option, List, [], ◌∷◌}
use pg_agmemory.Text.{Text, codes, encode, json_string, decimal}
use pg_agmemory.Context.{ContextPack, serialized_size}
use pg_agmemory.Client.{answered, failure}
use pg_agmemory.Hook.{
  HookInput, HookSettings, task_switch, simple_v1, lexical, Recall, implicit_budget, recall_fields,
  input_fields, validate_startup, request,
}
use pg_agmemory.Hook.Recalling.{
  RecallResult, Timed, in_time, HookOutput, status_ok, status_error, main,
}
use pg_agmemory.Hook.Accepted.{request-accepted}
use pg_agmemory.Hook.Recalling.Main.{Exit, main-Exit}

abbrev settings : HookSettings
settings = record {
  api_url = codes "https://h";
  api_token = codes "a.b.c";
  scope_ids = 10 ∷ 11 ∷ [];
  purpose = codes "p";
  token_budget = 200;
  max_items = 5;
  search_profile = simple_v1;
}

abbrev asked : HookInput
asked = record { event = task_switch; query = codes "sky" }

abbrev any_url : Text → Text → Bool
any_url url token = true

accepted : (validate_startup any_url settings ≡ true) × (input_fields asked ≡ true)
unfolding validate_startup input_fields codes
accepted = (refl, refl)

repeated_scope : validate_startup any_url (record settings { scope_ids = 10 ∷ 10 ∷ [] }) ≡ false
unfolding validate_startup codes
repeated_scope = refl

request-accepted_example :
    (recall_fields (request {V = ℕ} {F = ℕ} settings asked) ≡ true)
    × (implicit_budget (request {V = ℕ} {F = ℕ} settings asked) ≡ true)
request-accepted_example = request-accepted ℕ ℕ any_url settings asked accepted.0 accepted.1

abbrev pack : ContextPack
pack = record { text = []; byte_count = 160 }

abbrev nothing_found : RecallResult
nothing_found = record {
  items = [];
  context_pack = pack;
  vector_incomplete = false;
  search_profile = simple_v1;
  retrieval_mode = lexical;
  embedding_model = none;
}

-- The API answers every request with this; the input is always `asked`.
abbrev answer : RecallResult → Recall ℕ ℕ → Timed RecallResult
answer r request_ = in_time (answered r)

abbrev reading : List ℕ → Option HookInput
reading raw = some asked

abbrev run : RecallResult → Option HookOutput × ℕ
run r = main (in_time (answered tt)) (answer r) reading (answered settings) (some (1 ∷ [])) true

found_nothing : run nothing_found ≡ (some (status_ok task_switch nothing_found), 0)
unfolding main serialized_size codes encode json_string decimal
found_nothing = refl

-- A pack that does not tell its size is refused.
wrong_size : run (record nothing_found { context_pack = record pack { byte_count = 3 } }) ≡ (
  some (status_error (some task_switch) (failure (codes "invalid_native_response") false false)),
  1,
)
unfolding main serialized_size codes encode json_string decimal
wrong_size = refl

main-Exit_example :
    Exit
      (in_time (answered tt))
      (answer nothing_found)
      reading
      settings
      (some (1 ∷ []))
      true
      (run nothing_found)
main-Exit_example =
    main-Exit (in_time (answered tt)) (answer nothing_found) reading settings (some (1 ∷ [])) true
