-- ===== src/Context/Tests.antt =====
-- build_context at concrete items, and the theorems applied to them.
use mathlib.Core.List.{Sublistᴰ}
use pg_agmemory.Prelude.{
  ℕ, ◌≤◌, ◌<◌, ◌≡◌, refl, List, [], ◌∷◌, Bool, true, false, some, none, length, take,
}
use pg_agmemory.Text.{Text, codes, decimal, encode, json_string, uuid_text}
use pg_agmemory.Context.{
  MemoryItem, ContextPack, ContextError, Built, built, refused, budget_exhausted, budget_too_small,
  value_error, serialized_size, empty_pack, recount, build_context,
}
use pg_agmemory.Context.Budget.{
  render, build_context-bytes, build_context-selected, build_context-text,
}
use pg_agmemory.Context.Kept.{Kept}
use pg_agmemory.Context.Refusals.{Overrun, Reason, build_context-refused}

abbrev iso : ℕ → Text
iso t = decimal t

abbrev short_item : MemoryItem
short_item = record {
  memory_id = 1;
  revision = 1;
  content = codes "ok";
  recorded_at = 5;
  source = [];
  relation = none;
}

abbrev long_item : MemoryItem
long_item = record {
  memory_id = 2;
  revision = 3;
  content = codes "a \"quoted\" note that is much longer than the others";
  recorded_at = 6;
  source = 1 ∷ 7 ∷ [];
  relation = some (record { source_entity = 8; target_entity = 9 });
}

abbrev items : List MemoryItem
items = short_item ∷ long_item ∷ short_item ∷ []

abbrev result : Built
result = build_context iso items 490 1

abbrev pack_of : Built → ContextPack
pack_of (built p _ _) = p
pack_of (refused _) = empty_pack

abbrev selected_of : Built → List MemoryItem
selected_of (built _ l _) = l
selected_of (refused _) = []

abbrev omitted_of : Built → Bool
omitted_of (built _ _ o) = o
omitted_of (refused _) = true

abbrev is_built : Built → Bool
is_built (built _ _ _) = true
is_built (refused _) = false

built-eq : (r : Built) → is_built r ≡ true → r ≡ built (pack_of r) (selected_of r) (omitted_of r)
built-eq (built p l o) h = refl
built-eq (refused e) h = cc

result_eq : result ≡ built (pack_of result) (selected_of result) (omitted_of result)
unfolding build_context serialized_size encode codes json_string uuid_text decimal
result_eq = built-eq result refl

-- The long item does not fit.
selected-result : selected_of result ≡ short_item ∷ short_item ∷ []
unfolding build_context serialized_size encode codes json_string uuid_text decimal
selected-result = refl

-- Four recounts of the empty pack.
empty_pack_size : (recount empty_pack).byte_count ≡ 160
unfolding recount serialized_size encode codes json_string decimal
empty_pack_size = refl

required_too_large : build_context iso (long_item ∷ []) 200 1 ≡ refused budget_exhausted
unfolding build_context serialized_size encode codes json_string uuid_text decimal
required_too_large = refl

budget_below_empty : build_context iso [] 64 0 ≡ refused budget_too_small
unfolding build_context serialized_size encode codes json_string uuid_text decimal
budget_below_empty = refl

required_past_items : build_context iso [] 64 1 ≡ refused value_error
unfolding build_context serialized_size encode codes json_string uuid_text decimal
required_past_items = refl

build_context-bytes_example :
    ((pack_of result).byte_count ≡ serialized_size (pack_of result))
    × (serialized_size (pack_of result) ≤ 490)
build_context-bytes_example =
    build_context-bytes iso 490 1 items (pack_of result) (selected_of result) (omitted_of result)
      result_eq

build_context-selected_example :
    Kept iso 490 1 0 empty_pack items (selected_of result) (omitted_of result)
    × Sublistᴰ (selected_of result) items
    × (take 1 (selected_of result) ≡ take 1 items)
    × (omitted_of result ≡ false → selected_of result ≡ items)
    × (omitted_of result ≡ true → length (selected_of result) < length items)
build_context-selected_example =
    build_context-selected iso 490 1 items (pack_of result) (selected_of result) (omitted_of result)
      result_eq

build_context-text_example : (pack_of result).text ≡ render iso [] (selected_of result)
build_context-text_example =
    build_context-text iso 490 1 items (pack_of result) (selected_of result) (omitted_of result)
      result_eq

build_context-refused_example :
    ((e : ContextError)
      → build_context iso (long_item ∷ []) 200 1 ≡ refused e
      → Reason iso 200 1 (long_item ∷ []) e)
    × (1 < 1 → build_context iso (long_item ∷ []) 200 1 ≡ refused value_error)
    × (1 ≤ 1
        → Overrun iso 200 1 0 empty_pack (long_item ∷ [])
        → build_context iso (long_item ∷ []) 200 1 ≡ refused budget_exhausted)
build_context-refused_example = build_context-refused iso 200 1 (long_item ∷ [])

-- The reason of the refusal above.
long_item_overruns : Overrun iso 200 1 0 empty_pack (long_item ∷ [])
long_item_overruns =
    let (reason, _, _) = build_context-refused iso 200 1 (long_item ∷ []) in
    let (_, over) = reason budget_exhausted required_too_large in over
