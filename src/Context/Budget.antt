-- ===== src/Context/Budget.antt =====
-- What build_context guarantees of a pack that it returns, and when it returns one.
use mathlib.Core.List.{Sublistᴰ}
use pg_agmemory.Prelude.{
  ℕ, suc, ◌≤◌, ◌<◌, ◌≡◌, refl, List, [], ◌∷◌, ◌++◌, Bool, true, false, Bool-cases, inl, inr, ltb,
  leb, ltb→lt, ltb→le, length, take, arith,
}
use pg_agmemory.Text.{Text}
use pg_agmemory.Context.{
  MemoryItem, ContextPack, Built, built, refused, serialized_size, recount, heading, item_line,
  candidate, empty_pack, keep, omit, collect, finish, build_context,
}
use pg_agmemory.Context.Kept.{
  Kept, none_left, taken, left_out, Kept-sublist, Kept-all, Kept-fewer, Kept-take,
}
use pg_agmemory.Context.ByteCount.{
  IsLow, recount-text, empty_pack-IsLow, recount_exact, candidate_exact,
}

-- The text of a pack with the given items after what it held.
abbrev pub render : (ℕ → Text) → Text → List MemoryItem → Text
render isoformat t [] = t
render isoformat t (item ∷ items) = render isoformat (heading t ++ item_line isoformat item) items

-- A result that is a pack satisfies `P`.
abbrev Ensures : (ContextPack → List MemoryItem → Bool → Type 0) → Built → Type 0
Ensures P (built p selected omitted) = P p selected omitted
Ensures P (refused e) = Unit

keep-Ensures :
    (P Q : ContextPack → List MemoryItem → Bool → Type 0) (item : MemoryItem) (r : Built)
    → ((p : ContextPack) (l : List MemoryItem) (o : Bool) → P p l o → Q p (item ∷ l) o)
    → Ensures P r
    → Ensures Q (keep item r)
unfolding keep
keep-Ensures P Q item (built p l o) f h = f p l o h
keep-Ensures P Q item (refused e) f h = tt

omit-Ensures :
    (P Q : ContextPack → List MemoryItem → Bool → Type 0) (r : Built)
    → ((p : ContextPack) (l : List MemoryItem) (o : Bool) → P p l o → Q p l true)
    → Ensures P r
    → Ensures Q (omit r)
unfolding omit
omit-Ensures P Q (built p l o) f h = f p l o h
omit-Ensures P Q (refused e) f h = tt

module _ (isoformat : ℕ → Text) (budget required : ℕ) where
  -- What the loop establishes from a pack and a position.
  abbrev Collected :
      ℕ → ContextPack → List MemoryItem → ContextPack → List MemoryItem → Bool → Type 0
  Collected i pack items p selected omitted =
      IsLow p
      × Kept isoformat budget required i pack items selected omitted
      × (p.text ≡ render isoformat pack.text selected)

  candidate-text :
      (pack : ContextPack) (item : MemoryItem)
      → (candidate isoformat pack item).text ≡ heading pack.text ++ item_line isoformat item
  unfolding candidate recount
  candidate-text pack item = refl

  collect-Collected :
      (i : ℕ) (pack : ContextPack) (items : List MemoryItem)
      → IsLow pack
      → Ensures (Collected i pack items) (collect isoformat budget required i pack items)
  unfolding collect
  collect-Collected i pack [] low = (low, none_left, refl)
  collect-Collected i pack (item ∷ items) low =
      elim (Bool-cases (ltb budget (candidate isoformat pack item).byte_count)) [
        | inl over ↦ elim (Bool-cases (ltb i required)) [
          | inl wanted ↦ rw (over, wanted, collect) tt
          | inr spare ↦
              rw (over, spare, collect)
                (omit-Ensures (Collected (suc i) pack items) (Collected i pack (item ∷ items)) _
                  (λ p l o h. (
                    h.0,
                    left_out
                        (omega (
                          arith,
                          candidate_exact isoformat pack item low,
                          ltb→lt budget (candidate isoformat pack item).byte_count over,
                        ))
                        (ltb→le i required spare) h.1,
                    h.2,
                  ))
                  (collect-Collected (suc i) pack items low))
        ]
        | inr fits ↦
            let next = candidate isoformat pack item in
            let exact : next.byte_count ≡ serialized_size next =
              candidate_exact isoformat pack item low in
            rw (fits, collect)
              (keep-Ensures (Collected (suc i) next items) (Collected i pack (item ∷ items)) item _
                (λ p l o h. (
                  h.0,
                  taken (omega (arith, exact, ltb→le _ _ fits)) h.1,
                  rw (← candidate-text pack item) h.2,
                ))
                (collect-Collected (suc i) next items (omega (arith, exact))))
      ]

  -- The last recount makes the size exact, and the last test bounds it.
  abbrev Finished : List MemoryItem → ContextPack → List MemoryItem → Bool → Type 0
  Finished items p selected omitted =
      (p.byte_count ≡ serialized_size p)
      × (p.byte_count ≤ budget)
      × Kept isoformat budget required 0 empty_pack items selected omitted
      × (p.text ≡ render isoformat [] selected)

  finish-Finished :
      (items : List MemoryItem) (r : Built)
      → Ensures (Collected 0 empty_pack items) r
      → Ensures (Finished items) (finish budget r)
  unfolding finish
  finish-Finished items (refused e) h = tt
  finish-Finished items (built p l o) h = elim (Bool-cases (ltb budget (recount p).byte_count)) [
    | inl over ↦ rw over tt
    | inr fits ↦ rw fits (recount_exact p h.0, ltb→le _ _ fits, h.1, rw recount-text h.2)
  ]

  build_context-Finished :
      (items : List MemoryItem)
      → Ensures (Finished items) (build_context isoformat items budget required)
  unfolding build_context
  build_context-Finished items = elim (Bool-cases (leb required (length items))) [
    | inl prefix ↦
        rw prefix (finish-Finished items _ (collect-Collected 0 empty_pack items empty_pack-IsLow))
    | inr bad ↦ rw bad tt
  ]

module _ (isoformat : ℕ → Text) (budget required : ℕ) (items : List MemoryItem) where
  -- A returned pack states its own serialized size in bytes exactly, and that size is within the
  -- budget.
  pub build_context-bytes :
      (p : ContextPack) (selected : List MemoryItem) (omitted : Bool)
      → build_context isoformat items budget required ≡ built p selected omitted
      → (p.byte_count ≡ serialized_size p) × (serialized_size p ≤ budget)
  build_context-bytes p l o h =
      let f : Finished isoformat budget required items p l o =
        rw h at (build_context-Finished isoformat budget required items) in
      (f.0, omega (arith, f.0, f.1))

  -- The items of a returned pack are a part of the given ones in the given order, all the required
  -- ones lead it, and `omitted` tells exactly whether an item was left out. Each item in turn was
  -- taken if the pack with its line after those taken before keeps to the budget when it is
  -- serialized, and otherwise left out.
  pub build_context-selected :
      (p : ContextPack) (selected : List MemoryItem) (omitted : Bool)
      → build_context isoformat items budget required ≡ built p selected omitted
      → Kept isoformat budget required 0 empty_pack items selected omitted
        × Sublistᴰ selected items
        × (take required selected ≡ take required items)
        × (omitted ≡ false → selected ≡ items)
        × (omitted ≡ true → length selected < length items)
  build_context-selected p l o h =
      let f : Finished isoformat budget required items p l o =
        rw h at (build_context-Finished isoformat budget required items) in
      (f.2, Kept-sublist f.2, Kept-take 0 required f.2 (omega arith), Kept-all f.2, Kept-fewer f.2)

  -- The text of a returned pack is the heading and then the line of each returned item, in order.
  pub build_context-text :
      (p : ContextPack) (selected : List MemoryItem) (omitted : Bool)
      → build_context isoformat items budget required ≡ built p selected omitted
      → p.text ≡ render isoformat [] selected
  build_context-text p l o h =
      let f : Finished isoformat budget required items p l o =
        rw h at (build_context-Finished isoformat budget required items) in
      f.3
