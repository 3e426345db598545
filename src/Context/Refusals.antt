-- ===== src/Context/Refusals.antt =====
-- When build_context returns an error.
use pg_agmemory.Prelude.{
  ℕ, suc, ◌≤◌, ◌<◌, ◌≡◌, ◌⊎◌, refl, List, [], ◌∷◌, true, false, Bool-cases, inl, inr, ltb, leb,
  ltb→lt, ltb→le, le→leb, length, arith,
}
use pg_agmemory.Text.{Text}
use pg_agmemory.Context.{
  MemoryItem, ContextPack, Built, built, refused, ContextError, value_error, budget_exhausted,
  budget_too_small, serialized_size, recount, candidate, empty_pack, keep, omit, collect, finish,
  build_context,
}
use pg_agmemory.Context.ByteCount.{
  IsLow, recount_fixed, empty_pack-IsLow, recount_exact, candidate_exact,
}

-- From position `index` on, there is a required item that the budget does not admit after the required
-- ones before it.
pub data Overrun (isoformat : ℕ → Text) (budget required : ℕ)
    : ℕ → ContextPack → List MemoryItem → Type 0 where
  too_large :
      {i : ℕ} {pack : ContextPack} {item : MemoryItem} {items : List MemoryItem}
      → i < required
      → budget < serialized_size (candidate isoformat pack item)
      → Overrun isoformat budget required i pack (item ∷ items)
  after_taken :
      {i : ℕ} {pack : ContextPack} {item : MemoryItem} {items : List MemoryItem}
      → serialized_size (candidate isoformat pack item) ≤ budget
      → Overrun isoformat budget required (suc i) (candidate isoformat pack item) items
      → Overrun isoformat budget required i pack (item ∷ items)

leb→le : (a b : ℕ) → leb a b ≡ true → a ≤ b
leb→le a b h = ground arith

not_leb→lt : (a b : ℕ) → leb a b ≡ false → b < a
not_leb→lt a b h = ground arith

lt→not_leb : (a b : ℕ) → a < b → leb b a ≡ false
lt→not_leb a b h = ground arith

module _ (isoformat : ℕ → Text) (budget required : ℕ) where
  Overrun-required :
      {i : ℕ} {pack : ContextPack} {items : List MemoryItem}
      → Overrun isoformat budget required i pack items
      → i < required
  Overrun-required (too_large h g) = h
  Overrun-required (after_taken h o) = omega (arith, Overrun-required o)

  -- What the loop comes to: the pack that it began with or one that passes the last test, or
  -- budget_exhausted at a required item.
  abbrev Outcome : ℕ → ContextPack → List MemoryItem → Built → Type 0
  Outcome i pack items (built p selected omitted) = (p ≡ pack) ⊎ ((recount p).byte_count ≤ budget)
  Outcome i pack items (refused e) =
      (e ≡ budget_exhausted) × Overrun isoformat budget required i pack items

  keep-Outcome :
      (i : ℕ) (pack : ContextPack) (item : MemoryItem) (items : List MemoryItem) (r : Built)
      → serialized_size (candidate isoformat pack item) ≤ budget
      → (recount (candidate isoformat pack item)).byte_count ≤ budget
      → Outcome (suc i) (candidate isoformat pack item) items r
      → Outcome i pack (item ∷ items) (keep item r)
  unfolding keep
  keep-Outcome i pack item items (built p l o) fits small (inl same) = inr (rw same small)
  keep-Outcome i pack item items (built p l o) fits small (inr h) = inr h
  keep-Outcome i pack item items (refused e) fits small h = (h.0, after_taken fits h.1)

  omit-Outcome :
      (i : ℕ) (pack : ContextPack) (item : MemoryItem) (items : List MemoryItem) (r : Built)
      → required ≤ i
      → Outcome (suc i) pack items r
      → Outcome i pack (item ∷ items) (omit r)
  unfolding omit
  omit-Outcome i pack item items (built p l o) spare h = h
  omit-Outcome i pack item items (refused e) spare h =
      absurd (omega (arith, spare, Overrun-required h.1))

  collect-Outcome :
      (i : ℕ) (pack : ContextPack) (items : List MemoryItem)
      → IsLow pack
      → Outcome i pack items (collect isoformat budget required i pack items)
  unfolding collect
  collect-Outcome i pack [] low = inl refl
  collect-Outcome i pack (item ∷ items) low =
      let next = candidate isoformat pack item in
      let exact : next.byte_count ≡ serialized_size next =
        candidate_exact isoformat pack item low in
      elim (Bool-cases (ltb budget (candidate isoformat pack item).byte_count)) [
        | inl over ↦ elim (Bool-cases (ltb i required)) [
          | inl wanted ↦
              rw (over, wanted, collect)
                (refl, too_large (ltb→lt i required wanted) (omega (arith, exact, ltb→lt _ _ over)))
          | inr spare ↦
              rw (over, spare, collect)
                (omit-Outcome i pack item items _ (ltb→le i required spare)
                  (collect-Outcome (suc i) pack items low))
        ]
        | inr fits ↦
            rw (fits, collect)
              (keep-Outcome i pack item items _ (omega (arith, exact, ltb→le _ _ fits))
                (omega (arith, recount_fixed next exact, ltb→le _ _ fits))
                (collect-Outcome (suc i) next items (omega (arith, exact))))
      ]

  -- A required item that is too large ends the loop.
  collect-Overrun :
      {i : ℕ} {pack : ContextPack} {items : List MemoryItem}
      → IsLow pack
      → Overrun isoformat budget required i pack items
      → collect isoformat budget required i pack items ≡ refused budget_exhausted
  unfolding collect keep
  collect-Overrun low (too_large {pack = pack} {item = item} wanted over) =
      ground (arith, candidate_exact isoformat pack item low)
  collect-Overrun low (after_taken {pack = pack} {item = item} fits rest) =
      let next = candidate isoformat pack item in
      let exact : next.byte_count ≡ serialized_size next =
        candidate_exact isoformat pack item low in
      let ended = collect-Overrun (omega (arith, exact)) rest in ground (arith, exact, ended)

  -- Why there is an error.
  abbrev pub Reason : List MemoryItem → ContextError → Type 0
  Reason items value_error = length items < required
  Reason items budget_exhausted =
      (required ≤ length items) × Overrun isoformat budget required 0 empty_pack items
  Reason items budget_too_small =
      (required ≤ length items) × (budget < serialized_size (recount empty_pack))

  too_small :
      (p : ContextPack)
      → p ≡ empty_pack
      → ltb budget (recount p).byte_count ≡ true
      → budget < serialized_size (recount empty_pack)
  too_small p same over =
      let exact = recount_exact empty_pack empty_pack-IsLow in
      let large : budget < (recount empty_pack).byte_count = rw same at (ltb→lt _ _ over) in
      omega (arith, exact, large)

  finish-Reason :
      (items : List MemoryItem) (r : Built) (e : ContextError)
      → required ≤ length items
      → Outcome 0 empty_pack items r
      → finish budget r ≡ refused e
      → Reason items e
  unfolding finish
  finish-Reason items (refused x) value_error prefix h q = absurd (cc (h.0, q))
  finish-Reason items (refused x) budget_exhausted prefix h q = (prefix, h.1)
  finish-Reason items (refused x) budget_too_small prefix h q = absurd (cc (h.0, q))
  finish-Reason items (built p l o) value_error prefix h q = absurd (ground arith)
  finish-Reason items (built p l o) budget_exhausted prefix h q = absurd (ground arith)
  finish-Reason items (built p l o) budget_too_small prefix (inl same) q =
      (prefix, too_small p same (ground arith))
  finish-Reason items (built p l o) budget_too_small prefix (inr small) q = absurd (ground arith)

  refused_short :
      (items : List MemoryItem) (e : ContextError)
      → length items < required
      → refused value_error ≡ refused e
      → Reason items e
  refused_short items value_error short q = short
  refused_short items budget_exhausted short q = absurd (cc q)
  refused_short items budget_too_small short q = absurd (cc q)

  -- When build_context refuses: with value_error exactly if more items are required than there are;
  -- with budget_exhausted exactly if there are enough and some required item does not fit the budget
  -- after the required ones before it, the pack being measured as it is serialized; with
  -- budget_too_small only if there are enough and not even the pack without items fits the budget.
  pub build_context-refused :
      (items : List MemoryItem)
      → ((e : ContextError)
          → build_context isoformat items budget required ≡ refused e
          → Reason items e)
        × (length items < required
            → build_context isoformat items budget required ≡ refused value_error)
        × (required ≤ length items
            → Overrun isoformat budget required 0 empty_pack items
            → build_context isoformat items budget required ≡ refused budget_exhausted)
  unfolding build_context finish
  build_context-refused items = (
    λ e q. elim (Bool-cases (leb required (length items))) [
      | inl prefix ↦
          finish-Reason items _ e (leb→le required (length items) prefix)
            (collect-Outcome 0 empty_pack items empty_pack-IsLow) (rw prefix at q)
      | inr short ↦ refused_short items e (not_leb→lt required (length items) short) (rw short at q)
    ],
    λ short. rw (lt→not_leb (length items) required short) refl,
    λ prefix over.
        rw (le→leb required (length items) prefix, collect-Overrun empty_pack-IsLow over) refl,
  )
