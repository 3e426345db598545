-- ===== src/Context/Kept.antt =====
-- Which items build_context takes.
use mathlib.Core.List.{Sublistᴰ}
use pg_agmemory.Prelude.{
  ℕ, zero, suc, ◌+◌, ◌≤◌, ◌<◌, ◌≡◌, refl, ap, List, [], ◌∷◌, Bool, true, false, length, take, arith,
}
use pg_agmemory.Text.{Text}
use pg_agmemory.Context.{MemoryItem, ContextPack, serialized_size, candidate}

-- Of the items from position `index` on, one after the other: an item is taken if the pack with its
-- line keeps to the budget when it is serialized; it is left out if it does not, which no required
-- item may be.
pub data Kept (isoformat : ℕ → Text) (budget required : ℕ)
    : ℕ → ContextPack → List MemoryItem → List MemoryItem → Bool → Type 0 where
  none_left : {i : ℕ} {pack : ContextPack} → Kept isoformat budget required i pack [] [] false
  taken :
      {i : ℕ} {pack : ContextPack} {item : MemoryItem} {items selected : List MemoryItem}
      {omitted : Bool}
      → serialized_size (candidate isoformat pack item) ≤ budget
      → Kept isoformat budget required
          (suc i)
          (candidate isoformat pack item)
          items
          selected
          omitted
      → Kept isoformat budget required i pack (item ∷ items) (item ∷ selected) omitted
  left_out :
      {i : ℕ} {pack : ContextPack} {item : MemoryItem} {items selected : List MemoryItem}
      {omitted : Bool}
      → budget < serialized_size (candidate isoformat pack item)
      → required ≤ i
      → Kept isoformat budget required (suc i) pack items selected omitted
      → Kept isoformat budget required i pack (item ∷ items) selected true

module _ {f : ℕ → Text} {b r : ℕ} where
  Kept-length :
      {i : ℕ} {p : ContextPack} {items selected : List MemoryItem} {o : Bool}
      → Kept f b r i p items selected o
      → length selected ≤ length items
  Kept-length none_left = omega arith
  Kept-length (taken h k) = omega (arith, Kept-length k)
  Kept-length (left_out h g k) = omega (arith, Kept-length k)

  pub Kept-sublist :
      {i : ℕ} {p : ContextPack} {items selected : List MemoryItem} {o : Bool}
      → Kept f b r i p items selected o
      → Sublistᴰ selected items
  Kept-sublist none_left = Sublistᴰ.slnil
  Kept-sublist (taken h k) = Sublistᴰ.cons-cons refl (Kept-sublist k)
  Kept-sublist (left_out h g k) = Sublistᴰ.cons (Kept-sublist k)

  pub Kept-all :
      {i : ℕ} {p : ContextPack} {items selected : List MemoryItem} {o : Bool}
      → Kept f b r i p items selected o
      → o ≡ false
      → selected ≡ items
  Kept-all none_left e = refl
  Kept-all (taken {item = x} h k) e = ap (λ l. x ∷ l) (Kept-all k e)
  Kept-all (left_out h g k) e = cc

  pub Kept-fewer :
      {i : ℕ} {p : ContextPack} {items selected : List MemoryItem} {o : Bool}
      → Kept f b r i p items selected o
      → o ≡ true
      → length selected < length items
  Kept-fewer none_left e = cc
  Kept-fewer (taken h k) e = omega (arith, Kept-fewer k e)
  Kept-fewer (left_out h g k) e = omega (arith, Kept-length k)

  -- `n` required items are still to come from position `i`.
  pub Kept-take :
      (i n : ℕ) {p : ContextPack} {items selected : List MemoryItem} {o : Bool}
      → Kept f b r i p items selected o
      → i + n ≡ r
      → take n selected ≡ take n items
  Kept-take i zero k e = refl
  Kept-take i (suc n) none_left e = refl
  Kept-take i (suc n) (taken {item = x} h k) e =
      ap (λ l. x ∷ l) (Kept-take (suc i) n k (omega arith))
  Kept-take i (suc n) (left_out h g k) e = absurd (omega arith)
