-- ===== src/Context/ByteCount.antt =====
-- The size that a pack reports: what four recounts leave.
use pg_agmemory.Prelude.{ℕ, ◌+◌, ◌≤◌, ◌≡◌, refl, sym, ap, ◌++◌, length, arith, [], ◌∷◌}
use pg_agmemory.Text.{Text, codes, json_string, encode, encode-append, encode-json_string_le}
use pg_agmemory.Context.{
  ContextPack, MemoryItem, serialized_size, recount, heading, item_line, candidate, empty_pack,
}
use pg_agmemory.Context.Width.{width, round, round_exact}

-- The bytes of everything in the pack but the digits of its count.
abbrev pub base : Text → ℕ
base t =
    length (encode (json_string t))
    + length (encode (codes "{\"format\":\"memory-context-v1\",\"text\":"))
    + length (
        encode (
          codes
            ",\"tokenizer_id\":\"utf8-bytes-v1\",\"token_count\":null,\"budget_unit\":\"utf8_bytes\",\"byte_count\":"))
    + length (encode (codes ",\"exact_token_count\":false}"))

pub serialized_size-eq : (p : ContextPack) → serialized_size p ≡ base p.text + width p.byte_count
unfolding serialized_size width
serialized_size-eq p = simp encode-append (omega arith)

pub recount-text : (p : ContextPack) → (recount p).text ≡ p.text
unfolding recount
recount-text p = refl

-- A pack whose count is not too large reports its exact size after a recount.
pub recount_exact :
    (p : ContextPack)
    → p.byte_count ≤ serialized_size p
    → (recount p).byte_count ≡ serialized_size (recount p)
unfolding recount
recount_exact p h =
    let b = base p.text in
    let le : p.byte_count ≤ round b p.byte_count = rw serialized_size-eq at h in
    simp serialized_size-eq (ap (round b) (sym (round_exact b p.byte_count le)))

-- Recounting an exact pack changes nothing.
pub recount_fixed :
    (p : ContextPack) → p.byte_count ≡ serialized_size p → (recount p).byte_count ≡ p.byte_count
unfolding recount
recount_fixed p h =
    let e : base p.text + width p.byte_count ≡ p.byte_count = rw (← serialized_size-eq p) (sym h) in
    simp serialized_size-eq (simp e)

-- A longer text does not shrink the rest of the pack.
pub base-append : (s t : Text) → base s ≤ base (s ++ t)
base-append s t = omega (arith, encode-json_string_le s t)

base-heading : (s t : Text) → base s ≤ base (heading s ++ t)
unfolding heading
base-heading [] t = base-append [] (heading [] ++ t)
base-heading (c ∷ s) t = base-append (c ∷ s) t

-- A count that the loop carries: zero at the start, exact after every line.
abbrev pub IsLow : ContextPack → Type 0
IsLow p = p.byte_count ≤ serialized_size p

pub empty_pack-IsLow : IsLow empty_pack
empty_pack-IsLow = omega arith

module _ (isoformat : ℕ → Text) where
  pub candidate_exact :
      (p : ContextPack) (item : MemoryItem)
      → IsLow p
      → (candidate isoformat p item).byte_count ≡ serialized_size (candidate isoformat p item)
  unfolding candidate
  candidate_exact p item h = recount_exact _ (
      omega (
        arith,
        h,
        serialized_size-eq p,
        serialized_size-eq (record p { text = heading p.text ++ item_line isoformat item }),
        base-heading p.text (item_line isoformat item),
      ))
