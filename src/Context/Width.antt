-- ===== src/Context/Width.antt =====
-- The number of bytes of a decimal count, and why four rounds of recounting are enough.
use pg_agmemory.Prelude.{ℕ, suc, ◌+◌, ◌≤◌, ◌≡◌, ap, length, arith}
use native.Mathlib.Decide.{dec_le}
use pg_agmemory.Text.{
  decimal, encode, IsWidth, IsWidth-decimal, width_le, IsWidth-mono, lt-pow10, encode-decimal,
}

-- The bytes that the count `n` takes in the serialized pack.
unfoldable pub width : ℕ → ℕ
width n = length (encode (decimal n))

IsWidth-width : (n : ℕ) → IsWidth n (width n)
unfolding width
IsWidth-width n = rw encode-decimal (IsWidth-decimal n)

pub width_mono : (m n : ℕ) → m ≤ n → width m ≤ width n
width_mono m n h = IsWidth-mono m n _ _ (IsWidth-width m) (IsWidth-width n) h

-- One recount of a count that was too small adds at most one digit the next time.
grows_once : (n m : ℕ) → m ≤ n + width n → width m ≤ suc (width n)
grows_once n m h =
    width_le m _ (suc (width n)) (IsWidth-width m) (omega arith)
      (omega (arith, (IsWidth-width n).above, lt-pow10 (width n)))

module _ (b : ℕ) where
  abbrev pub round : ℕ → ℕ
  round n = b + width n

  -- From any count that is not too large, the third recount is the last that changes it.
  pub round_exact :
      (n : ℕ) → n ≤ round n → round (round (round (round n))) ≡ round (round (round n))
  round_exact n h =
      let n1 = round n in
      let n2 = round n1 in
      let n3 = round n2 in
      let w01 : width n ≤ width n1 = width_mono n n1 h in
      let w12 : width n1 ≤ width n2 = width_mono n1 n2 (omega (arith, w01)) in
      let w23 : width n2 ≤ width n3 = width_mono n2 n3 (omega (arith, w12)) in
      let pos : 1 ≤ width n = (IsWidth-width n).positive in
      let w2 : width n2 ≤ suc (width n1) = grows_once n1 n2 (omega arith) in
      let w3 : width n3 ≤ suc (width n1) = grows_once n1 n3 (omega (arith, pos, w2)) in
      elim (dec_le (width n2) (width n1)) [
        | yes le ↦ let e : n3 ≡ n2 = omega (arith, le, w12) in omega (arith, ap width e)
        | no nle ↦ omega (arith, nle, w2, w3, w23)
      ]
