-- ===== src/Text/Ascii.antt =====
-- A decimal count is ASCII: its bytes are its digits.
use pg_agmemory.Prelude.{
  ℕ, zero, suc, ◌/◌, ◌<◌, ◌≡◌, refl, [], ◌∷◌, ltb, ltb→lt, Bool-cases, inl, inr, All, All-append,
  length, length-append, arith,
}
use pg_agmemory.Text.Decimal.{digits, decimal}
use pg_agmemory.Text.Json.{Text, encode, utf8_char}

abbrev IsAscii : Text → Type 0
IsAscii = All (λ c. c < 128)

digits-IsAscii : (fuel n : ℕ) → IsAscii (digits fuel n)
unfolding digits
digits-IsAscii zero n = tt
digits-IsAscii (suc fuel) n = elim (Bool-cases (ltb n 10)) [
  | inl small ↦ rw small (omega (arith, ltb→lt n 10 small), tt)
  | inr large ↦
      rw large (All-append (λ c. c < 128) _ _ (digits-IsAscii fuel (n / 10)) (omega arith, tt))
]

length-utf8_char : (c : ℕ) → c < 128 → length (utf8_char c) ≡ 1
unfolding utf8_char
length-utf8_char c h = ground arith

length-encode : (t : Text) → IsAscii t → length (encode t) ≡ length t
unfolding encode
length-encode [] h = refl
length-encode (c ∷ t) h =
    omega
      (arith, length-append (utf8_char c) (encode t), length-utf8_char c h.0, length-encode t h.1)

pub encode-decimal : (n : ℕ) → length (encode (decimal n)) ≡ length (decimal n)
unfolding decimal
encode-decimal n = length-encode (decimal n) (digits-IsAscii (suc n) n)
