-- ===== src/Text/Decimal.antt =====
-- str(n) of a Python int that is not negative.
use pg_agmemory.Prelude.{
  ℕ, zero, suc, ◌+◌, ◌*◌, ◌/◌, ◌%◌, ◌-◌, ◌<◌, ◌≤◌, List, [], ◌∷◌, ◌++◌, ltb, if◌then◌else◌, arith,
  length, length-append, ◌≡◌, refl, inl, inr, Bool-cases, ltb→lt, ltb→le,
}
use native.Mathlib.Decide.{dec_le}
use native.Mathlib.Nat.{add-zero, add-suc, le_refl}

-- With fuel above `n` the loop ends by its test.
unfoldable pub digits : ℕ → ℕ → List ℕ
digits zero n = []
digits (suc fuel) n =
    let rest = digits fuel (n / 10) in
    if ltb n 10 then (48 + n) ∷ [] else rest ++ (48 + n % 10) ∷ []

unfoldable pub decimal : ℕ → List ℕ
unfolding digits
decimal n = digits (suc n) n

-- 10 ^ k
abbrev pub pow10 : ℕ → ℕ
pow10 zero = 1
pow10 (suc k) = 10 * pow10 k

-- `w` is the number of decimal digits of `n`.
pub record IsWidth (n w : ℕ) : Type 0 where
  pub positive : 1 ≤ w
  pub above : n < pow10 w
  pub below : 2 ≤ w → pow10 w ≤ 10 * n

IsWidth-suc : (n w : ℕ) → 10 ≤ n → IsWidth (n / 10) w → IsWidth n (suc w)
IsWidth-suc n zero h k = absurd (omega arith)
IsWidth-suc n (suc zero) h k = omega arith
IsWidth-suc n (suc (suc w)) h k =
    let p : pow10 (suc (suc w)) ≤ 10 * (n / 10) = k.below (omega arith) in
    record { positive = omega arith; above = omega (arith, k.above); below = λ _. omega (arith, p) }

length-snoc : (xs : List ℕ) (x : ℕ) → length (xs ++ x ∷ []) ≡ suc (length xs)
length-snoc xs x = omega (arith, length-append xs (x ∷ []))

IsWidth-digits : (fuel n : ℕ) → n < fuel → IsWidth n (length (digits fuel n))
unfolding digits
IsWidth-digits zero n h = absurd (omega arith)
IsWidth-digits (suc fuel) n h = elim (Bool-cases (ltb n 10)) [
  | inl small ↦ rw small (record {
    positive = omega arith;
    above = omega (arith, ltb→lt n 10 small);
    below = λ k. absurd (omega arith);
  })
  | inr large ↦
      let big : 10 ≤ n = ltb→le n 10 large in
      rw large (rw length-snoc (IsWidth-suc n _ big (IsWidth-digits fuel (n / 10) (omega arith))))
]

pub IsWidth-decimal : (n : ℕ) → IsWidth n (length (decimal n))
unfolding decimal
IsWidth-decimal n = IsWidth-digits (suc n) n (omega arith)

decimal_test : decimal 1203 ≡ 49 ∷ 50 ∷ 48 ∷ 51 ∷ []
unfolding decimal
decimal_test = refl

pow10_mono : (a d : ℕ) → pow10 a ≤ pow10 (a + d)
pow10_mono a zero = rw add-zero (le_refl _)
pow10_mono a (suc d) = rw add-suc (omega (arith, pow10_mono a d))

pub lt-pow10 : (w : ℕ) → w < pow10 w
lt-pow10 zero = omega arith
lt-pow10 (suc w) = omega (arith, lt-pow10 w)

pow10_le : (a b : ℕ) → a ≤ b → pow10 a ≤ pow10 b
pow10_le a b h = let e : b ≡ a + (b - a) = omega arith in rw e (pow10_mono a (b - a))

-- A number below 10 ^ k has at most `k` digits.
pub width_le : (n w k : ℕ) → IsWidth n w → 1 ≤ k → n < pow10 k → w ≤ k
width_le n w zero h p lt = absurd (omega arith)
width_le n w (suc k) h p lt = elim (dec_le w (suc k)) [
  | yes le ↦ le
  | no nle ↦
      let q : pow10 (suc (suc k)) ≤ pow10 w = pow10_le (suc (suc k)) w (omega arith) in
      absurd (omega (arith, q, h.below (omega arith)))
]

pub IsWidth-mono : (m n v w : ℕ) → IsWidth m v → IsWidth n w → m ≤ n → v ≤ w
IsWidth-mono m n v w hm hn le = width_le m v w hm hn.positive (omega (arith, hn.above))
