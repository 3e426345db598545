-- ===== src/Text/Equality.antt =====
-- Comparing texts, and the test `quote in content`.
use pg_agmemory.Prelude.{Bool, true, false, ◌||◌, [], ◌∷◌, ◌==◌, if◌then◌else◌, ◌≡◌, refl, arith}
use pg_agmemory.Text.Json.{Text}

-- `a == b`, and hmac.compare_digest(a, b)
unfoldable pub text_eq : Text → Text → Bool
text_eq [] [] = true
text_eq (c ∷ s) (d ∷ t) = let rest = text_eq s t in if c == d then rest else false
text_eq _ _ = false

pub text_eq_self : (t : Text) → text_eq t t ≡ true
unfolding text_eq
text_eq_self [] = refl
text_eq_self (c ∷ t) = ground (arith, text_eq_self t)

pub text_eq→eq : (s t : Text) → text_eq s t ≡ true → s ≡ t
unfolding text_eq
text_eq→eq [] [] h = refl
text_eq→eq [] (d ∷ t) h = cc
text_eq→eq (c ∷ s) [] h = cc
text_eq→eq (c ∷ s) (d ∷ t) h = ground (arith, text_eq→eq s t)

unfoldable pub starts_with : Text → Text → Bool
starts_with [] t = true
starts_with (c ∷ s) [] = false
starts_with (c ∷ s) (d ∷ t) = let rest = starts_with s t in if c == d then rest else false

-- `quote in content`
unfoldable pub contains : Text → Text → Bool
unfolding starts_with
contains quote [] = starts_with quote []
contains quote (c ∷ t) = starts_with quote (c ∷ t) || contains quote t
