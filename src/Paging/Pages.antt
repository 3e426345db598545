-- ===== src/Paging/Pages.antt =====
-- The pages of a listing are the listing.
use pg_agmemory.Prelude.{
  ℕ, zero, suc, ◌≤◌, ◌≡◌, refl, ap, ◌∙◌, true, false, Bool-cases, Option, none, some, inl, inr,
  List, [], ◌∷◌, ◌++◌, select, take, length, ltb, arith,
}
use mathlib.Core.Path.{subst}
use pg_agmemory.Paging.{Cursor, cursor_before, continues, newer, last_of, page_of}

-- Every row is newer than those after it.
abbrev pub IsNewestFirst : List Cursor → Type 0
IsNewestFirst [] = Unit
IsNewestFirst (r ∷ []) = Unit
IsNewestFirst (r ∷ q ∷ l) = (newer r q ≡ true) × IsNewestFirst (q ∷ l)

newer_trans : (a b c : Cursor) → newer a b ≡ true → newer b c ≡ true → newer a c ≡ true
newer_trans a b c h k = ground arith

newer_not : (a b : Cursor) → newer a b ≡ true → cursor_before a b ≡ false
newer_not a b h = ground arith

not_before_self : (a : Cursor) → cursor_before a a ≡ false
not_before_self a = ground arith

-- All rows after `c`, which stands before them, are before it.
select_all :
    (c : Cursor) (l : List Cursor) → IsNewestFirst (c ∷ l) → select (continues (some c)) l ≡ l
select_all c [] h = refl
select_all c (r ∷ []) (h, k) = rw h refl
select_all c (r ∷ q ∷ l) (h, (g, k)) = rw (h, select_all c (q ∷ l) (newer_trans c r q h g, k)) refl

-- A row is newer than the last of some that follow it.
newer-last :
    (n : ℕ) (r q : Cursor) (l : List Cursor) (c : Cursor)
    → IsNewestFirst (r ∷ q ∷ l)
    → last_of (take (suc n) (q ∷ l)) ≡ some c
    → newer r c ≡ true
newer-last zero r q l c (h, k) e = let same : q ≡ c = cc e in rw⁻¹ same h
newer-last (suc n) r q [] c (h, k) e = let same : q ≡ c = cc e in rw⁻¹ same h
newer-last (suc n) r q (p ∷ l) c (h, (g, k)) e = newer-last n r p l c (newer_trans r q p h g, k) e

-- The rows after the first `n` are those before the last of them.
rest_of :
    (n : ℕ) (r : Cursor) (l : List Cursor) (c : Cursor)
    → IsNewestFirst (r ∷ l)
    → last_of (take (suc n) (r ∷ l)) ≡ some c
    → take (suc n) (r ∷ l) ++ select (continues (some c)) (r ∷ l) ≡ r ∷ l
rest_of zero r l c h e =
    let same : r ≡ c = cc e in
    subst (λ d. r ∷ select (continues (some d)) (r ∷ l) ≡ r ∷ l) same
      (rw (not_before_self r, select_all r l h) refl)
rest_of (suc n) r [] c h e = let same : r ≡ c = cc e in rw⁻¹ same (rw (not_before_self r) refl)
rest_of (suc n) r (q ∷ l) c (h, k) e =
    rw (newer_not r c (newer-last n r q l c (h, k) e)) (ap (λ t. r ∷ t) (rest_of n q l c k e))

take-take : {A : Type 0} (n : ℕ) (l : List A) → take n (take (suc n) l) ≡ take n l
take-take zero l = refl
take-take (suc n) [] = refl
take-take (suc n) (x ∷ l) = ap (λ t. x ∷ t) (take-take n l)

take_short : {A : Type 0} (n : ℕ) (l : List A) → length (take (suc n) l) ≤ n → take n l ≡ l
take_short zero [] h = refl
take_short zero (x ∷ l) h = absurd (omega (arith, h))
take_short (suc n) [] h = refl
take_short (suc n) (x ∷ l) h = ap (λ t. x ∷ t) (take_short n l (omega (arith, h)))

length-take_le : {A : Type 0} (n : ℕ) (l : List A) → length (take n l) ≤ n
length-take_le zero l = omega arith
length-take_le (suc n) [] = omega arith
length-take_le (suc n) (x ∷ l) = omega (arith, length-take_le n l)

last_some : (r : Cursor) (l : List Cursor) → last_of (r ∷ l) ≡ none → ⊥
last_some r [] h = cc
last_some r (q ∷ l) h = last_some q l h

-- The rows that are read after a page with this next cursor: none without a cursor.
abbrev pub rows_after : Option Cursor → List Cursor → List Cursor
rows_after none rows = []
rows_after (some c) rows = select (continues (some c)) rows

++_nil : {A : Type 0} (l : List A) → l ++ [] ≡ l
++_nil [] = refl
++_nil (x ∷ l) = ap (λ t. x ∷ t) (++_nil l)

rest_after :
    (n : ℕ) (r : Cursor) (l : List Cursor)
    → IsNewestFirst (r ∷ l)
    → (last : Option Cursor) → last_of (take (suc n) (r ∷ l)) ≡ last
    → take (suc n) (r ∷ l) ++ rows_after last (r ∷ l) ≡ r ∷ l
rest_after n r l h none e = absurd (last_some r (take n l) e)
rest_after n r l h (some c) e = rest_of n r l c h e

-- A page of a listing, the newest first without ties, for at least one row: it has at most that many
-- rows; and the page followed by the rows that its next cursor selects, none if it has no next
-- cursor, is the whole listing, so that no row is lost or shown twice.
pub page_of-select :
    (n : ℕ) (rows : List Cursor)
    → IsNewestFirst rows
    → let page = page_of (suc n) rows in
      (length page.rows ≤ suc n) × (page.rows ++ rows_after page.next_cursor rows ≡ rows)
unfolding page_of
page_of-select n [] h =
    let short : ltb (suc n) 0 ≡ false = ground arith in (omega arith, rw short refl)
page_of-select n (r ∷ l) h = elim (Bool-cases (ltb (suc n) (length (take (suc (suc n)) (r ∷ l))))) [
  | inl more ↦ rw (more, take-take n l) (length-take_le (suc n) (r ∷ l), rest_after n r l h _ refl)
  | inr all ↦
      rw (all, take-take n l)
        (
          length-take_le (suc n) (r ∷ l),
          ++_nil (take (suc n) (r ∷ l)) ∙ take_short (suc n) (r ∷ l) (ground (arith, all)),
        )
]
