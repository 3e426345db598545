-- ===== src/Access/Members.antt =====
-- Writing one member's row, and reading rows afterwards.
use pg_agmemory.Prelude.{
  ℕ, ◌≡◌, refl, Bool, true, false, not, ◌&&◌, Bool-cases, Option, none, some, inl, inr, List, [],
  ◌∷◌, any, find, select, update, ◌==◌, if◌then◌else◌, arith,
}
use pg_agmemory.Store.Tables.{Permission, read, write, delete, admin, Member}
use pg_agmemory.Store.Visibility.{has_permission}
use pg_agmemory.Access.{Grant, is_member, grant_of, in_order, write_member, permissions_eq, time_eq}

find_updated :
    (i j : ℕ) (row : Member) (l : List Member)
    → is_member i j row ≡ true
    → any (is_member i j) l ≡ true
    → find (is_member i j) (update (is_member i j) (λ _. row) l) ≡ some row
find_updated i j row [] e h = cc
find_updated i j row (m ∷ l) e h = ground (arith, find_updated i j row l e)

find_deleted :
    (i j : ℕ) (l : List Member)
    → find (is_member i j) (select (λ (m : Member). not (is_member i j m)) l) ≡ none
find_deleted i j [] = refl
find_deleted i j (m ∷ l) = ground (arith, find_deleted i j l)

pub both_self : (i j : ℕ) → (i == i && j == j) ≡ true
both_self i j = ground arith

-- What is read of a row after it was written.
pub find-write_member :
    (i j : ℕ) (g : Option Grant) (l : List Member)
    → grant_of (find (is_member i j) (write_member i j g l)) ≡ g
unfolding write_member
find-write_member i j none l = rw (find_deleted i j l) refl
find-write_member i j (some g) l = elim (Bool-cases (any (is_member i j) l)) [
  | inl there ↦
      rw
        (
          there,
          find_updated i j
              (record {
                scope_id = i;
                principal_id = j;
                permissions = g.permissions;
                expires_at = g.expires_at;
              })
              l (both_self i j) there,
        )
        refl
  | inr new ↦ rw (new, both_self i j) refl
]

pub permissions_eq→eq : (ps qs : List Permission) → permissions_eq ps qs ≡ true → ps ≡ qs
unfolding permissions_eq
permissions_eq→eq [] [] h = refl
permissions_eq→eq [] (q ∷ qs) h = cc
permissions_eq→eq (p ∷ ps) [] h = cc
permissions_eq→eq (p ∷ ps) (q ∷ qs) h = ground (arith, permissions_eq→eq ps qs)

pub time_eq→eq : (a b : Option ℕ) → time_eq a b ≡ true → a ≡ b
unfolding time_eq
time_eq→eq none none h = refl
time_eq→eq none (some b) h = cc
time_eq→eq (some a) none h = cc
time_eq→eq (some a) (some b) h = ground arith

abbrev chosen : Bool → Bool → Bool → Bool → List Permission
chosen a b c d =
    let last = if d then admin ∷ [] else [] in
    let third = if c then delete ∷ last else last in
    let second = if b then write ∷ third else third in if a then read ∷ second else second

in_order-chosen : (a b c d : Bool) → in_order (chosen a b c d) ≡ chosen a b c d
in_order-chosen true true c d = ground arith
in_order-chosen true false c d = ground arith
in_order-chosen false true c d = ground arith
in_order-chosen false false c d = ground arith

-- Putting permissions in order twice is putting them in order.
pub in_order-in_order : (ps : List Permission) → in_order (in_order ps) ≡ in_order ps
in_order-in_order ps =
    in_order-chosen (has_permission read ps) (has_permission write ps) (has_permission delete ps)
      (has_permission admin ps)
