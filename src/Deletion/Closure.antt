-- ===== src/Deletion/Closure.antt =====
-- The recursive query `closure` of MemoryService.forget, src/pg_agmemory/service.py: the least set of
-- objects with the requested ones and, for each edge, the child of a parent.
use pg_agmemory.Prelude.{
  ℕ, zero, suc, ◌≤◌, ◌<◌, ◌≡◌, refl, Bool, true, false, not, ◌&&◌, ◌||◌, List, [], ◌∷◌, any, length,
  All, ◌==◌, Bool-cases, inl, inr, if◌then◌else◌, arith,
}

-- A parent and a child.
abbrev pub Edge : Type 0
Edge = ℕ × ℕ

abbrev pub member : List ℕ → ℕ → Bool
member l id = any (λ x. x == id) l

-- One pass over the edges: the children that are not there yet are added.
unfoldable pub pass : List Edge → List ℕ → List ℕ
pass [] seen = seen
pass ((parent, child) ∷ edges) seen =
    pass edges (if member seen parent && not (member seen child) then child ∷ seen else seen)

unfoldable pub repeat : ℕ → List Edge → List ℕ → List ℕ
unfolding pass
repeat zero edges seen = seen
repeat (suc n) edges seen = repeat n edges (pass edges seen)

-- UNION drops the repeated ids of the request.
unfoldable pub distinct_ids : List ℕ → List ℕ
distinct_ids [] = []
distinct_ids (x ∷ xs) = let rest = distinct_ids xs in if member rest x then rest else x ∷ rest

-- As many passes as there are edges are enough, for each that adds nothing is the last one.
unfoldable pub closure : List Edge → List ℕ → List ℕ
unfolding repeat distinct_ids
closure edges roots = repeat (length edges) edges (distinct_ids roots)

-- An object is derived from the requested ones.
pub data Derived (edges : List Edge) (roots : List ℕ) : ℕ → Type 0 where
  asked_for : (id : ℕ) → member roots id ≡ true → Derived edges roots id
  by_edge :
      (parent child : ℕ)
      → Derived edges roots parent
      → any (λ (e : Edge). e.0 == parent && e.1 == child) edges ≡ true
      → Derived edges roots child

-- Nothing is left to add.
abbrev pub stuck : List Edge → List ℕ → Bool
stuck [] seen = true
stuck ((parent, child) ∷ edges) seen =
    let rest = stuck edges seen in (not (member seen parent) || member seen child) && rest

-- How many edges still lead outside.
abbrev pub missing : List Edge → List ℕ → ℕ
missing [] seen = 0
missing ((parent, child) ∷ edges) seen =
    let rest = missing edges seen in if member seen child then rest else suc rest

pub pass-stuck :
    (edges : List Edge) (seen : List ℕ) → stuck edges seen ≡ true → pass edges seen ≡ seen
unfolding pass
pass-stuck [] seen h = refl
pass-stuck ((parent, child) ∷ edges) seen h = ground (arith, pass-stuck edges seen)

pub repeat-stuck :
    (n : ℕ) (edges : List Edge) (seen : List ℕ)
    → stuck edges seen ≡ true
    → repeat n edges seen ≡ seen
unfolding repeat
repeat-stuck zero edges seen h = refl
repeat-stuck (suc n) edges seen h = rw (pass-stuck edges seen h) (repeat-stuck n edges seen h)

missing-add :
    (edges : List Edge) (x : ℕ) (seen : List ℕ) → missing edges (x ∷ seen) ≤ missing edges seen
missing-add [] x seen = omega arith
missing-add ((parent, child) ∷ edges) x seen = ground (arith, missing-add edges x seen)

-- An edge leads to the child.
abbrev pub leads_to : List Edge → ℕ → Bool
leads_to edges child = any (λ (e : Edge). e.1 == child) edges

missing-add_lt :
    (edges : List Edge) (x : ℕ) (seen : List ℕ)
    → leads_to edges x ≡ true
    → member seen x ≡ false
    → missing edges (x ∷ seen) < missing edges seen
missing-add_lt [] x seen there new = cc
missing-add_lt ((parent, child) ∷ edges) x seen there new = elim (Bool-cases (child == x)) [
  | inl same ↦ ground (arith, missing-add edges x seen)
  | inr other ↦ ground (arith, missing-add_lt edges x seen)
]

missing-pass :
    (all edges : List Edge) (seen : List ℕ) → missing all (pass edges seen) ≤ missing all seen
unfolding pass
missing-pass all [] seen = omega arith
missing-pass all ((parent, child) ∷ edges) seen =
    elim (Bool-cases (member seen parent && not (member seen child))) [
      | inl new ↦
          rw new (omega (arith, missing-pass all edges (child ∷ seen), missing-add all child seen))
      | inr old ↦ rw old (missing-pass all edges seen)
    ]

-- A pass that adds something makes fewer edges lead outside.
pub missing-pass_lt :
    (all edges : List Edge) (seen : List ℕ)
    → All (λ (e : Edge). leads_to all e.1 ≡ true) edges
    → stuck edges seen ≡ false
    → missing all (pass edges seen) < missing all seen
unfolding pass
missing-pass_lt all [] seen known h = cc
missing-pass_lt all ((parent, child) ∷ edges) seen (this, known) h =
    elim (Bool-cases (member seen parent && not (member seen child))) [
      | inl new ↦
          let fresh : member seen child ≡ false = ground arith in
          rw new (
            omega (
              arith,
              missing-pass all edges (child ∷ seen),
              missing-add_lt all child seen this fresh,
            ))
      | inr old ↦ rw old (missing-pass_lt all edges seen known (ground arith))
    ]
