-- ===== src/Deletion/Complete.antt =====
-- The closure is the set of derived objects.
use pg_agmemory.Prelude.{
  ℕ, zero, suc, ◌≤◌, ◌≡◌, ◌↔◌, refl, sym, Bool, true, not, ◌&&◌, List, [], ◌∷◌, any, length, All,
  ◌==◌, ==_self, ==→eq, Bool-cases, inl, inr, arith,
}
use mathlib.Core.Path.{subst}
use pg_agmemory.Deletion.Closure.{
  Edge, member, pass, repeat, distinct_ids, closure, Derived, asked_for, by_edge, stuck, missing,
  leads_to, pass-stuck, repeat-stuck, missing-pass_lt,
}

missing-le : (edges : List Edge) (seen : List ℕ) → missing edges seen ≤ length edges
missing-le [] seen = omega arith
missing-le ((parent, child) ∷ edges) seen = ground (arith, missing-le edges seen)

missing-stuck :
    (edges : List Edge) (seen : List ℕ) → missing edges seen ≡ 0 → stuck edges seen ≡ true
missing-stuck [] seen h = refl
missing-stuck ((parent, child) ∷ edges) seen h = ground (arith, missing-stuck edges seen)

module _ {P : Edge → Type 0} where
  All-weaken : {Q : Edge → Type 0} → ((e : Edge) → P e → Q e) → (l : List Edge) → All P l → All Q l
  All-weaken f [] h = tt
  All-weaken f (e ∷ l) (p, h) = (f e p, All-weaken f l h)

leads_to-All : (edges : List Edge) → All (λ (e : Edge). leads_to edges e.1 ≡ true) edges
leads_to-All [] = tt
leads_to-All ((parent, child) ∷ edges) =
    (rw (==_self child) refl, All-weaken (λ e h. ground (arith)) edges (leads_to-All edges))

-- An edge is in the list.
abbrev edge_in : List Edge → ℕ → ℕ → Bool
edge_in edges parent child = any (λ (e : Edge). e.0 == parent && e.1 == child) edges

edges_in-All : (edges : List Edge) → All (λ (e : Edge). edge_in edges e.0 e.1 ≡ true) edges
edges_in-All [] = tt
edges_in-All ((parent, child) ∷ edges) = (
  rw (==_self parent, ==_self child) refl,
  All-weaken (λ e h. ground (arith)) edges (edges_in-All edges),
)

-- Enough passes leave nothing to add.
repeat-ends :
    (n : ℕ) (edges : List Edge) (seen : List ℕ)
    → missing edges seen ≤ n
    → stuck edges (repeat n edges seen) ≡ true
unfolding repeat
repeat-ends zero edges seen h = missing-stuck edges seen (omega arith)
repeat-ends (suc n) edges seen h = elim (Bool-cases (stuck edges seen)) [
  | inl done ↦
      subst (λ (l : List ℕ). stuck edges l ≡ true) (sym (repeat-stuck (suc n) edges seen done)) done
  | inr more ↦
      repeat-ends n edges (pass edges seen)
        (omega (arith, missing-pass_lt edges edges seen (leads_to-All edges) more))
]

member-pass :
    (edges : List Edge) (seen : List ℕ) (x : ℕ)
    → member seen x ≡ true
    → member (pass edges seen) x ≡ true
unfolding pass
member-pass [] seen x h = h
member-pass ((parent, child) ∷ edges) seen x h =
    elim (Bool-cases (member seen parent && not (member seen child))) [
      | inl new ↦ rw new (member-pass edges (child ∷ seen) x (ground arith))
      | inr old ↦ rw old (member-pass edges seen x h)
    ]

member-repeat :
    (n : ℕ) (edges : List Edge) (seen : List ℕ) (x : ℕ)
    → member seen x ≡ true
    → member (repeat n edges seen) x ≡ true
unfolding repeat
member-repeat zero edges seen x h = h
member-repeat (suc n) edges seen x h =
    member-repeat n edges (pass edges seen) x (member-pass edges seen x h)

member_same : (l : List ℕ) (x y : ℕ) → x ≡ y → member l x ≡ member l y
member_same l x y e = subst (λ z. member l x ≡ member l z) e refl

member-distinct_ids : (l : List ℕ) (x : ℕ) → member (distinct_ids l) x ≡ member l x
unfolding distinct_ids
member-distinct_ids [] x = refl
member-distinct_ids (y ∷ l) x = elim (Bool-cases (member (distinct_ids l) y)) [
  | inl there ↦ elim (Bool-cases (y == x)) [
    | inl same ↦
        rw (there, same) (subst (λ z. member (distinct_ids l) z ≡ true) (==→eq y x same) there)
    | inr other ↦ rw (there, other) (member-distinct_ids l x)
  ]
  | inr new ↦ ground (arith, member-distinct_ids l x)
]

-- Where nothing is left to add, the child of a parent that is there is there.
stuck-edge :
    (edges : List Edge) (seen : List ℕ) (parent child : ℕ)
    → stuck edges seen ≡ true
    → edge_in edges parent child ≡ true
    → member seen parent ≡ true
    → member seen child ≡ true
stuck-edge [] seen parent child h e m = cc
stuck-edge ((p, c) ∷ edges) seen parent child h e m =
    elim (Bool-cases (p == parent && c == child)) [
      | inl here ↦
          let p_same : p ≡ parent = ground arith in
          let c_same : c ≡ child = ground arith in
          subst (λ z. member seen z ≡ true) c_same
            (let mp : member seen p ≡ true = subst (λ z. member seen z ≡ true) (sym p_same) m in
              ground arith)
      | inr other ↦ stuck-edge edges seen parent child (ground arith) (rw other at e) m
    ]

module _ (edges : List Edge) (roots : List ℕ) where
  complete : (x : ℕ) → Derived edges roots x → member (closure edges roots) x ≡ true
  unfolding closure
  complete x (asked_for _ h) =
      member-repeat (length edges) edges (distinct_ids roots) x (rw (member-distinct_ids roots x) h)
  complete x (by_edge parent _ d e) =
      stuck-edge edges (closure edges roots) parent x
        (repeat-ends (length edges) edges (distinct_ids roots)
          (missing-le edges (distinct_ids roots)))
        e (complete parent d)

  pass_sound :
      (some_edges : List Edge) (seen : List ℕ)
      → All (λ (e : Edge). edge_in edges e.0 e.1 ≡ true) some_edges
      → ((x : ℕ) → member seen x ≡ true → Derived edges roots x)
      → (x : ℕ) → member (pass some_edges seen) x ≡ true
      → Derived edges roots x
  unfolding pass
  pass_sound [] seen known d x h = d x h
  pass_sound ((parent, child) ∷ rest) seen (this, known) d x h =
      elim (Bool-cases (member seen parent && not (member seen child))) [
        | inl new ↦
            pass_sound rest (child ∷ seen) known
              (λ y m. elim (Bool-cases (child == y)) [
                | inl same ↦
                    subst (Derived edges roots) (==→eq child y same)
                      (by_edge parent child (d parent (ground arith)) this)
                | inr other ↦ d y (rw other at m)
              ])
              x (rw new at h)
        | inr old ↦ pass_sound rest seen known d x (rw old at h)
      ]

  repeat_sound :
      (n : ℕ) (seen : List ℕ)
      → ((x : ℕ) → member seen x ≡ true → Derived edges roots x)
      → (x : ℕ) → member (repeat n edges seen) x ≡ true
      → Derived edges roots x
  unfolding repeat
  repeat_sound zero seen d x h = d x h
  repeat_sound (suc n) seen d x h =
      repeat_sound n (pass edges seen) (pass_sound edges seen (edges_in-All edges) d) x h

  -- The objects of the closure are exactly those that are requested or derived, over any number of
  -- edges, from one that is requested.
  pub closure-Derived : (x : ℕ) → (member (closure edges roots) x ≡ true) ↔ Derived edges roots x
  unfolding closure
  closure-Derived x = (
    λ h.
        repeat_sound (length edges) (distinct_ids roots)
          (λ y m. asked_for y (rw (← member-distinct_ids roots y) m)) x h,
    complete x,
  )

  -- The query comes to an end: as many rounds as there are edges leave a set to which one more round
  -- adds nothing.
  pub pass-closure : pass edges (closure edges roots) ≡ closure edges roots
  unfolding closure
  pass-closure = pass-stuck edges (closure edges roots) (
      repeat-ends (length edges) edges (distinct_ids roots) (missing-le edges (distinct_ids roots)))
