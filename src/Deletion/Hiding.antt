-- ===== src/Deletion/Hiding.antt =====
-- Lists of objects and rows, before and after some are entombed or deleted.
use pg_agmemory.Prelude.{
  ℕ, ◌≡◌, refl, sym, Bool, true, false, not, ◌&&◌, List, [], ◌∷◌, ◌++◌, map, any, select, ◌==◌,
  ==_self, ==→eq, Bool-cases, inl, inr, arith,
}
use mathlib.Core.Path.{subst}
use pg_agmemory.Store.Tables.{Object}
use pg_agmemory.Deletion.Closure.{member}

abbrev pub has {ℓ} : {A : Type ℓ} → (A → ℕ) → List A → ℕ → Bool
has key l id = any (λ a. key a == id) l

pub removed {ℓ} :
    {A : Type ℓ} (key : A → ℕ) (g : ℕ → Bool) (id : ℕ) (l : List A)
    → g id ≡ true
    → has key (select (λ a. not (g (key a))) l) id ≡ false
removed key g id [] h = refl
removed key g id (a ∷ l) h = elim (Bool-cases (key a == id)) [
  | inl same ↦
      let here : g (key a) ≡ true = subst (λ x. g x ≡ true) (sym (==→eq (key a) id same)) h in
      rw here (removed key g id l h)
  | inr other ↦ elim (Bool-cases (g (key a))) [
    | inl dropped ↦ rw dropped (removed key g id l h)
    | inr kept ↦ rw (kept, other) (removed key g id l h)
  ]
]

-- As `removed`, of rows that are deleted only where `q` shows them.
pub removed_shown {ℓ} :
    {A : Type ℓ} (key : A → ℕ) (g : ℕ → Bool) (q : A → Bool) (id : ℕ) (l : List A)
    → g id ≡ true
    → any (λ a. key a == id && q a) (select (λ a. not (g (key a) && q a)) l) ≡ false
removed_shown key g q id [] h = refl
removed_shown key g q id (a ∷ l) h = elim (Bool-cases (key a == id)) [
  | inl same ↦
      let here : g (key a) ≡ true = subst (λ x. g x ≡ true) (sym (==→eq (key a) id same)) h in
      elim (Bool-cases (q a)) [
        | inl shown ↦ rw (here, shown) (removed_shown key g q id l h)
        | inr kept ↦ rw (here, kept, same, kept) (removed_shown key g q id l h)
      ]
  | inr other ↦ elim (Bool-cases (g (key a) && q a)) [
    | inl dropped ↦ rw dropped (removed_shown key g q id l h)
    | inr kept ↦ rw (kept, other) (removed_shown key g q id l h)
  ]
]

pub entombed_all :
    (targets : List ℕ) (p : Object → Bool) (id : ℕ) (l : List Object) (old : List ℕ)
    → member targets id ≡ true
    → any (λ (o : Object). o.id == id && p o) l ≡ true
    → member
        (map (λ (o : Object). o.id) (select (λ (o : Object). member targets o.id && p o) l) ++ old)
        id
      ≡ true
entombed_all targets p id [] old there seen = cc
entombed_all targets p id (o ∷ l) old there seen = elim (Bool-cases (o.id == id && p o)) [
  | inl here ↦
      let same : o.id ≡ id = ground arith in
      let target : member targets o.id ≡ true =
        subst (λ x. member targets x ≡ true) (sym same) there in
      let shown_here : p o ≡ true = ground arith in rw (target, shown_here, same, ==_self id) refl
  | inr other ↦
      let rest = entombed_all targets p id l old there (rw other at seen) in
      elim (Bool-cases (member targets o.id && p o)) [
        | inl hit_here ↦ rw hit_here (ground (arith, rest))
        | inr no_hit ↦ rw no_hit rest
      ]
]

-- What is not a target is in the tombstones only if it was.
pub entombed_none :
    (targets : List ℕ) (p : Object → Bool) (id : ℕ) (l : List Object) (old : List ℕ)
    → member targets id ≡ false
    → member
        (map (λ (o : Object). o.id) (select (λ (o : Object). member targets o.id && p o) l) ++ old)
        id
      ≡ member old id
entombed_none targets p id [] old none_such = refl
entombed_none targets p id (o ∷ l) old none_such = elim (Bool-cases (member targets o.id && p o)) [
  | inl hit_here ↦ elim (Bool-cases (o.id == id)) [
    | inl same ↦
        let target : member targets o.id ≡ false =
          subst (λ x. member targets x ≡ false) (sym (==→eq o.id id same)) none_such in
        absurd (ground arith)
    | inr other ↦ rw (hit_here, other) (entombed_none targets p id l old none_such)
  ]
  | inr no_hit ↦ rw no_hit (entombed_none targets p id l old none_such)
]

pub hidden :
    (q : Object → Bool) (tombs : List ℕ) (id : ℕ) (l : List Object)
    → member tombs id ≡ true
    → any (λ (o : Object). o.id == id && (q o && not (member tombs o.id))) l ≡ false
hidden q tombs id [] h = refl
hidden q tombs id (o ∷ l) h = elim (Bool-cases (o.id == id)) [
  | inl same ↦
      let there : member tombs o.id ≡ true =
        subst (λ x. member tombs x ≡ true) (sym (==→eq o.id id same)) h in
      ground (arith, hidden q tombs id l h)
  | inr other ↦ rw other (hidden q tombs id l h)
]

pub unhidden :
    (q : Object → Bool) (tombs old : List ℕ) (id : ℕ) (l : List Object)
    → member tombs id ≡ member old id
    → any (λ (o : Object). o.id == id && (q o && not (member tombs o.id))) l
      ≡ any (λ (o : Object). o.id == id && (q o && not (member old o.id))) l
unhidden q tombs old id [] h = refl
unhidden q tombs old id (o ∷ l) h = elim (Bool-cases (o.id == id)) [
  | inl same ↦
      let e : member tombs o.id ≡ member old o.id =
        subst (λ x. member tombs x ≡ member old x) (sym (==→eq o.id id same)) h in
      rw (e, unhidden q tombs old id l h) refl
  | inr other ↦ rw other (unhidden q tombs old id l h)
]

-- What the caller sees and may entomb, it may delete.
pub deletable_all :
    (targets : List ℕ) (p q : Object → Bool) (id : ℕ) (l : List Object)
    → member targets id ≡ true
    → any (λ (o : Object). o.id == id && p o) l ≡ true
    → any (λ (o : Object). (member targets o.id && p o) && not (q o)) l ≡ false
    → any (λ (o : Object). o.id == id && (p o && q o)) l ≡ true
deletable_all targets p q id [] there seen allowed = cc
deletable_all targets p q id (o ∷ l) there seen allowed = elim (Bool-cases (o.id == id && p o)) [
  | inl here ↦
      let same : o.id ≡ id = ground arith in
      let target : member targets o.id ≡ true =
        subst (λ x. member targets x ≡ true) (sym same) there in
      ground arith
  | inr other ↦
      let rest = deletable_all targets p q id l there (rw other at seen) (ground arith) in
      ground (arith, rest)
]
