-- ===== src/Store/Keeps.antt =====
-- Invariants of transactions: one rule for each way to build one.
use pg_agmemory.Prelude.{
  Option, none, some, Bool, true, false, if◌then◌else◌, ◌≡◌, refl, List, [], ◌∷◌, arith,
}
use mathlib.Core.Path.{subst}
use pg_agmemory.Store.Tables.{Store}
use pg_agmemory.Store.Exec.{
  Exec, Failure, Result, ok, err, pure, raise, gets, or_raise, continue, require, modify, ◌>>=◌,
  ◌>>◌, for_each,
}

-- A transaction that commits leaves a store with `Q`, if it began on one with `P`.
pub record Leads {A : Type 0} (P : Store → Type 0) (m : Exec A) (Q : A → Store → Type 0)
    : Type 0 where
  pub at : (s : Store) (a : A) (s' : Store) → P s → m s ≡ ok (a, s') → Q a s'

-- `P` holds before and after.
abbrev pub Keeps : {A : Type 0} → (Store → Type 0) → Exec A → Type 0
Keeps P m = Leads P m (λ _. P)

continue-eq-ok :
    {A B : Type 0} (r : Result (A × Store)) (f : A → Exec B) {b : B × Store}
    → continue r f ≡ ok b
    → (a : A) × (s : Store) × (r ≡ ok (a, s)) × (f a s ≡ ok b)
continue-eq-ok (ok (a, s)) f h = (a, s, refl, h)
continue-eq-ok (err e) f h = cc

-- The parts of a sequence that commits.
pub >>=-eq-ok :
    {A B : Type 0} (m : Exec A) (f : A → Exec B) (s : Store) {b : B × Store}
    → (m >>= f) s ≡ ok b
    → (a : A) × (s' : Store) × (m s ≡ ok (a, s')) × (f a s' ≡ ok b)
unfolding ◌>>=◌
>>=-eq-ok m f s h = continue-eq-ok (m s) f h

pub Leads-bind :
    {A B : Type 0} {P : Store → Type 0} {Q : A → Store → Type 0} {R : B → Store → Type 0}
    (m : Exec A) (f : A → Exec B)
    → Leads P m Q
    → ((a : A) → Leads (Q a) (f a) R)
    → Leads P (m >>= f) R
Leads-bind m f km kf = record {
  at = λ s b s' p h.
      let (a, t, first, rest) = >>=-eq-ok m f s h in (kf a).at t b s' (km.at s a t p first) rest;
}

module _ {A : Type 0} {P : Store → Type 0} where
  pub Keeps-pure : (a : A) → Keeps P (pure a)
  unfolding pure
  Keeps-pure a = record { at = λ s b s' p h. ground (arith) }

  pub Keeps-raise : (e : Failure) → Keeps P (raise {A = A} e)
  unfolding raise
  Keeps-raise e = record { at = λ s b s' p h. cc }

  pub Keeps-gets : (f : Store → A) → Keeps P (gets f)
  unfolding gets
  Keeps-gets f = record { at = λ s b s' p h. ground arith }

  pub Keeps-or_raise : (o : Option A) (e : Failure) → Keeps P (or_raise o e)
  unfolding or_raise
  Keeps-or_raise none e = record { at = λ s b s' p h. cc }
  Keeps-or_raise (some a) e = record { at = λ s b s' p h. ground arith }

  pub Keeps-if : (b : Bool) (m n : Exec A) → Keeps P m → Keeps P n → Keeps P (if b then m else n)
  Keeps-if true m n km kn = km
  Keeps-if false m n km kn = kn

  pub Keeps-bind-pure :
      {B : Type 0} (m : Exec A) (f : A → Exec B)
      → Keeps P m
      → ((a : A) → Keeps P (f a))
      → Keeps P (m >>= f)
  Keeps-bind-pure m f km kf = Leads-bind m f km kf

module _ {P : Store → Type 0} where
  pub Keeps-require : (b : Bool) (e : Failure) → Keeps P (require b e)
  unfolding require
  Keeps-require true e = record { at = λ s b s' p h. ground arith }
  Keeps-require false e = record { at = λ s b s' p h. cc }

  pub Keeps-modify : (f : Store → Store) → ((s : Store) → P s → P (f s)) → Keeps P (modify f)
  unfolding modify
  Keeps-modify f k = record { at = λ s a s' p h. subst P (ground arith) (k s p) }

  pub Keeps-for_each {ℓ} :
      {A : Type ℓ} (xs : List A) (body : A → Exec (Unit {0}))
      → ((x : A) → Keeps P (body x))
      → Keeps P (for_each xs body)
  Keeps-for_each [] body k = Keeps-pure tt
  Keeps-for_each (x ∷ xs) body k = Leads-bind _ _ (k x) (λ _. Keeps-for_each xs body k)

-- What a transaction leaves: its store, or the one before if it raised.
abbrev pub committed : {A : Type 0} → Result (A × Store) → Store → Store
committed (ok (_, s')) s = s'
committed (err _) s = s

pub committed-Keeps :
    {A : Type 0} {P : Store → Type 0} (m : Exec A) (s : Store)
    → Keeps P m
    → P s
    → P (committed (m s) s)
committed-Keeps {A} {P} m s k p = go (m s) (λ a s' e. k.at s a s' p e)
  where
    go :
        (r : Result (A × Store))
        → ((a : A) (s' : Store) → r ≡ ok (a, s') → P s')
        → P (committed r s)
    go (ok (a, s')) f = f a s' refl
    go (err e) f = p

-- What each step tells of its result.
module _ {P : Store → Type 0} where
  pub Leads-gets : {A : Type 0} (f : Store → A) → Leads P (gets f) (λ a t. P t × (a ≡ f t))
  unfolding gets
  Leads-gets f = record { at = λ s a s' p h. (subst P (ground arith) p, ground arith) }

  pub Leads-or_raise :
      {A : Type 0} (o : Option A) (e : Failure) → Leads P (or_raise o e) (λ a t. P t × (o ≡ some a))
  unfolding or_raise
  Leads-or_raise none e = record { at = λ s a s' p h. cc }
  Leads-or_raise (some x) e = record { at = λ s a s' p h. (subst P (ground arith) p, ground arith) }

  pub Leads-require : (b : Bool) (e : Failure) → Leads P (require b e) (λ _ t. P t × (b ≡ true))
  unfolding require
  Leads-require true e = record { at = λ s a s' p h. (subst P (ground arith) p, refl) }
  Leads-require false e = record { at = λ s a s' p h. cc }

  pub Leads-pure :
      {A : Type 0} {Q : A → Store → Type 0} (a : A)
      → ((t : Store) → P t → Q a t)
      → Leads P (pure a) Q
  unfolding pure
  Leads-pure {A} {Q} a k = record {
    at = λ s b s' p h.
        let e : a ≡ b = ground arith in
        let e' : s ≡ s' = ground arith in subst (λ c. Q c s') e (subst (Q a) e' (k s p));
  }

  pub Leads-after :
      {A : Type 0} {m : Exec A} {Q R : A → Store → Type 0}
      → Leads P m Q
      → ((a : A) (t : Store) → Q a t → R a t)
      → Leads P m R
  Leads-after k f = record { at = λ s a s' p h. f a s' (k.at s a s' p h) }

pub Leads-before :
    {A : Type 0} {P P' : Store → Type 0} {m : Exec A} {Q : A → Store → Type 0}
    → ((t : Store) → P t → P' t)
    → Leads P' m Q
    → Leads P m Q
Leads-before f k = record { at = λ s a s' p h. k.at s a s' (f s p) h }

-- What follows a check may rely on it.
pub Keeps-require-bind :
    {A : Type 0} {P : Store → Type 0} (b : Bool) (e : Failure) (k : Exec A)
    → (b ≡ true → Keeps P k)
    → Keeps P (require b e >> k)
unfolding require ◌>>=◌
Keeps-require-bind true e k kk = record { at = λ s a s' p h. (kk refl).at s a s' p h }
Keeps-require-bind false e k kk = record { at = λ s a s' p h. cc }

pub ruleset keeps_rules = (
  Keeps-pure, Keeps-raise, Keeps-gets, Keeps-or_raise, Keeps-if, Keeps-require, Keeps-for_each,
  Keeps-bind-pure,
)
