-- ===== src/Graph/Expand/Simple.antt =====
-- The shape of the paths that `expand` finds (src/pg_agmemory/graphs.py).
use pg_agmemory.Prelude.{
  ℕ, zero, suc, ◌+◌, ◌≤◌, ◌≡◌, refl, sym, ◌∙◌, Bool, true, false, not, List, [], ◌∷◌, ◌++◌, map,
  select, take, length, length-append, All, All-append, ◌==◌, Bool-cases, inl, inr, arith,
}
use pg_agmemory.Store.Tables.{Store}
use pg_agmemory.Store.Exec.{Failure, ok, err}
use pg_agmemory.Store.Visibility.{Session}
use pg_agmemory.Service.{insert_sorted, order_by}
use pg_agmemory.Graph.Expand.{extend, seed_path, seed_paths, or_now, next_hops, expand}
use pg_agmemory.Graph.Expand.Neighbors.{id_in, neighbor_rows, joined_rows, hop_before}
use pg_agmemory.Graph.Expand.Models.{EntitySummary, ExpandGraph, GraphPath, GraphResult, Hop}
use pg_agmemory.Graph.Expand.Walks.{longer, walks, expand-walks}

-- No node twice.
abbrev pub Distinct : List ℕ → Type 0
Distinct [] = Unit
Distinct (x ∷ xs) = (id_in xs x ≡ false) × Distinct xs

-- A walk of at most `n` hops, along as many assertions as it has hops, that visits no node twice.
pub record IsSimple (n : ℕ) (p : GraphPath) : Type 0 where
  pub few : length p.assertions ≤ n
  pub linked : length p.nodes ≡ length p.assertions + 1
  pub distinct : Distinct p.nodes

id_in-append :
    (xs : List ℕ) (x y : ℕ) → id_in xs y ≡ false → (x == y) ≡ false → id_in (xs ++ x ∷ []) y ≡ false
id_in-append [] x y h e = rw e refl
id_in-append (z ∷ xs) x y h e = ground (arith, id_in-append xs x y)

Distinct-append : (xs : List ℕ) (x : ℕ) → Distinct xs → id_in xs x ≡ false → Distinct (xs ++ x ∷ [])
Distinct-append [] x d h = (refl, tt)
Distinct-append (z ∷ xs) x (n, d) h =
    (id_in-append xs x z n (ground (arith, h)), Distinct-append xs x d (ground (arith, h)))

module _ {A : Type 0} (P : A → Type 0) where
  All-select :
      (test : A → Bool) (l : List A) → ((a : A) → test a ≡ true → P a) → All P (select test l)
  All-select test [] k = tt
  All-select test (a ∷ l) k = elim (Bool-cases (test a)) [
    | inl yes' ↦ rw yes' (k a yes', All-select test l k)
    | inr no' ↦ rw no' (All-select test l k)
  ]

  All-insert_sorted :
      (before : A → A → Bool) (a : A) (l : List A)
      → P a
      → All P l
      → All P (insert_sorted before a l)
  unfolding insert_sorted
  All-insert_sorted before a [] h k = (h, tt)
  All-insert_sorted before a (b ∷ l) h (k, ks) = elim (Bool-cases (before b a)) [
    | inl yes' ↦ rw yes' (k, All-insert_sorted before a l h ks)
    | inr no' ↦ rw no' (h, (k, ks))
  ]

  All-order_by : (before : A → A → Bool) (l : List A) → All P l → All P (order_by before l)
  unfolding order_by
  All-order_by before [] k = tt
  All-order_by before (a ∷ l) (k, ks) =
      All-insert_sorted before a (order_by before l) k (All-order_by before l ks)

  All-take : (n : ℕ) (l : List A) → All P l → All P (take n l)
  All-take zero l k = tt
  All-take (suc n) [] k = tt
  All-take (suc n) (a ∷ l) (k, ks) = (k, All-take n l ks)

length-take_le : {A : Type 0} (n : ℕ) (l : List A) → length (take n l) ≤ n
length-take_le zero l = omega arith
length-take_le (suc n) [] = omega arith
length-take_le (suc n) (x ∷ l) = omega (arith, length-take_le n l)

ok-ne-err : {A : Type 0} {a : A} {e : Failure} → ok a ≡ err e → ⊥
ok-ne-err h = cc h

extend-IsSimple :
    (n : ℕ) (walk : GraphPath) (h : Hop)
    → IsSimple n walk
    → id_in walk.nodes h.next_id ≡ false
    → IsSimple (n + 1) (extend walk h)
unfolding extend
extend-IsSimple n walk h w new = record {
  few = omega (arith, w.few, length-append walk.assertions (h.edge.assertion ∷ []));
  linked = omega (
    arith,
    w.linked,
    length-append walk.nodes (h.next_id ∷ []),
    length-append walk.assertions (h.edge.assertion ∷ []),
  );
  distinct = Distinct-append walk.nodes h.next_id w.distinct new;
}

extends-IsSimple :
    (n : ℕ) (walk : GraphPath) (hs : List Hop)
    → IsSimple n walk
    → All (λ h. id_in walk.nodes h.next_id ≡ false) hs
    → All (IsSimple (n + 1)) (map (extend walk) hs)
extends-IsSimple n walk [] w k = tt
extends-IsSimple n walk (h ∷ hs) w (k, ks) =
    (extend-IsSimple n walk h w k, extends-IsSimple n walk hs w ks)

weaken : (m n : ℕ) (l : List GraphPath) → m ≤ n → All (IsSimple m) l → All (IsSimple n) l
weaken m n [] le k = tt
weaken m n (p ∷ l) le (k, ks) = (
  record { few = omega (arith, le, k.few); linked = k.linked; distinct = k.distinct },
  weaken m n l le ks,
)

module _ (next : GraphPath → List Hop)
    (fresh : (walk : GraphPath) → All (λ h. id_in walk.nodes h.next_id ≡ false) (next walk)) where
  longer-IsSimple :
      (n : ℕ) (l : List GraphPath) → All (IsSimple n) l → All (IsSimple (n + 1)) (longer next l)
  unfolding longer
  longer-IsSimple n [] k = tt
  longer-IsSimple n (walk ∷ l) (k, ks) =
      All-append _ _ _ (extends-IsSimple n walk (next walk) k (fresh walk)) (longer-IsSimple n l ks)

  walks-IsSimple :
      (m n : ℕ) (l : List GraphPath) → All (IsSimple m) l → All (IsSimple (m + n)) (walks next n l)
  unfolding walks
  walks-IsSimple m zero l k = tt
  walks-IsSimple m (suc n) l k =
      let once = longer-IsSimple m l k in
      let e : m + 1 + n ≡ m + suc n = omega arith in
      All-append _ _ _ (weaken (m + 1) (m + suc n) _ (omega arith) once)
        (rw e at (walks-IsSimple (m + 1) n (longer next l) once))

module _ (env : Session) (s : Store) (request : ExpandGraph) where
  next_hops-fresh :
      (walk : GraphPath)
      → All (λ h. id_in walk.nodes h.next_id ≡ false) (next_hops env s request walk)
  unfolding next_hops neighbor_rows
  next_hops-fresh walk =
      let rows =
        joined_rows env s request (or_now request.as_of env.now) (or_now request.known_at env.now)
          walk in
      let New : Hop → Type 0 = λ h. id_in walk.nodes h.next_id ≡ false in
      let test : Hop → Bool = λ h. not (id_in walk.nodes h.next_id) in
      All-order_by New hop_before (select test rows)
        (All-select New test rows (λ h e. ground (arith, e)))

  seeds-IsSimple : (l : List EntitySummary) → All (IsSimple 0) (map seed_path l)
  unfolding seed_path
  seeds-IsSimple [] = tt
  seeds-IsSimple (e ∷ l) =
      (record { few = omega arith; linked = refl; distinct = (refl, tt) }, seeds-IsSimple l)

  walks_of_seeds :
      (n : ℕ) → All (IsSimple n) (walks (next_hops env s request) n (seed_paths env s request))
  unfolding seed_paths
  walks_of_seeds n =
      let e : 0 + n ≡ n = omega arith in
      rw e at (
        walks-IsSimple (next_hops env s request) next_hops-fresh 0 n (seed_paths env s request)
          (seeds-IsSimple _))

  -- Every path that `expand` answers with visits no entity twice, has at most `max_hops` hops, and as
  -- many assertions as hops; there are at most `max_paths` of them.
  pub expand-IsSimple :
      (r : GraphResult) (s' : Store)
      → expand env request s ≡ ok (r, s')
      → All (IsSimple request.max_hops) r.paths × (length r.paths ≤ request.max_paths)
  expand-IsSimple r s' h = elim (expand-walks env s request) [
    | inl refused ↦ absurd (ok-ne-err (sym h ∙ refused))
    | inr (q, answered, p, t) ↦
        let same : r ≡ q = cc (h, answered) in
        rw (same, p)
          (
            All-take _ request.max_paths _ (walks_of_seeds request.max_hops),
            length-take_le request.max_paths _,
          )
  ]
