-- ===== src/Graph/Expand/Walks.antt =====
-- The paths that `expand` finds (src/pg_agmemory/graphs.py), against a description of all walks.
use mathlib.Core.List.{append_assoc, append-nil}
use pg_agmemory.Prelude.{
  ℕ, zero, suc, ◌+◌, ◌-◌, ◌≤◌, ◌<◌, ◌≡◌, refl, sym, ap, ◌∙◌, Bool, true, false, List, [], ◌∷◌, ◌++◌,
  map, take, length, length-append, ltb, ltb→lt, ltb→le, if◌then◌else◌, Bool-cases, ◌⊎◌, inl, inr,
  arith,
}
use pg_agmemory.Store.Tables.{Store}
use pg_agmemory.Store.Exec.{
  Failure, ok, err, memory_error, graph_invalidated, continue, pure, gets, require, ◌>>=◌,
}
use pg_agmemory.Store.Visibility.{Session}
use pg_agmemory.Graph.Expand.{
  Expansion, extend, add_hop, add_hops, expand_frontier, expand_hops, seed_paths, next_hops, start,
  walked, expand,
}
use pg_agmemory.Graph.Expand.Models.{ExpandGraph, GraphPath, GraphResult, Hop}

-- The walks of one more hop.
unfoldable pub longer : (GraphPath → List Hop) → List GraphPath → List GraphPath
longer next [] = []
longer next (walk ∷ rest) = map (extend walk) (next walk) ++ longer next rest

-- All walks of one up to `n` hops more, the shorter ones first.
unfoldable pub walks : (GraphPath → List Hop) → ℕ → List GraphPath → List GraphPath
unfolding longer
walks next zero frontier = []
walks next (suc n) frontier = longer next frontier ++ walks next n (longer next frontier)

module _ {A : Type 0} where
  take_all : (n : ℕ) (l : List A) → length l ≤ n → take n l ≡ l
  take_all zero [] h = refl
  take_all zero (x ∷ l) h = absurd (omega (arith, h))
  take_all (suc n) [] h = refl
  take_all (suc n) (x ∷ l) h = ap (λ t. x ∷ t) (take_all n l (omega (arith, h)))

  take-append : (n : ℕ) (l m : List A) → n ≤ length l → take n (l ++ m) ≡ take n l
  take-append zero l m h = refl
  take-append (suc n) [] m h = absurd (omega (arith, h))
  take-append (suc n) (x ∷ l) m h = ap (λ t. x ∷ t) (take-append n l m (omega (arith, h)))

  take-append_more :
      (n : ℕ) (l m : List A) → length l ≤ n → take n (l ++ m) ≡ l ++ take (n - length l) m
  take-append_more n [] m h = let e : n - 0 ≡ n = omega arith in rw e refl
  take-append_more zero (x ∷ l) m h = absurd (omega (arith, h))
  take-append_more (suc n) (x ∷ l) m h =
      let e : suc n - suc (length l) ≡ n - length l = omega arith in
      rw e (ap (λ t. x ∷ t) (take-append_more n l m (omega (arith, h))))

  take-take_suc : (n : ℕ) (l : List A) → take n (take (n + 1) l) ≡ take n l
  take-take_suc zero l = refl
  take-take_suc (suc n) [] = let e : suc n + 1 ≡ suc (n + 1) = omega arith in rw e refl
  take-take_suc (suc n) (x ∷ l) =
      let e : suc n + 1 ≡ suc (n + 1) = omega arith in rw e (ap (λ t. x ∷ t) (take-take_suc n l))

  -- A query for one row more than wanted tells whether there are more.
  ltb-take : (n : ℕ) (l : List A) → ltb n (length (take (n + 1) l)) ≡ ltb n (length l)
  ltb-take zero [] = refl
  ltb-take zero (x ∷ l) = ground arith
  ltb-take (suc n) [] = let e : suc n + 1 ≡ suc (n + 1) = omega arith in rw e refl
  ltb-take (suc n) (x ∷ l) =
      let e : suc n + 1 ≡ suc (n + 1) = omega arith in rw e (ground (arith, ltb-take n l))

length-map : {A B : Type 0} (f : A → B) (l : List A) → length (map f l) ≡ length l
length-map f [] = refl
length-map f (x ∷ l) = ap suc (length-map f l)

map-take : {A B : Type 0} (f : A → B) (n : ℕ) (l : List A) → map f (take n l) ≡ take n (map f l)
map-take f zero l = refl
map-take f (suc n) [] = refl
map-take f (suc n) (x ∷ l) = ap (λ t. f x ∷ t) (map-take f n l)

-- Both lists of paths grow by the same ones.
add_hops_lem :
    (walk : GraphPath) (hs : List Hop) (x : Expansion)
    → ((add_hops walk hs x).paths ≡ x.paths ++ map (extend walk) hs)
      × ((add_hops walk hs x).next_frontier ≡ x.next_frontier ++ map (extend walk) hs)
unfolding add_hops add_hop
add_hops_lem walk [] x = (sym (append-nil x.paths), sym (append-nil x.next_frontier))
add_hops_lem walk (h ∷ hs) x =
    let (p, q) = add_hops_lem walk hs (add_hop walk h x) in
    (
      p ∙ append_assoc x.paths (extend walk h ∷ []) (map (extend walk) hs),
      q ∙ append_assoc x.next_frontier (extend walk h ∷ []) (map (extend walk) hs),
    )

module _ (next : GraphPath → List Hop) (max_paths : ℕ) where
  -- What a round of the loops makes of the paths so far and those that it should add.
  data Grows (x : Expansion) (more : List GraphPath) : Expansion × Bool → Type 0 where
    all_grown :
        (y : Expansion)
        → y.paths ≡ x.paths ++ more
        → y.next_frontier ≡ x.next_frontier ++ more
        → length y.paths ≤ max_paths
        → Grows x more (y, false)
    stops_short :
        (y : Expansion)
        → y.paths ≡ take max_paths (x.paths ++ more)
        → max_paths < length (x.paths ++ more)
        → Grows x more (y, true)

  Grows-after :
      (x y : Expansion) (more rest : List GraphPath)
      → y.paths ≡ x.paths ++ more
      → y.next_frontier ≡ x.next_frontier ++ more
      → (r : Expansion × Bool) → Grows y rest r
      → Grows x (more ++ rest) r
  Grows-after x y more rest p q r (all_grown z hp hq small) =
      all_grown z (hp ∙ rw p (append_assoc x.paths more rest))
        (hq ∙ rw q (append_assoc x.next_frontier more rest)) small
  Grows-after x y more rest p q r (stops_short z hp big) =
      let e : y.paths ++ rest ≡ x.paths ++ (more ++ rest) = rw p (append_assoc x.paths more rest) in
      stops_short z (hp ∙ ap (take max_paths) e) (rw e at big)

  -- The hops of one walk, as many as the query that is cut returns.
  abbrev found : GraphPath → Expansion → List Hop
  found walk x =
      take (max_paths - length x.paths) (take (max_paths - length x.paths + 1) (next walk))

  found_more :
      (walk : GraphPath) (x : Expansion) (m : List GraphPath)
      → length x.paths ≤ max_paths
      → ltb (max_paths - length x.paths) (length (next walk)) ≡ true
      → ((add_hops walk (found walk x) x).paths
          ≡ take max_paths (x.paths ++ (map (extend walk) (next walk) ++ m)))
        × (max_paths < length (x.paths ++ (map (extend walk) (next walk) ++ m)))
  found_more walk x m small more =
      let remaining = max_paths - length x.paths in
      let all = map (extend walk) (next walk) in
      let enough : remaining ≤ length all =
        omega (arith, ltb→lt _ _ more, length-map (extend walk) (next walk)) in
      (
        (add_hops_lem walk (found walk x) x).0
            ∙ ap (λ l. x.paths ++ map (extend walk) l) (take-take_suc remaining (next walk))
            ∙ ap (λ l. x.paths ++ l) (map-take (extend walk) remaining (next walk))
            ∙ ap (λ l. x.paths ++ l) (sym (take-append remaining all m enough))
            ∙ sym (take-append_more max_paths x.paths (all ++ m) small),
        omega (
          arith,
          length-append x.paths (all ++ m),
          length-append all m,
          ltb→lt _ _ more,
          length-map (extend walk) (next walk),
        ),
      )

  found_all :
      (walk : GraphPath) (x : Expansion)
      → ltb (max_paths - length x.paths) (length (next walk)) ≡ false
      → found walk x ≡ next walk
  found_all walk x all =
      take-take_suc (max_paths - length x.paths) (next walk)
      ∙ take_all (max_paths - length x.paths) (next walk) (ltb→le _ _ all)

  expand_frontier_lem :
      (frontier : List GraphPath) (x : Expansion)
      → length x.paths ≤ max_paths
      → Grows x (longer next frontier) (expand_frontier next max_paths frontier x)
  unfolding expand_frontier longer
  expand_frontier_lem [] x small = all_grown x (sym (append-nil _)) (sym (append-nil _)) small
  expand_frontier_lem (walk ∷ rest) x small =
      let y = add_hops walk (found walk x) x in
      elim (Bool-cases (ltb (max_paths - length x.paths) (length (next walk)))) [
        | inl more ↦
            let (p, big) = found_more walk x (longer next rest) small more in
            rw (ltb-take (max_paths - length x.paths) (next walk), more) (stops_short y p big)
        | inr all ↦
            let (p, q) = add_hops_lem walk (found walk x) x in
            let e = found_all walk x all in
            let p' : y.paths ≡ x.paths ++ map (extend walk) (next walk) =
              p ∙ ap (λ l. x.paths ++ map (extend walk) l) e in
            let q' : y.next_frontier ≡ x.next_frontier ++ map (extend walk) (next walk) =
              q ∙ ap (λ l. x.next_frontier ++ map (extend walk) l) e in
            let still : length y.paths ≤ max_paths = omega (
              arith,
              ap length p',
              length-append x.paths (map (extend walk) (next walk)),
              length-map (extend walk) (next walk),
              ltb→le _ _ all,
            ) in
            rw (ltb-take (max_paths - length x.paths) (next walk), all)
              (Grows-after x y _ _ p' q' _ (expand_frontier_lem rest y still))
      ]

  -- The paths are those of all walks, up to the limit; the flag tells whether there are more.
  Exact : List GraphPath → List GraphPath → Expansion × Bool → Type 0
  Exact old more r =
      (r.0.paths ≡ take max_paths (old ++ more)) × (r.1 ≡ ltb max_paths (length (old ++ more)))

  expand_hops_step :
      (n : ℕ) (frontier : List GraphPath) (x : Expansion)
      → ((f : List GraphPath) (y : Expansion)
          → length y.paths ≤ max_paths
          → Exact y.paths (walks next n f) (expand_hops next max_paths n f y))
      → (r : Expansion × Bool) → Grows (record x { next_frontier = [] }) (longer next frontier) r
      → Exact x.paths
          (longer next frontier ++ walks next n (longer next frontier))
          (if r.1 then r else expand_hops next max_paths n r.0.next_frontier r.0)
  unfolding Exact
  expand_hops_step n frontier x ih r (all_grown y p q s) =
      let l = longer next frontier in
      let e : y.paths ++ walks next n y.next_frontier ≡ x.paths ++ (l ++ walks next n l) =
        rw (p, q) (append_assoc x.paths l (walks next n l)) in
      rw e at (ih y.next_frontier y s)
  expand_hops_step n frontier x ih r (stops_short y p big) =
      let l = longer next frontier in
      let m = walks next n l in
      let e : (x.paths ++ l) ++ m ≡ x.paths ++ (l ++ m) = append_assoc x.paths l m in
      let still : max_paths < length ((x.paths ++ l) ++ m) =
        omega (arith, big, length-append (x.paths ++ l) m) in
      let more : ltb max_paths (length ((x.paths ++ l) ++ m)) ≡ true = ground (arith, still) in
      let exact : (y.paths ≡ take max_paths ((x.paths ++ l) ++ m))
          × (true ≡ ltb max_paths (length ((x.paths ++ l) ++ m))) =
        (p ∙ sym (take-append max_paths (x.paths ++ l) m (omega (arith, big))), sym more) in
      rw e at exact

  expand_hops_lem :
      (n : ℕ) (frontier : List GraphPath) (x : Expansion)
      → length x.paths ≤ max_paths
      → Exact x.paths (walks next n frontier) (expand_hops next max_paths n frontier x)
  unfolding Exact expand_hops walks
  expand_hops_lem zero frontier x small =
      let e : x.paths ++ [] ≡ x.paths = append-nil x.paths in
      let not_more : ltb max_paths (length x.paths) ≡ false = ground (arith, small) in
      (sym (ap (take max_paths) e ∙ take_all max_paths x.paths small), rw e (sym not_more))
  expand_hops_lem (suc n) frontier x small =
      expand_hops_step n frontier x (expand_hops_lem n) _
        (expand_frontier_lem frontier (record x { next_frontier = [] }) small)

module _ (env : Session) (s : Store) (request : ExpandGraph) where
  walked_lem :
      let all = walks (next_hops env s request) request.max_hops (seed_paths env s request) in
      ((walked env s request).0.paths ≡ take request.max_paths all)
      × ((walked env s request).1 ≡ ltb request.max_paths (length all))
  unfolding walked start Exact
  walked_lem = expand_hops_lem _ request.max_paths request.max_hops _ _ (omega arith)

  required :
      (b : Bool) (e : Failure) (f : Store → GraphResult)
      → (continue (require b e s) (λ _ t. ok (f t, t)) ≡ err e)
        ⊎ (continue (require b e s) (λ _ t. ok (f t, t)) ≡ ok (f s, s))
  unfolding require
  required true e f = inr refl
  required false e f = inl refl

  -- `expand` changes nothing. It refuses with graph_invalidated; or its paths are those of all the
  -- walks of one up to `max_hops` hops from the seeds that may be seen, the shorter ones first and
  -- each walk's in the order of its rows, up to `max_paths` of them, and it says that they were
  -- truncated if and only if there are more.
  pub expand-walks :
      let all = walks (next_hops env s request) request.max_hops (seed_paths env s request) in
      (expand env request s ≡ err (memory_error graph_invalidated 409))
      ⊎ ((r : GraphResult) × (expand env request s ≡ ok (r, s))
          × (r.paths ≡ take request.max_paths all)
          × (r.truncated ≡ ltb request.max_paths (length all)))
  unfolding expand ◌>>=◌ gets pure
  expand-walks = elim (required _ _ _) [
    | inl refused ↦ inl refused
    | inr answered ↦ inr (_, answered, walked_lem.0, walked_lem.1)
  ]
