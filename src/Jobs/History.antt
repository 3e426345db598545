-- ===== src/Jobs/History.antt =====
-- What a guarded write does to the job table: every row moves by the machine, and every row is valid.
use mathlib.Core.Option
use pg_agmemory.Prelude.{
  ℕ, ◌≡◌, refl, sym, ap, Bool, true, false, Bool-cases, ◌&&◌, Option, none, some, inl, inr, ◌⊎◌,
  List, [], ◌∷◌, any, find, update, ◌==◌, ==→eq, ==_self, if◌then◌else◌, arith,
}
use mathlib.Core.Path.{subst}
use pg_agmemory.Store.Tables.{Store, Job}
use pg_agmemory.Store.Exec.{ok, pure, gets, require, modify, ◌>>=◌}
use pg_agmemory.Store.Visibility.{Session}
use pg_agmemory.Jobs.Database.{
  job_row, guard_update, row_valid, writable, write_row, update_row, update_job, insert_job,
}
use pg_agmemory.Jobs.Machine.{JobMove, IsSameJob, Reaches, step, guard_update-JobMove}
use pg_agmemory.Jobs.Keeps.{IsJobInvariant}

find_updated :
    (i k : ℕ) (n : Job) (l : List Job)
    → n.id ≡ k
    → find (λ (j : Job). j.id == i) (update (λ (o : Job). o.id == k) (λ _. n) l) ≡ (
        if i == k
        then Option.map (λ _. n) (find (λ (j : Job). j.id == i) l)
        else find (λ (j : Job). j.id == i) l)
find_updated i k n [] e = ground arith
find_updated i k n (j ∷ l) e = ground (arith, find_updated i k n l e)

-- The row of a job has its id.
pub find_id : (i : ℕ) (l : List Job) (j : Job) → find (λ (o : Job). o.id == i) l ≡ some j → j.id ≡ i
find_id i [] j h = cc
find_id i (o ∷ l) j h = ground (arith, find_id i l j)

module _ (env : Session) where
  abbrev written : Store → ℕ → Job → Store
  written s id n = record s { jobs = update (λ (o : Job). o.id == id) (λ _. n) s.jobs }

  write_row_lem :
      (id : ℕ) (old new : Job) (s s' : Store) (r : Option Job)
      → write_row env id old new s ≡ ok (r, s')
      → (guard_update env.now old new ≡ true)
        × (row_valid new ≡ true)
        × (s' ≡ written s id new)
        × (r ≡ some new)
  unfolding write_row ◌>>=◌ require gets modify pure
  write_row_lem id old new s s' r h = (ground arith, ground arith, ground arith, ground arith)

  -- Nothing is written, or one row that the guard and the constraints let pass.
  abbrev pub Wrote :
      ℕ → (Job → Bool) → (Job → Job) → Store → Option Job → Option Job → Store → Type 0
  Wrote id selected set s row r s' =
      ((s' ≡ s) × (r ≡ none))
      ⊎ ((old : Job) × (row ≡ some old)
          × (guard_update env.now old (set old) ≡ true)
          × (row_valid (set old) ≡ true)
          × (selected old ≡ true)
          × (old.principal_id ≡ env.principal)
          × (s' ≡ written s id (set old))
          × (r ≡ some (set old)))

  test_passed : (a b c : Bool) → a && (b && c) ≡ true → (b ≡ true) × (c ≡ true)
  test_passed a b c h = (ground arith, ground arith)

  update_row_lem :
      (id : ℕ) (selected : Job → Bool) (set : Job → Job) (allowed : Bool) (row : Option Job)
      (s s' : Store) (r : Option Job)
      → update_row env id selected set allowed row s ≡ ok (r, s')
      → Wrote id selected set s row r s'
  unfolding update_row pure
  update_row_lem id selected set allowed none s s' r h = inl (ground arith)
  update_row_lem id selected set allowed (some old) s s' r h =
      elim (Bool-cases (allowed && (old.principal_id == env.principal && selected old))) [
        | inl may ↦
            let (mine, chosen) =
              test_passed allowed (old.principal_id == env.principal) (selected old) may in
            let (a, b, c, d) = write_row_lem id old (set old) s s' r (rw may at h) in
            inr (old, refl, a, b, chosen, ==→eq old.principal_id env.principal mine, c, d)
        | inr may_not ↦ let k = rw may_not at h in inl (ground (arith, k))
      ]

  pub update_job_lem :
      (id : ℕ) (selected : Job → Bool) (set : Job → Job) (s s' : Store) (r : Option Job)
      → update_job env id selected set s ≡ ok (r, s')
      → Wrote id selected set s (job_row s id) r s'
  unfolding update_job ◌>>=◌ gets
  update_job_lem id selected set s s' r h =
      update_row_lem id selected set (writable env s id) (job_row s id) s s' r h

  pub insert_job_lem :
      (j : Job) (s s' : Store)
      → insert_job env j s ≡ ok (tt, s')
      → (s' ≡ record s { jobs = j ∷ s.jobs })
        × (row_valid j ≡ true)
        × (any (λ (o : Job). o.id == j.id) s.jobs ≡ false)
  unfolding insert_job ◌>>=◌ require gets modify
  insert_job_lem j s s' h = (ground arith, ground arith, ground arith)

-- The row of the job `o` as it is now, which is reached from `o`.
pub record Since (o : Job) (s : Store) : Type 0 where
  pub job : Job
  pub row : job_row s o.id ≡ some job
  pub reached : Reaches o job

-- Every row meets the constraints.
pub record HasValidRows (s : Store) : Type 0 where
  pub rows : (id : ℕ) (j : Job) → job_row s id ≡ some j → row_valid j ≡ true

module _ (env : Session) (id : ℕ) (old n : Job) (s : Store) (found : job_row s id ≡ some old)
    (same : IsSameJob old n) where
  written_id : n.id ≡ id
  written_id = cc (ap (λ t. t.0) same.identity, find_id id s.jobs old found)

  row_written : (i : ℕ) → job_row (written env s id n) i ≡ (if i == id then some n else job_row s i)
  row_written i = elim (Bool-cases (i == id)) [
    | inl e ↦ rw (find_updated i id n s.jobs written_id, ==→eq i id e, ==_self id, found) refl
    | inr e ↦ rw (find_updated i id n s.jobs written_id, e) refl
  ]

  Since-written : (o : Job) → JobMove env.now old n → Since o s → Since o (written env s id n)
  Since-written o m c = elim (Bool-cases (o.id == id)) [
    | inl e ↦ record {
      job = n;
      row = rw (row_written o.id, e) refl;
      reached =
          step env.now old n (subst (Reaches o) (cc (c.row, found, ==→eq o.id id e)) c.reached) m
            same;
    }
    | inr e ↦ record { job = c.job; row = rw (row_written o.id, e) c.row; reached = c.reached }
  ]

  HasValidRows-written : row_valid n ≡ true → HasValidRows s → HasValidRows (written env s id n)
  HasValidRows-written v c = record {
    rows = λ i j h. elim (Bool-cases (i == id)) [
      | inl e ↦ let k : some n ≡ some j = rw (row_written i, e) at h in cc (k, v)
      | inr e ↦ c.rows i j (rw (row_written i, e) at h)
    ];
  }

found_any :
    (i : ℕ) (l : List Job) (j : Job)
    → find (λ (o : Job). o.id == i) l ≡ some j
    → any (λ (o : Job). o.id == i) l ≡ true
found_any i [] j h = cc
found_any i (o ∷ l) j h = ground (arith, found_any i l j)

Since-inserted :
    (o j : Job) (s : Store)
    → any (λ (i : Job). i.id == j.id) s.jobs ≡ false
    → Since o s
    → Since o (record s { jobs = j ∷ s.jobs })
Since-inserted o j s free c = record {
  job = c.job;
  row = elim (Bool-cases (j.id == o.id)) [
    | inl e ↦
        let taken = found_any o.id s.jobs c.job c.row in
        let free' =
          subst (λ k. any (λ (i : Job). i.id == k) s.jobs ≡ false) (==→eq j.id o.id e) free in
        absurd (cc (taken, free'))
    | inr e ↦ rw e c.row
  ];
  reached = c.reached;
}

HasValidRows-inserted :
    (j : Job) (s : Store)
    → row_valid j ≡ true
    → HasValidRows s
    → HasValidRows (record s { jobs = j ∷ s.jobs })
HasValidRows-inserted j s v c = record {
  rows = λ i k h. elim (Bool-cases (j.id == i)) [
    | inl e ↦ let q : some j ≡ some k = rw e at h in cc (q, v)
    | inr e ↦ c.rows i k (rw e at h)
  ];
}

pub Since-IsJobInvariant : (o : Job) → IsJobInvariant (Since o)
Since-IsJobInvariant o = record {
  base = record {
    idempotency = λ s rows c. record { job = c.job; row = c.row; reached = c.reached };
    audits = λ s rows c. record { job = c.job; row = c.row; reached = c.reached };
    objects = λ s rows c. record { job = c.job; row = c.row; reached = c.reached };
    drawn = λ s n c. record { job = c.job; row = c.row; reached = c.reached };
  };
  assertions = λ s rows c. record { job = c.job; row = c.row; reached = c.reached };
  revised = λ s rows heads c. record { job = c.job; row = c.row; reached = c.reached };
  revisions = λ s rows c. record { job = c.job; row = c.row; reached = c.reached };
  lexicals = λ s rows c. record { job = c.job; row = c.row; reached = c.reached };
  provenance = λ s rows c. record { job = c.job; row = c.row; reached = c.reached };
  inputs = λ s rows c. record { job = c.job; row = c.row; reached = c.reached };
  identities = λ s rows c. record { job = c.job; row = c.row; reached = c.reached };
  updated = λ env id selected set same. record {
    at = λ s r s' c h. elim (update_job_lem env id selected set s s' r h) [
      | inl (e, _) ↦ subst (Since o) (sym e) c
      | inr (old, found, may, _, _, _, e, _) ↦ subst (Since o) (sym e) (
          Since-written env id old (set old) s found (same old) o
            (guard_update-JobMove env.now old (set old) may) c)
    ];
  };
  inserted = λ env j. record {
    at = λ s r s' c h.
        let (e, _, free) = insert_job_lem env j s s' h in
        subst (Since o) (sym e) (Since-inserted o j s free c);
  };
}

pub HasValidRows-IsJobInvariant : IsJobInvariant HasValidRows
HasValidRows-IsJobInvariant = record {
  base = record {
    idempotency = λ s rows c. record { rows = c.rows };
    audits = λ s rows c. record { rows = c.rows };
    objects = λ s rows c. record { rows = c.rows };
    drawn = λ s n c. record { rows = c.rows };
  };
  assertions = λ s rows c. record { rows = c.rows };
  revised = λ s rows heads c. record { rows = c.rows };
  revisions = λ s rows c. record { rows = c.rows };
  lexicals = λ s rows c. record { rows = c.rows };
  provenance = λ s rows c. record { rows = c.rows };
  inputs = λ s rows c. record { rows = c.rows };
  identities = λ s rows c. record { rows = c.rows };
  updated = λ env id selected set same. record {
    at = λ s r s' c h. elim (update_job_lem env id selected set s s' r h) [
      | inl (e, _) ↦ subst HasValidRows (sym e) c
      | inr (old, found, _, valid, _, _, e, _) ↦
          subst HasValidRows (sym e)
            (HasValidRows-written env id old (set old) s found (same old) valid c)
    ];
  };
  inserted = λ env j. record {
    at = λ s r s' c h.
        let (e, valid, _) = insert_job_lem env j s s' h in
        subst HasValidRows (sym e) (HasValidRows-inserted j s valid c);
  };
}
