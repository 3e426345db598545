-- ===== src/Jobs/Database.antt =====
-- The tables of jobs with their constraints and the trigger memory.guard_job
-- (storage/006_durable_jobs.sql and storage/010_job_cancellation.sql).
use pg_agmemory.Prelude.{
  ℕ, ◌+◌, Bool, true, false, not, ◌&&◌, ◌||◌, Option, none, some, List, [], ◌∷◌, any, find, select,
  update, length, leb, ltb, ◌==◌, if◌then◌else◌,
}
use pg_agmemory.Text.{text_eq}
use pg_agmemory.Store.Tables.{
  Store, Object, write, JobState, pending, running, succeeded, failed, cancelled, Evidence,
  Remember, Job, JobInput, JobIdentity,
}
use pg_agmemory.Store.Exec.{Exec, database_error, pure, gets, require, modify, ◌>>=◌, ◌>>◌}
use pg_agmemory.Store.Visibility.{Session, permitted, shown, visible}

abbrev state_code : JobState → ℕ
state_code pending = 0
state_code running = 1
state_code succeeded = 2
state_code failed = 3
state_code cancelled = 4

abbrev pub state_eq : JobState → JobState → Bool
state_eq a b = state_code a == state_code b

abbrev pub is_terminal : JobState → Bool
is_terminal pending = false
is_terminal running = false
is_terminal succeeded = true
is_terminal failed = true
is_terminal cancelled = true

abbrev pub id_eq : Option ℕ → Option ℕ → Bool
id_eq none none = true
id_eq (some a) (some b) = a == b
id_eq _ _ = false

abbrev is_none : {A : Type 0} → Option A → Bool
is_none none = true
is_none (some a) = false

evidence_eq : List Evidence → List Evidence → Bool
evidence_eq [] [] = true
evidence_eq (a ∷ xs) (b ∷ ys) =
    a.memory_id == b.memory_id && (text_eq a.quote b.quote && evidence_eq xs ys)
evidence_eq _ _ = false

-- Equality of two payloads, as JSON.
unfoldable pub payload_eq : Remember → Remember → Bool
unfolding evidence_eq
payload_eq a b =
    a.scope_id == b.scope_id
    && (text_eq a.subject b.subject
        && (text_eq a.predicate b.predicate
            && (text_eq a.value b.value
                && (evidence_eq a.evidence b.evidence
                    && (id_eq a.valid_from b.valid_from && id_eq a.valid_to b.valid_to)))))

-- NEW.payload IS NULL OR NEW.payload IS NOT DISTINCT FROM OLD.payload
payload_kept : Option Remember → Option Remember → Bool
unfolding payload_eq
payload_kept old none = true
payload_kept none (some new) = false
payload_kept (some old) (some new) = payload_eq new old

-- `a <= b` and `a < b` of a column that may be null, where null is not true.
abbrev until_le : Option ℕ → ℕ → Bool
until_le none now = false
until_le (some until) now = leb until now

abbrev until_after : Option ℕ → ℕ → Bool
until_after none now = false
until_after (some until) now = ltb now until

abbrev lease_extended : Option ℕ → Option ℕ → Bool
lease_extended (some old) (some new) = ltb old new
lease_extended _ _ = false

-- interval '300 seconds', in microseconds
abbrev pub lease_limit : ℕ
lease_limit = 300000000

-- NEW.lease_until is after now and at most 300 seconds after it.
abbrev lease_bounded : ℕ → Option ℕ → Bool
lease_bounded now none = true
lease_bounded now (some until) = ltb now until && leb until (now + lease_limit)

-- A claim: of a pending job that is available, or of a running one whose lease is over.
abbrev pub claimable : ℕ → Job → Bool
claimable now old =
    (state_eq old.state pending && leb old.available_at now)
    || (state_eq old.state running && until_le old.lease_until now)

abbrev guard_running : ℕ → Job → Job → Bool
guard_running now old new =
    ((new.attempt == old.attempt + 1
        && (not (id_eq new.lease_token old.lease_token) && claimable now old))
      || (state_eq old.state running
          && (new.attempt == old.attempt
              && (id_eq new.lease_token old.lease_token
                  && (until_after old.lease_until now
                      && lease_extended old.lease_until new.lease_until)))))
    && lease_bounded now new.lease_until

-- What memory.guard_job lets an UPDATE do at the time `now`.
unfoldable pub guard_update : ℕ → Job → Job → Bool
unfolding payload_kept
guard_update now old new =
    not (is_terminal old.state)
    && (payload_kept old.payload new.payload && (elim new.state [
      | cancelled ↦ new.attempt == old.attempt
      | running ↦ guard_running now old new
      | pending ↦
          state_eq old.state running
          && (new.attempt == old.attempt && not (until_le old.lease_until now))
      | succeeded ↦
          state_eq old.state running
          && (new.attempt == old.attempt && not (until_le old.lease_until now))
      | failed ↦ state_eq old.state running && new.attempt == old.attempt
    ]))

-- The CHECK constraints on a row.
unfoldable pub row_valid : Job → Bool
row_valid j =
    leb 1 j.reference_count
    && (leb j.reference_count 32
        && (leb j.attempt 5 && (elim j.state [
          | pending ↦
              is_none j.lease_token
              && (is_none j.lease_until && (is_none j.result_id && not (is_none j.payload)))
          | running ↦
              not (is_none j.lease_token)
              && (not (is_none j.lease_until)
                  && (is_none j.result_id && (not (is_none j.payload) && is_none j.error_code)))
          | succeeded ↦
              is_none j.lease_token
              && (is_none j.lease_until
                  && (not (is_none j.result_id) && (is_none j.payload && is_none j.error_code)))
          | failed ↦
              is_none j.lease_token
              && (is_none j.lease_until
                  && (is_none j.result_id && (is_none j.payload && not (is_none j.error_code))))
          | cancelled ↦
              is_none j.lease_token
              && (is_none j.lease_until
                  && (is_none j.result_id && (is_none j.payload && is_none j.error_code)))
        ])))

abbrev pub job_row : Store → ℕ → Option Job
job_row s id = find (λ (j : Job). j.id == id) s.jobs

-- state IN ('pending','running')
abbrev pub active_in : ℕ → Job → Bool
active_in scope_id j =
    j.scope_id == scope_id && (state_eq j.state pending || state_eq j.state running)

module _ (env : Session) where
  -- memory.writable(id)
  pub writable : Store → ℕ → Bool
  unfolding shown permitted
  writable s id =
      any (λ (o : Object). o.id == id && (shown env s o && permitted env s o.scope_id write))
        s.objects

  -- UNIQUE (tenant_id, result_id)
  result_free : Store → Job → Bool
  result_free s j = elim j.result_id [
    | none ↦ true
    | some result ↦
        not (any (λ (o : Job). id_eq o.result_id (some result) && not (o.id == j.id)) s.jobs)
  ]

  -- The new row, as the trigger and the constraints let it pass.
  unfoldable pub write_row : ℕ → Job → Job → Exec (Option Job)
  unfolding guard_update row_valid result_free
  write_row id old new = do
    free ← gets (λ s. result_free s new)
    require (guard_update env.now old new && (row_valid new && free)) database_error
    modify (λ s. record s { jobs = update (λ (o : Job). o.id == id) (λ _. new) s.jobs })
    pure (some new)

  unfoldable pub update_row : ℕ → (Job → Bool) → (Job → Job) → Bool → Option Job → Exec (Option Job)
  unfolding write_row
  update_row id selected set allowed none = pure none
  update_row id selected set allowed (some old) =
      if allowed && (old.principal_id == env.principal && selected old)
      then write_row id old (set old)
      else pure none

  -- UPDATE memory_ops.job SET ... WHERE id = ... AND the test `selected`, under the policy
  -- job_update: the row as it is then, if there was one.
  unfoldable pub update_job : ℕ → (Job → Bool) → (Job → Job) → Exec (Option Job)
  unfolding writable update_row
  update_job id selected set = do
    row ← gets (λ s. job_row s id)
    allowed ← gets (λ s. writable s id)
    update_row id selected set allowed row

  -- INSERT INTO memory_ops.job
  unfoldable pub insert_job : Job → Exec (Unit {0})
  unfolding row_valid writable
  insert_job j = do
    allowed ← gets (λ s. writable s j.id)
    total ←
        gets
          (λ s. length (select (λ (o : Job). active_in j.scope_id o && visible env s o.id) s.jobs))
    taken ← gets (λ s. any (λ (o : Job). o.id == j.id) s.jobs)
    require
        (allowed
          && (j.principal_id == env.principal
              && (ltb total 100
                  && (state_eq j.state pending && (j.attempt == 0 && (row_valid j && not taken))))))
        database_error
    modify (λ s. record s { jobs = j ∷ s.jobs })

unfoldable pub insert_input : JobInput → Exec (Unit {0})
insert_input i = do
  taken ←
      gets (λ s.
        any (λ (o : JobInput). o.job_id == i.job_id && o.source_id == i.source_id) s.job_inputs)
  require (not taken) database_error
  modify (λ s. record s { job_inputs = i ∷ s.job_inputs })

unfoldable pub insert_identity : JobIdentity → Exec (Unit {0})
insert_identity i = do
  taken ← gets (λ s.
      any
        (λ (o : JobIdentity).
          o.scope_id == i.scope_id
          && (o.principal_id == i.principal_id && text_eq o.input_digest i.input_digest))
        s.job_identities)
  require (not taken) database_error
  modify (λ s. record s { job_identities = i ∷ s.job_identities })
