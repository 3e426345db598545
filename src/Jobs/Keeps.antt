-- ===== src/Jobs/Keeps.antt =====
-- An invariant of the job table is kept by every operation of Jobs.
use pg_agmemory.Prelude.{
  ℕ, ◌≡◌, ◌⊎◌, refl, Bool, true, false, Option, none, some, inr, List, inl, arith,
}
use pg_agmemory.Text.{Text}
use pg_agmemory.Store.Tables.{
  Store, Permission, Reply, JobState, failed, JobError, Evidence, Remember, Job, JobInput,
  JobIdentity, Assertion, AssertionRevision, AssertionLexical, Provenance,
}
use pg_agmemory.Store.Keeps.{
  Keeps, Leads-bind, Keeps-modify, Keeps-gets, Keeps-pure, Keeps-require, keeps_rules,
}
use pg_agmemory.Store.Visibility.{Session}
use pg_agmemory.Service.Keeps.{
  Ignores, object-Keeps, scope-Keeps, digest-Keeps, replay-Keeps, save_result-Keeps, audit-Keeps,
  new_object-Keeps, validate_evidence-Keeps, draw-Keeps,
}
use pg_agmemory.Service.Memory.{
  RevisionContent, insert_provenance, adopt_assertion, insert_assertion_revision, insert_revision,
  insert_assertion, publish_assertion,
}
use pg_agmemory.Jobs.Database.{update_job, insert_job, insert_input, insert_identity}
use pg_agmemory.Jobs.Machine.{IsSameJob}
use pg_agmemory.Jobs.{
  load, enqueue_new, enqueue_identified, enqueue_replayed, enqueue, cancel_replayed, cancel,
  exhaust, start_attempt, claim_row, claim, lease, heartbeat, publish, fail, check_retry,
}
use pg_agmemory.Jobs.Models.{CancelJob, JobJson}

-- It holds through the writes to other tables, and through one guarded write to the job table.
pub record IsJobInvariant (P : Store → Type 0) : Type 0 where
  pub base : Ignores P
  pub assertions : (s : Store) (rows : List Assertion) → P s → P (record s { assertions = rows })
  pub revised :
      (s : Store) (rows : List AssertionRevision) (heads : List Assertion)
      → P s
      → P (record s { assertion_revisions = rows; assertions = heads })
  pub revisions :
      (s : Store) (rows : List AssertionRevision)
      → P s
      → P (record s { assertion_revisions = rows })
  pub lexicals :
      (s : Store) (rows : List AssertionLexical) → P s → P (record s { assertion_lexicals = rows })
  pub provenance : (s : Store) (rows : List Provenance) → P s → P (record s { provenance = rows })
  pub inputs : (s : Store) (rows : List JobInput) → P s → P (record s { job_inputs = rows })
  pub identities :
      (s : Store) (rows : List JobIdentity) → P s → P (record s { job_identities = rows })
  pub updated :
      (env : Session) (id : ℕ) (selected : Job → Bool) (set : Job → Job)
      → ((o : Job) → IsSameJob o (set o))
      → Keeps P (update_job env id selected set)
  pub inserted : (env : Session) (j : Job) → Keeps P (insert_job env j)

module _ {P : Store → Type 0} (k : IsJobInvariant P) where
  adopt_assertion-Keeps :
      (at : ℕ) (r : AssertionRevision) (a : Assertion) → Keeps P (adopt_assertion at r a)
  unfolding adopt_assertion
  adopt_assertion-Keeps at r a = search (keeps_rules, Keeps-modify, k.revised) depth 9

  insert_assertion_revision-Keeps :
      (at : ℕ) (r : AssertionRevision) → Keeps P (insert_assertion_revision at r)
  unfolding insert_assertion_revision
  insert_assertion_revision-Keeps at r =
      search (keeps_rules, adopt_assertion-Keeps, Keeps-modify, k.revisions) depth 9

  module _ (env : Session) where
    insert_provenance-Keeps : (id n : ℕ) (e : Evidence) → Keeps P (insert_provenance env id n e)
    unfolding insert_provenance
    insert_provenance-Keeps id n e = search (keeps_rules, Keeps-modify, k.provenance)

    insert_revision-Keeps :
        (id n : ℕ) (content : RevisionContent) → Keeps P (insert_revision env id n content)
    unfolding insert_revision
    insert_revision-Keeps id n content =
        search
          (
            keeps_rules, insert_assertion_revision-Keeps, insert_provenance-Keeps, Keeps-modify,
            k.lexicals,
          )
          depth 12

    insert_assertion-Keeps : (a : Assertion) → Keeps P (insert_assertion a)
    unfolding insert_assertion
    insert_assertion-Keeps a = search (keeps_rules, Keeps-modify, k.assertions)

    publish_assertion-Keeps : (request : Remember) → Keeps P (publish_assertion env request)
    unfolding publish_assertion
    publish_assertion-Keeps request =
        search
          (
            keeps_rules, scope-Keeps, validate_evidence-Keeps, new_object-Keeps,
            insert_assertion-Keeps, insert_revision-Keeps, audit-Keeps, k.base,
          )
          depth 16

    load-Keeps : (id : ℕ) (p : Permission) → Keeps P (load env id p)
    unfolding load
    load-Keeps id p = search (keeps_rules, object-Keeps) depth 16

    lease-Keeps : (id token : ℕ) (epochs : Bool) → Keeps P (lease env id token epochs)
    unfolding lease
    lease-Keeps id token epochs = search (keeps_rules, load-Keeps) depth 12

    check_retry-Keeps : (o : Option ℕ) (intent : Text) → Keeps P (check_retry env o intent)
    unfolding check_retry
    check_retry-Keeps none intent = search keeps_rules
    check_retry-Keeps (some parent) intent = search (keeps_rules, load-Keeps) depth 12

    insert_input-Keeps : (i : JobInput) → Keeps P (insert_input i)
    unfolding insert_input
    insert_input-Keeps i = search (keeps_rules, Keeps-modify, k.inputs)

    insert_identity-Keeps : (i : JobIdentity) → Keeps P (insert_identity i)
    unfolding insert_identity
    insert_identity-Keeps i = search (keeps_rules, Keeps-modify, k.identities)

    enqueue_new-Keeps :
        (memory : Remember) (retry_of : Option ℕ) (intent identity : Text)
        → Keeps P (enqueue_new env memory retry_of intent identity)
    unfolding enqueue_new
    enqueue_new-Keeps memory retry_of intent identity =
        search
          (
            keeps_rules, validate_evidence-Keeps, new_object-Keeps, k.inserted, insert_input-Keeps,
            insert_identity-Keeps, audit-Keeps, k.base,
          )
          depth 24

    enqueue_identified-Keeps :
        (memory : Remember) (retry_of : Option ℕ) (intent identity : Text) (o : Option JobIdentity)
        → Keeps P (enqueue_identified env memory retry_of intent identity o)
    unfolding enqueue_identified
    enqueue_identified-Keeps memory retry_of intent identity none =
        enqueue_new-Keeps memory retry_of intent identity
    enqueue_identified-Keeps memory retry_of intent identity (some duplicate) =
        search (keeps_rules, load-Keeps)

    enqueue_replayed-Keeps :
        (json : JobJson) (memory : Remember) (retry_of : Option ℕ) (r : Text × Text × Option Reply)
        → Keeps P (enqueue_replayed env json memory retry_of r)
    unfolding enqueue_replayed
    enqueue_replayed-Keeps json memory retry_of (h, q, some previous) = search keeps_rules
    enqueue_replayed-Keeps json memory retry_of (h, q, none) =
        search
          (
            keeps_rules, digest-Keeps, check_retry-Keeps, enqueue_identified-Keeps,
            save_result-Keeps, k.base,
          )
          depth 16

    pub enqueue-Keeps :
        (json : JobJson) (memory : Remember) (key : Text) (retry_of : Option ℕ)
        → Keeps P (enqueue env json memory key retry_of)
    unfolding enqueue
    enqueue-Keeps json memory key retry_of =
        search (keeps_rules, scope-Keeps, replay-Keeps, enqueue_replayed-Keeps)

    cancel_replayed-Keeps :
        (id : ℕ) (request : CancelJob) (r : Text × Text × Option Reply)
        → Keeps P (cancel_replayed env id request r)
    unfolding cancel_replayed
    cancel_replayed-Keeps id request (h, q, some previous) = search keeps_rules
    cancel_replayed-Keeps id request (h, q, none) =
        Leads-bind _ _ (k.updated env id _ _ (λ o. record { identity = refl; payload = inr refl }))
          (λ _. search (keeps_rules, audit-Keeps, save_result-Keeps, k.base) depth 12)

    pub cancel-Keeps :
        (json : JobJson) (id : ℕ) (request : CancelJob) (key : Text)
        → Keeps P (cancel env json id request key)
    unfolding cancel
    cancel-Keeps json id request key =
        search (keeps_rules, load-Keeps, replay-Keeps, cancel_replayed-Keeps) depth 12

    exhaust-Keeps : (id : ℕ) → Keeps P (exhaust env id)
    unfolding exhaust
    exhaust-Keeps id =
        Leads-bind _ _ (k.updated env id _ _ (λ o. record { identity = refl; payload = inr refl }))
          (λ _. search (keeps_rules, audit-Keeps, k.base))

    start_attempt-Keeps : (lease_seconds id : ℕ) → Keeps P (start_attempt env lease_seconds id)
    unfolding start_attempt
    start_attempt-Keeps lease_seconds id = Leads-bind _ _ (draw-Keeps env k.base) (λ token.
        Leads-bind _ _ (Keeps-gets _) (λ epochs.
          Leads-bind _ _
            (k.updated env id _ _ (λ o. record { identity = refl; payload = inl refl }))
            (λ _. search (keeps_rules, audit-Keeps, k.base))))

    claim_row-Keeps : (lease_seconds : ℕ) (o : Option Job) → Keeps P (claim_row env lease_seconds o)
    unfolding claim_row
    claim_row-Keeps lease_seconds none = search keeps_rules
    claim_row-Keeps lease_seconds (some row) =
        search (keeps_rules, load-Keeps, exhaust-Keeps, start_attempt-Keeps)

    pub claim-Keeps : (lease_seconds : ℕ) → Keeps P (claim env lease_seconds)
    unfolding claim
    claim-Keeps lease_seconds = search (keeps_rules, claim_row-Keeps)

    pub heartbeat-Keeps : (id token : ℕ) → Keeps P (heartbeat env id token)
    unfolding heartbeat
    heartbeat-Keeps id token = Leads-bind _ _ (lease-Keeps id token true) (λ _.
        Leads-bind _ _ (k.updated env id _ _ (λ o. record { identity = refl; payload = inl refl }))
          (λ _. Keeps-pure tt))

    pub publish-Keeps :
        (id token : ℕ) (prepared : Remember) → Keeps P (publish env id token prepared)
    unfolding publish
    publish-Keeps id token prepared = Leads-bind _ _ (lease-Keeps id token true) (λ _.
        Leads-bind _ _ (Keeps-require _ _) (λ _.
          Leads-bind _ _ (publish_assertion-Keeps prepared) (λ _.
            Leads-bind _ _
              (k.updated env id _ _ (λ o. record { identity = refl; payload = inr refl }))
              (λ _. search (keeps_rules, audit-Keeps, k.base)))))

    failed_payload :
        (next : JobState) (p : Option Remember)
        → ((elim next [ failed ↦ none | _ ↦ p ]) ≡ p)
          ⊎ ((elim next [ failed ↦ none | _ ↦ p ]) ≡ none)
    failed_payload next p = ground arith

    pub fail-Keeps :
        (id token : ℕ) (code : JobError) (retry : Bool) (jitter : ℕ)
        → Keeps P (fail env id token code retry jitter)
    unfolding fail
    fail-Keeps id token code retry jitter = Leads-bind _ _ (lease-Keeps id token false) (λ row.
        Leads-bind _ _
          (k.updated env id _ _ (λ o. record { identity = refl; payload = failed_payload _ _ }))
          (λ _. search (keeps_rules, audit-Keeps, k.base)))
