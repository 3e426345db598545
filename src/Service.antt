-- ===== src/Service.antt =====
-- MemoryService of src/pg_agmemory/service.py: the checks and records that every operation uses.
-- The children hold its operations on memory and what is proved of them.
pub mod Keeps
pub mod Memory
pub mod Timeline
pub mod Replay
mod Tests
use pg_agmemory.Prelude.{
  ℕ, suc, ◌+◌, Bool, true, false, not, ◌&&◌, ◌||◌, Option, none, some, List, [], ◌∷◌, ◌++◌, any,
  find, leb, ltb, ◌==◌, if◌then◌else◌,
}
use pg_agmemory.Text.{
  Text, text_eq, contains, starts_with, codes, uuid_text, json_string_ascii, hex_digit, decimal,
}
use pg_agmemory.Store.Tables.{
  Store, Tenant, Object, Permission, read, write, delete, Kind, Operation, Action, Reply,
  Idempotency, Audit, Episode, AssertionRevision, Evidence,
}
use pg_agmemory.Store.Tables
use pg_agmemory.Store.Exec.{
  Exec, Code, not_found, idempotency_conflict, invalid_evidence, memory_error, database_error, pure,
  raise, gets, or_raise, require, modify, ◌>>=◌, ◌>>◌, for_each,
}
use pg_agmemory.Store.Visibility.{Session, permitted, shown, visible, object_row}

-- `SELECT ... ORDER BY`: insertion sort by a test.
module _ {ℓ} {A : Type ℓ} (before : A → A → Bool) where
  unfoldable pub insert_sorted : A → List A → List A
  insert_sorted x [] = x ∷ []
  insert_sorted x (y ∷ ys) = if before y x then y ∷ insert_sorted x ys else x ∷ y ∷ ys

  unfoldable pub order_by : List A → List A
  unfolding insert_sorted
  order_by [] = []
  order_by (x ∷ xs) = insert_sorted x (order_by xs)

abbrev kind_code : Kind → ℕ
kind_code Kind.episode = 0
kind_code Kind.assertion = 1
kind_code Kind.checkpoint = 2
kind_code Kind.tool_effect = 3
kind_code Kind.entity = 4
kind_code Kind.job = 5

abbrev pub kind_eq : Kind → Kind → Bool
kind_eq a b = kind_code a == kind_code b

abbrev operation_code : Operation → ℕ
operation_code Operation.observe = 0
operation_code Operation.remember = 1
operation_code Operation.revise_assertion = 2
operation_code Operation.plan_tool_effect = 3
operation_code Operation.transition_tool_effect = 4
operation_code Operation.enqueue_job = 5
operation_code Operation.retry_job = 6
operation_code Operation.cancel_job = 7
operation_code Operation.capture = 8
operation_code Operation.capture_batch = 9
operation_code Operation.create_entity = 10
operation_code Operation.create_relation = 11
operation_code Operation.revise_relation = 12
operation_code Operation.save_checkpoint = 13
operation_code Operation.restore_checkpoint = 14
operation_code Operation.forget_memory = 15

abbrev pub operation_eq : Operation → Operation → Bool
operation_eq a b = operation_code a == operation_code b

pub record MemoryReference : Type 0 where
  pub memory_id : ℕ
  pub revision : ℕ

-- A reference with the kind of the object that it names.
pub record ValidReference : Type 0 where
  pub memory_id : ℕ
  pub revision : ℕ
  pub kind : Kind

-- ordered by (str(memory_id), revision): the text of a UUID orders as its number
abbrev pub reference_before : MemoryReference → MemoryReference → Bool
reference_before a b =
    ltb a.memory_id b.memory_id || (a.memory_id == b.memory_id && leb a.revision b.revision)

-- json.dumps({"memory_id": ..., "request": ...}, sort_keys=True)
unfoldable pub request_json : ℕ → Text → Text
request_json id request =
    codes "{\"memory_id\": \""
    ++ (uuid_text id ++ (codes "\", \"request\": " ++ (request ++ codes "}")))

-- uuid.uuid4()
unfoldable pub draw : Session → Exec ℕ
draw env = do
  n ← gets (λ s. s.drawn)
  modify (λ s. record s { drawn = s.drawn + 1 })
  pure (env.uuid4 n)

module _ (env : Session) where
  -- MemoryService.scope
  unfoldable pub scope : ℕ → Permission → Exec (Unit {0})
  scope scope_id permission = do
    allowed ← gets (λ s. permitted env s scope_id read && permitted env s scope_id permission)
    require allowed (memory_error not_found 404)

  -- MemoryService.object
  unfoldable pub object : ℕ → Permission → Exec Object
  unfolding scope
  object object_id permission = do
    found ← gets (λ s. object_row env s object_id)
    row ← or_raise found (memory_error not_found 404)
    scope row.scope_id permission
    pure row

  -- MemoryService.digest
  unfoldable pub digest : Text → Exec Text
  digest value = do secret ← gets (λ s. s.tenant.dedup_secret); pure (env.hmac_sha256 secret value)

  -- The keys of a stored result that `replay` looks at: every object must still be writable.
  unfoldable pub reply_objects : Reply → List ℕ
  reply_objects (Reply.effect_reply memory_id _ _) = memory_id ∷ []
  reply_objects (Reply.observe_reply memory_id) = memory_id ∷ []
  reply_objects (Reply.assertion_reply memory_id _) = memory_id ∷ []
  reply_objects (Reply.job_reply job_id) = job_id ∷ []
  reply_objects (Reply.capture_reply memory_id synthesis_job_id) = memory_id ∷ synthesis_job_id ∷ []
  reply_objects (Reply.batch_reply memory_id synthesis_job_ids) = memory_id ∷ synthesis_job_ids
  reply_objects (Reply.entity_reply memory_id) = memory_id ∷ []
  reply_objects (Reply.checkpoint_reply checkpoint_id _ _ _ _ _) = checkpoint_id ∷ []
  reply_objects (Reply.forget_reply deletion_id _ _ _) = []

  -- The scopes that a stored deletion looks at.
  reply_scopes : Reply → List ℕ
  reply_scopes (Reply.effect_reply _ _ _) = []
  reply_scopes (Reply.observe_reply _) = []
  reply_scopes (Reply.assertion_reply _ _) = []
  reply_scopes (Reply.job_reply _) = []
  reply_scopes (Reply.capture_reply _ _) = []
  reply_scopes (Reply.batch_reply _ _) = []
  reply_scopes (Reply.entity_reply _) = []
  reply_scopes (Reply.checkpoint_reply _ _ _ _ _ _) = []
  reply_scopes (Reply.forget_reply _ _ _ scope_ids) = scope_ids

  pub check_replied : Reply → Exec (Unit {0})
  unfolding object reply_objects reply_scopes
  check_replied result = do
    for_each (reply_objects result) (λ id. object id write >> pure tt)
    for_each (reply_scopes result) (λ id. scope id delete)

  unfoldable pub saved_row : Operation → Text → Store → Option Idempotency
  saved_row operation key_digest s =
      find
        (λ (r : Idempotency).
          r.principal_id == env.principal
          && (operation_eq r.operation operation && text_eq r.key_digest key_digest))
        s.idempotency

  replay_row : Text → Text → Option Idempotency → Exec (Text × Text × Option Reply)
  unfolding check_replied
  replay_row key_digest request_digest none = pure (key_digest, request_digest, none)
  replay_row key_digest request_digest (some row) = do
    require (text_eq row.request_digest request_digest) (memory_error idempotency_conflict 409)
    check_replied row.result
    pure (key_digest, request_digest, some row.result)

  -- MemoryService.replay: the digests, and the stored result of an earlier call with this key.
  unfoldable pub replay : Operation → Text → Text → Exec (Text × Text × Option Reply)
  unfolding digest saved_row replay_row
  replay operation key payload = do
    key_digest ← digest key
    request_digest ← digest payload
    row ← gets (saved_row operation key_digest)
    replay_row key_digest request_digest row

  -- MemoryService.save_result; the primary key admits one row for an operation and a key.
  unfoldable pub save_result : Operation → Text → Text → Reply → Exec (Unit {0})
  unfolding saved_row
  save_result operation key_digest request_digest result = do
    row ← gets (saved_row operation key_digest)
    require (elim row [ none ↦ true | some _ ↦ false ]) database_error
    modify (λ s. record s {
      idempotency =
          record {
            principal_id = env.principal;
            operation = operation;
            key_digest = key_digest;
            request_digest = request_digest;
            result = result;
          }
          ∷ s.idempotency;
    })

  -- MemoryService.audit
  unfoldable pub audit : Action → ℕ → Exec (Unit {0})
  audit action target = modify (λ s. record s {
    audits =
        record { principal_id = env.principal; action = action; target_id = target } ∷ s.audits;
  })

  -- MemoryService.new_object, with the policy object_write and the primary key.
  unfoldable pub new_object : ℕ → Kind → Exec ℕ
  unfolding draw
  new_object scope_id kind = do
    object_id ← draw env
    free ← gets (λ s.
        permitted env s scope_id write && not (any (λ (o : Object). o.id == object_id) s.objects))
    require free database_error
    modify (λ s. record s {
      objects =
          record { id = object_id; scope_id = scope_id; kind = kind; created_at = env.now }
          ∷ s.objects;
    })
    pure object_id

  reference_exists : MemoryReference → Kind → Store → Bool
  reference_exists ref Kind.assertion s =
      any (λ (r : AssertionRevision). r.assertion_id == ref.memory_id && r.revision == ref.revision)
        s.assertion_revisions
  reference_exists ref _ s = ref.revision == 1

  validate_ref : ℕ → Code → MemoryReference → Exec ValidReference
  unfolding object reference_exists
  validate_ref scope_id error_code ref = do
    obj ← object ref.memory_id read
    require
        (obj.scope_id == scope_id
          && (kind_eq obj.kind Kind.episode
              || (kind_eq obj.kind Kind.assertion || kind_eq obj.kind Kind.entity)))
        (memory_error error_code 422)
    exists ← gets (reference_exists ref obj.kind)
    require exists (memory_error error_code 422)
    pure (record { memory_id = ref.memory_id; revision = ref.revision; kind = obj.kind })

  validate_each : ℕ → Code → List MemoryReference → Exec (List ValidReference)
  unfolding validate_ref
  validate_each scope_id error_code [] = pure []
  validate_each scope_id error_code (ref ∷ refs) = do
    valid ← validate_ref scope_id error_code ref
    rest ← validate_each scope_id error_code refs
    pure (valid ∷ rest)

  -- MemoryService.validate_refs
  unfoldable pub validate_refs : ℕ → List MemoryReference → Code → Exec (List ValidReference)
  unfolding validate_each order_by
  validate_refs scope_id refs error_code =
      validate_each scope_id error_code (order_by reference_before refs)

  validate_one : ℕ → Evidence → Exec (Unit {0})
  unfolding object
  validate_one scope_id evidence = do
    source ← object evidence.memory_id read
    require (source.scope_id == scope_id && kind_eq source.kind Kind.episode)
        (memory_error invalid_evidence 422)
    row ← gets (λ s. find (λ (e : Episode). e.id == evidence.memory_id) s.episodes)
    require (elim row [ none ↦ false | some e ↦ contains evidence.quote e.content ])
        (memory_error invalid_evidence 422)

  -- MemoryService.validate_evidence
  unfoldable pub validate_evidence : ℕ → List Evidence → Exec (Unit {0})
  unfolding validate_one
  validate_evidence scope_id sources = for_each sources (validate_one scope_id)

-- Opening this name opens every operation above, and what they are made of: for tests.
unfoldable pub executing : Unit {0}
unfolding ◌>>=◌ pure raise gets or_raise require modify permitted shown visible object_row text_eq
    contains starts_with codes uuid_text json_string_ascii hex_digit decimal order_by draw scope
    object digest replay save_result audit new_object validate_refs validate_evidence
executing = tt
