-- ===== src/Service/Memory.antt =====
-- observe, remember, publish_assertion, insert_revision and revise_assertion of MemoryService
-- (src/pg_agmemory/service.py), with the trigger of storage/002_assertion_revisions.sql.
use pg_agmemory.Prelude.{
  ℕ, ◌+◌, Bool, true, false, not, ◌&&◌, Option, none, some, List, ◌∷◌, ◌++◌, any, find, update, leb,
  length, ltb, ◌==◌, if◌then◌else◌,
}
use pg_agmemory.Text.{Text, codes, text_eq, json_string}
use pg_agmemory.Store.Tables.{
  Store, write, Kind, Operation, observed, remembered, assertion_revised, Reply, observe_reply,
  assertion_reply, Object, SourceEvent, Assertion, AssertionRevision, Evidence, Provenance,
  Remember,
}
use pg_agmemory.Store.Exec.{
  Exec, not_found, source_event_conflict, revision_conflict, revision_limit_exceeded,
  relation_revision_required, memory_error, database_error, serialization_failure,
  tokenizer_unavailable, pure, gets, or_raise, require, modify, ◌>>=◌, ◌>>◌, for_each,
}
use pg_agmemory.Store.Visibility.{Session}
use pg_agmemory.Lexical.{segment}
use pg_agmemory.Service
use pg_agmemory.Service.{
  kind_eq, scope, object, digest, replay, save_result, audit, new_object, validate_evidence,
  request_json,
}

-- models.Observe
pub record Observe : Type 0 where
  pub scope_id : ℕ
  pub source_namespace : Text
  pub source_event_id : Text
  pub occurred_at : ℕ
  pub content : Text
  pub consent_reference : Text

-- models.ReviseAssertion
pub record ReviseAssertion : Type 0 where
  pub expected_revision : ℕ
  pub value : Text
  pub evidence : List Evidence
  pub valid_from : Option ℕ
  pub valid_to : Option ℕ
  pub reason : Text

-- pydantic's JSON of the requests.
pub record MemoryJson : Type 0 where
  pub observe_json : Observe → Text
  pub remember_json : Remember → Text
  pub revise_json : ReviseAssertion → Text

-- json.dumps([namespace, event_id], ensure_ascii=False)
event_json : Observe → Text
event_json o =
    codes "["
    ++ (json_string o.source_namespace
        ++ (codes ", " ++ (json_string o.source_event_id ++ codes "]")))

-- What insert_revision reads of a Remember or a ReviseAssertion.
pub record RevisionContent : Type 0 where
  pub value : Text
  pub evidence : List Evidence
  pub valid_from : Option ℕ
  pub valid_to : Option ℕ
  pub reason : Option Text

abbrev pub assertion_row : Store → ℕ → Option Assertion
assertion_row s id = find (λ (a : Assertion). a.id == id) s.assertions

abbrev of_revision : ℕ → ℕ → AssertionRevision → Bool
of_revision id revision r = r.assertion_id == id && r.revision == revision

-- Revision 1 has no correction reason, every other one has.
abbrev reason_valid : ℕ → Option Text → Bool
reason_valid revision none = revision == 1
reason_valid revision (some reason) =
    ltb 1 revision && (leb 1 (length reason) && leb (length reason) 256)

-- NOT isempty(valid_time)
abbrev pub interval_valid : Option ℕ → Option ℕ → Bool
interval_valid (some from) (some to) = ltb from to
interval_valid _ _ = true

-- memory.adopt_revision: the interval of the revision before is closed where this one begins.
unfoldable pub adopt_assertion : ℕ → AssertionRevision → Assertion → Exec (Unit {0})
adopt_assertion at r a =
    if r.revision == 1 then require (a.current_revision == 1) database_error else do
      require (r.revision == a.current_revision + 1) database_error
      row ← gets (λ s. find (of_revision r.assertion_id a.current_revision) s.assertion_revisions)
      previous ← or_raise row database_error
      require (elim previous.known_until [ none ↦ ltb previous.recorded_at at | some _ ↦ false ])
          serialization_failure
      modify (λ s. record s {
        assertion_revisions =
            update (of_revision r.assertion_id a.current_revision)
              (λ (o : AssertionRevision). record o { known_until = some at }) s.assertion_revisions;
        assertions =
            update (λ (o : Assertion). o.id == r.assertion_id)
              (λ (o : Assertion). record o { current_revision = r.revision }) s.assertions;
      })

-- INSERT INTO memory.assertion_revision
unfoldable pub insert_assertion_revision : ℕ → AssertionRevision → Exec (Unit {0})
unfolding adopt_assertion
insert_assertion_revision at r = do
  head ← gets (λ s. assertion_row s r.assertion_id)
  a ← or_raise head database_error
  adopt_assertion at r a
  taken ← gets (λ s. any (of_revision r.assertion_id r.revision) s.assertion_revisions)
  require
      (leb 1 r.revision
        && (leb r.revision 1000
            && (interval_valid r.valid_from r.valid_to
                && (reason_valid r.revision r.correction_reason && not taken))))
      database_error
  modify (λ s. record s { assertion_revisions = r ∷ s.assertion_revisions })

unfoldable pub insert_assertion : Assertion → Exec (Unit {0})
insert_assertion a = do
  taken ← gets (λ s. any (λ (o : Assertion). o.id == a.id) s.assertions)
  require (not taken) database_error
  modify (λ s. record s { assertions = a ∷ s.assertions })

module _ (env : Session) where
  unfoldable pub segmented : Text → Exec Text
  segmented text = or_raise (segment env.tokenize text) tokenizer_unavailable

  unfoldable pub insert_provenance : ℕ → ℕ → Evidence → Exec (Unit {0})
  insert_provenance object_id revision e = do
    taken ← gets (λ s.
        any
          (λ (p : Provenance).
            p.child_id == object_id && (p.child_revision == revision && p.parent_id == e.memory_id))
          s.provenance)
    require (not taken && ltb 0 (length e.quote)) database_error
    modify (λ s. record s {
      provenance =
          record {
            child_id = object_id;
            child_revision = revision;
            parent_id = e.memory_id;
            quote = e.quote;
          }
          ∷ s.provenance;
    })

  -- MemoryService.insert_revision
  unfoldable pub insert_revision : ℕ → ℕ → RevisionContent → Exec (Unit {0})
  unfolding insert_assertion_revision insert_provenance segmented
  insert_revision object_id revision content = do
    insert_assertion_revision env.now (record {
      assertion_id = object_id;
      revision = revision;
      value = content.value;
      valid_from = content.valid_from;
      valid_to = content.valid_to;
      recorded_at = env.now;
      known_until = none;
      correction_reason = content.reason;
    })
    for_each content.evidence (insert_provenance object_id revision)
    row ← gets (λ s. assertion_row s object_id)
    identity ← or_raise row (memory_error not_found 404)
    text ← segmented (identity.subject ++ (32 ∷ (identity.predicate ++ (32 ∷ content.value))))
    modify (λ s. record s {
      assertion_lexicals =
          record { assertion_id = object_id; revision = revision; search_text = text }
          ∷ s.assertion_lexicals;
    })

  -- MemoryService.publish_assertion
  unfoldable pub publish_assertion : Remember → Exec Reply
  unfolding insert_revision insert_assertion
  publish_assertion request = do
    scope env request.scope_id write
    validate_evidence env request.scope_id request.evidence
    object_id ← new_object env request.scope_id Kind.assertion
    insert_assertion (record {
      id = object_id;
      scope_id = request.scope_id;
      subject = request.subject;
      predicate = request.predicate;
      current_revision = 1;
      is_relation = false;
    })
    insert_revision object_id 1 (record {
      value = request.value;
      evidence = request.evidence;
      valid_from = request.valid_from;
      valid_to = request.valid_to;
      reason = none;
    })
    audit env remembered object_id
    pure (assertion_reply object_id 1)

  -- The rows of a new episode.
  unfoldable pub insert_episode : Observe → Text → Text → Exec ℕ
  unfolding segmented
  insert_episode request event_hash payload_hash = do
    object_id ← new_object env request.scope_id Kind.episode
    modify (λ s. record s {
      episodes =
          record {
            id = object_id;
            scope_id = request.scope_id;
            occurred_at = request.occurred_at;
            content = request.content;
            consent_reference = request.consent_reference;
          }
          ∷ s.episodes;
    })
    text ← segmented request.content
    modify (λ s. record s {
      episode_lexicals = record { episode_id = object_id; search_text = text } ∷ s.episode_lexicals;
    })
    modify (λ s. record s {
      source_events =
          record {
            scope_id = request.scope_id;
            event_digest = event_hash;
            request_digest = payload_hash;
            object_id = object_id;
          }
          ∷ s.source_events;
    })
    audit env observed object_id
    pure object_id

  event_row : ℕ → Text → Store → Option SourceEvent
  event_row scope_id event_hash s =
      find (λ (e : SourceEvent). e.scope_id == scope_id && text_eq e.event_digest event_hash)
        s.source_events

  unfoldable pub observe_event : Observe → Text → Text → Option SourceEvent → Exec ℕ
  unfolding insert_episode
  observe_event request event_hash payload_hash none =
      insert_episode request event_hash payload_hash
  observe_event request event_hash payload_hash (some duplicate) = do
    require (text_eq duplicate.request_digest payload_hash) (memory_error source_event_conflict 409)
    object env duplicate.object_id write
    pure duplicate.object_id

  unfoldable pub observe_replayed : Observe → Text × Text × Option Reply → Exec Reply
  unfolding event_json event_row observe_event
  observe_replayed request (key_hash, payload_hash, some previous) = pure previous
  observe_replayed request (key_hash, payload_hash, none) = do
    event_hash ← digest env (event_json request)
    duplicate ← gets (event_row request.scope_id event_hash)
    object_id ← observe_event request event_hash payload_hash duplicate
    save_result env Operation.observe key_hash payload_hash (observe_reply object_id)
    pure (observe_reply object_id)

  unfoldable pub remember_replayed : Remember → Text × Text × Option Reply → Exec Reply
  unfolding publish_assertion
  remember_replayed request (key_hash, payload_hash, some previous) = pure previous
  remember_replayed request (key_hash, payload_hash, none) = do
    result ← publish_assertion request
    save_result env Operation.remember key_hash payload_hash result
    pure result

  unfoldable pub revise_replayed :
      ℕ → Object → ReviseAssertion → Text × Text × Option Reply → Exec Reply
  unfolding insert_revision
  revise_replayed object_id obj request (key_hash, payload_hash, some previous) = pure previous
  revise_replayed object_id obj request (key_hash, payload_hash, none) = do
    row ← gets (λ s. assertion_row s object_id)
    head ← or_raise row (memory_error not_found 404)
    require (not head.is_relation) (memory_error relation_revision_required 409)
    require (head.current_revision == request.expected_revision)
        (memory_error revision_conflict 409)
    require (not (request.expected_revision == 1000)) (memory_error revision_limit_exceeded 422)
    validate_evidence env obj.scope_id request.evidence
    insert_revision object_id (request.expected_revision + 1) (record {
      value = request.value;
      evidence = request.evidence;
      valid_from = request.valid_from;
      valid_to = request.valid_to;
      reason = some request.reason;
    })
    save_result env Operation.revise_assertion key_hash payload_hash
        (assertion_reply object_id (request.expected_revision + 1))
    audit env assertion_revised object_id
    pure (assertion_reply object_id (request.expected_revision + 1))

  module _ (json : MemoryJson) where
    -- MemoryService.observe
    unfoldable pub observe : Observe → Text → Exec Reply
    unfolding observe_replayed
    observe request key = do
      scope env request.scope_id write
      replayed ← replay env Operation.observe key (json.observe_json request)
      observe_replayed request replayed

    -- MemoryService.remember
    unfoldable pub remember : Remember → Text → Exec Reply
    unfolding remember_replayed
    remember request key = do
      scope env request.scope_id write
      replayed ← replay env Operation.remember key (json.remember_json request)
      remember_replayed request replayed

    -- MemoryService.revise_assertion
    unfoldable pub revise_assertion : ℕ → ReviseAssertion → Text → Exec Reply
    unfolding revise_replayed
    revise_assertion object_id request key = do
      obj ← object env object_id write
      require (kind_eq obj.kind Kind.assertion) (memory_error not_found 404)
      replayed ←
          replay env Operation.revise_assertion key
            (request_json object_id (json.revise_json request))
      revise_replayed object_id obj request replayed

-- Opening this name opens every operation above: for tests.
unfoldable pub executing : Unit {0}
unfolding Service.executing json_string segment publish_assertion observe remember revise_assertion
executing = tt
