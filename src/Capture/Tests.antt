-- ===== src/Capture/Tests.antt =====
-- A batch of captures on a concrete store.
use pg_agmemory.Prelude.{◌+◌, ◌≡◌, refl, none, [], ◌∷◌}
use pg_agmemory.Text.{Text, codes}
use pg_agmemory.Store.Tables.{Store, fresh_store, admin, batch_reply}
use pg_agmemory.Store.Exec.{ok}
use pg_agmemory.Store.Visibility.{Session}
use pg_agmemory.Capture.{CapturedMemory, CaptureBatch, CaptureJson, create_batch, executing}

-- A toy hash: the text itself.
abbrev env : Session
env = record {
  principal = 1;
  now = 5;
  uuid4 = λ n. 100 + n;
  hmac_sha256 = λ secret m. m;
  tokenize = λ t. none;
}

abbrev json : CaptureJson
json = record {
  capture_json = λ c. c.memory.value;
  batch_json = λ b. codes "b";
  memory = record {
    observe_json = λ o. o.content;
    remember_json = λ r. r.value;
    revise_json = λ r. r.value;
  };
  job = record {
    enqueue_json = λ r. r.value;
    memory_json = λ r. r.value;
    cancel_json = λ c. codes "c";
  };
}

abbrev start : Store
start =
    fresh_store
      (record { scope_id = 10; principal_id = 1; permissions = admin ∷ []; expires_at = none } ∷ [])

abbrev fact : Text → Text → CapturedMemory
fact value quote = record {
  subject = codes "sky";
  predicate = codes "is";
  value = value;
  evidence_quote = quote;
  valid_from = none;
  valid_to = none;
}

abbrev batch : CaptureBatch
batch = record {
  episode = record {
    scope_id = 10;
    source_namespace = codes "n";
    source_event_id = codes "e";
    occurred_at = 1;
    content = codes "blue sky";
    consent_reference = codes "c";
  };
  memories = fact (codes "blue") (codes "blue") ∷ fact (codes "wide") (codes "sky") ∷ [];
}

-- One episode and two jobs.
batch_reply_of :
    (s : Store) × (create_batch env json batch (codes "k") start
      ≡ ok (batch_reply 100 (101 ∷ 102 ∷ []), s))
unfolding executing
batch_reply_of = (_, refl)
