-- ===== src/Service/Timeline/Tests.antt =====
-- Memory on a concrete store, and the theorems applied to it.
use pg_agmemory.Prelude.{ℕ, ◌+◌, ◌≡◌, refl, none, some, List, [], ◌∷◌, length, leb, if◌then◌else◌}
use pg_agmemory.Text.{codes}
use pg_agmemory.Store.Tables.{Store, fresh_store, admin, Remember, Assertion}
use pg_agmemory.Store.Visibility.{Session}
use pg_agmemory.Service.Memory.{Observe, ReviseAssertion, MemoryJson, assertion_row, executing}
use pg_agmemory.Service.Timeline.{HasTimelines, assertion_history}
use pg_agmemory.Service.Timeline.Known.{first_recorded, count_known}
use pg_agmemory.Service.Timeline.Ledger.{
  MemoryCall, observe_call, remember_call, revise_call, serve_memory_all,
  serve_memory_all-HasTimelines, one_known_at_any_time,
}

-- A toy hash: the text itself.
abbrev at : ℕ → Session
at t = record {
  principal = 1;
  now = t;
  uuid4 = λ n. 100 + n;
  hmac_sha256 = λ secret m. m;
  tokenize = λ t. none;
}

abbrev json : MemoryJson
json = record {
  observe_json = λ o. o.content;
  remember_json = λ r. r.value;
  revise_json = λ r. r.value;
}

abbrev start : Store
start =
    fresh_store
      (record { scope_id = 10; principal_id = 1; permissions = admin ∷ []; expires_at = none } ∷ [])

abbrev seen : Observe
seen = record {
  scope_id = 10;
  source_namespace = codes "chat";
  source_event_id = codes "1";
  occurred_at = 1;
  content = codes "the sky is blue";
  consent_reference = codes "c";
}

abbrev blue : Remember
blue = record {
  scope_id = 10;
  subject = codes "sky";
  predicate = codes "is";
  value = codes "blue";
  evidence = record { memory_id = 100; quote = codes "sky" } ∷ [];
  valid_from = none;
  valid_to = none;
}

abbrev green : ReviseAssertion
green = record {
  expected_revision = 1;
  value = codes "green";
  evidence = record { memory_id = 100; quote = codes "sky" } ∷ [];
  valid_from = none;
  valid_to = none;
  reason = codes "mistaken";
}

abbrev calls : List (Session × MemoryCall)
calls =
    (at 2, observe_call seen (codes "k1"))
    ∷ (at 3, remember_call blue (codes "k2"))
    ∷ (at 7, revise_call 101 green (codes "k3"))
    ∷ (at 8, revise_call 101 green (codes "k4"))
    ∷ []

start-HasTimelines : HasTimelines start
start-HasTimelines = record { timeline = λ id. refl }

history : length (assertion_history (serve_memory_all json calls start) 101) ≡ 2
unfolding serve_memory_all executing
history = refl

serve_memory_all-HasTimelines_example : HasTimelines (serve_memory_all json calls start)
serve_memory_all-HasTimelines_example =
    serve_memory_all-HasTimelines json calls start start-HasTimelines

row : (a : Assertion) × (assertion_row (serve_memory_all json calls start) 101 ≡ some a)
unfolding serve_memory_all executing
row = (_, refl)

one_known_at_any_time_example :
    let h = assertion_history (serve_memory_all json calls start) 101 in
    count_known 5 h ≡ (if leb (first_recorded h) 5 then 1 else 0)
one_known_at_any_time_example =
    one_known_at_any_time json calls start start-HasTimelines 101 row.0 row.1 5
