-- ===== src/Graph/Tests.antt =====
-- Entities and relations on a concrete store, and the theorem applied to it.
use pg_agmemory.Prelude.{ℕ, ◌+◌, ◌≡◌, refl, true, none, some, List, [], ◌∷◌}
use pg_agmemory.Text.{Text, codes}
use pg_agmemory.Store.Rows.{component}
use pg_agmemory.Store.Tables.{Store, fresh_store, admin, Evidence}
use pg_agmemory.Store.Visibility.{Session}
use pg_agmemory.Service.Memory.{MemoryJson, assertion_row}
use pg_agmemory.Service.Timeline.{TimelineOf, assertion_history}
use pg_agmemory.Service.Timeline.Ledger.{observe_call}
use pg_agmemory.Graph.{executing}
use pg_agmemory.Graph.Models.{CreateEntity, CreateRelation, ReviseRelation, GraphJson}
use pg_agmemory.Graph.Targets.{kind_of, numbers, target_numbers}
use pg_agmemory.Graph.Ledger.{
  GraphCall, memory_call, entity_call, relation_call, revise_relation_call, IsWhole,
  serve_graph_all, one_target_per_revision,
}

-- A toy hash: the text itself; UUIDs count from 100.
abbrev at_time : ℕ → Session
at_time now = record {
  principal = 1;
  now = now;
  uuid4 = λ n. 100 + n;
  hmac_sha256 = λ secret m. m;
  tokenize = λ t. none;
}

abbrev start : Store
start =
    fresh_store
      (record { scope_id = 10; principal_id = 1; permissions = admin ∷ []; expires_at = none } ∷ [])

start-IsWhole : IsWhole start
start-IsWhole = record {
  timelines = record { timeline = λ id. refl };
  targets = record { targets = λ id. (refl, refl) };
}

abbrev seen : List Evidence
seen = record { memory_id = 100; quote = codes "a" } ∷ []

abbrev entity : Text → CreateEntity
entity label = record {
  scope_id = 10;
  entity_type = component;
  canonical_label = label;
  evidence = seen;
}

abbrev relation : CreateRelation
relation = record {
  scope_id = 10;
  source_entity = 101;
  target_entity = 102;
  predicate = codes "affects";
  evidence = seen;
  valid_from = none;
  valid_to = none;
}

abbrev revision : ReviseRelation
revision = record {
  expected_revision = 1;
  target_entity = 101;
  evidence = seen;
  valid_from = none;
  valid_to = none;
  reason = codes "r";
}

abbrev memory_json : MemoryJson
memory_json = record { observe_json = λ o. []; remember_json = λ r. []; revise_json = λ r. [] }

abbrev json : GraphJson
json = record {
  entity_json = λ e. e.canonical_label;
  relation_json = λ r. [];
  revise_json = λ r. [];
}

-- An episode, two entities, a relation between them, and its revision; the last one is refused.
abbrev calls : List (Session × GraphCall)
calls =
    (
      at_time 1,
      memory_call (
          observe_call
            (record {
              scope_id = 10;
              source_namespace = codes "n";
              source_event_id = codes "e";
              occurred_at = 1;
              content = codes "a";
              consent_reference = codes "c";
            })
            (codes "k1")),
    )
    ∷ (at_time 2, entity_call (entity (codes "x")) (codes "k2"))
    ∷ (at_time 3, entity_call (entity (codes "y")) (codes "k3"))
    ∷ (at_time 4, relation_call relation (codes "k4"))
    ∷ (at_time 5, revise_relation_call 103 revision (codes "k5"))
    ∷ (at_time 6, revise_relation_call 103 revision (codes "k6"))
    ∷ []

abbrev left : Store
left = serve_graph_all memory_json json calls start

is_relation : kind_of left 103 ≡ some true
unfolding serve_graph_all executing
is_relation = refl

two_revisions : numbers left 103 ≡ 2 ∷ 1 ∷ []
unfolding serve_graph_all executing
two_revisions = refl

one_target_per_revision_example :
    TimelineOf (assertion_row left 103) (assertion_history left 103)
    × (target_numbers left 103 ≡ numbers left 103)
one_target_per_revision_example =
    one_target_per_revision memory_json json calls start start-IsWhole 103 is_relation
