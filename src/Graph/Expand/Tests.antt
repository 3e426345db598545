-- ===== src/Graph/Expand/Tests.antt =====
-- Walks on a concrete graph, and the theorems applied to it.
use pg_agmemory.Prelude.{
  ℕ, ◌≤◌, ◌≡◌, ◌⊎◌, refl, true, none, List, [], ◌∷◌, All, map, take, length, ltb, if◌then◌else◌,
}
use pg_agmemory.Text.{Text, codes}
use pg_agmemory.Store.Rows.{component, Kind, Entity}
use pg_agmemory.Store.Tables.{Store, fresh_store, read, Object, Assertion, AssertionRevision}
use pg_agmemory.Store.Exec.{Result, ok, err, memory_error, graph_invalidated}
use pg_agmemory.Store.Visibility.{Session}
use pg_agmemory.Service.{executing}
use pg_agmemory.Graph.Expand.{seed_paths, next_hops, expand_hops, extend, expand}
use pg_agmemory.Graph.Expand.Neighbors.{visible_entities, entity_shown, neighbor_rows, last_node}
use pg_agmemory.Graph.Expand.Models.{outgoing, ExpandGraph, GraphPath, GraphResult}
use pg_agmemory.Graph.Expand.Walks.{walks, expand-walks}
use pg_agmemory.Graph.Expand.Simple.{IsSimple, expand-IsSimple}

abbrev env : Session
env = record {
  principal = 1;
  now = 50;
  uuid4 = λ n. n;
  hmac_sha256 = λ secret m. m;
  tokenize = λ t. none;
}

abbrev depends_on : Text
depends_on = codes "depends_on"

abbrev object_of : Kind → ℕ → Object
object_of kind id = record { id = id; scope_id = 10; kind = kind; created_at = 1 }

-- Its evidence is left out: no reference is counted.
abbrev entity : ℕ → Entity
entity id = record {
  id = id;
  scope_id = 10;
  entity_type = component;
  canonical_label = codes "c";
  reference_count = 0;
}

abbrev edge_assertion : ℕ → Assertion
edge_assertion id = record {
  id = id;
  scope_id = 10;
  subject = codes "c";
  predicate = depends_on;
  current_revision = 1;
  is_relation = true;
}

abbrev edge_revision : ℕ → AssertionRevision
edge_revision id = record {
  assertion_id = id;
  revision = 1;
  value = codes "c";
  valid_from = none;
  valid_to = none;
  recorded_at = 2;
  known_until = none;
  correction_reason = none;
}

-- 1 → 2 by 7, 2 → 3 by 8, and 2 → 1 by 9.
abbrev graph : Store
graph =
    record (fresh_store (
      record { scope_id = 10; principal_id = 1; permissions = read ∷ []; expires_at = none }
      ∷ [])) {
        objects =
            object_of Kind.entity 1
            ∷ object_of Kind.entity 2
            ∷ object_of Kind.entity 3
            ∷ map (object_of Kind.assertion) (7 ∷ 8 ∷ 9 ∷ []);
        entities = entity 3 ∷ entity 2 ∷ entity 1 ∷ [];
        assertions = map edge_assertion (7 ∷ 8 ∷ 9 ∷ []);
        assertion_revisions = map edge_revision (7 ∷ 8 ∷ 9 ∷ []);
        relations =
            record { id = 7; scope_id = 10; source_id = 1 }
            ∷ record { id = 8; scope_id = 10; source_id = 2 }
            ∷ record { id = 9; scope_id = 10; source_id = 2 }
            ∷ [];
        relation_revisions =
            record { assertion_id = 7; revision = 1; target_id = 2 }
            ∷ record { assertion_id = 8; revision = 1; target_id = 3 }
            ∷ record { assertion_id = 9; revision = 1; target_id = 1 }
            ∷ [];
      }

abbrev from_one : ℕ → ExpandGraph
from_one max_paths = record {
  scope_ids = 10 ∷ [];
  seeds = 1 ∷ [];
  relation_types = depends_on ∷ [];
  direction = outgoing;
  max_hops = 2;
  max_paths = max_paths;
  as_of = none;
  known_at = none;
}

abbrev path_nodes : Result (GraphResult × Store) → List (List ℕ) × List ℕ
path_nodes (ok (r, s)) =
    (map (λ (p : GraphPath). p.nodes) r.paths, if r.truncated then 1 ∷ [] else [])
path_nodes (err e) = ([], 2 ∷ [])

-- The walk back to 1 is not one: it visits 1 twice.
two_walks : path_nodes (expand env (from_one 5) graph) ≡ ((1 ∷ 2 ∷ []) ∷ (1 ∷ 2 ∷ 3 ∷ []) ∷ [], [])
unfolding executing expand visible_entities entity_shown neighbor_rows expand_hops extend last_node
two_walks = refl

one_walk : path_nodes (expand env (from_one 1) graph) ≡ ((1 ∷ 2 ∷ []) ∷ [], 1 ∷ [])
unfolding executing expand visible_entities entity_shown neighbor_rows expand_hops extend last_node
one_walk = refl

expand-walks_example :
    let all = walks (next_hops env graph (from_one 1)) 2 (seed_paths env graph (from_one 1)) in
    (expand env (from_one 1) graph ≡ err (memory_error graph_invalidated 409))
    ⊎ ((r : GraphResult) × (expand env (from_one 1) graph ≡ ok (r, graph))
        × (r.paths ≡ take 1 all)
        × (r.truncated ≡ ltb 1 (length all)))
expand-walks_example = expand-walks env graph (from_one 1)

answer : (r : GraphResult) × (s : Store) × (expand env (from_one 5) graph ≡ ok (r, s))
unfolding executing expand visible_entities entity_shown neighbor_rows expand_hops extend last_node
answer = (_, _, refl)

expand-IsSimple_example : All (IsSimple 2) answer.0.paths × (length answer.0.paths ≤ 5)
expand-IsSimple_example = expand-IsSimple env graph (from_one 5) answer.0 answer.1 answer.2
