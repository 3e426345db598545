-- ===== src/Graph/Expand.antt =====
-- SqlGraph.expand, neighbors and visible_entities of src/pg_agmemory/graphs.py: the walks along
-- relations that start at some entities.
pub mod Neighbors
pub mod Models
pub mod Walks
pub mod Simple
mod Tests
use pg_agmemory.Prelude.{
  ℕ, zero, suc, ◌+◌, ◌-◌, Bool, true, false, not, ◌&&◌, ◌||◌, Option, none, some, List, [], ◌∷◌,
  ◌++◌, map, any, find, select, take, length, leb, ltb, ◌==◌, if◌then◌else◌,
}
use pg_agmemory.Text.{Text, text_eq}
use pg_agmemory.Store.Rows.{EntityType}
use pg_agmemory.Store.Tables.{
  Store, Object, Entity, EntityEvidence, Relation, RelationRevision, Assertion, AssertionRevision,
}
use pg_agmemory.Store.Exec.{Exec, graph_invalidated, memory_error, pure, gets, require, ◌>>=◌, ◌>>◌}
use pg_agmemory.Store.Visibility.{Session, visible, object_row}
use pg_agmemory.Service.{MemoryReference, order_by}
use Models.{
  Direction, ExpandGraph, EntitySummary, GraphPath, GraphEdge, Hop, GraphResult, outgoing, incoming,
  both,
}
use Neighbors.{
  id_in, Adjacent, adjacent, contains_time, outgoing_too, incoming_too, hop_before, last_node,
  relation_shown, revision_shown, evidence_count, recorded_by, entity_shown, summary,
  visible_entities, revisions_of, outgoing_rows, incoming_rows, adjacent_rows, endpoint_shown,
  assertion_of, revision_of, hop_of, hops, joined_rows, neighbor_rows,
}

-- What the loops of `expand` change.
pub record Expansion : Type 0 where
  pub paths : List GraphPath
  pub next_frontier : List GraphPath
  pub nodes : List ℕ
  pub edges : List GraphEdge

-- The path of a walk and one more hop.
unfoldable pub extend : GraphPath → Hop → GraphPath
extend walk h = record {
  nodes = walk.nodes ++ h.next_id ∷ [];
  assertions = walk.assertions ++ h.edge.assertion ∷ [];
}

same_edge : GraphEdge → GraphEdge → Bool
same_edge a b =
    a.assertion.memory_id == b.assertion.memory_id && a.assertion.revision == b.assertion.revision

-- edges[key] = edge
set_edge : GraphEdge → List GraphEdge → List GraphEdge
unfolding same_edge
set_edge e [] = e ∷ []
set_edge e (f ∷ fs) = if same_edge e f then e ∷ fs else f ∷ set_edge e fs

-- nodes.add(id)
add_node : ℕ → List ℕ → List ℕ
add_node id ids = if id_in ids id then ids else ids ++ id ∷ []

add_hop : GraphPath → Hop → Expansion → Expansion
unfolding extend set_edge add_node
add_hop walk h x = record {
  paths = x.paths ++ extend walk h ∷ [];
  next_frontier = x.next_frontier ++ extend walk h ∷ [];
  nodes = add_node h.next_id x.nodes;
  edges = set_edge h.edge x.edges;
}

add_hops : GraphPath → List Hop → Expansion → Expansion
add_hops walk [] x = x
add_hops walk (h ∷ hs) x = add_hops walk hs (add_hop walk h x)

-- The loops, for a query that finds the next hops of a walk.
module _ (neighbors : GraphPath → List Hop) (max_paths : ℕ) where
  -- for walk in frontier; the flag is `truncated`
  expand_frontier : List GraphPath → Expansion → Expansion × Bool
  unfolding add_hops add_hop
  expand_frontier [] x = (x, false)
  expand_frontier (walk ∷ rest) x =
      let remaining = max_paths - length x.paths in
      let found = take (remaining + 1) (neighbors walk) in
      let x' = add_hops walk (take remaining found) x in
      let further = expand_frontier rest x' in
      if ltb remaining (length found) then (x', true) else further

  -- for _ in range(max_hops)
  unfoldable pub expand_hops : ℕ → List GraphPath → Expansion → Expansion × Bool
  unfolding expand_frontier
  expand_hops zero frontier x = (x, false)
  expand_hops (suc n) frontier x =
      let done = expand_frontier frontier (record x { next_frontier = [] }) in
      let further = expand_hops n done.0.next_frontier done.0 in if done.1 then done else further

-- GraphPath(nodes=[seed.memory_id], assertions=[])
seed_path : EntitySummary → GraphPath
seed_path e = record { nodes = e.memory_id ∷ []; assertions = [] }

start : List EntitySummary → Expansion
start seeds = record {
  paths = [];
  next_frontier = [];
  nodes = map (λ (e : EntitySummary). e.memory_id) seeds;
  edges = [];
}

edge_before : GraphEdge → GraphEdge → Bool
edge_before a b =
    ltb a.assertion.memory_id b.assertion.memory_id
    || (a.assertion.memory_id == b.assertion.memory_id
        && leb a.assertion.revision b.assertion.revision)

or_now : Option ℕ → ℕ → ℕ
or_now none now = now
or_now (some t) now = t

path_count_is_zero : List GraphPath → Bool
path_count_is_zero [] = true
path_count_is_zero (p ∷ ps) = false

module _ (env : Session) where
  -- The seeds that may be seen, as walks of no hops.
  unfoldable pub seed_paths : Store → ExpandGraph → List GraphPath
  unfolding seed_path or_now
  seed_paths s request =
      map seed_path
        (visible_entities env s request.seeds request.scope_ids (or_now request.known_at env.now))

  -- The rows that lead on from a walk.
  unfoldable pub next_hops : Store → ExpandGraph → GraphPath → List Hop
  unfolding neighbor_rows or_now
  next_hops s request =
      neighbor_rows env s request (or_now request.as_of env.now) (or_now request.known_at env.now)

  walked : Store → ExpandGraph → Expansion × Bool
  unfolding expand_hops seed_paths next_hops start
  walked s request =
      expand_hops (next_hops s request) request.max_paths request.max_hops (seed_paths s request) (
        start (
          visible_entities env s request.seeds request.scope_ids (or_now request.known_at env.now)))

  -- SqlGraph.expand; the tenant's row is there.
  unfoldable pub expand : ExpandGraph → Exec GraphResult
  unfolding walked edge_before path_count_is_zero order_by
  expand request = do
    done ← gets (λ s. walked s request)
    shown ← gets (λ s.
        visible_entities env s done.0.nodes request.scope_ids (or_now request.known_at env.now))
    require (length shown == length done.0.nodes) (memory_error graph_invalidated 409)
    epochs ← gets (λ s. s.tenant)
    pure (record {
      as_of = or_now request.as_of env.now;
      known_at = or_now request.known_at env.now;
      nodes = shown;
      edges = order_by edge_before done.0.edges;
      paths = done.0.paths;
      truncated = done.1;
      access_epoch = epochs.access_epoch;
      deletion_epoch = epochs.deletion_epoch;
      is_empty = path_count_is_zero done.0.paths;
    })
