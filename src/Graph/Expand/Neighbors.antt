-- ===== src/Graph/Expand/Neighbors.antt =====
-- The queries of src/pg_agmemory/graphs.py: visible_entities and neighbors.
use pg_agmemory.Prelude.{
  ℕ, Bool, true, false, not, ◌&&◌, ◌||◌, Option, none, some, List, [], ◌∷◌, ◌++◌, map, any, find,
  select, length, leb, ltb, ◌==◌, if◌then◌else◌,
}
use pg_agmemory.Text.{text_eq}
use pg_agmemory.Store.Tables.{
  Store, Entity, EntityEvidence, Relation, RelationRevision, Assertion, AssertionRevision,
}
use pg_agmemory.Store.Visibility.{Session, visible, object_row}
use pg_agmemory.Service.{order_by}
use pg_agmemory.Graph.Expand.Models.{
  Direction, ExpandGraph, EntitySummary, GraphPath, Hop, outgoing, incoming, both,
}

abbrev pub id_in : List ℕ → ℕ → Bool
id_in ids id = any (λ x. x == id) ids

-- A row of the common table expression `adjacent`.
pub record Adjacent : Type 0 where
  pub id : ℕ
  pub revision : ℕ
  pub source_id : ℕ
  pub target_id : ℕ
  pub next_id : ℕ

unfoldable pub adjacent : Relation → ℕ → RelationRevision → Adjacent
adjacent r next v = record {
  id = r.id;
  revision = v.revision;
  source_id = r.source_id;
  target_id = v.target_id;
  next_id = next;
}

-- valid_time @> at: `[from, to)` with open ends
unfoldable pub contains_time : Option ℕ → Option ℕ → ℕ → Bool
contains_time none none at = true
contains_time none (some to) at = ltb at to
contains_time (some from) none at = leb from at
contains_time (some from) (some to) at = leb from at && ltb at to

unfoldable pub outgoing_too : Direction → Bool
outgoing_too outgoing = true
outgoing_too incoming = false
outgoing_too both = true

unfoldable pub incoming_too : Direction → Bool
incoming_too outgoing = false
incoming_too incoming = true
incoming_too both = true

-- ORDER BY x.id, x.revision, x.next_id
unfoldable pub hop_before : Hop → Hop → Bool
hop_before a b =
    ltb a.edge.assertion.memory_id b.edge.assertion.memory_id
    || (a.edge.assertion.memory_id == b.edge.assertion.memory_id
        && (ltb a.edge.assertion.revision b.edge.assertion.revision
            || (a.edge.assertion.revision == b.edge.assertion.revision && leb a.next_id b.next_id)))

-- walk.nodes[-1]; a walk has at least one node.
unfoldable pub last_node : List ℕ → ℕ
last_node [] = 0
last_node (n ∷ []) = n
last_node (n ∷ m ∷ rest) = last_node (m ∷ rest)

module _ (env : Session) (s : Store) where
  -- The policies of memory.relation and memory.relation_revision.
  unfoldable pub relation_shown : Relation → Bool
  relation_shown r = visible env s r.id && visible env s r.source_id

  unfoldable pub revision_shown : RelationRevision → Bool
  unfolding relation_shown
  revision_shown v =
      visible env s v.assertion_id
      && (visible env s v.target_id
          && any (λ (r : Relation). r.id == v.assertion_id && relation_shown r) s.relations)

  unfoldable pub evidence_count : ℕ → ℕ
  evidence_count entity_id = length (
      select
        (λ (e : EntityEvidence).
          e.entity_id == entity_id && (visible env s entity_id && visible env s e.source_id))
        s.entity_evidence)

  unfoldable pub recorded_by : ℕ → ℕ → Bool
  recorded_by id known_at = elim (object_row env s id) [
    | none ↦ false
    | some o ↦ leb o.created_at known_at
  ]

  -- The entities of the scopes that were known, with all their evidence.
  unfoldable pub entity_shown : List ℕ → ℕ → Entity → Bool
  unfolding evidence_count recorded_by
  entity_shown scopes known_at e =
      visible env s e.id
      && (id_in scopes e.scope_id
          && (recorded_by e.id known_at && evidence_count e.id == e.reference_count))

  unfoldable pub summary : Entity → EntitySummary
  summary e = record {
    memory_id = e.id;
    scope_id = e.scope_id;
    entity_type = e.entity_type;
    canonical_label = e.canonical_label;
    recorded_at = elim (object_row env s e.id) [ none ↦ 0 | some o ↦ o.created_at ];
  }

  -- SqlGraph.visible_entities
  unfoldable pub visible_entities : List ℕ → List ℕ → ℕ → List EntitySummary
  unfolding entity_shown summary order_by
  visible_entities ids scopes known_at = map summary (
      order_by (λ (a b : Entity). leb a.id b.id)
        (select (λ (e : Entity). id_in ids e.id && entity_shown scopes known_at e) s.entities))

  unfoldable pub revisions_of : ℕ → List RelationRevision
  unfolding revision_shown
  revisions_of id =
      select (λ (v : RelationRevision). v.assertion_id == id && revision_shown v)
        s.relation_revisions

  unfoldable pub outgoing_rows : ℕ → List Relation → List Adjacent
  unfolding adjacent relation_shown revisions_of
  outgoing_rows node [] = []
  outgoing_rows node (r ∷ rs) =
      (if r.source_id == node && relation_shown r
        then map (λ (v : RelationRevision). adjacent r v.target_id v) (revisions_of r.id)
        else [])
      ++ outgoing_rows node rs

  unfoldable pub incoming_rows : ℕ → List Relation → List Adjacent
  unfolding adjacent relation_shown revisions_of
  incoming_rows node [] = []
  incoming_rows node (r ∷ rs) =
      (if relation_shown r
        then map (λ (v : RelationRevision). adjacent r r.source_id v)
            (select (λ (v : RelationRevision). v.target_id == node) (revisions_of r.id))
        else [])
      ++ incoming_rows node rs

  unfoldable pub adjacent_rows : ℕ → Direction → List Adjacent
  unfolding outgoing_rows incoming_rows outgoing_too incoming_too
  adjacent_rows node direction =
      (if outgoing_too direction then outgoing_rows node s.relations else [])
      ++ (if incoming_too direction then incoming_rows node s.relations else [])

  module _ (request : ExpandGraph) (as_of known_at : ℕ) where
    unfoldable pub endpoint_shown : ℕ → Bool
    unfolding entity_shown
    endpoint_shown id =
        any (λ (e : Entity). e.id == id && entity_shown request.scope_ids known_at e) s.entities

    unfoldable pub assertion_of : Adjacent → Option Assertion
    assertion_of x =
        find
          (λ (a : Assertion).
            a.id == x.id
            && (visible env s a.id
                && (id_in request.scope_ids a.scope_id
                    && any (λ p. text_eq p a.predicate) request.relation_types)))
          s.assertions

    unfoldable pub revision_of : Adjacent → Option AssertionRevision
    unfolding contains_time
    revision_of x =
        find
          (λ (r : AssertionRevision).
            r.assertion_id == x.id
            && (visible env s r.assertion_id
                && (r.revision == x.revision
                    && (contains_time r.valid_from r.valid_to as_of
                        && contains_time (some r.recorded_at) r.known_until known_at))))
          s.assertion_revisions

    -- The joins of one adjacent row.
    unfoldable pub hop_of : Adjacent → List Hop
    unfolding assertion_of revision_of endpoint_shown
    hop_of x = elim (assertion_of x) [
      | none ↦ []
      | some a ↦ elim (revision_of x) [
        | none ↦ []
        | some r ↦
            if endpoint_shown x.source_id && endpoint_shown x.target_id
            then record {
              edge = record {
                assertion = record { memory_id = x.id; revision = x.revision };
                predicate = a.predicate;
                source_entity = x.source_id;
                target_entity = x.target_id;
                valid_from = r.valid_from;
                valid_to = r.valid_to;
                recorded_at = r.recorded_at;
              };
              next_id = x.next_id;
            }
              ∷ []
            else []
      ]
    ]

    unfoldable pub hops : List Adjacent → List Hop
    unfolding hop_of
    hops [] = []
    hops (x ∷ xs) = hop_of x ++ hops xs

    -- The joined rows of the last node of a walk.
    unfoldable pub joined_rows : GraphPath → List Hop
    unfolding hops adjacent_rows last_node
    joined_rows walk = hops (adjacent_rows (last_node walk.nodes) request.direction)

    -- The query of SqlGraph.neighbors without its LIMIT.
    unfoldable pub neighbor_rows : GraphPath → List Hop
    unfolding joined_rows order_by hop_before
    neighbor_rows walk =
        order_by hop_before
          (select (λ (h : Hop). not (id_in walk.nodes h.next_id)) (joined_rows walk))
