-- ===== src/Graph/Ledger.antt =====
-- Any requests on memory and on the graph, one after another.
use pg_agmemory.Prelude.{ℕ, ◌≡◌, refl, true, Option, none, some, List, [], ◌∷◌}
use pg_agmemory.Text.{Text}
use pg_agmemory.Store.Tables.{
  Store, Reply, Object, Evidence, Relation, RelationRevision, Entity, EntityEvidence,
}
use pg_agmemory.Store.Keeps.{
  Keeps, Leads-bind, Keeps-modify, keeps_rules, committed, committed-Keeps,
}
use pg_agmemory.Store.Visibility.{Session}
use pg_agmemory.Service.Keeps.{
  object-Keeps, scope-Keeps, replay-Keeps, save_result-Keeps, audit-Keeps, new_object-Keeps,
  validate_evidence-Keeps,
}
use pg_agmemory.Service.Memory.{MemoryJson, assertion_row}
use pg_agmemory.Service.Timeline.{HasTimelines, IsDrafting, TimelineOf, assertion_history}
use pg_agmemory.Service.Timeline.Insert.{insert_assertion-draft}
use pg_agmemory.Service.Timeline.Operations.{
  HasTimelines-ignores, insert_revision-HasTimelines, insert_revision-draft,
}
use pg_agmemory.Service.Timeline.Ledger.{
  MemoryCall, observe_call, remember_call, revise_call, serve_memory, serve_memory-HasTimelines,
}
use pg_agmemory.Graph.{
  create_entity_replayed, create_relation_replayed, revise_relation_replayed, create_entity,
  create_relation, revise_relation,
}
use pg_agmemory.Graph.Rows.{insert_entity, insert_evidence, insert_relation, insert_target}
use pg_agmemory.Graph.Models.{CreateEntity, CreateRelation, ReviseRelation, GraphJson}
use pg_agmemory.Graph.Targets.{HasTargets, kind_of, numbers, target_numbers}
use pg_agmemory.Graph.Targets.Operations.{
  entity-Keeps, endpoint-Keeps, create_entity-HasTargets, create_relation-HasTargets,
  revise_relation-HasTargets, observe-HasTargets, remember-HasTargets, revise_assertion-HasTargets,
}

-- The requests that write memory or the graph, with their idempotency keys.
pub data GraphCall : Type 0 where
  memory_call : MemoryCall → GraphCall
  entity_call : CreateEntity → Text → GraphCall
  relation_call : CreateRelation → Text → GraphCall
  revise_relation_call : ℕ → ReviseRelation → Text → GraphCall

-- Both parts of the store.
pub record IsWhole (s : Store) : Type 0 where
  pub timelines : HasTimelines s
  pub targets : HasTargets s

relations-IsDrafting :
    (x : ℕ) (s : Store) (l : List Relation)
    → IsDrafting x s
    → IsDrafting x (record s { relations = l })
relations-IsDrafting x s l c = record { draft = c.draft; others = c.others }

insert_relation-IsDrafting : (x : ℕ) (r : Relation) → Keeps (IsDrafting x) (insert_relation r)
unfolding insert_relation
insert_relation-IsDrafting x r = search (keeps_rules, Keeps-modify, relations-IsDrafting)

targets-HasTimelines :
    (s : Store) (l : List RelationRevision)
    → HasTimelines s
    → HasTimelines (record s { relation_revisions = l })
targets-HasTimelines s l c = record { timeline = c.timeline }

insert_target-HasTimelines : (v : RelationRevision) → Keeps HasTimelines (insert_target v)
unfolding insert_target
insert_target-HasTimelines v = search (keeps_rules, Keeps-modify, targets-HasTimelines)

entities-HasTimelines :
    (s : Store) (l : List Entity) → HasTimelines s → HasTimelines (record s { entities = l })
entities-HasTimelines s l c = record { timeline = c.timeline }

evidence-HasTimelines :
    (s : Store) (l : List EntityEvidence)
    → HasTimelines s
    → HasTimelines (record s { entity_evidence = l })
evidence-HasTimelines s l c = record { timeline = c.timeline }

insert_entity-HasTimelines : (e : Entity) → Keeps HasTimelines (insert_entity e)
unfolding insert_entity
insert_entity-HasTimelines e = search (keeps_rules, Keeps-modify, entities-HasTimelines)

insert_evidence-HasTimelines : (id : ℕ) (e : Evidence) → Keeps HasTimelines (insert_evidence id e)
unfolding insert_evidence
insert_evidence-HasTimelines id e = search (keeps_rules, Keeps-modify, evidence-HasTimelines)

module _ (env : Session) where
  create_entity_replayed-HasTimelines :
      (request : CreateEntity) (r : Text × Text × Option Reply)
      → Keeps HasTimelines (create_entity_replayed env request r)
  unfolding create_entity_replayed
  create_entity_replayed-HasTimelines request (k, h, some previous) =
      search (keeps_rules, entity-Keeps)
  create_entity_replayed-HasTimelines request (k, h, none) =
      search
        (
          keeps_rules, validate_evidence-Keeps, new_object-Keeps, insert_entity-HasTimelines,
          insert_evidence-HasTimelines, audit-Keeps, save_result-Keeps, HasTimelines-ignores,
        )
        depth 16

  create_relation_replayed-HasTimelines :
      (request : CreateRelation) (r : Text × Text × Option Reply)
      → Keeps HasTimelines (create_relation_replayed env request r)
  unfolding create_relation_replayed
  create_relation_replayed-HasTimelines request (k, h, some previous) = search keeps_rules
  create_relation_replayed-HasTimelines request (k, h, none) =
      Leads-bind _ _ (endpoint-Keeps env _ _) (λ source.
        Leads-bind _ _ (endpoint-Keeps env _ _) (λ target.
          Leads-bind _ _ (validate_evidence-Keeps env _ _) (λ _.
            Leads-bind _ _ (new_object-Keeps env HasTimelines-ignores _ _) (λ id.
              Leads-bind _ _ (insert_assertion-draft _ refl) (λ _.
                Leads-bind _ _ (insert_relation-IsDrafting id _) (λ _.
                  Leads-bind _ _ (insert_revision-draft env id _) (λ _.
                    Leads-bind _ _ (insert_target-HasTimelines _) (λ _.
                      search
                        (keeps_rules, save_result-Keeps, audit-Keeps, HasTimelines-ignores)))))))))

  revise_relation_replayed-HasTimelines :
      (id : ℕ) (obj : Object) (request : ReviseRelation) (n : ℕ) (r : Text × Text × Option Reply)
      → Keeps HasTimelines (revise_relation_replayed env id obj request n r)
  unfolding revise_relation_replayed
  revise_relation_replayed-HasTimelines id obj request n (k, h, some previous) = search keeps_rules
  revise_relation_replayed-HasTimelines id obj request n (k, h, none) =
      search
        (
          keeps_rules, endpoint-Keeps, validate_evidence-Keeps, insert_revision-HasTimelines,
          insert_target-HasTimelines, save_result-Keeps, audit-Keeps, HasTimelines-ignores,
        )
        depth 16

module _ (memory_json : MemoryJson) (json : GraphJson) where
  unfoldable pub serve_graph : Session → GraphCall → Store → Store
  unfolding serve_memory
  serve_graph env (memory_call call) s = serve_memory memory_json env call s
  serve_graph env (entity_call request key) s = committed (create_entity env json request key s) s
  serve_graph env (relation_call request key) s =
      committed (create_relation env json request key s) s
  serve_graph env (revise_relation_call id request key) s =
      committed (revise_relation env json id request key s) s

  unfoldable pub serve_graph_all : List (Session × GraphCall) → Store → Store
  unfolding serve_graph
  serve_graph_all [] s = s
  serve_graph_all ((env, call) ∷ calls) s = serve_graph_all calls (serve_graph env call s)

  serve_graph-HasTargets :
      (env : Session) (call : GraphCall) (s : Store)
      → HasTargets s
      → HasTargets (serve_graph env call s)
  unfolding serve_graph serve_memory
  serve_graph-HasTargets env (memory_call (observe_call request key)) s c =
      committed-Keeps _ s (observe-HasTargets env memory_json request key) c
  serve_graph-HasTargets env (memory_call (remember_call request key)) s c =
      committed-Keeps _ s (remember-HasTargets env memory_json request key) c
  serve_graph-HasTargets env (memory_call (revise_call id request key)) s c =
      committed-Keeps _ s (revise_assertion-HasTargets env memory_json id request key) c
  serve_graph-HasTargets env (entity_call request key) s c =
      committed-Keeps _ s (create_entity-HasTargets env json request key) c
  serve_graph-HasTargets env (relation_call request key) s c =
      committed-Keeps _ s (create_relation-HasTargets env json request key) c
  serve_graph-HasTargets env (revise_relation_call id request key) s c =
      committed-Keeps _ s (revise_relation-HasTargets env json id request key) c

  create_entity-HasTimelines :
      (env : Session) (request : CreateEntity) (key : Text)
      → Keeps HasTimelines (create_entity env json request key)
  unfolding create_entity
  create_entity-HasTimelines env request key =
      search (keeps_rules, scope-Keeps, replay-Keeps, create_entity_replayed-HasTimelines)

  create_relation-HasTimelines :
      (env : Session) (request : CreateRelation) (key : Text)
      → Keeps HasTimelines (create_relation env json request key)
  unfolding create_relation
  create_relation-HasTimelines env request key =
      search (keeps_rules, scope-Keeps, replay-Keeps, create_relation_replayed-HasTimelines)

  revise_relation-HasTimelines :
      (env : Session) (id : ℕ) (request : ReviseRelation) (key : Text)
      → Keeps HasTimelines (revise_relation env json id request key)
  unfolding revise_relation
  revise_relation-HasTimelines env id request key =
      search (keeps_rules, object-Keeps, replay-Keeps, revise_relation_replayed-HasTimelines) depth
        9

  serve_graph-HasTimelines :
      (env : Session) (call : GraphCall) (s : Store)
      → HasTimelines s
      → HasTimelines (serve_graph env call s)
  unfolding serve_graph
  serve_graph-HasTimelines env (memory_call call) s c =
      serve_memory-HasTimelines memory_json env call s c
  serve_graph-HasTimelines env (entity_call request key) s c =
      committed-Keeps _ s (create_entity-HasTimelines env request key) c
  serve_graph-HasTimelines env (relation_call request key) s c =
      committed-Keeps _ s (create_relation-HasTimelines env request key) c
  serve_graph-HasTimelines env (revise_relation_call id request key) s c =
      committed-Keeps _ s (revise_relation-HasTimelines env id request key) c

  serve_graph_all-IsWhole :
      (calls : List (Session × GraphCall)) (s : Store)
      → IsWhole s
      → IsWhole (serve_graph_all calls s)
  unfolding serve_graph_all
  serve_graph_all-IsWhole [] s c = c
  serve_graph_all-IsWhole ((env, call) ∷ calls) s c =
      serve_graph_all-IsWhole calls (serve_graph env call s) (record {
        timelines = serve_graph-HasTimelines env call s c.timelines;
        targets = serve_graph-HasTargets env call s c.targets;
      })

  -- On a store in which every revision of a relation has its target and every history is a timeline:
  -- after any requests to observe, remember and revise and to create and revise entities and relations, by any principals at any times, failing or not, every
  -- history is a timeline, and the revisions of a relation that is there are those that have a target,
  -- in their order.
  pub one_target_per_revision :
      (calls : List (Session × GraphCall)) (s : Store)
      → IsWhole s
      → (id : ℕ) → kind_of (serve_graph_all calls s) id ≡ some true
      → let t = serve_graph_all calls s in
        TimelineOf (assertion_row t id) (assertion_history t id)
        × (target_numbers t id ≡ numbers t id)
  one_target_per_revision calls s c id relation =
      let whole = serve_graph_all-IsWhole calls s c in
      (whole.timelines.timeline id, rw relation at (whole.targets.targets id))
