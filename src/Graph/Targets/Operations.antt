-- ===== src/Graph/Targets/Operations.antt =====
-- The operations on assertions and relations keep a target for each revision of a relation.
use pg_agmemory.Prelude.{
  ℕ, ◌≡◌, refl, sym, ◌∙◌, Bool, true, false, not, Option, none, some, Option-cases, List, inl, inr,
  arith,
}
use pg_agmemory.Text.{Text}
use pg_agmemory.Store.Tables.{
  Store, Reply, Object, Assertion, AssertionRevision, Evidence, Remember, SourceEvent, Relation,
  Entity, EntityEvidence, Episode, EpisodeLexical, AssertionLexical, Provenance,
}
use pg_agmemory.Store.Keeps.{
  Leads, Keeps, Leads-bind, Leads-before, Leads-gets, Leads-pure, Leads-or_raise, Leads-require,
  Keeps-require, Keeps-modify, Keeps-for_each, keeps_rules,
}
use pg_agmemory.Store.Visibility.{Session}
use pg_agmemory.Service.Keeps.{
  Ignores, object-Keeps, scope-Keeps, digest-Keeps, replay-Keeps, save_result-Keeps, audit-Keeps,
  new_object-Keeps, validate_evidence-Keeps,
}
use pg_agmemory.Service.Memory.{
  Observe, ReviseAssertion, MemoryJson, RevisionContent, assertion_row, insert_provenance,
  insert_assertion_revision, insert_revision, publish_assertion, insert_episode, observe_event,
  observe_replayed, remember_replayed, revise_replayed, observe, remember, revise_assertion,
}
use pg_agmemory.Graph.{
  entity, endpoint, create_entity_replayed, create_relation_replayed, revise_relation_replayed,
  relation_revision, create_entity, create_relation, revise_relation,
}
use pg_agmemory.Graph.Rows.{insert_entity, insert_evidence, insert_relation}
use pg_agmemory.Graph.Models.{CreateEntity, CreateRelation, ReviseRelation, GraphJson}
use pg_agmemory.Graph.Targets.{
  HasTargets, Knows, IsPending, insert_assertion_revision-plain, insert_assertion_revision-relation,
  insert_assertion-Knows, insert_target-HasTargets,
}

-- An invariant of the assertions and the targets alone.
record Overlooks (P : Store → Type 0) : Type 0 where
  service : Ignores P
  provenance : (s : Store) (l : List Provenance) → P s → P (record s { provenance = l })
  lexicals : (s : Store) (l : List AssertionLexical) → P s → P (record s { assertion_lexicals = l })
  episodes : (s : Store) (l : List Episode) → P s → P (record s { episodes = l })
  episode_lexicals :
      (s : Store) (l : List EpisodeLexical) → P s → P (record s { episode_lexicals = l })
  source_events : (s : Store) (l : List SourceEvent) → P s → P (record s { source_events = l })
  entities : (s : Store) (l : List Entity) → P s → P (record s { entities = l })
  entity_evidence :
      (s : Store) (l : List EntityEvidence) → P s → P (record s { entity_evidence = l })
  relations : (s : Store) (l : List Relation) → P s → P (record s { relations = l })

HasTargets-overlooks : Overlooks HasTargets
HasTargets-overlooks = record {
  service = record {
    idempotency = λ s l c. record { targets = c.targets };
    audits = λ s l c. record { targets = c.targets };
    objects = λ s l c. record { targets = c.targets };
    drawn = λ s n c. record { targets = c.targets };
  };
  provenance = λ s l c. record { targets = c.targets };
  lexicals = λ s l c. record { targets = c.targets };
  episodes = λ s l c. record { targets = c.targets };
  episode_lexicals = λ s l c. record { targets = c.targets };
  source_events = λ s l c. record { targets = c.targets };
  entities = λ s l c. record { targets = c.targets };
  entity_evidence = λ s l c. record { targets = c.targets };
  relations = λ s l c. record { targets = c.targets };
}

IsPending-overlooks : (x n : ℕ) → Overlooks (IsPending x n)
IsPending-overlooks x n = record {
  service = record {
    idempotency = λ s l c. record { relation = c.relation; ahead = c.ahead; others = c.others };
    audits = λ s l c. record { relation = c.relation; ahead = c.ahead; others = c.others };
    objects = λ s l c. record { relation = c.relation; ahead = c.ahead; others = c.others };
    drawn = λ s m c. record { relation = c.relation; ahead = c.ahead; others = c.others };
  };
  provenance = λ s l c. record { relation = c.relation; ahead = c.ahead; others = c.others };
  lexicals = λ s l c. record { relation = c.relation; ahead = c.ahead; others = c.others };
  episodes = λ s l c. record { relation = c.relation; ahead = c.ahead; others = c.others };
  episode_lexicals = λ s l c. record { relation = c.relation; ahead = c.ahead; others = c.others };
  source_events = λ s l c. record { relation = c.relation; ahead = c.ahead; others = c.others };
  entities = λ s l c. record { relation = c.relation; ahead = c.ahead; others = c.others };
  entity_evidence = λ s l c. record { relation = c.relation; ahead = c.ahead; others = c.others };
  relations = λ s l c. record { relation = c.relation; ahead = c.ahead; others = c.others };
}

-- The row that insert_revision writes.
abbrev revision_row : Session → ℕ → ℕ → RevisionContent → AssertionRevision
revision_row env id n content = record {
  assertion_id = id;
  revision = n;
  value = content.value;
  valid_from = content.valid_from;
  valid_to = content.valid_to;
  recorded_at = env.now;
  known_until = none;
  correction_reason = content.reason;
}

abbrev rows : Ignores HasTargets
rows = HasTargets-overlooks.service

Knows-relations :
    (kind : Bool) (x : ℕ) (s : Store) (l : List Relation)
    → Knows kind x s
    → Knows kind x (record s { relations = l })
Knows-relations kind x s l c = record {
  all = HasTargets-overlooks.relations s l c.all;
  known = c.known;
}

insert_relation-Keeps :
    (kind : Bool) (x : ℕ) (r : Relation) → Keeps (Knows kind x) (insert_relation r)
unfolding insert_relation
insert_relation-Keeps kind x r = search (keeps_rules, Keeps-modify, Knows-relations)

module _ (env : Session) where
  module _ {P : Store → Type 0} (o : Overlooks P) where
    insert_provenance-Keeps : (id n : ℕ) (e : Evidence) → Keeps P (insert_provenance env id n e)
    unfolding insert_provenance
    insert_provenance-Keeps id n e = search (keeps_rules, Keeps-modify, o.provenance)

    insert_episode-Keeps :
        (request : Observe) (event_hash payload_hash : Text)
        → Keeps P (insert_episode env request event_hash payload_hash)
    unfolding insert_episode
    insert_episode-Keeps request event_hash payload_hash =
        search
          (
            keeps_rules, new_object-Keeps, Keeps-modify, o.episodes, o.episode_lexicals,
            o.source_events, audit-Keeps, o.service,
          )
          depth 16

    observe_event-Keeps :
        (request : Observe) (event_hash payload_hash : Text) (row : Option SourceEvent)
        → Keeps P (observe_event env request event_hash payload_hash row)
    unfolding observe_event
    observe_event-Keeps request event_hash payload_hash none =
        insert_episode-Keeps request event_hash payload_hash
    observe_event-Keeps request event_hash payload_hash (some duplicate) =
        search (keeps_rules, object-Keeps)

    observe_replayed-Keeps :
        (request : Observe) (r : Text × Text × Option Reply)
        → Keeps P (observe_replayed env request r)
    unfolding observe_replayed
    observe_replayed-Keeps request (k, h, some previous) = search keeps_rules
    observe_replayed-Keeps request (k, h, none) =
        search (keeps_rules, digest-Keeps, observe_event-Keeps, save_result-Keeps, o.service) depth
          9

    -- What follows the row of a revision.
    insert_revision-Leads :
        {Q : Store → Type 0} (id n : ℕ) (content : RevisionContent)
        → Leads Q (insert_assertion_revision env.now (revision_row env id n content)) (λ _. P)
        → Leads Q (insert_revision env id n content) (λ _. P)
    unfolding insert_revision
    insert_revision-Leads id n content first = Leads-bind _ _ first (λ _.
        Leads-bind _ _ (Keeps-for_each _ _ (insert_provenance-Keeps id n))
          (λ _. search (keeps_rules, Keeps-modify, o.lexicals)))

  insert_revision-plain :
      (id n : ℕ) (content : RevisionContent)
      → Leads (Knows false id) (insert_revision env id n content) (λ _. HasTargets)
  insert_revision-plain id n content =
      insert_revision-Leads HasTargets-overlooks id n content
        (insert_assertion_revision-plain (revision_row env id n content))

  insert_revision-relation :
      (id n : ℕ) (content : RevisionContent)
      → Leads (Knows true id) (insert_revision env id n content) (λ _. IsPending id n)
  insert_revision-relation id n content =
      insert_revision-Leads (IsPending-overlooks id n) id n content
        (insert_assertion_revision-relation (revision_row env id n content))

  publish_assertion-HasTargets :
      (request : Remember) → Keeps HasTargets (publish_assertion env request)
  unfolding publish_assertion
  publish_assertion-HasTargets request = Leads-bind _ _ (scope-Keeps env _ _) (λ _.
      Leads-bind _ _ (validate_evidence-Keeps env _ _) (λ _.
        Leads-bind _ _ (new_object-Keeps env rows _ _) (λ id.
          Leads-bind _ _ (insert_assertion-Knows _) (λ _.
            Leads-bind _ _ (insert_revision-plain id _ _)
              (λ _. search (keeps_rules, audit-Keeps, rows))))))

  remember_replayed-HasTargets :
      (request : Remember) (r : Text × Text × Option Reply)
      → Keeps HasTargets (remember_replayed env request r)
  unfolding remember_replayed
  remember_replayed-HasTargets request (k, h, some previous) = search keeps_rules
  remember_replayed-HasTargets request (k, h, none) =
      search (keeps_rules, publish_assertion-HasTargets, save_result-Keeps, rows)

  -- The row that was read tells the kind.
  Knows-row :
      (id : ℕ) (row : Option Assertion) (a : Assertion) (kind : Bool) (t : Store)
      → HasTargets t
      → row ≡ assertion_row t id
      → row ≡ some a
      → a.is_relation ≡ kind
      → Knows kind id t
  Knows-row id row a kind t c p q e = record { all = c; known = rw (← p, q, e) refl }

  revise_replayed-HasTargets :
      (id : ℕ) (obj : Object) (request : ReviseAssertion) (r : Text × Text × Option Reply)
      → Keeps HasTargets (revise_replayed env id obj request r)
  unfolding revise_replayed
  revise_replayed-HasTargets id obj request (k, h, some previous) = search keeps_rules
  revise_replayed-HasTargets id obj request (k, h, none) = Leads-bind _ _ (Leads-gets _) (λ row.
      Leads-bind _ _ (Leads-or_raise row _) (λ head.
        Leads-bind _ _ (Leads-require (not head.is_relation) _) (λ _.
          Leads-before
            (λ t c. Knows-row id row head false t c.0.0.0 c.0.0.1 c.0.1 (ground (arith, c.1)))
            (Leads-bind _ _ (Keeps-require _ _) (λ _. Leads-bind _ _ (Keeps-require _ _) (λ _.
              Leads-bind _ _ (validate_evidence-Keeps env _ _) (λ _.
                Leads-bind _ _ (insert_revision-plain id _ _)
                  (λ _. search (keeps_rules, save_result-Keeps, audit-Keeps, rows)))))))))

  pub entity-Keeps : {P : Store → Type 0} (id : ℕ) → Keeps P (entity env id)
  unfolding entity
  entity-Keeps id = search (keeps_rules, object-Keeps) depth 12

  pub endpoint-Keeps : {P : Store → Type 0} (id scope_id : ℕ) → Keeps P (endpoint env id scope_id)
  unfolding endpoint
  endpoint-Keeps id scope_id = search (keeps_rules, entity-Keeps)

  insert_entity-Keeps : (e : Entity) → Keeps HasTargets (insert_entity e)
  unfolding insert_entity
  insert_entity-Keeps e = search (keeps_rules, Keeps-modify, HasTargets-overlooks.entities)

  insert_evidence-Keeps : (id : ℕ) (e : Evidence) → Keeps HasTargets (insert_evidence id e)
  unfolding insert_evidence
  insert_evidence-Keeps id e =
      search (keeps_rules, Keeps-modify, HasTargets-overlooks.entity_evidence)

  create_entity_replayed-HasTargets :
      (request : CreateEntity) (r : Text × Text × Option Reply)
      → Keeps HasTargets (create_entity_replayed env request r)
  unfolding create_entity_replayed
  create_entity_replayed-HasTargets request (k, h, some previous) =
      search (keeps_rules, entity-Keeps)
  create_entity_replayed-HasTargets request (k, h, none) =
      search
        (
          keeps_rules, validate_evidence-Keeps, new_object-Keeps, insert_entity-Keeps,
          insert_evidence-Keeps, audit-Keeps, save_result-Keeps, rows,
        )
        depth 16

  create_relation_replayed-HasTargets :
      (request : CreateRelation) (r : Text × Text × Option Reply)
      → Keeps HasTargets (create_relation_replayed env request r)
  unfolding create_relation_replayed
  create_relation_replayed-HasTargets request (k, h, some previous) = search keeps_rules
  create_relation_replayed-HasTargets request (k, h, none) =
      Leads-bind _ _ (endpoint-Keeps _ _) (λ source. Leads-bind _ _ (endpoint-Keeps _ _) (λ target.
        Leads-bind _ _ (validate_evidence-Keeps env _ _) (λ _.
          Leads-bind _ _ (new_object-Keeps env rows _ _) (λ id.
            Leads-bind _ _ (insert_assertion-Knows _) (λ _.
              Leads-bind _ _ (insert_relation-Keeps true id _) (λ _.
                Leads-bind _ _ (insert_revision-relation id 1 _) (λ _.
                  Leads-bind _ _ (insert_target-HasTargets _)
                    (λ _. search (keeps_rules, save_result-Keeps, audit-Keeps, rows)))))))))

  revise_relation_replayed-HasTargets :
      (id : ℕ) (obj : Object) (request : ReviseRelation) (n : ℕ) (r : Text × Text × Option Reply)
      → Leads (Knows true id) (revise_relation_replayed env id obj request n r) (λ _. HasTargets)
  unfolding revise_relation_replayed
  revise_relation_replayed-HasTargets id obj request n (k, h, some previous) =
      Leads-pure _ (λ t c. c.all)
  revise_relation_replayed-HasTargets id obj request n (k, h, none) =
      Leads-bind _ _ (Keeps-require _ _) (λ _. Leads-bind _ _ (Keeps-require _ _) (λ _.
        Leads-bind _ _ (endpoint-Keeps _ _) (λ target.
          Leads-bind _ _ (validate_evidence-Keeps env _ _) (λ _.
            Leads-bind _ _ (insert_revision-relation id _ _) (λ _.
              Leads-bind _ _ (insert_target-HasTargets _)
                (λ _. search (keeps_rules, save_result-Keeps, audit-Keeps, rows)))))))

  relation_revision-Knows :
      (id n : ℕ) (t : Store) → HasTargets t → relation_revision env id t ≡ some n → Knows true id t
  unfolding relation_revision
  relation_revision-Knows id n t c e = record {
    all = c;
    known = elim (Option-cases (assertion_row t id)) [
      | inl missing ↦ ground arith
      | inr (a, row) ↦ ground arith
    ];
  }

  module _ (json : GraphJson) where
    pub create_entity-HasTargets :
        (request : CreateEntity) (key : Text)
        → Keeps HasTargets (create_entity env json request key)
    unfolding create_entity
    create_entity-HasTargets request key =
        search (keeps_rules, scope-Keeps, replay-Keeps, create_entity_replayed-HasTargets)

    pub create_relation-HasTargets :
        (request : CreateRelation) (key : Text)
        → Keeps HasTargets (create_relation env json request key)
    unfolding create_relation
    create_relation-HasTargets request key =
        search (keeps_rules, scope-Keeps, replay-Keeps, create_relation_replayed-HasTargets)

    pub revise_relation-HasTargets :
        (id : ℕ) (request : ReviseRelation) (key : Text)
        → Keeps HasTargets (revise_relation env json id request key)
    unfolding revise_relation
    revise_relation-HasTargets id request key = Leads-bind _ _ (object-Keeps env _ _) (λ obj.
        Leads-bind _ _ (Leads-gets _) (λ found. Leads-bind _ _ (Leads-or_raise found _) (λ n.
          Leads-before (λ t c. relation_revision-Knows id n t c.0.0 (sym c.0.1 ∙ c.1))
            (Leads-bind _ _ (replay-Keeps env _ _ _)
              (revise_relation_replayed-HasTargets id obj request n)))))

  module _ (json : MemoryJson) where
    pub observe-HasTargets :
        (request : Observe) (key : Text) → Keeps HasTargets (observe env json request key)
    unfolding observe
    observe-HasTargets request key =
        search
          (keeps_rules, scope-Keeps, replay-Keeps, observe_replayed-Keeps, HasTargets-overlooks)

    pub remember-HasTargets :
        (request : Remember) (key : Text) → Keeps HasTargets (remember env json request key)
    unfolding remember
    remember-HasTargets request key =
        search (keeps_rules, scope-Keeps, replay-Keeps, remember_replayed-HasTargets)

    pub revise_assertion-HasTargets :
        (id : ℕ) (request : ReviseAssertion) (key : Text)
        → Keeps HasTargets (revise_assertion env json id request key)
    unfolding revise_assertion
    revise_assertion-HasTargets id request key =
        search (keeps_rules, object-Keeps, replay-Keeps, revise_replayed-HasTargets)
