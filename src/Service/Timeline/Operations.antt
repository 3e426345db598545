-- ===== src/Service/Timeline/Operations.antt =====
-- observe, remember and revise_assertion keep every assertion's history a timeline.
use pg_agmemory.Prelude.{ℕ, Option, none, some, List, ◌∷◌, refl}
use pg_agmemory.Text.{Text}
use pg_agmemory.Store.Tables.{
  Store, Reply, Object, Evidence, Remember, SourceEvent, Episode, EpisodeLexical, AssertionLexical,
  Provenance,
}
use pg_agmemory.Store.Keeps.{Leads, Keeps, Leads-bind, Keeps-modify, Keeps-for_each, keeps_rules}
use pg_agmemory.Store.Visibility.{Session}
use pg_agmemory.Service.Keeps.{
  Ignores, object-Keeps, scope-Keeps, digest-Keeps, replay-Keeps, save_result-Keeps, audit-Keeps,
  new_object-Keeps, validate_evidence-Keeps,
}
use pg_agmemory.Service.Timeline.{HasTimelines, IsDrafting}
use pg_agmemory.Service.Timeline.Insert.{
  insert_assertion_revision-HasTimelines, insert_assertion_revision-draft, insert_assertion-draft,
}
use pg_agmemory.Service.Memory.{
  Observe, ReviseAssertion, MemoryJson, RevisionContent, insert_provenance, insert_revision,
  publish_assertion, insert_episode, observe_event, observe_replayed, remember_replayed,
  revise_replayed, observe, remember, revise_assertion,
}

adds_provenance :
    (s : Store) (p : Provenance)
    → HasTimelines s
    → HasTimelines (record s { provenance = p ∷ s.provenance })
adds_provenance s p c = record { timeline = c.timeline }

pub HasTimelines-ignores : Ignores HasTimelines
HasTimelines-ignores = record {
  idempotency = λ s rows c. record { timeline = c.timeline };
  audits = λ s rows c. record { timeline = c.timeline };
  objects = λ s rows c. record { timeline = c.timeline };
  drawn = λ s n c. record { timeline = c.timeline };
}

lexicals-HasTimelines :
    (s : Store) (rows : List AssertionLexical)
    → HasTimelines s
    → HasTimelines (record s { assertion_lexicals = rows })
lexicals-HasTimelines s rows c = record { timeline = c.timeline }

module _ (env : Session) where
  insert_provenance-HasTimelines :
      (id n : ℕ) (e : Evidence) → Keeps HasTimelines (insert_provenance env id n e)
  unfolding insert_provenance
  insert_provenance-HasTimelines id n e = search (keeps_rules, Keeps-modify, adds_provenance)

  pub insert_revision-HasTimelines :
      (id n : ℕ) (content : RevisionContent) → Keeps HasTimelines (insert_revision env id n content)
  unfolding insert_revision
  insert_revision-HasTimelines id n content =
      Leads-bind _ _ (insert_assertion_revision-HasTimelines _ refl) (λ _.
        Leads-bind _ _ (Keeps-for_each _ _ (insert_provenance-HasTimelines id n))
          (λ _. search (keeps_rules, Keeps-modify, lexicals-HasTimelines)))

  pub insert_revision-draft :
      (id : ℕ) (content : RevisionContent)
      → Leads (IsDrafting id) (insert_revision env id 1 content) (λ _. HasTimelines)
  unfolding insert_revision
  insert_revision-draft id content =
      Leads-bind _ _ (insert_assertion_revision-draft _ refl refl) (λ _.
        Leads-bind _ _ (Keeps-for_each _ _ (insert_provenance-HasTimelines id 1))
          (λ _. search (keeps_rules, Keeps-modify, lexicals-HasTimelines)))

  pub publish_assertion-HasTimelines :
      (request : Remember) → Keeps HasTimelines (publish_assertion env request)
  unfolding publish_assertion
  publish_assertion-HasTimelines request = Leads-bind _ _ (scope-Keeps env _ _) (λ _.
      Leads-bind _ _ (validate_evidence-Keeps env _ _) (λ _.
        Leads-bind _ _ (new_object-Keeps env HasTimelines-ignores _ _) (λ id.
          Leads-bind _ _ (insert_assertion-draft _ refl) (λ _.
            Leads-bind _ _ (insert_revision-draft id _)
              (λ _. search (keeps_rules, audit-Keeps, HasTimelines-ignores))))))

  episodes-HasTimelines :
      (s : Store) (rows : List Episode)
      → HasTimelines s
      → HasTimelines (record s { episodes = rows })
  episodes-HasTimelines s rows c = record { timeline = c.timeline }

  episode_lexicals-HasTimelines :
      (s : Store) (rows : List EpisodeLexical)
      → HasTimelines s
      → HasTimelines (record s { episode_lexicals = rows })
  episode_lexicals-HasTimelines s rows c = record { timeline = c.timeline }

  source_events-HasTimelines :
      (s : Store) (rows : List SourceEvent)
      → HasTimelines s
      → HasTimelines (record s { source_events = rows })
  source_events-HasTimelines s rows c = record { timeline = c.timeline }

  insert_episode-HasTimelines :
      (request : Observe) (event_hash payload_hash : Text)
      → Keeps HasTimelines (insert_episode env request event_hash payload_hash)
  unfolding insert_episode
  insert_episode-HasTimelines request event_hash payload_hash =
      search
        (
          keeps_rules, new_object-Keeps, Keeps-modify, episodes-HasTimelines,
          episode_lexicals-HasTimelines, source_events-HasTimelines, audit-Keeps,
          HasTimelines-ignores,
        )
        depth 16

  observe_event-HasTimelines :
      (request : Observe) (event_hash payload_hash : Text) (o : Option SourceEvent)
      → Keeps HasTimelines (observe_event env request event_hash payload_hash o)
  unfolding observe_event
  observe_event-HasTimelines request event_hash payload_hash none =
      insert_episode-HasTimelines request event_hash payload_hash
  observe_event-HasTimelines request event_hash payload_hash (some duplicate) =
      search (keeps_rules, object-Keeps)

  observe_replayed-HasTimelines :
      (request : Observe) (r : Text × Text × Option Reply)
      → Keeps HasTimelines (observe_replayed env request r)
  unfolding observe_replayed
  observe_replayed-HasTimelines request (k, h, some previous) = search keeps_rules
  observe_replayed-HasTimelines request (k, h, none) =
      search
        (
          keeps_rules, digest-Keeps, observe_event-HasTimelines, save_result-Keeps,
          HasTimelines-ignores,
        )
        depth 9

  remember_replayed-HasTimelines :
      (request : Remember) (r : Text × Text × Option Reply)
      → Keeps HasTimelines (remember_replayed env request r)
  unfolding remember_replayed
  remember_replayed-HasTimelines request (k, h, some previous) = search keeps_rules
  remember_replayed-HasTimelines request (k, h, none) =
      search (keeps_rules, publish_assertion-HasTimelines, save_result-Keeps, HasTimelines-ignores)

  revise_replayed-HasTimelines :
      (id : ℕ) (obj : Object) (request : ReviseAssertion) (r : Text × Text × Option Reply)
      → Keeps HasTimelines (revise_replayed env id obj request r)
  unfolding revise_replayed
  revise_replayed-HasTimelines id obj request (k, h, some previous) = search keeps_rules
  revise_replayed-HasTimelines id obj request (k, h, none) =
      search
        (
          keeps_rules, validate_evidence-Keeps, insert_revision-HasTimelines, save_result-Keeps,
          audit-Keeps, HasTimelines-ignores,
        )
        depth 16

  module _ (json : MemoryJson) where
    pub observe-HasTimelines :
        (request : Observe) (key : Text) → Keeps HasTimelines (observe env json request key)
    unfolding observe
    observe-HasTimelines request key =
        search (keeps_rules, scope-Keeps, replay-Keeps, observe_replayed-HasTimelines)

    pub remember-HasTimelines :
        (request : Remember) (key : Text) → Keeps HasTimelines (remember env json request key)
    unfolding remember
    remember-HasTimelines request key =
        search (keeps_rules, scope-Keeps, replay-Keeps, remember_replayed-HasTimelines)

    pub revise_assertion-HasTimelines :
        (id : ℕ) (request : ReviseAssertion) (key : Text)
        → Keeps HasTimelines (revise_assertion env json id request key)
    unfolding revise_assertion
    revise_assertion-HasTimelines id request key =
        search (keeps_rules, object-Keeps, replay-Keeps, revise_replayed-HasTimelines)
