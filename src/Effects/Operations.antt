-- ===== src/Effects/Operations.antt =====
-- Every operation of the effect ledger keeps every history a chain.
use pg_agmemory.Prelude.{ℕ, Option, none, some, List, refl}
use pg_agmemory.Text.{Text, codes}
use pg_agmemory.Store.Tables.{
  Store, Permission, Kind, EffectStatus, planned, ReceiptSource, Origin, api, Reply,
  EffectReference, EffectIdentity,
}
use pg_agmemory.Store.Keeps.{Leads, Keeps, Leads-bind, Keeps-modify, Keeps-for_each, keeps_rules}
use pg_agmemory.Store.Visibility.{Session}
use pg_agmemory.Service.{ValidReference}
use pg_agmemory.Service.Keeps.{
  Ignores, object-Keeps, scope-Keeps, digest-Keeps, replay-Keeps, save_result-Keeps, audit-Keeps,
  new_object-Keeps, validate_refs-Keeps,
}
use pg_agmemory.Effects.Database.{insert_reference, insert_identity}
use pg_agmemory.Effects.Invariant.{
  IsConsistent, IsDrafting, insert_revision-IsConsistent, insert_revision-draft,
  insert_effect-draft,
}
use pg_agmemory.Effects.{
  load, append, insert_plan, plan_new, plan_identified, plan_replayed, transition_replayed,
  fence_one, fence_restore, plan, transition,
}
use pg_agmemory.Effects.Models.{
  PlanToolEffect, TransitionToolEffect, EffectJson, EffectSummary, LoadedEffect,
}

pub IsConsistent-ignores : Ignores IsConsistent
IsConsistent-ignores = record {
  idempotency = λ s rows c. record { history = c.history };
  audits = λ s rows c. record { history = c.history };
  objects = λ s rows c. record { history = c.history };
  drawn = λ s n c. record { history = c.history };
}

references-IsDrafting :
    (x : ℕ) (s : Store) (rows : List EffectReference)
    → IsDrafting x s
    → IsDrafting x (record s { effect_references = rows })
references-IsDrafting x s rows d = record { draft = d.draft; others = d.others }

identities-IsDrafting :
    (x : ℕ) (s : Store) (rows : List EffectIdentity)
    → IsDrafting x s
    → IsDrafting x (record s { effect_identities = rows })
identities-IsDrafting x s rows d = record { draft = d.draft; others = d.others }

insert_reference-IsDrafting :
    (x : ℕ) (r : EffectReference) → Keeps (IsDrafting x) (insert_reference r)
unfolding insert_reference
insert_reference-IsDrafting x r = search (keeps_rules, Keeps-modify, references-IsDrafting)

insert_identity-IsDrafting : (x : ℕ) (i : EffectIdentity) → Keeps (IsDrafting x) (insert_identity i)
unfolding insert_identity
insert_identity-IsDrafting x i = search (keeps_rules, Keeps-modify, identities-IsDrafting)

module _ (env : Session) where
  append-IsConsistent :
      (id n : ℕ) (status : EffectStatus) (reason : Text) (origin : Origin) (reference : Option Text)
      (source : Option ReceiptSource)
      → Keeps IsConsistent (append env id n status reason origin reference source)
  unfolding append
  append-IsConsistent id n status reason origin reference source =
      search (keeps_rules, insert_revision-IsConsistent, audit-Keeps, IsConsistent-ignores)

  append-draft :
      (id : ℕ) (reason : Text)
      → Leads (IsDrafting id) (append env id 1 planned reason api none none) (λ _. IsConsistent)
  unfolding append
  append-draft id reason =
      Leads-bind _ _ (insert_revision-draft _ refl)
        (λ _. search (keeps_rules, audit-Keeps, IsConsistent-ignores))

  insert_plan-IsConsistent :
      (request : PlanToolEffect) (fingerprint external_key request_hash : Text)
      (refs : List ValidReference)
      → Keeps IsConsistent (insert_plan env request fingerprint external_key request_hash refs)
  unfolding insert_plan
  insert_plan-IsConsistent request fingerprint external_key request_hash refs =
      Leads-bind _ _ (new_object-Keeps env IsConsistent-ignores request.scope_id Kind.tool_effect)
        (λ id. Leads-bind _ _ (insert_effect-draft _) (λ _.
          Leads-bind _ _ (Keeps-for_each refs _ (λ ref. insert_reference-IsDrafting id _)) (λ _.
            Leads-bind _ _ (insert_identity-IsDrafting id _)
              (λ _. append-draft id (codes "Intent recorded")))))

  load-IsConsistent : (id : ℕ) (p : Permission) → Keeps IsConsistent (load env id p)
  unfolding load
  load-IsConsistent id p = search (keeps_rules, object-Keeps) depth 12

  plan_new-IsConsistent :
      (request : PlanToolEffect) (request_hash : Text)
      → Keeps IsConsistent (plan_new env request request_hash)
  unfolding plan_new
  plan_new-IsConsistent request request_hash =
      search (keeps_rules, validate_refs-Keeps, digest-Keeps, insert_plan-IsConsistent) depth 16

  plan_identified-IsConsistent :
      (request : PlanToolEffect) (request_hash : Text) (o : Option EffectIdentity)
      → Keeps IsConsistent (plan_identified env request request_hash o)
  unfolding plan_identified
  plan_identified-IsConsistent request request_hash none =
      plan_new-IsConsistent request request_hash
  plan_identified-IsConsistent request request_hash (some i) =
      search (keeps_rules, load-IsConsistent)

  plan_replayed-IsConsistent :
      (request : PlanToolEffect) (r : Text × Text × Option Reply)
      → Keeps IsConsistent (plan_replayed env request r)
  unfolding plan_replayed
  plan_replayed-IsConsistent request (k, h, some previous) = search (keeps_rules, load-IsConsistent)
  plan_replayed-IsConsistent request (k, h, none) =
      search (keeps_rules, plan_identified-IsConsistent, save_result-Keeps, IsConsistent-ignores)
        depth 9

  transition_replayed-IsConsistent :
      (id : ℕ) (request : TransitionToolEffect) (row : LoadedEffect)
      (r : Text × Text × Option Reply)
      → Keeps IsConsistent (transition_replayed env id request row r)
  unfolding transition_replayed
  transition_replayed-IsConsistent id request row (k, h, some previous) = search keeps_rules
  transition_replayed-IsConsistent id request row (k, h, none) =
      search (keeps_rules, append-IsConsistent, save_result-Keeps, IsConsistent-ignores) depth 12

  fence_one-IsConsistent : (effect : EffectSummary) → Keeps IsConsistent (fence_one env effect)
  unfolding fence_one
  fence_one-IsConsistent effect = search (keeps_rules, append-IsConsistent)

  -- Restoring a checkpoint keeps the histories of its run's effects chains.
  pub fence_restore-IsConsistent :
      (scope_id run_id : ℕ) → Keeps IsConsistent (fence_restore env scope_id run_id)
  unfolding fence_restore
  fence_restore-IsConsistent scope_id run_id = search (keeps_rules, fence_one-IsConsistent)

  module _ (json : EffectJson) where
    pub plan-IsConsistent :
        (request : PlanToolEffect) (key : Text) → Keeps IsConsistent (plan env json request key)
    unfolding plan
    plan-IsConsistent request key =
        search (keeps_rules, scope-Keeps, replay-Keeps, plan_replayed-IsConsistent)

    pub transition-IsConsistent :
        (id : ℕ) (request : TransitionToolEffect) (key : Text)
        → Keeps IsConsistent (transition env json id request key)
    unfolding transition
    transition-IsConsistent id request key =
        search (keeps_rules, load-IsConsistent, replay-Keeps, transition_replayed-IsConsistent)
