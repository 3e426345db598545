-- ===== src/Deletion/Steps.antt =====
-- The steps of a purge.
use pg_agmemory.Prelude.{
  ℕ, ◌+◌, ◌≡◌, refl, ap, ◌∙◌, Bool, true, false, not, ◌&&◌, none, List, ◌++◌, map, any, select, All,
  length, leb, arith,
}
use mathlib.Core.Path.{subst}
use pg_agmemory.Text.{Text}
use pg_agmemory.Store.Tables.{
  Store, Object, Member, Job, Operation, Action, Reply, ToolEffect, EffectRevision, Episode,
  EpisodeLexical, Assertion, AssertionRevision, AssertionLexical, Entity, Provenance, JobInput,
  EffectReference, delete,
}
use pg_agmemory.Store.Rows.{
  Checkpoint, DeletionRequest, CheckpointReference, EntityEvidence, Relation, RelationRevision,
}
use pg_agmemory.Store.Exec.{
  Exec, Failure, deletion_limit_exceeded, memory_error, ok, gets, require, modify, ◌>>=◌, ◌>>◌,
}
use pg_agmemory.Store.Keeps.{>>=-eq-ok, Keeps, Keeps-modify, keeps_rules}
use pg_agmemory.Store.Visibility.{Session, permitted, visible}
use pg_agmemory.Service.{draw, save_result, audit}
use pg_agmemory.Deletion.{
  Forget, ForgetAnswer, Mode, preview, purging, hit, entomb, insert_request, conclude, next_epoch,
  purge_targets, scopes_of, forget_targets, forget_replayed,
}
use pg_agmemory.Deletion.Closure.{closure}
use pg_agmemory.Deletion.Rows.{edges_of, purge}
use pg_agmemory.Deletion.Seen.{scopes_of_lem}

-- The parts of the store that the theorem is about.
pub record Content : Type 0 where
  pub objects : List Object
  pub tombstones : List ℕ
  pub members : List Member
  pub epoch : ℕ
  pub jobs : List Job
  pub checkpoints : List Checkpoint
  pub effects : List ToolEffect
  pub effect_revisions : List EffectRevision
  pub assertions : List Assertion
  pub assertion_revisions : List AssertionRevision
  pub assertion_lexicals : List AssertionLexical
  pub entities : List Entity
  pub episodes : List Episode
  pub episode_lexicals : List EpisodeLexical
  pub provenance : List Provenance
  pub job_inputs : List JobInput
  pub checkpoint_references : List CheckpointReference
  pub effect_references : List EffectReference
  pub entity_evidence : List EntityEvidence
  pub relations : List Relation
  pub relation_revisions : List RelationRevision

abbrev pub content : Store → Content
content s = record {
  objects = s.objects;
  tombstones = s.tombstones;
  members = s.members;
  epoch = s.tenant.deletion_epoch;
  jobs = s.jobs;
  checkpoints = s.checkpoints;
  effects = s.effects;
  effect_revisions = s.effect_revisions;
  assertions = s.assertions;
  assertion_revisions = s.assertion_revisions;
  assertion_lexicals = s.assertion_lexicals;
  entities = s.entities;
  episodes = s.episodes;
  episode_lexicals = s.episode_lexicals;
  provenance = s.provenance;
  job_inputs = s.job_inputs;
  checkpoint_references = s.checkpoint_references;
  effect_references = s.effect_references;
  entity_evidence = s.entity_evidence;
  relations = s.relations;
  relation_revisions = s.relation_revisions;
}

abbrev pub entombed : Session → List ℕ → Store → Store
entombed env targets s = record s {
  tombstones = map (λ (o : Object). o.id) (select (hit env targets s) s.objects) ++ s.tombstones;
}

abbrev pub barred : Session → List ℕ → Store → Bool
barred env targets s =
    any (λ (o : Object). hit env targets s o && not (permitted env s o.scope_id delete)) s.objects

entomb_lem :
    (env : Session) (targets : List ℕ) (s s' : Store)
    → entomb env targets s ≡ ok (tt, s')
    → (s' ≡ entombed env targets s) × (barred env targets s ≡ false)
unfolding entomb ◌>>=◌ gets require modify
entomb_lem env targets s s' h = (ground arith, ground arith)

module _ (env : Session) (c : Content) where
  abbrev Holds : Store → Type 0
  Holds t = content t ≡ c

  draw-Holds : Keeps Holds (draw env)
  unfolding draw
  draw-Holds = search (keeps_rules, Keeps-modify)

  insert_request-Holds : (r : DeletionRequest) → Keeps Holds (insert_request env r)
  unfolding insert_request
  insert_request-Holds r = search (keeps_rules, Keeps-modify)

  save_result-Holds :
      (o : Operation) (k h : Text) (r : Reply) → Keeps Holds (save_result env o k h r)
  unfolding save_result
  save_result-Holds o k h r = search (keeps_rules, Keeps-modify)

  audit-Holds : (a : Action) (target : ℕ) → Keeps Holds (audit env a target)
  unfolding audit
  audit-Holds a target = search (Keeps-modify)

  conclude-Holds :
      (scopes : List ℕ) (count epoch : ℕ) (k h : Text)
      → Keeps Holds (conclude env scopes count epoch k h)
  unfolding conclude
  conclude-Holds scopes count epoch k h =
      search (keeps_rules, draw-Holds, insert_request-Holds, save_result-Holds, audit-Holds) depth
        12

-- The store that a purge leaves, but for its records.
abbrev pub left : Session → List ℕ → Store → Store
left env targets s = next_epoch env (entombed env targets (purge env targets s))

pub purge_targets_lem :
    (env : Session) (scopes targets : List ℕ) (k h : Text) (s s' : Store) (a : ForgetAnswer)
    → purge_targets env scopes targets k h s ≡ ok (a, s')
    → (content s' ≡ content (left env targets s))
      × (barred env targets (purge env targets s) ≡ false)
unfolding purge_targets
purge_targets_lem env scopes targets k h s s' a ran =
    let (_, t1, purging_ran, rest) = >>=-eq-ok (modify (purge env targets)) _ s ran in
    let (_, t2, entombing, rest') = >>=-eq-ok (entomb env targets) _ t1 rest in
    let (_, t3, counting, rest'') = >>=-eq-ok (modify (next_epoch env)) _ t2 rest' in
    let (epoch, t4, reading, last) = >>=-eq-ok (gets (λ s. s.tenant.deletion_epoch)) _ t3 rest'' in
    let e1 : t1 ≡ purge env targets s = unfold modify in ground arith in
    let (e2, allowed) = entomb_lem env targets t1 t2 entombing in
    let e3 : t3 ≡ next_epoch env t2 = unfold modify in ground arith in
    let e4 : t4 ≡ t3 = unfold gets in ground arith in
    let kept =
      (conclude-Holds env (content t4) scopes (length targets) epoch k h).at t4 a s' refl last in
    (
      kept ∙ ap content (e4 ∙ (e3 ∙ ap (next_epoch env) (e2 ∙ ap (entombed env targets) e1))),
      subst (λ t. barred env targets t ≡ false) e1 allowed,
    )

limited :
    (env : Session) (b : Bool) (e : Failure) (m : Mode) (scopes targets : List ℕ) (k h : Text)
    (s s' : Store) (a : ForgetAnswer)
    → m ≡ purging
    → (require b e >> forget_targets env m scopes targets k h) s ≡ ok (a, s')
    → purge_targets env scopes targets k h s ≡ ok (a, s')
unfolding ◌>>=◌ require forget_targets
limited env true e preview scopes targets k h s s' a mode ran = absurd (cc)
limited env true e purging scopes targets k h s s' a mode ran = ran
limited env false e m scopes targets k h s s' a mode ran = absurd (cc)

-- The part of forget after the scopes.
abbrev from_targets : Session → Forget → List ℕ → Text → Text → Exec ForgetAnswer
from_targets env request scopes k h = do
  targets ← gets (λ s. closure (edges_of env s) request.memory_ids)
  require (leb (length targets) (10000 + length request.memory_ids))
      (memory_error deletion_limit_exceeded 422)
  forget_targets env request.mode scopes targets k h

from_targets_lem :
    (env : Session) (request : Forget) (scopes : List ℕ) (k h : Text) (s s' : Store)
    (a : ForgetAnswer)
    → request.mode ≡ purging
    → from_targets env request scopes k h s ≡ ok (a, s')
    → purge_targets env scopes (closure (edges_of env s) request.memory_ids) k h s ≡ ok (a, s')
from_targets_lem env request scopes k h s s' a mode ran =
    let targets = closure (edges_of env s) request.memory_ids in
    let within = leb (length targets) (10000 + length request.memory_ids) in
    let error = memory_error deletion_limit_exceeded 422 in
    let run : (require within error >> forget_targets env request.mode scopes targets k h) s
        ≡ ok (a, s') =
      unfold ◌>>=◌ gets in ran in
    limited env within error request.mode scopes targets k h s s' a mode run

-- The parts of a request that purges, when its key is new.
pub forget_replayed_lem :
    (env : Session) (request : Forget) (k h : Text) (s s' : Store) (a : ForgetAnswer)
    → request.mode ≡ purging
    → forget_replayed env request (k, h, none) s ≡ ok (a, s')
    → All (λ id. visible env s id ≡ true) request.memory_ids
      × (scopes : List ℕ) × (purge_targets env scopes
            (closure (edges_of env s) request.memory_ids)
            k
            h
            s
          ≡ ok (a, s'))
unfolding forget_replayed
forget_replayed_lem env request k h s s' a mode ran =
    let (scopes, t, checking, rest) =
      >>=-eq-ok (scopes_of env request.memory_ids) (λ scopes. from_targets env request scopes k h) s
        ran in
    let (same, seen) = scopes_of_lem env s request.memory_ids scopes t checking in
    (
      seen,
      scopes,
      from_targets_lem env request scopes k h s s' a mode
          (subst (λ u. from_targets env request scopes k h u ≡ ok (a, s')) same rest),
    )
