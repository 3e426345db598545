-- ===== src/Deletion/Purged.antt =====
-- What a purge leaves.
use pg_agmemory.Prelude.{
  ℕ, ◌+◌, ◌≡◌, ◌⊎◌, refl, sym, ap, ◌∙◌, Bool, true, false, not, ◌&&◌, none, List, any, ◌==◌,
  Bool-cases, inl, inr,
}
use mathlib.Core.Path.{subst}
use pg_agmemory.Text.{Text}
use pg_agmemory.Store.Tables.{
  Store, Object, Job, ToolEffect, EffectRevision, Episode, EpisodeLexical, Assertion,
  AssertionRevision, AssertionLexical, Entity, Provenance, JobInput, EffectReference, delete, read,
}
use pg_agmemory.Store.Rows.{
  Checkpoint, CheckpointReference, EntityEvidence, Relation, RelationRevision,
}
use pg_agmemory.Store.Exec.{ok}
use pg_agmemory.Store.Visibility.{Session, grants, permitted, shown, visible}
use pg_agmemory.Deletion.{Forget, ForgetAnswer, purging, forget_replayed}
use pg_agmemory.Deletion.Closure.{member, closure, Derived}
use pg_agmemory.Deletion.Complete.{closure-Derived}
use pg_agmemory.Deletion.Rows.{relation_visible, edges_of, deletable, gone, purge}
use pg_agmemory.Deletion.Seen.{Derived-visible}
use pg_agmemory.Store.Tables.{Operation}
use pg_agmemory.Store.Exec.{◌>>=◌}
use pg_agmemory.Service.{saved_row}
use pg_agmemory.Service.Replay.{replay_new}
use pg_agmemory.Deletion.{forget}
use pg_agmemory.Deletion.Hiding.{
  has, removed, removed_shown, entombed_all, entombed_none, hidden, unhidden, deletable_all,
}
use pg_agmemory.Deletion.Steps.{
  Content, content, barred, left, purge_targets_lem, forget_replayed_lem,
}

-- No row of such an object is left.
abbrev pub RowsGone : Content → ℕ → Type 0
RowsGone c id =
    (has (λ (j : Job). j.id) c.jobs id ≡ false)
    × (has (λ (p : Checkpoint). p.id) c.checkpoints id ≡ false)
    × (has (λ (e : ToolEffect). e.id) c.effects id ≡ false)
    × (has (λ (r : EffectRevision). r.effect_id) c.effect_revisions id ≡ false)
    × (has (λ (a : Assertion). a.id) c.assertions id ≡ false)
    × (has (λ (r : AssertionRevision). r.assertion_id) c.assertion_revisions id ≡ false)
    × (has (λ (l : AssertionLexical). l.assertion_id) c.assertion_lexicals id ≡ false)
    × (has (λ (e : Entity). e.id) c.entities id ≡ false)
    × (has (λ (e : Episode). e.id) c.episodes id ≡ false)
    × (has (λ (l : EpisodeLexical). l.episode_id) c.episode_lexicals id ≡ false)

-- What joins such an object to another is left only where the caller does not see the other.
abbrev pub LinksGone : Session → Store → Content → ℕ → Type 0
LinksGone env s c id =
    (any (λ (p : Provenance). p.child_id == id && visible env s p.parent_id) c.provenance ≡ false)
    × (any (λ (i : JobInput). i.job_id == id && visible env s i.source_id) c.job_inputs ≡ false)
    × (any (λ (r : CheckpointReference). r.checkpoint_id == id && visible env s r.source_id)
          c.checkpoint_references
        ≡ false)
    × (any (λ (r : EffectReference). r.effect_id == id && visible env s r.source_id)
          c.effect_references
        ≡ false)
    × (any (λ (e : EntityEvidence). e.entity_id == id && visible env s e.source_id)
          c.entity_evidence
        ≡ false)
    × (any (λ (r : Relation). r.id == id && visible env s r.source_id) c.relations ≡ false)
    × (any
          (λ (v : RelationRevision).
            v.assertion_id == id
            && (visible env s v.target_id && relation_visible env s v.assertion_id))
          c.relation_revisions
        ≡ false)

purge-LinksGone :
    (env : Session) (targets : List ℕ) (s : Store) (id : ℕ)
    → gone env targets s id ≡ true
    → LinksGone env s (content (purge env targets s)) id
unfolding purge
purge-LinksGone env targets s id h =
    let g = gone env targets s in
    (
      removed_shown (λ (p : Provenance). p.child_id) g (λ p. visible env s p.parent_id) id
          s.provenance h,
      removed_shown (λ (i : JobInput). i.job_id) g (λ i. visible env s i.source_id) id s.job_inputs
          h,
      removed_shown (λ (r : CheckpointReference). r.checkpoint_id) g
          (λ r. visible env s r.source_id) id s.checkpoint_references h,
      removed_shown (λ (r : EffectReference). r.effect_id) g (λ r. visible env s r.source_id) id
          s.effect_references h,
      removed_shown (λ (e : EntityEvidence). e.entity_id) g (λ e. visible env s e.source_id) id
          s.entity_evidence h,
      removed_shown (λ (r : Relation). r.id) g (λ r. visible env s r.source_id) id s.relations h,
      removed_shown (λ (v : RelationRevision). v.assertion_id) g
          (λ v. visible env s v.target_id && relation_visible env s v.assertion_id) id
          s.relation_revisions h,
    )

purge-RowsGone :
    (env : Session) (targets : List ℕ) (s : Store) (id : ℕ)
    → gone env targets s id ≡ true
    → RowsGone (content (purge env targets s)) id
unfolding purge
purge-RowsGone env targets s id h = (
  removed (λ (j : Job). j.id) (gone env targets s) id s.jobs h,
  removed (λ (p : Checkpoint). p.id) (gone env targets s) id s.checkpoints h,
  removed (λ (e : ToolEffect). e.id) (gone env targets s) id s.effects h,
  removed (λ (r : EffectRevision). r.effect_id) (gone env targets s) id s.effect_revisions h,
  removed (λ (a : Assertion). a.id) (gone env targets s) id s.assertions h,
  removed (λ (r : AssertionRevision). r.assertion_id) (gone env targets s) id s.assertion_revisions
      h,
  removed (λ (l : AssertionLexical). l.assertion_id) (gone env targets s) id s.assertion_lexicals h,
  removed (λ (e : Entity). e.id) (gone env targets s) id s.entities h,
  removed (λ (e : Episode). e.id) (gone env targets s) id s.episodes h,
  removed (λ (l : EpisodeLexical). l.episode_id) (gone env targets s) id s.episode_lexicals h,
)

-- memory.visible, of the content.
abbrev visible_in : Session → Content → ℕ → Bool
visible_in env c id =
    any
      (λ (o : Object).
        o.id == id
        && (any (grants env o.scope_id read) c.members && not (any (λ t. t == o.id) c.tombstones)))
      c.objects

visible-content :
    (env : Session) (t : Store) (id : ℕ) → visible env t id ≡ visible_in env (content t) id
unfolding visible shown permitted
visible-content env t id = refl

-- On the content of what a purge leaves.
target-hidden :
    (env other : Session) (targets : List ℕ) (s : Store) (id : ℕ)
    → member targets id ≡ true
    → visible env s id ≡ true
    → visible_in other (content (left env targets s)) id ≡ false
unfolding purge visible
target-hidden env other targets s id there seen =
    hidden (λ (o : Object). any (grants other o.scope_id read) s.members) _ id s.objects
      (entombed_all targets (λ (o : Object). shown env s o) id s.objects s.tombstones there seen)

other-unhidden :
    (env other : Session) (targets : List ℕ) (s : Store) (id : ℕ)
    → member targets id ≡ false
    → visible_in other (content (left env targets s)) id ≡ visible_in other (content s) id
unfolding purge shown
other-unhidden env other targets s id none_such =
    unhidden (λ (o : Object). any (grants other o.scope_id read) s.members) _ s.tombstones id
      s.objects
      (entombed_none targets (λ (o : Object). shown env s o) id s.objects s.tombstones none_such)

target-gone :
    (env : Session) (targets : List ℕ) (s : Store) (id : ℕ)
    → member targets id ≡ true
    → visible env s id ≡ true
    → barred env targets (purge env targets s) ≡ false
    → gone env targets s id ≡ true
unfolding gone deletable purge visible shown permitted
target-gone env targets s id there seen allowed =
    let may =
      deletable_all targets (λ (o : Object). shown env s o)
        (λ (o : Object). permitted env s o.scope_id delete) id s.objects there seen allowed in
    rw (there, seen, may) refl

forget_new :
    (env : Session) (forget_json : Forget → Text) (request : Forget) (key : Text) (s s' : Store)
    (a : ForgetAnswer)
    → saved_row env Operation.forget_memory (env.hmac_sha256 s.tenant.dedup_secret key) s ≡ none
    → forget env forget_json request key s ≡ ok (a, s')
    → forget_replayed env request
        (
          env.hmac_sha256 s.tenant.dedup_secret key,
          env.hmac_sha256 s.tenant.dedup_secret (forget_json request),
          none,
        )
        s
      ≡ ok (a, s')
unfolding forget ◌>>=◌
forget_new env forget_json request key s s' a free ran =
    rw (replay_new env s Operation.forget_memory key (forget_json request) free) at ran

-- If forget succeeds on a request that purges, with a key that the principal has not used for it, then
-- the deletion epoch has grown by one, and each object either is requested or derived, over any number
-- of the edges that the caller sees, from a requested one: then no principal sees it any more at any
-- time; no row of a job, checkpoint, effect, effect revision, assertion, assertion revision, entity,
-- episode or search text is left of it; and of its rows of evidence, of a relation with its revisions,
-- of job inputs and of references none is left whose other end the caller saw. Or it is not: then any
-- principal sees it exactly if it did before.
pub purge_hides_all :
    (env : Session) (forget_json : Forget → Text) (request : Forget) (key : Text) (s s' : Store)
    (a : ForgetAnswer)
    → request.mode ≡ purging
    → saved_row env Operation.forget_memory (env.hmac_sha256 s.tenant.dedup_secret key) s ≡ none
    → forget env forget_json request key s ≡ ok (a, s')
    → (other : Session) (id : ℕ)
    → (s'.tenant.deletion_epoch ≡ s.tenant.deletion_epoch + 1)
      × ((Derived (edges_of env s) request.memory_ids id
            × (visible other s' id ≡ false)
            × RowsGone (content s') id
            × LinksGone env s (content s') id)
          ⊎ ((¬ Derived (edges_of env s) request.memory_ids id)
              × (visible other s' id ≡ visible other s id)))
purge_hides_all env forget_json request key s s' a mode free ran other id =
    let k = env.hmac_sha256 s.tenant.dedup_secret key in
    let h = env.hmac_sha256 s.tenant.dedup_secret (forget_json request) in
    let run = forget_new env forget_json request key s s' a free ran in
    let (seen, scopes, purged) = forget_replayed_lem env request k h s s' a mode run in
    let targets = closure (edges_of env s) request.memory_ids in
    let (same, allowed) = purge_targets_lem env scopes targets k h s s' a purged in
    let derived = closure-Derived (edges_of env s) request.memory_ids id in
    let seen_after = visible-content other s' id ∙ ap (λ c. visible_in other c id) same in
    (
      unfold purge in ap (λ (c : Content). c.epoch) same,
      elim (Bool-cases (member targets id)) [
        | inl there ↦
            let d = derived.0 there in
            let sees = Derived-visible env s request.memory_ids seen id d in
            let lost = target-gone env targets s id there sees allowed in
            inl (
              d,
              seen_after ∙ target-hidden env other targets s id there sees,
              subst (λ c. RowsGone c id) (sym same) (purge-RowsGone env targets s id lost),
              subst (λ c. LinksGone env s c id) (sym same) (purge-LinksGone env targets s id lost),
            )
        | inr none_such ↦ inr (
          λ d. let there = derived.1 d in cc,
          seen_after
              ∙ (other-unhidden env other targets s id none_such
                  ∙ sym (visible-content other s id)),
        )
      ],
    )
