-- ===== src/Effects/Ledger.antt =====
-- Any sequence of requests to the effect ledger, each in its own transaction.
use pg_agmemory.Prelude.{ℕ, suc, ◌≤◌, ◌≡◌, true, some, List, [], ◌∷◌, length, if◌then◌else◌, arith}
use pg_agmemory.Text.{Text}
use pg_agmemory.Store.Tables.{
  Store, EffectStatus, planned, dispatched, unknown, confirmed, failed, EffectRevision, ToolEffect,
}
use pg_agmemory.Store.Keeps.{committed, committed-Keeps}
use pg_agmemory.Store.Visibility.{Session}
use pg_agmemory.Effects.Status.{adoptable, status_eq}
use pg_agmemory.Effects.Database.{effect_row, history_rows}
use pg_agmemory.Effects.Invariant.{IsHistory, IsConsistent}
use pg_agmemory.Effects.Operations.{
  plan-IsConsistent, transition-IsConsistent, fence_restore-IsConsistent,
}
use pg_agmemory.Effects.{plan, transition, fence_restore}
use pg_agmemory.Effects.Models.{PlanToolEffect, TransitionToolEffect, EffectJson}

-- The requests that write effects, with their idempotency keys; a restore of a checkpoint fences
-- the effects of its run.
pub data EffectCall : Type 0 where
  plan_call : PlanToolEffect → Text → EffectCall
  transition_call : ℕ → TransitionToolEffect → Text → EffectCall
  fence_call : ℕ → ℕ → EffectCall

unfoldable pub serve : EffectJson → Session → EffectCall → Store → Store
serve json env (plan_call request key) s = committed (plan env json request key s) s
serve json env (transition_call id request key) s =
    committed (transition env json id request key s) s
serve json env (fence_call scope_id run_id) s = committed (fence_restore env scope_id run_id s) s

unfoldable pub serve_all : EffectJson → List (Session × EffectCall) → Store → Store
unfolding serve
serve_all json [] s = s
serve_all json ((env, call) ∷ calls) s = serve_all json calls (serve json env call s)

serve-IsConsistent :
    (json : EffectJson) (env : Session) (call : EffectCall) (s : Store)
    → IsConsistent s
    → IsConsistent (serve json env call s)
unfolding serve
serve-IsConsistent json env (plan_call request key) s c =
    committed-Keeps _ s (plan-IsConsistent env json request key) c
serve-IsConsistent json env (transition_call id request key) s c =
    committed-Keeps _ s (transition-IsConsistent env json id request key) c
serve-IsConsistent json env (fence_call scope_id run_id) s c =
    committed-Keeps _ s (fence_restore-IsConsistent env scope_id run_id) c

-- On a store in which every effect's revisions are numbered 1, 2, ... up to its current revision,
-- begin with planned and follow the allowed moves, and no revision is left of an effect that is not
-- there: so it stays after any requests to
-- plan, transition and fence effects, by any principals at any times, failing or not.
pub serve_all-IsConsistent :
    (json : EffectJson) (calls : List (Session × EffectCall)) (s : Store)
    → IsConsistent s
    → IsConsistent (serve_all json calls s)
unfolding serve_all
serve_all-IsConsistent json [] s c = c
serve_all-IsConsistent json ((env, call) ∷ calls) s c =
    serve_all-IsConsistent json calls (serve json env call s) (serve-IsConsistent json env call s c)

-- How far along an effect is.
abbrev rank : EffectStatus → ℕ
rank planned = 1
rank dispatched = 2
rank unknown = 3
rank confirmed = 4
rank failed = 4

abbrev newest_rank : List EffectRevision → ℕ
newest_rank [] = 0
newest_rank (r ∷ h) = rank r.status

abbrev pub dispatches : List EffectRevision → ℕ
dispatches [] = 0
dispatches (r ∷ h) =
    let rest = dispatches h in if status_eq r.status dispatched then suc rest else rest

rank_grows : (a b : EffectStatus) → adoptable a b ≡ true → suc (rank a) ≤ rank b
unfolding adoptable
rank_grows a b h = ground arith

dispatched_once :
    (n : ℕ) (h : List EffectRevision)
    → IsHistory n h
    → (length h ≡ n)
      × (n ≤ newest_rank h)
      × (dispatches h ≤ 1)
      × (newest_rank h ≤ 1 → dispatches h ≡ 0)
dispatched_once n [] k = absurd k
dispatched_once n (r ∷ []) k = ground arith
dispatched_once n (r ∷ p ∷ h) k =
    ground (arith, dispatched_once p.revision (p ∷ h), rank_grows p.status r.status)

rank_le : (a : EffectStatus) → rank a ≤ 4
rank_le a = ground arith

newest_rank_le : (h : List EffectRevision) → newest_rank h ≤ 4
newest_rank_le [] = omega arith
newest_rank_le (r ∷ h) = rank_le r.status

-- On a store in which every effect's revisions follow the allowed moves from planned: after any
-- requests to plan, transition and fence effects, an effect that is there has as many revisions as its
-- current revision says, at most four, and has been dispatched at most once.
pub dispatched_at_most_once :
    (json : EffectJson) (calls : List (Session × EffectCall)) (s : Store)
    → IsConsistent s
    → (id : ℕ) (e : ToolEffect) → effect_row (serve_all json calls s) id ≡ some e
    → let h = history_rows (serve_all json calls s) id in
      (length h ≡ e.current_revision) × (e.current_revision ≤ 4) × (dispatches h ≤ 1)
dispatched_at_most_once json calls s c id e row =
    let t = serve_all json calls s in
    let h = history_rows t id in
    let k : IsHistory e.current_revision h =
      rw row at ((serve_all-IsConsistent json calls s c).history id) in
    let (same, up, once, _) = dispatched_once e.current_revision h k in
    (same, omega (arith, up, newest_rank_le h), once)
