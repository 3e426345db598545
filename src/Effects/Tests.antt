-- ===== src/Effects/Tests.antt =====
-- The effect ledger on a concrete store, and the theorems applied to it.
use pg_agmemory.Prelude.{ℕ, ◌+◌, ◌≤◌, ◌≡◌, refl, false, none, some, List, [], ◌∷◌, length}
use pg_agmemory.Text.{codes}
use pg_agmemory.Store.Tables.{
  Store, fresh_store, admin, EffectStatus, planned, dispatched, unknown, confirmed,
  provider_receipt, EffectRevision, ToolEffect,
}
use pg_agmemory.Store.Visibility.{Session}
use pg_agmemory.Effects.Invariant.{IsConsistent}
use pg_agmemory.Effects.Database.{effect_row, history_rows}
use pg_agmemory.Effects.Status.{adoptable, adoptable-eq, status_in, transitions}
use pg_agmemory.Effects.Ledger.{
  EffectCall, plan_call, transition_call, fence_call, serve_all, serve_all-IsConsistent,
  dispatched_at_most_once, dispatches,
}
use pg_agmemory.Effects.{executing}
use pg_agmemory.Effects.Models.{PlanToolEffect, TransitionToolEffect, EffectJson}

-- A toy hash: the text itself.
abbrev at : ℕ → Session
at t = record {
  principal = 1;
  now = t;
  uuid4 = λ n. 100 + n;
  hmac_sha256 = λ secret m. m;
  tokenize = λ t. none;
}

abbrev json : EffectJson
json = record { plan_json = λ p. p.action_hash; transition_json = λ t. t.reason }

-- One scope, 10, in which principal 1 may do everything, with the run 20.
abbrev start : Store
start =
    record (fresh_store (
      record { scope_id = 10; principal_id = 1; permissions = admin ∷ []; expires_at = none }
      ∷ [])) {
        runs =
            record {
              scope_id = 10;
              run_id = 20;
              harness_id = [];
              harness_version = [];
              state_schema_version = 1;
              effects_invalidated = false;
            }
            ∷ [];
      }

abbrev request : PlanToolEffect
request = record {
  scope_id = 10;
  run_id = 20;
  operation_id = 30;
  tool_name = codes "mail";
  action_hash = codes "ab";
  memory_refs = [];
}

abbrev move : ℕ → EffectStatus → TransitionToolEffect
move n status = record {
  expected_revision = n;
  status = status;
  reason = codes "r";
  receipt_reference = none;
  receipt_source = none;
}

abbrev done : ℕ → TransitionToolEffect
done n = record (move n confirmed) {
  receipt_reference = some (codes "x");
  receipt_source = some provider_receipt;
}

-- Planned, dispatched, fenced by a restore, confirmed; a second dispatch is refused.
abbrev calls : List (Session × EffectCall)
calls =
    (at 1, plan_call request (codes "k1"))
    ∷ (at 2, transition_call 100 (move 1 dispatched) (codes "k2"))
    ∷ (at 3, fence_call 10 20)
    ∷ (at 4, transition_call 100 (move 3 dispatched) (codes "k3"))
    ∷ (at 5, transition_call 100 (done 3) (codes "k4"))
    ∷ []

abbrev statuses : List EffectRevision → List EffectStatus
statuses [] = []
statuses (r ∷ h) = r.status ∷ statuses h

calls_history :
    statuses (history_rows (serve_all json calls start) 100)
    ≡ confirmed ∷ unknown ∷ dispatched ∷ planned ∷ []
unfolding serve_all executing
calls_history = refl

start-IsConsistent : IsConsistent start
start-IsConsistent = record { history = λ id. refl }

serve_all-IsConsistent_example : IsConsistent (serve_all json calls start)
serve_all-IsConsistent_example = serve_all-IsConsistent json calls start start-IsConsistent

final_row :
    (e : ToolEffect) × (effect_row (serve_all json calls start) 100 ≡ some e)
    × (e.current_revision ≡ 4)
unfolding serve_all executing
final_row = (_, refl, refl)

dispatched_at_most_once_example :
    let h = history_rows (serve_all json calls start) 100 in
    (length h ≡ final_row.0.current_revision)
    × (final_row.0.current_revision ≤ 4)
    × (dispatches h ≤ 1)
dispatched_at_most_once_example =
    dispatched_at_most_once json calls start start-IsConsistent 100 final_row.0 final_row.1

adoptable-eq_example : adoptable planned dispatched ≡ status_in dispatched (transitions planned)
adoptable-eq_example = adoptable-eq planned dispatched
