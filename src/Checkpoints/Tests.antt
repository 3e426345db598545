-- ===== src/Checkpoints/Tests.antt =====
-- Checkpoints on a concrete store, and the theorems applied to it.
use pg_agmemory.Prelude.{ℕ, ◌+◌, ◌≡◌, refl, false, Option, none, some, List, [], ◌∷◌}
use pg_agmemory.Text.{codes}
use pg_agmemory.Store.Rows.{Branch, CheckpointState, PendingEffect}
use pg_agmemory.Store.Rows
use pg_agmemory.Store.Tables.{Store, Tenant, fresh_store, admin}
use pg_agmemory.Store.Tables
use pg_agmemory.Store.Visibility.{Session}
use pg_agmemory.Effects.Models.{EffectSummary}
use pg_agmemory.Checkpoints.{executing}
use pg_agmemory.Checkpoints.Reconcile.{reconcile, is_empty}
use pg_agmemory.Checkpoints.Models.{CreateCheckpoint, RestoreCheckpoint, CheckpointJson, Saved}
use pg_agmemory.Checkpoints.Database.{branch_row}
use pg_agmemory.Checkpoints.Chains.{IsLinked}
use pg_agmemory.Checkpoints.Chains.Lineage.{lineage, IsLine}
use pg_agmemory.Checkpoints.Resume.{member, asked, reconcile-eq-asked}
use pg_agmemory.Checkpoints.Ledger.{
  CheckpointCall, save_call, restore_call, serve_checkpoints, branches_are_chains,
}

-- A toy hash: the text itself; UUIDs count from 100.
abbrev at_time : ℕ → Session
at_time now = record {
  principal = 1;
  now = now;
  uuid4 = λ n. 100 + n;
  hmac_sha256 = λ secret m. m;
  tokenize = λ t. none;
}

abbrev start : Store
start =
    fresh_store
      (record { scope_id = 10; principal_id = 1; permissions = admin ∷ []; expires_at = none } ∷ [])

start-IsLinked : IsLinked start
start-IsLinked = record { heads = λ x y z b h. cc; parents = λ id c h. cc }

abbrev state : CheckpointState
state = record {
  goal = codes "g";
  constraints = [];
  completed_actions = [];
  decisions = [];
  unresolved_questions = [];
  next_actions = [];
  pending_effects =
      record { operation_id = 5; description = codes "d"; status = Rows.PendingStatus.dispatched }
      ∷ [];
}

abbrev save : ℕ → ℕ → Option ℕ → CreateCheckpoint
save branch mark head = record {
  scope_id = 10;
  run_id = 7;
  branch_id = branch;
  expected_head = head;
  harness_id = codes "h";
  harness_version = codes "1";
  state_schema_version = 1;
  event_watermark = mark;
  state = state;
  memory_refs = [];
}

abbrev restore_of : ℕ → ℕ → RestoreCheckpoint
restore_of id branch = record {
  checkpoint_id = id;
  target_branch_id = branch;
  harness_id = codes "h";
  harness_version = codes "1";
  state_schema_version = 1;
}

abbrev json : CheckpointJson
json = record { create_json = λ c. []; restore_json = λ r. [] }

-- Two checkpoints of branch 1, then the second one restored into branch 2 and one more there; the
-- fourth request is refused, since its expected head is an old one.
abbrev calls : List (Session × CheckpointCall)
calls =
    (at_time 1, save_call (save 1 4 none) (codes "k1"))
    ∷ (at_time 2, save_call (save 1 6 (some 100)) (codes "k2"))
    ∷ (at_time 3, restore_call (restore_of 101 2) (codes "k3"))
    ∷ (at_time 4, save_call (save 1 6 (some 100)) (codes "k4"))
    ∷ (at_time 5, save_call (save 2 8 (some 102)) (codes "k5"))
    ∷ []

abbrev left : Store
left = serve_checkpoints json calls start

abbrev fork : Branch
fork = record {
  scope_id = 10;
  run_id = 7;
  branch_id = 2;
  head_id = some 103;
  sequence = 2;
  invalidated = false;
}

fork_row : branch_row left 10 7 2 ≡ some fork
unfolding serve_checkpoints executing
fork_row = refl

branches_are_chains_example : (bound : ℕ) × IsLine 10 7 2 2 bound (lineage left 2 (some 103))
branches_are_chains_example =
    branches_are_chains json calls start start-IsLinked 10 7 2 fork fork_row

abbrev summary : ℕ → Tables.EffectStatus → EffectSummary
summary operation status = record {
  memory_id = 200 + operation;
  operation_id = operation;
  revision = 2;
  status = status;
}

-- Operation 5, at which the state hints, is confirmed; operation 6 is not settled.
abbrev effects : List EffectSummary
effects = summary 5 Tables.EffectStatus.confirmed ∷ summary 6 Tables.EffectStatus.unknown ∷ []

abbrev saved : Saved
saved = record {
  payload = record {
    checkpoint_id = 100;
    scope_id = 10;
    run_id = 7;
    branch_id = 1;
    sequence = 1;
    parent_checkpoint = none;
    harness_id = codes "h";
    harness_version = codes "1";
    state_schema_version = 1;
    event_watermark = 4;
    state = state;
    memory_refs = [];
    saved_access_epoch = 1;
    saved_deletion_epoch = 1;
  };
  checksum = [];
}

abbrev tenant : Tenant
tenant = record { access_epoch = 1; deletion_epoch = 1; dedup_secret = [] }

unsettled : (reconcile saved tenant effects).requires_reconciliation ≡ 6 ∷ []
unfolding reconcile
unsettled = refl

reconcile-eq-asked_example :
    (member 6 (reconcile saved tenant effects).requires_reconciliation
      ≡ asked 6 effects state.pending_effects)
    × ((reconcile saved tenant effects).resume_allowed
        ≡ is_empty (reconcile saved tenant effects).requires_reconciliation)
reconcile-eq-asked_example = reconcile-eq-asked saved tenant effects 6
