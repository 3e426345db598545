-- ===== src/Checkpoints/Operations/Linked.antt =====
-- Every step of the checkpoints keeps the checkpoints of each branch a chain.
use pg_agmemory.Prelude.{ℕ, Option, List}
use pg_agmemory.Text.{Text}
use pg_agmemory.Store.Tables.{
  Store, EffectStatus, Origin, ReceiptSource, ToolEffect, EffectRevision,
}
use pg_agmemory.Store.Keeps.{Keeps, Keeps-modify, keeps_rules}
use pg_agmemory.Store.Visibility.{Session}
use pg_agmemory.Service.Keeps.{Ignores, audit-Keeps}
use pg_agmemory.Effects.Database
use pg_agmemory.Effects.{append, fence_one, fence_restore}
use pg_agmemory.Effects.Models.{EffectSummary}
use pg_agmemory.Checkpoints.Chains.{IsLinked}
use pg_agmemory.Checkpoints.Chains.Linking.{insert_checkpoint-IsLinked, insert_branch-IsLinked}
use pg_agmemory.Checkpoints.Operations.{Passes}

IsLinked-ignores : Ignores IsLinked
IsLinked-ignores = record {
  idempotency = λ s l c. record { heads = c.heads; parents = c.parents };
  audits = λ s l c. record { heads = c.heads; parents = c.parents };
  objects = λ s l c. record { heads = c.heads; parents = c.parents };
  drawn = λ s n c. record { heads = c.heads; parents = c.parents };
}

effects-IsLinked :
    (s : Store) (l : List ToolEffect) → IsLinked s → IsLinked (record s { effects = l })
effects-IsLinked s l c = record { heads = c.heads; parents = c.parents }

revisions-IsLinked :
    (s : Store) (l : List EffectRevision)
    → IsLinked s
    → IsLinked (record s { effect_revisions = l })
revisions-IsLinked s l c = record { heads = c.heads; parents = c.parents }

adopt-IsLinked : (r : EffectRevision) (e : ToolEffect) → Keeps IsLinked (Database.adopt r e)
unfolding Database.adopt
adopt-IsLinked r e = search (keeps_rules, Keeps-modify, effects-IsLinked) depth 12

revision-IsLinked : (r : EffectRevision) → Keeps IsLinked (Database.insert_revision r)
unfolding Database.insert_revision
revision-IsLinked r =
    search (keeps_rules, Keeps-modify, adopt-IsLinked, revisions-IsLinked) depth 12

append-IsLinked :
    (env : Session) (id n : ℕ) (status : EffectStatus) (reason : Text) (origin : Origin)
    (reference : Option Text) (source : Option ReceiptSource)
    → Keeps IsLinked (append env id n status reason origin reference source)
unfolding append
append-IsLinked env id n status reason origin reference source =
    search (keeps_rules, revision-IsLinked, audit-Keeps, IsLinked-ignores)

fence_one-IsLinked : (env : Session) (e : EffectSummary) → Keeps IsLinked (fence_one env e)
unfolding fence_one
fence_one-IsLinked env e = search (keeps_rules, append-IsLinked)

fence_restore-IsLinked :
    (env : Session) (scope_id run_id : ℕ) → Keeps IsLinked (fence_restore env scope_id run_id)
unfolding fence_restore
fence_restore-IsLinked env scope_id run_id = search (keeps_rules, fence_one-IsLinked)

pub IsLinked-passes : Passes IsLinked
IsLinked-passes = record {
  service = IsLinked-ignores;
  runs = λ s l c. record { heads = c.heads; parents = c.parents };
  references = λ s l c. record { heads = c.heads; parents = c.parents };
  branch = insert_branch-IsLinked;
  checkpoint = insert_checkpoint-IsLinked;
  fence = fence_restore-IsLinked;
}
