-- ===== src/Deletion/Tests.antt =====
-- A purge on a concrete store, and the theorems applied to it.
use pg_agmemory.Prelude.{ℕ, ◌+◌, ◌≡◌, ◌⊎◌, ◌↔◌, refl, true, false, Option, none, some, [], ◌∷◌}
use pg_agmemory.Text.{codes}
use pg_agmemory.Store.Tables.{Store, forget_reply, fresh_store, admin, Kind, Operation}
use pg_agmemory.Store.Keeps.{committed}
use pg_agmemory.Store.Exec.{Result, ok, err}
use pg_agmemory.Store.Visibility.{Session, visible}
use pg_agmemory.Service.{saved_row}
use pg_agmemory.Deletion.{Forget, ForgetAnswer, deleted, purging, forget, executing}
use pg_agmemory.Deletion.Closure.{member, pass, closure, Derived}
use pg_agmemory.Deletion.Complete.{closure-Derived, pass-closure}
use pg_agmemory.Deletion.Rows.{edges_of}
use pg_agmemory.Deletion.Steps.{content}
use pg_agmemory.Deletion.Purged.{RowsGone, LinksGone, purge_hides_all}

-- A toy hash: the text itself; UUIDs count from 100.
abbrev at_time : ℕ → Session
at_time now = record {
  principal = 1;
  now = now;
  uuid4 = λ n. 100 + n;
  hmac_sha256 = λ secret m. m;
  tokenize = λ t. none;
}

-- Two episodes, 100 and 101, and an assertion, 102, that the first one is evidence of.
abbrev before : Store
before =
    record (fresh_store (
      record { scope_id = 10; principal_id = 1; permissions = admin ∷ []; expires_at = none }
      ∷ [])) {
        objects =
            record { id = 102; scope_id = 10; kind = Kind.assertion; created_at = 3 }
            ∷ record { id = 101; scope_id = 10; kind = Kind.episode; created_at = 2 }
            ∷ record { id = 100; scope_id = 10; kind = Kind.episode; created_at = 1 }
            ∷ [];
        drawn = 3;
        assertions =
            record {
              id = 102;
              scope_id = 10;
              subject = codes "s";
              predicate = codes "p";
              current_revision = 1;
              is_relation = false;
            }
            ∷ [];
        provenance =
            record { child_id = 102; child_revision = 1; parent_id = 100; quote = codes "a" } ∷ [];
      }

abbrev request : Forget
request = record { memory_ids = 100 ∷ []; mode = purging }

abbrev receipt : ForgetAnswer
receipt = deleted (forget_reply 103 2 2 (10 ∷ []))

abbrev run : Result (ForgetAnswer × Store)
run = forget (at_time 4) (λ r. codes "h") request (codes "k4") before

abbrev after : Store
after = committed run before

closure_of_two : closure (edges_of (at_time 4) before) (100 ∷ []) ≡ 102 ∷ 100 ∷ []
unfolding executing
closure_of_two = refl

abbrev answer_of : Result (ForgetAnswer × Store) → Option ForgetAnswer
answer_of (ok (a, _)) = some a
answer_of (err _) = none

ok_of :
    (r : Result (ForgetAnswer × Store)) (s : Store) (a : ForgetAnswer)
    → answer_of r ≡ some a
    → r ≡ ok (a, committed r s)
ok_of (ok (b, t)) s a h = cc
ok_of (err e) s a h = cc

it_answers : answer_of run ≡ some receipt
unfolding executing
it_answers = refl

it_is_purged : run ≡ ok (receipt, after)
it_is_purged = ok_of run before receipt it_answers

new_key : saved_row (at_time 4) Operation.forget_memory (codes "k4") before ≡ none
unfolding executing
new_key = refl

purge_hides_all_example :
    (after.tenant.deletion_epoch ≡ before.tenant.deletion_epoch + 1)
    × ((Derived (edges_of (at_time 4) before) (100 ∷ []) 102
          × (visible (at_time 5) after 102 ≡ false)
          × RowsGone (content after) 102
          × LinksGone (at_time 4) before (content after) 102)
        ⊎ ((¬ Derived (edges_of (at_time 4) before) (100 ∷ []) 102)
            × (visible (at_time 5) after 102 ≡ visible (at_time 5) before 102)))
purge_hides_all_example =
    purge_hides_all (at_time 4) (λ r. codes "h") request (codes "k4") before after receipt refl
      new_key it_is_purged (at_time 5) 102

closure-Derived_example :
    (member (closure ((1, 2) ∷ (2, 3) ∷ (4, 5) ∷ []) (1 ∷ [])) 3 ≡ true)
    ↔ Derived ((1, 2) ∷ (2, 3) ∷ (4, 5) ∷ []) (1 ∷ []) 3
closure-Derived_example = closure-Derived ((1, 2) ∷ (2, 3) ∷ (4, 5) ∷ []) (1 ∷ []) 3

pass-closure_example :
    pass ((1, 2) ∷ (2, 3) ∷ (4, 5) ∷ []) (closure ((1, 2) ∷ (2, 3) ∷ (4, 5) ∷ []) (1 ∷ []))
    ≡ closure ((1, 2) ∷ (2, 3) ∷ (4, 5) ∷ []) (1 ∷ [])
pass-closure_example = pass-closure ((1, 2) ∷ (2, 3) ∷ (4, 5) ∷ []) (1 ∷ [])
