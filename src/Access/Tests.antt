-- ===== src/Access/Tests.antt =====
-- Access to a scope on a concrete directory, and the theorems applied to it.
use pg_agmemory.Prelude.{◌+◌, ◌≤◌, ◌≡◌, ◌≢◌, ◌⊎◌, refl, true, false, none, some, [], ◌∷◌, arith}
use pg_agmemory.Store.Tables.{read, write, admin, fresh_store}
use pg_agmemory.Store.Visibility.{Session, has_permission, permitted}
use pg_agmemory.Access.Epoch.{epoch_counts_changes, second_change_is_refused}
use pg_agmemory.Access.ReadBack.{reading, reads_back}
use pg_agmemory.Text.{codes}
use pg_agmemory.Access.Connection.{
  Server, committing, operational, IsSafe, run_scope_access, run_scope_access-IsSafe,
}
use pg_agmemory.Access.Effective.{effective_is_permitted}
use pg_agmemory.Access.{
  get, set, revoke, AccessRequest, access_epoch_conflict, invalid_expiration, AccessEvent,
  Directory, AccessResult, done, refused, max_epoch, member_grant, target_exists, command_arguments,
  scope_access,
}

abbrev start : Directory
start = record {
  tenant_id = 1;
  access_epoch = 7;
  scopes = 10 ∷ [];
  principals = 2 ∷ 3 ∷ [];
  members =
      record { scope_id = 10; principal_id = 3; permissions = admin ∷ []; expires_at = none } ∷ [];
  events = [];
}

abbrev grant : AccessRequest
grant = record {
  operation = set;
  tenant_id = 1;
  scope_id = 10;
  principal_id = 2;
  expected_access_epoch = some 7;
  permissions = some (write ∷ read ∷ []);
  expires_at = some 100;
  no_expiry = false;
}

-- Another change that was decided on the same state.
abbrev late : AccessRequest
late = record grant { operation = revoke; principal_id = 3; permissions = none; expires_at = none }

grant_valid : (command_arguments grant ≡ true) × (command_arguments late ≡ true)
unfolding command_arguments
grant_valid = (refl, refl)

granted :
    (r : AccessResult) × (d : Directory) × (scope_access 50 grant start ≡ done (r, d))
    × (r.changed ≡ true)
    × (d.access_epoch ≡ 8)
    × (r.effective_permissions ≡ read ∷ write ∷ [])
unfolding scope_access
granted = (_, _, refl, refl, refl, refl)

-- An expiry in the past is refused.
expired : scope_access 100 grant start ≡ refused invalid_expiration
unfolding scope_access
expired = refl

epoch_counts_changes_example :
    (granted.0.access_epoch ≡ granted.1.access_epoch)
    × (granted.1.access_epoch ≤ max_epoch)
    × (((granted.0.changed ≡ false) × (granted.1 ≡ start))
        ⊎ ((granted.0.changed ≡ true)
            × (set ≢ get)
            × (granted.1.access_epoch ≡ 7 + 1)
            × ((e : AccessEvent) × (granted.1.events ≡ e ∷ [])
                × (e.access_epoch ≡ granted.1.access_epoch)
                × (e.before ≡ member_grant start 10 2)
                × (e.after ≡ member_grant granted.1 10 2))))
epoch_counts_changes_example =
    epoch_counts_changes 50 grant start granted.0 granted.1 (omega arith) granted.2

revoke-ne_get : revoke ≢ get
revoke-ne_get e = cc e

late_target : (granted.1.access_epoch ≡ 8) × (target_exists late granted.1 ≡ true)
unfolding granted scope_access
late_target = (refl, refl)

second_change_is_refused_example : scope_access 60 late granted.1 ≡ refused access_epoch_conflict
second_change_is_refused_example =
    second_change_is_refused 50 grant start granted.0 granted.1 granted.2 granted.3 60 late
      revoke-ne_get refl late_target.1

reads_back_example :
    scope_access 50 (reading grant) granted.1
    ≡ done (record granted.0 { changed = false }, granted.1)
reads_back_example = reads_back 50 grant start granted.0 granted.1 granted.2

abbrev asker : Session
asker = record {
  principal = 2;
  now = 50;
  uuid4 = λ n. n;
  hmac_sha256 = λ secret m. m;
  tokenize = λ t. none;
}

start_once : (false ≡ true → false ≡ false) × Unit {0}
start_once = (λ q. refl, tt)

effective_is_permitted_example :
    has_permission write granted.0.effective_permissions
    ≡ permitted asker (record (fresh_store []) { members = granted.1.members }) 10 write
effective_is_permitted_example =
    effective_is_permitted asker grant start granted.0 granted.1 refl start_once granted.2
      (fresh_store []) write

abbrev server : Server
server = record {
  role_allowed = some true;
  versions = 1 ∷ 2 ∷ 3 ∷ 4 ∷ 5 ∷ 6 ∷ 7 ∷ 8 ∷ 9 ∷ 10 ∷ [];
  extension = some (codes "0.8.6", codes "public");
}

-- A request that only reads, where the commit fails: the error says that the outcome is known.
run_scope_access-IsSafe_example :
    IsSafe 50
      (reading grant)
      granted.1
      (run_scope_access server (committing operational) 50 (reading grant) granted.1)
run_scope_access-IsSafe_example =
    run_scope_access-IsSafe server (committing operational) 50 (reading grant) granted.1
