-- ===== src/Access.antt =====
-- Granting and revoking access to a scope: src/pg_agmemory/scope_access.py.
pub mod Members
pub mod Epoch
pub mod ReadBack
pub mod Connection
pub mod Effective
pub mod Tests
use pg_agmemory.Prelude.{
  ℕ, suc, ◌+◌, Bool, true, false, not, ◌&&◌, ◌||◌, Option, none, some, List, [], ◌∷◌, ◌++◌, any,
  find, select, update, length, leb, ltb, ◌==◌, if◌then◌else◌,
}
use pg_agmemory.Store.Tables.{Permission, read, write, delete, admin, Member}
use pg_agmemory.Store.Visibility.{permission_eq, has_permission}

-- PERMISSIONS
abbrev pub all_permissions : List Permission
all_permissions = read ∷ write ∷ delete ∷ admin ∷ []

-- MAX_EPOCH, 2 ^ 63 - 1
abbrev pub max_epoch : ℕ
max_epoch = 9223372036854775807

pub data AccessOperation : Type 0 where
  get set revoke : AccessOperation

-- ScopeAccessRequest
pub record AccessRequest : Type 0 where
  pub operation : AccessOperation
  pub tenant_id : ℕ
  pub scope_id : ℕ
  pub principal_id : ℕ
  pub expected_access_epoch : Option ℕ
  pub permissions : Option (List Permission)
  pub expires_at : Option ℕ
  pub no_expiry : Bool

abbrev pub is_none : {A : Type 0} → Option A → Bool
is_none none = true
is_none (some a) = false

abbrev distinct : List Permission → Bool
distinct [] = true
distinct (p ∷ ps) = let rest = distinct ps in not (has_permission p ps) && rest

abbrev permissions_valid : Option (List Permission) → Bool
permissions_valid none = false
permissions_valid (some []) = false
permissions_valid (some (p ∷ ps)) =
    distinct (p ∷ ps) && (not (has_permission admin (p ∷ ps)) || length (p ∷ ps) == 1)

abbrev epoch_given : Option ℕ → Bool
epoch_given none = false
epoch_given (some epoch) = leb 1 epoch && leb epoch max_epoch

abbrev bool_eq : Bool → Bool → Bool
bool_eq true b = b
bool_eq false b = not b

-- ScopeAccessRequest.command_arguments, with the bounds of its Epoch.
unfoldable pub command_arguments : AccessRequest → Bool
command_arguments request = elim request.operation [
  | get ↦
      is_none request.expected_access_epoch
      && (is_none request.permissions && (is_none request.expires_at && not request.no_expiry))
  | revoke ↦
      epoch_given request.expected_access_epoch
      && (is_none request.permissions && (is_none request.expires_at && not request.no_expiry))
  | set ↦
      epoch_given request.expected_access_epoch
      && (permissions_valid request.permissions
          && not (bool_eq (is_none request.expires_at) (not request.no_expiry)))
]

-- What ScopeAccessError carries.
pub data AccessCode : Type 0 where
  not_found access_epoch_conflict invalid_expiration access_epoch_exhausted : AccessCode

-- A row of memory.scope_member without its key.
pub record Grant : Type 0 where
  pub permissions : List Permission
  pub expires_at : Option ℕ

-- memory_ops.scope_access_event
pub record AccessEvent : Type 0 where
  pub scope_id : ℕ
  pub principal_id : ℕ
  pub access_epoch : ℕ
  pub operation : AccessOperation
  pub before : Option Grant
  pub after : Option Grant

-- A tenant with its scopes, principals, members and the log of their changes.
pub record Directory : Type 0 where
  pub tenant_id : ℕ
  pub access_epoch : ℕ
  pub scopes : List ℕ
  pub principals : List ℕ
  pub members : List Member
  pub events : List AccessEvent

-- ScopeAccessResult without the request's own fields.
pub record AccessResult : Type 0 where
  pub access_epoch : ℕ
  pub changed : Bool
  pub membership_exists : Bool
  pub permissions : List Permission
  pub expires_at : Option ℕ
  pub effective_permissions : List Permission
  pub evaluated_at : ℕ

pub data Access (A : Type 0) : Type 0 where
  done : A → Access A
  refused : AccessCode → Access A

abbrev pub is_member : ℕ → ℕ → Member → Bool
is_member scope_id principal_id m = m.scope_id == scope_id && m.principal_id == principal_id

abbrev pub grant_of : Option Member → Option Grant
grant_of none = none
grant_of (some m) = some (record { permissions = m.permissions; expires_at = m.expires_at })

abbrev pub member_grant : Directory → ℕ → ℕ → Option Grant
member_grant d scope_id principal_id = grant_of (find (is_member scope_id principal_id) d.members)

-- [p for p in PERMISSIONS if p in permissions]
abbrev pub in_order : List Permission → List Permission
in_order ps = select (λ p. has_permission p ps) all_permissions

abbrev pub configured : Option Grant → List Permission
configured none = []
configured (some g) = in_order g.permissions

abbrev pub expiry : Option Grant → Option ℕ
expiry none = none
expiry (some g) = g.expires_at

pub permissions_eq : List Permission → List Permission → Bool
permissions_eq [] [] = true
permissions_eq (p ∷ ps) (q ∷ qs) = let rest = permissions_eq ps qs in permission_eq p q && rest
permissions_eq _ _ = false

pub time_eq : Option ℕ → Option ℕ → Bool
time_eq none none = true
time_eq (some a) (some b) = a == b
time_eq _ _ = false

abbrev pub over : Option ℕ → ℕ → Bool
over none at = false
over (some until) at = leb until at

abbrev pub requested : Option (List Permission) → List Permission
requested none = []
requested (some ps) = in_order ps

-- What the request makes of a member's row, and whether that changes it.
pub decide : ℕ → AccessRequest → Option Grant → Access (Bool × Option Grant)
unfolding permissions_eq time_eq
decide at request before = elim request.operation [
  | get ↦ done (false, before)
  | set ↦
      if over request.expires_at at
      then refused invalid_expiration
      else done (
        is_none before
            || (not (permissions_eq (requested request.permissions) (configured before))
                || not (time_eq request.expires_at (expiry before))),
        some (record {
          permissions = requested request.permissions;
          expires_at = request.expires_at;
        }),
      )
  | revoke ↦ done (not (is_none before), none)
]

abbrev pub effective : ℕ → Option Grant → List Permission
effective at g =
    let held = (if over (expiry g) at then [] else configured g) in
    if has_permission admin held then all_permissions else held

pub result : ℕ → ℕ → Bool → Option Grant → AccessResult
result at epoch changed after = record {
  access_epoch = epoch;
  changed = changed;
  membership_exists = not (is_none after);
  permissions = configured after;
  expires_at = expiry after;
  effective_permissions = effective at after;
  evaluated_at = at;
}

-- DELETE, or INSERT ... ON CONFLICT DO UPDATE.
pub write_member : ℕ → ℕ → Option Grant → List Member → List Member
write_member scope_id principal_id none members =
    select (λ (m : Member). not (is_member scope_id principal_id m)) members
write_member scope_id principal_id (some g) members =
    let row : Member = record {
      scope_id = scope_id;
      principal_id = principal_id;
      permissions = g.permissions;
      expires_at = g.expires_at;
    } in
    if any (is_member scope_id principal_id) members
    then update (is_member scope_id principal_id) (λ _. row) members
    else row ∷ members

-- The writes of a request that changes a row.
pub change : AccessRequest → Option Grant → Option Grant → Directory → Directory
unfolding write_member
change request before after d = record d {
  members = write_member request.scope_id request.principal_id after d.members;
  access_epoch = d.access_epoch + 1;
  events =
      record {
        scope_id = request.scope_id;
        principal_id = request.principal_id;
        access_epoch = d.access_epoch + 1;
        operation = request.operation;
        before = before;
        after = after;
      }
      ∷ d.events;
}

pub conclude :
    ℕ
    → AccessRequest
    → Option Grant
    → Directory
    → Access (Bool × Option Grant)
    → Access (AccessResult × Directory)
unfolding result change
conclude at request before d (refused code) = refused code
conclude at request before d (done (false, after)) = done (result at d.access_epoch false after, d)
conclude at request before d (done (true, after)) =
    if d.access_epoch == max_epoch
    then refused access_epoch_exhausted
    else done (result at (d.access_epoch + 1) true after, change request before after d)

abbrev pub target_exists : AccessRequest → Directory → Bool
target_exists request d =
    request.tenant_id == d.tenant_id
    && (any (λ s. s == request.scope_id) d.scopes
        && any (λ p. p == request.principal_id) d.principals)

abbrev pub epoch_expected : AccessRequest → Directory → Bool
epoch_expected request d = elim request.operation [
  | get ↦ true
  | _ ↦ elim request.expected_access_epoch [ none ↦ false | some epoch ↦ d.access_epoch == epoch ]
]

-- The transaction of scope_access, at the time `at` of the database.
unfoldable pub scope_access : ℕ → AccessRequest → Directory → Access (AccessResult × Directory)
unfolding decide conclude
scope_access at request d =
    let before = member_grant d request.scope_id request.principal_id in
    if target_exists request d
    then (if epoch_expected request d
        then conclude at request before d (decide at request before)
        else refused access_epoch_conflict)
    else refused not_found
