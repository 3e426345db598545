-- ===== src/Access/Connection.antt =====
-- scope_access of src/pg_agmemory/scope_access.py around its transaction: the checks of the server,
-- and what an error of the database tells the administrator.
use pg_agmemory.Prelude.{
  ℕ, suc, ◌+◌, ◌≡◌, refl, ap, Bool, false, ◌&&◌, Option, none, some, List, [], ◌∷◌, All, ◌==◌,
  if◌then◌else◌,
}
use pg_agmemory.Text.{Text, codes, text_eq}
use pg_agmemory.Access.{
  AccessCode, AccessRequest, AccessResult, Directory, Access, done, refused, result, scope_access,
}
use pg_agmemory.Access.Epoch.{unchanged, changed, scope_access_lem}

-- The classes of psycopg.Error that the code tells apart.
pub data DatabaseError : Type 0 where
  undefined_table invalid_schema_name insufficient_privilege operational query_canceled
        other_error :
      DatabaseError

-- What an error interrupts: the connection and the checks, the transaction, the commit, or the end of
-- the connection after it.
pub data Fault : Type 0 where
  no_fault : Fault
  connecting in_transaction committing closing : DatabaseError → Fault

-- The codes of ScopeAccessError.
pub data ConnectionCode : Type 0 where
  admin_role_required schema_version_mismatch extension_version_mismatch schema_unavailable
        admin_privilege_required admin_database_unavailable admin_database_error :
      ConnectionCode
  request_code : AccessCode → ConnectionCode

pub record ScopeAccessError : Type 0 where
  pub code : ConnectionCode
  pub outcome_unknown : Bool

-- What the server answers to the checks.
pub record Server : Type 0 where
  pub role_allowed : Option Bool
  pub versions : List ℕ
  pub extension : Option (Text × Text)

-- SCHEMA_VERSION, and list(range(1, SCHEMA_VERSION + 1)) from `n`
abbrev schema_version : ℕ
schema_version = 10

is_range : ℕ → List ℕ → Bool
is_range n [] = n == schema_version + 1
is_range n (v ∷ l) = let rest = is_range (suc n) l in v == n && rest

role_ok : Option Bool → Bool
role_ok none = false
role_ok (some allowed) = allowed

extension_ok : Option (Text × Text) → Bool
extension_ok none = false
extension_ok (some (version, schema)) =
    text_eq version (codes "0.8.6") && text_eq schema (codes "public")

-- The except clause of scope_access.
unfoldable pub error_code : DatabaseError → ConnectionCode
error_code undefined_table = schema_unavailable
error_code invalid_schema_name = schema_unavailable
error_code insufficient_privilege = admin_privilege_required
error_code operational = admin_database_unavailable
error_code query_canceled = admin_database_unavailable
error_code other_error = admin_database_error

-- What the administrator sees, and the directories that the server may be left with: an error at the
-- commit leaves open whether the transaction took effect.
pub data Report : Type 0 where
  reported : AccessResult → Directory → Report
  error_reported : ScopeAccessError → List Directory → Report

stopped : ConnectionCode → Directory → Report
stopped code d = error_reported (record { code = code; outcome_unknown = false }) (d ∷ [])

-- The end of the transaction: `commit_attempted` is whether the request said that it changed anything.
commit : Fault → Directory → Access (AccessResult × Directory) → Report
unfolding stopped error_code
commit fault d (refused code) = stopped (request_code code) d
commit (committing e) d (done (r, d')) =
    error_reported (record { code = error_code e; outcome_unknown = r.changed }) (d ∷ d' ∷ [])
commit (closing e) d (done (r, d')) =
    error_reported (record { code = error_code e; outcome_unknown = r.changed }) (d' ∷ [])
commit _ d (done (r, d')) = reported r d'

checked : Server → Option ConnectionCode
unfolding role_ok is_range extension_ok
checked server =
    if role_ok server.role_allowed
    then (if is_range 1 server.versions
        then (if extension_ok server.extension then none else some extension_version_mismatch)
        else some schema_version_mismatch)
    else some admin_role_required

run_checked : Fault → ℕ → AccessRequest → Directory → Option ConnectionCode → Report
unfolding commit
run_checked fault at request d (some code) = stopped code d
run_checked (in_transaction e) at request d none = stopped (error_code e) d
run_checked fault at request d none = commit fault d (scope_access at request d)

unfoldable pub run_scope_access : Server → Fault → ℕ → AccessRequest → Directory → Report
unfolding checked run_checked
run_scope_access server (connecting e) at request d = stopped (error_code e) d
run_scope_access server fault at request d = run_checked fault at request d (checked server)

-- An answer is of a request that took effect; an error that does not say that its outcome is unknown
-- leaves the directory as it was, whatever became of the transaction.
abbrev pub IsSafe : ℕ → AccessRequest → Directory → Report → Type 0
IsSafe at request d (reported r d') = scope_access at request d ≡ done (r, d')
IsSafe at request d (error_reported e possible) =
    e.outcome_unknown ≡ false → All (λ (d' : Directory). d' ≡ d) possible

-- A request that says that it changed nothing has written nothing.
unchanged_lem :
    (at : ℕ) (request : AccessRequest) (d : Directory) (r : AccessResult) (d' : Directory)
    → scope_access at request d ≡ done (r, d')
    → r.changed ≡ false
    → d' ≡ d
unfolding result
unchanged_lem at request d r d' h same = elim (scope_access_lem at request d r d' h).2 [
  | unchanged after e er ed ↦ ed
  | changed after e more er ed ↦ absurd (cc (same, ap (λ (q : AccessResult). q.changed) er))
]

commit-IsSafe :
    (fault : Fault) (at : ℕ) (request : AccessRequest) (d : Directory)
    (a : Access (AccessResult × Directory))
    → scope_access at request d ≡ a
    → IsSafe at request d (commit fault d a)
unfolding commit stopped
commit-IsSafe fault at request d (refused code) h = λ known. (refl, tt)
commit-IsSafe no_fault at request d (done (r, d')) h = h
commit-IsSafe (connecting e) at request d (done (r, d')) h = h
commit-IsSafe (in_transaction e) at request d (done (r, d')) h = h
commit-IsSafe (committing e) at request d (done (r, d')) h =
    λ known. (refl, (unchanged_lem at request d r d' h known, tt))
commit-IsSafe (closing e) at request d (done (r, d')) h =
    λ known. (unchanged_lem at request d r d' h known, tt)

run_checked-IsSafe :
    (fault : Fault) (at : ℕ) (request : AccessRequest) (d : Directory) (o : Option ConnectionCode)
    → IsSafe at request d (run_checked fault at request d o)
unfolding run_checked stopped
run_checked-IsSafe fault at request d (some code) = λ known. (refl, tt)
run_checked-IsSafe (in_transaction e) at request d none = λ known. (refl, tt)
run_checked-IsSafe no_fault at request d none = commit-IsSafe no_fault at request d _ refl
run_checked-IsSafe (connecting e) at request d none =
    commit-IsSafe (connecting e) at request d _ refl
run_checked-IsSafe (committing e) at request d none =
    commit-IsSafe (committing e) at request d _ refl
run_checked-IsSafe (closing e) at request d none = commit-IsSafe (closing e) at request d _ refl

-- Whatever the server is and wherever the database fails, a result that is reported is that of the
-- request's transaction, which has taken effect; and an error that does not say that its outcome is
-- unknown leaves the directory as it was, whether or not the transaction took effect.
pub run_scope_access-IsSafe :
    (server : Server) (fault : Fault) (at : ℕ) (request : AccessRequest) (d : Directory)
    → IsSafe at request d (run_scope_access server fault at request d)
unfolding run_scope_access stopped
run_scope_access-IsSafe server (connecting e) at request d = λ known. (refl, tt)
run_scope_access-IsSafe server no_fault at request d =
    run_checked-IsSafe no_fault at request d (checked server)
run_scope_access-IsSafe server (in_transaction e) at request d =
    run_checked-IsSafe (in_transaction e) at request d (checked server)
run_scope_access-IsSafe server (committing e) at request d =
    run_checked-IsSafe (committing e) at request d (checked server)
run_scope_access-IsSafe server (closing e) at request d =
    run_checked-IsSafe (closing e) at request d (checked server)
