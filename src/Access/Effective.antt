-- ===== src/Access/Effective.antt =====
-- The permissions that scope_access calls effective are those that the database permits.
use pg_agmemory.Prelude.{
  ℕ, ◌≡◌, refl, sym, Bool, true, false, not, ◌&&◌, ◌||◌, Bool-cases, Option, none, some, inl, inr,
  List, [], ◌∷◌, any, find, select, update, if◌then◌else◌, arith,
}
use mathlib.Core.Path.{subst}
use pg_agmemory.Store.Tables.{Permission, read, write, delete, admin, Member, Store}
use pg_agmemory.Store.Visibility.{Session, has_permission, unexpired, grants, permitted}
use pg_agmemory.Access.Members.{both_self}
use pg_agmemory.Access.Epoch.{Answered, unchanged, changed, scope_access_lem, decide-get}
use pg_agmemory.Access.ReadBack.{reading, reads_back}
use pg_agmemory.Access.{
  AccessRequest, Grant, Directory, AccessResult, done, all_permissions, is_member, grant_of,
  member_grant, in_order, over, effective, write_member, result, change, scope_access,
}

-- PRIMARY KEY (tenant_id, scope_id, principal_id), for one member.
abbrev pub IsOnce : ℕ → ℕ → List Member → Type 0
IsOnce i j [] = Unit
IsOnce i j (m ∷ l) = (is_member i j m ≡ true → any (is_member i j) l ≡ false) × IsOnce i j l

has-in_order :
    (p : Permission) (ps : List Permission) → has_permission p (in_order ps) ≡ has_permission p ps
has-in_order read ps = ground arith
has-in_order write ps = ground arith
has-in_order delete ps = ground arith
has-in_order admin ps = ground arith

if_self : (b : Bool) → (if b then true else false) ≡ b
if_self b = ground arith

has-all : (p : Permission) → has_permission p all_permissions ≡ true
has-all p = ground arith

-- What is held by one who is not over, of permissions that hold those of `ps`.
has-held :
    (p : Permission) (ps qs : List Permission)
    → has_permission p qs ≡ has_permission p ps
    → has_permission admin qs ≡ has_permission admin ps
    → has_permission p (if has_permission admin qs then all_permissions else qs)
      ≡ (has_permission p ps || has_permission admin ps)
has-held p ps qs e f = elim (Bool-cases (has_permission admin qs)) [
  | inl h ↦ rw (sym f, h, has-all p) (or_true (has_permission p ps))
  | inr h ↦ rw (sym f, h, e) (or_false (has_permission p ps))
]
  where
    or_true : (b : Bool) → true ≡ (b || true)
    or_true b = ground arith

    or_false : (b : Bool) → b ≡ (b || false)
    or_false b = ground arith

module _ (env : Session) where
  abbrev allows : Permission → Option Grant → Bool
  allows p none = false
  allows p (some g) =
      (has_permission p g.permissions || has_permission admin g.permissions)
      && unexpired g.expires_at env.now

  no_grants :
      (i : ℕ) (p : Permission) (l : List Member)
      → any (is_member i env.principal) l ≡ false
      → any (grants env i p) l ≡ false
  unfolding grants
  no_grants i p [] h = refl
  no_grants i p (m ∷ l) h = ground (arith, no_grants i p l)

  grants_mine :
      (i : ℕ) (p : Permission) (m : Member)
      → is_member i env.principal m ≡ true
      → grants env i p m ≡ allows p (grant_of (some m))
  unfolding grants
  grants_mine i p m h = ground arith

  grants_other :
      (i : ℕ) (p : Permission) (m : Member)
      → is_member i env.principal m ≡ false
      → grants env i p m ≡ false
  unfolding grants
  grants_other i p m h = ground arith

  any-grants :
      (i : ℕ) (p : Permission) (l : List Member)
      → IsOnce i env.principal l
      → any (grants env i p) l ≡ allows p (grant_of (find (is_member i env.principal) l))
  any-grants i p [] k = refl
  any-grants i p (m ∷ l) (once, k) = elim (Bool-cases (is_member i env.principal m)) [
    | inl mine ↦
        rw (mine, no_grants i p l (once mine), grants_mine i p m mine)
          (if_self (allows p (grant_of (some m))))
    | inr other ↦ rw (other, grants_other i p m other) (any-grants i p l k)
  ]

  unexpired-over : (e : Option ℕ) (at : ℕ) → unexpired e at ≡ not (over e at)
  unexpired-over none at = refl
  unexpired-over (some t) at = ground arith

  effective-allows :
      (p : Permission) (g : Option Grant) → has_permission p (effective env.now g) ≡ allows p g
  effective-allows p none = refl
  effective-allows p (some g) = elim (Bool-cases (over g.expires_at env.now)) [
    | inl h ↦
        rw (h, unexpired-over g.expires_at env.now, h)
          (and_false (has_permission p g.permissions || has_permission admin g.permissions))
    | inr h ↦
        rw
          (
            h,
            unexpired-over g.expires_at env.now,
            h,
            has-held p g.permissions (in_order g.permissions) (has-in_order p g.permissions)
                (has-in_order admin g.permissions),
          )
          (and_true (has_permission p g.permissions || has_permission admin g.permissions))
  ]
    where
      and_false : (b : Bool) → false ≡ (b && false)
      and_false b = ground arith

      and_true : (b : Bool) → b ≡ (b && true)
      and_true b = ground arith

same_key :
    (i j : ℕ) (row m : Member)
    → is_member i j row ≡ true
    → is_member i j (if is_member i j m then row else m) ≡ is_member i j m
same_key i j row m h = ground arith

any_updated :
    (i j : ℕ) (row : Member) (l : List Member)
    → is_member i j row ≡ true
    → any (is_member i j) (update (is_member i j) (λ _. row) l) ≡ any (is_member i j) l
any_updated i j row [] h = refl
any_updated i j row (m ∷ l) h = ground (arith, any_updated i j row l h)

IsOnce-update :
    (i j : ℕ) (row : Member) (l : List Member)
    → is_member i j row ≡ true
    → IsOnce i j l
    → IsOnce i j (update (is_member i j) (λ _. row) l)
IsOnce-update i j row [] h k = tt
IsOnce-update i j row (m ∷ l) h (once, k) = (
  λ q. rw (any_updated i j row l h) (once (rw (same_key i j row m h) at q)),
  IsOnce-update i j row l h k,
)

IsOnce-deleted :
    (i j : ℕ) (l : List Member) → IsOnce i j (select (λ (m : Member). not (is_member i j m)) l)
IsOnce-deleted i j [] = tt
IsOnce-deleted i j (m ∷ l) = elim (Bool-cases (is_member i j m)) [
  | inl h ↦ rw h (IsOnce-deleted i j l)
  | inr h ↦ rw h (λ q. absurd (cc (q, h)), IsOnce-deleted i j l)
]

IsOnce-write_member :
    (i j : ℕ) (g : Option Grant) (l : List Member)
    → IsOnce i j l
    → IsOnce i j (write_member i j g l)
unfolding write_member
IsOnce-write_member i j none l k = IsOnce-deleted i j l
IsOnce-write_member i j (some g) l k = elim (Bool-cases (any (is_member i j) l)) [
  | inl there ↦ rw there (IsOnce-update i j _ l (both_self i j) k)
  | inr new ↦ rw new (λ _. new, k)
]

Answered-IsOnce :
    (at : ℕ) (request : AccessRequest) (d : Directory) (r : AccessResult) (d' : Directory)
    → IsOnce request.scope_id request.principal_id d.members
    → Answered at request d r d'
    → IsOnce request.scope_id request.principal_id d'.members
unfolding change
Answered-IsOnce at request d r d' once (unchanged after e er ed) = rw ed once
Answered-IsOnce at request d r d' once (changed after e more er ed) =
    rw ed (IsOnce-write_member request.scope_id request.principal_id after d.members once)

-- What is read now is effective.
read-effective :
    (at : ℕ) (request : AccessRequest) (d : Directory) (r : AccessResult)
    → scope_access at (reading request) d ≡ done (r, d)
    → r.effective_permissions ≡ effective at (member_grant d request.scope_id request.principal_id)
unfolding result
read-effective at request d r h = elim (scope_access_lem at (reading request) d r d h).2 [
  | unchanged after e er ed ↦ rw (er, (decide-get at (reading request) _ after false refl e).1) refl
  | changed after e more er ed ↦
      absurd (cc ((decide-get at (reading request) _ after true refl e).0))
]

-- After an answered request of a member that has at most one row, the permissions that the answer
-- calls effective are those that memory.permitted grants to the member at that time.
pub effective_is_permitted :
    (env : Session) (request : AccessRequest) (d : Directory) (r : AccessResult) (d' : Directory)
    → request.principal_id ≡ env.principal
    → IsOnce request.scope_id request.principal_id d.members
    → scope_access env.now request d ≡ done (r, d')
    → (s : Store) (p : Permission)
    → has_permission p r.effective_permissions
      ≡ permitted env (record s { members = d'.members }) request.scope_id p
unfolding permitted
effective_is_permitted env request d r d' me once h s p =
    let k =
      Answered-IsOnce env.now request d r d' once ((scope_access_lem env.now request d r d' h).2) in
    let read_again = reads_back env.now request d r d' h in
    let told = read-effective env.now request d' (record r { changed = false }) read_again in
    let held = effective-allows env p (member_grant d' request.scope_id request.principal_id) in
    let granted =
      any-grants env request.scope_id p d'.members
        (subst (λ q. IsOnce request.scope_id q d'.members) me k) in
    cc (told, held, granted, me)
