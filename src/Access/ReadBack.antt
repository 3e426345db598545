-- ===== src/Access/ReadBack.antt =====
-- What is granted is what is read back, and what the database then permits.
use pg_agmemory.Prelude.{
  ℕ, ◌+◌, ◌≡◌, refl, ap, Bool, true, false, not, ◌||◌, Option, none, some, arith,
}
use pg_agmemory.Access.Members.{find-write_member, permissions_eq→eq, time_eq→eq, in_order-in_order}
use pg_agmemory.Access.Epoch.{unchanged, changed, scope_access_lem}
use pg_agmemory.Access.{
  AccessOperation, get, set, revoke, AccessRequest, Grant, Directory, AccessResult, done,
  member_grant, configured, expiry, requested, permissions_eq, time_eq, is_none, decide, result,
  change, conclude, scope_access,
}

first_false : (a b : Bool) → a || b ≡ false → (a ≡ false) × (b ≡ false)
first_false a b h = (ground arith, ground arith)

not-false : (b : Bool) → not b ≡ false → b ≡ true
not-false b h = ground arith

-- The same to a reader.
abbrev Alike : Option Grant → Option Grant → Type 0
Alike after before =
    (configured after ≡ configured before)
    × (expiry after ≡ expiry before)
    × (is_none after ≡ is_none before)

same_set :
    (request : AccessRequest) (g : Grant)
    → not (permissions_eq (requested request.permissions) (configured (some g))) ≡ false
    → not (time_eq request.expires_at (expiry (some g))) ≡ false
    → Alike
        (some
          (record { permissions = requested request.permissions; expires_at = request.expires_at }))
        (some g)
same_set request g a b =
    let p =
      permissions_eq→eq (requested request.permissions) (configured (some g)) (not-false _ a) in
    let t = time_eq→eq request.expires_at (expiry (some g)) (not-false _ b) in
    (rw p (in_order-in_order g.permissions), t, refl)

decide-set_unchanged :
    (at : ℕ) (request : AccessRequest) (before after : Option Grant)
    → request.operation ≡ set
    → decide at request before ≡ done (false, after)
    → Alike after before
unfolding decide
decide-set_unchanged at request none after op h = absurd (ground arith)
decide-set_unchanged at request (some g) after op h =
    let e : after
        ≡ some (record {
          permissions = requested request.permissions;
          expires_at = request.expires_at;
        }) =
      ground arith in
    let (a, b) =
      first_false (not (permissions_eq (requested request.permissions) (configured (some g))))
        (not (time_eq request.expires_at (expiry (some g)))) (ground arith) in
    rw e (same_set request g a b)

-- A request that changes nothing asks for what is there.
decide-unchanged :
    (at : ℕ) (request : AccessRequest) (op : AccessOperation) (before after : Option Grant)
    → request.operation ≡ op
    → decide at request before ≡ done (false, after)
    → Alike after before
unfolding decide
decide-unchanged at request get before after op h =
    let e : after ≡ before = ground arith in rw e (refl, refl, refl)
decide-unchanged at request set before after op h =
    decide-set_unchanged at request before after op h
decide-unchanged at request revoke none after op h =
    let e : after ≡ none = ground arith in rw e (refl, refl, refl)
decide-unchanged at request revoke (some g) after op h = absurd (ground arith)

-- The request that reads what `request` is about.
abbrev pub reading : AccessRequest → AccessRequest
reading request = record request {
  operation = get;
  expected_access_epoch = none;
  permissions = none;
  expires_at = none;
  no_expiry = false;
}

result-Alike :
    (at n : ℕ) (c : Bool) (after before : Option Grant)
    → Alike after before
    → result at n false before ≡ record (result at n c after) { changed = false }
unfolding result
result-Alike at n c after before (p, t, e) = rw (p, t, e) refl

-- After an answered request, to get, set or revoke, reading the same member at the same time changes
-- nothing and answers the same, except that it says that nothing changed.
pub reads_back :
    (at : ℕ) (request : AccessRequest) (d : Directory) (r : AccessResult) (d' : Directory)
    → scope_access at request d ≡ done (r, d')
    → scope_access at (reading request) d' ≡ done (record r { changed = false }, d')
unfolding scope_access decide conclude change
reads_back at request d r d' h =
    let (there, _, answered) = scope_access_lem at request d r d' h in
    elim answered [
      | unchanged after e er ed ↦
          rw (ed, er, there)
            (ap (λ q. done (q, d))
              (result-Alike at d.access_epoch false after _
                (decide-unchanged at request request.operation _ after refl e)))
      | changed after e more er ed ↦
          rw (ed, er, there)
            (ap
              (λ q.
                done (
                  q,
                  change request (member_grant d request.scope_id request.principal_id) after d,
                ))
              (result-Alike at (d.access_epoch + 1) true after _
                (same (find-write_member request.scope_id request.principal_id after d.members))))
    ]
  where
    same : {a b : Option Grant} → a ≡ b → Alike b a
    same e = rw e (refl, refl, refl)
