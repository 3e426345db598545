-- ===== src/Access/Epoch.antt =====
-- The access epoch: it counts the changes, and it orders those who make them.
use pg_agmemory.Prelude.{
  ℕ, ◌+◌, ◌≤◌, ◌≡◌, ◌≢◌, refl, sym, ap, Bool, true, false, Bool-cases, ◌⊎◌, Option, some, inl, inr,
  ◌∷◌, ◌==◌, ==→ne, arith,
}
use pg_agmemory.Access.Members.{find-write_member}
use pg_agmemory.Access.{
  get, AccessRequest, Grant, Directory, AccessResult, AccessEvent, Access, done, refused, max_epoch,
  access_epoch_conflict, member_grant, decide, result, change, conclude, scope_access,
  target_exists, epoch_expected,
}

-- A request that was answered: what it decided, and what came of it.
pub data Answered (at : ℕ) (request : AccessRequest) (d : Directory) (r : AccessResult)
    (d' : Directory) : Type 0 where
  unchanged :
      (after : Option Grant)
      → decide at request (member_grant d request.scope_id request.principal_id)
        ≡ done (false, after)
      → r ≡ result at d.access_epoch false after
      → d' ≡ d
      → Answered at request d r d'
  changed :
      (after : Option Grant)
      → decide at request (member_grant d request.scope_id request.principal_id)
        ≡ done (true, after)
      → d.access_epoch ≢ max_epoch
      → r ≡ result at (d.access_epoch + 1) true after
      → d' ≡ change request (member_grant d request.scope_id request.principal_id) after d
      → Answered at request d r d'

conclude_lem :
    (at : ℕ) (request : AccessRequest) (d : Directory) (r : AccessResult) (d' : Directory)
    (decision : Access (Bool × Option Grant))
    → decide at request (member_grant d request.scope_id request.principal_id) ≡ decision
    → conclude at request (member_grant d request.scope_id request.principal_id) d decision
      ≡ done (r, d')
    → Answered at request d r d'
unfolding conclude
conclude_lem at request d r d' (refused code) e h = cc
conclude_lem at request d r d' (done (false, after)) e h =
    unchanged after e (ground arith) (ground arith)
conclude_lem at request d r d' (done (true, after)) e h =
    elim (Bool-cases (d.access_epoch == max_epoch)) [
      | inl last ↦ let k = rw last at h in cc
      | inr more ↦
          let k = rw more at h in
          changed after e (==→ne d.access_epoch max_epoch more) (ground (arith, k))
            (ground (arith, k))
    ]

-- An answered request had its target, and the epoch it expected.
pub scope_access_lem :
    (at : ℕ) (request : AccessRequest) (d : Directory) (r : AccessResult) (d' : Directory)
    → scope_access at request d ≡ done (r, d')
    → (target_exists request d ≡ true)
      × (epoch_expected request d ≡ true)
      × Answered at request d r d'
unfolding scope_access
scope_access_lem at request d r d' h = elim (Bool-cases (target_exists request d)) [
  | inl there ↦ elim (Bool-cases (epoch_expected request d)) [
    | inl expected ↦ (
      there,
      expected,
      conclude_lem at request d r d'
          (decide at request (member_grant d request.scope_id request.principal_id)) refl
          (rw (there, expected) at h),
    )
    | inr other ↦ let k = rw (there, other) at h in cc
  ]
  | inr missing ↦ let k = rw missing at h in cc
]

pub decide-get :
    (at : ℕ) (request : AccessRequest) (before after : Option Grant) (b : Bool)
    → request.operation ≡ get
    → decide at request before ≡ done (b, after)
    → (b ≡ false) × (after ≡ before)
unfolding decide
decide-get at request before after b op h = (ground arith, ground arith)

-- An answered request at any time, by `get`, `set` or `revoke`, on a tenant whose epoch is at most
-- 2 ^ 63 - 1: the answer tells the epoch that the tenant has then, which is again at most 2 ^ 63 - 1;
-- and either it says that nothing changed and everything is as it was, or the request is not a `get`,
-- and it counts one change, with one event that carries the new epoch, the member's row before and
-- after.
pub epoch_counts_changes :
    (at : ℕ) (request : AccessRequest) (d : Directory) (r : AccessResult) (d' : Directory)
    → d.access_epoch ≤ max_epoch
    → scope_access at request d ≡ done (r, d')
    → (r.access_epoch ≡ d'.access_epoch)
      × (d'.access_epoch ≤ max_epoch)
      × (((r.changed ≡ false) × (d' ≡ d))
          ⊎ ((r.changed ≡ true)
              × (request.operation ≢ get)
              × (d'.access_epoch ≡ d.access_epoch + 1)
              × ((e : AccessEvent) × (d'.events ≡ e ∷ d.events)
                  × (e.access_epoch ≡ d'.access_epoch)
                  × (e.before ≡ member_grant d request.scope_id request.principal_id)
                  × (e.after ≡ member_grant d' request.scope_id request.principal_id))))
unfolding result change
epoch_counts_changes at request d r d' small h = elim (scope_access_lem at request d r d' h).2 [
  | unchanged after e er ed ↦ rw (er, ed) (refl, small, inl (refl, refl))
  | changed after e more er ed ↦
      rw (er, ed)
        (
          refl,
          omega (arith, small, more),
          inr (
            refl,
            λ op. cc ((decide-get at request _ after true op e).0),
            refl,
            (
              _,
              refl,
              refl,
              refl,
              sym (find-write_member request.scope_id request.principal_id after d.members),
            ),
          ),
        )
]

expected_epoch :
    (request : AccessRequest) (d : Directory)
    → request.operation ≢ get
    → epoch_expected request d ≡ true
    → request.expected_access_epoch ≡ some d.access_epoch
expected_epoch request d op h = ground arith

unexpected_epoch :
    (request : AccessRequest) (d : Directory) (n : ℕ)
    → request.operation ≢ get
    → request.expected_access_epoch ≡ some n
    → d.access_epoch ≢ n
    → epoch_expected request d ≡ false
unexpected_epoch request d n op h ne = ground arith

change_grows :
    (at : ℕ) (request : AccessRequest) (d : Directory) (r : AccessResult) (d' : Directory)
    → Answered at request d r d'
    → r.changed ≡ true
    → (d'.access_epoch ≡ d.access_epoch + 1) × (request.operation ≢ get)
unfolding result change
change_grows at request d r d' (unchanged after e er ed) moved =
    absurd (cc (moved, ap (λ (q : AccessResult). q.changed) er))
change_grows at request d r d' (changed after e more er ed) moved = (
  ap (λ (q : Directory). q.access_epoch) ed,
  λ op. cc ((decide-get at request _ after true op e).0),
)

-- Two changes on the same expected epoch: after a request has changed a row, any other change, of
-- any member of a scope and any principal that are there, that expects the epoch which that request
-- expected is refused.
pub second_change_is_refused :
    (at : ℕ) (request : AccessRequest) (d : Directory) (r : AccessResult) (d' : Directory)
    → scope_access at request d ≡ done (r, d')
    → r.changed ≡ true
    → (later : ℕ) (other : AccessRequest) → other.operation ≢ get
    → other.expected_access_epoch ≡ request.expected_access_epoch
    → target_exists other d' ≡ true
    → scope_access later other d' ≡ refused access_epoch_conflict
unfolding scope_access
second_change_is_refused at request d r d' h moved later other op same there =
    let (_, expected, answered) = scope_access_lem at request d r d' h in
    let (grew, mutates) = change_grows at request d r d' answered moved in
    let known = expected_epoch request d mutates expected in
    let late =
      unexpected_epoch other d' d.access_epoch op (cc (same, known)) (omega (arith, grew)) in
    rw (there, late) refl
