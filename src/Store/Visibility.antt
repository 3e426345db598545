-- ===== src/Store/Visibility.antt =====
-- Row-level security of storage/001_initial.sql: memory.permitted, memory.visible and the policy
-- object_read, for one principal at one time.
use pg_agmemory.Prelude.{
  ℕ, Bool, true, not, ◌&&◌, ◌||◌, Option, none, some, List, any, find, ltb, ◌==◌,
}
use pg_agmemory.Text.{Text}
use pg_agmemory.Store.Tables.{Store, Member, Object, Permission, read, write, delete, admin}

-- What a request brings from outside the store: who asks, when, the UUIDs that uuid4 will draw,
-- HMAC-SHA-256 of a secret and a text, as a hexadecimal text, and the Japanese tokenizer, which may
-- be unavailable.
pub record Session : Type 0 where
  pub principal : ℕ
  pub now : ℕ
  pub uuid4 : ℕ → ℕ
  pub hmac_sha256 : Text → Text → Text
  pub tokenize : Text → Option (List Text)

abbrev pub permission_code : Permission → ℕ
permission_code read = 0
permission_code write = 1
permission_code delete = 2
permission_code admin = 3

abbrev pub permission_eq : Permission → Permission → Bool
permission_eq p q = permission_code p == permission_code q

-- `permission = ANY(permissions)`
abbrev pub has_permission : Permission → List Permission → Bool
has_permission p ps = any (permission_eq p) ps

-- `expires_at IS NULL OR expires_at > at`
abbrev pub unexpired : Option ℕ → ℕ → Bool
unexpired none at = true
unexpired (some t) at = ltb at t

module _ (env : Session) where
  unfoldable pub grants : ℕ → Permission → Member → Bool
  grants scope p m =
      m.scope_id == scope
      && (m.principal_id == env.principal
          && ((has_permission p m.permissions || has_permission admin m.permissions)
              && unexpired m.expires_at env.now))

  -- memory.permitted(scope, permission)
  unfoldable pub permitted : Store → ℕ → Permission → Bool
  unfolding grants
  permitted s scope p = any (grants scope p) s.members

  -- The rows of memory.object that the policy object_read shows.
  unfoldable pub shown : Store → Object → Bool
  unfolding permitted
  shown s o = permitted s o.scope_id read && not (any (λ t. t == o.id) s.tombstones)

  -- memory.visible(id)
  unfoldable pub visible : Store → ℕ → Bool
  unfolding shown
  visible s id = any (λ (o : Object). o.id == id && shown s o) s.objects

  -- SELECT * FROM memory.object WHERE id = ...
  unfoldable pub object_row : Store → ℕ → Option Object
  unfolding shown
  object_row s id = find (λ (o : Object). o.id == id && shown s o) s.objects
