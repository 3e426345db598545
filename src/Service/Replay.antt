-- ===== src/Service/Replay.antt =====
-- A request that is sent again with its idempotency key.
use pg_agmemory.Prelude.{
  ◌≡◌, refl, true, false, none, some, Option-cases, inl, inr, ◌∷◌, ==_self, arith,
}
use pg_agmemory.Text.{Text, text_eq, text_eq_self}
use pg_agmemory.Store.Tables.{Store, Operation, Reply, Idempotency}
use pg_agmemory.Store.Exec.{
  ok, err, idempotency_conflict, memory_error, pure, gets, require, modify, ◌>>=◌, ◌>>◌,
}
use pg_agmemory.Store.Visibility.{Session}
use pg_agmemory.Service.{
  operation_eq, digest, check_replied, saved_row, replay, save_result, replay_row,
}

operation_eq_self : (o : Operation) → operation_eq o o ≡ true
operation_eq_self o = ground arith

module _ (env : Session) (s s' : Store) (operation : Operation) (key payload : Text)
    (result : Reply) where
  abbrev key_digest : Text
  key_digest = env.hmac_sha256 s.tenant.dedup_secret key

  abbrev row : Idempotency
  row = record {
    principal_id = env.principal;
    operation = operation;
    key_digest = key_digest;
    request_digest = env.hmac_sha256 s.tenant.dedup_secret payload;
    result = result;
  }

  save_result_lem :
      save_result env operation key_digest (env.hmac_sha256 s.tenant.dedup_secret payload) result s
        ≡ ok (tt, s')
      → s' ≡ record s { idempotency = row ∷ s.idempotency }
  unfolding save_result ◌>>=◌ gets require modify
  save_result_lem h = elim (Option-cases (saved_row env operation key_digest s)) [
    | inl free ↦ ground arith
    | inr (old, there) ↦ ground arith
  ]

  saved_row-row :
      saved_row env operation key_digest (record s { idempotency = row ∷ s.idempotency }) ≡ some row
  unfolding saved_row
  saved_row-row =
      rw (==_self env.principal, operation_eq_self operation, text_eq_self key_digest) refl

  -- In the store that saving the result of a request under a key leaves, the same request with the
  -- same key is answered with that result, if every object that it names may still be written, and
  -- another request of the operation with the key, whose digest is not the first one's, is refused.
  pub replay-save_result :
      save_result env operation key_digest (env.hmac_sha256 s.tenant.dedup_secret payload) result s
        ≡ ok (tt, s')
      → (other : Text)
      → text_eq
          (env.hmac_sha256 s.tenant.dedup_secret payload)
          (env.hmac_sha256 s.tenant.dedup_secret other)
        ≡ false
      → (replay env operation key payload s'
          ≡ (check_replied env result
                >> pure (key_digest, env.hmac_sha256 s.tenant.dedup_secret payload, some result))
              s')
        × (replay env operation key other s' ≡ err (memory_error idempotency_conflict 409))
  unfolding replay ◌>>=◌ gets digest pure require
  replay-save_result h other differs =
      rw
        (
          save_result_lem h,
          saved_row-row,
          text_eq_self (env.hmac_sha256 s.tenant.dedup_secret payload),
          differs,
        )
        (refl, refl)

-- A key that the principal has not used for the operation.
pub replay_new :
    (env : Session) (s : Store) (operation : Operation) (key payload : Text)
    → saved_row env operation (env.hmac_sha256 s.tenant.dedup_secret key) s ≡ none
    → replay env operation key payload s
      ≡ ok (
        (
          env.hmac_sha256 s.tenant.dedup_secret key,
          env.hmac_sha256 s.tenant.dedup_secret payload,
          none,
        ),
        s,
      )
unfolding replay ◌>>=◌ gets digest pure replay_row
replay_new env s operation key payload free = rw free refl
