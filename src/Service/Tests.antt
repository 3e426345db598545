-- ===== src/Service/Tests.antt =====
-- A request sent again, on a concrete store.
use pg_agmemory.Prelude.{◌≡◌, refl, none, some, [], ◌∷◌}
use pg_agmemory.Text.{Text, codes, text_eq}
use pg_agmemory.Store.Tables.{Store, fresh_store, admin, Operation, observe_reply}
use pg_agmemory.Store.Exec.{ok, err, idempotency_conflict, memory_error, pure, ◌>>◌}
use pg_agmemory.Store.Visibility.{Session}
use pg_agmemory.Service.{check_replied, replay, save_result, executing}
use pg_agmemory.Service.Replay.{replay-save_result}

-- A toy hash: the text itself.
abbrev env : Session
env = record {
  principal = 1;
  now = 5;
  uuid4 = λ n. n;
  hmac_sha256 = λ secret m. m;
  tokenize = λ t. none;
}

abbrev start : Store
start =
    fresh_store
      (record { scope_id = 10; principal_id = 1; permissions = admin ∷ []; expires_at = none } ∷ [])

abbrev hello : Text
hello = codes "hello"

abbrev key : Text
key = codes "k"

saved :
    (s : Store) × (save_result env Operation.observe key hello (observe_reply 7) start ≡ ok (tt, s))
unfolding executing
saved = (_, refl)

replay-save_result_example :
    (replay env Operation.observe key hello saved.0
      ≡ (check_replied env (observe_reply 7) >> pure (key, hello, some (observe_reply 7))) saved.0)
    × (replay env Operation.observe key (codes "bye") saved.0
        ≡ err (memory_error idempotency_conflict 409))
unfolding text_eq codes
replay-save_result_example =
    replay-save_result env start saved.0 Operation.observe key hello (observe_reply 7) saved.1
      (codes "bye") refl
