-- ===== src/Service/Timeline/Ledger.antt =====
-- Any sequence of requests that write memory, each in its own transaction.
use pg_agmemory.Prelude.{
  ℕ, ◌≡◌, none, some, List, [], ◌∷◌, refl, leb, if◌then◌else◌, Bool-cases, inl, inr, arith,
}
use pg_agmemory.Text.{Text}
use pg_agmemory.Store.Tables.{Store, Remember, Assertion}
use pg_agmemory.Store.Keeps.{committed, committed-Keeps}
use pg_agmemory.Store.Visibility.{Session}
use pg_agmemory.Service.Memory.{
  Observe, ReviseAssertion, MemoryJson, observe, remember, revise_assertion, assertion_row,
}
use pg_agmemory.Service.Timeline.{IsTimeline, HasTimelines, assertion_history}
use pg_agmemory.Service.Timeline.Operations.{
  observe-HasTimelines, remember-HasTimelines, revise_assertion-HasTimelines,
}
use pg_agmemory.Service.Timeline.Known.{first_recorded, count_known, count_known_lem}

-- The requests that write memory, with their idempotency keys.
pub data MemoryCall : Type 0 where
  observe_call : Observe → Text → MemoryCall
  remember_call : Remember → Text → MemoryCall
  revise_call : ℕ → ReviseAssertion → Text → MemoryCall

unfoldable pub serve_memory : MemoryJson → Session → MemoryCall → Store → Store
serve_memory json env (observe_call request key) s = committed (observe env json request key s) s
serve_memory json env (remember_call request key) s = committed (remember env json request key s) s
serve_memory json env (revise_call id request key) s =
    committed (revise_assertion env json id request key s) s

unfoldable pub serve_memory_all : MemoryJson → List (Session × MemoryCall) → Store → Store
unfolding serve_memory
serve_memory_all json [] s = s
serve_memory_all json ((env, call) ∷ calls) s =
    serve_memory_all json calls (serve_memory json env call s)

pub serve_memory-HasTimelines :
    (json : MemoryJson) (env : Session) (call : MemoryCall) (s : Store)
    → HasTimelines s
    → HasTimelines (serve_memory json env call s)
unfolding serve_memory
serve_memory-HasTimelines json env (observe_call request key) s c =
    committed-Keeps _ s (observe-HasTimelines env json request key) c
serve_memory-HasTimelines json env (remember_call request key) s c =
    committed-Keeps _ s (remember-HasTimelines env json request key) c
serve_memory-HasTimelines json env (revise_call id request key) s c =
    committed-Keeps _ s (revise_assertion-HasTimelines env json id request key) c

-- On a store in which every assertion's revisions are numbered 1, 2, ... up to its current one, and
-- each ends when the next begins, after it began, and the newest is open: so it stays after any
-- requests to observe, remember or revise, by any principals at any times, failing or not.
pub serve_memory_all-HasTimelines :
    (json : MemoryJson) (calls : List (Session × MemoryCall)) (s : Store)
    → HasTimelines s
    → HasTimelines (serve_memory_all json calls s)
unfolding serve_memory_all
serve_memory_all-HasTimelines json [] s c = c
serve_memory_all-HasTimelines json ((env, call) ∷ calls) s c =
    serve_memory_all-HasTimelines json calls (serve_memory json env call s)
      (serve_memory-HasTimelines json env call s c)

-- On a store in which every assertion's revisions are numbered up to its current one and each ends
-- when the next begins: after any requests to observe, remember or revise, of an assertion that is there the number of revisions
-- known at a time is one, if it was first recorded by then, and otherwise none.
pub one_known_at_any_time :
    (json : MemoryJson) (calls : List (Session × MemoryCall)) (s : Store)
    → HasTimelines s
    → (id : ℕ) (a : Assertion) → assertion_row (serve_memory_all json calls s) id ≡ some a
    → (t : ℕ)
    → let h = assertion_history (serve_memory_all json calls s) id in
      count_known t h ≡ (if leb (first_recorded h) t then 1 else 0)
one_known_at_any_time json calls s c id a row t =
    let u = serve_memory_all json calls s in
    let h = assertion_history u id in
    let k : IsTimeline none a.current_revision h =
      rw row at ((serve_memory_all-HasTimelines json calls s c).timeline id) in
    let (early, _, known) = count_known_lem t a.current_revision none h k in
    elim (Bool-cases (leb (first_recorded h) t)) [
      | inl since ↦ rw since (known (ground (arith, since)) refl)
      | inr before ↦ rw before (early (ground (arith, before)))
    ]
