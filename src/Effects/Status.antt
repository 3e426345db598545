-- ===== src/Effects/Status.antt =====
-- The statuses of a tool effect and the moves between them: TRANSITIONS of
-- src/pg_agmemory/effects.py, and the moves that the database's trigger admits.
use pg_agmemory.Prelude.{ℕ, Bool, List, [], ◌∷◌, any, ◌==◌, ◌||◌, ◌&&◌, ◌≡◌, refl}
use pg_agmemory.Store.Tables.{EffectStatus, planned, dispatched, unknown, confirmed, failed}

abbrev status_code : EffectStatus → ℕ
status_code planned = 0
status_code dispatched = 1
status_code unknown = 2
status_code confirmed = 3
status_code failed = 4

abbrev pub status_eq : EffectStatus → EffectStatus → Bool
status_eq a b = status_code a == status_code b

-- TRANSITIONS
unfoldable pub transitions : EffectStatus → List EffectStatus
transitions planned = dispatched ∷ unknown ∷ []
transitions dispatched = unknown ∷ confirmed ∷ failed ∷ []
transitions unknown = confirmed ∷ failed ∷ []
transitions confirmed = []
transitions failed = []

-- `status in statuses`
abbrev pub status_in : EffectStatus → List EffectStatus → Bool
status_in a l = any (status_eq a) l

-- The moves of memory.adopt_tool_effect_revision.
unfoldable pub adoptable : EffectStatus → EffectStatus → Bool
adoptable from to =
    (status_eq from planned && (status_eq to dispatched || status_eq to unknown))
    || ((status_eq from dispatched
          && (status_eq to unknown || (status_eq to confirmed || status_eq to failed)))
        || (status_eq from unknown && (status_eq to confirmed || status_eq to failed)))

-- The service and the database admit the same moves.
pub adoptable-eq : (from to : EffectStatus) → adoptable from to ≡ status_in to (transitions from)
unfolding adoptable transitions
adoptable-eq planned planned = refl
adoptable-eq planned dispatched = refl
adoptable-eq planned unknown = refl
adoptable-eq planned confirmed = refl
adoptable-eq planned failed = refl
adoptable-eq dispatched planned = refl
adoptable-eq dispatched dispatched = refl
adoptable-eq dispatched unknown = refl
adoptable-eq dispatched confirmed = refl
adoptable-eq dispatched failed = refl
adoptable-eq unknown planned = refl
adoptable-eq unknown dispatched = refl
adoptable-eq unknown unknown = refl
adoptable-eq unknown confirmed = refl
adoptable-eq unknown failed = refl
adoptable-eq confirmed planned = refl
adoptable-eq confirmed dispatched = refl
adoptable-eq confirmed unknown = refl
adoptable-eq confirmed confirmed = refl
adoptable-eq confirmed failed = refl
adoptable-eq failed planned = refl
adoptable-eq failed dispatched = refl
adoptable-eq failed unknown = refl
adoptable-eq failed confirmed = refl
adoptable-eq failed failed = refl
