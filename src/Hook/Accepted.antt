-- ===== src/Hook/Accepted.antt =====
-- The request that the hook makes of its settings and its input.
use pg_agmemory.Prelude.{◌≡◌, Bool, true, arith}
use pg_agmemory.Text.{Text}
use pg_agmemory.Hook.{
  HookInput, HookSettings, implicit_budget, recall_fields, input_fields, validate_startup, request,
}

-- Of settings that validate_startup accepts and an input whose field is in its bounds, the hook makes
-- a request that keeps every bound of Recall's fields, and that Recall's validator accepts.
pub request-accepted :
    (V F : Type 0) (native_settings : Text → Text → Bool) (s : HookSettings) (data_ : HookInput)
    → validate_startup native_settings s ≡ true
    → input_fields data_ ≡ true
    → (recall_fields (request {V = V} {F = F} s data_) ≡ true)
      × (implicit_budget (request {V = V} {F = F} s data_) ≡ true)
unfolding validate_startup input_fields request recall_fields implicit_budget
request-accepted V F native_settings s data_ hs hd =
    (ground (arith, hs, hd), ground (arith, hs, hd))
