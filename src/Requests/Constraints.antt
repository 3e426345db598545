-- ===== src/Requests/Constraints.antt =====
-- The validator of TransitionToolEffect (src/pg_agmemory/models.py) and the receipt constraint of
-- memory.tool_effect_revision (storage/004_tool_effects.sql).
use pg_agmemory.Prelude.{ℕ, ◌≡◌, refl, sym, Bool, true, ◌&&◌, Option, none, some, arith}
use pg_agmemory.Store.Tables.{
  EffectStatus, planned, dispatched, unknown, confirmed, failed, ReceiptSource,
}
use pg_agmemory.Text.{Text}
use pg_agmemory.Effects.Models.{TransitionToolEffect}
use pg_agmemory.Effects.Database.{receipts_valid}
use pg_agmemory.Requests.{transition_fields, transition_valid}

and_right : (a b : Bool) → a && b ≡ true → b ≡ true
and_right a b h = ground arith

same_receipts :
    (revision : ℕ) (status : EffectStatus) (reason : Text) (reference : Option Text)
    (source : Option ReceiptSource)
    → let t : TransitionToolEffect = record {
      expected_revision = revision;
      status = status;
      reason = reason;
      receipt_reference = reference;
      receipt_source = source;
    } in
      transition_fields t ≡ true → transition_valid t ≡ receipts_valid status reference source
unfolding transition_fields transition_valid receipts_valid
same_receipts n planned reason none none h = refl
same_receipts n planned reason none (some s) h = refl
same_receipts n planned reason (some r) none h = refl
same_receipts n planned reason (some r) (some s) h = refl
same_receipts n dispatched reason none none h = refl
same_receipts n dispatched reason none (some s) h = refl
same_receipts n dispatched reason (some r) none h = refl
same_receipts n dispatched reason (some r) (some s) h = refl
same_receipts n unknown reason none none h = refl
same_receipts n unknown reason none (some s) h = refl
same_receipts n unknown reason (some r) none h = refl
same_receipts n unknown reason (some r) (some s) h = refl
same_receipts n confirmed reason none none h = refl
same_receipts n confirmed reason none (some s) h = refl
same_receipts n confirmed reason (some r) none h = refl
same_receipts n confirmed reason (some r) (some s) h = sym (and_right _ _ h)
same_receipts n failed reason none none h = refl
same_receipts n failed reason none (some s) h = refl
same_receipts n failed reason (some r) none h = refl
same_receipts n failed reason (some r) (some s) h = sym (and_right _ _ h)

-- If the reason and the receipt reference of a transition are of 1 to 256 characters, its validator
-- accepts it exactly if its status and receipt meet the receipt constraint of
-- memory.tool_effect_revision.
pub transition_valid-eq :
    (t : TransitionToolEffect)
    → transition_fields t ≡ true
    → transition_valid t ≡ receipts_valid t.status t.receipt_reference t.receipt_source
transition_valid-eq t h =
    same_receipts t.expected_revision t.status t.reason t.receipt_reference t.receipt_source h
