-- ===== src/Requests/Tests.antt =====
-- Requests that are accepted and refused.
use pg_agmemory.Prelude.{◌≡◌, refl, true, false, none, some, [], ◌∷◌}
use pg_agmemory.Text.{codes}
use pg_agmemory.Store.Tables.{confirmed, provider_receipt, Remember}
use pg_agmemory.Service.Memory.{ReviseAssertion}
use pg_agmemory.Effects.Models.{TransitionToolEffect}
use pg_agmemory.Effects.Database.{receipts_valid}
use pg_agmemory.Requests.{remember_valid, revise_valid, transition_valid, transition_fields}
use pg_agmemory.Requests.Constraints.{transition_valid-eq}

abbrev done : TransitionToolEffect
done = record {
  expected_revision = 2;
  status = confirmed;
  reason = codes "r";
  receipt_reference = some (codes "x");
  receipt_source = some provider_receipt;
}

abbrev blue : Remember
blue = record {
  scope_id = 10;
  subject = codes "sky";
  predicate = codes "is";
  value = codes "blue";
  evidence = record { memory_id = 50; quote = codes "sky" } ∷ [];
  valid_from = some 1;
  valid_to = some 2;
}

abbrev green : ReviseAssertion
green = record {
  expected_revision = 1;
  value = codes "green";
  evidence = record { memory_id = 50; quote = codes "sky" } ∷ [];
  valid_from = none;
  valid_to = none;
  reason = codes "mistaken";
}

all_accepted :
    (transition_valid done ≡ true)
    × (remember_valid blue ≡ true)
    × (revise_valid green ≡ true)
    × (remember_valid (record blue { valid_to = some 1 }) ≡ false)
    × (transition_valid (record done { receipt_source = none }) ≡ false)
unfolding transition_valid remember_valid revise_valid
all_accepted = (refl, refl, refl, refl, refl)

done_fields :
    (transition_fields done ≡ true)
    × (transition_fields (record done { receipt_reference = some [] }) ≡ false)
unfolding transition_fields codes
done_fields = (refl, refl)

transition_valid-eq_example :
    transition_valid done ≡ receipts_valid confirmed (some (codes "x")) (some provider_receipt)
transition_valid-eq_example = transition_valid-eq done done_fields.0
