-- ===== src/Delivery/Repository/Tests.antt =====
-- A stored policy, and the theorems at it.
use zentora_backend.Prelude.{◌≡◌, refl, true, false, none, some, [], ◌∷◌}
use zentora_backend.Prelude.Int.{pos, ◌+ℤ◌}
use zentora_backend.Text.{lit, trim_space, trim_left, trim_right, is_space}
use zentora_backend.Delivery.{Policy, PolicyUpdate, prepare, is_valid_update}
use zentora_backend.Delivery.Repository.{
  ok, err, invalid, conflict, Method, Rate, Tables, Failures, policy_of, update_policy, read_policy,
  find_fee, set_fees, count_fees,
}
use zentora_backend.Delivery.Repository.Versions.{update_policy-conflict}

abbrev willing : Failures
willing = record { begins = false; updates_method = false; updates_rates = false; commits = false }

abbrev standard : Method
standard = record {
  id = pos 1;
  description = [];
  policy_version = pos 4;
  is_informational = true;
  is_active = true;
  updated_at = 0;
  updated_by = none;
}

abbrev nairobi : Rate
nairobi = record {
  method_id = pos 1;
  in_nairobi = true;
  is_indicative = true;
  is_kes = true;
  base_fee = some (pos 300);
}

abbrev tables : Tables
tables = record { method = some standard; rates = nairobi ∷ [] }

abbrev dearer : PolicyUpdate
dearer = record {
  expected_version = pos 4;
  nairobi_indicative_fee = pos 350;
  additional_information = lit "Cash";
}

abbrev later : Tables
later = record {
  method = some (record standard {
    description = lit "Cash";
    policy_version = pos 5;
    updated_at = 7;
    updated_by = some (pos 2);
  });
  rates = record nairobi { base_fee = some (pos 350) } ∷ [];
}

abbrev shown : Policy
shown = prepare (
    policy_of
      (record standard {
        description = lit "Cash";
        policy_version = pos 5;
        updated_at = 7;
        updated_by = some (pos 2);
      })
      (pos 350))

updates : update_policy true willing 7 dearer (pos 2) tables ≡ (ok shown, later)
unfolding update_policy read_policy find_fee set_fees count_fees ◌+ℤ◌ is_valid_update trim_space
    trim_left trim_right is_space
updates = refl

is_good : is_valid_update dearer ≡ true
unfolding is_valid_update
is_good = refl

update_policy-conflict_example :
    update_policy true willing 7 dearer (pos 3) later ≡ (err conflict, later)
update_policy-conflict_example =
    update_policy-conflict true willing 7 dearer dearer (pos 2) (pos 3) tables updates refl is_good
      refl

-- Two rates for Nairobi.
abbrev doubled : Tables
doubled = record tables { rates = nairobi ∷ nairobi ∷ [] }

refuses : update_policy true willing 7 dearer (pos 2) doubled ≡ (err invalid, doubled)
unfolding update_policy count_fees is_valid_update
refuses = refl
