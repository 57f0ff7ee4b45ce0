-- ===== src/Delivery/Repository.antt =====
-- The stored delivery policy (internal/repository/postgres/delivery.go), with its optimistic
-- version. The standard method's row and the rates are the state; the zones and their countries,
-- which nothing here changes, are a parameter, as are the database's failures.
pub mod Versions
mod Tests
use zentora_backend.Prelude.{
  ℕ, zero, suc, ◌≡◌, ◌==◌, Bool, true, false, ◌&&◌, ◌||◌, not, Option, none, some, List, [], ◌∷◌,
  if◌then◌else◌,
}
use zentora_backend.Prelude.Int.{ℤ, pos, ◌+ℤ◌, ◌==ℤ◌, ltb_ℤ}
use zentora_backend.Text.{Text, lit, trim_space}
use zentora_backend.Delivery.{Policy, PolicyUpdate, is_valid_update, prepare}

pub data Error : Type 0 where
  invalid conflict failure : Error

pub data Result {ℓ} (A : Type ℓ) : Type ℓ where
  ok : A → Result A
  err : Error → Result A

-- The row of shipping_methods with the code `standard-delivery`.
pub record Method : Type 0 where
  pub id : ℤ
  pub description : Text
  pub policy_version : ℤ
  pub is_informational : Bool
  pub is_active : Bool
  pub updated_at : ℕ
  pub updated_by : Option ℤ

-- A row of shipping_method_rates; `in_nairobi` says that its zone is the active ke-nairobi.
pub record Rate : Type 0 where
  pub method_id : ℤ
  pub in_nairobi : Bool
  pub is_indicative : Bool
  pub is_kes : Bool
  pub base_fee : Option ℤ

pub record Tables : Type 0 where
  pub method : Option Method
  pub rates : List Rate

-- How the database fails: at the beginning, at either statement, at the commit.
pub record Failures : Type 0 where
  pub begins : Bool
  pub updates_method : Bool
  pub updates_rates : Bool
  pub commits : Bool

abbrev pub is_fee_of : ℤ → Rate → Bool
is_fee_of id r = r.method_id ==ℤ id && r.in_nairobi && r.is_indicative && r.is_kes

abbrev pub positive_fee : Option ℤ → Option ℤ
positive_fee none = none
positive_fee (some f) = if ltb_ℤ (pos 0) f then some f else none

-- The first indicative fee of the query's rows.
pub find_fee : ℤ → List Rate → Option ℤ
find_fee id [] = none
find_fee id (r ∷ rs) =
    let rest = find_fee id rs in
    if is_fee_of id r
    then elim (positive_fee r.base_fee) [ some f ↦ some f | none ↦ rest ]
    else rest

abbrev pub is_current : Method → Bool
is_current m = m.is_active && m.is_informational

abbrev pub policy_of : Method → ℤ → Policy
policy_of m fee = record {
  method_id = m.id;
  version = m.policy_version;
  pricing_mode = lit "informational";
  currency = lit "KES";
  nairobi_indicative_fee = fee;
  additional_information = m.description;
  message = [];
  coverage = [];
  included_in_order_total = false;
  updated_at = m.updated_at;
}

-- `deliveryPolicyQuery`; `zones` says that the zones are as it asks.
abbrev pub priced : Method → Option ℤ → Option Policy
priced m none = none
priced m (some fee) = some (policy_of m fee)

abbrev pub read_method : Bool → Method → List Rate → Option Policy
read_method zones m rates = if zones && is_current m then priced m (find_fee m.id rates) else none

pub read_policy : Bool → Tables → Option Policy
read_policy zones t = elim t.method [ none ↦ none | some m ↦ read_method zones m t.rates ]

-- `Get`; any error of the query is a failure.
pub get_policy : Bool → Tables → Result Policy
get_policy zones t = elim (read_policy zones t) [ none ↦ err failure | some p ↦ ok (prepare p) ]

pub set_fees : ℤ → ℤ → List Rate → List Rate
set_fees id fee [] = []
set_fees id fee (r ∷ rs) =
    (if is_fee_of id r then record r { base_fee = some fee } else r) ∷ set_fees id fee rs

-- `RowsAffected`
pub count_fees : ℤ → List Rate → ℕ
count_fees id [] = 0
count_fees id (r ∷ rs) = let rest = count_fees id rs in if is_fee_of id r then suc rest else rest

module _ (zones : Bool) (fails : Failures) (now : ℕ) where
  abbrev pub new_method : PolicyUpdate → ℤ → Method → Method
  new_method u admin m = record m {
    description = trim_space u.additional_information;
    policy_version = m.policy_version +ℤ pos 1;
    updated_at = now;
    updated_by = some admin;
  }

  -- After the second statement: the policy as it is read back, and the commit.
  abbrev pub committed : Tables → Tables → Option Policy → Result Policy × Tables
  committed t t' none = (err failure, t)
  committed t t' (some p) = if fails.commits then (err failure, t) else (ok (prepare p), t')

  abbrev pub repriced : PolicyUpdate → Tables → Method → Result Policy × Tables
  repriced u t m =
      if fails.updates_rates
      then (err failure, t)
      else if count_fees m.id t.rates == 1
      then committed t
          (record { method = some m; rates = set_fees m.id u.nairobi_indicative_fee t.rates })
          (read_policy zones
            (record { method = some m; rates = set_fees m.id u.nairobi_indicative_fee t.rates }))
      else (err invalid, t)

  abbrev pub versioned : PolicyUpdate → ℤ → Tables → Option Method → Result Policy × Tables
  versioned u admin t none = (err conflict, t)
  versioned u admin t (some m) =
      if is_current m && m.policy_version ==ℤ u.expected_version
      then repriced u t (new_method u admin m)
      else (err conflict, t)

  pub update_policy : PolicyUpdate → ℤ → Tables → Result Policy × Tables
  update_policy u admin t =
      if not (is_valid_update u)
      then (err invalid, t)
      else if fails.begins || fails.updates_method
      then (err failure, t)
      else versioned u admin t t.method
