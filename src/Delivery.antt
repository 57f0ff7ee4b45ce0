-- ===== src/Delivery.antt =====
-- The delivery policy (internal/domain/delivery/delivery.go): its validation, its customer-facing
-- text, and the snapshot that an order keeps of it.
pub mod Repository
use zentora_backend.Prelude.{
  ℕ, Bool, true, false, ◌||◌, Option, none, some, ◌++◌, ltb, if◌then◌else◌,
}
use zentora_backend.Prelude.Int.{ℤ, pos, ltb_ℤ}
use zentora_backend.Text.{Text, lit, is_empty, rune_count, trim_space}
use zentora_backend.Text.Decimal.{itoa}

pub record Policy : Type 0 where
  pub method_id : ℤ
  pub version : ℤ
  pub pricing_mode : Text
  pub currency : Text
  pub nairobi_indicative_fee : ℤ
  pub additional_information : Text
  pub message : Text
  pub coverage : Text
  pub included_in_order_total : Bool
  pub updated_at : ℕ

-- The named `Update` of the source.
pub record PolicyUpdate : Type 0 where
  pub expected_version : ℤ
  pub nairobi_indicative_fee : ℤ
  pub additional_information : Text

abbrev pub fallback_notice : Text
fallback_notice =
    lit "Delivery charges are confirmed separately and are not included in the order total."

-- `Validate`: false is ErrInvalid.
pub is_valid_update : PolicyUpdate → Bool
is_valid_update u =
    if ltb_ℤ u.expected_version (pos 1)
      || ltb_ℤ u.nairobi_indicative_fee (pos 1)
      || ltb_ℤ (pos 100000) u.nairobi_indicative_fee
      || ltb 1000 (rune_count u.additional_information)
    then false
    else true

abbrev message_head : Text
message_head = lit "We deliver across Kenya. Standard Nairobi delivery is typically KES "

abbrev message_tail : Text
message_tail =
    lit
      "; the actual fee depends on your location. We will contact you to confirm delivery charges. Delivery is not included in your order total."

pub prepare : Policy → Policy
prepare p =
    let base = message_head ++ (itoa p.nairobi_indicative_fee ++ message_tail) in
    let note = trim_space p.additional_information in
    record p {
      coverage = lit "Kenya nationwide";
      included_in_order_total = false;
      message = if is_empty note then base else base ++ (lit " " ++ note);
    }

pub record Snapshot : Type 0 where
  pub policy_version : Option ℤ
  pub method_id : Option ℤ
  pub pricing_status : Text
  pub included_in_order_total : Bool
  pub confirmed_fee : Option ℤ
  pub currency : Text
  pub notice : Text

abbrev generic : Snapshot
generic = record {
  policy_version = none;
  method_id = none;
  pricing_status = lit "pending_confirmation";
  included_in_order_total = false;
  confirmed_fee = none;
  currency = lit "KES";
  notice = fallback_notice;
}

pub new_snapshot : Option Policy → Snapshot
new_snapshot none = generic
new_snapshot (some p) = record generic {
  policy_version = some p.version;
  method_id = some p.method_id;
  notice = p.message;
}
