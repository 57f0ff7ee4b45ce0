-- ===== src/Discount.antt =====
-- Discount codes: their redemption (ValidateAndRedeem of internal/service/catalog/discount.go over
-- internal/repository/postgres/discount_repo.go). The order's amount is of an abstract float type.
pub mod Redeemed
pub mod Races
mod Tests
use zentora_backend.Prelude.{
  ℕ, zero, suc, ◌≡◌, Bool, true, false, ◌&&◌, ◌||◌, not, Option, none, some, List, [], ◌∷◌, ◌++◌,
  if◌then◌else◌, ltb, any,
}
use zentora_backend.Prelude.Int.{ℤ, pos, ◌==ℤ◌, leb_ℤ}
use zentora_backend.Prelude.Floats.{Floats}
use zentora_backend.Text.{Text, lit, text_eq}

pub data Error : Type 0 where
  not_found inactive not_started expired min_order_amount_not_met max_redemptions_reached
        redemption_conflict failure :
      Error

pub data Result {ℓ} (A : Type ℓ) : Type ℓ where
  ok : A → Result A
  err : Error → Result A

pub record Discount (F : Type 0) : Type 0 where
  pub id : ℤ
  pub code : Option Text
  pub discount_type : Text
  pub value : F
  pub min_order_amount : Option F
  pub max_redemptions : Option ℤ
  pub starts_at : Option ℕ
  pub ends_at : Option ℕ
  pub is_active : Bool

pub record Redemption : Type 0 where
  pub discount_id : ℤ
  pub order_id : ℤ
  pub user_id : Option ℤ

pub record RedeemRequest (F : Type 0) : Type 0 where
  pub code : Text
  pub order_id : ℤ
  pub user_id : Option ℤ
  pub amount : F

abbrev pub has_code : Text → Option Text → Bool
has_code c none = false
has_code c (some d) = text_eq d c

-- `COUNT(*) … WHERE discount_id = $1`
pub count_redemptions : ℤ → List Redemption → ℕ
count_redemptions d [] = 0
count_redemptions d (r ∷ rs) =
    let rest = count_redemptions d rs in if r.discount_id ==ℤ d then suc rest else rest

-- `UNIQUE (discount_id, order_id)`
abbrev pub is_taken : Redemption → List Redemption → Bool
is_taken r = any (λ q. q.discount_id ==ℤ r.discount_id && q.order_id ==ℤ r.order_id)

module _ {F : Type 0} (fl : Floats F) where
  -- `GetDiscountByCode`
  pub find_code : Text → List (Discount F) → Option (Discount F)
  find_code c [] = none
  find_code c (d ∷ ds) = if has_code c d.code then some d else find_code c ds

  abbrev pub is_before : ℕ → Option ℕ → Bool
  is_before now none = false
  is_before now (some t) = ltb now t

  abbrev pub is_after : ℕ → Option ℕ → Bool
  is_after now none = false
  is_after now (some t) = ltb t now

  abbrev pub is_below : F → Option F → Bool
  is_below a none = false
  is_below a (some m) = fl.lt a m

  -- `validateDiscount`; `none` is no error.
  pub validate_discount : ℕ → Discount F → F → Option Error
  validate_discount now d amount =
      if not d.is_active
      then some inactive
      else if is_before now d.starts_at
      then some not_started
      else if is_after now d.ends_at
      then some expired
      else if is_below amount d.min_order_amount
      then some min_order_amount_not_met
      else none

  pub calculate_discount : Discount F → F → F
  calculate_discount d amount =
      if text_eq d.discount_type (lit "percentage")
      then fl.div (fl.mul amount d.value) (fl.of_int (pos 100))
      else if text_eq d.discount_type (lit "fixed")
      then if fl.lt amount d.value then amount else d.value
      else fl.of_int (pos 0)

  -- `int64(count) >= max`, for a discount that has a limit.
  abbrev pub is_used_up : Option ℤ → ℕ → Bool
  is_used_up none n = false
  is_used_up (some m) n = leb_ℤ m (pos n)

  -- The reads of `ValidateAndRedeem`: whether the request may redeem, and what.
  pub may_redeem : ℕ → RedeemRequest F → List (Discount F) → List Redemption → Result (Discount F)
  may_redeem now req ds rs = elim (find_code req.code ds) [
    | none ↦ err not_found
    | some d ↦ elim (validate_discount now d req.amount) [
      | some e ↦ err e
      | none ↦
          if is_used_up d.max_redemptions (count_redemptions d.id rs)
          then err max_redemptions_reached
          else ok d
    ]
  ]

  abbrev pub redemption : Discount F → RedeemRequest F → Redemption
  redemption d req = record { discount_id = d.id; order_id = req.order_id; user_id = req.user_id }

  -- `RecordRedemption`, a transaction of its own, which the database may also refuse.
  pub record_redemption : Bool → Redemption → List Redemption → Result (Unit {0}) × List Redemption
  record_redemption refuses r rs =
      if is_taken r rs
      then (err redemption_conflict, rs)
      else if refuses
      then (err failure, rs)
      else (ok tt, r ∷ rs)

  abbrev pub redeemed :
      Discount F
      → F
      → Result (Unit {0}) × List Redemption
      → Result (Discount F × F) × List Redemption
  redeemed d amount (err e, rs) = (err e, rs)
  redeemed d amount (ok u, rs) = (ok (d, calculate_discount d amount), rs)

  abbrev pub redeem :
      Bool
      → RedeemRequest F
      → Result (Discount F)
      → List Redemption
      → Result (Discount F × F) × List Redemption
  redeem refuses req (err e) rs = (err e, rs)
  redeem refuses req (ok d) rs =
      redeemed d req.amount (record_redemption refuses (redemption d req) rs)

  pub validate_and_redeem :
      ℕ
      → Bool
      → RedeemRequest F
      → List (Discount F)
      → List Redemption
      → Result (Discount F × F) × List Redemption
  validate_and_redeem now refuses req ds rs = redeem refuses req (may_redeem now req ds rs) rs
