-- ===== src/Merchant.antt =====
-- The Google Merchant feed (internal/merchant): amounts, identifiers and the wire-format item of
-- domain/merchant_domain.go.
pub mod Normalise
pub mod Generator
pub mod Amounts
mod Tests
use zentora_backend.Prelude.{
  ℕ, suc, ◌+◌, ◌/◌, ◌%◌, ◌==◌, ◌≡◌, Bool, true, false, ◌&&◌, ◌||◌, not, Option, none, some, List,
  [], ◌∷◌, ◌++◌, if◌then◌else◌, ltb, any,
}
use zentora_backend.Prelude.Int.{ℤ, pos, negsuc, ◌==ℤ◌, ◌-ℤ◌, ltb_ℤ, wrap64}
use zentora_backend.Text.{Text, lit, text_eq}
use zentora_backend.Text.Decimal.{digits, itoa}

pub record Money : Type 0 where
  pub amount_cents : ℤ
  pub currency : Text

-- `%02d`
pub two_digits : ℤ → Text
two_digits (pos n) = if ltb n 10 then b'0' ∷ digits n else digits n
two_digits (negsuc n) = itoa (negsuc n)

-- Go's `/` and `%`, which round to zero.
abbrev pub quotient : ℤ → ℕ → ℤ
quotient (pos n) d = pos (n / d)
quotient (negsuc n) d = pos 0 -ℤ pos (suc n / d)

abbrev pub remainder : ℤ → ℕ → ℤ
remainder (pos n) d = pos (n % d)
remainder (negsuc n) d = pos 0 -ℤ pos (suc n % d)

pub format : Money → Text
format m =
    if m.amount_cents ==ℤ pos 0
    then lit "0.00 " ++ m.currency
    else itoa (quotient m.amount_cents 100)
      ++ (b'.' ∷ two_digits (remainder m.amount_cents 100) ++ (b' ' ∷ m.currency))

abbrev pub is_zero : Money → Bool
is_zero m = m.amount_cents ==ℤ pos 0

pub data Availability : Type 0 where
  in_stock out_of_stock preorder backorder : Availability

-- `int64` subtraction wraps around.
pub resolve_availability : ℤ → ℤ → ℤ → Availability
resolve_availability available reserved incoming =
    let net = wrap64 (available -ℤ reserved) in
    if ltb_ℤ (pos 0) net
    then in_stock
    else if ltb_ℤ (pos 0) incoming
    then preorder
    else out_of_stock

-- `Availability.Valid` and `Condition.Valid` of a string.
pub is_availability : Text → Bool
is_availability t =
    any (text_eq t) (lit "in_stock" ∷ lit "out_of_stock" ∷ lit "preorder" ∷ lit "backorder" ∷ [])

pub is_condition : Text → Bool
is_condition t = any (text_eq t) (lit "new" ∷ lit "refurbished" ∷ lit "used" ∷ [])

-- `FeedItemID` of a product and a variant.
pub feed_item_id : ℤ → ℤ → Text
feed_item_id product variant = itoa product ++ (b'-' ∷ itoa variant)

-- The two prices, and `HasSalePrice`.
pub has_sale_price : Money → Money → Bool
has_sale_price price sale = not (is_zero sale) && ltb_ℤ sale.amount_cents price.amount_cents

-- MerchantFeedItem; its taxes, which nothing here reads, are left out.
pub record FeedItem : Type 0 where
  pub id : Text
  pub title : Text
  pub description : Text
  pub link : Text
  pub image_link : Text
  pub availability : Text
  pub price : Text
  pub condition : Text
  pub brand : Text
  pub gtin : Text
  pub mpn : Text
  pub item_group_id : Text
  pub sale_price : Text
  pub sale_price_effective_date : Text
  pub additional_image_links : List Text
  pub google_product_category : Text
  pub product_type : Text
  pub color : Text
  pub size : Text
  pub gender : Text
  pub age_group : Text
  pub material : Text
  pub pattern_ : Text
  pub shipping_weight : Text
  pub shipping : List Text
  pub identifier_exists : Text
  pub custom_label_0 : Text
  pub custom_label_1 : Text
  pub custom_label_2 : Text
  pub custom_label_3 : Text
  pub custom_label_4 : Text
  pub mobile_link : Text
  pub energy_efficiency_class : Text
  pub unit_pricing_measure : Text
  pub unit_pricing_base_measure : Text
  pub multipack : ℤ
  pub adult : Text
  pub expiration_date : Text
  pub availability_date : Text
  pub cost_of_goods_sold : Text
  pub ads_redirect : Text
  pub pickup_method : Text
  pub pickup_sla : Text
