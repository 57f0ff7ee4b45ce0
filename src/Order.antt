-- ===== src/Order.antt =====
-- Orders (internal/domain/order, internal/service/order, internal/repository/postgres/order.go):
-- the data and the errors. Prices are of an abstract float type F.
pub mod Create
pub mod Checkout
mod Tests
use zentora_backend.Prelude.{ℕ, Bool, true, false, Option, none, some, List}
use zentora_backend.Prelude.Int.{ℤ}
use zentora_backend.Text.{Text}
use zentora_backend.Delivery.{Snapshot}

-- The statuses that the service accepts.
pub data OrderStatus : Type 0 where
  pending completed cancelled shipped delivered : OrderStatus

pub data Error : Type 0 where
  invalid_input out_of_stock cart_not_found address_not_found variant_not_found product_not_found
        not_found failure :
      Error

pub record CreateItem : Type 0 where
  pub product_id : ℤ
  pub variant_id : ℤ
  pub quantity : ℤ

pub record ShippingInfo : Type 0 where
  pub full_name : Text
  pub phone : Text
  pub country : Text
  pub county : Option Text
  pub city : Text
  pub area : Option Text
  pub postal_code : Option Text
  pub address_line_1 : Text
  pub address_line_2 : Option Text

-- The fields of a product and of a variant that an order reads.
pub record Product : Type 0 where
  pub id : ℤ
  pub name : Text
  pub slug : Text

pub record Variant (F : Type 0) : Type 0 where
  pub id : ℤ
  pub product_id : ℤ
  pub price : F
  pub is_active : Bool

-- The columns that the order service never sets (SKU, variant name, image) are left out.
pub record OrderItem (F : Type 0) : Type 0 where
  pub id : ℤ
  pub order_id : ℤ
  pub product_id : ℤ
  pub variant_id : Option ℤ
  pub product_name : Text
  pub product_slug : Option Text
  pub unit_price : F
  pub quantity : ℤ
  pub discount_amount : F
  pub tax_rate : F
  pub total_price : F
  pub currency : Text

pub record Order (F : Type 0) : Type 0 where
  pub delivery_information : Snapshot
  pub id : ℤ
  pub user_id : Option ℤ
  pub cart_id : Option ℤ
  pub order_number : Text
  pub status : OrderStatus
  pub subtotal : F
  pub discount_amount : F
  pub tax_amount : F
  pub shipping_fee : F
  pub total_amount : F
  pub currency : Text
  pub shipping : ShippingInfo
  pub created_at : ℕ
  pub updated_at : ℕ
  pub items : List (OrderItem F)

pub data Result {ℓ} (A : Type ℓ) : Type ℓ where
  ok : A → Result A
  err : Error → Result A

-- A computation that may change its state before it fails, as statements of a transaction do.
abbrev pub Step {ℓ} : Type 0 → Type ℓ → Type ℓ
Step S A = S → Result A × S

abbrev pub continue {ℓ κ} :
    {S : Type 0} {A : Type ℓ} {B : Type κ} → (A → Step S B) → Result A × S → Result B × S
continue f (ok a, s) = f a s
continue f (err e, s) = (err e, s)

infixl 5 ◌>>=◌ ◌>>◌
abbrev pub ◌>>=◌ {ℓ κ} :
    {S : Type 0} {A : Type ℓ} {B : Type κ} → Step S A → (A → Step S B) → Step S B
◌>>=◌ m f s = continue f (m s)

abbrev pub ◌>>◌ {ℓ} : {S : Type 0} {B : Type ℓ} → Step S (Unit {0}) → Step S B → Step S B
m >> k = m >>= λ _. k

abbrev pub return {ℓ} : {S : Type 0} {A : Type ℓ} → A → Step S A
return a s = (ok a, s)

abbrev pub fail_unless : {S : Type 0} → Bool → Error → Step S (Unit {0})
fail_unless true e s = (ok tt, s)
fail_unless false e s = (err e, s)

abbrev pub or_fail {ℓ} : {S : Type 0} {A : Type ℓ} → Option A → Error → Step S A
or_fail none e s = (err e, s)
or_fail (some a) e s = (ok a, s)
