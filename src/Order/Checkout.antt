-- ===== src/Order/Checkout.antt =====
-- The order service's entry points (internal/service/order/service.go and order_mngt.go): guest and
-- user orders, the choice of the shipping address, and the admin's change of status.
pub mod Addresses
pub mod Laws
pub mod Retired
pub mod Shipped
pub mod Status
use zentora_backend.Prelude.{
  ℕ, ◌≡◌, Bool, true, false, ◌&&◌, ◌||◌, not, Option, none, some, List, [], ◌∷◌, ◌++◌, map,
  if◌then◌else◌,
}
use zentora_backend.Prelude.Int.{ℤ, pos, ◌==ℤ◌, leb_ℤ, ltb_ℤ}
use zentora_backend.Prelude.Floats.{Floats}
use zentora_backend.Text.{Text, lit, is_empty, text_eq}
use zentora_backend.Order.{
  Order, OrderStatus, pending, completed, cancelled, shipped, delivered, CreateItem, ShippingInfo,
  Error, Result, ok, err, invalid_input, cart_not_found, address_not_found, not_found, failure,
}
use zentora_backend.Order.Create.{Store, Env, create_order_from_items}

pub record CartItem : Type 0 where
  pub product_id : ℤ
  pub variant_id : ℤ
  pub quantity : ℤ

pub record Cart : Type 0 where
  pub id : ℤ
  pub user_id : ℤ
  pub items : List CartItem

pub record Address : Type 0 where
  pub id : ℤ
  pub user_id : ℤ
  pub full_name : Text
  pub phone_number : Text
  pub country : Text
  pub county : Option Text
  pub city : Text
  pub area : Option Text
  pub postal_code : Option Text
  pub address_line_1 : Text
  pub address_line_2 : Option Text
  pub is_default : Bool

abbrev pub map_address_to_shipping : Address → ShippingInfo
map_address_to_shipping a = record {
  full_name = a.full_name;
  phone = a.phone_number;
  country = a.country;
  county = a.county;
  city = a.city;
  area = a.area;
  postal_code = a.postal_code;
  address_line_1 = a.address_line_1;
  address_line_2 = a.address_line_2;
}

-- The loop that breaks at the first default address.
unfoldable pub find_default : List Address → Option Address
find_default [] = none
find_default (a ∷ as_) = if a.is_default then some a else find_default as_

-- The interfaces CartRepo and AddressRepo; C is the state of the cart tables.
pub record Repos (C : Type 0) : Type 0 where
  pub get_active_cart : C → ℤ → Result (Option Cart)
  pub clear_cart : ℤ → C → Result (Unit {0}) × C
  pub mark_cart_converted : ℤ → C → Result (Unit {0}) × C
  pub get_address : ℤ → Result Address
  pub list_addresses : ℤ → Result (List Address)
  pub has_mailer : Bool

pub record World (F C : Type 0) : Type 0 where
  pub store : Store F
  pub carts : C
  -- The orders of which the admin was to be notified.
  pub notified : List (Order F)

pub record GuestRequest : Type 0 where
  pub items : List CreateItem
  pub shipping : ShippingInfo

pub record UserRequest : Type 0 where
  pub cart_id : Option ℤ
  pub items : List CreateItem
  pub address_id : Option ℤ

-- `x != nil && *x > 0`
abbrev pub given : Option ℤ → Option ℤ
given none = none
given (some x) = if ltb_ℤ (pos 0) x then some x else none

abbrev pub is_nil {ℓ} : {A : Type ℓ} → List A → Bool
is_nil [] = true
is_nil (x ∷ xs) = false

module _ {F C : Type 0} (fl : Floats F) (env : Env F) (repos : Repos C) where
  abbrev pub owned : ℤ → Result Address → Result ShippingInfo
  owned user (err e) = err address_not_found
  owned user (ok a) =
      if a.user_id ==ℤ user then ok (map_address_to_shipping a) else err address_not_found

  abbrev pub chosen : Result (List Address) → Result ShippingInfo
  chosen (err e) = err e
  chosen (ok []) = err address_not_found
  chosen (ok (a ∷ others)) = elim (find_default (a ∷ others)) [
    | some d ↦ ok (map_address_to_shipping d)
    | none ↦ ok (map_address_to_shipping a)
  ]

  unfoldable pub resolve_shipping : ℤ → Option ℤ → Result ShippingInfo
  resolve_shipping user address_id = elim (given address_id) [
    | some i ↦ owned user (repos.get_address i)
    | none ↦ chosen (repos.list_addresses user)
  ]

  -- `createOrderFromItems` within the larger state.
  abbrev pub place_order :
      Option ℤ
      → Option ℤ
      → List CreateItem
      → ShippingInfo
      → World F C
      → Result (Order F) × World F C
  place_order user cart its ship w =
      let (r, s) = create_order_from_items fl env user cart its ship w.store in
      (r, record w { store = s })

  -- The admin's mail, best effort: its failure is only logged.
  abbrev pub notify_admin : Order F → World F C → World F C
  notify_admin o w = if repos.has_mailer then record w { notified = o ∷ w.notified } else w

  abbrev pub and_notify : Result (Order F) × World F C → Result (Order F) × World F C
  and_notify (ok o, w) = (ok o, notify_admin o w)
  and_notify (err e, w) = (err e, w)

  abbrev pub lacks_shipping : ShippingInfo → Bool
  lacks_shipping s =
      is_empty s.full_name
      || is_empty s.phone
      || is_empty s.country
      || is_empty s.city
      || is_empty s.address_line_1

  -- `none` is a nil request.
  unfoldable pub create_guest_order : Option GuestRequest → World F C → Result (Order F) × World F C
  create_guest_order none w = (err invalid_input, w)
  create_guest_order (some req) w =
      if is_nil req.items || lacks_shipping req.shipping
      then (err invalid_input, w)
      else and_notify (place_order none none req.items req.shipping w)

  abbrev pub to_create_item : CartItem → CreateItem
  to_create_item it = record {
    product_id = it.product_id;
    variant_id = it.variant_id;
    quantity = it.quantity;
  }

  -- After the commit: ClearCart and MarkCartConverted, whose errors are dropped.
  abbrev pub retire_cart : ℤ → Result (Order F) × World F C → Result (Order F) × World F C
  retire_cart cart (err e, w) = (err e, w)
  retire_cart cart (ok o, w) = (
    ok o,
    record w { carts = (repos.mark_cart_converted cart (repos.clear_cart cart w.carts).1).1 },
  )

  abbrev pub from_cart :
      ℤ → ℤ → ShippingInfo → Result (Option Cart) → World F C → Result (Order F) × World F C
  from_cart user cart ship (err e) w = (err e, w)
  from_cart user cart ship (ok none) w = (err cart_not_found, w)
  from_cart user cart ship (ok (some c)) w =
      if c.id ==ℤ cart
      then and_notify (
          retire_cart cart
            (place_order (some user) (some cart) (map to_create_item c.items) ship w))
      else (err cart_not_found, w)

  abbrev pub with_shipping :
      ℤ → UserRequest → Result ShippingInfo → World F C → Result (Order F) × World F C
  with_shipping user req (err e) w = (err e, w)
  with_shipping user req (ok ship) w = elim (given req.cart_id) [
    | some cart ↦ from_cart user cart ship (repos.get_active_cart w.carts user) w
    | none ↦
        if is_nil req.items
        then (err invalid_input, w)
        else and_notify (place_order (some user) none req.items ship w)
  ]

  unfoldable pub create_user_order :
      ℤ → Option UserRequest → World F C → Result (Order F) × World F C
  create_user_order user none w = (err invalid_input, w)
  create_user_order user (some req) w =
      if leb_ℤ user (pos 0)
      then (err invalid_input, w)
      else with_shipping user req (resolve_shipping user req.address_id) w

-- The names of the statuses, and the `switch` of `UpdateOrderStatus` on them.
abbrev pub status_text : OrderStatus → Text
status_text pending = lit "pending"
status_text completed = lit "completed"
status_text cancelled = lit "cancelled"
status_text shipped = lit "shipped"
status_text delivered = lit "delivered"

unfoldable pub parse_status : Text → Option OrderStatus
parse_status s =
    if text_eq s (lit "pending")
    then some pending
    else if text_eq s (lit "completed")
    then some completed
    else if text_eq s (lit "cancelled")
    then some cancelled
    else if text_eq s (lit "shipped")
    then some shipped
    else if text_eq s (lit "delivered")
    then some delivered
    else none

module _ {F : Type 0} where
  -- `UPDATE orders SET status = $1, updated_at = NOW() WHERE id = $2 RETURNING …`
  abbrev pub set_status : ℕ → ℤ → OrderStatus → List (Order F) → List (Order F)
  set_status now id st [] = []
  set_status now id st (o ∷ os) =
      (if o.id ==ℤ id then record o { status = st; updated_at = now } else o)
      ∷ set_status now id st os

  abbrev pub find_order : ℤ → List (Order F) → Option (Order F)
  find_order id [] = none
  find_order id (o ∷ os) = if o.id ==ℤ id then some o else find_order id os

  -- The items are read after the statement has committed; that may fail too.
  abbrev returned : ℤ → Bool → List (Order F) → List (Order F) → Result (Order F) × List (Order F)
  returned id reads os os' = elim (find_order id os') [
    | none ↦ (err not_found, os)
    | some o ↦ if reads then (ok o, os') else (err failure, os')
  ]

  -- The service's `UpdateOrderStatus` over the repository's.
  unfoldable pub update_order_status :
      Bool → Bool → ℕ → ℤ → Text → List (Order F) → Result (Order F) × List (Order F)
  update_order_status runs reads now id status os = elim (parse_status status) [
    | none ↦ (err invalid_input, os)
    | some st ↦
        if leb_ℤ id (pos 0)
        then (err invalid_input, os)
        else if runs
        then returned id reads os (set_status now id st os)
        else (err failure, os)
  ]
