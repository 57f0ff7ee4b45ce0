-- ===== src/Order/Tests.antt =====
-- A small shop, and the theorems at it.
use zentora_backend.Prelude.{
  ℕ, ◌+◌, ◌*◌, ◌/◌, ◌≡◌, refl, true, false, none, some, List, [], ◌∷◌, arith, ltb, Option,
  if◌then◌else◌, All, Bool-cases, inl, inr, sym,
}
use zentora_backend.Prelude.Int.{ℤ, pos, negsuc, ◌+ℤ◌, ◌-ℤ◌, ◌==ℤ◌, ==ℤ_iff}
use zentora_backend.Prelude.Floats.{Floats}
use zentora_backend.Text.{lit}
use zentora_backend.Delivery.{new_snapshot}
use zentora_backend.Inventory.{Item, get_stock_summary, reserve_tx}
use zentora_backend.Inventory.Service.Safety.{IsSound}
use zentora_backend.Order.{
  Order, OrderItem, CreateItem, ShippingInfo, Product, Variant, OrderStatus, pending, shipped, ok,
  err, out_of_stock, failure,
}
use zentora_backend.Order.Create.{
  Store, Env, first_location, place, place_item, hold_stock, draft, create_tx, insert_items,
  create_order_from_items,
}
use zentora_backend.Order.Create.Lines.{AreLines, totals, create_order_from_items-AreLines}
use zentora_backend.Order.Create.Stock.{asked, moved, create_order_from_items-moved}
use zentora_backend.Order.Create.Atomic.{
  create_order_from_items_atomic, create_order_from_items-first_location,
}
use zentora_backend.Order.Checkout.{
  Address, Cart, Repos, World, GuestRequest, UserRequest, resolve_shipping, create_guest_order,
  create_user_order, find_order, update_order_status, find_default, parse_status,
}
use zentora_backend.Order.Checkout.Addresses.{IsOwn}
use zentora_backend.Carts
use zentora_backend.Order.Checkout.Retired.{
  CartFailures, cart_repos, IsRetired, create_user_order-IsRetired,
}
use zentora_backend.Order.Checkout.Shipped.{create_user_order-shipping}
use zentora_backend.Order.Checkout.Laws.{IsCheckedOut, create_user_order-IsCheckedOut}
use zentora_backend.Order.Checkout.Status.{
  update_order_status-find_order, update_order_status_unread, restamped,
}

abbrev cents : Floats ℕ
cents = record {
  of_int = λ n. elim n [ pos k ↦ k | negsuc k ↦ 0 ];
  add = λ a b. a + b;
  mul = λ a b. a * b;
  div = λ a b. a / b;
  lt = ltb;
}

abbrev shirt : Product
shirt = record { id = pos 3; name = lit "Shirt"; slug = lit "shirt" }

abbrev blue : Variant ℕ
blue = record { id = pos 7; product_id = pos 3; price = 250; is_active = true }

abbrev shop : Env ℕ
shop = record {
  get_product = λ i. if i ==ℤ pos 3 then some shirt else none;
  get_variant = λ i. if i ==ℤ pos 7 then some blue else none;
  policy = none;
  database = record { refuses = λ s t. false; begin_fails = false; commit_fails = λ t. false };
  finds_location = true;
  inserts_order = true;
  inserts_item = λ k. true;
  order_id = pos 100;
  item_id = λ k. pos k;
  order_number = lit "ORD-1";
  now = 5;
  db_now = 6;
}

abbrev row : Item
row = record {
  id = pos 1;
  variant_id = pos 7;
  location_id = pos 1;
  available_qty = pos 5;
  reserved_qty = pos 0;
  incoming_qty = pos 0;
  updated_at = 0;
}

abbrev shelf : Store ℕ
shelf = record {
  inventory = row ∷ record row { id = pos 2; location_id = pos 2; available_qty = pos 50 } ∷ [];
  orders = [];
}

abbrev home : ShippingInfo
home = record {
  full_name = lit "A. Wanjiru";
  phone = lit "0700";
  country = lit "KE";
  county = none;
  city = lit "Nairobi";
  area = none;
  postal_code = none;
  address_line_1 = lit "Moi Avenue";
  address_line_2 = none;
}

abbrev two_blue : CreateItem
two_blue = record { product_id = pos 3; variant_id = pos 7; quantity = pos 2 }

abbrev twenty_blue : CreateItem
twenty_blue = record two_blue { quantity = pos 20 }

abbrev bought : OrderItem ℕ
bought = record {
  id = pos 0;
  order_id = pos 100;
  product_id = pos 3;
  variant_id = some (pos 7);
  product_name = lit "Shirt";
  product_slug = some (lit "shirt");
  unit_price = 250;
  quantity = pos 2;
  discount_amount = 0;
  tax_rate = 0;
  total_price = 500;
  currency = lit "KES";
}

abbrev first_order : Order ℕ
first_order = record {
  delivery_information = new_snapshot none;
  id = pos 100;
  user_id = none;
  cart_id = none;
  order_number = lit "ORD-1";
  status = pending;
  subtotal = 500;
  discount_amount = 0;
  tax_amount = 0;
  shipping_fee = 0;
  total_amount = 500;
  currency = lit "KES";
  shipping = home;
  created_at = 6;
  updated_at = 6;
  items = bought ∷ [];
}

abbrev later_shelf : Store ℕ
later_shelf = record {
  inventory =
      record row { available_qty = pos 3; reserved_qty = pos 2; updated_at = 5 }
      ∷ record row { id = pos 2; location_id = pos 2; available_qty = pos 50 }
      ∷ [];
  orders = first_order ∷ [];
}

sells :
    create_order_from_items cents shop none none (two_blue ∷ []) home shelf
    ≡ (ok first_order, later_shelf)
unfolding create_order_from_items place place_item hold_stock first_location reserve_tx draft
    create_tx insert_items ◌-ℤ◌ ◌+ℤ◌
sells = refl

create_order_from_items-AreLines_example :
    (first_order.status ≡ pending)
    × AreLines cents shop (two_blue ∷ []) first_order.items
    × (first_order.subtotal ≡ totals cents shop 0 first_order.items)
    × (first_order.total_amount ≡ totals cents shop 0 first_order.items)
create_order_from_items-AreLines_example =
    create_order_from_items-AreLines cents shop none none (two_blue ∷ []) home shelf sells

shelf-IsSound : IsSound shelf.inventory
shelf-IsSound = record { stocked = omega arith; unique = ground arith }

create_order_from_items-moved_example :
    (get_stock_summary (pos 7) later_shelf.inventory
      ≡ moved (asked (pos 7) (two_blue ∷ [])) (get_stock_summary (pos 7) shelf.inventory))
    × IsSound later_shelf.inventory
create_order_from_items-moved_example =
    create_order_from_items-moved cents shop none none (two_blue ∷ []) home (pos 7) shelf
      shelf-IsSound sells

refused :
    create_order_from_items cents shop none none (two_blue ∷ twenty_blue ∷ []) home shelf
    ≡ (err out_of_stock, shelf)
unfolding create_order_from_items place place_item hold_stock first_location reserve_tx draft
    create_tx insert_items ◌-ℤ◌ ◌+ℤ◌
refused = refl

create_order_from_items_atomic_example : shelf ≡ shelf
create_order_from_items_atomic_example =
    create_order_from_items_atomic cents shop none none (two_blue ∷ twenty_blue ∷ []) home shelf
      refused

first_shelf : first_location (pos 7) shelf.inventory ≡ some (pos 1)
unfolding first_location
first_shelf = refl

create_order_from_items-first_location_example :
    create_order_from_items cents shop none none (twenty_blue ∷ []) home shelf
    ≡ (err out_of_stock, shelf)
create_order_from_items-first_location_example =
    create_order_from_items-first_location cents shop none none twenty_blue [] home shelf shirt blue
      (pos 1) row refl (refl, refl, refl) refl refl (refl, refl) (ground arith) first_shelf refl
      refl

abbrev her_address : Address
her_address = record {
  id = pos 4;
  user_id = pos 9;
  full_name = lit "A. Wanjiru";
  phone_number = lit "0700";
  country = lit "KE";
  county = none;
  city = lit "Nairobi";
  area = none;
  postal_code = none;
  address_line_1 = lit "Moi Avenue";
  address_line_2 = none;
  is_default = true;
}

abbrev her_cart : Cart
her_cart = record {
  id = pos 1;
  user_id = pos 9;
  items = record { product_id = pos 3; variant_id = pos 7; quantity = pos 2 } ∷ [];
}

abbrev repos : Repos (Option Cart)
repos = record {
  get_active_cart = λ carts user. ok carts;
  clear_cart = λ cart carts. (ok tt, none);
  mark_cart_converted = λ cart carts. (err failure, none);
  get_address = λ i. ok her_address;
  list_addresses = λ user. if user ==ℤ pos 9 then ok (her_address ∷ []) else ok [];
  has_mailer = true;
}

abbrev world : World ℕ (Option Cart)
world = record { store = shelf; carts = some her_cart; notified = [] }

hers :
    (user : ℤ) (l : List Address) → repos.list_addresses user ≡ ok l → All (λ a. a.user_id ≡ user) l
hers user l e = elim (Bool-cases (user ==ℤ pos 9)) [
  | inl h ↦
      let same : l ≡ her_address ∷ [] = ground arith in
      rw same (sym (ground (arith, ==ℤ_iff user (pos 9))), tt)
  | inr h ↦ let same : l ≡ [] = ground arith in rw same tt
]

abbrev too_much : GuestRequest
too_much = record { items = twenty_blue ∷ []; shipping = home }

guest_refused :
    create_guest_order cents shop repos (some too_much) world ≡ (err out_of_stock, world)
unfolding create_guest_order create_order_from_items place place_item hold_stock first_location
    reserve_tx draft ◌-ℤ◌ ◌+ℤ◌
guest_refused = refl

abbrev from_her_cart : UserRequest
from_her_cart = record { cart_id = some (pos 1); items = []; address_id = none }

abbrev from_no_cart : UserRequest
from_no_cart = record { cart_id = none; items = two_blue ∷ twenty_blue ∷ []; address_id = none }

user_refused :
    create_user_order cents shop repos (pos 9) (some from_no_cart) world ≡ (err out_of_stock, world)
unfolding create_user_order resolve_shipping find_default create_order_from_items place place_item
    hold_stock first_location reserve_tx draft ◌-ℤ◌ ◌+ℤ◌
user_refused = refl

abbrev her_order : Order ℕ
her_order = record first_order { user_id = some (pos 9); cart_id = some (pos 1) }

abbrev later_world : World ℕ (Option Cart)
later_world = record {
  store = record later_shelf { orders = her_order ∷ [] };
  carts = none;
  notified = her_order ∷ [];
}

checks_out :
    create_user_order cents shop repos (pos 9) (some from_her_cart) world
    ≡ (ok her_order, later_world)
unfolding create_user_order resolve_shipping find_default create_order_from_items place place_item
    hold_stock first_location reserve_tx draft create_tx insert_items ◌-ℤ◌ ◌+ℤ◌
checks_out = refl

create_user_order-IsCheckedOut_example :
    IsCheckedOut cents shop repos (pos 9) (pos 1) her_order world later_world
create_user_order-IsCheckedOut_example =
    create_user_order-IsCheckedOut cents shop repos (pos 9) (pos 1) from_her_cart world refl
      checks_out

create_user_order-shipping_example :
    IsOwn cents shop repos (pos 9) from_her_cart.address_id her_order.shipping
create_user_order-shipping_example =
    create_user_order-shipping cents shop repos (pos 9) from_her_cart world (hers (pos 9))
      checks_out

-- Her cart as the cart repository keeps it, beside another user's.
abbrev cart_row : ℤ → ℤ → Carts.Cart
cart_row id user = record {
  id = id;
  user_id = user;
  status = lit "active";
  created_at = 1;
  updated_at = 1;
  items = [];
}

abbrev cart_item : ℤ → ℤ → Carts.CartItem
cart_item id cart = record {
  id = id;
  cart_id = cart;
  product_id = pos 3;
  variant_id = pos 7;
  quantity = pos 2;
  price_at_added = lit "250";
  added_at = 1;
}

abbrev carts : Carts.Tables
carts = record {
  carts = cart_row (pos 1) (pos 9) ∷ cart_row (pos 2) (pos 8) ∷ [];
  cart_items = cart_item (pos 1) (pos 1) ∷ cart_item (pos 2) (pos 2) ∷ [];
}

abbrev later_carts : Carts.Tables
later_carts = record {
  carts =
      record (cart_row (pos 1) (pos 9)) { status = lit "converted"; updated_at = 7 }
      ∷ cart_row (pos 2) (pos 8)
      ∷ [];
  cart_items = cart_item (pos 2) (pos 2) ∷ [];
}

abbrev works : CartFailures
works = record { reads = false; clears = false; marks = false }

retires :
    create_user_order cents shop
      (cart_repos 7 works repos.get_address repos.list_addresses true)
      (pos 9)
      (some from_her_cart)
      (record { store = shelf; carts = carts; notified = [] })
    ≡ (
      ok her_order,
      record {
        store = record later_shelf { orders = her_order ∷ [] };
        carts = later_carts;
        notified = her_order ∷ [];
      },
    )
unfolding create_user_order resolve_shipping find_default create_order_from_items place place_item
    hold_stock first_location reserve_tx draft create_tx insert_items ◌-ℤ◌ ◌+ℤ◌
    Carts.get_active_cart_with_items_for_user Carts.find_active Carts.clear_cart
    Carts.mark_cart_converted
retires = refl

create_user_order-IsRetired_example : IsRetired (pos 1) carts later_carts
create_user_order-IsRetired_example =
    create_user_order-IsRetired cents shop 7 works repos.get_address repos.list_addresses true
      (pos 9) (pos 1) from_her_cart (record { store = shelf; carts = carts; notified = [] })
      (refl, refl) refl retires

abbrev ledger : List (Order ℕ)
ledger = first_order ∷ record her_order { id = pos 101 } ∷ []

abbrev shipped_ledger : List (Order ℕ)
shipped_ledger = restamped 8 shipped first_order ∷ record her_order { id = pos 101 } ∷ []

ships :
    update_order_status true true 8 (pos 100) (lit "shipped") ledger
    ≡ (ok (restamped 8 shipped first_order), shipped_ledger)
unfolding update_order_status parse_status
ships = refl

update_order_status-find_order_example :
    (before : Order ℕ) × (st : OrderStatus) × (find_order (pos 100) ledger ≡ some before)
    × (parse_status (lit "shipped") ≡ some st)
    × (restamped 8 shipped first_order ≡ restamped 8 st before)
    × (find_order (pos 100) shipped_ledger ≡ some (restamped 8 shipped first_order))
update_order_status-find_order_example =
    update_order_status-find_order true true 8 (pos 100) (lit "shipped") ledger ships

update_order_status_unread_example :
    (update_order_status true false 8 (pos 100) (lit "shipped") ledger
      ≡ (err failure, shipped_ledger))
    × (find_order (pos 100) shipped_ledger ≡ some (restamped 8 shipped first_order))
update_order_status_unread_example =
    update_order_status_unread 8 (pos 100) (lit "shipped") ledger ships
