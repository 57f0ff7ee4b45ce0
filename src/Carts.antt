-- ===== src/Carts.antt =====
-- The carts (internal/repository/postgres/cart.go) and the cart service
-- (internal/service/cart/service.go), which caches a user's active cart in Redis for 15 seconds. The
-- product cards that GetCartItems adds to the items are left out.
pub mod Lines
mod Tests
use zentora_backend.Prelude.{
  ℕ, ◌+◌, Bool, true, false, ◌&&◌, ◌||◌, not, Option, none, some, List, [], ◌∷◌, ◌++◌, map,
  if◌then◌else◌, any,
}
use zentora_backend.Prelude.Int.{ℤ, pos, ◌==ℤ◌, leb_ℤ}
use zentora_backend.Text.{Text, lit, text_eq, is_empty}
use zentora_backend.Text.Decimal.{itoa}
use zentora_backend.Redis.{Redis, Entry, Value, number, payload, live}

pub record CartItem : Type 0 where
  pub id : ℤ
  pub cart_id : ℤ
  pub product_id : ℤ
  pub variant_id : ℤ
  pub quantity : ℤ
  pub price_at_added : Text
  pub added_at : ℕ

pub record Cart : Type 0 where
  pub id : ℤ
  pub user_id : ℤ
  pub status : Text
  pub created_at : ℕ
  pub updated_at : ℕ
  pub items : List CartItem

pub record UpsertCartItemInput : Type 0 where
  pub product_id : ℤ
  pub variant_id : ℤ
  pub quantity : ℤ
  pub price_at_added : Text

pub data Error : Type 0 where
  invalid_input variant_required cart_not_found cart_item_not_found database_failed no_rows : Error

pub data Result {ℓ} (A : Type ℓ) : Type ℓ where
  ok : A → Result A
  err : Error → Result A

-- The tables carts (whose rows have no items) and cart_items, by ascending id.
pub record Tables : Type 0 where
  pub carts : List Cart
  pub cart_items : List CartItem

abbrev pub is_active_of : ℤ → Cart → Bool
is_active_of user c = c.user_id ==ℤ user && text_eq c.status (lit "active")

-- The active cart with the greatest id.
unfoldable pub find_active : ℤ → List Cart → Option Cart
find_active user [] = none
find_active user (c ∷ cs) =
    let rest = find_active user cs in
    elim rest [ some d ↦ some d | none ↦ if is_active_of user c then some c else none ]

abbrev pub items_of : ℤ → List CartItem → List CartItem
items_of cart [] = []
items_of cart (i ∷ is) =
    let rest = items_of cart is in if i.cart_id ==ℤ cart then i ∷ rest else rest

abbrev pub with_items : Tables → Option Cart → Option Cart
with_items t none = none
with_items t (some c) = some (record c { items = items_of c.id t.cart_items })

unfoldable pub get_active_cart_with_items_for_user : ℤ → Tables → Option Cart
get_active_cart_with_items_for_user user t = with_items t (find_active user t.carts)

abbrev pub found_or_new : ℤ → ℕ → ℤ → Tables → Option Cart → Cart × Tables
found_or_new id now user t (some c) = (c, t)
found_or_new id now user t none =
    let c : Cart = record {
      id = id;
      user_id = user;
      status = lit "active";
      created_at = now;
      updated_at = now;
      items = [];
    } in
    (c, record t { carts = t.carts ++ c ∷ [] })

pub get_or_create_active_cart_for_user : ℤ → ℕ → ℤ → Tables → Result Cart × Tables
get_or_create_active_cart_for_user id now user t =
    if leb_ℤ user (pos 0)
    then (err invalid_input, t)
    else let r = found_or_new id now user t (find_active user t.carts) in (ok r.0, r.1)

abbrev pub touched : ℕ → ℤ → List Cart → List Cart
touched now cart cs = map (λ c. if c.id ==ℤ cart then record c { updated_at = now } else c) cs

abbrev pub is_line : ℤ → ℤ → CartItem → Bool
is_line cart variant i = i.cart_id ==ℤ cart && i.variant_id ==ℤ variant

abbrev pub set_line : ℕ → UpsertCartItemInput → CartItem → CartItem
set_line now input i = record i {
  product_id = input.product_id;
  quantity = input.quantity;
  price_at_added = input.price_at_added;
  added_at = now;
}

-- INSERT with ON CONFLICT (cart_id, variant_id) DO UPDATE.
pub upsert_row : ℤ → ℕ → ℤ → UpsertCartItemInput → List CartItem → List CartItem
upsert_row id now cart input [] =
    record {
      id = id;
      cart_id = cart;
      product_id = input.product_id;
      variant_id = input.variant_id;
      quantity = input.quantity;
      price_at_added = input.price_at_added;
      added_at = now;
    }
    ∷ []
upsert_row id now cart input (i ∷ is) =
    let rest = upsert_row id now cart input is in
    if is_line cart input.variant_id i then set_line now input i ∷ is else i ∷ rest

abbrev pub is_refused_input : ℤ → UpsertCartItemInput → Bool
is_refused_input cart input =
    leb_ℤ cart (pos 0)
    || leb_ℤ input.product_id (pos 0)
    || leb_ℤ input.variant_id (pos 0)
    || leb_ℤ input.quantity (pos 0)

pub upsert_cart_item : ℤ → ℕ → ℤ → UpsertCartItemInput → Tables → Result (Unit {0}) × Tables
upsert_cart_item id now cart input t =
    if is_refused_input cart input then (err invalid_input, t) else (
      ok tt,
      record t {
        carts = touched now cart t.carts;
        cart_items = upsert_row id now cart input t.cart_items;
      },
    )

abbrev pub is_item : ℤ → ℤ → CartItem → Bool
is_item item cart i = i.id ==ℤ item && i.cart_id ==ℤ cart

abbrev pub delete_rows : (CartItem → Bool) → List CartItem → List CartItem
delete_rows p [] = []
delete_rows p (i ∷ is) = let rest = delete_rows p is in if p i then rest else i ∷ rest

pub remove_cart_item : ℕ → ℤ → ℤ → Tables → Result (Unit {0}) × Tables
remove_cart_item now cart item t =
    if leb_ℤ cart (pos 0) || leb_ℤ item (pos 0)
    then (err invalid_input, t)
    else if any (is_item item cart) t.cart_items
    then (
      ok tt,
      record t {
        carts = touched now cart t.carts;
        cart_items = delete_rows (is_item item cart) t.cart_items;
      },
    )
    else (err no_rows, t)

unfoldable pub clear_cart : ℕ → ℤ → Tables → Result (Unit {0}) × Tables
clear_cart now cart t = if leb_ℤ cart (pos 0) then (err invalid_input, t) else (
  ok tt,
  record t {
    carts = touched now cart t.carts;
    cart_items = delete_rows (λ i. i.cart_id ==ℤ cart) t.cart_items;
  },
)

abbrev pub is_open_cart : ℤ → Cart → Bool
is_open_cart cart c = c.id ==ℤ cart && text_eq c.status (lit "active")

unfoldable pub mark_cart_converted : ℕ → ℤ → Tables → Result (Unit {0}) × Tables
mark_cart_converted now cart t =
    if any (is_open_cart cart) t.carts
    then (
      ok tt,
      record t {
        carts =
            map
              (λ c.
                if is_open_cart cart c
                then record c { status = lit "converted"; updated_at = now }
                else c)
              t.carts;
      },
    )
    else (err no_rows, t)

-- The service: `redis` is none where it runs without.
pub record World (R : Type 0) : Type 0 where
  pub redis : Option R
  pub tables : Tables

pub cache_key : ℤ → Text
cache_key user = lit "zentora:cart:active:user:" ++ itoa user

abbrev pub cart_ttl : ℕ
cart_ttl = 15

-- Which kinds of commands fail.
pub record Failures : Type 0 where
  pub gets : Bool
  pub sets : Bool
  pub dels : Bool
  pub queries : Bool
  pub writes : Bool

module _ {R : Type 0} (redis : Redis R Cart) (fails : Failures) (now : ℕ) where
  abbrev pub deleted : ℤ → Option R → Option R
  deleted user none = none
  deleted user (some r) = some (if fails.dels then r else redis.del (cache_key user) r)

  pub invalidate : ℤ → World R → World R
  invalidate user w = record w { redis = deleted user w.redis }

  abbrev pub decoded_value : Value Cart → Option Cart
  decoded_value (number n) = none
  decoded_value (payload c) = some c

  abbrev pub decoded_entry : Option (Entry Cart) → Option Cart
  decoded_entry none = none
  decoded_entry (some e) = decoded_value e.value

  abbrev pub cached_cart : ℤ → Option R → Option Cart
  cached_cart user none = none
  cached_cart user (some r) =
      if fails.gets then none else decoded_entry (live now (redis.entry (cache_key user) r))

  abbrev pub cached_as : ℤ → Cart → Option R → Option R
  cached_as user c none = none
  cached_as user c (some r) =
      some (if fails.sets then r else redis.set (cache_key user) c (now + cart_ttl) r)

  abbrev pub loaded : ℤ → World R → Option Cart → Result (Option Cart) × World R
  loaded user w none = (ok none, w)
  loaded user w (some c) = (ok (some c), record w { redis = cached_as user c w.redis })

  abbrev pub cache_first : ℤ → World R → Option Cart → Result (Option Cart) × World R
  cache_first user w (some c) = (ok (some c), w)
  cache_first user w none =
      if fails.queries
      then (err database_failed, w)
      else loaded user w (get_active_cart_with_items_for_user user w.tables)

  pub get_active_cart : ℤ → World R → Result (Option Cart) × World R
  get_active_cart user w =
      if leb_ℤ user (pos 0)
      then (err invalid_input, w)
      else cache_first user w (cached_cart user w.redis)

  abbrev pub then_reload : ℤ → World R → Result (Unit {0}) × Tables → Result (Option Cart) × World R
  then_reload user w (err e, t) = (err e, w)
  then_reload user w (ok u, t) = get_active_cart user (invalidate user (record w { tables = t }))

  abbrev pub with_cart :
      ℤ → ℤ → UpsertCartItemInput → World R → Result Cart × Tables → Result (Option Cart) × World R
  with_cart item_id user input w (err e, t) = (err e, w)
  with_cart item_id user input w (ok c, t) =
      if fails.writes
      then (err database_failed, record w { tables = t })
      else then_reload user (record w { tables = t }) (upsert_cart_item item_id now c.id input t)

  -- `cart_id` and `item_id` are the sequences' next ids.
  pub add_or_update_item :
      ℤ → ℤ → ℤ → UpsertCartItemInput → World R → Result (Option Cart) × World R
  add_or_update_item cart_id item_id user input w =
      if leb_ℤ user (pos 0)
      then (err invalid_input, w)
      else if leb_ℤ input.variant_id (pos 0)
      then (err variant_required, w)
      else if leb_ℤ input.product_id (pos 0) || leb_ℤ input.quantity (pos 0)
      then (err invalid_input, w)
      else if is_empty input.price_at_added
      then (err invalid_input, w)
      else if fails.queries
      then (err database_failed, w)
      else with_cart item_id user input w
          (get_or_create_active_cart_for_user cart_id now user w.tables)

  abbrev pub item_removed :
      ℤ → World R → Result (Unit {0}) × Tables → Result (Option Cart) × World R
  item_removed user w (err e, t) = (err cart_item_not_found, w)
  item_removed user w (ok u, t) = get_active_cart user (invalidate user (record w { tables = t }))

  abbrev pub removed_from : ℤ → ℤ → World R → Option Cart → Result (Option Cart) × World R
  removed_from user item w none = (err cart_not_found, w)
  removed_from user item w (some c) =
      if fails.writes
      then (err cart_item_not_found, w)
      else item_removed user w (remove_cart_item now c.id item w.tables)

  pub remove_item : ℤ → ℤ → World R → Result (Option Cart) × World R
  remove_item user item w =
      if leb_ℤ user (pos 0) || leb_ℤ item (pos 0)
      then (err invalid_input, w)
      else if fails.queries
      then (err database_failed, w)
      else removed_from user item w (get_active_cart_with_items_for_user user w.tables)

  abbrev pub items_cleared : ℤ → World R → Result (Unit {0}) × Tables → Result (Unit {0}) × World R
  items_cleared user w (err e, t) = (err e, w)
  items_cleared user w (ok u, t) = (ok tt, invalidate user (record w { tables = t }))

  abbrev pub cleared : ℤ → World R → Option Cart → Result (Unit {0}) × World R
  cleared user w none = (ok tt, w)
  cleared user w (some c) =
      if fails.writes
      then (err database_failed, w)
      else items_cleared user w (clear_cart now c.id w.tables)

  pub clear_active_cart : ℤ → World R → Result (Unit {0}) × World R
  clear_active_cart user w =
      if leb_ℤ user (pos 0)
      then (err invalid_input, w)
      else if fails.queries
      then (err database_failed, w)
      else cleared user w (get_active_cart_with_items_for_user user w.tables)
