-- ===== src/Order/Create.antt =====
-- `createOrderFromItems` (internal/service/order/service.go) with `createTx`
-- (internal/repository/postgres/order.go): one transaction that reserves stock line by line and
-- writes the order. What other code supplies is the section's parameters.
pub mod Atomic
pub mod Lines
pub mod Stock
use zentora_backend.Prelude.{
  ℕ, suc, Bool, true, false, ◌&&◌, ◌||◌, not, Option, none, some, List, [], ◌∷◌, ◌++◌,
  if◌then◌else◌,
}
use zentora_backend.Prelude.Int.{ℤ, pos, ◌==ℤ◌, leb_ℤ}
use zentora_backend.Prelude.Floats.{Floats}
use zentora_backend.Text.{Text, lit}
use zentora_backend.Delivery.{Policy, new_snapshot}
use zentora_backend.Inventory
use zentora_backend.Inventory.{Table, Item, reserve_tx}
use zentora_backend.Order.{
  Order, OrderItem, CreateItem, ShippingInfo, Product, Variant, pending, Error, Result, ok, err,
  invalid_input, out_of_stock, variant_not_found, product_not_found, failure, Step, continue, ◌>>=◌,
  ◌>>◌, return, fail_unless, or_fail,
}

-- The tables that the transaction writes.
pub record Store (F : Type 0) : Type 0 where
  pub inventory : Table
  pub orders : List (Order F)

-- The database while the order's transaction is open: what is committed, which is what everyone else
-- sees, and the tables as the transaction's own statements have left them.
pub record Tx (F : Type 0) : Type 0 where
  pub committed : Store F
  pub working : Store F

abbrev pub begin : {F : Type 0} → Store F → Tx F
begin s = record { committed = s; working = s }

-- A statement on the stock by the transaction's handle.
abbrev pub on_tx : {F A : Type 0} → Step Table A → Step (Tx F) A
on_tx f x =
    let (r, t) = f x.working.inventory in
    (r, record x { working = record x.working { inventory = t } })

-- What the transaction meets: the catalog and the delivery policy as read at that time, the
-- database's refusals, the numbers that its sequences give, the random order number and the clock.
pub record Env (F : Type 0) : Type 0 where
  pub get_product : ℤ → Option Product
  pub get_variant : ℤ → Option (Variant F)
  pub policy : Option Policy
  pub database : Inventory.Database
  pub finds_location : Bool
  pub inserts_order : Bool
  pub inserts_item : ℕ → Bool
  pub order_id : ℤ
  pub item_id : ℕ → ℤ
  pub order_number : Text
  pub now : ℕ
  pub db_now : ℕ

-- `SELECT location_id … WHERE variant_id = $1 ORDER BY location_id ASC LIMIT 1`
abbrev pub lesser : ℤ → Option ℤ → ℤ
lesser l none = l
lesser l (some m) = if leb_ℤ l m then l else m

unfoldable pub first_location : ℤ → Table → Option ℤ
first_location v [] = none
first_location v (r ∷ t) =
    let rest = first_location v t in
    if r.variant_id ==ℤ v then some (lesser r.location_id rest) else rest

module _ {F : Type 0} (fl : Floats F) (env : Env F) where
  abbrev pub pick_location : ℤ → Table → Option ℤ
  pick_location v t = if env.finds_location then first_location v t else none

  -- `Reserve` in the order's transaction; every error becomes ErrOutOfStock.
  abbrev pub reserved : Inventory.Result Table → Table → Result (Unit {0}) × Table
  reserved (Inventory.ok t') t = (ok tt, t')
  reserved (Inventory.err e) t = (err out_of_stock, t)

  unfoldable pub hold_stock : ℤ → ℤ → Step Table (Unit {0})
  hold_stock v q t = elim (pick_location v t) [
    | none ↦ (err out_of_stock, t)
    | some l ↦ reserved (reserve_tx env.database env.now v l q t) t
  ]

  abbrev pub line_total : Variant F → ℤ → F
  line_total v q = fl.mul v.price (fl.of_int q)

  abbrev pub order_item : Order F → Product → Variant F → ℤ → OrderItem F
  order_item o p v q = record {
    id = pos 0;
    order_id = pos 0;
    product_id = p.id;
    variant_id = some v.id;
    product_name = p.name;
    product_slug = some p.slug;
    unit_price = v.price;
    quantity = q;
    discount_amount = fl.of_int (pos 0);
    tax_rate = fl.of_int (pos 0);
    total_price = line_total v q;
    currency = o.currency;
  }

  abbrev pub add_line : Order F → Product → Variant F → ℤ → Order F
  add_line o p v q = record o {
    subtotal = fl.add o.subtotal (line_total v q);
    total_amount = fl.add o.total_amount (line_total v q);
    items = o.items ++ order_item o p v q ∷ [];
  }

  -- One round of the loop over the requested items.
  unfoldable pub place_item : CreateItem → Order F → Step (Tx F) (Order F)
  place_item it o = do
    fail_unless
        (not
          (leb_ℤ it.product_id (pos 0) || leb_ℤ it.variant_id (pos 0) || leb_ℤ it.quantity (pos 0)))
        invalid_input
    p ← or_fail (env.get_product it.product_id) product_not_found
    v ← or_fail (env.get_variant it.variant_id) variant_not_found
    fail_unless (v.product_id ==ℤ p.id && v.is_active) invalid_input
    on_tx (hold_stock it.variant_id it.quantity)
    return (add_line o p v it.quantity)

  unfoldable pub place : List CreateItem → Order F → Step (Tx F) (Order F)
  place [] o = return o
  place (it ∷ its) o = place_item it o >>= place its

  -- `createTx`: the order's row, then a row for each item.
  unfoldable pub insert_items : ℕ → List (OrderItem F) → Option (List (OrderItem F))
  insert_items k [] = some []
  insert_items k (i ∷ is) =
      let rest = insert_items (suc k) is in
      if env.inserts_item k
      then elim rest [
        | none ↦ none
        | some js ↦ some (record i { id = env.item_id k; order_id = env.order_id } ∷ js)
      ]
      else none

  unfoldable pub create_tx : Order F → List (Order F) → Option (Order F)
  create_tx o orders =
      if env.inserts_order
      then elim (insert_items 0 o.items) [
        | none ↦ none
        | some is ↦ some (record o {
          id = env.order_id;
          created_at = env.db_now;
          updated_at = env.db_now;
          items = is;
        })
      ]
      else none

  unfoldable pub draft : Option ℤ → Option ℤ → ShippingInfo → Order F
  draft user cart shipping = record {
    delivery_information = new_snapshot env.policy;
    id = pos 0;
    user_id = user;
    cart_id = cart;
    order_number = env.order_number;
    status = pending;
    subtotal = fl.of_int (pos 0);
    discount_amount = fl.of_int (pos 0);
    tax_amount = fl.of_int (pos 0);
    shipping_fee = fl.of_int (pos 0);
    total_amount = fl.of_int (pos 0);
    currency = lit "KES";
    shipping = shipping;
    created_at = env.now;
    updated_at = env.now;
    items = [];
  }

  -- `CreateOrderTx` on the transaction's handle, after the loop.
  abbrev pub written : Result (Order F) × Tx F → Result (Order F) × Tx F
  written (err e, x) = (err e, x)
  written (ok o, x) = elim (create_tx o x.working.orders) [
    | none ↦ (err failure, x)
    | some o' ↦
        (ok o', record x { working = record x.working { orders = x.working.orders ++ o' ∷ [] } })
  ]

  -- `Commit` makes the transaction's tables the committed ones; the deferred `Rollback`, which every
  -- early return and a failed commit meet, drops them.
  abbrev pub finish : Result (Order F) × Tx F → Result (Order F) × Store F
  finish (err e, x) = (err e, x.committed)
  finish (ok o, x) =
      if env.database.commit_fails x.working.inventory
      then (err failure, x.committed)
      else (ok o, x.working)

  unfoldable pub create_order_from_items :
      Option ℤ → Option ℤ → List CreateItem → ShippingInfo → Step (Store F) (Order F)
  create_order_from_items user cart its shipping s =
      if env.database.begin_fails
      then (err failure, s)
      else finish (written (place its (draft user cart shipping) (begin s)))
