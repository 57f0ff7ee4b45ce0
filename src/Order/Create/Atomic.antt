-- ===== src/Order/Create/Atomic.antt =====
-- A failed order leaves no trace, and when a request fails for lack of stock.
use zentora_backend.Prelude.{
  ◌≡◌, refl, ◌∙◌, [], Option-cases, inl, inr, true, false, Option, some, List, ◌∷◌, arith,
  Bool-cases,
}
use zentora_backend.Prelude.Int.{ℤ, pos, leb_ℤ, ltb_ℤ, ==ℤ_iff}
use zentora_backend.Prelude.Floats.{Floats}
use zentora_backend.Inventory.{Table, Item, find_row}
use zentora_backend.Inventory.Keys.{IsUnique}
use zentora_backend.Inventory.Replies.{reserve_tx_short}
use zentora_backend.Order.{
  Order, CreateItem, ShippingInfo, Product, Variant, Error, Result, ok, err, out_of_stock, continue,
}
use zentora_backend.Order.Create.{
  Store, Tx, begin, create_tx, Env, hold_stock, first_location, place_item, place, draft,
  create_order_from_items, finish, written,
}

module _ {F : Type 0} (fl : Floats F) (env : Env F) where
  -- No statement of the loop is committed before the transaction is.
  place_item-committed :
      (it : CreateItem) (o : Order F) (x : Tx F)
      → (place_item fl env it o x).1.committed ≡ x.committed
  unfolding place_item
  place_item-committed it o x = elim (Option-cases (env.get_product it.product_id)) [
    | inl e1 ↦ ground arith
    | inr (p, e1) ↦ elim (Option-cases (env.get_variant it.variant_id)) [
      | inl e2 ↦ ground arith
      | inr (v, e2) ↦ ground arith
    ]
  ]

  place-committed :
      (its : List CreateItem) (o : Order F) (x : Tx F)
      → (place fl env its o x).1.committed ≡ x.committed
  unfolding place
  place-committed [] o x = refl
  place-committed (it ∷ its) o x =
      next (place_item fl env it o x) (place_item-committed it o x) (place-committed its)
    where
      next :
          (r : Result (Order F) × Tx F)
          → r.1.committed ≡ x.committed
          → ((o1 : Order F) (x1 : Tx F) → (place fl env its o1 x1).1.committed ≡ x1.committed)
          → (continue (place fl env its) r).1.committed ≡ x.committed
      next (ok o1, x1) kept ih = ih o1 x1 ∙ kept
      next (err z, x1) kept ih = kept

  -- Whatever fails and wherever in the transaction it fails, after some lines or while the rows are
  -- written or at the commit, the stock and the orders are those of before.
  pub create_order_from_items_atomic :
      (user cart : Option ℤ) (its : List CreateItem) (ship : ShippingInfo) (s : Store F) {e : Error}
      {s' : Store F}
      → create_order_from_items fl env user cart its ship s ≡ (err e, s')
      → s' ≡ s
  unfolding create_order_from_items
  create_order_from_items_atomic user cart its ship s {e} {s'} h =
      elim (Bool-cases env.database.begin_fails) [
        | inl b ↦ ground arith
        | inr b ↦
            undone (place fl env its (draft fl env user cart ship) (begin s))
              (place-committed its (draft fl env user cart ship) (begin s)) (ground arith)
      ]
    where
      undone :
          (r : Result (Order F) × Tx F)
          → r.1.committed ≡ s
          → finish fl env (written fl env r) ≡ (err e, s')
          → s' ≡ s
      undone (err z, x) kept k = ground arith
      undone (ok o, x) kept k = elim (Option-cases (create_tx fl env o x.working.orders)) [
        | inl none_ ↦ ground arith
        | inr (o', made) ↦ ground arith
      ]

  module _ (it : CreateItem) (o : Order F) (x : Tx F) (p : Product) (v : Variant F)
      (valid : (ltb_ℤ (pos 0) it.product_id ≡ true)
        × (ltb_ℤ (pos 0) it.variant_id ≡ true)
        × (ltb_ℤ (pos 0) it.quantity ≡ true))
      (found_product : env.get_product it.product_id ≡ some p)
      (found_variant : env.get_variant it.variant_id ≡ some v)
      (sellable : (v.product_id ≡ p.id) × (v.is_active ≡ true)) where
    place_item-held :
        hold_stock fl env it.variant_id it.quantity x.working.inventory
          ≡ (err out_of_stock, x.working.inventory)
        → place_item fl env it o x ≡ (err out_of_stock, x)
    unfolding place_item
    place_item-held h = ground (arith, ==ℤ_iff v.product_id p.id)

  hold_stock_short :
      (v q l : ℤ) (t : Table) (r : Item)
      → IsUnique t
      → first_location v t ≡ some l
      → find_row v l t ≡ some r
      → leb_ℤ q r.available_qty ≡ false
      → hold_stock fl env v q t ≡ (err out_of_stock, t)
  unfolding hold_stock
  hold_stock_short v q l t r u first found short =
      let (x, fails) = reserve_tx_short env.database env.now v l q t u found short in
      elim (Bool-cases env.finds_location) [ inl b ↦ ground arith | inr b ↦ ground arith ]

  -- Where keys are unique and the transaction begins, an order whose first item is well formed, of
  -- an active variant of its product, fails with ErrOutOfStock and changes nothing if the row at the
  -- variant's first location has less than the item asks for, whatever the other locations hold.
  pub create_order_from_items-first_location :
      (user cart : Option ℤ) (it : CreateItem) (its : List CreateItem) (ship : ShippingInfo)
      (s : Store F) (p : Product) (v : Variant F) (l : ℤ) (r : Item)
      → env.database.begin_fails ≡ false
      → (ltb_ℤ (pos 0) it.product_id ≡ true)
        × (ltb_ℤ (pos 0) it.variant_id ≡ true)
        × (ltb_ℤ (pos 0) it.quantity ≡ true)
      → env.get_product it.product_id ≡ some p
      → env.get_variant it.variant_id ≡ some v
      → (v.product_id ≡ p.id) × (v.is_active ≡ true)
      → IsUnique s.inventory
      → first_location it.variant_id s.inventory ≡ some l
      → find_row it.variant_id l s.inventory ≡ some r
      → leb_ℤ it.quantity r.available_qty ≡ false
      → create_order_from_items fl env user cart (it ∷ its) ship s ≡ (err out_of_stock, s)
  unfolding create_order_from_items place
  create_order_from_items-first_location user cart it its ship s p v l r b valid fp fv sell u first
        found short =
      let fails =
        place_item-held it (draft fl env user cart ship) (begin s) p v valid fp fv sell
          (hold_stock_short it.variant_id it.quantity l s.inventory r u first found short) in
      ground (arith, fails)
