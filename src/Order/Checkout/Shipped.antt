-- ===== src/Order/Checkout/Shipped.antt =====
-- Where a user's order is shipped to.
use zentora_backend.Prelude.{
  ◌≡◌, refl, sym, ap, inl, inr, Option, none, some, List, arith, Bool-cases, Option-cases, All,
  subst, map,
}
use zentora_backend.Prelude.Int.{ℤ, pos, ◌==ℤ◌, leb_ℤ}
use zentora_backend.Prelude.Floats.{Floats}
use zentora_backend.Order.{Order, CreateItem, ShippingInfo, Result, ok, err}
use zentora_backend.Order.Create.{Env, create_order_from_items}
use zentora_backend.Order.Create.Lines.{create_order_from_items-shipping}
use zentora_backend.Order.Checkout.{
  Address, Cart, Repos, World, UserRequest, given, is_nil, resolve_shipping, place_order,
  and_notify, create_user_order, to_create_item, retire_cart, from_cart, with_shipping,
}
use zentora_backend.Order.Checkout.Addresses.{IsOwn, resolve_shipping-IsOwn}

module _ {F C : Type 0} (fl : Floats F) (env : Env F) (repos : Repos C) where
  and_notify_ok :
      (p : Result (Order F) × World F C) {o : Order F} {w' : World F C}
      → and_notify fl env repos p ≡ (ok o, w')
      → p.0 ≡ ok o
  and_notify_ok (ok x, w) h = ap (λ q. q.0) h
  and_notify_ok (err x, w) h = absurd cc

  retire_cart_ok :
      (cart : ℤ) (p : Result (Order F) × World F C) {o : Order F}
      → (retire_cart fl env repos cart p).0 ≡ ok o
      → p.0 ≡ ok o
  retire_cart_ok cart (ok x, w) h = h
  retire_cart_ok cart (err x, w) h = absurd cc

  place_order-shipping :
      (user cart : Option ℤ) (its : List CreateItem) (ship : ShippingInfo) (w : World F C)
      {o : Order F}
      → (place_order fl env repos user cart its ship w).0 ≡ ok o
      → o.shipping ≡ ship
  place_order-shipping user cart its ship w {o} h =
      create_order_from_items-shipping fl env user cart its ship w.store
        {s' = (create_order_from_items fl env user cart its ship w.store).1}
        (λ i. (h i, (create_order_from_items fl env user cart its ship w.store).1))

  from_cart-shipping :
      (user cart : ℤ) (ship : ShippingInfo) (found : Result (Option Cart)) (w : World F C)
      {o : Order F} {w' : World F C}
      → from_cart fl env repos user cart ship found w ≡ (ok o, w')
      → o.shipping ≡ ship
  from_cart-shipping user cart ship (err x) w h = absurd cc
  from_cart-shipping user cart ship (ok none) w h = absurd cc
  from_cart-shipping user cart ship (ok (some c)) w {o} {w'} h = elim (Bool-cases (c.id ==ℤ cart)) [
    | inr b ↦ absurd (ground arith)
    | inl b ↦
        let items = map (to_create_item fl env repos) c.items in
        let placed = place_order fl env repos (some user) (some cart) items ship w in
        place_order-shipping (some user) (some cart) items ship w (
          retire_cart_ok cart placed
            (and_notify_ok (retire_cart fl env repos cart placed) {o = o} {w' = w'} (ground arith)))
  ]

  -- If the address table lists for a user only addresses of that user, an order that a user places is
  -- shipped to an address of that user: the one that the request names, or, where it names none, one
  -- of the user's listed addresses, which is a default one if there is one.
  pub create_user_order-shipping :
      (user : ℤ) (req : UserRequest) (w : World F C) {o : Order F} {w' : World F C}
      → ((l : List Address) → repos.list_addresses user ≡ ok l → All (λ a. a.user_id ≡ user) l)
      → create_user_order fl env repos user (some req) w ≡ (ok o, w')
      → IsOwn fl env repos user req.address_id o.shipping
  unfolding create_user_order
  create_user_order-shipping user req w {o} {w'} own h = elim (Bool-cases (leb_ℤ user (pos 0))) [
    | inl b ↦ absurd (ground arith)
    | inr b ↦ shipped_to (resolve_shipping fl env repos user req.address_id) refl (ground arith)
  ]
    where
      shipped_to :
          (r : Result ShippingInfo)
          → resolve_shipping fl env repos user req.address_id ≡ r
          → with_shipping fl env repos user req r w ≡ (ok o, w')
          → IsOwn fl env repos user req.address_id o.shipping
      shipped_to (err x) k e = absurd cc
      shipped_to (ok ship) k e =
          let same : o.shipping ≡ ship = elim (Option-cases (given req.cart_id)) [
            | inr (cart, g) ↦
                from_cart-shipping user cart ship (repos.get_active_cart w.carts user) w {o = o}
                  {w' = w'} (ground arith)
            | inl g ↦ elim (Bool-cases (is_nil req.items)) [
              | inl b ↦ absurd (ground arith)
              | inr b ↦ place_order-shipping (some user) none req.items ship w (
                  and_notify_ok (place_order fl env repos (some user) none req.items ship w) {o = o}
                    {w' = w'} (ground arith))
            ]
          ] in
          subst (IsOwn fl env repos user req.address_id) (sym same)
            (resolve_shipping-IsOwn fl env repos user req.address_id own k)
