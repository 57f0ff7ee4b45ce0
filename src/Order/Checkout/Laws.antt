-- ===== src/Order/Checkout/Laws.antt =====
-- What the two ways to order promise.
use zentora_backend.Prelude.{
  ◌≡◌, refl, sym, ap, ◌∙◌, inl, inr, ◌||◌, Option, none, some, List, arith, Bool-cases,
  Option-cases, map,
}
use zentora_backend.Prelude.Int.{ℤ, pos, ◌==ℤ◌, leb_ℤ, ==ℤ_iff}
use zentora_backend.Prelude.Floats.{Floats}
use zentora_backend.Order.{Order, CreateItem, ShippingInfo, Error, Result, ok, err, pending}
use zentora_backend.Order.Create.{Store, Env, create_order_from_items}
use zentora_backend.Order.Create.Lines.{AreLines, create_order_from_items-AreLines}
use zentora_backend.Order.Create.Atomic.{create_order_from_items_atomic}
use zentora_backend.Order.Checkout.{
  Cart, Repos, World, GuestRequest, UserRequest, given, is_nil, resolve_shipping, place_order,
  and_notify, lacks_shipping, create_guest_order, create_user_order, to_create_item, retire_cart,
  from_cart, with_shipping,
}

abbrev with_store {ℓ} : {F C : Type 0} {A : Type ℓ} → World F C → A × Store F → A × World F C
with_store w p = (p.0, record w { store = p.1 })

module _ {F C : Type 0} (fl : Floats F) (env : Env F) (repos : Repos C) where
  and_notify_err :
      (p : Result (Order F) × World F C) {e : Error} {w' : World F C}
      → and_notify fl env repos p ≡ (err e, w')
      → p ≡ (err e, w')
  and_notify_err (ok o, w) h = cc
  and_notify_err (err x, w) h = h

  retire_cart_err :
      (cart : ℤ) (p : Result (Order F) × World F C) {e : Error} {w' : World F C}
      → retire_cart fl env repos cart p ≡ (err e, w')
      → p ≡ (err e, w')
  retire_cart_err cart (ok o, w) h = cc
  retire_cart_err cart (err x, w) h = h

  place_order_atomic :
      (user cart : Option ℤ) (its : List CreateItem) (ship : ShippingInfo) (w : World F C)
      {e : Error} {w' : World F C}
      → place_order fl env repos user cart its ship w ≡ (err e, w')
      → w' ≡ w
  place_order_atomic user cart its ship w {e} {w'} h =
      run (create_order_from_items fl env user cart its ship w.store) refl h
    where
      run :
          (p : Result (Order F) × Store F)
          → create_order_from_items fl env user cart its ship w.store ≡ p
          → with_store w p ≡ (err e, w')
          → w' ≡ w
      run (ok o, s) e1 e2 = cc
      run (err x, s) e1 e2 =
          let same = create_order_from_items_atomic fl env user cart its ship w.store e1 in
          sym (ap (λ q. q.1) e2) ∙ (λ i. record w { store = same i })

  from_cart_atomic :
      (user cart : ℤ) (ship : ShippingInfo) (found : Result (Option Cart)) (w : World F C)
      {e : Error} {w' : World F C}
      → from_cart fl env repos user cart ship found w ≡ (err e, w')
      → w' ≡ w
  from_cart_atomic user cart ship (err x) w h = ground arith
  from_cart_atomic user cart ship (ok none) w h = ground arith
  from_cart_atomic user cart ship (ok (some c)) w {e} {w'} h = elim (Bool-cases (c.id ==ℤ cart)) [
    | inl b ↦
        place_order_atomic (some user) (some cart) (map (to_create_item fl env repos) c.items) ship
          w
          (retire_cart_err cart
            (place_order fl env repos (some user) (some cart)
              (map (to_create_item fl env repos) c.items) ship w)
            (and_notify_err
              (retire_cart fl env repos cart (
                place_order fl env repos (some user) (some cart)
                  (map (to_create_item fl env repos) c.items) ship w))
              {e = e} {w' = w'} (ground arith)))
    | inr b ↦ ground arith
  ]

  -- A guest's order that fails, for whatever reason, changes neither stock, nor orders, nor carts,
  -- and nobody is notified.
  pub create_guest_order_atomic :
      (req : Option GuestRequest) (w : World F C) {e : Error} {w' : World F C}
      → create_guest_order fl env repos req w ≡ (err e, w')
      → w' ≡ w
  unfolding create_guest_order
  create_guest_order_atomic none w h = ground arith
  create_guest_order_atomic (some req) w {e} {w'} h =
      elim (Bool-cases (is_nil req.items || lacks_shipping fl env repos req.shipping)) [
        | inl b ↦ ground arith
        | inr b ↦ place_order_atomic none none req.items req.shipping w (
            and_notify_err (place_order fl env repos none none req.items req.shipping w) {e = e}
              {w' = w'} (ground arith))
      ]

  with_shipping_atomic :
      (user : ℤ) (req : UserRequest) (ship : Result ShippingInfo) (w : World F C) {e : Error}
      {w' : World F C}
      → with_shipping fl env repos user req ship w ≡ (err e, w')
      → w' ≡ w
  with_shipping_atomic user req (err x) w h = ground arith
  with_shipping_atomic user req (ok ship) w {e} {w'} h = elim (Option-cases (given req.cart_id)) [
    | inr (cart, g) ↦
        from_cart_atomic user cart ship (repos.get_active_cart w.carts user) w {e = e} {w' = w'}
          (ground arith)
    | inl g ↦ elim (Bool-cases (is_nil req.items)) [
      | inl b ↦ ground arith
      | inr b ↦ place_order_atomic (some user) none req.items ship w (
          and_notify_err (place_order fl env repos (some user) none req.items ship w) {e = e}
            {w' = w'} (ground arith))
    ]
  ]

  -- A user's order that fails, for whatever reason, changes neither stock, nor orders, nor carts
  -- (the cart is not cleared), and nobody is notified.
  pub create_user_order_atomic :
      (user : ℤ) (req : Option UserRequest) (w : World F C) {e : Error} {w' : World F C}
      → create_user_order fl env repos user req w ≡ (err e, w')
      → w' ≡ w
  unfolding create_user_order
  create_user_order_atomic user none w h = ground arith
  create_user_order_atomic user (some req) w {e} {w'} h = elim (Bool-cases (leb_ℤ user (pos 0))) [
    | inl b ↦ ground arith
    | inr b ↦
        with_shipping_atomic user req (resolve_shipping fl env repos user req.address_id) w {e = e}
          {w' = w'} (ground arith)
  ]

  -- What a successful `from_cart` leaves.
  pub record IsCheckedOut (user cart : ℤ) (o : Order F) (w w' : World F C) : Type 0 where
    pub active : Cart
    pub found : repos.get_active_cart w.carts user ≡ ok (some active)
    pub named : active.id ≡ cart
    pub status : o.status ≡ pending
    pub lines : AreLines fl env (map (to_create_item fl env repos) active.items) o.items
    pub retired : w'.carts ≡ (repos.mark_cart_converted cart (repos.clear_cart cart w.carts).1).1

  from_cart-IsCheckedOut :
      (user cart : ℤ) (ship : ShippingInfo) (r : Result (Option Cart)) (w : World F C) {o : Order F}
      {w' : World F C}
      → repos.get_active_cart w.carts user ≡ r
      → from_cart fl env repos user cart ship r w ≡ (ok o, w')
      → IsCheckedOut user cart o w w'
  from_cart-IsCheckedOut user cart ship (err x) w k h = cc
  from_cart-IsCheckedOut user cart ship (ok none) w k h = cc
  from_cart-IsCheckedOut user cart ship (ok (some c)) w {o} {w'} k h =
      elim (Bool-cases (c.id ==ℤ cart)) [
        | inr b ↦ absurd (ground arith)
        | inl b ↦
            run (create_order_from_items fl env (some user) (some cart) items ship w.store) refl
              (ground arith)
      ]
    where
      items : List CreateItem
      items = map (to_create_item fl env repos) c.items

      run :
          (p : Result (Order F) × Store F)
          → create_order_from_items fl env (some user) (some cart) items ship w.store ≡ p
          → and_notify fl env repos (retire_cart fl env repos cart (with_store w p)) ≡ (ok o, w')
          → IsCheckedOut user cart o w w'
      run (err x, s) e1 e2 = cc
      run (ok o1, s) e1 e2 =
          let same : o1 ≡ o = ground arith in
          let (st, ls, subs, sums) =
            create_order_from_items-AreLines fl env (some user) (some cart) items ship w.store e1 in
          record {
            active = c;
            found = k;
            named = ground (arith, ==ℤ_iff c.id cart);
            status = rw (sym same) st;
            lines = rw (sym same) ls;
            retired = elim (Bool-cases repos.has_mailer) [
              | inl m ↦ ground arith
              | inr m ↦ ground arith
            ];
          }

  -- An order placed from a cart is of the user's active cart, which is the one that the request
  -- names; its lines are the cart's items, one for one, and the carts are left as ClearCart and then
  -- MarkCartConverted leave them, whether or not these fail.
  pub create_user_order-IsCheckedOut :
      (user cart : ℤ) (req : UserRequest) (w : World F C) {o : Order F} {w' : World F C}
      → given req.cart_id ≡ some cart
      → create_user_order fl env repos user (some req) w ≡ (ok o, w')
      → IsCheckedOut user cart o w w'
  unfolding create_user_order
  create_user_order-IsCheckedOut user cart req w {o} {w'} g h =
      elim (Bool-cases (leb_ℤ user (pos 0))) [
        | inl b ↦ absurd (ground arith)
        | inr b ↦ shipped_to (resolve_shipping fl env repos user req.address_id) (ground arith)
      ]
    where
      shipped_to :
          (r : Result ShippingInfo)
          → with_shipping fl env repos user req r w ≡ (ok o, w')
          → IsCheckedOut user cart o w w'
      shipped_to (err x) e = cc
      shipped_to (ok ship) e =
          from_cart-IsCheckedOut user cart ship (repos.get_active_cart w.carts user) w refl
            (ground arith)
