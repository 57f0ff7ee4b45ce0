-- ===== src/Order/Create/Lines.antt =====
-- What a placed order says: its lines are the requested ones, and its totals are theirs.
use zentora_backend.Prelude.{
  ℕ, suc, ◌≡◌, refl, sym, ap, subst, ◌∙◌, inl, inr, true, Option, some, List, [], ◌∷◌, ◌++◌, arith,
  Option-cases,
}
use mathlib.Core.Option.{some-injective}
use mathlib.Core.List.{append-nil, append_assoc}
use zentora_backend.Prelude.Int.{ℤ, pos, ltb_ℤ, ==ℤ_iff}
use zentora_backend.Prelude.Floats.{Floats}
use zentora_backend.Order.{
  Order, OrderItem, CreateItem, ShippingInfo, Product, Variant, pending, Result, ok, err, continue,
}
use zentora_backend.Order.Create.{
  Store, Tx, begin, Env, hold_stock, order_item, add_line, place_item, place, insert_items,
  create_tx, draft, create_order_from_items, finish, written,
}

module _ {F : Type 0} (fl : Floats F) (env : Env F) where
  -- What a line that was placed has passed.
  pub record IsPlaced (it : CreateItem) (o o' : Order F) (x x' : Tx F) : Type 0 where
    pub product : Product
    pub variant : Variant F
    pub found_product : env.get_product it.product_id ≡ some product
    pub found_variant : env.get_variant it.variant_id ≡ some variant
    pub positive : ltb_ℤ (pos 0) it.quantity ≡ true
    pub belongs : variant.product_id ≡ product.id
    pub active : variant.is_active ≡ true
    pub held :
        hold_stock fl env it.variant_id it.quantity x.working.inventory
        ≡ (ok tt, x'.working.inventory)
    pub same_orders : x'.working.orders ≡ x.working.orders
    pub added : o' ≡ add_line fl env o product variant it.quantity

  pub place_item-IsPlaced :
      (it : CreateItem) (o : Order F) (x : Tx F) {o' : Order F} {x' : Tx F}
      → place_item fl env it o x ≡ (ok o', x')
      → IsPlaced it o o' x x'
  unfolding place_item
  place_item-IsPlaced it o x {o'} {x'} e = elim (Option-cases (env.get_product it.product_id)) [
    | inl e1 ↦ absurd (ground arith)
    | inr (p, e1) ↦ elim (Option-cases (env.get_variant it.variant_id)) [
      | inl e2 ↦ absurd (ground arith)
      | inr (v, e2) ↦ record {
        product = p;
        variant = v;
        found_product = e1;
        found_variant = e2;
        positive = ground arith;
        belongs = ground (arith, ==ℤ_iff v.product_id p.id);
        active = ground arith;
        held = ground arith;
        same_orders = ground arith;
        added = ground arith;
      }
    ]
  ]

  -- An order line that answers a requested item, at the catalog's price.
  pub record IsLine (it : CreateItem) (i : OrderItem F) : Type 0 where
    pub product : Product
    pub variant : Variant F
    pub found_product : env.get_product it.product_id ≡ some product
    pub found_variant : env.get_variant it.variant_id ≡ some variant
    pub belongs : variant.product_id ≡ product.id
    pub active : variant.is_active ≡ true
    pub positive : ltb_ℤ (pos 0) it.quantity ≡ true
    pub same_product : i.product_id ≡ product.id
    pub same_variant : i.variant_id ≡ some variant.id
    pub same_quantity : i.quantity ≡ it.quantity
    pub at_price : i.unit_price ≡ variant.price
    pub totalled : i.total_price ≡ fl.mul variant.price (fl.of_int it.quantity)

  -- The requested items and the lines answer each other one by one, in order.
  abbrev pub AreLines : List CreateItem → List (OrderItem F) → Type 0
  AreLines [] [] = Unit
  AreLines [] (i ∷ is) = ⊥
  AreLines (it ∷ its) [] = ⊥
  AreLines (it ∷ its) (i ∷ is) = IsLine it i × AreLines its is

  -- The sum of the lines, added up from the left.
  abbrev pub totals : F → List (OrderItem F) → F
  totals acc [] = acc
  totals acc (i ∷ is) = totals (fl.add acc i.total_price) is

  record IsFilled (its : List CreateItem) (o o' : Order F) : Type 0 where
    new : List (OrderItem F)
    appended : o'.items ≡ o.items ++ new
    lines : AreLines its new
    subtotal : o'.subtotal ≡ totals o.subtotal new
    total_amount : o'.total_amount ≡ totals o.total_amount new
    status : o'.status ≡ o.status
    shipping : o'.shipping ≡ o.shipping

  IsLine-order_item :
      (it : CreateItem) (o o' : Order F) (x x' : Tx F)
      → (h : IsPlaced it o o' x x')
      → IsLine it (order_item fl env o h.product h.variant it.quantity)
  IsLine-order_item it o o' x x' h = record {
    product = h.product;
    variant = h.variant;
    found_product = h.found_product;
    found_variant = h.found_variant;
    belongs = h.belongs;
    active = h.active;
    positive = h.positive;
    same_product = refl;
    same_variant = refl;
    same_quantity = refl;
    at_price = refl;
    totalled = refl;
  }

  -- Placing a list of items is placing the first and then the others.
  pub place-cons :
      (it : CreateItem) (its : List CreateItem) (o : Order F) (x : Tx F) {o' : Order F} {x' : Tx F}
      → place fl env (it ∷ its) o x ≡ (ok o', x')
      → (o1 : Order F) × (x1 : Tx F) × IsPlaced it o o1 x x1
        × (place fl env its o1 x1 ≡ (ok o', x'))
  unfolding place
  place-cons it its o x {o'} {x'} e = first (place_item fl env it o x) refl e
    where
      first :
          (r : Result (Order F) × Tx F)
          → place_item fl env it o x ≡ r
          → continue (place fl env its) r ≡ (ok o', x')
          → (o1 : Order F) × (x1 : Tx F) × IsPlaced it o o1 x x1
            × (place fl env its o1 x1 ≡ (ok o', x'))
      first (ok o1, x1) e1 e2 = (o1, x1, place_item-IsPlaced it o x e1, e2)
      first (err z, x1) e1 e2 = cc

  -- The loop leaves the orders alone.
  place-orders :
      (its : List CreateItem) (o : Order F) (x : Tx F) {o' : Order F} {x' : Tx F}
      → place fl env its o x ≡ (ok o', x')
      → x'.working.orders ≡ x.working.orders
  place-orders [] o x {o'} {x'} e = let same : x' ≡ x = unfold place in cc in rw same refl
  place-orders (it ∷ its) o x e =
      let (o1, x1, h, e') = place-cons it its o x e in place-orders its o1 x1 e' ∙ h.same_orders

  place-IsFilled :
      (its : List CreateItem) (o : Order F) (x : Tx F) {o' : Order F} {x' : Tx F}
      → place fl env its o x ≡ (ok o', x')
      → IsFilled its o o'
  place-IsFilled [] o x {o'} e =
      let same : o' ≡ o = unfold place in cc in
      record {
        new = [];
        appended = ap (λ d. d.items) same ∙ sym (append-nil o.items);
        lines = tt;
        subtotal = ap (λ x. x.subtotal) same;
        total_amount = ap (λ x. x.total_amount) same;
        status = ap (λ x. x.status) same;
        shipping = ap (λ x. x.shipping) same;
      }
  place-IsFilled (it ∷ its) o x {o'} {x'} e =
      let (o1, x1, h, e') = place-cons it its o x e in
      let rest = place-IsFilled its o1 x1 e' in
      record {
        new = order_item fl env o h.product h.variant it.quantity ∷ rest.new;
        appended =
            rest.appended
            ∙ ap (λ x. x.items ++ rest.new) h.added
            ∙ append_assoc o.items (order_item fl env o h.product h.variant it.quantity ∷ [])
                rest.new;
        lines = (IsLine-order_item it o o1 x x1 h, rest.lines);
        subtotal = rest.subtotal ∙ ap (λ x. totals x.subtotal rest.new) h.added;
        total_amount = rest.total_amount ∙ ap (λ x. totals x.total_amount rest.new) h.added;
        status = rest.status ∙ ap (λ x. x.status) h.added;
        shipping = rest.shipping ∙ ap (λ x. x.shipping) h.added;
      }

  -- Writing the rows gives the lines their numbers, and changes nothing else of them.
  insert_items-AreLines :
      (k : ℕ) (its : List CreateItem) (is : List (OrderItem F)) (acc : F) {js : List (OrderItem F)}
      → insert_items fl env k is ≡ some js
      → AreLines its is
      → AreLines its js × (totals acc js ≡ totals acc is)
  unfolding insert_items
  insert_items-AreLines k its [] acc {js} e h =
      subst (λ x. AreLines its x × (totals acc x ≡ acc)) (some-injective [] js e) (h, refl)
  insert_items-AreLines k [] (i ∷ is) acc e h = absurd h
  insert_items-AreLines k (it ∷ its) (i ∷ is) acc {js} e h =
      elim (Option-cases (insert_items fl env (suc k) is)) [
        | inl e1 ↦ absurd (ground arith)
        | inr (rest, e1) ↦
            let ih = insert_items-AreLines (suc k) its is (fl.add acc i.total_price) e1 h.1 in
            let same : js ≡ record i { id = env.item_id k; order_id = env.order_id } ∷ rest =
              ground arith in
            rw same (
              (
                record {
                  product = h.0.product;
                  variant = h.0.variant;
                  found_product = h.0.found_product;
                  found_variant = h.0.found_variant;
                  belongs = h.0.belongs;
                  active = h.0.active;
                  positive = h.0.positive;
                  same_product = h.0.same_product;
                  same_variant = h.0.same_variant;
                  same_quantity = h.0.same_quantity;
                  at_price = h.0.at_price;
                  totalled = h.0.totalled;
                },
                ih.0,
              ),
              ih.1,
            )
      ]

  -- What the transaction did, if it succeeded.
  pub record IsCommitted (its : List CreateItem) (o : Order F) (d : Order F) (s s' : Store F)
      : Type 0 where
    pub placed : Order F
    pub end_ : Tx F
    pub loop : place fl env its d (begin s) ≡ (ok placed, end_)
    pub stocked : s'.inventory ≡ end_.working.inventory
    pub row : create_tx fl env placed s.orders ≡ some o
    pub stored : s'.orders ≡ s.orders ++ o ∷ []

  pub create_order_from_items-IsCommitted :
      (user cart : Option ℤ) (its : List CreateItem) (ship : ShippingInfo) (s : Store F)
      {o : Order F} {s' : Store F}
      → create_order_from_items fl env user cart its ship s ≡ (ok o, s')
      → IsCommitted its o (draft fl env user cart ship) s s'
  unfolding create_order_from_items
  create_order_from_items-IsCommitted user cart its ship s {o} {s'} e =
      run (place fl env its (draft fl env user cart ship) (begin s)) refl (ground arith)
    where
      run :
          (r : Result (Order F) × Tx F)
          → place fl env its (draft fl env user cart ship) (begin s) ≡ r
          → finish fl env (written fl env r) ≡ (ok o, s')
          → IsCommitted its o (draft fl env user cart ship) s s'
      run (err z, x) e1 e2 = cc
      run (ok p, x) e1 e2 =
          let same = place-orders its (draft fl env user cart ship) (begin s) e1 in
          elim (Option-cases (create_tx fl env p x.working.orders)) [
            | inl e3 ↦ absurd (ground arith)
            | inr (o1, e3) ↦ record {
              placed = p;
              end_ = x;
              loop = e1;
              stocked = ground arith;
              row = ground arith;
              stored = ground arith;
            }
          ]

  -- An order that the transaction returns is pending, has one line for each requested item and in
  -- that order (each an active variant of its product, at the catalog's price, with a positive
  -- quantity), and both its subtotal and its total are the sum of the lines' totals.
  pub create_order_from_items-AreLines :
      (user cart : Option ℤ) (its : List CreateItem) (ship : ShippingInfo) (s : Store F)
      {o : Order F} {s' : Store F}
      → create_order_from_items fl env user cart its ship s ≡ (ok o, s')
      → (o.status ≡ pending)
        × AreLines its o.items
        × (o.subtotal ≡ totals (fl.of_int (pos 0)) o.items)
        × (o.total_amount ≡ totals (fl.of_int (pos 0)) o.items)
  unfolding create_tx draft
  create_order_from_items-AreLines user cart its ship s {o} e =
      let c = create_order_from_items-IsCommitted user cart its ship s e in
      let f = place-IsFilled its (draft fl env user cart ship) (begin s) c.loop in
      let zero_ = fl.of_int (pos 0) in
      elim (Option-cases (insert_items fl env 0 c.placed.items)) [
        | inl e1 ↦ absurd (ground (arith, c.row))
        | inr (is, e1) ↦
            let same : c.placed.items ≡ f.new = f.appended in
            let ih = insert_items-AreLines 0 its c.placed.items zero_ e1 (rw same f.lines) in
            let numbered : o.items ≡ is = ground (arith, c.row) in
            let sums = sym (ap (totals zero_) same) ∙ sym ih.1 ∙ ap (totals zero_) (sym numbered) in
            let sub : o.subtotal ≡ c.placed.subtotal = ground (arith, c.row) in
            let total : o.total_amount ≡ c.placed.total_amount = ground (arith, c.row) in
            (
              ground (arith, c.row, f.status),
              rw numbered ih.0,
              sub ∙ f.subtotal ∙ sums,
              total ∙ f.total_amount ∙ sums,
            )
      ]

  -- The order is shipped to where it was asked to be.
  pub create_order_from_items-shipping :
      (user cart : Option ℤ) (its : List CreateItem) (ship : ShippingInfo) (s : Store F)
      {o : Order F} {s' : Store F}
      → create_order_from_items fl env user cart its ship s ≡ (ok o, s')
      → o.shipping ≡ ship
  unfolding create_tx draft
  create_order_from_items-shipping user cart its ship s {o} e =
      let c = create_order_from_items-IsCommitted user cart its ship s e in
      let f = place-IsFilled its (draft fl env user cart ship) (begin s) c.loop in
      elim (Option-cases (insert_items fl env 0 c.placed.items)) [
        | inl e1 ↦ absurd (ground (arith, c.row))
        | inr (is, e1) ↦ ground (arith, c.row, f.shipping)
      ]
