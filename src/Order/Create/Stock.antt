-- ===== src/Order/Create/Stock.antt =====
-- What a placed order does to the stock of every variant.
use zentora_backend.Prelude.{
  subst, ◌≡◌, refl, sym, ap, ◌∙◌, inl, inr, Option, List, [], ◌∷◌, arith, Bool-cases, Option-cases,
  if◌then◌else◌,
}
use zentora_backend.Prelude.Int.{ℤ, pos, ◌+ℤ◌, ◌-ℤ◌, ◌==ℤ◌, ==ℤ_iff, int_laws}
use zentora_backend.Prelude.Floats.{Floats}
use zentora_backend.Inventory
use zentora_backend.Inventory.{Table, StockSummary, get_stock_summary, reserve_tx}
use zentora_backend.Inventory.Keys.{IsUnique}
use zentora_backend.Inventory.Stock.{reserve_tx-IsUnique, reserve_tx_own, reserve_tx_other}
use zentora_backend.Inventory.Service.Safety.{IsSound, reserve_tx_keeps}
use zentora_backend.Order.{Order, CreateItem, ShippingInfo, ok}
use zentora_backend.Order.Create.{
  Store, Tx, begin, Env, hold_stock, pick_location, reserved, place, draft, create_order_from_items,
}
use zentora_backend.Order.Create.Lines.{place-cons, create_order_from_items-IsCommitted}

-- How many units of a variant a request asks for.
abbrev pub asked : ℤ → List CreateItem → ℤ
asked w [] = pos 0
asked w (it ∷ its) =
    let rest = asked w its in if it.variant_id ==ℤ w then it.quantity +ℤ rest else rest

-- The summary with n units moved from available to reserved.
abbrev pub moved : ℤ → StockSummary → StockSummary
moved n s = record s { available_qty = s.available_qty -ℤ n; reserved_qty = s.reserved_qty +ℤ n }

moved_zero : (s : StockSummary) → s ≡ moved (pos 0) s
moved_zero s = λ i. record {
  available_qty = sub_zero s.available_qty i;
  reserved_qty = add_zero s.reserved_qty i;
  incoming_qty = s.incoming_qty;
}
  where
    sub_zero : (a : ℤ) → a ≡ a -ℤ pos 0
    sub_zero a = omega int_laws

    add_zero : (a : ℤ) → a ≡ a +ℤ pos 0
    add_zero a = omega int_laws

moved-moved : (m n : ℤ) (s : StockSummary) → moved n (moved m s) ≡ moved (m +ℤ n) s
moved-moved m n s = λ i. record {
  available_qty = subs s.available_qty i;
  reserved_qty = adds s.reserved_qty i;
  incoming_qty = s.incoming_qty;
}
  where
    subs : (a : ℤ) → a -ℤ m -ℤ n ≡ a -ℤ (m +ℤ n)
    subs a = omega int_laws

    adds : (a : ℤ) → a +ℤ m +ℤ n ≡ a +ℤ (m +ℤ n)
    adds a = omega int_laws

asked-cons :
    (w : ℤ) (it : CreateItem) (its : List CreateItem)
    → (if it.variant_id ==ℤ w then it.quantity else pos 0) +ℤ asked w its ≡ asked w (it ∷ its)
asked-cons w it its = elim (Bool-cases (it.variant_id ==ℤ w)) [
  | inl same ↦ rw same
  | inr other ↦ rw other (omega int_laws)
]

module _ {F : Type 0} (fl : Floats F) (env : Env F) where
  hold_stock-ok :
      (v q : ℤ) (t : Table) {t' : Table}
      → hold_stock fl env v q t ≡ (ok tt, t')
      → (l : ℤ) × (reserve_tx env.database env.now v l q t ≡ Inventory.ok t')
  unfolding hold_stock
  hold_stock-ok v q t {t'} e = elim (Option-cases (pick_location fl env v t)) [
    | inl e1 ↦ absurd (ground arith)
    | inr (l, e1) ↦ (l, hit l (reserve_tx env.database env.now v l q t) refl (ground arith))
  ]
    where
      hit :
          (l : ℤ) (r : Inventory.Result Table)
          → reserve_tx env.database env.now v l q t ≡ r
          → reserved fl env r t ≡ (ok tt, t')
          → reserve_tx env.database env.now v l q t ≡ Inventory.ok t'
      hit l (Inventory.ok t1) e1 e2 = cc
      hit l (Inventory.err x) e1 e2 = cc

  -- One line moves its quantity, for its own variant only.
  hold_stock-moved :
      (v q w : ℤ) (t : Table) {t' : Table}
      → IsUnique t
      → hold_stock fl env v q t ≡ (ok tt, t')
      → get_stock_summary w t' ≡ moved (if v ==ℤ w then q else pos 0) (get_stock_summary w t)
  hold_stock-moved v q w t {t'} u e = elim (Bool-cases (v ==ℤ w)) [
    | inl same ↦
        rw (same, ← (==ℤ_iff v w).0 same)
          (reserve_tx_own env.database env.now v _ q t (hold_stock-ok v q t e).1 u)
    | inr other ↦ rw other (
        reserve_tx_other env.database env.now v _ q t (hold_stock-ok v q t e).1 w
          (λ h. cc ((==ℤ_iff v w).1 (sym h)))
        ∙ moved_zero (get_stock_summary w t))
  ]

  place-moved :
      (its : List CreateItem) (o : Order F) (w : ℤ) (x : Tx F) {o' : Order F} {x' : Tx F}
      → IsUnique x.working.inventory
      → place fl env its o x ≡ (ok o', x')
      → get_stock_summary w x'.working.inventory
        ≡ moved (asked w its) (get_stock_summary w x.working.inventory)
  place-moved [] o w x {o'} {x'} u e =
      let same : x' ≡ x = unfold place in cc in
      rw same (moved_zero (get_stock_summary w x.working.inventory))
  place-moved (it ∷ its) o w x u e =
      let (o1, x1, h, e') = place-cons fl env it its o x e in
      let t = x.working.inventory in
      let u1 =
        reserve_tx-IsUnique env.database env.now it.variant_id _ it.quantity t
          (hold_stock-ok it.variant_id it.quantity t h.held).1 u in
      place-moved its o1 w x1 u1 e'
      ∙ ap (moved (asked w its)) (hold_stock-moved it.variant_id it.quantity w t u h.held)
      ∙ moved-moved _ (asked w its) (get_stock_summary w t)
      ∙ ap (λ n. moved n (get_stock_summary w t)) (asked-cons w it its)

  place-IsSound :
      (its : List CreateItem) (o : Order F) (x : Tx F) {o' : Order F} {x' : Tx F}
      → IsSound x.working.inventory
      → place fl env its o x ≡ (ok o', x')
      → IsSound x'.working.inventory
  place-IsSound [] o x {o'} {x'} s e = let same : x' ≡ x = unfold place in cc in rw same s
  place-IsSound (it ∷ its) o x s e =
      let (o1, x1, h, e') = place-cons fl env it its o x e in
      let t = x.working.inventory in
      place-IsSound its o1 x1
        (reserve_tx_keeps env.database env.now it.variant_id _ it.quantity t
          (ground (arith, h.positive)) s (hold_stock-ok it.variant_id it.quantity t h.held).1)
        e'

  -- On a sound stock table, a successful order moves, for every variant w, exactly the units that
  -- its items ask for from available to reserved, with what is incoming left alone; and the table
  -- stays sound: no quantity is below zero and no key has two rows.
  pub create_order_from_items-moved :
      (user cart : Option ℤ) (its : List CreateItem) (ship : ShippingInfo) (w : ℤ) (s : Store F)
      {o : Order F} {s' : Store F}
      → IsSound s.inventory
      → create_order_from_items fl env user cart its ship s ≡ (ok o, s')
      → (get_stock_summary w s'.inventory ≡ moved (asked w its) (get_stock_summary w s.inventory))
        × IsSound s'.inventory
  create_order_from_items-moved user cart its ship w s sound e =
      let c = create_order_from_items-IsCommitted fl env user cart its ship s e in
      let d = draft fl env user cart ship in
      (
        ap (get_stock_summary w) c.stocked ∙ place-moved its d w (begin s) sound.unique c.loop,
        subst IsSound (sym c.stocked) (place-IsSound its d (begin s) sound c.loop),
      )
