-- ===== src/Order/Checkout/Status.antt =====
-- The admin's change of an order's status, among the other orders.
use zentora_backend.Prelude.{
  ℕ, ◌≡◌, refl, ap, ◌∙◌, inl, inr, Bool, true, false, none, some, List, [], ◌∷◌, arith, Bool-cases,
  Option-cases,
}
use zentora_backend.Prelude.Int.{ℤ, pos, ◌==ℤ◌, leb_ℤ, ==ℤ_iff}
use zentora_backend.Text.{Text}
use zentora_backend.Order.{Order, OrderStatus, ok, err, failure}
use zentora_backend.Order.Checkout.{parse_status, set_status, find_order, update_order_status}

module _ {F : Type 0} where
  abbrev pub restamped : ℕ → OrderStatus → Order F → Order F
  restamped now st o = record o { status = st; updated_at = now }

  find_order-set_status :
      (now : ℕ) (id : ℤ) (st : OrderStatus) (os : List (Order F)) {o : Order F}
      → find_order id os ≡ some o
      → find_order id (set_status now id st os) ≡ some (restamped now st o)
  find_order-set_status now id st [] e = cc
  find_order-set_status now id st (x ∷ os) {o} e = elim (Bool-cases (x.id ==ℤ id)) [
    | inl h ↦ ground arith
    | inr h ↦ ground (arith, find_order-set_status now id st os {o = o} (ground arith))
  ]

  find_order-set_status_missing :
      (now : ℕ) (id : ℤ) (st : OrderStatus) (os : List (Order F))
      → find_order id os ≡ none
      → find_order id (set_status now id st os) ≡ none
  find_order-set_status_missing now id st [] e = refl
  find_order-set_status_missing now id st (x ∷ os) e = elim (Bool-cases (x.id ==ℤ id)) [
    | inl h ↦ ground arith
    | inr h ↦ ground (arith, find_order-set_status_missing now id st os (ground arith))
  ]

  find_order-set_status_other :
      (now : ℕ) (id j : ℤ) (st : OrderStatus) (os : List (Order F))
      → (j ==ℤ id) ≡ false
      → find_order j (set_status now id st os) ≡ find_order j os
  find_order-set_status_other now id j st [] e = refl
  find_order-set_status_other now id j st (x ∷ os) e = elim (Bool-cases (x.id ==ℤ id)) [
    | inl h ↦ ground (
      arith,
      find_order-set_status_other now id j st os e,
      ==ℤ_iff x.id id,
      ==ℤ_iff x.id j,
      ==ℤ_iff j id,
    )
    | inr h ↦ ground (arith, find_order-set_status_other now id j st os e)
  ]

  -- The order that UpdateOrderStatus returns is the stored one: the order of before with the named
  -- status and the new time, and every other field as it was.
  pub update_order_status-find_order :
      (runs reads : Bool) (now : ℕ) (id : ℤ) (status : Text) (os : List (Order F)) {o : Order F}
      {os' : List (Order F)}
      → update_order_status runs reads now id status os ≡ (ok o, os')
      → (before : Order F) × (st : OrderStatus) × (find_order id os ≡ some before)
        × (parse_status status ≡ some st)
        × (o ≡ restamped now st before)
        × (find_order id os' ≡ some o)
  unfolding update_order_status
  update_order_status-find_order runs reads now id status os {o} {os'} e =
      elim (Option-cases (parse_status status)) [
        | inl bad ↦ absurd (ground arith)
        | inr (st, good) ↦ elim (Option-cases (find_order id os)) [
          | inl lost ↦ absurd (ground (arith, find_order-set_status_missing now id st os lost))
          | inr (b, held) ↦
              let stored = find_order-set_status now id st os held in
              (b, st, held, good, ground (arith, stored), ground (arith, stored))
        ]
      ]

  -- Whatever UpdateOrderStatus answers, an error included, no other order changes.
  pub update_order_status_others :
      (runs reads : Bool) (now : ℕ) (id j : ℤ) (status : Text) (os : List (Order F))
      → (j ==ℤ id) ≡ false
      → find_order j (update_order_status runs reads now id status os).1 ≡ find_order j os
  unfolding update_order_status
  update_order_status_others runs reads now id j status os e =
      elim (Option-cases (parse_status status)) [
        | inl bad ↦ ground arith
        | inr (st, good) ↦ elim (Option-cases (find_order id (set_status now id st os))) [
          | inl lost ↦ ground (arith, find_order-set_status_other now id j st os e)
          | inr (b, held) ↦ ground (arith, find_order-set_status_other now id j st os e)
        ]
      ]

  unread :
      (now : ℕ) (id : ℤ) (status : Text) (st : OrderStatus) (os : List (Order F)) (before : Order F)
      → parse_status status ≡ some st
      → leb_ℤ id (pos 0) ≡ false
      → find_order id os ≡ some before
      → update_order_status true false now id status os
        ≡ (err failure, (update_order_status true true now id status os).1)
  unfolding update_order_status
  unread now id status st os before good positive found =
      let stored = find_order-set_status now id st os found in ground (arith, stored)

  -- Where UpdateOrderStatus would answer with an order, the same call reports an error if only the
  -- order's items cannot be read back, and leaves the same table, which holds that order.
  pub update_order_status_unread :
      (now : ℕ) (id : ℤ) (status : Text) (os : List (Order F)) {o : Order F} {os' : List (Order F)}
      → update_order_status true true now id status os ≡ (ok o, os')
      → (update_order_status true false now id status os ≡ (err failure, os'))
        × (find_order id os' ≡ some o)
  unfolding update_order_status
  update_order_status_unread now id status os {o} {os'} e =
      let (before, st, held, good, same, stored) =
        update_order_status-find_order true true now id status os e in
      elim (Bool-cases (leb_ℤ id (pos 0))) [
        | inl low ↦ absurd (ground (arith, good))
        | inr high ↦ (
          unread now id status st os before good high held ∙ ap (λ r. (err failure, r.1)) e,
          stored,
        )
      ]
