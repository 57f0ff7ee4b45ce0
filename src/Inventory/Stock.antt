-- ===== src/Inventory/Stock.antt =====
-- What the updates of one key do to the sums of `GetStockSummary`.
use zentora_backend.Prelude.{
  ℕ, ◌≡◌, refl, sym, ◌∙◌, ◌≢◌, inl, inr, Bool, true, ◌&&◌, [], ◌∷◌, arith, any, Bool-cases,
}
use zentora_backend.Prelude.Int.{
  ℤ, pos, leb_ℤ, ◌+ℤ◌, ◌-ℤ◌, ==ℤ_iff, +ℤ_assoc, +ℤ_right_comm, +ℤ_zero, negate, sub-eq-add_negate,
}
use zentora_backend.Inventory.{
  Item, Table, Database, ok, is_at, update, sum_of, get_stock_summary, reserve_tx, release_tx,
  can_reserve, can_release, set_reserved, set_released,
}
use zentora_backend.Inventory.Keys.{
  IsUnique, update-IsUnique, is_at-eq, update_absent, any_absent, absent_behind,
}

module _ (qty : Item → ℤ) (set : Item → Item)
    (keeps : (r : Item) → (set r).variant_id ≡ r.variant_id) where
  module _ (d : ℤ) (gains : (r : Item) → qty (set r) ≡ qty r +ℤ d) where
    sum_of-update :
        (v l : ℤ) (extra : Item → Bool) (t : Table)
        → IsUnique t
        → any (λ r. is_at v l r && extra r) t ≡ true
        → sum_of qty v (update (λ r. is_at v l r && extra r) set t) ≡ sum_of qty v t +ℤ d
    sum_of-update v l extra [] u h = cc
    sum_of-update v l extra (r ∷ t) u h = elim (Bool-cases (is_at v l r)) [
      | inl at ↦ ground (
        arith,
        is_at-eq v l r at,
        keeps r,
        gains r,
        ==ℤ_iff r.variant_id v,
        update_absent v l extra set t (absent_behind v l r t at u.0),
        any_absent v l extra t (absent_behind v l r t at u.0),
        +ℤ_right_comm (qty r) d (sum_of qty v t),
      )
      | inr off ↦ ground (arith, sum_of-update v l extra t u.1, +ℤ_assoc (qty r) (sum_of qty v t) d)
    ]

  sum_of-update_other :
      (v w l : ℤ) (extra : Item → Bool) (t : Table)
      → w ≢ v
      → sum_of qty w (update (λ r. is_at v l r && extra r) set t) ≡ sum_of qty w t
  sum_of-update_other v w l extra [] ne = refl
  sum_of-update_other v w l extra (r ∷ t) ne = ground (
    arith,
    keeps r,
    ==ℤ_iff r.variant_id v,
    ==ℤ_iff r.variant_id w,
    sum_of-update_other v w l extra t,
  )

pub reserve_tx-ok :
    (db : Database) (now : ℕ) (v l q : ℤ) (t : Table) {t' : Table}
    → reserve_tx db now v l q t ≡ ok t'
    → (any (can_reserve v l q) t ≡ true) × (t' ≡ update (can_reserve v l q) (set_reserved now q) t)
unfolding reserve_tx
reserve_tx-ok db now v l q t e = ground arith

pub release_tx-ok :
    (db : Database) (now : ℕ) (v l q : ℤ) (t : Table) {t' : Table}
    → release_tx db now v l q t ≡ ok t'
    → (any (can_release v l q) t ≡ true) × (t' ≡ update (can_release v l q) (set_released now q) t)
unfolding release_tx
release_tx-ok db now v l q t e = ground arith

module _ (db : Database) (now : ℕ) (v l q : ℤ) (t : Table) {t' : Table}
    (e : reserve_tx db now v l q t ≡ ok t') where
  pub reserve_tx-IsUnique : IsUnique t → IsUnique t'
  reserve_tx-IsUnique u =
      rw (reserve_tx-ok db now v l q t e).1
        (update-IsUnique (can_reserve v l q) (set_reserved now q) (λ r. refl) (λ r. refl) t u)

  pub reserve_tx_own :
      IsUnique t
      → get_stock_summary v t' ≡ record {
        available_qty = (get_stock_summary v t).available_qty -ℤ q;
        reserved_qty = (get_stock_summary v t).reserved_qty +ℤ q;
        incoming_qty = (get_stock_summary v t).incoming_qty;
      }
  unfolding get_stock_summary
  reserve_tx_own u =
      let (hit, e') = reserve_tx-ok db now v l q t e in
      let moved =
        λ (qty : Item → ℤ) (d : ℤ) (g : (r : Item) → qty (set_reserved now q r) ≡ qty r +ℤ d).
          sum_of-update qty (set_reserved now q) (λ r. refl) d g v l (λ r. leb_ℤ q r.available_qty)
            t u hit in
      rw e' (λ i. record {
        available_qty =
            (moved (λ r. r.available_qty) (negate q) (λ r. sub-eq-add_negate r.available_qty q)
                ∙ sym (sub-eq-add_negate _ q))
              i;
        reserved_qty = moved (λ r. r.reserved_qty) q (λ r. refl) i;
        incoming_qty =
            (moved (λ r. r.incoming_qty) (pos 0) (λ r. sym (+ℤ_zero r.incoming_qty)) ∙ +ℤ_zero _) i;
      })

  pub reserve_tx_other : (w : ℤ) → w ≢ v → get_stock_summary w t' ≡ get_stock_summary w t
  unfolding get_stock_summary
  reserve_tx_other w ne =
      let (hit, e') = reserve_tx-ok db now v l q t e in
      let same = λ (qty : Item → ℤ).
        sum_of-update_other qty (set_reserved now q) (λ r. refl) v w l
          (λ r. leb_ℤ q r.available_qty) t ne in
      rw e' (λ i. record {
        available_qty = same (λ r. r.available_qty) i;
        reserved_qty = same (λ r. r.reserved_qty) i;
        incoming_qty = same (λ r. r.incoming_qty) i;
      })

-- Where keys are unique, a successful reservation moves exactly q from the variant's available stock to its reserved
-- stock, and leaves what is incoming and the summary of any other variant w as they were.
pub get_stock_summary-reserve_tx :
    (db : Database) (now : ℕ) (v l q w : ℤ) (t : Table) {t' : Table}
    → IsUnique t
    → w ≢ v
    → reserve_tx db now v l q t ≡ ok t'
    → (get_stock_summary v t' ≡ record {
      available_qty = (get_stock_summary v t).available_qty -ℤ q;
      reserved_qty = (get_stock_summary v t).reserved_qty +ℤ q;
      incoming_qty = (get_stock_summary v t).incoming_qty;
    })
      × (get_stock_summary w t' ≡ get_stock_summary w t)
get_stock_summary-reserve_tx db now v l q w t u ne e =
    (reserve_tx_own db now v l q t e u, reserve_tx_other db now v l q t e w ne)
