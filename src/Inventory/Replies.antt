-- ===== src/Inventory/Replies.antt =====
-- When a reservation succeeds, which error it gives otherwise, and how a release undoes it.
use zentora_backend.Prelude.{
  ℕ, ◌≡◌, refl, inl, inr, Bool, true, false, ◌&&◌, Option, none, some, [], ◌∷◌, arith, any,
  Bool-cases, Option-cases, if◌then◌else◌,
}
use zentora_backend.Prelude.Int.{ℤ, leb_ℤ}
use zentora_backend.Inventory.{
  Item, Table, Database, Result, Error, db_failure, missing_or_short, ok, err, item_not_found,
  insufficient_stock, reserves, exists, is_at, update, find_row, reserve_tx, row_exists,
  set_reserved,
}
use zentora_backend.Inventory.Keys.{IsUnique, update_absent, any_absent, absent_behind}

-- The table with another row in the place of the first one at a key.
abbrev pub replace_row : ℤ → ℤ → Item → Table → Table
replace_row v l new [] = []
replace_row v l new (r ∷ t) = if is_at v l r then new ∷ t else r ∷ replace_row v l new t

any-is_at-find_row : (v l : ℤ) (t : Table) → find_row v l t ≡ none → any (is_at v l) t ≡ false
any-is_at-find_row v l [] h = refl
any-is_at-find_row v l (r ∷ t) h = ground (arith, any-is_at-find_row v l t)

module _ (v l : ℤ) (extra : Item → Bool) where
  any_found :
      (t : Table) {r : Item}
      → IsUnique t
      → find_row v l t ≡ some r
      → (any (is_at v l) t ≡ true) × (any (λ x. is_at v l x && extra x) t ≡ extra r)
  any_found [] u e = cc
  any_found (x ∷ t) {r} u e = elim (Bool-cases (is_at v l x)) [
    | inl at ↦ ground (arith, any_absent v l extra t (absent_behind v l x t at u.0))
    | inr off ↦ ground (arith, any_found t {r = r} u.1)
  ]

  update-replace_row :
      (set : Item → Item) (t : Table) {r : Item}
      → IsUnique t
      → find_row v l t ≡ some r
      → extra r ≡ true
      → update (λ x. is_at v l x && extra x) set t ≡ replace_row v l (set r) t
  update-replace_row set [] u e h = cc
  update-replace_row set (x ∷ t) {r} u e h = elim (Bool-cases (is_at v l x)) [
    | inl at ↦ ground (arith, update_absent v l extra set t (absent_behind v l x t at u.0))
    | inr off ↦ ground (arith, update-replace_row set t {r = r} u.1)
  ]

-- What a caller is promised, in terms of the row that GetItemByVariantAndLocation shows.
abbrev pub reservation : ℕ → ℤ → ℤ → ℤ → Table → Option Item → Result Table
reservation now v l q t none = err item_not_found
reservation now v l q t (some r) =
    if leb_ℤ q r.available_qty
    then ok (replace_row v l (set_reserved now q r) t)
    else err insufficient_stock

-- Where keys are unique, a reservation that the database does not refuse answers by the row that
-- GetItemByVariantAndLocation shows: no row is ErrItemNotFound, too little available is
-- ErrInsufficientStock, and otherwise only that row changes, q of it moved to its reserved quantity.
pub reserve_tx-reservation :
    (db : Database) (now : ℕ) (v l q : ℤ) (t : Table)
    → IsUnique t
    → db.refuses (reserves v l q) t ≡ false
    → db.refuses (exists v l) t ≡ false
    → reserve_tx db now v l q t ≡ reservation now v l q t (find_row v l t)
unfolding reserve_tx row_exists
reserve_tx-reservation db now v l q t u runs checks = elim (Option-cases (find_row v l t)) [
  | inl e ↦
      rw (e, reservation)
        (ground
          (arith, any-is_at-find_row v l t e, any_absent v l (λ r. leb_ℤ q r.available_qty) t))
  | inr (r, e) ↦
      rw (e, reservation)
        (ground (
          arith,
          any_found v l (λ x. leb_ℤ q x.available_qty) t u e,
          update-replace_row v l (λ x. leb_ℤ q x.available_qty) (set_reserved now q) t u e,
        ))
]

-- Too little available fails, whatever the database does.
pub reserve_tx_short :
    (db : Database) (now : ℕ) (v l q : ℤ) (t : Table) {r : Item}
    → IsUnique t
    → find_row v l t ≡ some r
    → leb_ℤ q r.available_qty ≡ false
    → (e : Error) × (reserve_tx db now v l q t ≡ err e)
unfolding reserve_tx
reserve_tx_short db now v l q t u e short =
    let none_fits = (any_found v l (λ x. leb_ℤ q x.available_qty) t u e).1 in
    elim (Bool-cases (db.refuses (reserves v l q) t)) [
      | inl refused ↦ (db_failure, ground arith)
      | inr runs ↦ (missing_or_short db now v l t, ground (arith, none_fits))
    ]
