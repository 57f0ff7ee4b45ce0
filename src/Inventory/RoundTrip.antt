-- ===== src/Inventory/RoundTrip.antt =====
-- `Release` undoes `Reserve`.
use zentora_backend.Prelude.{
  ℕ, ◌≡◌, inl, inr, true, false, [], ◌∷◌, map, arith, any, All, Bool-cases,
}
use zentora_backend.Prelude.Int.{ℤ, pos, ◌+ℤ◌, ◌-ℤ◌, ◌≤ℤ◌, leb_ℤ, int_laws, +ℤ_parts}
use zentora_backend.Inventory.{
  Item, Table, Database, ok, releases, is_at, update, reserve_tx, release_tx, can_reserve,
  can_release, set_reserved, set_released,
}
use zentora_backend.Inventory.Keys.{IsUnique, update_absent, any_absent, absent_behind}
use zentora_backend.Inventory.Stock.{reserve_tx-ok}

-- A table without its time stamps.
abbrev pub untimed : Table → Table
untimed = map {A = Item} (λ r. record r { updated_at = 0 })

-- No row has a negative reserved quantity.
abbrev pub HasNoDebt : Table → Type 0
HasNoDebt = All (λ r. pos 0 ≤ℤ r.reserved_qty)

sub-add : (a q : ℤ) → a -ℤ q +ℤ q ≡ a
sub-add a q = omega int_laws

add-sub : (a q : ℤ) → a +ℤ q -ℤ q ≡ a
add-sub a q = omega int_laws

module _ (now later : ℕ) (v l q : ℤ) where
  abbrev held : Table → Table
  held = update (can_reserve v l q) (set_reserved now q)

  abbrev freed : Table → Table
  freed = update (can_release v l q) (set_released later q)

  undo :
      (t : Table)
      → IsUnique t
      → HasNoDebt t
      → any (can_reserve v l q) t ≡ true
      → (any (can_release v l q) (held t) ≡ true) × (untimed (freed (held t)) ≡ untimed t)
  undo [] u n h = cc
  undo (r ∷ t) u n h = elim (Bool-cases (is_at v l r)) [
    | inl at ↦ ground (
      arith,
      sub-add r.available_qty q,
      add-sub r.reserved_qty q,
      +ℤ_parts r.reserved_qty q,
      any_absent v l (λ x. leb_ℤ q x.available_qty) t (absent_behind v l r t at u.0),
      update_absent v l (λ x. leb_ℤ q x.available_qty) (set_reserved now q) t
          (absent_behind v l r t at u.0),
      update_absent v l (λ x. leb_ℤ q x.reserved_qty) (set_released later q) t
          (absent_behind v l r t at u.0),
    )
    | inr off ↦ ground (arith, undo t u.1 n.1)
  ]

-- Where keys are unique and no row has a negative reserved quantity, releasing what was just reserved
-- succeeds, unless the database refuses the statement, and gives the table back as it was but for the
-- time stamps.
pub release_tx-reserve_tx :
    (db : Database) (now later : ℕ) (v l q : ℤ) (t : Table) {t' : Table}
    → IsUnique t
    → HasNoDebt t
    → reserve_tx db now v l q t ≡ ok t'
    → db.refuses (releases v l q) t' ≡ false
    → (t'' : Table) × (release_tx db later v l q t' ≡ ok t'') × (untimed t'' ≡ untimed t)
unfolding release_tx
release_tx-reserve_tx db now later v l q t {t'} u n e runs =
    let (hit, e') = reserve_tx-ok db now v l q t e in
    let (found, back) = undo now later v l q t u n hit in
    (freed now later v l q t', ground arith, rw e' back)
