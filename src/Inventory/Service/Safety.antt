-- ===== src/Inventory/Service/Safety.antt =====
-- What every sequence of catalog calls keeps: no quantity goes below zero, and no key is doubled.
use zentora_backend.Prelude.{
  ℕ, ◌≡◌, refl, subst, Bool, true, false, ◌||◌, List, [], ◌∷◌, ◌++◌, arith, any, All, All-append,
  Bool-cases, inl, inr,
}
use zentora_backend.Prelude.Int.{ℤ, pos, ◌≤ℤ◌, +ℤ_parts, -ℤ_parts, ==ℤ_iff}
use zentora_backend.Inventory.{
  Item, Table, Database, Result, ok, err, is_at, update, adjust_available_tx, reserve_tx,
  release_tx, upsert_item_tx, local_tx, adjust_available, reserve, release, upsert_item,
  delete_item, can_adjust, can_reserve, can_release, set_adjusted, set_reserved, set_released,
  set_upserted, remove_at,
}
use zentora_backend.Inventory.Keys.{IsUnique, update-IsUnique}
use zentora_backend.Inventory.Service.{
  Call, upserts, adjusts, reserves, releases, deletes, Moment, reply, step, run, is_valid_upsert,
  upsert_inventory_item, adjust_available_stock, reserve_stock, release_stock,
  delete_inventory_item,
}

abbrev pub IsStocked : Item → Type 0
IsStocked r = (pos 0 ≤ℤ r.available_qty) × (pos 0 ≤ℤ r.reserved_qty) × (pos 0 ≤ℤ r.incoming_qty)

pub record IsSound (t : Table) : Type 0 where
  pub stocked : All IsStocked t
  pub unique : IsUnique t

-- A row keeps its key and stays stocked under a set clause, wherever the test lets it through.
abbrev Keeps : (Item → Bool) → (Item → Item) → Type 0
Keeps hit set = (r : Item) → IsStocked r → hit r ≡ true → IsStocked (set r)

module _ (hit : Item → Bool) (set : Item → Item) where
  update-IsStocked :
      Keeps hit set → (t : Table) → All IsStocked t → All IsStocked (update hit set t)
  update-IsStocked k [] s = tt
  update-IsStocked k (r ∷ t) s = elim (Bool-cases (hit r)) [
    | inl h ↦ rw h (k r s.0 h, update-IsStocked k t s.1)
    | inr h ↦ rw h (s.0, update-IsStocked k t s.1)
  ]

  module _ (same_v : (r : Item) → (set r).variant_id ≡ r.variant_id)
      (same_l : (r : Item) → (set r).location_id ≡ r.location_id) where
    update-IsSound : Keeps hit set → (t : Table) → IsSound t → IsSound (update hit set t)
    update-IsSound k t s = record {
      stocked = update-IsStocked k t s.stocked;
      unique = update-IsUnique hit set same_v same_l t s.unique;
    }

any-append : (p : Item → Bool) (t : Table) (i : Item) → any p (t ++ i ∷ []) ≡ (any p t || p i)
any-append p [] i = ground arith
any-append p (r ∷ t) i = ground (arith, any-append p t i)

append-IsUnique :
    (i : Item) (t : Table)
    → any (is_at i.variant_id i.location_id) t ≡ false
    → IsUnique t
    → IsUnique (t ++ i ∷ [])
append-IsUnique i [] h u = (refl, tt)
append-IsUnique i (r ∷ t) h u = ground (
  arith,
  append-IsUnique i t,
  any-append (is_at r.variant_id r.location_id) t i,
  ==ℤ_iff i.variant_id r.variant_id,
  ==ℤ_iff r.variant_id i.variant_id,
  ==ℤ_iff i.location_id r.location_id,
  ==ℤ_iff r.location_id i.location_id,
)

any-remove_at :
    (p : Item → Bool) (v l : ℤ) (t : Table) → any p t ≡ false → any p (remove_at v l t) ≡ false
any-remove_at p v l [] h = refl
any-remove_at p v l (r ∷ t) h = ground (arith, any-remove_at p v l t)

remove_at-IsSound : (v l : ℤ) (t : Table) → IsSound t → IsSound (remove_at v l t)
remove_at-IsSound v l [] s = s
remove_at-IsSound v l (r ∷ t) s =
    let rest : IsSound (remove_at v l t) =
      remove_at-IsSound v l t (record { stocked = s.stocked.1; unique = s.unique.1 }) in
    elim (Bool-cases (is_at v l r)) [
      | inl h ↦ rw h rest
      | inr h ↦ rw h (record {
        stocked = (s.stocked.0, rest.stocked);
        unique = (any-remove_at (is_at r.variant_id r.location_id) v l t s.unique.0, rest.unique);
      })
    ]

-- An operation either gives a sound table or fails.
abbrev Ensures : Result Table → Type 0
Ensures (ok t) = IsSound t
Ensures (err e) = Unit {0}

module _ (db : Database) (now : ℕ) where
  adjust_available_tx-IsSound :
      (v l d : ℤ) (t : Table) → IsSound t → Ensures (adjust_available_tx db now v l d t)
  unfolding adjust_available_tx
  adjust_available_tx-IsSound v l d t s = ground (
    arith,
    update-IsSound (can_adjust v l d) (set_adjusted now d) (λ r. refl) (λ r. refl)
        (λ r k h. ground arith) t s,
  )

  reserve_tx-IsSound :
      (v l q : ℤ) (t : Table) → pos 0 ≤ℤ q → IsSound t → Ensures (reserve_tx db now v l q t)
  unfolding reserve_tx
  reserve_tx-IsSound v l q t p s = ground (
    arith,
    update-IsSound (can_reserve v l q) (set_reserved now q) (λ r. refl) (λ r. refl)
        (λ r k h. ground (arith, -ℤ_parts r.available_qty q, +ℤ_parts r.reserved_qty q)) t s,
  )

  release_tx-IsSound :
      (v l q : ℤ) (t : Table) → pos 0 ≤ℤ q → IsSound t → Ensures (release_tx db now v l q t)
  unfolding release_tx
  release_tx-IsSound v l q t p s = ground (
    arith,
    update-IsSound (can_release v l q) (set_released now q) (λ r. refl) (λ r. refl)
        (λ r k h. ground (arith, +ℤ_parts r.available_qty q, -ℤ_parts r.reserved_qty q)) t s,
  )

  upsert_item_tx-IsSound :
      (i : Item) (t : Table) → IsStocked i → IsSound t → Ensures (upsert_item_tx db now i t)
  unfolding upsert_item_tx
  upsert_item_tx-IsSound i t k s = ground (
    arith,
    update-IsSound (is_at i.variant_id i.location_id) (set_upserted now i) (λ r. refl) (λ r. refl)
        (λ r _ _. k) t s,
    append-IsUnique (record i { updated_at = now }) t,
    All-append IsStocked t (record i { updated_at = now } ∷ []) s.stocked (k, tt),
  )

  local_tx-IsSound :
      (body : Table → Result Table) (t : Table)
      → Ensures (body t)
      → Ensures (local_tx db now body t)
  unfolding local_tx
  local_tx-IsSound body t h = ground arith

  delete_item-IsSound : (v l : ℤ) (t : Table) → IsSound t → Ensures (delete_item db now v l t)
  unfolding delete_item
  delete_item-IsSound v l t s = ground (arith, remove_at-IsSound v l t s)

is_valid_upsert-IsStocked : (i : Item) → is_valid_upsert i ≡ true → IsStocked i
unfolding is_valid_upsert
is_valid_upsert-IsStocked i h = ground arith

reply-Ensures : (m : Moment) (c : Call) (t : Table) → IsSound t → Ensures (reply m c t)
unfolding reply upsert_inventory_item adjust_available_stock reserve_stock release_stock
    delete_inventory_item upsert_item adjust_available reserve release
reply-Ensures m (upserts i) t s = ground (
  arith,
  is_valid_upsert-IsStocked i,
  upsert_item_tx-IsSound m.db m.now i t,
  local_tx-IsSound m.db m.now (upsert_item_tx m.db m.now i) t,
)
reply-Ensures m (adjusts v l d) t s = ground (
  arith,
  adjust_available_tx-IsSound m.db m.now v l d t,
  local_tx-IsSound m.db m.now (adjust_available_tx m.db m.now v l d) t,
)
reply-Ensures m (reserves v l q) t s = ground (
  arith,
  reserve_tx-IsSound m.db m.now v l q t,
  local_tx-IsSound m.db m.now (reserve_tx m.db m.now v l q) t,
)
reply-Ensures m (releases v l q) t s = ground (
  arith,
  release_tx-IsSound m.db m.now v l q t,
  local_tx-IsSound m.db m.now (release_tx m.db m.now v l q) t,
)
reply-Ensures m (deletes v l) t s = delete_item-IsSound m.db m.now v l t s

step-IsSound : (m : Moment) (c : Call) (t : Table) → IsSound t → IsSound (step (m, c) t)
unfolding step
step-IsSound m c t s = ground (arith, reply-Ensures m c t s)

-- A reservation of a quantity that is not negative keeps the table sound.
pub reserve_tx_keeps :
    (db : Database) (now : ℕ) (v l q : ℤ) (t : Table) {t' : Table}
    → pos 0 ≤ℤ q
    → IsSound t
    → reserve_tx db now v l q t ≡ ok t'
    → IsSound t'
reserve_tx_keeps db now v l q t p s e = subst Ensures e (reserve_tx-IsSound db now v l q t p s)

-- From a sound table, whatever the catalog service is asked, in whatever order and with whatever
-- refusals of the database, no quantity ever goes below zero and no (variant, location) has two rows.
pub run-IsSound : (cs : List (Moment × Call)) (t : Table) → IsSound t → IsSound (run cs t)
unfolding run
run-IsSound [] t s = s
run-IsSound ((m, c) ∷ cs) t s = run-IsSound cs (step (m, c) t) (step-IsSound m c t s)
