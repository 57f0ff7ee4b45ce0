-- ===== src/Inventory/Keys.antt =====
-- The UNIQUE (variant_id, location_id) constraint of `inventory_items`, and what it gives for the
-- rows that one statement reaches.
use zentora_backend.Prelude.{
  ◌≡◌, refl, Bool, true, false, ◌&&◌, [], ◌∷◌, arith, any, Bool-cases, inl, inr,
}
use zentora_backend.Prelude.Int.{ℤ, ==ℤ_iff}
use zentora_backend.Inventory.{Item, Table, is_at, update}

abbrev pub IsUnique : Table → Type 0
IsUnique [] = Unit
IsUnique (r ∷ t) = (any (is_at r.variant_id r.location_id) t ≡ false) × IsUnique t

-- The key of a row that a test reaches.
pub is_at-eq : (v l : ℤ) (r : Item) → is_at v l r ≡ true → (r.variant_id ≡ v) × (r.location_id ≡ l)
is_at-eq v l r h = ground (arith, ==ℤ_iff r.variant_id v, ==ℤ_iff r.location_id l)

module _ (v l : ℤ) (extra : Item → Bool) where
  -- An update reaches nothing where the key is absent.
  pub update_absent :
      (set : Item → Item) (t : Table)
      → any (is_at v l) t ≡ false
      → update (λ r. is_at v l r && extra r) set t ≡ t
  update_absent set [] h = refl
  update_absent set (r ∷ t) h = ground (arith, update_absent set t)

  pub any_absent :
      (t : Table) → any (is_at v l) t ≡ false → any (λ r. is_at v l r && extra r) t ≡ false
  any_absent [] h = refl
  any_absent (r ∷ t) h = ground (arith, any_absent t)

-- Behind a row with the key there is no other.
pub absent_behind :
    (v l : ℤ) (r : Item) (t : Table)
    → is_at v l r ≡ true
    → any (is_at r.variant_id r.location_id) t ≡ false
    → any (is_at v l) t ≡ false
absent_behind v l r t at h = let (e, f) = is_at-eq v l r at in rw (← e, ← f) h

module _ (hit : Item → Bool) (set : Item → Item)
    (same_v : (r : Item) → (set r).variant_id ≡ r.variant_id)
    (same_l : (r : Item) → (set r).location_id ≡ r.location_id) where
  any-update : (v l : ℤ) (t : Table) → any (is_at v l) (update hit set t) ≡ any (is_at v l) t
  any-update v l [] = refl
  any-update v l (r ∷ t) = elim (Bool-cases (hit r)) [
    | inl h ↦ rw (h, same_v r, same_l r, any-update v l t)
    | inr h ↦ rw (h, any-update v l t)
  ]

  -- An update that keeps the keys keeps them unique.
  pub update-IsUnique : (t : Table) → IsUnique t → IsUnique (update hit set t)
  update-IsUnique [] u = tt
  update-IsUnique (r ∷ t) u = elim (Bool-cases (hit r)) [
    | inl h ↦
        rw (h, same_v r, same_l r, any-update r.variant_id r.location_id t)
          (u.0, update-IsUnique t u.1)
    | inr h ↦ rw (h, any-update r.variant_id r.location_id t) (u.0, update-IsUnique t u.1)
  ]
