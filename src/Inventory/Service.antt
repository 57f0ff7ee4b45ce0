-- ===== src/Inventory/Service.antt =====
-- The stock operations of the catalog service (internal/service/catalog/inventory.go), and any
-- sequence of them: each is one atomic step on the table, whoever calls it and in whatever order.
pub mod Safety
use zentora_backend.Prelude.{ℕ, Bool, true, false, ◌||◌, List, [], ◌∷◌, if◌then◌else◌}
use zentora_backend.Prelude.Int.{ℤ, pos, leb_ℤ, ltb_ℤ}
use zentora_backend.Inventory.{
  Item, Table, Database, Result, ok, err, location_not_found, invalid_quantity, adjust_available,
  reserve, release, upsert_item, delete_item, get_item_by_variant_and_location,
}

-- `UpsertItemRequest.Validate`
pub is_valid_upsert : Item → Bool
is_valid_upsert i =
    if ltb_ℤ i.available_qty (pos 0) || ltb_ℤ i.reserved_qty (pos 0) || ltb_ℤ i.incoming_qty (pos 0)
    then false
    else true

module _ (db : Database) (get_location : ℤ → Result (Unit {0})) (now : ℕ) where
  pub upsert_inventory_item : Item → Table → Result Table
  unfolding is_valid_upsert
  upsert_inventory_item i t =
      if is_valid_upsert i
      then elim (get_location i.location_id) [ err e ↦ err e | ok _ ↦ upsert_item db now false i t ]
      else err invalid_quantity

  pub adjust_available_stock : ℤ → ℤ → ℤ → Table → Result Table
  adjust_available_stock v l delta t = elim (get_item_by_variant_and_location db v l t) [
    | err e ↦ err e
    | ok _ ↦ adjust_available db now false v l delta t
  ]

  pub reserve_stock : ℤ → ℤ → ℤ → Table → Result Table
  reserve_stock v l q t =
      if leb_ℤ q (pos 0) then err invalid_quantity else reserve db now false v l q t

  pub release_stock : ℤ → ℤ → ℤ → Table → Result Table
  release_stock v l q t =
      if leb_ℤ q (pos 0) then err invalid_quantity else release db now false v l q t

  pub delete_inventory_item : ℤ → ℤ → Table → Result Table
  delete_inventory_item v l t = delete_item db now v l t

pub data Call : Type 0 where
  upserts : Item → Call
  adjusts reserves releases : ℤ → ℤ → ℤ → Call
  deletes : ℤ → ℤ → Call

-- A call that fails leaves the table as it was.
abbrev pub after : Table → Result Table → Table
after t (ok t') = t'
after t (err e) = t

-- The database may behave otherwise at each call; `get_location` is GetLocationByID, which may fail too.
pub record Moment : Type 0 where
  pub db : Database
  pub get_location : ℤ → Result (Unit {0})
  pub now : ℕ

pub reply : Moment → Call → Table → Result Table
reply m (upserts i) = upsert_inventory_item m.db m.get_location m.now i
reply m (adjusts v l d) = adjust_available_stock m.db m.get_location m.now v l d
reply m (reserves v l q) = reserve_stock m.db m.get_location m.now v l q
reply m (releases v l q) = release_stock m.db m.get_location m.now v l q
reply m (deletes v l) = delete_inventory_item m.db m.get_location m.now v l

pub step : Moment × Call → Table → Table
step (m, c) t = after t (reply m c t)

pub run : List (Moment × Call) → Table → Table
run [] t = t
run (c ∷ cs) t = run cs (step c t)
