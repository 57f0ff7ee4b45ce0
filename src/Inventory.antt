-- ===== src/Inventory.antt =====
-- The inventory repository (internal/repository/postgres/inventory_repo.go) over the table
-- `inventory_items`, a list of rows. Each SQL statement is a function on the rows; quantities are
-- integers, as the statements may be called with any Go int.
pub mod Keys
pub mod Stock
pub mod Replies
pub mod RoundTrip
pub mod Service
mod Tests
use zentora_backend.Prelude.{
  ℕ, Bool, ◌&&◌, not, Option, none, some, List, [], ◌∷◌, ◌++◌, map, any, if◌then◌else◌,
}
use zentora_backend.Prelude.Int.{ℤ, pos, ◌+ℤ◌, ◌-ℤ◌, ◌==ℤ◌, leb_ℤ}

pub record Item : Type 0 where
  pub id : ℤ
  pub variant_id : ℤ
  pub location_id : ℤ
  pub available_qty : ℤ
  pub reserved_qty : ℤ
  pub incoming_qty : ℤ
  pub updated_at : ℕ

abbrev pub Table : Type 0
Table = List Item

pub data Error : Type 0 where
  item_not_found insufficient_stock location_not_found invalid_quantity db_failure : Error

pub data Result {ℓ} (A : Type ℓ) : Type ℓ where
  ok : A → Result A
  err : Error → Result A

pub data Statement : Type 0 where
  adjusts reserves releases : ℤ → ℤ → ℤ → Statement
  upserts : Item → Statement
  finds exists deletes : ℤ → ℤ → Statement

-- What the database may do by itself: refuse a statement (a lost connection, a number out of the
-- column's range, a constraint), fail to begin a transaction or fail to commit one.
pub record Database : Type 0 where
  pub refuses : Statement → Table → Bool
  pub begin_fails : Bool
  pub commit_fails : Table → Bool

-- `WHERE variant_id = … AND location_id = …`
abbrev pub is_at : ℤ → ℤ → Item → Bool
is_at v l r = r.variant_id ==ℤ v && r.location_id ==ℤ l

-- `UPDATE … SET … WHERE …`
abbrev pub update : (Item → Bool) → (Item → Item) → Table → Table
update hit set = map (λ r. if hit r then set r else r)

abbrev pub can_adjust : ℤ → ℤ → ℤ → Item → Bool
can_adjust v l d r = is_at v l r && leb_ℤ (pos 0) (r.available_qty +ℤ d)

abbrev pub can_reserve : ℤ → ℤ → ℤ → Item → Bool
can_reserve v l q r = is_at v l r && leb_ℤ q r.available_qty

abbrev pub can_release : ℤ → ℤ → ℤ → Item → Bool
can_release v l q r = is_at v l r && leb_ℤ q r.reserved_qty

abbrev pub set_adjusted : ℕ → ℤ → Item → Item
set_adjusted now d r = record r { available_qty = r.available_qty +ℤ d; updated_at = now }

abbrev pub set_reserved : ℕ → ℤ → Item → Item
set_reserved now q r = record r {
  available_qty = r.available_qty -ℤ q;
  reserved_qty = r.reserved_qty +ℤ q;
  updated_at = now;
}

abbrev pub set_released : ℕ → ℤ → Item → Item
set_released now q r = record r {
  available_qty = r.available_qty +ℤ q;
  reserved_qty = r.reserved_qty -ℤ q;
  updated_at = now;
}

abbrev pub set_upserted : ℕ → Item → Item → Item
set_upserted now item r = record r {
  available_qty = item.available_qty;
  reserved_qty = item.reserved_qty;
  incoming_qty = item.incoming_qty;
  updated_at = now;
}

-- `DELETE … WHERE …`
abbrev pub remove_at : ℤ → ℤ → Table → Table
remove_at v l [] = []
remove_at v l (r ∷ t) = let rest = remove_at v l t in if is_at v l r then rest else r ∷ rest

module _ (db : Database) (now : ℕ) where
  -- The second query, whose error is dropped: a refused query reads as "no row".
  pub row_exists : ℤ → ℤ → Table → Bool
  row_exists v l t = not (db.refuses (exists v l) t) && any (is_at v l) t

  abbrev pub missing_or_short : ℤ → ℤ → Table → Error
  missing_or_short v l t = if row_exists v l t then insufficient_stock else item_not_found

  pub adjust_available_tx : ℤ → ℤ → ℤ → Table → Result Table
  adjust_available_tx v l d t =
      if db.refuses (adjusts v l d) t
      then err db_failure
      else if any (can_adjust v l d) t
      then ok (update (can_adjust v l d) (set_adjusted now d) t)
      else err (missing_or_short v l t)

  unfoldable pub reserve_tx : ℤ → ℤ → ℤ → Table → Result Table
  reserve_tx v l q t =
      if db.refuses (reserves v l q) t
      then err db_failure
      else if any (can_reserve v l q) t
      then ok (update (can_reserve v l q) (set_reserved now q) t)
      else err (missing_or_short v l t)

  pub release_tx : ℤ → ℤ → ℤ → Table → Result Table
  release_tx v l q t =
      if db.refuses (releases v l q) t
      then err db_failure
      else if any (can_release v l q) t
      then ok (update (can_release v l q) (set_released now q) t)
      else err item_not_found

  -- `defer Rollback`, the statement, then `Commit`: only a commit shows the new rows.
  pub local_tx : (Table → Result Table) → Table → Result Table
  local_tx body t = if db.begin_fails then err db_failure else elim (body t) [
    | err e ↦ err e
    | ok t' ↦ if db.commit_fails t' then err db_failure else ok t'
  ]

  -- The flag says whether the caller passed its own transaction.
  abbrev in_tx : Bool → (Table → Result Table) → Table → Result Table
  in_tx own body t = if own then body t else local_tx body t

  pub adjust_available : Bool → ℤ → ℤ → ℤ → Table → Result Table
  adjust_available own v l d = in_tx own (adjust_available_tx v l d)

  pub reserve : Bool → ℤ → ℤ → ℤ → Table → Result Table
  reserve own v l q = in_tx own (reserve_tx v l q)

  pub release : Bool → ℤ → ℤ → ℤ → Table → Result Table
  release own v l q = in_tx own (release_tx v l q)

  -- `INSERT … ON CONFLICT (variant_id, location_id) DO UPDATE SET …`; `item.id` is the number that
  -- the sequence gives to a new row.
  pub upsert_item_tx : Item → Table → Result Table
  upsert_item_tx item t =
      if db.refuses (upserts item) t
      then err db_failure
      else if any (is_at item.variant_id item.location_id) t
      then ok (update (is_at item.variant_id item.location_id) (set_upserted now item) t)
      else ok (t ++ record item { updated_at = now } ∷ [])

  pub upsert_item : Bool → Item → Table → Result Table
  upsert_item own item = in_tx own (upsert_item_tx item)

  pub delete_item : ℤ → ℤ → Table → Result Table
  delete_item v l t =
      if db.refuses (deletes v l) t
      then err db_failure
      else if any (is_at v l) t
      then ok (remove_at v l t)
      else err item_not_found

-- The first row that a query on the key returns.
abbrev pub find_row : ℤ → ℤ → Table → Option Item
find_row v l [] = none
find_row v l (r ∷ t) = if is_at v l r then some r else find_row v l t

pub get_item_by_variant_and_location : Database → ℤ → ℤ → Table → Result Item
get_item_by_variant_and_location db v l t =
    if db.refuses (finds v l) t
    then err db_failure
    else elim (find_row v l t) [ none ↦ err item_not_found | some r ↦ ok r ]

-- `GetStockSummary`: the sums over the rows of one variant.
pub record StockSummary : Type 0 where
  pub available_qty : ℤ
  pub reserved_qty : ℤ
  pub incoming_qty : ℤ

abbrev pub sum_of : (Item → ℤ) → ℤ → Table → ℤ
sum_of qty v [] = pos 0
sum_of qty v (r ∷ t) =
    let rest = sum_of qty v t in if r.variant_id ==ℤ v then qty r +ℤ rest else rest

pub get_stock_summary : ℤ → Table → StockSummary
get_stock_summary v t = record {
  available_qty = sum_of (λ r. r.available_qty) v t;
  reserved_qty = sum_of (λ r. r.reserved_qty) v t;
  incoming_qty = sum_of (λ r. r.incoming_qty) v t;
}
