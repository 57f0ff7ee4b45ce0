-- ===== src/Inventory/Tests.antt =====
-- A small stock, and the theorems at it.
use zentora_backend.Prelude.{◌≡◌, refl, false, List, [], ◌∷◌, arith}
use zentora_backend.Prelude.Int.{pos, negsuc, ◌+ℤ◌, ◌-ℤ◌}
use zentora_backend.Inventory.{
  Item, Table, Database, ok, err, insufficient_stock, reserve_tx, release_tx, get_stock_summary,
}
use zentora_backend.Inventory.Stock.{get_stock_summary-reserve_tx}
use zentora_backend.Inventory.Replies.{reserve_tx-reservation}
use zentora_backend.Inventory.RoundTrip.{untimed, release_tx-reserve_tx}
use zentora_backend.Inventory.Service.{Moment, Call, reserves, releases, adjusts, run}
use zentora_backend.Inventory.Service.Safety.{IsSound, run-IsSound}

abbrev willing : Database
willing = record { refuses = λ s t. false; begin_fails = false; commit_fails = λ t. false }

abbrev shirt_here : Item
shirt_here = record {
  id = pos 1;
  variant_id = pos 7;
  location_id = pos 1;
  available_qty = pos 5;
  reserved_qty = pos 1;
  incoming_qty = pos 0;
  updated_at = 0;
}

abbrev shirt_there : Item
shirt_there = record shirt_here { id = pos 2; location_id = pos 2; available_qty = pos 2 }

abbrev mug : Item
mug = record shirt_here { id = pos 3; variant_id = pos 8 }

abbrev stock : Table
stock = shirt_here ∷ shirt_there ∷ mug ∷ []

abbrev held_stock : Table
held_stock =
    record shirt_here { available_qty = pos 2; reserved_qty = pos 4; updated_at = 9 }
    ∷ shirt_there
    ∷ mug
    ∷ []

held : reserve_tx willing 9 (pos 7) (pos 1) (pos 3) stock ≡ ok held_stock
unfolding reserve_tx ◌-ℤ◌ ◌+ℤ◌
held = refl

get_stock_summary-reserve_tx_example :
    (get_stock_summary (pos 7) held_stock
      ≡ record { available_qty = pos 4; reserved_qty = pos 5; incoming_qty = pos 0 })
    × (get_stock_summary (pos 8) held_stock ≡ get_stock_summary (pos 8) stock)
unfolding get_stock_summary ◌+ℤ◌ ◌-ℤ◌
get_stock_summary-reserve_tx_example =
    get_stock_summary-reserve_tx willing 9 (pos 7) (pos 1) (pos 3) (pos 8) stock (ground arith)
      (ground arith) held

reserve_tx-reservation_example :
    reserve_tx willing 9 (pos 7) (pos 2) (pos 3) stock ≡ err insufficient_stock
reserve_tx-reservation_example =
    reserve_tx-reservation willing 9 (pos 7) (pos 2) (pos 3) stock (ground arith) refl refl

release_tx-reserve_tx_example :
    (t'' : Table) × (release_tx willing 12 (pos 7) (pos 1) (pos 3) held_stock ≡ ok t'')
    × (untimed t'' ≡ untimed stock)
release_tx-reserve_tx_example =
    release_tx-reserve_tx willing 9 12 (pos 7) (pos 1) (pos 3) stock (ground arith) (omega arith)
      held refl

abbrev moment : Moment
moment = record { db = willing; get_location = λ l. ok tt; now = 3 }

abbrev rush : List (Moment × Call)
rush =
    (moment, reserves (pos 7) (pos 1) (pos 4))
    ∷ (moment, reserves (pos 7) (pos 1) (pos 4))
    ∷ (moment, releases (pos 7) (pos 1) (pos 2))
    ∷ (moment, adjusts (pos 8) (pos 1) (negsuc 20))
    ∷ (moment, reserves (pos 8) (pos 1) (negsuc 3))
    ∷ []

run-IsSound_example : IsSound (run rush stock)
run-IsSound_example =
    run-IsSound rush stock (record { stocked = omega arith; unique = ground arith })
