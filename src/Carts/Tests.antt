-- ===== src/Carts/Tests.antt =====
-- A cart with two variants, one of which is set again.
use zentora_backend.Prelude.{◌≡◌, refl, [], ◌∷◌}
use zentora_backend.Prelude.Int.{ℤ, pos}
use zentora_backend.Text.{lit}
use zentora_backend.Carts.{CartItem, UpsertCartItemInput, Tables, upsert_cart_item, upsert_row}

abbrev item : ℤ → ℤ → CartItem
item id variant = record {
  id = id;
  cart_id = pos 1;
  product_id = pos 2;
  variant_id = variant;
  quantity = pos 1;
  price_at_added = lit "5";
  added_at = 0;
}

abbrev tables : Tables
tables = record { carts = []; cart_items = item (pos 1) (pos 10) ∷ item (pos 2) (pos 20) ∷ [] }

abbrev input : UpsertCartItemInput
input = record {
  product_id = pos 2;
  variant_id = pos 20;
  quantity = pos 3;
  price_at_added = lit "6";
}

-- The row keeps its id.
kept_id :
    (upsert_cart_item (pos 3) 9 (pos 1) input tables).1.cart_items
    ≡ item (pos 1) (pos 10)
      ∷ record (item (pos 2) (pos 20)) { quantity = pos 3; price_at_added = lit "6"; added_at = 9 }
      ∷ []
unfolding upsert_cart_item upsert_row
kept_id = refl
