-- ===== src/Merchant/Tests.antt =====
-- A small feed, and the theorems at it.
use zentora_backend.Prelude.{
  ℕ, ◌≡◌, ◌≢◌, refl, true, false, Option, some, List, [], ◌∷◌, arith, All, if◌then◌else◌,
  Bool-cases, inl, inr,
}
use zentora_backend.Prelude.Int.{ℤ, pos, ◌==ℤ◌, ==ℤ_iff, ltb_ℤ, leb_ℤ}
use zentora_backend.Text.{Text, lit, text_eq, trim_space, trim_left, trim_right, is_space}
use zentora_backend.Text.Decimal.{itoa, digits, digits_in}
use zentora_backend.Merchant.{FeedItem, format, two_digits, is_availability, is_condition}
use zentora_backend.Merchant.Normalise.{
  normalise_item, normalise_url, deduplicate_images, add_images, normalise_title,
  normalise_description, collapse_blanks, collapse_newlines, squeeze, is_valid_feed_item,
  resolve_link,
}
use zentora_backend.Merchant.Normalise.Listed.{IsListed}
use zentora_backend.Merchant.Generator.{Batch, done, out_of_fuel, run, loop, sift, judge, prepared}
use zentora_backend.Merchant.Generator.Runs.{count_items, IsKeyset, run-IsListed, run_ends}

printed : format (record { amount_cents = pos 1905; currency = lit "KES" }) ≡ lit "19.05 KES"
unfolding format two_digits itoa digits digits_in
printed = refl

abbrev shirt : FeedItem
shirt = record {
  id = lit "3-7";
  title = lit " Shirt   blue";
  description = [];
  link = lit "__STORE_URL__/products/shirt";
  image_link = lit "http://cdn.example/1";
  availability = lit "in_stock";
  price = lit "2.50 KES";
  condition = lit "new";
  brand = lit "Acme";
  gtin = [];
  mpn = [];
  item_group_id = lit "product-3";
  sale_price = lit "2.50 KES";
  sale_price_effective_date = [];
  additional_image_links = lit "https://cdn.example/1" ∷ lit "http://cdn.example/2" ∷ [];
  google_product_category = [];
  product_type = [];
  color = [];
  size = [];
  gender = [];
  age_group = [];
  material = [];
  pattern_ = [];
  shipping_weight = lit "1 g";
  shipping = [];
  identifier_exists = lit "no";
  custom_label_0 = [];
  custom_label_1 = [];
  custom_label_2 = [];
  custom_label_3 = [];
  custom_label_4 = [];
  mobile_link = [];
  energy_efficiency_class = [];
  unit_pricing_measure = [];
  unit_pricing_base_measure = [];
  multipack = pos 1;
  adult = lit "no";
  expiration_date = [];
  availability_date = [];
  cost_of_goods_sold = [];
  ads_redirect = [];
  pickup_method = [];
  pickup_sla = [];
}

abbrev listed_shirt : FeedItem
listed_shirt = record shirt {
  title = lit "Shirt blue";
  link = lit "https://shop.example/products/shirt";
  mobile_link = lit "https://shop.example/products/shirt";
  image_link = lit "https://cdn.example/1";
  identifier_exists = [];
  sale_price = [];
  additional_image_links = lit "https://cdn.example/2" ∷ [];
  shipping_weight = [];
  multipack = pos 0;
  adult = [];
}

-- Two pages: a shirt and one without a picture, then one without a price.
abbrev page : ℤ → Option Batch
page c =
    if c ==ℤ pos 0
    then some (record {
      items = shirt ∷ record shirt { image_link = lit "ftp://cdn.example/1" } ∷ [];
      total_count = pos 0;
      next_cursor = pos 8;
      has_more = true;
    })
    else some (record {
      items = record shirt { price = [] } ∷ [];
      total_count = pos 0;
      next_cursor = pos 9;
      has_more = false;
    })

abbrev feed : List Batch
feed =
    record { items = listed_shirt ∷ []; total_count = pos 3; next_cursor = pos 8; has_more = true }
    ∷ record { items = []; total_count = pos 3; next_cursor = pos 9; has_more = false }
    ∷ []

abbrev shop_url : Text
shop_url = lit "https://shop.example"

runs :
    run text_eq shop_url (some (pos 3)) page 10
    ≡ done feed (record { valid_count = 1; invalid_count = 1; skipped_no_img = 1 })
unfolding run loop sift judge prepared normalise_item normalise_url deduplicate_images add_images
    normalise_title normalise_description collapse_blanks collapse_newlines squeeze
    is_valid_feed_item resolve_link is_availability is_condition trim_space trim_left trim_right
    is_space
runs = refl

run-IsListed_example : All (λ b. All IsListed b.items) feed × (◌≡◌ {A = ℕ} 1 (count_items feed))
run-IsListed_example = run-IsListed text_eq shop_url (some (pos 3)) page 10 runs

page_advances :
    (cursor : ℤ) (b : Batch)
    → page cursor ≡ some b
    → b.has_more ≡ true
    → (ltb_ℤ cursor b.next_cursor ≡ true) × (leb_ℤ b.next_cursor (pos 9) ≡ true)
page_advances cursor b e h = elim (Bool-cases (cursor ==ℤ pos 0)) [
  | inl first ↦
      let here : b.next_cursor ≡ pos 8 = ground arith in
      rw ((==ℤ_iff cursor (pos 0)).0 first, here) (refl, refl)
  | inr second ↦ absurd (ground arith)
]

page-IsKeyset : IsKeyset text_eq shop_url (some (pos 3)) page 9
page-IsKeyset = record { advances = page_advances }

run_ends_example : run text_eq shop_url (some (pos 3)) page 10 ≢ out_of_fuel
run_ends_example = run_ends text_eq shop_url (some (pos 3)) page 9 page-IsKeyset
