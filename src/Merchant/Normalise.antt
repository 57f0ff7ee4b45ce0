-- ===== src/Merchant/Normalise.antt =====
-- `normaliseItem` and `validateFeedItem` (internal/merchant/application/feedgen/generator.go). The
-- regular expressions are written out as the scans that they ask for; `strings.EqualFold` is a
-- parameter.
pub mod Images
pub mod Listed
use zentora_backend.Prelude.{
  ℕ, zero, suc, ◌≡◌, Bool, true, false, ◌&&◌, ◌||◌, not, List, [], ◌∷◌, ◌++◌, if◌then◌else◌, any,
  ltb, ◌==◌, length, take, drop, min,
}
use zentora_backend.Prelude.Int.{ℤ, pos, leb_ℤ}
use zentora_backend.Text.{Text, lit, is_empty, text_eq, has_prefix, trim_space, byte_len}
use zentora_backend.Merchant.{FeedItem, is_availability, is_condition}

abbrev pub https : Text
https = lit "https://"

-- `https://` in place of a `http://` at the front.
abbrev pub secured : Text → Text
secured u = if has_prefix u (lit "http://") then https ++ drop 7 u else u

unfoldable pub normalise_url : Text → Text
normalise_url u =
    let v = secured (trim_space u) in
    if is_empty (trim_space u) then [] else if has_prefix v https then v else []

-- The keys of `seen` are the primary image and `out`.
abbrev pub is_shown : Text → List Text → Text → Bool
is_shown primary out u = is_empty u || text_eq u primary || any (text_eq u) out

unfoldable pub add_images : Text → List Text → List Text → List Text
add_images primary out [] = out
add_images primary out (a ∷ more) = elim (is_shown primary out (normalise_url a)) [
  | true ↦ add_images primary out more
  | false ↦ elim (length (out ++ normalise_url a ∷ []) == 10) [
    | true ↦ out ++ normalise_url a ∷ []
    | false ↦ add_images primary (out ++ normalise_url a ∷ []) more
  ]
]

unfoldable pub deduplicate_images : Text → List Text → List Text
deduplicate_images primary additional = add_images primary [] additional

-- Every longest run of the characters of a class is written as `emit` says, which gets the run's
-- length and its first character.
unfoldable pub squeeze : (ℕ → Bool) → (ℕ → ℕ → Text) → ℕ → ℕ → Text → Text
squeeze in_class emit n first [] = emit n first
squeeze in_class emit n first (c ∷ s) =
    let longer = squeeze in_class emit (suc n) (if n == 0 then c else first) s in
    let next = squeeze in_class emit 0 0 s in
    if in_class c then longer else emit n first ++ c ∷ next

abbrev emit_blank : ℕ → ℕ → Text
emit_blank zero c = []
emit_blank (suc zero) c = c ∷ []
emit_blank (suc (suc n)) c = b' ' ∷ []

-- `[ \t]{2,}` becomes one space.
unfoldable pub collapse_blanks : Text → Text
collapse_blanks s = squeeze (λ c. c == 0x20 || c == 9) emit_blank 0 0 s

abbrev newlines : ℕ → Text
newlines zero = []
newlines (suc n) = 10 ∷ newlines n

-- `\n{3,}` becomes two.
unfoldable pub collapse_newlines : Text → Text
collapse_newlines s = squeeze (λ c. c == 10) (λ n c. newlines (min n 2)) 0 0 s

abbrev pub cap : ℕ → Text → Text
cap n s = if ltb n (length s) then take n s else s

unfoldable pub normalise_title : Text → Text
normalise_title s = cap 150 (collapse_blanks (trim_space s))

unfoldable pub normalise_description : Text → Text
normalise_description s = cap 5000 (collapse_blanks (collapse_newlines (trim_space s)))

unfoldable pub resolve_link : Text → Text → Text
resolve_link link base =
    if has_prefix link (lit "__STORE_URL__") then base ++ drop 13 link else link

abbrev pub is_https_url : Text → Bool
is_https_url u = has_prefix u https && ltb 10 (byte_len u)

-- `validateFeedItem` gives no error.
unfoldable pub is_valid_feed_item : FeedItem → Bool
is_valid_feed_item i =
    not (is_empty i.id)
    && not (is_empty (trim_space i.title))
    && is_https_url i.link
    && is_https_url i.image_link
    && not (is_empty i.price)
    && is_availability i.availability
    && is_condition i.condition

module _ (equal_fold : Text → Text → Bool) where
  abbrev pub identifier_of : Text → Text → Text → Text
  identifier_of brand gtin mpn =
      if not (is_empty gtin) || not (is_empty mpn)
      then lit "yes"
      else if not (is_empty brand) && not (equal_fold brand (lit "generic"))
      then []
      else lit "no"

  abbrev pub has_no_sale : FeedItem → Bool
  has_no_sale i = is_empty i.sale_price || text_eq i.sale_price i.price

  abbrev pub is_placeholder_weight : Text → Bool
  is_placeholder_weight w = text_eq w (lit "0 g") || text_eq w (lit "1 g")

  unfoldable pub normalise_item : FeedItem → FeedItem
  normalise_item i = record i {
    image_link = normalise_url i.image_link;
    additional_image_links =
        deduplicate_images (normalise_url i.image_link) i.additional_image_links;
    title = normalise_title i.title;
    description = normalise_description i.description;
    gtin = trim_space i.gtin;
    mpn = trim_space i.mpn;
    identifier_exists = identifier_of i.brand (trim_space i.gtin) (trim_space i.mpn);
    sale_price = if has_no_sale i then [] else i.sale_price;
    sale_price_effective_date = if has_no_sale i then [] else i.sale_price_effective_date;
    shipping_weight = if is_placeholder_weight i.shipping_weight then [] else i.shipping_weight;
    multipack = if leb_ℤ i.multipack (pos 1) then pos 0 else i.multipack;
    adult = if text_eq i.adult (lit "yes") then i.adult else [];
    size = trim_space i.size;
    gender = trim_space i.gender;
    age_group = trim_space i.age_group;
    material = trim_space i.material;
    pattern_ = trim_space i.pattern_;
    color = trim_space i.color;
    energy_efficiency_class = trim_space i.energy_efficiency_class;
    unit_pricing_measure = trim_space i.unit_pricing_measure;
    unit_pricing_base_measure = trim_space i.unit_pricing_base_measure;
    ads_redirect = trim_space i.ads_redirect;
    pickup_method = trim_space i.pickup_method;
    pickup_sla = trim_space i.pickup_sla;
    expiration_date = trim_space i.expiration_date;
    availability_date = trim_space i.availability_date;
    cost_of_goods_sold = trim_space i.cost_of_goods_sold;
    custom_label_0 = trim_space i.custom_label_0;
    custom_label_1 = trim_space i.custom_label_1;
    custom_label_2 = trim_space i.custom_label_2;
    custom_label_3 = trim_space i.custom_label_3;
    custom_label_4 = trim_space i.custom_label_4;
    google_product_category = trim_space i.google_product_category;
  }
