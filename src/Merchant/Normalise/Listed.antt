-- ===== src/Merchant/Normalise/Listed.antt =====
-- What an item is like once it is normalised and valid.
use zentora_backend.Prelude.{
  ℕ, ◌≡◌, refl, ◌≤◌, inl, inr, Bool, true, false, ◌&&◌, not, arith, Bool-cases, length, length-take,
  ltb,
}
use zentora_backend.Text.{Text, is_empty, text_eq, trim_space}
use zentora_backend.Merchant.{FeedItem, is_availability, is_condition}
use zentora_backend.Merchant.Normalise.{
  collapse_blanks, collapse_newlines, cap, normalise_title, normalise_description, normalise_item,
  is_valid_feed_item, is_https_url,
}
use zentora_backend.Merchant.Normalise.Images.{IsGallery, deduplicate_images-IsGallery}

cap_within : (n : ℕ) (s : Text) → length (cap n s) ≤ n
cap_within n s = elim (Bool-cases (ltb n (length s))) [
  | inl long ↦ rw long (ground (arith, length-take n s))
  | inr short ↦ rw short (ground arith)
]

-- The promises of the feed to Google.
pub record IsListed (i : FeedItem) : Type 0 where
  pub named : is_empty i.id ≡ false
  pub titled : is_empty (trim_space i.title) ≡ false
  pub linked : is_https_url i.link ≡ true
  pub pictured : is_https_url i.image_link ≡ true
  pub priced : is_empty i.price ≡ false
  pub known_availability : is_availability i.availability ≡ true
  pub known_condition : is_condition i.condition ≡ true
  pub gallery : IsGallery i.image_link i.additional_image_links
  pub short_title : length i.title ≤ 150
  pub short_description : length i.description ≤ 5000
  pub real_sale : not (is_empty i.sale_price) && text_eq i.sale_price i.price ≡ false

parts :
    (a b c d e f g : Bool)
    → not a && not b && c && d && not e && f && g ≡ true
    → (a ≡ false) × (c ≡ true) × (d ≡ true) × (e ≡ false) × (b ≡ false) × (f ≡ true) × (g ≡ true)
parts a b c d e f g h = ground arith

valid_parts :
    (i : FeedItem)
    → is_valid_feed_item i ≡ true
    → (is_empty i.id ≡ false)
      × (is_https_url i.link ≡ true)
      × (is_https_url i.image_link ≡ true)
      × (is_empty i.price ≡ false)
      × (is_empty (trim_space i.title) ≡ false)
      × (is_availability i.availability ≡ true)
      × (is_condition i.condition ≡ true)
unfolding is_valid_feed_item
valid_parts i v = parts _ _ _ _ _ _ _ v

module _ (equal_fold : Text → Text → Bool) where
  pub normalise_item-IsListed :
      (i : FeedItem)
      → is_valid_feed_item (normalise_item equal_fold i) ≡ true
      → IsListed (normalise_item equal_fold i)
  unfolding normalise_item normalise_title normalise_description
  normalise_item-IsListed i v = record {
    titled = (valid_parts (normalise_item equal_fold i) v).4;
    known_availability = (valid_parts (normalise_item equal_fold i) v).5;
    known_condition = (valid_parts (normalise_item equal_fold i) v).6;
    named = (valid_parts (normalise_item equal_fold i) v).0;
    linked = (valid_parts (normalise_item equal_fold i) v).1;
    pictured = (valid_parts (normalise_item equal_fold i) v).2;
    priced = (valid_parts (normalise_item equal_fold i) v).3;
    gallery = deduplicate_images-IsGallery _ i.additional_image_links;
    short_title = cap_within 150 (collapse_blanks (trim_space i.title));
    short_description =
        cap_within 5000 (collapse_blanks (collapse_newlines (trim_space i.description)));
    real_sale = elim (Bool-cases (is_empty i.sale_price)) [
      | inl none_ ↦ rw none_ refl
      | inr some_ ↦ elim (Bool-cases (text_eq i.sale_price i.price)) [
        | inl same ↦ rw (some_, same) refl
        | inr other ↦ rw (some_, other) (ground arith)
      ]
    ];
  }
