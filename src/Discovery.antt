-- ===== src/Discovery.antt =====
-- Product discovery (internal/domain/discovery/types.go): the requests and their validation.
-- A pointer is an Option, and `none` for the request itself is a nil request. A request that fails
-- its validation is answered with the error alone, so what `Validate` wrote to it before is dropped.
pub mod Ids
pub mod Requests
pub mod Valid
pub mod Feed
mod Tests
use zentora_backend.Prelude.{
  ◌≡◌, Bool, true, false, ◌&&◌, ◌||◌, not, Option, none, some, List, [], ◌∷◌, if◌then◌else◌, any,
}
use zentora_backend.Prelude.Int.{ℤ, pos, ◌==ℤ◌, leb_ℤ, ltb_ℤ}
use zentora_backend.Prelude.Floats.{Floats}
use zentora_backend.Text.{Text, lit, is_empty, text_eq, trim_space}

pub data Error : Type 0 where
  invalid_request invalid_feed_type category_required invalid_category_id invalid_user_id
        invalid_filter_id invalid_price_range invalid_rating_filter user_required
        user_or_session_required invalid_search_event invalid_product_id invalid_position
        negative_result_count query_required prefix_required failure :
      Error

pub data Result {ℓ} (A : Type ℓ) : Type ℓ where
  ok : A → Result A
  err : Error → Result A

infixl 5 ◌>>=◌ ◌>>◌
abbrev pub ◌>>=◌ {ℓ κ} : {A : Type ℓ} {B : Type κ} → Result A → (A → Result B) → Result B
◌>>=◌ (ok a) f = f a
◌>>=◌ (err e) f = err e

abbrev pub ◌>>◌ {ℓ} : {B : Type ℓ} → Result (Unit {0}) → Result B → Result B
m >> k = m >>= λ _. k

-- `if bad { return e }`
abbrev pub refuse_if : Bool → Error → Result (Unit {0})
refuse_if true e = err e
refuse_if false e = ok tt

abbrev pub trending : Text
trending = lit "trending"

abbrev pub best_sellers : Text
best_sellers = lit "best_sellers"

abbrev pub recommended : Text
recommended = lit "recommended"

abbrev pub also_viewed : Text
also_viewed = lit "also_viewed"

abbrev pub search_feed : Text
search_feed = lit "search"

abbrev pub category_feed : Text
category_feed = lit "category"

-- The feeds that `isCacheableFeed` names without a condition.
abbrev pub shared_feeds : List Text
shared_feeds =
    trending
    ∷ best_sellers
    ∷ lit "deals"
    ∷ lit "new_arrivals"
    ∷ lit "highly_rated"
    ∷ lit "most_wishlisted"
    ∷ lit "featured"
    ∷ lit "editorial"
    ∷ []

abbrev pub is_one_of : Text → List Text → Bool
is_one_of t = any (text_eq t)

pub is_feed_type : Text → Bool
is_feed_type t =
    is_one_of t (recommended ∷ category_feed ∷ also_viewed ∷ search_feed ∷ shared_feeds)

pub record FeedFilter (F : Type 0) : Type 0 where
  pub brand_ids : List ℤ
  pub tag_ids : List ℤ
  pub variant_attribute_value_ids : List ℤ
  pub price_min : Option F
  pub price_max : Option F
  pub min_rating : Option F
  pub discount_only : Bool
  pub in_stock_only : Bool

pub record FeedRequest (F : Type 0) : Type 0 where
  pub feed_type : Text
  pub user_id : Option ℤ
  pub session_id : Option Text
  pub category_id : Option ℤ
  pub query : Option Text
  pub limit : ℤ
  pub filters : FeedFilter F

abbrev pub is_none {ℓ} : {A : Type ℓ} → Option A → Bool
is_none none = true
is_none (some a) = false

-- `x != nil && *x <= 0`
abbrev pub is_bad_id : Option ℤ → Bool
is_bad_id none = false
is_bad_id (some x) = leb_ℤ x (pos 0)

-- `if *l <= 0 { *l = def }; if *l > max { *l = max }`
pub clamp_limit : ℤ → ℤ → ℤ → ℤ
clamp_limit def max_ l =
    let l1 = if leb_ℤ l (pos 0) then def else l in if ltb_ℤ max_ l1 then max_ else l1

-- A session id that is blank is dropped, any other is trimmed.
pub trim_session : Option Text → Option Text
trim_session none = none
trim_session (some s) = let t = trim_space s in if is_empty t then none else some t

pub trim_query : Option Text → Option Text
trim_query none = none
trim_query (some q) = some (trim_space q)

abbrev pub is_missing : Option Text → Bool
is_missing none = true
is_missing (some q) = is_empty q

abbrev pub mem_ℤ : ℤ → List ℤ → Bool
mem_ℤ x = any (λ y. x ==ℤ y)

-- `sort.Slice` by `<`.
pub insert_sorted : ℤ → List ℤ → List ℤ
insert_sorted x [] = x ∷ []
insert_sorted x (y ∷ ys) =
    let rest = insert_sorted x ys in if ltb_ℤ x y then x ∷ y ∷ ys else y ∷ rest

pub sort_ids : List ℤ → List ℤ
sort_ids [] = []
sort_ids (x ∷ xs) = insert_sorted x (sort_ids xs)

-- The loop, after which the slice is `normalized` and the keys of `seen` are its values; the list
-- grows at its front, which the sort makes good.
pub collect_ids : List ℤ → List ℤ → Result (List ℤ)
collect_ids normalized [] = ok normalized
collect_ids normalized (v ∷ vs) =
    let skipped = collect_ids normalized vs in
    let added = collect_ids (v ∷ normalized) vs in
    if leb_ℤ v (pos 0) then err invalid_filter_id else if mem_ℤ v normalized then skipped else added

pub normalize_filter_ids : List ℤ → Result (List ℤ)
normalize_filter_ids [] = ok []
normalize_filter_ids (v ∷ vs) = do ids ← collect_ids [] (v ∷ vs); ok (sort_ids ids)

module _ {F : Type 0} (fl : Floats F) where
  abbrev pub is_bad_range : Option F → Option F → Bool
  is_bad_range none hi = false
  is_bad_range (some lo) none = false
  is_bad_range (some lo) (some hi) = fl.lt hi lo

  abbrev pub is_bad_rating : Option F → Bool
  is_bad_rating none = false
  is_bad_rating (some r) = fl.lt r (fl.of_int (pos 0)) || fl.lt (fl.of_int (pos 5)) r

  -- The filters, the last part of `Validate`.
  pub validate_filters : FeedFilter F → Result (FeedFilter F)
  validate_filters f = do
    brands ← normalize_filter_ids f.brand_ids
    tags ← normalize_filter_ids f.tag_ids
    values ← normalize_filter_ids f.variant_attribute_value_ids
    refuse_if (is_bad_range f.price_min f.price_max) invalid_price_range
    refuse_if (is_bad_rating f.min_rating) invalid_rating_filter
    ok (record f { brand_ids = brands; tag_ids = tags; variant_attribute_value_ids = values })

  -- What is checked of the rest, once it is trimmed.
  pub check_feed : FeedRequest F → Result (Unit {0})
  check_feed r = do
    refuse_if (not (is_feed_type r.feed_type)) invalid_feed_type
    refuse_if (is_bad_id r.user_id) invalid_user_id
    refuse_if (is_bad_id r.category_id) invalid_category_id
    refuse_if (text_eq r.feed_type category_feed && is_none r.category_id) category_required
    refuse_if (text_eq r.feed_type search_feed && is_missing r.query) query_required
    refuse_if (text_eq r.feed_type recommended && is_none r.user_id) user_required
    refuse_if (text_eq r.feed_type also_viewed && is_none r.user_id && is_none r.session_id)
        user_or_session_required

  abbrev pub trim_feed : FeedRequest F → FeedRequest F
  trim_feed r = record r {
    feed_type = trim_space r.feed_type;
    session_id = trim_session r.session_id;
    query = trim_query r.query;
    limit = clamp_limit (pos 20) (pos 100) r.limit;
  }

  pub validate_feed : Option (FeedRequest F) → Result (FeedRequest F)
  validate_feed none = err invalid_request
  validate_feed (some r) = do
    check_feed (trim_feed r)
    fs ← validate_filters r.filters
    ok (record (trim_feed r) { filters = fs })
