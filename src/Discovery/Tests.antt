-- ===== src/Discovery/Tests.antt =====
-- Small requests, and the theorems at them.
use zentora_backend.Prelude.{
  ℕ, ◌≡◌, refl, true, false, Option, none, some, List, [], ◌∷◌, ◌++◌, ltb, ◌+◌, ◌*◌, ◌/◌,
}
use zentora_backend.Prelude.Int.{pos, negsuc, ◌-ℤ◌}
use zentora_backend.Prelude.Floats.{Floats}
use zentora_backend.Text.{
  Text, lit, text_eq, text_eq_refl, trim_space, trim_left, trim_right, is_space,
}
use zentora_backend.Text.Decimal.{itoa}
use zentora_backend.Discovery.{
  ok, FeedRequest, FeedFilter, normalize_filter_ids, collect_ids, sort_ids, insert_sorted,
  validate_feed, check_feed, validate_filters, is_feed_type, clamp_limit, trim_session, trim_query,
  recommended,
}
use zentora_backend.Discovery.Valid.{IsValidFeed, validate_feed-IsValidFeed}
use zentora_backend.Discovery.Feed.{
  Candidate, Backend, get_feed, get_cached_feed, get_feed_candidates_with_fallback,
  is_cacheable_feed, build_feed_cache_key, fall_back, feed_fallback_order, fill, store_cached_feed,
}
use zentora_backend.Discovery.Feed.Fallback.{
  IsExtension, get_feed_candidates_with_fallback-IsExtension,
}
use zentora_backend.Discovery.Feed.Cache.{IsCache, get_feed_again}
use zentora_backend.Discovery.Feed.Key.{build_feed_cache_key-session}

abbrev cents : Floats ℕ
cents = record {
  of_int = λ n. elim n [ pos k ↦ k | negsuc k ↦ 0 ];
  add = λ a b. a + b;
  mul = λ a b. a * b;
  div = λ a b. a / b;
  lt = ltb;
}

abbrev no_filter : FeedFilter ℕ
no_filter = record {
  brand_ids = [];
  tag_ids = [];
  variant_attribute_value_ids = [];
  price_min = none;
  price_max = none;
  min_rating = none;
  discount_only = false;
  in_stock_only = false;
}

abbrev raw : FeedRequest ℕ
raw = record {
  feed_type = lit " recommended ";
  user_id = some (pos 5);
  session_id = some (lit "  ");
  category_id = none;
  query = none;
  limit = pos 3;
  filters = record no_filter {
    brand_ids = pos 4 ∷ pos 2 ∷ pos 4 ∷ [];
    price_min = some 1;
    price_max = some 9;
  };
}

abbrev clean : FeedRequest ℕ
clean = record raw {
  feed_type = recommended;
  session_id = none;
  filters = record no_filter {
    brand_ids = pos 2 ∷ pos 4 ∷ [];
    price_min = some 1;
    price_max = some 9;
  };
}

normalized : normalize_filter_ids (pos 4 ∷ pos 2 ∷ pos 4 ∷ []) ≡ ok (pos 2 ∷ pos 4 ∷ [])
unfolding normalize_filter_ids collect_ids sort_ids insert_sorted
normalized = refl

validates : validate_feed cents (some raw) ≡ ok clean
unfolding validate_feed check_feed validate_filters is_feed_type clamp_limit trim_session trim_query
    normalize_filter_ids collect_ids sort_ids insert_sorted trim_space trim_left trim_right is_space
validates = refl

validate_feed-IsValidFeed_example : IsValidFeed cents clean
validate_feed-IsValidFeed_example = validate_feed-IsValidFeed cents raw validates

abbrev product : ℕ → Candidate ℕ
product n = record { product_id = pos n; signals = [] }

-- A cache of one entry: the key and the cards, which are product names.
abbrev backend : Backend ℕ ℕ ℕ (Option (Text × List ℕ))
backend = record {
  get_feed_candidates = λ r. elim (text_eq r.feed_type recommended) [
    | true ↦ ok (product 1 ∷ product 2 ∷ [])
    | false ↦ ok (product 2 ∷ product 6 ∷ product 7 ∷ [])
  ];
  hydrate_product_cards = λ ids. ok (10 ∷ []);
  get_category = λ c. ok tt;
  suggest = λ r. ok [];
  track_search = λ e. ok (pos 1);
  track_search_click = λ e. ok tt;
  has_cache = true;
  cache_get = λ key k. elim k [
    | none ↦ none
    | some e ↦ elim (text_eq key e.0) [ true ↦ some e.1 | false ↦ none ]
  ];
  cache_set = λ key v k. some (key, v);
  format_float = λ x. itoa (pos x);
  to_lower = λ t. t;
}

filled :
    get_feed_candidates_with_fallback cents backend clean
    ≡ ok (product 1 ∷ product 2 ∷ product 6 ∷ [])
unfolding get_feed_candidates_with_fallback fall_back feed_fallback_order fill ◌-ℤ◌
filled = refl

get_feed_candidates_with_fallback-IsExtension_example :
    (own : List (Candidate ℕ)) × (backend.get_feed_candidates clean ≡ ok own)
    × IsExtension (pos 3) own (product 1 ∷ product 2 ∷ product 6 ∷ [])
get_feed_candidates_with_fallback-IsExtension_example =
    get_feed_candidates_with_fallback-IsExtension cents backend clean filled

backend-IsCache : IsCache cents backend
backend-IsCache = record { get-set = λ key v k. rw (backend, text_eq_refl key) refl }

abbrev entry : Option (Text × List ℕ)
entry = some (build_feed_cache_key cents backend clean, 10 ∷ [])

is_cached : is_cacheable_feed clean ≡ true
unfolding is_cacheable_feed
is_cached = refl

served_first : get_feed cents backend (some raw) none ≡ (ok (10 ∷ []), entry)
unfolding get_feed get_feed_candidates_with_fallback fall_back feed_fallback_order fill ◌-ℤ◌
    get_cached_feed store_cached_feed is_cacheable_feed validate_feed check_feed validate_filters
    is_feed_type clamp_limit trim_session trim_query normalize_filter_ids collect_ids sort_ids
    insert_sorted trim_space trim_left trim_right is_space
served_first = refl

get_feed_again_example :
    (get_cached_feed cents backend clean entry ≡ some (10 ∷ []))
    × (get_feed cents backend (some raw) entry ≡ (ok (10 ∷ []), entry))
get_feed_again_example =
    get_feed_again cents backend raw clean none entry 10 [] backend-IsCache validates is_cached
      served_first

abbrev viewed : FeedRequest ℕ
viewed = record clean { feed_type = lit "also_viewed" }

validates_viewed : validate_feed cents (some viewed) ≡ ok viewed
unfolding validate_feed check_feed validate_filters is_feed_type clamp_limit trim_session trim_query
    normalize_filter_ids collect_ids sort_ids insert_sorted trim_space trim_left trim_right is_space
validates_viewed = refl

not_cached : is_cacheable_feed viewed ≡ false
unfolding is_cacheable_feed
not_cached = refl

build_feed_cache_key-session_example :
    build_feed_cache_key cents backend
      (record clean { session_id = some (lit "s"); category_id = some (pos 4) })
    ≡ build_feed_cache_key cents backend (record clean {
      session_id = some (lit "s" ++ (lit ":category=" ++ itoa (pos 4)));
      category_id = none;
    })
build_feed_cache_key-session_example =
    build_feed_cache_key-session cents backend clean (lit "s") (pos 4)
