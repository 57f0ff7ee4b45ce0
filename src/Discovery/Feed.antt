-- ===== src/Discovery/Feed.antt =====
-- The discovery service (internal/service/discovery/service.go): feeds with fallbacks and a cache.
-- The SQL behind the repository, Redis with the JSON encoding, `strconv.FormatFloat(x, 'f', 2, 64)`
-- and `strings.ToLower` are parameters.
pub mod Fallback
pub mod Cache
pub mod Key
use zentora_backend.Prelude.{
  ◌≡◌, Bool, true, false, ◌&&◌, ◌||◌, not, Option, none, some, List, [], ◌∷◌, ◌++◌, map,
  if◌then◌else◌, any, length,
}
use zentora_backend.Prelude.Int.{ℤ, pos, ◌==ℤ◌, ◌-ℤ◌, leb_ℤ}
use zentora_backend.Prelude.Floats.{Floats}
use zentora_backend.Text.{Text, lit, text_eq, join}
use zentora_backend.Text.Decimal.{itoa}
use zentora_backend.Discovery.{
  Result, ok, err, ◌>>=◌, ◌>>◌, FeedRequest, FeedFilter, trending, best_sellers, recommended,
  also_viewed, category_feed, shared_feeds, is_one_of, is_none, sort_ids, validate_feed,
  invalid_category_id,
}
use zentora_backend.Discovery.Requests.{
  SuggestRequest, SearchEvent, SearchClickEvent, validate_suggest, validate_search, validate_click,
}

pub record Candidate (F : Type 0) : Type 0 where
  pub product_id : ℤ
  pub signals : List (Text × F)

-- What the service calls: candidateRepository, categoryRepository and the cache. K is the state of
-- the cache, a Card is a ProductCard and Hint a Suggestion, which the service only passes on.
pub record Backend (F Card Hint K : Type 0) : Type 0 where
  pub get_feed_candidates : FeedRequest F → Result (List (Candidate F))
  pub hydrate_product_cards : List ℤ → Result (List Card)
  pub get_category : ℤ → Result (Unit {0})
  pub suggest : SuggestRequest → Result (List Hint)
  pub track_search : SearchEvent → Result ℤ
  pub track_search_click : SearchClickEvent → Result (Unit {0})
  pub has_cache : Bool
  pub cache_get : Text → K → Option (List Card)
  pub cache_set : Text → List Card → K → K
  pub format_float : F → Text
  pub to_lower : Text → Text

unfoldable pub feed_fallback_order : Text → List Text
feed_fallback_order t =
    if text_eq t recommended || text_eq t also_viewed then trending ∷ best_sellers ∷ [] else []

module _ {F : Type 0} where
  abbrev pub is_seen : Candidate F → List (Candidate F) → Bool
  is_seen c = any (λ d. c.product_id ==ℤ d.product_id)

  -- The inner loop, over one fallback's candidates; the keys of `seen` are the ids of `merged`.
  unfoldable pub fill : ℤ → List (Candidate F) → List (Candidate F) → List (Candidate F)
  fill limit merged [] = merged
  fill limit merged (c ∷ cs) = elim (is_seen c merged) [
    | true ↦ fill limit merged cs
    | false ↦ elim (leb_ℤ limit (pos (length (merged ++ c ∷ [])))) [
      | true ↦ merged ++ c ∷ []
      | false ↦ fill limit (merged ++ c ∷ []) cs
    ]
  ]

  unfoldable pub is_cacheable_feed : FeedRequest F → Bool
  is_cacheable_feed r =
      if is_one_of r.feed_type shared_feeds
      then true
      else if text_eq r.feed_type recommended
      then not (is_none r.user_id)
      else false

module _ {F Card Hint K : Type 0} (fl : Floats F) (backend : Backend F Card Hint K) where
  unfoldable pub fall_back :
      FeedRequest F → List (Candidate F) → List Text → Result (List (Candidate F))
  fall_back req merged [] = ok merged
  fall_back req merged (t ∷ ts) = elim (leb_ℤ req.limit (pos (length merged))) [
    | true ↦ ok merged
    | false ↦
        backend.get_feed_candidates
          (record req { feed_type = t; limit = req.limit -ℤ pos (length merged) })
        >>= λ cs. fall_back req (fill req.limit merged cs) ts
  ]

  unfoldable pub get_feed_candidates_with_fallback : FeedRequest F → Result (List (Candidate F))
  get_feed_candidates_with_fallback req = do
    cs ← backend.get_feed_candidates req
    fall_back req cs (feed_fallback_order req.feed_type)

  abbrev pub optional {ℓ} : {A : Type ℓ} → (A → Text) → Option A → List Text
  optional f none = []
  optional f (some x) = f x ∷ []

  abbrev pub flag : Bool → Text → List Text
  flag true t = t ∷ []
  flag false t = []

  abbrev pub id_part : Text → List ℤ → List Text
  id_part label [] = []
  id_part label (v ∷ vs) = (label ++ lit "=" ++ join (lit ",") (map itoa (sort_ids (v ∷ vs)))) ∷ []

  pub key_parts : FeedRequest F → List Text
  key_parts r =
      lit "discovery:feed"
        ∷ r.feed_type
        ∷ (lit "limit=" ++ itoa r.limit)
        ∷ optional (λ u. lit "user=" ++ itoa u) r.user_id
      ++ optional (λ s. lit "session=" ++ s) r.session_id
      ++ optional (λ c. lit "category=" ++ itoa c) r.category_id
      ++ optional (λ q. lit "query=" ++ backend.to_lower q) r.query
      ++ id_part (lit "brands") r.filters.brand_ids
      ++ id_part (lit "tags") r.filters.tag_ids
      ++ id_part (lit "variant_attribute_values") r.filters.variant_attribute_value_ids
      ++ optional (λ x. lit "price_min=" ++ backend.format_float x) r.filters.price_min
      ++ optional (λ x. lit "price_max=" ++ backend.format_float x) r.filters.price_max
      ++ optional (λ x. lit "min_rating=" ++ backend.format_float x) r.filters.min_rating
      ++ flag r.filters.discount_only (lit "discount_only=true")
      ++ flag r.filters.in_stock_only (lit "in_stock_only=true")

  pub build_feed_cache_key : FeedRequest F → Text
  build_feed_cache_key r = join (lit ":") (key_parts r)

  abbrev pub uses_cache : FeedRequest F → Bool
  uses_cache r = backend.has_cache && is_cacheable_feed r

  unfoldable pub get_cached_feed : FeedRequest F → K → Option (List Card)
  get_cached_feed r k = if uses_cache r then backend.cache_get (build_feed_cache_key r) k else none

  -- An empty feed is not stored.
  unfoldable pub store_cached_feed : FeedRequest F → List Card → K → K
  store_cached_feed r [] k = k
  store_cached_feed r (c ∷ cs) k =
      if uses_cache r then backend.cache_set (build_feed_cache_key r) (c ∷ cs) k else k

  -- A validated request for a category names one, so that its error is never met.
  abbrev pub known_category : FeedRequest F → Result (Unit {0})
  known_category r = if text_eq r.feed_type category_feed then looked_up r.category_id else ok tt
    where
      looked_up : Option ℤ → Result (Unit {0})
      looked_up none = err invalid_category_id
      looked_up (some c) = backend.get_category c

  abbrev pub hydrated : FeedRequest F → Result (List Card)
  hydrated r = do
    cs ← get_feed_candidates_with_fallback r
    backend.hydrate_product_cards (map (λ c. c.product_id) cs)

  abbrev pub stored : FeedRequest F → Result (List Card) → K → Result (List Card) × K
  stored r (err e) k = (err e, k)
  stored r (ok cards) k = (ok cards, store_cached_feed r cards k)

  abbrev pub served : FeedRequest F → Option (List Card) → K → Result (List Card) × K
  served r (some cards) k = (ok cards, k)
  served r none k = stored r (hydrated r) k

  abbrev pub checked_category : FeedRequest F → Result (Unit {0}) → K → Result (List Card) × K
  checked_category r (err e) k = (err e, k)
  checked_category r (ok u) k = served r (get_cached_feed r k) k

  abbrev pub validated : Result (FeedRequest F) → K → Result (List Card) × K
  validated (err e) k = (err e, k)
  validated (ok r) k = checked_category r (known_category r) k

  unfoldable pub get_feed : Option (FeedRequest F) → K → Result (List Card) × K
  get_feed req k = validated (validate_feed fl req) k

  pub suggest : Option SuggestRequest → Result (List Hint)
  suggest req = validate_suggest req >>= backend.suggest

  pub track_search : Option SearchEvent → Result ℤ
  track_search event = validate_search backend.to_lower event >>= backend.track_search

  pub track_search_click : Option SearchClickEvent → Result (Unit {0})
  track_search_click event = validate_click event >>= backend.track_search_click
