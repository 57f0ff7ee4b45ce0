-- ===== src/Discovery/Feed/Cache.antt =====
-- Feeds and their cache.
use zentora_backend.Prelude.{◌≡◌, refl, true, false, Option, none, some, List, [], ◌∷◌, arith}
use zentora_backend.Prelude.Floats.{Floats}
use zentora_backend.Text.{Text}
use zentora_backend.Discovery.{Result, ok, err, FeedRequest, validate_feed}
use zentora_backend.Discovery.Feed.{
  Backend, uses_cache, is_cacheable_feed, build_feed_cache_key, get_cached_feed, store_cached_feed,
  known_category, hydrated, stored, checked_category, validated, get_feed,
}

module _ {F Card Hint K : Type 0} (fl : Floats F) (backend : Backend F Card Hint K) where
  -- A cached answer of the cacheable feeds: what Redis is relied on for.
  pub record IsCache : Type 0 where
    pub get-set :
        (key : Text) (v : List Card) (k : K)
        → backend.cache_get key (backend.cache_set key v k) ≡ some v

  -- The answer that a state gives when it is asked again.
  stored-served :
      (r : FeedRequest F) (f : Result (List Card)) (k : K) (c : Card) (cs : List Card) {k' : K}
      → IsCache
      → uses_cache fl backend r ≡ true
      → stored fl backend r f k ≡ (ok (c ∷ cs), k')
      → get_cached_feed fl backend r k' ≡ some (c ∷ cs)
  unfolding get_cached_feed store_cached_feed
  stored-served r (err x) k c cs h u e = cc
  stored-served r (ok []) k c cs h u e = cc
  stored-served r (ok (d ∷ ds)) k c cs {k'} h u e =
      let law = h.get-set (build_feed_cache_key fl backend r) (d ∷ ds) k in ground (arith, law)

  -- If the cache returns what was set, then whatever feed was served (not empty, and of a cacheable
  -- feed type), it is in the cache afterwards, and the same request is served the same cards the
  -- next time, with the cache left as it is.
  pub get_feed_again :
      (req : FeedRequest F) (r : FeedRequest F) (k k' : K) (c : Card) (cs : List Card)
      → IsCache
      → validate_feed fl (some req) ≡ ok r
      → uses_cache fl backend r ≡ true
      → get_feed fl backend (some req) k ≡ (ok (c ∷ cs), k')
      → (get_cached_feed fl backend r k' ≡ some (c ∷ cs))
        × (get_feed fl backend (some req) k' ≡ (ok (c ∷ cs), k'))
  unfolding get_feed
  get_feed_again req r k k' c cs h v u e =
      run (known_category fl backend r) refl (get_cached_feed fl backend r k) refl (ground arith)
    where
      run :
          (g : Result (Unit {0}))
          → known_category fl backend r ≡ g
          → (o : Option (List Card)) → get_cached_feed fl backend r k ≡ o
          → checked_category fl backend r g k ≡ (ok (c ∷ cs), k')
          → (get_cached_feed fl backend r k' ≡ some (c ∷ cs))
            × (validated fl backend (validate_feed fl (some req)) k' ≡ (ok (c ∷ cs), k'))
      run (err x) eg o eo d = cc
      run (ok g) eg (some cards) eo d =
          let hit : get_cached_feed fl backend r k' ≡ some (c ∷ cs) = ground arith in
          (hit, rw (v, eg, hit) refl)
      run (ok g) eg none eo d =
          let hit = stored-served r (hydrated fl backend r) k c cs h u (ground arith) in
          (hit, rw (v, eg, hit) refl)

  stored_untouched :
      (r : FeedRequest F) (f : Result (List Card)) (k : K)
      → uses_cache fl backend r ≡ false
      → stored fl backend r f k ≡ (f, k)
  unfolding store_cached_feed
  stored_untouched r (err x) k u = refl
  stored_untouched r (ok []) k u = refl
  stored_untouched r (ok (c ∷ cs)) k u = ground arith

  -- A feed that is not cacheable (a search, a category, what was also viewed, or a recommendation
  -- for nobody) never touches the cache, and its answer does not depend on it.
  pub get_feed_uncached :
      (req : FeedRequest F) (r : FeedRequest F) (k j : K)
      → validate_feed fl (some req) ≡ ok r
      → is_cacheable_feed r ≡ false
      → (get_feed fl backend (some req) k ≡ ((get_feed fl backend (some req) j).0, k))
  unfolding get_feed get_cached_feed
  get_feed_uncached req r k j v u = rw v (run (known_category fl backend r))
    where
      run :
          (g : Result (Unit {0}))
          → checked_category fl backend r g k ≡ ((checked_category fl backend r g j).0, k)
      run (err x) = refl
      run (ok g) =
          let off : uses_cache fl backend r ≡ false = ground arith in
          rw
            (
              get_cached_feed,
              off,
              stored_untouched r (hydrated fl backend r) k off,
              stored_untouched r (hydrated fl backend r) j off,
            )
            refl
