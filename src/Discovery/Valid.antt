-- ===== src/Discovery/Valid.antt =====
-- A validated feed request is valid, and validating it again changes nothing.
use zentora_backend.Prelude.{
  ◌≡◌, refl, ap, ◌∙◌, inl, inr, Bool, true, false, ◌&&◌, not, Option, none, some, List, arith,
  Bool-cases,
}
use zentora_backend.Prelude.Int.{ℤ, pos, leb_ℤ, ltb_ℤ}
use zentora_backend.Prelude.Floats.{Floats}
use zentora_backend.Text.{Text, text_eq}
use zentora_backend.Text.Trim.{trim_space_idem}
use zentora_backend.Discovery.{
  Result, ok, err, ◌>>=◌, ◌>>◌, FeedFilter, FeedRequest, clamp_limit, trim_session, trim_query,
  trim_feed, check_feed, validate_filters, validate_feed, normalize_filter_ids, is_bad_range,
  is_bad_rating, refuse_if, invalid_price_range, invalid_rating_filter, is_feed_type, is_bad_id,
  is_none, is_missing, category_feed, search_feed, recommended, also_viewed, invalid_feed_type,
  invalid_user_id, invalid_category_id, category_required, query_required, user_required,
  user_or_session_required,
}
use zentora_backend.Discovery.Ids.{
  is_ascending, all_positive, normalize_filter_ids-canonical, normalize_filter_ids_fixed,
}

pub clamp_limit_in_range :
    (def max_ l : ℤ)
    → ltb_ℤ (pos 0) def ≡ true
    → leb_ℤ def max_ ≡ true
    → (ltb_ℤ (pos 0) (clamp_limit def max_ l) ≡ true) × (leb_ℤ (clamp_limit def max_ l) max_ ≡ true)
unfolding clamp_limit
clamp_limit_in_range def max_ l d m = ground arith

clamp_limit_idem :
    (def max_ l : ℤ)
    → ltb_ℤ (pos 0) def ≡ true
    → leb_ℤ def max_ ≡ true
    → clamp_limit def max_ (clamp_limit def max_ l) ≡ clamp_limit def max_ l
unfolding clamp_limit
clamp_limit_idem def max_ l d m = ground arith

trim_session_idem : (s : Option Text) → trim_session (trim_session s) ≡ trim_session s
unfolding trim_session
trim_session_idem none = refl
trim_session_idem (some s) = ground (arith, trim_space_idem s)

trim_query_idem : (q : Option Text) → trim_query (trim_query q) ≡ trim_query q
unfolding trim_query
trim_query_idem none = refl
trim_query_idem (some q) = ap some (trim_space_idem q)

abbrev IsCanonical : List ℤ → Type 0
IsCanonical ns = (is_ascending ns ≡ true) × (all_positive ns ≡ true)

module _ {F : Type 0} (fl : Floats F) where
  -- The filters that `Validate` lets through.
  pub record IsFiltered (f : FeedFilter F) : Type 0 where
    pub brands : IsCanonical f.brand_ids
    pub tags : IsCanonical f.tag_ids
    pub values : IsCanonical f.variant_attribute_value_ids
    pub range : is_bad_range fl f.price_min f.price_max ≡ false
    pub rating : is_bad_rating fl f.min_rating ≡ false

  validate_filters-IsFiltered :
      (f : FeedFilter F) {f' : FeedFilter F} → validate_filters fl f ≡ ok f' → IsFiltered f'
  unfolding validate_filters
  validate_filters-IsFiltered f {f'} e =
      run (normalize_filter_ids f.brand_ids) (normalize_filter_ids f.tag_ids)
        (normalize_filter_ids f.variant_attribute_value_ids) refl refl refl (ground arith)
    where
      checked : (bs ts vs : List ℤ) → Bool → Bool → Result (FeedFilter F)
      checked bs ts vs r s = do
        refuse_if r invalid_price_range
        refuse_if s invalid_rating_filter
        ok (record f { brand_ids = bs; tag_ids = ts; variant_attribute_value_ids = vs })

      run :
          (b t v : Result (List ℤ))
          → normalize_filter_ids f.brand_ids ≡ b
          → normalize_filter_ids f.tag_ids ≡ t
          → normalize_filter_ids f.variant_attribute_value_ids ≡ v
          → (do
            bs ← b
            ts ← t
            vs ← v
            checked bs ts vs
                (is_bad_range fl f.price_min f.price_max)
                (is_bad_rating fl f.min_rating))
            ≡ ok f'
          → IsFiltered f'
      run (err x) t v eb et ev e = cc
      run (ok bs) (err x) v eb et ev e = cc
      run (ok bs) (ok ts) (err x) eb et ev e = cc
      run (ok bs) (ok ts) (ok vs) eb et ev e =
          elim (Bool-cases (is_bad_range fl f.price_min f.price_max)) [
            | inl bad ↦ absurd (ground arith)
            | inr range ↦ elim (Bool-cases (is_bad_rating fl f.min_rating)) [
              | inl bad ↦ absurd (ground arith)
              | inr rating ↦
                  let same : f' ≡ record f {
                    brand_ids = bs;
                    tag_ids = ts;
                    variant_attribute_value_ids = vs;
                  } =
                    ground arith in
                  let (b1, b2, b3) = normalize_filter_ids-canonical f.brand_ids eb in
                  let (t1, t2, t3) = normalize_filter_ids-canonical f.tag_ids et in
                  let (v1, v2, v3) =
                    normalize_filter_ids-canonical f.variant_attribute_value_ids ev in
                  rw same (record {
                    brands = (b1, b2);
                    tags = (t1, t2);
                    values = (v1, v2);
                    range = range;
                    rating = rating;
                  })
            ]
          ]

  validate_filters_fixed : (f : FeedFilter F) → IsFiltered f → validate_filters fl f ≡ ok f
  unfolding validate_filters
  validate_filters_fixed f h =
      let b = normalize_filter_ids_fixed f.brand_ids h.brands.0 h.brands.1 in
      let t = normalize_filter_ids_fixed f.tag_ids h.tags.0 h.tags.1 in
      let v = normalize_filter_ids_fixed f.variant_attribute_value_ids h.values.0 h.values.1 in
      ground (arith, b, t, v, h.range, h.rating)

  -- The feed requests that `Validate` lets through, as it leaves them.
  pub record IsValidFeed (r : FeedRequest F) : Type 0 where
    pub known : is_feed_type r.feed_type ≡ true
    pub limit : (ltb_ℤ (pos 0) r.limit ≡ true) × (leb_ℤ r.limit (pos 100) ≡ true)
    pub user : is_bad_id r.user_id ≡ false
    pub category : is_bad_id r.category_id ≡ false
    pub of_category : text_eq r.feed_type category_feed && is_none r.category_id ≡ false
    pub of_search : text_eq r.feed_type search_feed && is_missing r.query ≡ false
    pub of_user : text_eq r.feed_type recommended && is_none r.user_id ≡ false
    pub of_viewer :
        text_eq r.feed_type also_viewed && is_none r.user_id && is_none r.session_id ≡ false
    pub filtered : IsFiltered r.filters
    pub stable : validate_feed fl (some r) ≡ ok r

  abbrev Checks : FeedRequest F → Type 0
  Checks r =
      (is_feed_type r.feed_type ≡ true)
      × (is_bad_id r.user_id ≡ false)
      × (is_bad_id r.category_id ≡ false)
      × (text_eq r.feed_type category_feed && is_none r.category_id ≡ false)
      × (text_eq r.feed_type search_feed && is_missing r.query ≡ false)
      × (text_eq r.feed_type recommended && is_none r.user_id ≡ false)
      × (text_eq r.feed_type also_viewed && is_none r.user_id && is_none r.session_id ≡ false)

  check_feed-Checks : (r : FeedRequest F) → check_feed fl r ≡ ok tt → Checks r
  unfolding check_feed
  check_feed-Checks r e =
      run (is_feed_type r.feed_type) (is_bad_id r.user_id) (is_bad_id r.category_id) _ _ _ _ e
    where
      run :
          (k u c oc os ou ov : Bool)
          → (do
            refuse_if (not k) invalid_feed_type
            refuse_if u invalid_user_id
            refuse_if c invalid_category_id
            refuse_if oc category_required
            refuse_if os query_required
            refuse_if ou user_required
            refuse_if ov user_or_session_required)
            ≡ ok tt
          → (k ≡ true)
            × (u ≡ false)
            × (c ≡ false)
            × (oc ≡ false)
            × (os ≡ false)
            × (ou ≡ false)
            × (ov ≡ false)
      run false u c oc os ou ov e = cc
      run true true c oc os ou ov e = cc
      run true false true oc os ou ov e = cc
      run true false false true os ou ov e = cc
      run true false false false true ou ov e = cc
      run true false false false false true ov e = cc
      run true false false false false false true e = cc
      run true false false false false false false e = (refl, refl, refl, refl, refl, refl, refl)

  trim_feed_idem : (r : FeedRequest F) → trim_feed fl (trim_feed fl r) ≡ trim_feed fl r
  trim_feed_idem r = λ i. record (trim_feed fl r) {
    feed_type = trim_space_idem r.feed_type i;
    session_id = trim_session_idem r.session_id i;
    query = trim_query_idem r.query i;
    limit = clamp_limit_idem (pos 20) (pos 100) r.limit refl refl i;
  }

  -- The request that `Validate` accepts has a known feed type, a limit from 1 to 100, positive ids,
  -- what its feed type needs, and filters that are ascending, free of repetitions and of positive
  -- ids; and to validate it once more changes nothing.
  pub validate_feed-IsValidFeed :
      (r : FeedRequest F) {r' : FeedRequest F} → validate_feed fl (some r) ≡ ok r' → IsValidFeed r'
  unfolding validate_feed
  validate_feed-IsValidFeed r {r'} e =
      run (check_feed fl (trim_feed fl r)) (validate_filters fl r.filters) refl refl e
    where
      run :
          (c : Result (Unit {0})) (f : Result (FeedFilter F))
          → check_feed fl (trim_feed fl r) ≡ c
          → validate_filters fl r.filters ≡ f
          → (do c; fs ← f; ok (record (trim_feed fl r) { filters = fs })) ≡ ok r'
          → IsValidFeed r'
      run (err x) f ec ef h = cc
      run (ok passed) (err x) ec ef h = cc
      run (ok passed) (ok fs) ec ef h =
          let t = trim_feed fl r in
          let (k, u, c, oc, os, ou, ov) = check_feed-Checks t ec in
          let filtered = validate_filters-IsFiltered r.filters ef in
          let same : r' ≡ record t { filters = fs } = ground arith in
          let trimmed : trim_feed fl (record t { filters = fs }) ≡ record t { filters = fs } =
            λ i. record (trim_feed_idem r i) { filters = fs } in
          let checks : check_feed fl (record t { filters = fs }) ≡ ok tt =
            unfold check_feed in ec in
          let fixed = validate_filters_fixed fs filtered in
          rw same (record {
            known = k;
            limit = clamp_limit_in_range (pos 20) (pos 100) r.limit refl refl;
            user = u;
            category = c;
            of_category = oc;
            of_search = os;
            of_user = ou;
            of_viewer = ov;
            filtered = filtered;
            stable = rw (ap (check_feed fl) trimmed ∙ checks, fixed) (ap ok trimmed);
          })
