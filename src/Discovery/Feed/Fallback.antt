-- ===== src/Discovery/Feed/Fallback.antt =====
-- What the fallbacks add to a feed.
use zentora_backend.Prelude.{
  ◌≡◌, refl, sym, ap, ◌∙◌, ◌⊎◌, inl, inr, Bool, true, false, ◌&&◌, not, List, [], ◌∷◌, ◌++◌, arith,
  Bool-cases, length, length-append, subst,
}
use mathlib.Core.List.{append-nil, append_assoc}
use zentora_backend.Prelude.Int.{ℤ, pos, ◌-ℤ◌, leb_ℤ}
use zentora_backend.Prelude.Floats.{Floats}
use zentora_backend.Text.{Text}
use zentora_backend.Discovery.{Result, ok, err, ◌>>=◌, FeedRequest}
use zentora_backend.Discovery.Feed.{
  Candidate, Backend, is_seen, fill, fall_back, feed_fallback_order,
  get_feed_candidates_with_fallback,
}

module _ {F : Type 0} where
  -- No product of the second list is in the first or twice in the second.
  abbrev pub all_new : List (Candidate F) → List (Candidate F) → Bool
  all_new merged [] = true
  all_new merged (c ∷ cs) = not (is_seen c merged) && all_new (merged ++ c ∷ []) cs

  all_new-append :
      (m xs ys : List (Candidate F))
      → all_new m xs ≡ true
      → all_new (m ++ xs) ys ≡ true
      → all_new m (xs ++ ys) ≡ true
  all_new-append m [] ys h k = rw (sym (append-nil m)) k
  all_new-append m (x ∷ xs) ys h k =
      let rest =
        all_new-append (m ++ x ∷ []) xs ys (ground arith) (rw (append_assoc m (x ∷ []) xs) k) in
      ground (arith, rest)

  -- `after` is `merged` with new products at its end, and not over the limit if there are any.
  pub record IsExtension (limit : ℤ) (merged after : List (Candidate F)) : Type 0 where
    pub extra : List (Candidate F)
    pub appended : after ≡ merged ++ extra
    pub new : all_new merged extra ≡ true
    pub bounded : (extra ≡ []) ⊎ (leb_ℤ (pos (length after)) limit ≡ true)

  nothing_added : (limit : ℤ) (m : List (Candidate F)) → IsExtension limit m m
  nothing_added limit m = record {
    extra = [];
    appended = sym (append-nil m);
    new = refl;
    bounded = inl refl;
  }

  -- One new product, and then an extension of that.
  one_added :
      (limit : ℤ) (m : List (Candidate F)) (c : Candidate F) {after : List (Candidate F)}
      → is_seen c m ≡ false
      → leb_ℤ limit (pos (length m)) ≡ false
      → IsExtension limit (m ++ c ∷ []) after
      → IsExtension limit m after
  one_added limit m c {after} fresh room h = record {
    extra = c ∷ h.extra;
    appended = h.appended ∙ append_assoc m (c ∷ []) h.extra;
    new = ground (arith, h.new);
    bounded = elim h.bounded [
      | inr b ↦ inr b
      | inl none_more ↦
          let same : after ≡ m ++ c ∷ [] =
            h.appended ∙ ap (λ e. (m ++ c ∷ []) ++ e) none_more ∙ append-nil (m ++ c ∷ []) in
          inr (rw same (rw (length-append m (c ∷ [])) (ground arith)))
    ];
  }

  fill-IsExtension :
      (limit : ℤ) (m cs : List (Candidate F))
      → leb_ℤ limit (pos (length m)) ≡ false
      → IsExtension limit m (fill limit m cs)
  unfolding fill
  fill-IsExtension limit m [] room = nothing_added limit m
  fill-IsExtension limit m (c ∷ cs) room = elim (Bool-cases (is_seen c m)) [
    | inl seen ↦ rw (fill, seen) (fill-IsExtension limit m cs room)
    | inr fresh ↦ elim (Bool-cases (leb_ℤ limit (pos (length (m ++ c ∷ []))))) [
      | inl full ↦
          rw (fill, fresh, full)
            (one_added limit m c fresh room (nothing_added limit (m ++ c ∷ [])))
      | inr more ↦
          rw (fill, fresh, more)
            (one_added limit m c fresh room (fill-IsExtension limit (m ++ c ∷ []) cs more))
    ]
  ]

  extend :
      (limit : ℤ) {m n k : List (Candidate F)}
      → IsExtension limit m n
      → IsExtension limit n k
      → IsExtension limit m k
  extend limit {m} {n} {k} f g = record {
    extra = f.extra ++ g.extra;
    appended = g.appended ∙ ap (λ x. x ++ g.extra) f.appended ∙ append_assoc m f.extra g.extra;
    new = all_new-append m f.extra g.extra f.new (rw (sym f.appended) g.new);
    bounded = elim g.bounded [
      | inr b ↦ inr b
      | inl none_more ↦
          let same : k ≡ n = g.appended ∙ ap (λ e. n ++ e) none_more ∙ append-nil n in
          elim f.bounded [
            | inr b ↦ inr (rw same b)
            | inl none_before ↦ inl (rw (none_before, none_more) refl)
          ]
    ];
  }

module _ {F Card Hint K : Type 0} (fl : Floats F) (backend : Backend F Card Hint K) where
  fall_back-IsExtension :
      (req : FeedRequest F) (m : List (Candidate F)) (ts : List Text) {after : List (Candidate F)}
      → fall_back fl backend req m ts ≡ ok after
      → IsExtension req.limit m after
  unfolding fall_back
  fall_back-IsExtension req m [] {after} e =
      let same : m ≡ after = ground arith in
      subst (IsExtension req.limit m) same (nothing_added req.limit m)
  fall_back-IsExtension req m (t ∷ ts) {after} e =
      elim (Bool-cases (leb_ℤ req.limit (pos (length m)))) [
        | inl full ↦
            let same : m ≡ after = ground arith in
            subst (IsExtension req.limit m) same (nothing_added req.limit m)
        | inr room ↦
            run room (λ m' h. fall_back-IsExtension req m' ts h)
              (backend.get_feed_candidates
                (record req { feed_type = t; limit = req.limit -ℤ pos (length m) }))
              (ground arith)
      ]
    where
      run :
          leb_ℤ req.limit (pos (length m)) ≡ false
          → ((m' : List (Candidate F))
              → fall_back fl backend req m' ts ≡ ok after
              → IsExtension req.limit m' after)
          → (r : Result (List (Candidate F)))
          → r >>= (λ cs. fall_back fl backend req (fill req.limit m cs) ts) ≡ ok after
          → IsExtension req.limit m after
      run room rest (err x) h = cc
      run room rest (ok cs) h =
          extend req.limit (fill-IsExtension req.limit m cs room) (rest (fill req.limit m cs) h)

  -- A feed starts with the candidates of its own type, and what the fallbacks add comes after them:
  -- only products that are not yet in it, each once, and no more than the limit leaves room for.
  pub get_feed_candidates_with_fallback-IsExtension :
      (req : FeedRequest F) {after : List (Candidate F)}
      → get_feed_candidates_with_fallback fl backend req ≡ ok after
      → (own : List (Candidate F)) × (backend.get_feed_candidates req ≡ ok own)
        × IsExtension req.limit own after
  unfolding get_feed_candidates_with_fallback
  get_feed_candidates_with_fallback-IsExtension req {after} e =
      run (backend.get_feed_candidates req) refl e
    where
      run :
          (r : Result (List (Candidate F)))
          → backend.get_feed_candidates req ≡ r
          → r >>= (λ cs. fall_back fl backend req cs (feed_fallback_order req.feed_type)) ≡ ok after
          → (own : List (Candidate F)) × (backend.get_feed_candidates req ≡ ok own)
            × IsExtension req.limit own after
      run (err x) k h = cc
      run (ok own) k h =
          (own, k, fall_back-IsExtension req own (feed_fallback_order req.feed_type) h)
