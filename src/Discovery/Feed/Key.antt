-- ===== src/Discovery/Feed/Key.antt =====
-- The cache key of a feed does not tell a session id from the parts after it.
use zentora_backend.Prelude.{◌≡◌, refl, ap, sym, ◌∙◌, Option, none, some, List, [], ◌∷◌, ◌++◌}
use mathlib.Core.List.{append_assoc}
use zentora_backend.Prelude.Int.{ℤ}
use zentora_backend.Prelude.Floats.{Floats}
use zentora_backend.Text.{Text, lit, join}
use zentora_backend.Text.Decimal.{itoa}
use zentora_backend.Discovery.{FeedRequest}
use zentora_backend.Discovery.Feed.{Backend, key_parts, build_feed_cache_key, optional}

-- Two parts are joined as the one part that has the separator in it.
join-merge :
    (sep x y : Text) (zs : List Text) → join sep (x ∷ y ∷ zs) ≡ join sep ((x ++ (sep ++ y)) ∷ zs)
unfolding join
join-merge sep x y [] = refl
join-merge sep x y (z ∷ zs) =
    ap (λ t. x ++ t) (sym (append_assoc sep y (sep ++ join sep (z ∷ zs))))
    ∙ sym (append_assoc x (sep ++ y) (sep ++ join sep (z ∷ zs)))

join-cons :
    (sep p x y : Text) (xs ys : List Text)
    → join sep (x ∷ xs) ≡ join sep (y ∷ ys)
    → join sep (p ∷ x ∷ xs) ≡ join sep (p ∷ y ∷ ys)
unfolding join
join-cons sep p x y xs ys e = ap (λ t. p ++ (sep ++ t)) e

module _ {F Card Hint K : Type 0} (fl : Floats F) (backend : Backend F Card Hint K) where
  -- A request with a session id and a category has the same cache key as the request without a
  -- category whose session id is that one followed by `:category=` and the category.
  pub build_feed_cache_key-session :
      (r : FeedRequest F) (s : Text) (c : ℤ)
      → build_feed_cache_key fl backend (record r { session_id = some s; category_id = some c })
        ≡ build_feed_cache_key fl backend
            (record r { session_id = some (s ++ (lit ":category=" ++ itoa c)); category_id = none })
  unfolding build_feed_cache_key key_parts
  build_feed_cache_key-session r s c = run r.user_id
    where
      rest : List Text
      rest = optional fl backend (λ q. lit "query=" ++ backend.to_lower q) r.query

      run :
          (u : Option ℤ)
          → build_feed_cache_key fl backend
              (record r { user_id = u; session_id = some s; category_id = some c })
            ≡ build_feed_cache_key fl backend (record r {
              user_id = u;
              session_id = some (s ++ (lit ":category=" ++ itoa c));
              category_id = none;
            })
      run none = join-cons (lit ":") _ _ _ _ _ (
          join-cons (lit ":") _ _ _ _ _ (
            join-cons (lit ":") _ _ _ _ _
              (join-merge (lit ":") (lit "session=" ++ s) (lit "category=" ++ itoa c) _)))
      run (some u) = join-cons (lit ":") _ _ _ _ _ (
          join-cons (lit ":") _ _ _ _ _ (
            join-cons (lit ":") _ _ _ _ _ (
              join-cons (lit ":") _ _ _ _ _
                (join-merge (lit ":") (lit "session=" ++ s) (lit "category=" ++ itoa c) _))))
