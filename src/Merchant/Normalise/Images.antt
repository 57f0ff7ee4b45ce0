-- ===== src/Merchant/Normalise/Images.antt =====
-- The additional images of an item.
use zentora_backend.Prelude.{
  ◌≡◌, refl, ◌∙◌, inl, inr, Bool, true, false, ◌&&◌, ◌||◌, not, List, [], ◌∷◌, ◌++◌, arith,
  Bool-cases, any, all, length, length-append, leb, ◌==◌,
}
use zentora_backend.Text.{Text, is_empty, text_eq, has_prefix, trim_space}
use zentora_backend.Merchant.Normalise.{
  https, secured, normalise_url, is_shown, add_images, deduplicate_images,
}

-- No two are equal.
abbrev pub is_distinct : List Text → Bool
is_distinct [] = true
is_distinct (u ∷ us) = not (any (text_eq u) us) && is_distinct us

abbrev pub is_https : Text → Bool
is_https u = has_prefix u https

text_eq_sym : (s t : Text) → text_eq s t ≡ text_eq t s
text_eq_sym [] [] = refl
text_eq_sym [] (d ∷ t) = refl
text_eq_sym (c ∷ s) [] = refl
text_eq_sym (c ∷ s) (d ∷ t) = ground (arith, text_eq_sym s t)

any-append : (p : Text → Bool) (xs ys : List Text) → any p (xs ++ ys) ≡ any p xs || any p ys
any-append p [] ys = refl
any-append p (x ∷ xs) ys = ground (arith, any-append p xs ys)

all-append : (p : Text → Bool) (xs ys : List Text) → all p (xs ++ ys) ≡ all p xs && all p ys
all-append p [] ys = refl
all-append p (x ∷ xs) ys = ground (arith, all-append p xs ys)

is_distinct-append :
    (us : List Text) (u : Text)
    → is_distinct us ≡ true
    → any (text_eq u) us ≡ false
    → is_distinct (us ++ u ∷ []) ≡ true
is_distinct-append [] u h k = refl
is_distinct-append (x ∷ us) u h k = ground (
  arith,
  is_distinct-append us u (ground arith) (ground arith),
  any-append (text_eq x) us (u ∷ []),
  text_eq_sym x u,
)

pub normalise_url-https :
    (u : Text) → is_empty (normalise_url u) || is_https (normalise_url u) ≡ true
unfolding normalise_url
normalise_url-https u = elim (Bool-cases (is_empty (trim_space u))) [
  | inl e ↦ rw e refl
  | inr e ↦ elim (Bool-cases (has_prefix (secured (trim_space u)) https)) [
    | inl h ↦ rw (e, h) (ground arith)
    | inr h ↦ rw (e, h) refl
  ]
]

-- The invariant of the loop.
pub record IsGallery (primary : Text) (out : List Text) : Type 0 where
  pub secure : all is_https out ≡ true
  pub distinct : is_distinct out ≡ true
  pub others : any (text_eq primary) out ≡ false
  pub at_most_ten : leb (length out) 10 ≡ true

IsGallery-append :
    (primary : Text) (out : List Text) (u : Text)
    → IsGallery primary out
    → leb 10 (length out) ≡ false
    → is_shown primary out u ≡ false
    → is_empty u || is_https u ≡ true
    → IsGallery primary (out ++ u ∷ [])
IsGallery-append primary out u g room new secure = record {
  secure = all-append is_https out (u ∷ []) ∙ ground (arith, g.secure);
  distinct = is_distinct-append out u g.distinct (ground arith);
  others =
      any-append (text_eq primary) out (u ∷ []) ∙ ground (arith, g.others, text_eq_sym primary u);
  at_most_ten = rw (length-append out (u ∷ [])) (ground arith);
}

add_images-IsGallery :
    (primary : Text) (out more : List Text)
    → leb 10 (length out) ≡ false
    → IsGallery primary out
    → IsGallery primary (add_images primary out more)
unfolding add_images
add_images-IsGallery primary out [] room g = g
add_images-IsGallery primary out (a ∷ more) room g =
    elim (Bool-cases (is_shown primary out (normalise_url a))) [
      | inl shown ↦ rw (add_images, shown) (add_images-IsGallery primary out more room g)
      | inr new ↦
          let g' =
            IsGallery-append primary out (normalise_url a) g room new (normalise_url-https a) in
          elim (Bool-cases (length (out ++ normalise_url a ∷ []) == 10)) [
            | inl full ↦ rw (add_images, new, full) g'
            | inr fits ↦
                rw (add_images, new, fits)
                  (add_images-IsGallery primary (out ++ normalise_url a ∷ []) more
                    (ground (arith, length-append out (normalise_url a ∷ []), g'.at_most_ten)) g')
          ]
    ]

-- The additional images are at most ten, all https, no two the same and none the primary image.
pub deduplicate_images-IsGallery :
    (primary : Text) (additional : List Text)
    → IsGallery primary (deduplicate_images primary additional)
unfolding deduplicate_images
deduplicate_images-IsGallery primary additional =
    add_images-IsGallery primary [] additional refl
      (record { secure = refl; distinct = refl; others = refl; at_most_ten = refl })
