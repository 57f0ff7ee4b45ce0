-- ===== src/Discovery/Ids.antt =====
-- `normalizeFilterIDs` gives a canonical list.
use zentora_backend.Prelude.{
  ◌≡◌, refl, sym, ap, ◌∙◌, inl, inr, Bool, true, false, ◌&&◌, ◌||◌, not, List, [], ◌∷◌, arith,
  Bool-cases,
}
use zentora_backend.Prelude.Int.{ℤ, pos, ◌==ℤ◌, leb_ℤ, ltb_ℤ, ==ℤ_iff}
use zentora_backend.Discovery.{
  ◌>>=◌, Result, ok, err, mem_ℤ, insert_sorted, sort_ids, collect_ids, normalize_filter_ids,
}

-- Strictly ascending.
abbrev pub is_ascending : List ℤ → Bool
is_ascending [] = true
is_ascending (x ∷ []) = true
is_ascending (x ∷ y ∷ ys) = ltb_ℤ x y && is_ascending (y ∷ ys)

abbrev pub all_positive : List ℤ → Bool
all_positive [] = true
all_positive (x ∷ xs) = ltb_ℤ (pos 0) x && all_positive xs

-- No value occurs twice.
abbrev pub is_distinct : List ℤ → Bool
is_distinct [] = true
is_distinct (x ∷ xs) = not (mem_ℤ x xs) && is_distinct xs

mem-insert_sorted : (v x : ℤ) (xs : List ℤ) → mem_ℤ v (insert_sorted x xs) ≡ (v ==ℤ x) || mem_ℤ v xs
unfolding insert_sorted
mem-insert_sorted v x [] = refl
mem-insert_sorted v x (y ∷ ys) = ground (arith, mem-insert_sorted v x ys)

mem-sort_ids : (v : ℤ) (xs : List ℤ) → mem_ℤ v (sort_ids xs) ≡ mem_ℤ v xs
unfolding sort_ids
mem-sort_ids v [] = refl
mem-sort_ids v (x ∷ xs) =
    mem-insert_sorted v x (sort_ids xs) ∙ ap (λ b. (v ==ℤ x) || b) (mem-sort_ids v xs)

all_positive-insert_sorted :
    (x : ℤ) (xs : List ℤ) → all_positive (insert_sorted x xs) ≡ ltb_ℤ (pos 0) x && all_positive xs
unfolding insert_sorted
all_positive-insert_sorted x [] = refl
all_positive-insert_sorted x (y ∷ ys) = ground (arith, all_positive-insert_sorted x ys)

all_positive-sort_ids : (xs : List ℤ) → all_positive (sort_ids xs) ≡ all_positive xs
unfolding sort_ids
all_positive-sort_ids [] = refl
all_positive-sort_ids (x ∷ xs) =
    all_positive-insert_sorted x (sort_ids xs)
    ∙ ap (λ b. ltb_ℤ (pos 0) x && b) (all_positive-sort_ids xs)

is_ascending-insert_sorted :
    (x : ℤ) (xs : List ℤ)
    → is_ascending xs ≡ true
    → mem_ℤ x xs ≡ false
    → is_ascending (insert_sorted x xs) ≡ true
unfolding insert_sorted
is_ascending-insert_sorted x [] h m = refl
is_ascending-insert_sorted x (y ∷ []) h m = ground arith
is_ascending-insert_sorted x (y ∷ z ∷ ys) h m =
    ground (arith, is_ascending-insert_sorted x (z ∷ ys))

is_ascending-sort_ids : (xs : List ℤ) → is_distinct xs ≡ true → is_ascending (sort_ids xs) ≡ true
unfolding sort_ids
is_ascending-sort_ids [] h = refl
is_ascending-sort_ids (x ∷ xs) h =
    is_ascending-insert_sorted x (sort_ids xs) (is_ascending-sort_ids xs (ground arith))
      (mem-sort_ids x xs ∙ ground arith)

-- The loop keeps what it has and adds the rest, once each.
record IsCollected (acc vs ns : List ℤ) : Type 0 where
  distinct : is_distinct ns ≡ true
  positive : all_positive ns ≡ true
  members : (x : ℤ) → mem_ℤ x ns ≡ mem_ℤ x acc || mem_ℤ x vs

collect_ids-IsCollected :
    (acc vs : List ℤ) {ns : List ℤ}
    → is_distinct acc ≡ true
    → all_positive acc ≡ true
    → collect_ids acc vs ≡ ok ns
    → IsCollected acc vs ns
unfolding collect_ids
collect_ids-IsCollected acc [] {ns} d p e =
    let same : ns ≡ acc = ground arith in
    rw same (record { distinct = d; positive = p; members = λ x. ground arith })
collect_ids-IsCollected acc (v ∷ vs) {ns} d p e = elim (Bool-cases (mem_ℤ v acc)) [
  | inl seen ↦
      let rest = collect_ids-IsCollected acc vs {ns = ns} d p (ground arith) in
      record {
        distinct = rest.distinct;
        positive = rest.positive;
        members = λ x. rest.members x ∙ again x seen;
      }
  | inr new ↦
      let rest =
        collect_ids-IsCollected (v ∷ acc) vs {ns = ns} (ground arith) (ground arith)
          (ground arith) in
      record {
        distinct = rest.distinct;
        positive = rest.positive;
        members = λ x. rest.members x ∙ ground arith;
      }
]
  where
    again :
        (x : ℤ) → mem_ℤ v acc ≡ true → mem_ℤ x acc || mem_ℤ x vs ≡ mem_ℤ x acc || mem_ℤ x (v ∷ vs)
    again x seen = elim (Bool-cases (x ==ℤ v)) [
      | inl same ↦ rw ((==ℤ_iff x v).0 same) (ground arith)
      | inr other ↦ ground arith
    ]

-- The accepted filter is strictly ascending (so nothing occurs twice) and positive, and it has
-- exactly the requested ids.
pub normalize_filter_ids-canonical :
    (vs : List ℤ) {ns : List ℤ}
    → normalize_filter_ids vs ≡ ok ns
    → (is_ascending ns ≡ true) × (all_positive ns ≡ true) × ((x : ℤ) → mem_ℤ x ns ≡ mem_ℤ x vs)
unfolding normalize_filter_ids
normalize_filter_ids-canonical [] {ns} e =
    let same : ns ≡ [] = ground arith in rw same (refl, refl, λ x. refl)
normalize_filter_ids-canonical (v ∷ vs) {ns} e = run (collect_ids [] (v ∷ vs)) refl e
  where
    run :
        (r : Result (List ℤ))
        → collect_ids [] (v ∷ vs) ≡ r
        → (do ids ← r; ok (sort_ids ids)) ≡ ok ns
        → (is_ascending ns ≡ true)
          × (all_positive ns ≡ true)
          × ((x : ℤ) → mem_ℤ x ns ≡ mem_ℤ x (v ∷ vs))
    run (err x) e1 e2 = cc
    run (ok ids) e1 e2 =
        let c = collect_ids-IsCollected [] (v ∷ vs) refl refl e1 in
        let same : ns ≡ sort_ids ids = ground arith in
        rw same (
          is_ascending-sort_ids ids c.distinct,
          all_positive-sort_ids ids ∙ c.positive,
          λ x. mem-sort_ids x ids ∙ c.members x,
        )

ascending_above :
    (x v : ℤ) (xs : List ℤ) → is_ascending (x ∷ xs) ≡ true → mem_ℤ v xs ≡ true → ltb_ℤ x v ≡ true
ascending_above x v [] h m = cc
ascending_above x v (y ∷ ys) h m = elim (Bool-cases (v ==ℤ y)) [
  | inl same ↦ rw ((==ℤ_iff v y).0 same) (ground arith)
  | inr other ↦ ground (arith, ascending_above y v ys (ground arith) (ground arith))
]

tail_ascending : (x : ℤ) (xs : List ℤ) → is_ascending (x ∷ xs) ≡ true → is_ascending xs ≡ true
tail_ascending x [] h = refl
tail_ascending x (y ∷ ys) h = ground arith

self_mem : (x : ℤ) (xs : List ℤ) → mem_ℤ x (x ∷ xs) ≡ true
self_mem x xs = ground (arith, ==ℤ_iff x x)

-- A head that is in another ascending list is not below that list's head.
head_least :
    (x y : ℤ) (ys : List ℤ)
    → is_ascending (y ∷ ys) ≡ true
    → mem_ℤ x (y ∷ ys) ≡ true
    → leb_ℤ y x ≡ true
head_least x y ys h m = elim (Bool-cases (x ==ℤ y)) [
  | inl same ↦ rw ((==ℤ_iff x y).0 same) (ground arith)
  | inr other ↦ ground (arith, ascending_above y x ys h (ground arith))
]

leb_ℤ_antisym : (x y : ℤ) → leb_ℤ x y ≡ true → leb_ℤ y x ≡ true → x ≡ y
leb_ℤ_antisym x y a b = ground arith

-- The members determine an ascending list.
pub ascending_unique :
    (xs ys : List ℤ)
    → is_ascending xs ≡ true
    → is_ascending ys ≡ true
    → ((v : ℤ) → mem_ℤ v xs ≡ mem_ℤ v ys)
    → xs ≡ ys
ascending_unique [] [] hx hy m = refl
ascending_unique [] (y ∷ ys) hx hy m = absurd (ground (arith, m y, self_mem y ys))
ascending_unique (x ∷ xs) [] hx hy m = absurd (ground (arith, m x, self_mem x xs))
ascending_unique (x ∷ xs) (y ∷ ys) hx hy m =
    let heads =
      leb_ℤ_antisym x y (head_least y x xs hx (m y ∙ self_mem y ys))
        (head_least x y ys hy (sym (m x) ∙ self_mem x xs)) in
    let tails =
      ascending_unique xs ys (tail_ascending x xs hx) (tail_ascending y ys hy)
        (λ v. within v heads) in
    λ i. heads i ∷ tails i
  where
    within : (v : ℤ) → x ≡ y → mem_ℤ v xs ≡ mem_ℤ v ys
    within v same = elim (Bool-cases (v ==ℤ x)) [
      | inl e ↦
          let here = (==ℤ_iff v x).0 e in
          elim (Bool-cases (mem_ℤ v xs)) [
            | inl a ↦ absurd (ground (arith, ascending_above x v xs hx a, here))
            | inr a ↦ elim (Bool-cases (mem_ℤ v ys)) [
              | inl b ↦ absurd (ground (arith, ascending_above y v ys hy b, here))
              | inr b ↦ a ∙ sym b
            ]
          ]
      | inr e ↦ ground (arith, m v)
    ]

collect_ids-succeeds :
    (acc vs : List ℤ) → all_positive vs ≡ true → (ns : List ℤ) × (collect_ids acc vs ≡ ok ns)
unfolding collect_ids
collect_ids-succeeds acc [] h = (acc, refl)
collect_ids-succeeds acc (v ∷ vs) h = elim (Bool-cases (mem_ℤ v acc)) [
  | inl seen ↦ let (ns, e) = collect_ids-succeeds acc vs (ground arith) in (ns, ground arith)
  | inr new ↦ let (ns, e) = collect_ids-succeeds (v ∷ acc) vs (ground arith) in (ns, ground arith)
]

-- A canonical list is left alone.
pub normalize_filter_ids_fixed :
    (ns : List ℤ)
    → is_ascending ns ≡ true
    → all_positive ns ≡ true
    → normalize_filter_ids ns ≡ ok ns
normalize_filter_ids_fixed [] a p = unfold normalize_filter_ids in refl
normalize_filter_ids_fixed (v ∷ vs) a p =
    let (ids, e) = collect_ids-succeeds [] (v ∷ vs) p in
    let done : normalize_filter_ids (v ∷ vs) ≡ ok (sort_ids ids) =
      unfold normalize_filter_ids in ground arith in
    let (a', p', m) = normalize_filter_ids-canonical (v ∷ vs) done in
    done ∙ ap ok (ascending_unique (sort_ids ids) (v ∷ vs) a' a m)
