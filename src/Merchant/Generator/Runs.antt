-- ===== src/Merchant/Generator/Runs.antt =====
-- A run of the generator: what it emits, what it counts, and that it ends.
use zentora_backend.Prelude.{
  ℕ, zero, suc, ◌+◌, ◌≤◌, ◌≡◌, ◌≢◌, refl, sym, inl, inr, Bool, true, Option, some, List, [], ◌∷◌,
  ◌++◌, arith, Bool-cases, Option-cases, All, All-append, length,
}
use zentora_backend.Prelude.Int.{ℤ, pos, ltb_ℤ, leb_ℤ, pos_part, neg_part}
use zentora_backend.Text.{Text, is_empty}
use zentora_backend.Merchant.{FeedItem}
use zentora_backend.Merchant.Normalise.{is_valid_feed_item}
use zentora_backend.Merchant.Normalise.Listed.{IsListed, normalise_item-IsListed}
use zentora_backend.Merchant.Generator.{
  Batch, Tally, Verdict, emitted, skipped, invalid, done, out_of_fuel, prepared, judge, note, sift,
  is_nil, kept, loop, run,
}

-- The items of some batches.
abbrev pub count_items : List Batch → ℕ
count_items [] = 0
count_items (b ∷ bs) = length b.items + count_items bs

module _ (equal_fold : Text → Text → Bool) (base : Text) where
  judge-IsListed : (i j : FeedItem) → judge equal_fold base i ≡ emitted j → IsListed j
  unfolding judge prepared
  judge-IsListed i j e = elim (Bool-cases (is_empty (prepared equal_fold base i).image_link)) [
    | inl no_image ↦ absurd (ground arith)
    | inr image ↦ elim (Bool-cases (is_valid_feed_item (prepared equal_fold base i))) [
      | inl v ↦
          let same : j ≡ prepared equal_fold base i = ground arith in
          rw same (normalise_item-IsListed equal_fold _ v)
      | inr v ↦ absurd (ground arith)
    ]
  ]

  sift-IsListed : (is : List FeedItem) (t : Tally) → All IsListed (sift equal_fold base is t).0
  unfolding sift
  sift-IsListed [] t = tt
  sift-IsListed (i ∷ is) t = noted (judge equal_fold base i) refl (sift-IsListed is t)
    where
      noted :
          (v : Verdict)
          → judge equal_fold base i ≡ v
          → All IsListed (sift equal_fold base is t).0
          → All IsListed (note equal_fold base v (sift equal_fold base is t)).0
      noted (emitted j) e h = (judge-IsListed i j e, h)
      noted skipped e h = h
      noted invalid e h = h

  -- The counters count every item once, and the valid ones are those that are kept.
  sift_counts :
      (is : List FeedItem) (t : Tally)
      → ((sift equal_fold base is t).1.valid_count
          ≡ t.valid_count + length (sift equal_fold base is t).0)
        × ((sift equal_fold base is t).1.valid_count
              + (sift equal_fold base is t).1.invalid_count
              + (sift equal_fold base is t).1.skipped_no_img
            ≡ t.valid_count + t.invalid_count + t.skipped_no_img + length is)
  unfolding sift
  sift_counts [] t = ground arith
  sift_counts (i ∷ is) t = noted (judge equal_fold base i) (sift_counts is t)
    where
      noted :
          (v : Verdict)
          → ((sift equal_fold base is t).1.valid_count
              ≡ t.valid_count + length (sift equal_fold base is t).0)
            × ((sift equal_fold base is t).1.valid_count
                  + (sift equal_fold base is t).1.invalid_count
                  + (sift equal_fold base is t).1.skipped_no_img
                ≡ t.valid_count + t.invalid_count + t.skipped_no_img + length is)
          → ((note equal_fold base v (sift equal_fold base is t)).1.valid_count
              ≡ t.valid_count + length (note equal_fold base v (sift equal_fold base is t)).0)
            × ((note equal_fold base v (sift equal_fold base is t)).1.valid_count
                  + (note equal_fold base v (sift equal_fold base is t)).1.invalid_count
                  + (note equal_fold base v (sift equal_fold base is t)).1.skipped_no_img
                ≡ t.valid_count + t.invalid_count + t.skipped_no_img + suc (length is))
      noted (emitted j) h = (omega (arith, h.0), omega (arith, h.1))
      noted skipped h = (omega (arith, h.0), omega (arith, h.1))
      noted invalid h = (omega (arith, h.0), omega (arith, h.1))

  abbrev IsListedBatch : Batch → Type 0
  IsListedBatch b = All IsListed b.items

  count_items-append :
      (xs ys : List Batch) → count_items (xs ++ ys) ≡ count_items xs + count_items ys
  count_items-append [] ys = omega arith
  count_items-append (x ∷ xs) ys = omega (arith, count_items-append xs ys)

  module _ (count : Option ℤ) (load : ℤ → Option Batch) where
    record IsReport (bs : List Batch) (t : Tally) : Type 0 where
      listed : All IsListedBatch bs
      counted : t.valid_count ≡ count_items bs

    sift-IsReport :
        (total : ℤ) (b : Batch) (acc : List Batch) (t : Tally)
        → IsReport acc t
        → IsReport
            (acc ++ kept equal_fold base count load total b (sift equal_fold base b.items t).0 ∷ [])
            (sift equal_fold base b.items t).1
    sift-IsReport total b acc t h = record {
      listed = All-append IsListedBatch acc _ h.listed (sift-IsListed b.items t, tt);
      counted = omega (
        arith,
        (sift_counts b.items t).0,
        h.counted,
        count_items-append acc
            (kept equal_fold base count load total b (sift equal_fold base b.items t).0 ∷ []),
      );
    }

    loop-IsReport :
        (fuel : ℕ) (total cursor : ℤ) (acc : List Batch) (t : Tally) {bs : List Batch} {t' : Tally}
        → IsReport acc t
        → loop equal_fold base count load fuel total cursor acc t ≡ done bs t'
        → IsReport bs t'
    unfolding loop
    loop-IsReport zero total cursor acc t h e = cc
    loop-IsReport (suc fuel) total cursor acc t {bs} {t'} h e = elim (Option-cases (load cursor)) [
      | inl fails ↦ absurd (ground arith)
      | inr (b, loads) ↦ elim (Bool-cases (is_nil equal_fold base count load b.items)) [
        | inl last ↦
            let (same_bs, same_t) : (acc ≡ bs) × (t ≡ t') = ground arith in
            rw (sym same_bs, sym same_t) h
        | inr more ↦ elim (Bool-cases b.has_more) [
          | inl again ↦
              loop-IsReport fuel total b.next_cursor _ _ (sift-IsReport total b acc t h)
                (ground arith)
          | inr ends ↦
              let next = sift-IsReport total b acc t h in
              let same : done
                    (acc
                      ++ kept equal_fold base count load total b (sift equal_fold base b.items t).0
                        ∷ [])
                    (sift equal_fold base b.items t).1
                  ≡ done bs t' =
                ground arith in
              finished same next
        ]
      ]
    ]
      where
        finished :
            {as_ : List Batch} {u : Tally}
            → done as_ u ≡ done bs t'
            → IsReport as_ u
            → IsReport bs t'
        finished {as_} {u} d r =
            let (same_bs, same_t) : (as_ ≡ bs) × (u ≡ t') = ground arith in
            rw (sym same_bs, sym same_t) r

    -- Every item that a run emits has an id, https links to its page and its picture, a price, a
    -- known availability and condition, a title that is not blank and has at most 150 characters, a
    -- description of at most 5000, at most ten further pictures, all https, different and not the
    -- main one, and a sale price only if that is another price; and the number of valid items that is
    -- reported is the number of items emitted.
    pub run-IsListed :
        (fuel : ℕ) {bs : List Batch} {t : Tally}
        → run equal_fold base count load fuel ≡ done bs t
        → All (λ b. All IsListed b.items) bs × (t.valid_count ≡ count_items bs)
    unfolding run
    run-IsListed fuel {bs} {t} e = elim (Option-cases count) [
      | inl fails ↦ absurd (ground arith)
      | inr (total, counts) ↦
          let r =
            loop-IsReport fuel total (pos 0) []
              (record { valid_count = 0; invalid_count = 0; skipped_no_img = 0 }) {bs = bs} {t' = t}
              (record { listed = tt; counted = refl }) (ground arith) in
          (r.listed, r.counted)
    ]

    -- What keyset pagination promises: a batch that is not the last one has a cursor that is
    -- further on, and no cursor lies beyond the last variant's id.
    pub record IsKeyset (last : ℕ) : Type 0 where
      pub advances :
          (cursor : ℤ) (b : Batch)
          → load cursor ≡ some b
          → b.has_more ≡ true
          → (ltb_ℤ cursor b.next_cursor ≡ true) × (leb_ℤ b.next_cursor (pos last) ≡ true)

    -- Where a loop that runs out of fuel goes on.
    loop_goes_on :
        (fuel : ℕ) (total cursor : ℤ) (acc : List Batch) (t : Tally)
        → loop equal_fold base count load (suc fuel) total cursor acc t ≡ out_of_fuel
        → (b : Batch) × (load cursor ≡ some b)
          × (b.has_more ≡ true)
          × (acc' : List Batch) × (t' : Tally) × (loop equal_fold base count load fuel total
                b.next_cursor acc' t'
              ≡ out_of_fuel)
    unfolding loop
    loop_goes_on fuel total cursor acc t e = elim (Option-cases (load cursor)) [
      | inl fails ↦ absurd (ground arith)
      | inr (b, loads) ↦ elim (Bool-cases (is_nil equal_fold base count load b.items)) [
        | inl stop ↦ absurd (ground arith)
        | inr more ↦ elim (Bool-cases b.has_more) [
          | inr ends ↦ absurd (ground arith)
          | inl again ↦ (
            b,
            loads,
            again,
            acc ++ kept equal_fold base count load total b (sift equal_fold base b.items t).0 ∷ [],
            (sift equal_fold base b.items t).1,
            ground arith,
          )
        ]
      ]
    ]

    loop_ends :
        (last fuel : ℕ) (total cursor : ℤ) (acc : List Batch) (t : Tally)
        → IsKeyset last
        → last + neg_part cursor ≤ pos_part cursor + fuel
        → loop equal_fold base count load (suc fuel) total cursor acc t ≢ out_of_fuel
    loop_ends last zero total cursor acc t k room e =
        let (b, loads, again, acc', t', e') = loop_goes_on zero total cursor acc t e in
        let law = k.advances cursor b loads again in ground (arith, law)
    loop_ends last (suc fuel) total cursor acc t k room e =
        let (b, loads, again, acc', t', e') = loop_goes_on (suc fuel) total cursor acc t e in
        let law = k.advances cursor b loads again in
        loop_ends last fuel total b.next_cursor acc' t' k (ground (arith, law)) e'

    -- If cursors advance and none lies beyond the last variant's id, a run ends: with one round more
    -- than that id, the fuel does not run out, whatever the batches hold.
    pub run_ends :
        (last : ℕ) → IsKeyset last → run equal_fold base count load (suc last) ≢ out_of_fuel
    unfolding run
    run_ends last k e = elim (Option-cases count) [
      | inl fails ↦ ground arith
      | inr (total, counts) ↦
          loop_ends last last total (pos 0) []
            (record { valid_count = 0; invalid_count = 0; skipped_no_img = 0 }) k (omega arith)
            (ground arith)
    ]
