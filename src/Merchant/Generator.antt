-- ===== src/Merchant/Generator.antt =====
-- `Generator.run` (internal/merchant/application/feedgen/generator.go): the loop over the batches of
-- the repository, of which `load` is LoadFeedBatch at a cursor (`none` is an error) and `count`
-- CountEligibleVariants. The loop runs on fuel.
pub mod Runs
use zentora_backend.Prelude.{
  ℕ, zero, suc, ◌+◌, ◌≡◌, Bool, true, false, Option, none, some, List, [], ◌∷◌, ◌++◌, if◌then◌else◌,
}
use zentora_backend.Prelude.Int.{ℤ, pos}
use zentora_backend.Text.{Text, is_empty}
use zentora_backend.Merchant.{FeedItem}
use zentora_backend.Merchant.Normalise.{normalise_item, is_valid_feed_item, resolve_link}

pub record Batch : Type 0 where
  pub items : List FeedItem
  pub total_count : ℤ
  pub next_cursor : ℤ
  pub has_more : Bool

pub record Tally : Type 0 where
  pub valid_count : ℕ
  pub invalid_count : ℕ
  pub skipped_no_img : ℕ

-- What becomes of one item of a batch.
pub data Verdict : Type 0 where
  emitted : FeedItem → Verdict
  skipped invalid : Verdict

pub data Outcome : Type 0 where
  done : List Batch → Tally → Outcome
  failed out_of_fuel : Outcome

module _ (equal_fold : Text → Text → Bool) (base : Text) where
  unfoldable pub prepared : FeedItem → FeedItem
  prepared i =
      normalise_item equal_fold
        (record i { link = resolve_link i.link base; mobile_link = resolve_link i.link base })

  unfoldable pub judge : FeedItem → Verdict
  judge i =
      if is_empty (prepared i).image_link
      then skipped
      else if is_valid_feed_item (prepared i)
      then emitted (prepared i)
      else invalid

  abbrev pub note : Verdict → List FeedItem × Tally → List FeedItem × Tally
  note (emitted j) (js, t) = (j ∷ js, record t { valid_count = suc t.valid_count })
  note skipped (js, t) = (js, record t { skipped_no_img = suc t.skipped_no_img })
  note invalid (js, t) = (js, record t { invalid_count = suc t.invalid_count })

  -- The items of one batch that are kept, in their order, and the counters afterwards.
  unfoldable pub sift : List FeedItem → Tally → List FeedItem × Tally
  sift [] t = ([], t)
  sift (i ∷ is) t = note (judge i) (sift is t)

  module _ (count : Option ℤ) (load : ℤ → Option Batch) where
    abbrev pub is_nil : List FeedItem → Bool
    is_nil [] = true
    is_nil (i ∷ is) = false

    abbrev pub kept : ℤ → Batch → List FeedItem → Batch
    kept total b js = record b { items = js; total_count = total }

    unfoldable pub loop : ℕ → ℤ → ℤ → List Batch → Tally → Outcome
    loop zero total cursor acc t = out_of_fuel
    loop (suc fuel) total cursor acc t = elim (load cursor) [
      | none ↦ failed
      | some b ↦ elim (is_nil b.items) [
        | true ↦ done acc t
        | false ↦
            let (js, t') = sift b.items t in
            elim b.has_more [
              | true ↦ loop fuel total b.next_cursor (acc ++ kept total b js ∷ []) t'
              | false ↦ done (acc ++ kept total b js ∷ []) t'
            ]
      ]
    ]

    unfoldable pub run : ℕ → Outcome
    run fuel = elim count [
      | none ↦ failed
      | some total ↦
          loop fuel total (pos 0) []
            (record { valid_count = 0; invalid_count = 0; skipped_no_img = 0 })
    ]
