-- ===== src/Discount/Races.antt =====
-- The limit on redemptions, with requests one after the other and with requests whose checks all
-- come before their records.
use zentora_backend.Prelude.{
  ℕ, suc, ◌+◌, ◌≡◌, refl, sym, ap, ◌∙◌, inl, inr, Bool, true, false, ◌&&◌, not, none, some, List,
  [], ◌∷◌, arith, Bool-cases, length, subst, All,
}
use zentora_backend.Prelude.Int.{ℤ, pos, ◌==ℤ◌, ==ℤ_iff, leb_ℤ}
use zentora_backend.Prelude.Floats.{Floats}
use zentora_backend.Text.{Text}
use zentora_backend.Discount.{
  Discount, Redemption, RedeemRequest, Result, Error, ok, err, count_redemptions, is_taken,
  find_code, may_redeem, redemption, record_redemption, redeem, validate_and_redeem, is_used_up,
  validate_discount,
}
use zentora_backend.Discount.Redeemed.{validate_and_redeem-IsRedeemed}

module _ {F : Type 0} (fl : Floats F) (now : ℕ) (ds : List (Discount F)) where
  -- Requests that are served one after the other, with the database's answers.
  pub redeem_all : List (Bool × RedeemRequest F) → List Redemption → List Redemption
  redeem_all [] rs = rs
  redeem_all (q ∷ qs) rs = redeem_all qs (validate_and_redeem fl now q.0 q.1 ds rs).1

  -- The records of requests that have all passed the checks for one discount. Each caller runs the
  -- statements of `ValidateAndRedeem` one by one, with no lock and no transaction round them.
  pub record_all : List (RedeemRequest F) → Discount F → List Redemption → List Redemption
  record_all [] d rs = rs
  record_all (q ∷ qs) d rs = record_all qs d (record_redemption fl false (redemption fl d q) rs).1

  validate_and_redeem_failed :
      (refuses : Bool) (req : RedeemRequest F) (rs : List Redemption) {e : Error}
      {rs' : List Redemption}
      → validate_and_redeem fl now refuses req ds rs ≡ (err e, rs')
      → rs' ≡ rs
  unfolding validate_and_redeem record_redemption
  validate_and_redeem_failed refuses req rs {e} {rs'} h = run (may_redeem fl now req ds rs) h
    where
      run : (r : Result (Discount F)) → redeem fl refuses req r rs ≡ (err e, rs') → rs' ≡ rs
      run (err x) k = ground arith
      run (ok x) k = elim (Bool-cases (is_taken (redemption fl x req) rs)) [
        | inl taken ↦ ground arith
        | inr fresh ↦ elim (Bool-cases refuses) [
          | inl refused ↦ ground arith
          | inr accepted ↦ absurd (ground arith)
        ]
      ]

  -- The discounts with the id d all have the limit m.
  unfoldable pub HasLimit : ℤ → ℤ → Type 0
  HasLimit d m =
      (c : Text) (x : Discount F)
      → find_code fl c ds ≡ some x
      → x.id ≡ d
      → x.max_redemptions ≡ some m

  limit_kept :
      (d m : ℤ) (refuses : Bool) (req : RedeemRequest F) (rs : List Redemption)
      → HasLimit d m
      → leb_ℤ (pos (count_redemptions d rs)) m ≡ true
      → leb_ℤ (pos (count_redemptions d (validate_and_redeem fl now refuses req ds rs).1)) m ≡ true
  unfolding HasLimit count_redemptions
  limit_kept d m refuses req rs h k = run (validate_and_redeem fl now refuses req ds rs) refl
    where
      run :
          (p : Result (Discount F × F) × List Redemption)
          → validate_and_redeem fl now refuses req ds rs ≡ p
          → leb_ℤ (pos (count_redemptions d p.1)) m ≡ true
      run (err e, rs') eq = rw (validate_and_redeem_failed refuses req rs eq) k
      run (ok (x, off), rs') eq =
          let r = validate_and_redeem-IsRedeemed fl now refuses req ds rs eq in
          elim (Bool-cases (x.id ==ℤ d)) [
            | inl same ↦
                let here : x.id ≡ d = (==ℤ_iff x.id d).0 same in
                let limit = h req.code x r.allowed.found here in
                let free : is_used_up fl (some m) (count_redemptions d rs) ≡ false =
                  subst (λ l. is_used_up fl l (count_redemptions d rs) ≡ false) limit
                    (subst (λ i. is_used_up fl x.max_redemptions (count_redemptions i rs) ≡ false)
                      here r.allowed.left_over) in
                rw r.recorded (ground arith)
            | inr other ↦ rw r.recorded (ground arith)
          ]

  -- If all discounts with an id have the limit m and m is not exceeded before, then requests that are
  -- served one after the other, whatever the database refuses, do not exceed it.
  pub redeem_all-limit :
      (d m : ℤ) (qs : List (Bool × RedeemRequest F)) (rs : List Redemption)
      → HasLimit d m
      → leb_ℤ (pos (count_redemptions d rs)) m ≡ true
      → leb_ℤ (pos (count_redemptions d (redeem_all qs rs))) m ≡ true
  unfolding redeem_all
  redeem_all-limit d m [] rs h k = k
  redeem_all-limit d m (q ∷ qs) rs h k =
      redeem_all-limit d m qs (validate_and_redeem fl now q.0 q.1 ds rs).1 h
        (limit_kept d m q.0 q.1 rs h k)

  -- The orders are different and have not redeemed the discount.
  unfoldable pub are_fresh : Discount F → List (RedeemRequest F) → List Redemption → Bool
  are_fresh d [] rs = true
  are_fresh d (q ∷ qs) rs =
      not (is_taken (redemption fl d q) rs) && are_fresh d qs (redemption fl d q ∷ rs)

  record_all-fresh_count :
      (d : Discount F) (qs : List (RedeemRequest F)) (rs : List Redemption)
      → are_fresh d qs rs ≡ true
      → count_redemptions d.id (record_all qs d rs) ≡ count_redemptions d.id rs + length qs
  unfolding are_fresh record_all record_redemption
  record_all-fresh_count d [] rs h = omega arith
  record_all-fresh_count d (q ∷ qs) rs h =
      let fresh : is_taken (redemption fl d q) rs ≡ false = ground arith in
      let ih = record_all-fresh_count d qs (redemption fl d q ∷ rs) (ground arith) in
      let one : count_redemptions d.id (redemption fl d q ∷ rs) ≡ suc (count_redemptions d.id rs) =
        unfold count_redemptions in ground (arith, ==ℤ_iff d.id d.id) in
      rw fresh (omega (arith, ih, one))

  -- The discounts that requests check, all of them on the same rows.
  pub check_all : List (RedeemRequest F) → List Redemption → List (Result (Discount F))
  check_all [] rs = []
  check_all (q ∷ qs) rs = may_redeem fl now q ds rs ∷ check_all qs rs

  check_all_passes :
      (d : Discount F) (qs : List (RedeemRequest F)) (rs : List Redemption)
      → All
          (λ q. (find_code fl q.code ds ≡ some d) × (validate_discount fl now d q.amount ≡ none))
          qs
      → is_used_up fl d.max_redemptions (count_redemptions d.id rs) ≡ false
      → All (λ r. r ≡ ok d) (check_all qs rs)
  unfolding check_all may_redeem
  check_all_passes d [] rs h free = tt
  check_all_passes d (q ∷ qs) rs h free =
      (rw (may_redeem, h.0.0, h.0.1, free) refl, check_all_passes d qs rs h.1 free)

  -- If one redemption of a discount is left, and any number of requests for it, of different orders
  -- that have not redeemed it, are checked before the first of them is recorded, then all of them
  -- pass, and their records are all made: the limit is exceeded by all requests but one.
  pub check_all-record_all :
      (d : Discount F) (m : ℕ) (qs : List (RedeemRequest F)) (rs : List Redemption)
      → All
          (λ q. (find_code fl q.code ds ≡ some d) × (validate_discount fl now d q.amount ≡ none))
          qs
      → d.max_redemptions ≡ some (pos (suc m))
      → count_redemptions d.id rs ≡ m
      → are_fresh d qs rs ≡ true
      → All (λ r. r ≡ ok d) (check_all qs rs)
        × (count_redemptions d.id (record_all qs d rs) ≡ m + length qs)
  check_all-record_all d m qs rs ready limit left fresh = (
    check_all_passes d qs rs ready free,
    record_all-fresh_count d qs rs fresh ∙ ap (λ n. n + length qs) left,
  )
    where
      free : is_used_up fl d.max_redemptions (count_redemptions d.id rs) ≡ false
      free =
          subst (λ l. is_used_up fl l (count_redemptions d.id rs) ≡ false) (sym limit)
            (subst (λ n. is_used_up fl (some (pos (suc m))) n ≡ false) (sym left) (ground arith))
