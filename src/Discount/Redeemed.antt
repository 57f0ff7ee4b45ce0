-- ===== src/Discount/Redeemed.antt =====
-- What a redemption that succeeds has passed and leaves.
use zentora_backend.Prelude.{
  ℕ, suc, ◌≡◌, refl, inl, inr, Bool, true, false, some, List, ◌∷◌, arith, Bool-cases, Option-cases,
}
use zentora_backend.Prelude.Int.{==ℤ_iff}
use zentora_backend.Prelude.Floats.{Floats}
use zentora_backend.Discount.{
  Discount, Redemption, RedeemRequest, Result, ok, err, count_redemptions, is_taken, find_code,
  is_before, is_after, is_below, validate_discount, calculate_discount, is_used_up, may_redeem,
  redemption, record_redemption, redeem, validate_and_redeem,
}
use zentora_backend.Text.{lit, text_eq}

module _ {F : Type 0} (fl : Floats F) where
  -- The state of the discount and of the request when the code may be redeemed.
  pub record MayRedeem (now : ℕ) (req : RedeemRequest F) (ds : List (Discount F))
      (rs : List Redemption) (d : Discount F) : Type 0 where
    pub found : find_code fl req.code ds ≡ some d
    pub active : d.is_active ≡ true
    pub started : is_before fl now d.starts_at ≡ false
    pub running : is_after fl now d.ends_at ≡ false
    pub enough : is_below fl req.amount d.min_order_amount ≡ false
    pub left_over : is_used_up fl d.max_redemptions (count_redemptions d.id rs) ≡ false

  pub may_redeem-MayRedeem :
      (now : ℕ) (req : RedeemRequest F) (ds : List (Discount F)) (rs : List Redemption)
      {d : Discount F}
      → may_redeem fl now req ds rs ≡ ok d
      → MayRedeem now req ds rs d
  unfolding may_redeem validate_discount
  may_redeem-MayRedeem now req ds rs {d} e = elim (Option-cases (find_code fl req.code ds)) [
    | inl missing ↦ absurd (ground arith)
    | inr (x, found) ↦ elim (Option-cases (validate_discount fl now x req.amount)) [
      | inr (why, bad) ↦ absurd (ground arith)
      | inl good ↦ elim (Bool-cases (is_used_up fl x.max_redemptions (count_redemptions x.id rs))) [
        | inl used ↦ absurd (ground arith)
        | inr free ↦
            let same : d ≡ x = ground arith in
            rw same (record {
              found = found;
              active = ground (arith, good);
              started = ground (arith, good);
              running = ground (arith, good);
              enough = ground (arith, good);
              left_over = free;
            })
      ]
    ]
  ]

  -- What changes in the tables.
  pub record IsRedeemed (now : ℕ) (req : RedeemRequest F) (ds : List (Discount F))
      (rs rs' : List Redemption) (d : Discount F) (off : F) : Type 0 where
    pub allowed : MayRedeem now req ds rs d
    pub first_time : is_taken (redemption fl d req) rs ≡ false
    pub recorded : rs' ≡ redemption fl d req ∷ rs
    pub counted : count_redemptions d.id rs' ≡ suc (count_redemptions d.id rs)
    pub reduction : off ≡ calculate_discount fl d req.amount

  -- A redemption that succeeds is of the discount with the request's code, which is active, within
  -- its dates, and has a redemption left; the order is not below the least amount and has not
  -- redeemed the discount before; one redemption of that order is recorded, and the reduction is the
  -- one that the discount gives on the order's amount.
  pub validate_and_redeem-IsRedeemed :
      (now : ℕ) (refuses : Bool) (req : RedeemRequest F) (ds : List (Discount F))
      (rs : List Redemption) {d : Discount F} {off : F} {rs' : List Redemption}
      → validate_and_redeem fl now refuses req ds rs ≡ (ok (d, off), rs')
      → IsRedeemed now req ds rs rs' d off
  unfolding validate_and_redeem record_redemption count_redemptions
  validate_and_redeem-IsRedeemed now refuses req ds rs {d} {off} {rs'} e =
      run (may_redeem fl now req ds rs) refl e
    where
      run :
          (r : Result (Discount F))
          → may_redeem fl now req ds rs ≡ r
          → redeem fl refuses req r rs ≡ (ok (d, off), rs')
          → IsRedeemed now req ds rs rs' d off
      run (err x) e1 e2 = cc
      run (ok x) e1 e2 = elim (Bool-cases (is_taken (redemption fl x req) rs)) [
        | inl taken ↦ absurd (ground arith)
        | inr fresh ↦ elim (Bool-cases refuses) [
          | inl refused ↦ absurd (ground arith)
          | inr accepted ↦
              let same : d ≡ x = ground arith in
              let rows : rs' ≡ redemption fl x req ∷ rs = ground arith in
              let off_ : off ≡ calculate_discount fl x req.amount = ground arith in
              let one : count_redemptions x.id (redemption fl x req ∷ rs)
                  ≡ suc (count_redemptions x.id rs) =
                ground (arith, ==ℤ_iff x.id x.id) in
              rw (same, rows, off_)
                (record {
                  allowed = may_redeem-MayRedeem now req ds rs e1;
                  first_time = fresh;
                  recorded = refl;
                  counted = one;
                  reduction = refl;
                })
        ]
      ]

  -- If no amount is less than itself, a fixed discount never takes off more than the order's amount.
  pub calculate_discount_bounded :
      (d : Discount F) (amount : F)
      → fl.lt amount amount ≡ false
      → text_eq d.discount_type (lit "percentage") ≡ false
      → text_eq d.discount_type (lit "fixed") ≡ true
      → fl.lt amount (calculate_discount fl d amount) ≡ false
  unfolding calculate_discount
  calculate_discount_bounded d amount irr p f = elim (Bool-cases (fl.lt amount d.value)) [
    | inl more ↦ rw (p, f, more) irr
    | inr less ↦ rw (p, f, less) less
  ]
