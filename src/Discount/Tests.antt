-- ===== src/Discount/Tests.antt =====
-- A code that may be redeemed twice, and the theorems at it.
use zentora_backend.Prelude.{
  ℕ, ◌+◌, ◌*◌, ◌/◌, ◌≡◌, refl, Bool, true, false, none, some, List, [], ◌∷◌, arith, ltb, All,
  Bool-cases, inl, inr,
}
use zentora_backend.Prelude.Int.{pos, negsuc, leb_ℤ}
use zentora_backend.Prelude.Floats.{Floats}
use zentora_backend.Text.{lit}
use zentora_backend.Discount.{
  Discount, Redemption, RedeemRequest, ok, count_redemptions, find_code, validate_discount,
  calculate_discount, may_redeem, record_redemption, redemption, validate_and_redeem, has_code,
}
use zentora_backend.Discount.Redeemed.{IsRedeemed, validate_and_redeem-IsRedeemed}
use zentora_backend.Discount.Races.{
  redeem_all, record_all, check_all, are_fresh, HasLimit, redeem_all-limit, check_all-record_all,
}

abbrev cents : Floats ℕ
cents = record {
  of_int = λ n. elim n [ pos k ↦ k | negsuc k ↦ 0 ];
  add = λ a b. a + b;
  mul = λ a b. a * b;
  div = λ a b. a / b;
  lt = ltb;
}

abbrev welcome : Discount ℕ
welcome = record {
  id = pos 1;
  code = some (lit "HI");
  discount_type = lit "fixed";
  value = 300;
  min_order_amount = some 100;
  max_redemptions = some (pos 2);
  starts_at = some 1;
  ends_at = some 9;
  is_active = true;
}

abbrev codes : List (Discount ℕ)
codes = welcome ∷ []

abbrev order_of : ℕ → RedeemRequest ℕ
order_of n = record { code = lit "HI"; order_id = pos n; user_id = none; amount = 200 }

abbrev used : ℕ → Redemption
used n = redemption cents welcome (order_of n)

redeems :
    validate_and_redeem cents 5 false (order_of 7) codes (used 6 ∷ [])
    ≡ (ok (welcome, 200), used 7 ∷ used 6 ∷ [])
unfolding validate_and_redeem may_redeem find_code validate_discount calculate_discount
    count_redemptions record_redemption
redeems = refl

validate_and_redeem-IsRedeemed_example :
    IsRedeemed cents 5 (order_of 7) codes (used 6 ∷ []) (used 7 ∷ used 6 ∷ []) welcome 200
validate_and_redeem-IsRedeemed_example =
    validate_and_redeem-IsRedeemed cents 5 false (order_of 7) codes (used 6 ∷ []) redeems

abbrev rush : List (Bool × RedeemRequest ℕ)
rush = (false, order_of 7) ∷ (true, order_of 8) ∷ (false, order_of 9) ∷ []

codes-HasLimit : HasLimit cents 5 codes (pos 1) (pos 2)
unfolding HasLimit find_code
codes-HasLimit c x e same = elim (Bool-cases (has_code c (some (lit "HI")))) [
  | inl h ↦ ground arith
  | inr h ↦ absurd (ground arith)
]

redeem_all-limit_example :
    leb_ℤ (pos (count_redemptions (pos 1) (redeem_all cents 5 codes rush (used 6 ∷ [])))) (pos 2)
    ≡ true
redeem_all-limit_example =
    redeem_all-limit cents 5 codes (pos 1) (pos 2) rush (used 6 ∷ []) codes-HasLimit
      (unfold count_redemptions in refl)

finds : find_code cents (lit "HI") codes ≡ some welcome
unfolding find_code
finds = refl

is_ready : validate_discount cents 5 welcome 200 ≡ none
unfolding validate_discount
is_ready = refl

are_new :
    are_fresh cents 5 codes welcome (order_of 7 ∷ order_of 8 ∷ order_of 9 ∷ []) (used 6 ∷ []) ≡ true
unfolding are_fresh
are_new = refl

check_all-record_all_example :
    All
      (λ r. r ≡ ok welcome)
      (check_all cents 5 codes (order_of 7 ∷ order_of 8 ∷ order_of 9 ∷ []) (used 6 ∷ []))
    × (count_redemptions (pos 1) (
          record_all cents 5 codes
            (order_of 7 ∷ order_of 8 ∷ order_of 9 ∷ [])
            welcome
            (used 6 ∷ []))
        ≡ 1 + 3)
check_all-record_all_example =
    check_all-record_all cents 5 codes welcome 1 (order_of 7 ∷ order_of 8 ∷ order_of 9 ∷ [])
      (used 6 ∷ []) ((finds, is_ready), ((finds, is_ready), ((finds, is_ready), tt))) refl
      (unfold count_redemptions in refl) are_new
