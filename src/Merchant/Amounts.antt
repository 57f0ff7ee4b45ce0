-- ===== src/Merchant/Amounts.antt =====
-- Amounts, identifiers and availability as the feed prints them.
use zentora_backend.Prelude.{
  ℕ, zero, suc, ◌/◌, ◌%◌, ◌<◌, ◌≡◌, ◌≢◌, refl, sym, ap, ◌∙◌, inl, inr, false, ◌==◌, [], ◌∷◌, ◌++◌,
  arith, Bool-cases, All, ltb,
}
use zentora_backend.Prelude.Int.{pos}
use zentora_backend.Text.{Text}
use zentora_backend.Text.Decimal.{
  digits, itoa, digits-injective, digits-IsDigit, split_unique, IsDigit, value, value-digits,
}
use zentora_backend.Merchant.{two_digits, format, feed_item_id}

no_separator : (sep : ℕ) → sep < b'0' → (s : Text) → All IsDigit s → All (λ c. c ≢ sep) s
no_separator sep low [] h = tt
no_separator sep low (c ∷ s) h = (ground (arith, h.0.0), no_separator sep low s h.1)

-- The feed's ids tell apart any two variants of any two products (database ids are not negative).
pub feed_item_id-injective :
    (p v q w : ℕ) → feed_item_id (pos p) (pos v) ≡ feed_item_id (pos q) (pos w) → (p ≡ q) × (v ≡ w)
unfolding feed_item_id
feed_item_id-injective p v q w e =
    let (ps, vs) =
      split_unique b'-' (digits p) (digits q) {r = digits v} {s = digits w}
        (no_separator b'-' (omega arith) (digits p) (digits-IsDigit p))
        (no_separator b'-' (omega arith) (digits q) (digits-IsDigit q)) (unfold itoa in e) in
    (digits-injective p q ps, digits-injective v w vs)

-- A price as its whole and its fractional part, zero included.
format-parts :
    (n : ℕ) (c : Text)
    → format (record { amount_cents = pos n; currency = c })
      ≡ digits (n / 100) ++ (b'.' ∷ (two_digits (pos (n % 100)) ++ (b' ' ∷ c)))
unfolding format itoa
format-parts zero c = unfold two_digits digits in refl
format-parts (suc n) c = let nonzero : (suc n == 0) ≡ false = ground arith in rw nonzero refl

value-two_digits : (n : ℕ) → value 0 (two_digits (pos n)) ≡ n
unfolding two_digits
value-two_digits n = elim (Bool-cases (ltb n 10)) [
  | inl small ↦ rw small (unfold value in value-digits n)
  | inr big ↦ rw big (value-digits n)
]

two_digits-IsDigit : (n : ℕ) → All IsDigit (two_digits (pos n))
unfolding two_digits
two_digits-IsDigit n = elim (Bool-cases (ltb n 10)) [
  | inl small ↦ rw small ((omega arith, omega arith), digits-IsDigit n)
  | inr big ↦ rw big (digits-IsDigit n)
]

-- Prices that are printed alike (none of them negative) are the same amount of the same currency.
pub format-injective :
    (m n : ℕ) (c d : Text)
    → format (record { amount_cents = pos m; currency = c })
      ≡ format (record { amount_cents = pos n; currency = d })
    → (m ≡ n) × (c ≡ d)
format-injective m n c d e =
    let (wholes, rests) =
      split_unique b'.' (digits (m / 100)) (digits (n / 100))
        {r = two_digits (pos (m % 100)) ++ (b' ' ∷ c)}
        {s = two_digits (pos (n % 100)) ++ (b' ' ∷ d)}
        (no_separator b'.' (omega arith) (digits (m / 100)) (digits-IsDigit (m / 100)))
        (no_separator b'.' (omega arith) (digits (n / 100)) (digits-IsDigit (n / 100)))
        (sym (format-parts m c) ∙ e ∙ format-parts n d) in
    let (fractions, currencies) =
      split_unique b' ' (two_digits (pos (m % 100))) (two_digits (pos (n % 100))) {r = c} {s = d}
        (no_separator b' ' (omega arith) (two_digits (pos (m % 100)))
          (two_digits-IsDigit (m % 100)))
        (no_separator b' ' (omega arith) (two_digits (pos (n % 100)))
          (two_digits-IsDigit (n % 100)))
        rests in
    let whole : m / 100 ≡ n / 100 = digits-injective (m / 100) (n / 100) wholes in
    let fraction : m % 100 ≡ n % 100 =
      sym (value-two_digits (m % 100)) ∙ ap (value 0) fractions ∙ value-two_digits (n % 100) in
    (omega arith, currencies)
