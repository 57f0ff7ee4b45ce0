-- ===== src/Text/Decimal.antt =====
-- Integers in decimal, as `%d`, `strconv.Itoa` and `strconv.FormatInt(…, 10)` print them.
use zentora_backend.Prelude.{
  ℕ, zero, suc, ◌+◌, ◌-◌, ◌*◌, ◌/◌, ◌%◌, ◌≤◌, ◌<◌, ◌≡◌, refl, sym, ap, ◌∙◌, ◌≢◌, inl, inr, [], ◌∷◌,
  ◌++◌, arith, All, All-append, ltb, if◌then◌else◌, Bool-cases,
}
use zentora_backend.Prelude.Int.{ℤ, pos, negsuc}
use zentora_backend.Text.{Text}

-- The digits of a number below the fuel.
unfoldable pub digits_in : ℕ → ℕ → Text
digits_in zero n = []
digits_in (suc f) n =
    let front = digits_in f (n / 10) in
    if ltb n 10 then (b'0' + n) ∷ [] else front ++ (b'0' + n % 10) ∷ []

unfoldable pub digits : ℕ → Text
unfolding digits_in
digits n = digits_in (suc n) n

unfoldable pub itoa : ℤ → Text
unfolding digits
itoa (pos n) = digits n
itoa (negsuc n) = b'-' ∷ digits (suc n)

-- The number that a run of digits stands for.
unfoldable pub value : ℕ → Text → ℕ
value acc [] = acc
value acc (c ∷ s) = value (acc * 10 + (c - b'0')) s

value-append : (s : Text) (c acc : ℕ) → value acc (s ++ c ∷ []) ≡ value acc s * 10 + (c - b'0')
unfolding value
value-append [] c acc = refl
value-append (d ∷ s) c acc = value-append s c (acc * 10 + (d - b'0'))

value-digits_in : (f n : ℕ) → n < f → value 0 (digits_in f n) ≡ n
unfolding digits_in
value-digits_in zero n h = elim h [ ]
value-digits_in (suc f) n h = elim (Bool-cases (ltb n 10)) [
  | inl small ↦ rw small (unfold value in ground arith)
  | inr big ↦ rw big (
      value-append (digits_in f (n / 10)) (b'0' + n % 10) 0
      ∙ ground (arith, value-digits_in f (n / 10)))
]

-- Fuel n + 1 is enough: the digits of n read back as n.
pub value-digits : (n : ℕ) → value 0 (digits n) ≡ n
unfolding digits
value-digits n = value-digits_in (suc n) n (omega arith)

pub digits-injective : (m n : ℕ) → digits m ≡ digits n → m ≡ n
digits-injective m n e = sym (value-digits m) ∙ ap (value 0) e ∙ value-digits n

abbrev pub IsDigit : ℕ → Type 0
IsDigit c = (b'0' ≤ c) × (c ≤ b'9')

digits_in-IsDigit : (f n : ℕ) → All IsDigit (digits_in f n)
unfolding digits_in
digits_in-IsDigit zero n = tt
digits_in-IsDigit (suc f) n = elim (Bool-cases (ltb n 10)) [
  | inl small ↦ rw small (ground arith)
  | inr big ↦
      rw big
        (All-append IsDigit (digits_in f (n / 10)) _ (digits_in-IsDigit f (n / 10)) (omega arith))
]

pub digits-IsDigit : (n : ℕ) → All IsDigit (digits n)
unfolding digits
digits-IsDigit n = digits_in-IsDigit (suc n) n

-- A separator that neither front holds splits a text in one way.
pub split_unique :
    (sep : ℕ) (xs ys : Text) {r s : Text}
    → All (λ c. c ≢ sep) xs
    → All (λ c. c ≢ sep) ys
    → xs ++ sep ∷ r ≡ ys ++ sep ∷ s
    → (xs ≡ ys) × (r ≡ s)
split_unique sep [] [] hx hy e = ground arith
split_unique sep [] (y ∷ ys) hx hy e = ground arith
split_unique sep (x ∷ xs) [] hx hy e = ground arith
split_unique sep (x ∷ xs) (y ∷ ys) {r} {s} hx hy e =
    ground (arith, split_unique sep xs ys {r = r} {s = s} hx.1 hy.1)

forty_two : itoa (negsuc 41) ≡ b'-' ∷ b'4' ∷ b'2' ∷ []
unfolding itoa
forty_two = refl
