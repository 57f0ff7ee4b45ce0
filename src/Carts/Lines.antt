-- ===== src/Carts/Lines.antt =====
-- The carts as a function: for a cart and a variant, the line that it has. The order of the rows and
-- their ids and times are forgotten.
use zentora_backend.Prelude.{
  ℕ, ◌≡◌, refl, ap, inl, inr, false, ◌&&◌, Option, none, some, List, [], ◌∷◌, if◌then◌else◌,
  Bool-cases, arith,
}
use zentora_backend.Prelude.Int.{ℤ, pos, leb_ℤ, ◌==ℤ◌, ==ℤ_iff}
use zentora_backend.Text.{Text}
use zentora_backend.Carts.{CartItem, UpsertCartItemInput, Tables, is_line, delete_rows, clear_cart}

pub record Line : Type 0 where
  pub product_id : ℤ
  pub quantity : ℤ
  pub price_at_added : Text

abbrev pub line_of : CartItem → Line
line_of i = record {
  product_id = i.product_id;
  quantity = i.quantity;
  price_at_added = i.price_at_added;
}

abbrev pub line_for : UpsertCartItemInput → Line
line_for input = record {
  product_id = input.product_id;
  quantity = input.quantity;
  price_at_added = input.price_at_added;
}

-- The abstract carts.
abbrev pub Lines : Type 0
Lines = ℤ → ℤ → Option Line

pub lines : List CartItem → Lines
lines [] cart variant = none
lines (i ∷ is) cart variant =
    if is_line cart variant i then some (line_of i) else lines is cart variant

abbrev pub updated : ℤ → ℤ → Line → Lines → Lines
updated cart variant line ls c v = if cart ==ℤ c && variant ==ℤ v then some line else ls c v

abbrev pub emptied : ℤ → Lines → Lines
emptied cart ls c v = if cart ==ℤ c then none else ls c v

lines-delete_rows :
    (cart : ℤ) (is : List CartItem) (c v : ℤ)
    → lines (delete_rows (λ i. i.cart_id ==ℤ cart) is) c v ≡ emptied cart (lines is) c v
unfolding lines
lines-delete_rows cart [] c v = elim (Bool-cases (cart ==ℤ c)) [
  | inl e ↦ rw e refl
  | inr e ↦ rw e refl
]
lines-delete_rows cart (i ∷ is) c v =
    let rest = lines-delete_rows cart is c v in
    elim (Bool-cases (i.cart_id ==ℤ cart)) [
      | inl e ↦ elim (Bool-cases (cart ==ℤ c)) [
        | inl m ↦
            let empty_ : lines (delete_rows (λ j. j.cart_id ==ℤ cart) is) c v ≡ none =
              rw m at rest in
            rw (e, m) empty_
        | inr m ↦
            let kept_ : lines (delete_rows (λ j. j.cart_id ==ℤ cart) is) c v ≡ lines is c v =
              rw m at rest in
            let own : (i.cart_id ==ℤ c) ≡ (cart ==ℤ c) =
              ap (λ x. x ==ℤ c) ((==ℤ_iff i.cart_id cart).0 e) in
            let away : is_line c v i ≡ false = ground (arith, own, m) in rw (e, m, away) kept_
      ]
      | inr e ↦ elim (Bool-cases (cart ==ℤ c)) [
        | inl m ↦
            let own : (i.cart_id ==ℤ cart) ≡ (i.cart_id ==ℤ c) =
              ap (λ x. i.cart_id ==ℤ x) ((==ℤ_iff cart c).0 m) in
            let away : is_line c v i ≡ false = ground (arith, own, e) in
            let empty_ : lines (delete_rows (λ j. j.cart_id ==ℤ cart) is) c v ≡ none =
              rw m at rest in
            rw (e, m, away) empty_
        | inr m ↦
            let kept_ : lines (delete_rows (λ j. j.cart_id ==ℤ cart) is) c v ≡ lines is c v =
              rw m at rest in
            rw (e, m) (ap (λ x. if is_line c v i then some (line_of i) else x) kept_)
      ]
    ]

-- Clearing a cart takes all its lines and no others.
pub lines-clear_cart :
    (now : ℕ) (cart : ℤ) (t : Tables) (c v : ℤ)
    → leb_ℤ cart (pos 0) ≡ false
    → lines (clear_cart now cart t).1.cart_items c v ≡ emptied cart (lines t.cart_items) c v
unfolding clear_cart
lines-clear_cart now cart t c v positive = rw positive (lines-delete_rows cart t.cart_items c v)
