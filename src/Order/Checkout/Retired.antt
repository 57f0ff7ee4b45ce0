-- ===== src/Order/Checkout/Retired.antt =====
-- The checkout over the cart repository of internal/repository/postgres/cart.go: what it leaves of the
-- cart that was ordered, and of the others.
use zentora_backend.Prelude.{
  ℕ, ◌≡◌, refl, sym, ap, ◌∙◌, subst, inl, inr, Bool, true, false, Option, none, some, List, [], ◌∷◌,
  arith, Bool-cases, Option-cases, map, any, if◌then◌else◌,
}
use zentora_backend.Prelude.Int.{ℤ, pos, ◌==ℤ◌, leb_ℤ}
use zentora_backend.Prelude.Floats.{Floats}
use zentora_backend.Text.{lit, text_eq}
use zentora_backend.Carts
use zentora_backend.Carts.{Tables, find_active, is_open_cart, is_active_of}
use zentora_backend.Carts.Lines.{lines, emptied, lines-clear_cart}
use zentora_backend.Order.{Order, Result, ok, err, failure}
use zentora_backend.Order.Create.{Env}
use zentora_backend.Order.Checkout.{
  Address, Cart, CartItem, Repos, World, UserRequest, given, create_user_order,
}
use zentora_backend.Order.Checkout.Laws.{create_user_order-IsCheckedOut}

-- Which of the cart repository's queries fail.
pub record CartFailures : Type 0 where
  pub reads : Bool
  pub clears : Bool
  pub marks : Bool

abbrev pub order_cart_item : Carts.CartItem → CartItem
order_cart_item i = record {
  product_id = i.product_id;
  variant_id = i.variant_id;
  quantity = i.quantity;
}

abbrev pub order_cart : Option Carts.Cart → Option Cart
order_cart none = none
order_cart (some c) =
    some (record { id = c.id; user_id = c.user_id; items = map order_cart_item c.items })

abbrev pub replied : Carts.Result (Unit {0}) × Tables → Result (Unit {0}) × Tables
replied (Carts.ok u, t) = (ok tt, t)
replied (Carts.err e, t) = (err failure, t)

-- CartRepo as CartRepository implements it, beside the addresses and the mailer.
abbrev pub cart_repos :
    ℕ → CartFailures → (ℤ → Result Address) → (ℤ → Result (List Address)) → Bool → Repos Tables
cart_repos now fails get_address list_addresses has_mailer = record {
  get_active_cart = λ t user.
      if fails.reads
      then err failure
      else ok (order_cart (Carts.get_active_cart_with_items_for_user user t));
  clear_cart =
      λ cart t. if fails.clears then (err failure, t) else replied (Carts.clear_cart now cart t);
  mark_cart_converted = λ cart t.
      if fails.marks then (err failure, t) else replied (Carts.mark_cart_converted now cart t);
  get_address = get_address;
  list_addresses = list_addresses;
  has_mailer = has_mailer;
}

replied_tables : (p : Carts.Result (Unit {0}) × Tables) → (replied p).1 ≡ p.1
replied_tables (Carts.ok u, t) = refl
replied_tables (Carts.err e, t) = refl

-- No cart of that id is active any more.
abbrev IsClosed : ℤ → List Carts.Cart → Type 0
IsClosed cart cs = any (is_open_cart cart) cs ≡ false

convert : ℕ → ℤ → Carts.Cart → Carts.Cart
convert now cart c =
    if is_open_cart cart c then record c { status = lit "converted"; updated_at = now } else c

convert-IsClosed :
    (now : ℕ) (cart : ℤ) (cs : List Carts.Cart) → IsClosed cart (map (convert now cart) cs)
unfolding convert
convert-IsClosed now cart [] = refl
convert-IsClosed now cart (c ∷ cs) = elim (Bool-cases (is_open_cart cart c)) [
  | inl h ↦
      let same : (c.id ==ℤ cart) ≡ true = ground (arith, h) in
      rw (h, same) (convert-IsClosed now cart cs)
  | inr h ↦ rw (h, h) (convert-IsClosed now cart cs)
]

mark_cart_converted-IsClosed :
    (now : ℕ) (cart : ℤ) (t : Tables) → IsClosed cart (Carts.mark_cart_converted now cart t).1.carts
unfolding Carts.mark_cart_converted convert
mark_cart_converted-IsClosed now cart t = elim (Bool-cases (any (is_open_cart cart) t.carts)) [
  | inl h ↦ rw h (unfold convert in convert-IsClosed now cart t.carts)
  | inr h ↦ rw h h
]

mark_cart_converted-cart_items :
    (now : ℕ) (cart : ℤ) (t : Tables)
    → (Carts.mark_cart_converted now cart t).1.cart_items ≡ t.cart_items
unfolding Carts.mark_cart_converted
mark_cart_converted-cart_items now cart t = elim (Bool-cases (any (is_open_cart cart) t.carts)) [
  | inl h ↦ rw h refl
  | inr h ↦ rw h refl
]

find_active-IsClosed :
    (user cart : ℤ) (cs : List Carts.Cart) {c : Carts.Cart}
    → IsClosed cart cs
    → find_active user cs ≡ some c
    → (c.id ==ℤ cart) ≡ false
unfolding find_active
find_active-IsClosed user cart [] closed h = absurd cc
find_active-IsClosed user cart (d ∷ cs) {c} closed h = elim (Option-cases (find_active user cs)) [
  | inr (e, k) ↦
      let same : some e ≡ some c = rw k at h in
      find_active-IsClosed user cart cs (ground (arith, closed)) (k ∙ same)
  | inl k ↦ elim (Bool-cases (is_active_of user d)) [
    | inl a ↦
        let same : some d ≡ some c = rw (k, a) at h in
        let active : text_eq d.status (lit "active") ≡ true = ground (arith, a) in
        let shut : is_open_cart cart d ≡ false = ground (arith, closed) in
        let other : (d.id ==ℤ cart) ≡ false = ground (arith, shut, active) in
        ap (λ o. elim o [ none ↦ false | some x ↦ x.id ==ℤ cart ]) (sym same) ∙ other
    | inr a ↦ let gone : ◌≡◌ {A = Option Carts.Cart} none (some c) = rw (k, a) at h in absurd cc
  ]
]

given_pos : (x : Option ℤ) {cart : ℤ} → given x ≡ some cart → leb_ℤ cart (pos 0) ≡ false
given_pos none h = absurd cc
given_pos (some x) {cart} h = ground (arith, h)

-- What a checkout leaves of the carts: the ordered one has no lines and is no user's active cart, and
-- every line of another cart is as it was.
pub record IsRetired (cart : ℤ) (t t' : Tables) : Type 0 where
  pub cleared : (c v : ℤ) → lines t'.cart_items c v ≡ emptied cart (lines t.cart_items) c v
  pub inactive :
      (user : ℤ) (c : Carts.Cart) → find_active user t'.carts ≡ some c → (c.id ==ℤ cart) ≡ false

mark-clear-IsRetired :
    (now : ℕ) (cart : ℤ) (t : Tables)
    → leb_ℤ cart (pos 0) ≡ false
    → IsRetired cart t (Carts.mark_cart_converted now cart (Carts.clear_cart now cart t).1).1
mark-clear-IsRetired now cart t positive =
    let t1 = (Carts.clear_cart now cart t).1 in
    record {
      cleared = λ c v.
          ap (λ x. lines x c v) (mark_cart_converted-cart_items now cart t1)
          ∙ lines-clear_cart now cart t c v positive;
      inactive = λ user c.
          find_active-IsClosed user cart (Carts.mark_cart_converted now cart t1).1.carts
            (mark_cart_converted-IsClosed now cart t1);
    }

module _ {F : Type 0} (fl : Floats F) (env : Env F) (now : ℕ) (fails : CartFailures)
    (get_address : ℤ → Result Address) (list_addresses : ℤ → Result (List Address))
    (has_mailer : Bool) where
  -- After an order from a cart, over the tables of CartRepository and when ClearCart and
  -- MarkCartConverted do not fail, the cart has no lines left and is no user's active cart, and the
  -- lines of all other carts are as before.
  pub create_user_order-IsRetired :
      (user cart : ℤ) (req : UserRequest) (w : World F Tables) {o : Order F} {w' : World F Tables}
      → (fails.clears ≡ false) × (fails.marks ≡ false)
      → given req.cart_id ≡ some cart
      → create_user_order fl env
          (cart_repos now fails get_address list_addresses has_mailer)
          user
          (some req)
          w
        ≡ (ok o, w')
      → IsRetired cart w.carts w'.carts
  create_user_order-IsRetired user cart req w {o} {w'} works named h =
      let repos = cart_repos now fails get_address list_addresses has_mailer in
      let left = (create_user_order-IsCheckedOut fl env repos user cart req w named h).retired in
      let after_clear : (repos.clear_cart cart w.carts).1 ≡ (Carts.clear_cart now cart w.carts).1 =
        rw works.0 (replied_tables (Carts.clear_cart now cart w.carts)) in
      let after_mark : (repos.mark_cart_converted cart (Carts.clear_cart now cart w.carts).1).1
          ≡ (Carts.mark_cart_converted now cart (Carts.clear_cart now cart w.carts).1).1 =
        rw works.1 (
          replied_tables
            (Carts.mark_cart_converted now cart (Carts.clear_cart now cart w.carts).1)) in
      let tables = left ∙ ap (λ t. (repos.mark_cart_converted cart t).1) after_clear ∙ after_mark in
      subst (IsRetired cart w.carts) (sym tables)
        (mark-clear-IsRetired now cart w.carts (given_pos req.cart_id named))
