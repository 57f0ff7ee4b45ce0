-- ===== src/Order/Checkout/Addresses.antt =====
-- Whose address an order is shipped to.
use zentora_backend.Prelude.{
  ◌≡◌, refl, ◌∙◌, sym, inl, inr, true, false, Option, none, some, List, [], ◌∷◌, arith, All, any,
  Bool-cases, Option-cases, subst,
}
use mathlib.Core.List.{Memᴰ}
use zentora_backend.Prelude.Int.{ℤ, ◌==ℤ◌, ==ℤ_iff}
use zentora_backend.Prelude.Floats.{Floats}
use zentora_backend.Order.{ShippingInfo, Result, ok, err}
use zentora_backend.Order.Create.{Env}
use zentora_backend.Order.Checkout.{
  Address, Repos, given, find_default, map_address_to_shipping, resolve_shipping, owned, chosen,
}

-- The address that the loop settles on: a member, and a default one exactly if there is one.
pub record IsChosen (all : List Address) (ship : ShippingInfo) : Type 0 where
  address : Address
  listed : Memᴰ address all
  preferred : address.is_default ≡ any (λ a. a.is_default) all
  mapped : ship ≡ map_address_to_shipping address

find_default-no_default :
    (l : List Address) → find_default l ≡ none → any (λ a. a.is_default) l ≡ false
unfolding find_default
find_default-no_default [] e = refl
find_default-no_default (a ∷ l) e = ground (arith, find_default-no_default l)

find_default-member :
    (l : List Address) {d : Address}
    → find_default l ≡ some d
    → Memᴰ d l × (d.is_default ≡ true) × (any (λ a. a.is_default) l ≡ true)
unfolding find_default
find_default-member [] e = cc
find_default-member (a ∷ l) {d} e = elim (Bool-cases a.is_default) [
  | inl h ↦ let same : d ≡ a = ground arith in (Memᴰ.head same, rw same h, ground arith)
  | inr h ↦
      let ih = find_default-member l {d = d} (ground arith) in
      (Memᴰ.tail ih.0, ih.1, ground (arith, ih.2))
]

All-mem : (P : Address → Type 0) (l : List Address) {a : Address} → All P l → Memᴰ a l → P a
All-mem P [] h m = elim m [ ]
All-mem P (x ∷ l) h (Memᴰ.head e) = subst P (sym e) h.0
All-mem P (x ∷ l) h (Memᴰ.tail m) = All-mem P l h.1 m

module _ {F C : Type 0} (fl : Floats F) (env : Env F) (repos : Repos C) where
  chosen-IsChosen :
      (l : List Address) {ship : ShippingInfo}
      → chosen fl env repos (ok l) ≡ ok ship
      → IsChosen l ship
  chosen-IsChosen [] e = cc
  chosen-IsChosen (a ∷ l) {ship} e = elim (Option-cases (find_default (a ∷ l))) [
    | inl none_default ↦ record {
      address = a;
      listed = Memᴰ.head refl;
      preferred = ground (arith, find_default-no_default (a ∷ l) none_default);
      mapped = ground arith;
    }
    | inr (d, found) ↦
        let (m, h, k) = find_default-member (a ∷ l) found in
        record { address = d; listed = m; preferred = h ∙ sym k; mapped = ground arith }
  ]

  -- The address that a request stands for: the one that it names, or else one of the user's listed
  -- addresses, a default one exactly if there is one.
  abbrev pub IsOffered : ℤ → Option ℤ → Address → Type 0
  IsOffered user none a =
      (l : List Address) × (repos.list_addresses user ≡ ok l)
      × Memᴰ a l
      × (a.is_default ≡ any (λ b. b.is_default) l)
  IsOffered user (some i) a = repos.get_address i ≡ ok a

  -- Shipping data that are those of the user's own address that the request stands for.
  pub record IsOwn (user : ℤ) (address_id : Option ℤ) (ship : ShippingInfo) : Type 0 where
    pub address : Address
    pub matched : IsOffered user (given address_id) address
    pub own : address.user_id ≡ user
    pub copied : ship ≡ map_address_to_shipping address

  pub resolve_shipping-IsOwn :
      (user : ℤ) (address_id : Option ℤ) {ship : ShippingInfo}
      → ((l : List Address) → repos.list_addresses user ≡ ok l → All (λ a. a.user_id ≡ user) l)
      → resolve_shipping fl env repos user address_id ≡ ok ship
      → IsOwn user address_id ship
  unfolding resolve_shipping
  resolve_shipping-IsOwn user address_id {ship} own e = elim (Option-cases (given address_id)) [
    | inl h ↦
        let (a, o, u, m) = listed (repos.list_addresses user) refl (ground arith) in
        record { address = a; matched = rw h o; own = u; copied = m }
    | inr (i, h) ↦
        let (a, o, u, m) = fetched i (repos.get_address i) refl (ground arith) in
        record { address = a; matched = rw h o; own = u; copied = m }
  ]
    where
      fetched :
          (i : ℤ) (r : Result Address)
          → repos.get_address i ≡ r
          → owned fl env repos user r ≡ ok ship
          → (a : Address) × (repos.get_address i ≡ ok a)
            × (a.user_id ≡ user)
            × (ship ≡ map_address_to_shipping a)
      fetched i (err x) k h = cc
      fetched i (ok a) k h = elim (Bool-cases (a.user_id ==ℤ user)) [
        | inl b ↦ (a, k, ground (arith, ==ℤ_iff a.user_id user), ground arith)
        | inr b ↦ absurd (ground arith)
      ]

      listed :
          (r : Result (List Address))
          → repos.list_addresses user ≡ r
          → chosen fl env repos r ≡ ok ship
          → (a : Address) × IsOffered user none a
            × (a.user_id ≡ user)
            × (ship ≡ map_address_to_shipping a)
      listed (err x) k h = cc
      listed (ok l) k h =
          let c = chosen-IsChosen l h in
          (
            c.address,
            (l, k, c.listed, c.preferred),
            All-mem (λ a. a.user_id ≡ user) l (own l k) c.listed,
            c.mapped,
          )

  -- Where the request names no address, an order is shipped to one of the user's listed addresses,
  -- and to a default one exactly if there is one.
  pub resolve_shipping-IsChosen :
      (user : ℤ) (address_id : Option ℤ) (l : List Address) {ship : ShippingInfo}
      → given address_id ≡ none
      → repos.list_addresses user ≡ ok l
      → resolve_shipping fl env repos user address_id ≡ ok ship
      → IsChosen l ship
  unfolding resolve_shipping
  resolve_shipping-IsChosen user address_id l {ship} unnamed listed e =
      chosen-IsChosen l (ground (arith, listed))
