-- ===== src/Accounts/Verifications/Spent.antt =====
-- A token that was marked as used is not found again.
use zentora_backend.Prelude.{
  ℕ, ◌+◌, ◌≤◌, ◌≡◌, refl, ap, ◌∙◌, inl, inr, false, Option, none, some, List, [], ◌∷◌,
  if◌then◌else◌, Bool-cases, arith,
}
use zentora_backend.Prelude.Int.{ℤ, ◌==ℤ◌, ==ℤ_iff}
use zentora_backend.Text.{Text}
use zentora_backend.Accounts.Verifications.{
  VerificationToken, is_token, is_usable, spent, find_verification_token, mark_token_as_used,
}

-- The rows of a token, used or not.
abbrev pub rows_of : Text → Text → List VerificationToken → ℕ
rows_of type token [] = 0
rows_of type token (t ∷ ts) =
    let rest = rows_of type token ts in if is_token type token t then 1 + rest else rest

abbrev or_else {ℓ} : {A : Type ℓ} → A → Option A → A
or_else a none = a
or_else a (some b) = b

module _ (type token : Text) (now u : ℕ) (id : ℤ) where
  spent_other :
      (t : VerificationToken)
      → is_token type token t ≡ false
      → is_usable u type token (spent now id t) ≡ false
  spent_other t e = elim (Bool-cases (t.id ==ℤ id)) [
    | inl same ↦ rw same ground (arith, e)
    | inr apart ↦ rw apart ground (arith, e)
  ]

  spent_self : (t : VerificationToken) → t.id ≡ id → is_usable u type token (spent now id t) ≡ false
  spent_self t e = rw ((==ℤ_iff t.id id).1 e) ground arith

  -- Without a row, nothing is found.
  unfound :
      (ts : List VerificationToken)
      → rows_of type token ts ≡ 0
      → (find_verification_token now type token ts ≡ none)
        × (find_verification_token u type token (mark_token_as_used now id ts) ≡ none)
  unfolding find_verification_token mark_token_as_used
  unfound [] h = (refl, refl)
  unfound (t ∷ ts) h = elim (Bool-cases (is_token type token t)) [
    | inl e ↦
        let a_row : 1 + rows_of type token ts ≡ 0 = rw e at h in absurd (ground (arith, a_row))
    | inr e ↦
        let rest : rows_of type token ts ≡ 0 = rw e at h in
        let unusable : is_usable now type token t ≡ false = ground (arith, e) in
        let (before, after_) = unfound ts rest in (rw unusable before, rw (spent_other t e) after_)
  ]

  -- The token that was found and marked is not found at any time.
  pub find_verification_token-mark_token_as_used :
      (ts : List VerificationToken) (t : VerificationToken)
      → rows_of type token ts ≤ 1
      → find_verification_token now type token ts ≡ some t
      → t.id ≡ id
      → find_verification_token u type token (mark_token_as_used now id ts) ≡ none
  unfolding find_verification_token mark_token_as_used
  find_verification_token-mark_token_as_used [] t h found same = refl
  find_verification_token-mark_token_as_used (r ∷ ts) t h found same =
      elim (Bool-cases (is_token type token r)) [
        | inl e ↦
            let rows : 1 + rows_of type token ts ≤ 1 = rw e at h in
            let (before, after_) = unfound ts (ground (arith, rows)) in
            elim (Bool-cases (is_usable now type token r)) [
              | inl o ↦
                  let it : some r ≡ some t = rw o at found in
                  let id_of : r.id ≡ id = ap (λ x. (or_else t x).id) it ∙ same in
                  rw (spent_self r id_of) after_
              | inr o ↦
                  let later : find_verification_token now type token ts ≡ some t = rw o at found in
                  absurd cc
            ]
        | inr e ↦
            let unusable : is_usable now type token r ≡ false = ground (arith, e) in
            let rows : rows_of type token ts ≤ 1 = rw e at h in
            let later : find_verification_token now type token ts ≡ some t = rw unusable at found in
            rw (spent_other r e) (find_verification_token-mark_token_as_used ts t rows later same)
      ]
