-- ===== src/Tokens/Purposes.antt =====
-- The purposes of the tokens: what each generator makes its own verifier accepts, what one verifier
-- accepts every other refuses, and how long the tokens last.
use zentora_backend.Prelude.{
  ℕ, ◌+◌, ◌*◌, ◌≤◌, ◌<◌, ◌≡◌, ◌≢◌, refl, sym, ap, ◌∙◌, inl, inr, Bool, true, false, ◌&&◌, not,
  Option, none, some, List, [], ◌∷◌, if◌then◌else◌, Bool-cases, Option-cases, arith,
}
use zentora_backend.Prelude.Int.{ℤ}
use zentora_backend.Text.{Text, lit, text_eq, text_eq_iff}
use zentora_backend.Access.{Claims, int, text, texts, flag, other}
use zentora_backend.Tokens.{
  Signed, Signer, IsSigner, Generator, Verifier, Extra, reread_all, read_back, minute, day,
  claims_of, registered_of, with_jti, generate, generate_access_token, generate_refresh_token,
  generate_password_reset_token, generate_email_verification_token,
  generate_phone_verification_token, generate_magic_link_token, verify_audience, verify, issued,
  checked, verify_access_token, verify_refresh_token, verify_password_reset_token,
  verify_email_verification_token, verify_phone_verification_token, verify_magic_link_token,
}

pub data Purpose : Type 0 where
  access refresh password_reset email_verification phone_verification magic_link : Purpose

abbrev pub name_of : Purpose → Text
name_of access = lit "access"
name_of refresh = lit "refresh"
name_of password_reset = lit "password_reset"
name_of email_verification = lit "email_verification"
name_of phone_verification = lit "phone_verification"
name_of magic_link = lit "magic_link"

and_left : (a b : Bool) → (a && b) ≡ true → a ≡ true
and_left a b h = ground arith

-- The verifier of a purpose.
abbrev pub verify_as : {T : Type 0} → Signer T → Verifier → ℕ → Purpose → T → Option Claims
verify_as s v now access t = verify_access_token s v now t
verify_as s v now refresh t = verify_refresh_token s v now t
verify_as s v now password_reset t = verify_password_reset_token s v now t
verify_as s v now email_verification t = verify_email_verification_token s v now t
verify_as s v now phone_verification t = verify_phone_verification_token s v now t
verify_as s v now magic_link t = verify_magic_link_token s v now t

abbrev pub kind_of : Text → Purpose
kind_of n =
    if text_eq n (lit "access")
    then access
    else if text_eq n (lit "refresh")
    then refresh
    else if text_eq n (lit "password_reset")
    then password_reset
    else if text_eq n (lit "email_verification")
    then email_verification
    else if text_eq n (lit "phone_verification")
    then phone_verification
    else magic_link

kind_of-name_of : (p : Purpose) → kind_of (name_of p) ≡ p
kind_of-name_of access = refl
kind_of-name_of refresh = refl
kind_of-name_of password_reset = refl
kind_of-name_of email_verification = refl
kind_of-name_of phone_verification = refl
kind_of-name_of magic_link = refl

module _ {T : Type 0} (signer : Signer T) (v : Verifier) (now : ℕ) where
  checked_inv :
      (test : Claims → Bool) (o : Option Claims) (c : Claims)
      → checked signer v now test o ≡ some c
      → (o ≡ some c) × (test c ≡ true)
  checked_inv test none c h = absurd cc
  checked_inv test (some d) c h = elim (Bool-cases (test d)) [
    | inl e ↦ let same : some d ≡ some c = rw e at h in (same, cc)
    | inr e ↦ let gone : none ≡ some c = rw e at h in absurd cc
  ]

  verify_as_inv :
      (p : Purpose) (t : T) (c : Claims)
      → verify_as signer v now p t ≡ some c
      → (verify signer v now t ≡ some c) × (text_eq c.session_purpose (name_of p) ≡ true)
  unfolding verify_access_token verify_refresh_token verify_password_reset_token
      verify_email_verification_token verify_phone_verification_token verify_magic_link_token
  verify_as_inv access t c h =
      let i =
        checked_inv (λ d. text_eq d.session_purpose (lit "access") && not d.is_temp)
          (verify signer v now t) c h in
      (i.0, and_left _ _ i.1)
  verify_as_inv refresh t c h =
      checked_inv (λ d. text_eq d.session_purpose (lit "refresh")) (verify signer v now t) c h
  verify_as_inv password_reset t c h =
      let i =
        checked_inv (λ d. text_eq d.session_purpose (lit "password_reset") && d.is_temp)
          (verify signer v now t) c h in
      (i.0, and_left _ _ i.1)
  verify_as_inv email_verification t c h =
      checked_inv (λ d. text_eq d.session_purpose (lit "email_verification"))
        (verify signer v now t) c h
  verify_as_inv phone_verification t c h =
      checked_inv (λ d. text_eq d.session_purpose (lit "phone_verification"))
        (verify signer v now t) c h
  verify_as_inv magic_link t c h =
      checked_inv (λ d. text_eq d.session_purpose (lit "magic_link")) (verify signer v now t) c h

  -- A token that the verifier of one purpose accepts is refused by that of every other purpose.
  pub verify_as_exclusive :
      (p q : Purpose) (t : T) (c : Claims)
      → verify_as signer v now p t ≡ some c
      → p ≢ q
      → verify_as signer v now q t ≡ none
  verify_as_exclusive p q t c h different = elim (Option-cases (verify_as signer v now q t)) [
    | inl gone ↦ gone
    | inr (d, g) ↦
        let i = verify_as_inv p t c h in
        let j = verify_as_inv q t d g in
        let same : c.session_purpose ≡ d.session_purpose = cc in
        let names : name_of p ≡ name_of q =
          sym ((text_eq_iff c.session_purpose (name_of p)).0 i.1)
          ∙ same
          ∙ (text_eq_iff d.session_purpose (name_of q)).0 j.1 in
        absurd (different (sym (kind_of-name_of p) ∙ ap kind_of names ∙ kind_of-name_of q))
  ]

-- What a token is asked for.
pub data Request : Type 0 where
  for_access : List Text → List Text → Text → Extra → Request
  for_refresh : Text → Request
  for_reset : Extra → Request
  for_email : Text → Request
  for_phone : Text → Request
  for_link : Text → Request

abbrev pub purpose_of : Request → Purpose
purpose_of (for_access roles permissions device extra) = access
purpose_of (for_refresh device) = refresh
purpose_of (for_reset extra) = password_reset
purpose_of (for_email email) = email_verification
purpose_of (for_phone phone) = phone_verification
purpose_of (for_link email) = magic_link

abbrev pub generate_as :
    {T : Type 0} → Signer T → ℕ → Text → Generator → ℤ → Request → Option (T × Text)
generate_as s now jti g id (for_access roles permissions device extra) =
    generate_access_token s now jti g id roles permissions device extra
generate_as s now jti g id (for_refresh device) = generate_refresh_token s now jti g id device
generate_as s now jti g id (for_reset extra) = generate_password_reset_token s now jti g id extra
generate_as s now jti g id (for_email email) =
    generate_email_verification_token s now jti g id email
generate_as s now jti g id (for_phone phone) =
    generate_phone_verification_token s now jti g id phone
generate_as s now jti g id (for_link email) = generate_magic_link_token s now jti g id email

-- The claims that a request is to give.
abbrev pub claims_for : ℤ → Text → Request → Claims
claims_for id jti (for_access roles permissions device extra) =
    claims_of id roles permissions device (lit "access") false extra jti
claims_for id jti (for_refresh device) = claims_of id [] [] device (lit "refresh") false [] jti
claims_for id jti (for_reset extra) = claims_of id [] [] [] (lit "password_reset") true extra jti
claims_for id jti (for_email email) =
    claims_of id [] [] [] (lit "email_verification") true ((lit "email", text email) ∷ []) jti
claims_for id jti (for_phone phone) =
    claims_of id [] [] [] (lit "phone_verification") true ((lit "phone", text phone) ∷ []) jti
claims_for id jti (for_link email) =
    claims_of id [] [] [] (lit "magic_link") true ((lit "email", text email) ∷ []) jti

-- The extra data holds texts and Booleans only.
abbrev pub are_plain : Extra → Bool
are_plain [] = true
are_plain ((k, int z) ∷ e) = false
are_plain ((k, text x) ∷ e) = are_plain e
are_plain ((k, texts x) ∷ e) = false
are_plain ((k, flag b) ∷ e) = are_plain e
are_plain ((k, other) ∷ e) = false

-- Seconds from the issue to the expiry.
abbrev pub lifetime : Generator → Purpose → ℕ
lifetime g access = g.ttl
lifetime g refresh = 7 * day
lifetime g password_reset = 30 * minute
lifetime g email_verification = 30 * minute
lifetime g phone_verification = 30 * minute
lifetime g magic_link = 30 * minute

-- The verifier is built from the generator's issuer and audience, and has its key.
abbrev pub IsPaired : Generator → Verifier → Type 0
IsPaired g v = (v.has_key ≡ true) × (v.issuer ≡ g.issuer) × (v.audience ≡ g.audience)

abbrev signed_for : Generator → ℕ → ℤ → Text → Request → Signed
signed_for g now id jti r = record {
  claims = claims_for id jti r;
  registered = record (registered_of g now false id) {
    expires_at = now + lifetime g (purpose_of r);
  };
}

module _ {T : Type 0} (signer : Signer T) where
  generated_inv :
      (g : Generator) (s : Signed) (jti : Text) (t : T) (j : Text)
      → (if g.has_key then with_jti jti (signer.sign s) else none) ≡ some (t, j)
      → (signer.sign s ≡ some t) × (j ≡ jti)
  generated_inv g s jti t j h = elim (Bool-cases g.has_key) [
    | inl e ↦
        let made : with_jti jti (signer.sign s) ≡ some (t, j) = rw e at h in
        signed (signer.sign s) refl made
    | inr e ↦ let gone : ◌≡◌ {A = Option (T × Text)} none (some (t, j)) = rw e at h in absurd cc
  ]
    where
      signed :
          (o : Option T)
          → signer.sign s ≡ o
          → with_jti jti o ≡ some (t, j)
          → (signer.sign s ≡ some t) × (j ≡ jti)
      signed none e m = absurd cc
      signed (some u) e m =
          let first : some u ≡ some t = cc in let second : jti ≡ j = cc in (e ∙ first, sym second)

  pub generate_as_inv :
      (now : ℕ) (jti : Text) (g : Generator) (id : ℤ) (r : Request) (t : T) (j : Text)
      → generate_as signer now jti g id r ≡ some (t, j)
      → (signer.sign (signed_for g now id jti r) ≡ some t) × (j ≡ jti)
  unfolding generate generate_access_token generate_refresh_token generate_password_reset_token
      generate_email_verification_token generate_phone_verification_token generate_magic_link_token
  generate_as_inv now jti g id (for_access roles permissions device extra) t j h =
      generated_inv g (signed_for g now id jti (for_access roles permissions device extra)) jti t j
        h
  generate_as_inv now jti g id (for_refresh device) t j h =
      generated_inv g (signed_for g now id jti (for_refresh device)) jti t j h
  generate_as_inv now jti g id (for_reset extra) t j h =
      generated_inv g (signed_for g now id jti (for_reset extra)) jti t j h
  generate_as_inv now jti g id (for_email email) t j h =
      generated_inv g (signed_for g now id jti (for_email email)) jti t j h
  generate_as_inv now jti g id (for_phone phone) t j h =
      generated_inv g (signed_for g now id jti (for_phone phone)) jti t j h
  generate_as_inv now jti g id (for_link email) t j h =
      generated_inv g (signed_for g now id jti (for_link email)) jti t j h

  -- Any of the claims' tests that hold of what was made.
  verify_made :
      (v : Verifier) (g : Generator) (now : ℕ) (id : ℤ) (jti : Text) (r : Request)
      → IsPaired g v
      → issued signer v now
          (record (signed_for g now id jti r) { claims = read_back signer (claims_for id jti r) })
        ≡ some (read_back signer (claims_for id jti r))
  unfolding verify_audience
  verify_made v g now id jti r h =
      let a : text_eq g.issuer v.issuer ≡ true = (text_eq_iff g.issuer v.issuer).1 (sym h.1) in
      let b : text_eq g.audience v.audience ≡ true =
        (text_eq_iff g.audience v.audience).1 (sym h.2) in
      rw (a, b) refl

  accepted :
      (v : Verifier) (u : ℕ) (id : ℤ) (jti : Text) (t : T) (q : Request)
      → verify signer v u t ≡ some (read_back signer (claims_for id jti q))
      → verify_as signer v u (purpose_of q) t ≡ some (read_back signer (claims_for id jti q))
  unfolding verify_access_token verify_refresh_token verify_password_reset_token
      verify_email_verification_token verify_phone_verification_token verify_magic_link_token
  accepted v u id jti t (for_access roles permissions device extra) e = rw e refl
  accepted v u id jti t (for_refresh device) e = rw e refl
  accepted v u id jti t (for_reset extra) e = rw e refl
  accepted v u id jti t (for_email email) e = rw e refl
  accepted v u id jti t (for_phone phone) e = rw e refl
  accepted v u id jti t (for_link email) e = rw e refl

  unread_refused :
      (v : Verifier) (u : ℕ) (t : T) → signer.parse u t ≡ none → verify signer v u t ≡ none
  unfolding verify
  unread_refused v u t e = elim (Bool-cases v.has_key) [
    | inl k ↦ rw (k, e) refl
    | inr k ↦ rw k refl
  ]

  module _ (laws : IsSigner signer) where
    -- With the extra data as JSON reads it back.
    pub verify_as-read_back :
        (v : Verifier) (g : Generator) (now u : ℕ) (jti : Text) (id : ℤ) (r : Request) (t : T)
        (j : Text)
        → IsPaired g v
        → generate_as signer now jti g id r ≡ some (t, j)
        → now ≤ u
        → u < now + lifetime g (purpose_of r)
        → verify_as signer v u (purpose_of r) t ≡ some (read_back signer (claims_for id j r))
    verify_as-read_back v g now u jti id r t j paired made begun alive =
        let i = generate_as_inv now jti g id r t j made in
        let parsed = laws.parse-sign (signed_for g now id jti r) t u i.0 begun alive in
        let verified : verify signer v u t ≡ some (read_back signer (claims_for id jti r)) =
          unfold verify in rw (paired.0, parsed) (verify_made v g now id jti r paired) in
        accepted v u id jti t r verified
        ∙ ap (λ x. some (read_back signer (claims_for id x r))) (sym i.1)

    reread_plain : (e : Extra) → are_plain e ≡ true → reread_all signer e ≡ e
    reread_plain [] h = refl
    reread_plain ((k, int z) ∷ e) h = absurd cc
    reread_plain ((k, text x) ∷ e) h =
        let head = laws.reread-text x in rw (head, reread_plain e h) refl
    reread_plain ((k, texts x) ∷ e) h = absurd cc
    reread_plain ((k, flag b) ∷ e) h =
        let head = laws.reread-flag b in rw (head, reread_plain e h) refl
    reread_plain ((k, other) ∷ e) h = absurd cc

    -- A token that was made for a purpose is accepted by the verifier of that purpose, with the
    -- claims that were asked for and the returned identifier, from its issue up to the end of its
    -- lifetime, when the verifier has a key and the generator's issuer and audience, and the extra
    -- data holds texts and Booleans only.
    pub verify_as-generate_as :
        (v : Verifier) (g : Generator) (now u : ℕ) (jti : Text) (id : ℤ) (r : Request) (t : T)
        (j : Text)
        → IsPaired g v
        → generate_as signer now jti g id r ≡ some (t, j)
        → now ≤ u
        → u < now + lifetime g (purpose_of r)
        → are_plain (claims_for id j r).extra_data ≡ true
        → verify_as signer v u (purpose_of r) t ≡ some (claims_for id j r)
    verify_as-generate_as v g now u jti id r t j paired made begun alive plain =
        verify_as-read_back v g now u jti id r t j paired made begun alive
        ∙ ap (λ e. some (record (claims_for id j r) { extra_data = e }))
            (reread_plain (claims_for id j r).extra_data plain)

    -- From the end of its lifetime on, a token is refused by every verifier.
    pub verify_as_expired :
        (v : Verifier) (g : Generator) (now u : ℕ) (jti : Text) (id : ℤ) (r : Request) (t : T)
        (j : Text) (q : Purpose)
        → generate_as signer now jti g id r ≡ some (t, j)
        → now + lifetime g (purpose_of r) ≤ u
        → verify_as signer v u q t ≡ none
    verify_as_expired v g now u jti id r t j q made late =
        let i = generate_as_inv now jti g id r t j made in
        let unread = laws.parse_expired (signed_for g now id jti r) t u i.0 late in
        elim (Option-cases (verify_as signer v u q t)) [
          | inl gone ↦ gone
          | inr (c, e) ↦
              let k = (verify_as_inv signer v u q t c e).0 in
              let gone : verify signer v u t ≡ none = unread_refused v u t unread in absurd cc
        ]
