-- ===== src/Tokens.antt =====
-- The JSON Web Tokens (internal/pkg/jwt): what the generator signs and what the verifier accepts.
-- The signing and parsing of golang-jwt is a parameter, as are the identifiers that ulid makes.
-- Times are in seconds, as a token keeps them.
pub mod Purposes
pub mod Instance
mod Tests
use zentora_backend.Prelude.{
  ℕ, ◌+◌, ◌*◌, ◌≤◌, ◌<◌, ◌≡◌, Bool, true, false, ◌&&◌, ◌||◌, not, Option, none, some, List, [], ◌∷◌,
  if◌then◌else◌, any, all,
}
use zentora_backend.Prelude.Int.{ℤ}
use zentora_backend.Text.{Text, lit, text_eq}
use zentora_backend.Text.Decimal.{itoa}
use zentora_backend.Access.{Value, text, flag, Claims}

-- jwt.RegisteredClaims, less the ID, which the claims hold.
pub record Registered : Type 0 where
  pub issuer : Text
  pub subject : Text
  pub audience : List Text
  pub expires_at : ℕ
  pub issued_at : ℕ
  pub not_before : ℕ

-- What a token says.
pub record Signed : Type 0 where
  pub claims : Claims
  pub registered : Registered

-- golang-jwt with a pair of keys: signing may fail; parsing checks the signature and the times. T is
-- the type of the strings that stand for tokens. `reread` is what JSON makes of a value of the extra
-- data, which has the type interface{}: a number comes back as a float64, a list as []interface{}.
pub record Signer (T : Type 0) : Type 0 where
  pub sign : Signed → Option T
  pub parse : ℕ → T → Option Signed
  pub reread : Value → Value

-- The extra data of a token, one pair for each key of the map.
abbrev pub Extra : Type 0
Extra = List (Text × Value)

abbrev pub reread_all : {T : Type 0} → Signer T → Extra → Extra
reread_all signer [] = []
reread_all signer ((k, x) ∷ e) = (k, signer.reread x) ∷ reread_all signer e

abbrev pub read_back : {T : Type 0} → Signer T → Claims → Claims
read_back signer c = record c { extra_data = reread_all signer c.extra_data }

-- A signed token is read back while it is valid, and no longer; texts and Booleans of the extra data
-- come back as they were.
pub record IsSigner {T : Type 0} (signer : Signer T) : Type 0 where
  pub parse-sign :
      (s : Signed) (t : T) (now : ℕ)
      → signer.sign s ≡ some t
      → s.registered.not_before ≤ now
      → now < s.registered.expires_at
      → signer.parse now t ≡ some (record s { claims = read_back signer s.claims })
  pub parse_expired :
      (s : Signed) (t : T) (now : ℕ)
      → signer.sign s ≡ some t
      → s.registered.expires_at ≤ now
      → signer.parse now t ≡ none
  pub reread-text : (t : Text) → signer.reread (text t) ≡ text t
  pub reread-flag : (b : Bool) → signer.reread (flag b) ≡ flag b

pub record Generator : Type 0 where
  pub has_key : Bool
  pub issuer : Text
  pub audience : Text
  pub ttl : ℕ

pub record Verifier : Type 0 where
  pub has_key : Bool
  pub issuer : Text
  pub audience : Text

abbrev pub minute : ℕ
minute = 60

abbrev pub day : ℕ
day = 24 * 60 * 60

abbrev pub lasting : ℕ → Bool → ℕ
lasting ttl is_temp = if is_temp then 30 * minute else ttl

abbrev pub claims_of : ℤ → List Text → List Text → Text → Text → Bool → Extra → Text → Claims
claims_of identity_id roles permissions device purpose is_temp extra_data jti = record {
  identity_id = identity_id;
  id = jti;
  roles = roles;
  permissions = permissions;
  device = device;
  session_purpose = purpose;
  is_temp = is_temp;
  extra_data = extra_data;
}

abbrev pub registered_of : Generator → ℕ → Bool → ℤ → Registered
registered_of g now is_temp identity_id = record {
  issuer = g.issuer;
  subject = itoa identity_id;
  audience = g.audience ∷ [];
  expires_at = now + lasting g.ttl is_temp;
  issued_at = now;
  not_before = now;
}

-- A token with its jti.
abbrev pub with_jti : {T : Type 0} → Text → Option T → Option (T × Text)
with_jti jti none = none
with_jti jti (some t) = some (t, jti)

module _ {T : Type 0} (signer : Signer T) (now : ℕ) (jti : Text) where
  unfoldable pub generate :
      Generator → ℤ → List Text → List Text → Text → Text → Bool → Extra → Option (T × Text)
  generate g identity_id roles permissions device purpose is_temp extra_data =
      if g.has_key
      then with_jti jti (
          signer.sign (record {
            claims = claims_of identity_id roles permissions device purpose is_temp extra_data jti;
            registered = registered_of g now is_temp identity_id;
          }))
      else none

  unfoldable pub generate_access_token :
      Generator → ℤ → List Text → List Text → Text → Extra → Option (T × Text)
  generate_access_token g identity_id roles permissions device extra_data =
      generate g identity_id roles permissions device (lit "access") false extra_data

  unfoldable pub generate_refresh_token : Generator → ℤ → Text → Option (T × Text)
  generate_refresh_token g identity_id device =
      generate (record g { ttl = 7 * day }) identity_id [] [] device (lit "refresh") false []

  pub generate_password_reset_token : Generator → ℤ → Extra → Option (T × Text)
  generate_password_reset_token g identity_id extra_data =
      generate g identity_id [] [] [] (lit "password_reset") true extra_data

  pub generate_email_verification_token : Generator → ℤ → Text → Option (T × Text)
  generate_email_verification_token g identity_id email =
      generate g identity_id [] [] [] (lit "email_verification") true
        ((lit "email", text email) ∷ [])

  pub generate_phone_verification_token : Generator → ℤ → Text → Option (T × Text)
  generate_phone_verification_token g identity_id phone =
      generate g identity_id [] [] [] (lit "phone_verification") true
        ((lit "phone", text phone) ∷ [])

  pub generate_magic_link_token : Generator → ℤ → Text → Option (T × Text)
  generate_magic_link_token g identity_id email =
      generate (record g { ttl = 15 * minute }) identity_id [] [] [] (lit "magic_link") true
        ((lit "email", text email) ∷ [])

-- Without an audience a token passes where none is required.
unfoldable pub verify_audience : List Text → Text → Bool → Bool
verify_audience [] audience required = not required
verify_audience (a ∷ as_) audience required = any (λ x. text_eq x audience) (a ∷ as_)

module _ {T : Type 0} (signer : Signer T) (v : Verifier) (now : ℕ) where
  abbrev pub issued : Signed → Option Claims
  issued s =
      if text_eq s.registered.issuer v.issuer
      then (if verify_audience s.registered.audience v.audience true then some s.claims else none)
      else none

  abbrev pub read : Option Signed → Option Claims
  read none = none
  read (some s) = issued s

  unfoldable pub verify : T → Option Claims
  verify t = if v.has_key then read (signer.parse now t) else none

  -- The claims that pass a test.
  abbrev pub checked : (Claims → Bool) → Option Claims → Option Claims
  checked test none = none
  checked test (some c) = if test c then some c else none

  unfoldable pub verify_access_token : T → Option Claims
  verify_access_token t =
      checked (λ c. text_eq c.session_purpose (lit "access") && not c.is_temp) (verify t)

  pub verify_refresh_token : T → Option Claims
  verify_refresh_token t = checked (λ c. text_eq c.session_purpose (lit "refresh")) (verify t)

  pub verify_password_reset_token : T → Option Claims
  verify_password_reset_token t =
      checked (λ c. text_eq c.session_purpose (lit "password_reset") && c.is_temp) (verify t)

  pub verify_email_verification_token : T → Option Claims
  verify_email_verification_token t =
      checked (λ c. text_eq c.session_purpose (lit "email_verification")) (verify t)

  pub verify_phone_verification_token : T → Option Claims
  verify_phone_verification_token t =
      checked (λ c. text_eq c.session_purpose (lit "phone_verification")) (verify t)

  pub verify_magic_link_token : T → Option Claims
  verify_magic_link_token t = checked (λ c. text_eq c.session_purpose (lit "magic_link")) (verify t)

-- HasRole and HasPermission of the claims and of the verifier, and what is built of them.
pub has_role : Claims → Text → Bool
has_role c role = any (λ r. text_eq r role) c.roles

pub has_permission : Claims → Text → Bool
has_permission c permission = any (λ p. text_eq p permission) c.permissions

pub is_super_admin : Claims → Bool
is_super_admin c = has_role c (lit "super_admin")

pub is_admin : Claims → Bool
is_admin c = has_role c (lit "admin") || has_role c (lit "super_admin")

pub has_any_role : Claims → List Text → Bool
has_any_role c roles = any (has_role c) roles

pub has_all_roles : Claims → List Text → Bool
has_all_roles c roles = all (has_role c) roles

pub has_any_permission : Claims → List Text → Bool
has_any_permission c permissions = any (has_permission c) permissions

pub has_all_permissions : Claims → List Text → Bool
has_all_permissions c permissions = all (has_permission c) permissions
