-- ===== src/Accounts.antt =====
-- The accounts (internal/repository/postgres/auth_repo.go): the tables auth_identities,
-- auth_providers and user_profiles with the queries of the authentication service. LOWER of SQL is a
-- parameter. A `find` that fails, or finds nothing, is `none`.
pub mod Permissions
pub mod Verifications
use zentora_backend.Prelude.{
  ℕ, suc, ◌+◌, Bool, true, false, ◌&&◌, not, Option, none, some, List, [], ◌∷◌, map, if◌then◌else◌,
  leb,
}
use zentora_backend.Prelude.Int.{ℤ, ◌==ℤ◌}
use zentora_backend.Text.{Text, text_eq, lit}

-- `none` is NULL.
pub record Identity : Type 0 where
  pub id : ℤ
  pub email : Option Text
  pub email_verified : Bool
  pub phone : Option Text
  pub status : Text
  pub last_login : Option ℕ
  pub failed_login_attempts : ℕ
  pub locked_until : Option ℕ
  pub deleted_at : Option ℕ

pub record Provider : Type 0 where
  pub id : ℤ
  pub identity_id : ℤ
  pub provider : Text
  pub password_hash : Option Text
  pub password_changed_at : Option ℕ

pub record Profile : Type 0 where
  pub identity_id : ℤ
  pub full_name : Option Text

abbrev pub is_null {ℓ} : {A : Type ℓ} → Option A → Bool
is_null none = true
is_null (some a) = false

abbrev pub has_email : (Text → Text) → Text → Option Text → Bool
has_email lower email none = false
has_email lower email (some e) = text_eq (lower e) (lower email)

unfoldable pub find_identity_by_email : (Text → Text) → Text → List Identity → Option Identity
find_identity_by_email lower email [] = none
find_identity_by_email lower email (i ∷ is) =
    if has_email lower email i.email && is_null i.deleted_at
    then some i
    else find_identity_by_email lower email is

pub find_identity_by_id : ℤ → List Identity → Option Identity
find_identity_by_id id [] = none
find_identity_by_id id (i ∷ is) =
    if i.id ==ℤ id && is_null i.deleted_at then some i else find_identity_by_id id is

abbrev pub where_id : ℤ → (Identity → Identity) → List Identity → List Identity
where_id id f is = map (λ i. if i.id ==ℤ id then f i else i) is

abbrev pub logged_in : ℕ → Identity → Identity
logged_in now i = record i { last_login = some now; failed_login_attempts = 0; locked_until = none }

pub update_identity_last_login : ℕ → ℤ → List Identity → List Identity
update_identity_last_login now id is = where_id id (logged_in now) is

-- Locked up to a time from the fifth failure on.
abbrev pub failed_once : ℕ → Identity → Identity
failed_once until i = record i {
  failed_login_attempts = i.failed_login_attempts + 1;
  locked_until = if leb 5 (i.failed_login_attempts + 1) then some until else none;
}

pub increment_failed_login_attempts : ℕ → ℤ → ℕ → List Identity → List Identity
increment_failed_login_attempts now id lock_duration is =
    where_id id (failed_once (now + lock_duration)) is

pub update_identity_status : ℤ → Text → List Identity → List Identity
update_identity_status id status is = where_id id (λ i. record i { status = status }) is

unfoldable pub find_provider_by_identity_and_type : ℤ → Text → List Provider → Option Provider
find_provider_by_identity_and_type id type [] = none
find_provider_by_identity_and_type id type (p ∷ ps) =
    if p.identity_id ==ℤ id && text_eq p.provider type
    then some p
    else find_provider_by_identity_and_type id type ps

pub update_provider_password : ℕ → ℤ → Text → List Provider → List Provider
update_provider_password now id hash ps =
    map
      (λ p.
        if p.id ==ℤ id && text_eq p.provider (lit "local")
        then record p { password_hash = some hash; password_changed_at = some now }
        else p)
      ps

unfoldable pub get_user_profile : ℤ → List Profile → Option Profile
get_user_profile id [] = none
get_user_profile id (p ∷ ps) = if p.identity_id ==ℤ id then some p else get_user_profile id ps
