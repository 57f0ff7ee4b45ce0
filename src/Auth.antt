-- ===== src/Auth.antt =====
-- The authentication service (internal/service/auth/auth.go): login, logout, the validation of
-- tokens, and what revokes sessions. bcrypt, the signing of tokens, LOWER of SQL and the random
-- identifiers are parameters. The limits' keys and the sessions' keys are apart, so each has a state
-- of its own; what is sent to the hub is recorded.
pub mod Outcomes
pub mod Login
pub mod Logout
pub mod Recovery
mod Tests
use zentora_backend.Prelude.{
  ℕ, ◌+◌, ◌*◌, ◌≡◌, Bool, true, false, ◌&&◌, not, Option, none, some, List, [], ◌∷◌, ◌++◌,
  if◌then◌else◌, ltb,
}
use zentora_backend.Prelude.Int.{ℤ, pos, ◌-ℤ◌}
use zentora_backend.Text.{Text, lit, is_empty, text_eq}
use zentora_backend.Redis.{Redis}
use zentora_backend.Limits.{check_login_attempt, reset_login_attempts}
use zentora_backend.Tokens.{
  Signer, Generator, Verifier, generate_access_token, generate_refresh_token, verify_access_token,
}
use zentora_backend.Sessions.{SessionData, Session, active, create_session_row}
use zentora_backend.Sessions.Manager.{
  Stored, World, Task, create_session, get_session, invalidate_session,
  invalidate_all_user_sessions, is_token_blacklisted, blacklist_token, string_from_null,
}
use zentora_backend.Accounts.{
  Identity, Provider, Profile, find_identity_by_email, find_identity_by_id,
  update_identity_last_login, increment_failed_login_attempts, update_identity_status,
  find_provider_by_identity_and_type, update_provider_password, get_user_profile,
}
use zentora_backend.Accounts.Permissions.{Grants, get_user_roles, get_user_permissions}
use zentora_backend.Access.{Claims}
use zentora_backend.Limits as Limits
use zentora_backend.Sessions.Manager as Manager

pub data Error : Type 0 where
  limiter_failed too_many_attempts invalid_credentials inactive suspended : Error
  locked_until : ℕ → Error
  -- The attempts that the message says remain.
  wrong_password : ℤ → Error
  token_unstored no_identity already_verified : Error
  roles_failed token_failed session_failed cache_failed : Error
  invalid_token blacklist_failed token_revoked no_session : Error
  invalidate_failed no_local_provider incorrect_password hash_failed update_failed : Error

-- `panicked` is the use of a nil pointer.
pub data Result {ℓ} (A : Type ℓ) : Type ℓ where
  ok : A → Result A
  err : Error → Result A
  panicked : Result A

-- Which kinds of commands fail during a call.
pub record Failures : Type 0 where
  pub limits : Limits.Failures
  pub sessions : Manager.Failures
  pub identities : Bool
  pub providers : Bool
  pub roles : Bool
  pub inserts : Bool
  pub updates : Bool
  pub profiles : Bool

-- What the hub is told.
pub data Notice : Type 0 where
  force_logout : ℤ → Text → Notice
  disconnect : ℤ → Notice

pub record State (L R : Type 0) : Type 0 where
  pub limits : L
  pub sessions : World R
  pub identities : List Identity
  pub providers : List Provider
  pub profiles : List Profile
  pub grants : Grants
  pub notices : List Notice

pub record LoginRequest : Type 0 where
  pub email : Text
  pub password : Text
  pub device : Text
  pub ip_address : Text
  pub user_agent : Text

pub record LoginResponse (T : Type 0) : Type 0 where
  pub access_token : T
  pub refresh_token : T
  pub expires_in : ℕ
  pub expires_at : ℕ
  pub identity_id : ℤ
  pub email : Text
  pub full_name : Text
  pub roles : List Text
  pub permissions : List Text

-- What the database and ulid make up for a login.
pub record Fresh : Type 0 where
  pub session_id : ℤ
  pub access_jti : Text
  pub refresh_jti : Text

-- sql.NullString{String: t, Valid: t != ""}
abbrev pub non_empty : Text → Option Text
non_empty t = if is_empty t then none else some t

abbrev pub found {ℓ} : {A : Type ℓ} → Bool → Option A → Option A
found fails o = if fails then none else o

abbrev pub is_after : ℕ → Option ℕ → Bool
is_after now none = false
is_after now (some t) = ltb now t

abbrev pub email_in : List Identity → ℤ → Option Text
email_in is id = elim (find_identity_by_id id is) [ none ↦ none | some i ↦ i.email ]
