-- ===== src/Auth/Logout.antt =====
-- Logout, RevokeSession, LogoutAllSessions, ChangePassword, DeactivateUser and ValidateToken of
-- internal/service/auth/auth.go.
pub mod Refused
pub mod Cleared
use zentora_backend.Prelude.{
  ℕ, ◌+◌, ◌*◌, ◌≡◌, Bool, true, false, ◌&&◌, not, Option, none, some, List, [], ◌∷◌, ◌++◌,
  if◌then◌else◌, ltb,
}
use zentora_backend.Prelude.Int.{ℤ, pos, ◌-ℤ◌}
use zentora_backend.Text.{Text, lit, is_empty, text_eq}
use zentora_backend.Redis.{Redis}
use zentora_backend.Limits.{check_login_attempt, reset_login_attempts}
use zentora_backend.Tokens.{
  Signer, Generator, Verifier, generate_access_token, generate_refresh_token, verify_access_token,
}
use zentora_backend.Sessions.{SessionData, Session, active, create_session_row}
use zentora_backend.Sessions.Manager.{
  Stored, World, Task, create_session, get_session, invalidate_session,
  invalidate_all_user_sessions, is_token_blacklisted, blacklist_token, string_from_null,
}
use zentora_backend.Accounts.{
  Identity, Provider, Profile, find_identity_by_email, find_identity_by_id,
  update_identity_last_login, increment_failed_login_attempts, update_identity_status,
  find_provider_by_identity_and_type, update_provider_password, get_user_profile,
}
use zentora_backend.Accounts.Permissions.{Grants, get_user_roles, get_user_permissions}
use zentora_backend.Access.{Claims}
use zentora_backend.Limits as Limits
use zentora_backend.Sessions.Manager as Manager
use zentora_backend.Auth.{
  Error, limiter_failed, too_many_attempts, invalid_credentials, inactive, suspended, locked_until,
  wrong_password, roles_failed, token_failed, session_failed, cache_failed, invalid_token,
  blacklist_failed, token_revoked, no_session, invalidate_failed, no_local_provider,
  incorrect_password, hash_failed, update_failed, Result, ok, err, panicked, Failures, Notice,
  force_logout, disconnect, State, LoginRequest, LoginResponse, Fresh, non_empty, found, is_after,
  email_in,
}

module _ {L R T : Type 0} (limiter : Redis L Text) (redis : Redis R Stored) (signer : Signer T)
    (generator : Generator) (verifier : Verifier) (fails : Failures) (now : ℕ) where
  abbrev pub in_sessions :
      Error → State L R → Manager.Result (Unit {0}) × World R → Result (Unit {0}) × State L R
  in_sessions e st (Manager.err x, w) = (err e, record st { sessions = w })
  in_sessions e st (Manager.ok u, w) = (ok tt, record st { sessions = w })

  -- What follows a step that went well.
  abbrev pub then_do :
      Result (Unit {0}) × State L R
      → (State L R → Result (Unit {0}) × State L R)
      → Result (Unit {0}) × State L R
  then_do (err e, st) f = (err e, st)
  then_do (panicked, st) f = (panicked, st)
  then_do (ok u, st) f = f st

  abbrev pub noticed : Notice → State L R → Result (Unit {0}) × State L R
  noticed n st = (ok tt, record st { notices = st.notices ++ n ∷ [] })

  abbrev pub invalidated : ℤ → Text → State L R → Result (Unit {0}) × State L R
  invalidated id jti st =
      in_sessions invalidate_failed st
        (invalidate_session redis fails.sessions now id jti st.sessions)

  abbrev pub blacklisted : Text → State L R → Result (Unit {0}) × State L R
  blacklisted jti st =
      in_sessions blacklist_failed st
        (blacklist_token redis fails.sessions now jti generator.ttl st.sessions)

  pub revoke_session : ℤ → Text → State L R → Result (Unit {0}) × State L R
  revoke_session id jti st = then_do (invalidated id jti st) (blacklisted jti)

  unfoldable pub logout : ℤ → Text → State L R → Result (Unit {0}) × State L R
  logout id jti st =
      then_do (then_do (invalidated id jti st) (blacklisted jti)) (noticed (force_logout id jti))

  unfoldable pub logout_all_sessions : ℤ → State L R → Result (Unit {0}) × State L R
  logout_all_sessions id st =
      then_do
        (in_sessions invalidate_failed st
          (invalidate_all_user_sessions redis fails.sessions now id st.sessions))
        (noticed (force_logout id []))

  pub deactivate_user : ℤ → State L R → Result (Unit {0}) × State L R
  deactivate_user id st =
      if fails.updates
      then (err update_failed, st)
      else then_do
          (logout_all_sessions id
            (record st { identities = update_identity_status id (lit "inactive") st.identities }))
          (noticed (disconnect id))

  -- `hashed` is what bcrypt makes of the new password, with its random salt.
  abbrev pub rehashed : ℤ → Provider → Option Text → State L R → Result (Unit {0}) × State L R
  rehashed id p none st = (err hash_failed, st)
  rehashed id p (some hash) st =
      if fails.updates
      then (err update_failed, st)
      else logout_all_sessions id
          (record st { providers = update_provider_password now p.id hash st.providers })

  abbrev pub with_local :
      (Text → Text → Bool)
      → ℤ
      → Text
      → Option Text
      → State L R
      → Option Provider
      → Result (Unit {0}) × State L R
  with_local compare_hash id current hashed st none = (err no_local_provider, st)
  with_local compare_hash id current hashed st (some p) =
      if compare_hash (string_from_null p.password_hash) current
      then rehashed id p hashed st
      else (err incorrect_password, st)

  unfoldable pub change_password :
      (Text → Text → Bool) → ℤ → Text → Option Text → State L R → Result (Unit {0}) × State L R
  change_password compare_hash id current hashed st =
      with_local compare_hash id current hashed st
        (found fails.providers (find_provider_by_identity_and_type id (lit "local") st.providers))

  abbrev pub with_session :
      Claims → Manager.Result SessionData × Option Task → Result Claims × Option Task
  with_session c (Manager.err e, task) = (err no_session, task)
  with_session c (Manager.ok d, task) = (ok c, task)

  abbrev pub unless_blacklisted :
      Claims → State L R → Manager.Result Bool → Result Claims × Option Task
  unless_blacklisted c st (Manager.err e) = (err blacklist_failed, none)
  unless_blacklisted c st (Manager.ok true) = (err token_revoked, none)
  unless_blacklisted c st (Manager.ok false) = with_session c (
      get_session redis fails.sessions now (λ i. found fails.identities (email_in st.identities i))
        c.identity_id c.id st.sessions)

  abbrev pub with_claims : State L R → Option Claims → Result Claims × Option Task
  with_claims st none = (err invalid_token, none)
  with_claims st (some c) =
      unless_blacklisted c st (is_token_blacklisted redis fails.sessions now c.id st.sessions)

  unfoldable pub validate_token : T → State L R → Result Claims × Option Task
  validate_token token st = with_claims st (verify_access_token signer verifier now token)
