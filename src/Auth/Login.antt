-- ===== src/Auth/Login.antt =====
-- Login and loginWithIdentity of internal/service/auth/auth.go.
pub mod Accepted
use zentora_backend.Prelude.{
  ℕ, ◌+◌, ◌*◌, ◌≡◌, Bool, true, false, ◌&&◌, not, Option, none, some, List, [], ◌∷◌, ◌++◌,
  if◌then◌else◌, ltb,
}
use zentora_backend.Prelude.Int.{ℤ, pos, ◌-ℤ◌}
use zentora_backend.Text.{Text, lit, is_empty, text_eq}
use zentora_backend.Redis.{Redis}
use zentora_backend.Limits.{check_login_attempt, reset_login_attempts}
use zentora_backend.Tokens.{
  Signer, Generator, Verifier, generate_access_token, generate_refresh_token, verify_access_token,
}
use zentora_backend.Sessions.{SessionData, Session, active, create_session_row}
use zentora_backend.Sessions.Manager.{
  Stored, World, Task, create_session, get_session, invalidate_session,
  invalidate_all_user_sessions, is_token_blacklisted, blacklist_token, string_from_null,
}
use zentora_backend.Accounts.{
  Identity, Provider, Profile, find_identity_by_email, find_identity_by_id,
  update_identity_last_login, increment_failed_login_attempts, update_identity_status,
  find_provider_by_identity_and_type, update_provider_password, get_user_profile,
}
use zentora_backend.Accounts.Permissions.{Grants, get_user_roles, get_user_permissions}
use zentora_backend.Access.{Claims}
use zentora_backend.Limits as Limits
use zentora_backend.Sessions.Manager as Manager
use zentora_backend.Auth.{
  Error, limiter_failed, too_many_attempts, invalid_credentials, inactive, suspended, locked_until,
  wrong_password, roles_failed, token_failed, session_failed, cache_failed, invalid_token,
  blacklist_failed, token_revoked, no_session, invalidate_failed, no_local_provider,
  incorrect_password, hash_failed, update_failed, Result, ok, err, panicked, Failures, Notice,
  force_logout, disconnect, State, LoginRequest, LoginResponse, Fresh, non_empty, found, is_after,
  email_in,
}

module _ {L R T : Type 0} (limiter : Redis L Text) (redis : Redis R Stored) (signer : Signer T)
    (generator : Generator) (verifier : Verifier) (fails : Failures) (now : ℕ) where
  abbrev pub with_default : List Text → List Text
  with_default [] = lit "user" ∷ []
  with_default (r ∷ rs) = r ∷ rs

  unfoldable pub get_user_roles_and_permissions : ℤ → State L R → Option (List Text × List Text)
  get_user_roles_and_permissions id st =
      if fails.roles
      then none
      else some
          (with_default (get_user_roles now id st.grants), get_user_permissions now id st.grants)

  abbrev pub row_for : Fresh → Identity → Provider → Text → Text → Text → Session
  row_for f i p device ip_address user_agent = record {
    id = f.session_id;
    identity_id = i.id;
    session_token = f.access_jti;
    refresh_token = some f.refresh_jti;
    provider = p.provider;
    ip_address = non_empty ip_address;
    user_agent = non_empty user_agent;
    device_id = non_empty device;
    device_name = none;
    device_fingerprint = none;
    status = active;
    login_at = now;
    last_activity_at = now;
    expires_at = now + generator.ttl;
    logout_at = none;
    metadata = [];
  }

  abbrev pub session_for :
      Fresh → Identity → Provider → Text → Text → Text → List Text × List Text → SessionData
  session_for f i p device ip_address user_agent r = record {
    jti = f.access_jti;
    identity_id = i.id;
    session_id = f.session_id;
    email = string_from_null i.email;
    roles = r.0;
    permissions = r.1;
    device = device;
    device_id = device;
    device_name = [];
    ip_address = ip_address;
    user_agent = user_agent;
    provider = p.provider;
    login_at = now;
    last_activity_at = now;
    expires_at = now + generator.ttl;
    is_active = true;
    metadata = [];
  }

  -- The answer, which reads the profile's name without a test for nil.
  abbrev pub answered :
      Identity → T → T → List Text × List Text → Option Profile → Result (LoginResponse T)
  answered i access refresh r none = panicked
  answered i access refresh r (some p) = ok (record {
    access_token = access;
    refresh_token = refresh;
    expires_in = generator.ttl;
    expires_at = now + generator.ttl;
    identity_id = i.id;
    email = string_from_null i.email;
    full_name = string_from_null p.full_name;
    roles = r.0;
    permissions = r.1;
  })

  abbrev pub cached :
      Identity
      → T
      → T
      → List Text × List Text
      → State L R
      → Manager.Result (Unit {0}) × World R
      → Result (LoginResponse T) × State L R
  cached i access refresh r st (Manager.err e, w) = (err cache_failed, record st { sessions = w })
  cached i access refresh r st (Manager.ok u, w) = (
    answered i access refresh r (found fails.profiles (get_user_profile i.id st.profiles)),
    record st { sessions = w },
  )

  abbrev pub inserted : Session → State L R → State L R
  inserted s st = record st {
    sessions = record st.sessions { rows = create_session_row s.id now s st.sessions.rows };
  }

  abbrev pub with_tokens :
      Fresh
      → Identity
      → Provider
      → Text
      → Text
      → Text
      → State L R
      → List Text × List Text
      → T
      → T
      → Result (LoginResponse T) × State L R
  with_tokens f i p device ip_address user_agent st r access refresh =
      let row = row_for f i p device ip_address user_agent in
      if fails.inserts
      then (err session_failed, st)
      else cached i access refresh r (inserted row st) (
          create_session redis fails.sessions now (session_for f i p device ip_address user_agent r)
            (inserted row st).sessions)

  abbrev pub with_access :
      Fresh
      → Identity
      → Provider
      → Text
      → Text
      → Text
      → State L R
      → List Text × List Text
      → Option (T × Text)
      → Option (T × Text)
      → Result (LoginResponse T) × State L R
  with_access f i p device ip_address user_agent st r none refresh = (err token_failed, st)
  with_access f i p device ip_address user_agent st r (some a) none = (err token_failed, st)
  with_access f i p device ip_address user_agent st r (some a) (some b) =
      with_tokens f i p device ip_address user_agent st r a.0 b.0

  abbrev pub with_roles :
      Fresh
      → Identity
      → Provider
      → Text
      → Text
      → Text
      → State L R
      → Option (List Text × List Text)
      → Result (LoginResponse T) × State L R
  with_roles f i p device ip_address user_agent st none = (err roles_failed, st)
  with_roles f i p device ip_address user_agent st (some r) =
      with_access f i p device ip_address user_agent st r
        (generate_access_token signer now f.access_jti generator i.id r.0 r.1 device [])
        (generate_refresh_token signer now f.refresh_jti generator i.id device)

  unfoldable pub login_with_identity :
      Fresh
      → Identity
      → Provider
      → Text
      → Text
      → Text
      → State L R
      → Result (LoginResponse T) × State L R
  login_with_identity f i p device ip_address user_agent st =
      with_roles f i p device ip_address user_agent st (get_user_roles_and_permissions i.id st)

  module _ (lower : Text → Text) (compare_hash : Text → Text → Bool) where
    abbrev pub welcomed : LoginRequest → Identity → State L R → State L R
    welcomed req i st = record st {
      limits = (reset_login_attempts limiter fails.limits now req.ip_address req.email st.limits).1;
      identities =
          if fails.updates
          then st.identities
          else update_identity_last_login now i.id st.identities;
    }

    abbrev pub rejected : Identity → State L R → State L R
    rejected i st = if fails.updates then st else record st {
      identities = increment_failed_login_attempts now i.id (30 * 60) st.identities;
    }

    abbrev pub with_provider :
        Fresh
        → LoginRequest
        → ℕ
        → Identity
        → State L R
        → Option Provider
        → Result (LoginResponse T) × State L R
    with_provider f req remaining i st none = (err invalid_credentials, st)
    with_provider f req remaining i st (some p) =
        if compare_hash (string_from_null p.password_hash) req.password
        then login_with_identity f i p req.device req.ip_address req.user_agent (welcomed req i st)
        else (err (wrong_password (pos remaining -ℤ pos 1)), rejected i st)

    abbrev pub lock_time : Option ℕ → ℕ
    lock_time none = 0
    lock_time (some t) = t

    abbrev pub with_identity :
        Fresh
        → LoginRequest
        → ℕ
        → State L R
        → Option Identity
        → Result (LoginResponse T) × State L R
    with_identity f req remaining st none = (err invalid_credentials, st)
    with_identity f req remaining st (some i) =
        if text_eq i.status (lit "inactive")
        then (err inactive, st)
        else if text_eq i.status (lit "suspended")
        then (err suspended, st)
        else if is_after now i.locked_until
        then (err (locked_until (lock_time i.locked_until)), st)
        else with_provider f req remaining i st (
            found fails.providers
              (find_provider_by_identity_and_type i.id (lit "local") st.providers))

    abbrev pub limited :
        Fresh
        → LoginRequest
        → State L R
        → Limits.Result (Bool × ℕ) × L
        → Result (LoginResponse T) × State L R
    limited f req st (Limits.err e, l) = (err limiter_failed, record st { limits = l })
    limited f req st (Limits.ok (false, remaining), l) =
        (err too_many_attempts, record st { limits = l })
    limited f req st (Limits.ok (true, remaining), l) =
        with_identity f req remaining (record st { limits = l })
          (found fails.identities (find_identity_by_email lower req.email st.identities))

    unfoldable pub login : Fresh → LoginRequest → State L R → Result (LoginResponse T) × State L R
    login f req st =
        limited f req st
          (check_login_attempt limiter fails.limits now req.ip_address req.email st.limits)
