-- ===== src/Auth/Tests.antt =====
-- A login, a logout and a change of the password, on servers in memory.
use zentora_backend.Prelude.{◌*◌, ◌≡◌, ◌≢◌, refl, true, false, none, some, [], ◌∷◌, arith}
use zentora_backend.Prelude.Int.{pos}
use zentora_backend.Text.{Text, lit, text_eq}
use zentora_backend.Access.{Claims}
use zentora_backend.Redis.Instance.{Memory, memory, memory-IsRedis}
use zentora_backend.Tokens.{registered_of, day, Signed, generate_access_token}
use zentora_backend.Tokens.Instance.{keeper, keeper-IsSigner, generator, verifier}
use zentora_backend.Tokens.Purposes.{for_access, for_refresh, claims_for}
use zentora_backend.Sessions.{SessionData}
use zentora_backend.Sessions.Manager.{blacklist_key, Stored, World}
use zentora_backend.Sessions.Manager.Steps.{Schedule, write, invalidate_all, perform_all}
use zentora_backend.Accounts.{Identity, Provider, Profile}
use zentora_backend.Accounts.Permissions.{Grants}
use zentora_backend.Auth.{
  Error, limiter_failed, too_many_attempts, invalid_credentials, inactive, suspended, locked_until,
  wrong_password, roles_failed, token_failed, session_failed, cache_failed, invalid_token,
  blacklist_failed, token_revoked, no_session, invalidate_failed, no_local_provider,
  incorrect_password, hash_failed, update_failed, Result, ok, err, panicked, Failures, Notice,
  force_logout, disconnect, State, LoginRequest, LoginResponse, Fresh, non_empty, found, is_after,
  email_in,
}
use zentora_backend.Auth.Login.{get_user_roles_and_permissions, login_with_identity, login}
use zentora_backend.Auth.Logout.{
  in_sessions, then_do, noticed, invalidated, blacklisted, revoke_session, logout,
  logout_all_sessions, deactivate_user, rehashed, with_local, change_password, with_session,
  unless_blacklisted, with_claims, validate_token,
}
use zentora_backend.Auth.Logout.Cleared.{change_password-validate_token}
use zentora_backend.Auth.Login.Accepted.{login-validate_token}
use zentora_backend.Auth.Logout.Refused.{is_refused, logout-validate_token}
use zentora_backend.Limits as Limits
use zentora_backend.Sessions.Manager as Manager

abbrev pub fine : Failures
fine = record {
  limits = record { incrs = false; expires = false; gets = false; sets = false; dels = false };
  sessions = record {
    gets = false;
    sets = false;
    dels = false;
    scans = false;
    finds = false;
    updates = false;
  };
  identities = false;
  providers = false;
  roles = false;
  inserts = false;
  updates = false;
  profiles = false;
}

abbrev pub Servers : Type 0
Servers = State (Memory Text) (Memory Stored)

abbrev pub start : Servers
start = record {
  limits = [];
  sessions = record { redis = []; rows = [] };
  identities =
      record {
        id = pos 7;
        email = some (lit "a@b.c");
        email_verified = true;
        phone = none;
        status = lit "active";
        last_login = none;
        failed_login_attempts = 2;
        locked_until = none;
        deleted_at = none;
      }
      ∷ [];
  providers =
      record {
        id = pos 3;
        identity_id = pos 7;
        provider = lit "local";
        password_hash = some (lit "secret");
        password_changed_at = none;
      }
      ∷ [];
  profiles = record { identity_id = pos 7; full_name = some (lit "A") } ∷ [];
  grants = record {
    roles = [];
    permissions = [];
    identity_roles = [];
    role_permissions = [];
    identity_permissions = [];
  };
  notices = [];
}

abbrev request : LoginRequest
request = record {
  email = lit "a@b.c";
  password = lit "secret";
  device = lit "d";
  ip_address = lit "1";
  user_agent = lit "u";
}

abbrev fresh : Fresh
fresh = record { session_id = pos 1; access_jti = lit "j"; refresh_jti = lit "k" }

abbrev after_login : Result (LoginResponse Signed) × Servers
after_login =
    login memory memory keeper generator verifier fine 100 (λ t. t) text_eq fresh request start

abbrev response : LoginResponse Signed
response = record {
  access_token = record {
    claims = claims_for (pos 7) (lit "j") (for_access (lit "user" ∷ []) [] (lit "d") []);
    registered = registered_of generator 100 false (pos 7);
  };
  refresh_token = record {
    claims = claims_for (pos 7) (lit "k") (for_refresh (lit "d"));
    registered = registered_of (record generator { ttl = 7 * day }) 100 false (pos 7);
  };
  expires_in = 900;
  expires_at = 1000;
  identity_id = pos 7;
  email = lit "a@b.c";
  full_name = lit "A";
  roles = lit "user" ∷ [];
  permissions = [];
}

logged_in : after_login ≡ (ok response, after_login.1)
unfolding login login_with_identity get_user_roles_and_permissions Limits.check_login_attempt
    Limits.count_attempt zentora_backend.Accounts.find_identity_by_email
    zentora_backend.Accounts.find_provider_by_identity_and_type generate_access_token
    zentora_backend.Tokens.generate zentora_backend.Tokens.generate_refresh_token
    Manager.create_session zentora_backend.Accounts.get_user_profile
    zentora_backend.Accounts.Permissions.get_user_roles
    zentora_backend.Accounts.Permissions.get_user_permissions
logged_in = refl

unlisted : memory.entry (blacklist_key (lit "j")) after_login.1.sessions.redis ≡ none
unfolding login login_with_identity get_user_roles_and_permissions Limits.check_login_attempt
    Limits.count_attempt zentora_backend.Accounts.find_identity_by_email
    zentora_backend.Accounts.find_provider_by_identity_and_type generate_access_token
    zentora_backend.Tokens.generate zentora_backend.Tokens.generate_refresh_token
    Manager.create_session blacklist_key Manager.session_key
unlisted = refl

login-validate_token_example :
    (validate_token memory memory keeper generator verifier fine 200 response.access_token
      after_login.1).0
    ≡ ok (claims_for (pos 7) (lit "j") (for_access (lit "user" ∷ []) [] (lit "d") []))
login-validate_token_example =
    login-validate_token memory memory keeper generator verifier fine 100 (λ t. t) text_eq
      memory-IsRedis keeper-IsSigner fresh request start response after_login.1 after_login.1 fine
      200 (refl, refl, refl) logged_in refl unlisted refl (omega arith) (omega arith)

abbrev after_logout : Result (Unit {0}) × Servers
after_logout = logout memory memory keeper generator verifier fine 200 (pos 7) (lit "j") start

logged_out : after_logout ≡ (ok tt, after_logout.1)
unfolding logout Manager.invalidate_session Manager.blacklist_token
    zentora_backend.Sessions.find_session_by_token
logged_out = refl

-- A late goroutine stores the session again, and all sessions are invalidated.
abbrev late : SessionData
late = record {
  jti = lit "j";
  identity_id = pos 7;
  session_id = pos 1;
  email = lit "a@b.c";
  roles = [];
  permissions = [];
  device = [];
  device_id = [];
  device_name = [];
  ip_address = [];
  user_agent = [];
  provider = lit "local";
  login_at = 100;
  last_activity_at = 100;
  expires_at = 1000;
  is_active = true;
  metadata = [];
}

abbrev later : Schedule {R = Memory Stored} memory
later =
    (250, fine.sessions, write (pos 7) (lit "j") late)
    ∷ (300, fine.sessions, invalidate_all (pos 7))
    ∷ []

abbrev at_end : Servers
at_end = record after_logout.1 {
  sessions = perform_all memory (λ i. none) 900 later after_logout.1.sessions;
}

signed :
    generate_access_token keeper 100 (lit "j") generator (pos 7) (lit "user" ∷ []) [] (lit "d") []
    ≡ some (response.access_token, lit "j")
unfolding generate_access_token zentora_backend.Tokens.generate
signed = refl

logout-validate_token_example :
    is_refused
      (validate_token memory memory keeper generator verifier fine 400 response.access_token
        at_end).0
    ≡ true
logout-validate_token_example =
    logout-validate_token memory memory keeper generator verifier memory-IsRedis keeper-IsSigner 100
      200 400 (pos 7) (lit "user" ∷ []) [] (lit "d") [] response.access_token (lit "j") (lit "j")
      fine fine (λ i. none) later start after_logout.1 at_end (refl, refl, refl) signed
      (omega arith) logged_out (omega arith, (omega arith, tt)) refl (omega arith)

-- The session of another identity, which is valid after what follows.
abbrev guest : Claims
guest = claims_for (pos 8) (lit "g") (for_access [] [] [] [])

abbrev guest_token : Signed
guest_token = record { claims = guest; registered = registered_of generator 100 false (pos 8) }

abbrev visited : Servers
visited = record start {
  sessions =
      (Manager.create_session memory fine.sessions 100
        (record late { jti = lit "g"; identity_id = pos 8 }) start.sessions).1;
}

abbrev after_change : Result (Unit {0}) × Servers
after_change =
    change_password memory memory keeper generator verifier fine 200 text_eq (pos 7) (lit "secret")
      (some (lit "hidden")) visited

changed : after_change ≡ (ok tt, after_change.1)
unfolding change_password zentora_backend.Accounts.find_provider_by_identity_and_type
    zentora_backend.Auth.Logout.logout_all_sessions Manager.invalidate_all_user_sessions
changed = refl

guest_valid :
    (validate_token memory memory keeper generator verifier fine 300 guest_token after_change.1).0
    ≡ ok guest
unfolding validate_token zentora_backend.Tokens.verify_access_token zentora_backend.Tokens.verify
    zentora_backend.Tokens.verify_audience Manager.is_token_blacklisted change_password
    zentora_backend.Accounts.find_provider_by_identity_and_type
    zentora_backend.Auth.Logout.logout_all_sessions Manager.invalidate_all_user_sessions
    Manager.session_keys Manager.create_session Manager.session_prefix Manager.session_key
    zentora_backend.Text.Decimal.itoa blacklist_key Manager.get_session
guest_valid = refl

change_password-validate_token_example : guest.identity_id ≢ pos 7
change_password-validate_token_example =
    change_password-validate_token memory memory keeper generator verifier memory-IsRedis text_eq
      fine fine 200 300 (pos 7) (lit "secret") (some (lit "hidden")) visited after_change.1
      guest_token guest changed refl (omega arith) guest_valid
