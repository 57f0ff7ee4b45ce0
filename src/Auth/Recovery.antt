-- ===== src/Auth/Recovery.antt =====
-- ForgotPassword, ResetPassword and the verification of email addresses
-- (internal/service/auth/auth.go), over tokens that are sent by mail. What is mailed is recorded; the
-- random bytes of a token are an argument, `none` where they cannot be read. The cache's key of a
-- reset is in the server that the limits use.
pub mod Single
mod Tests
use zentora_backend.Prelude.{
  ℕ, ◌+◌, ◌*◌, Bool, true, false, Option, none, some, List, [], ◌∷◌, ◌++◌, if◌then◌else◌,
}
use zentora_backend.Prelude.Int.{ℤ}
use zentora_backend.Text.{Text, lit}
use zentora_backend.Text.Decimal.{itoa}
use zentora_backend.Redis.{Redis}
use zentora_backend.Limits.{check_password_reset_attempt}
use zentora_backend.Tokens.{Signer, Generator, Verifier}
use zentora_backend.Sessions.Manager.{Stored, string_from_null}
use zentora_backend.Accounts.{
  Identity, Provider, Profile, find_identity_by_email, find_identity_by_id, update_identity_status,
  find_provider_by_identity_and_type, update_provider_password, get_user_profile,
}
use zentora_backend.Accounts.Verifications.{
  VerificationToken, create_verification_token, find_verification_token, mark_token_as_used,
}
use zentora_backend.Auth.{
  limiter_failed, too_many_attempts, token_failed, token_unstored, no_identity, already_verified,
  invalid_token, no_local_provider, hash_failed, update_failed, Result, ok, err, panicked, Failures,
  State, found,
}
use zentora_backend.Auth.Logout.{logout_all_sessions}
use zentora_backend.Limits as Limits

-- What is sent, to whom, with the name and the token.
pub data Mail : Type 0 where
  reset_mail : Text → Text → Text → Mail
  verification_mail : Text → Text → Text → Mail
  welcome_mail : Text → Text → Mail

pub record RecoveryFailures : Type 0 where
  pub service : Failures
  pub token_finds : Bool
  pub token_inserts : Bool
  pub token_marks : Bool
  pub cache_sets : Bool
  pub cache_dels : Bool

-- The service's state with the tokens and what was mailed.
pub record Desk (L R : Type 0) : Type 0 where
  pub service : State L R
  pub tokens : List VerificationToken
  pub mails : List Mail

abbrev pub full_name_or_user : Option Profile → Text
full_name_or_user none = lit "User"
full_name_or_user (some p) = elim p.full_name [ none ↦ lit "User" | some n ↦ n ]

pub reset_cache_key : ℤ → Text
reset_cache_key id = lit "password_reset:" ++ itoa id

abbrev pub hour : ℕ
hour = 3600

abbrev pub new_token : ℤ → Text → Text → ℕ → VerificationToken
new_token identity_id type token expires_at = record {
  id = identity_id;
  identity_id = identity_id;
  token_type = type;
  token = token;
  code = none;
  expires_at = expires_at;
  used_at = none;
  verified_at = none;
  attempts = 0;
}

module _ {L R T : Type 0} (limiter : Redis L Text) (redis : Redis R Stored) (signer : Signer T)
    (generator : Generator) (verifier : Verifier) (fails : RecoveryFailures) (now : ℕ) where
  abbrev pub name_of_user : ℤ → Desk L R → Text
  name_of_user id d =
      full_name_or_user (found fails.service.profiles (get_user_profile id d.service.profiles))

  abbrev pub mailed : Mail → Desk L R → Desk L R
  mailed m d = record d { mails = d.mails ++ m ∷ [] }

  abbrev pub in_cache : ℤ → Text → Desk L R → Desk L R
  in_cache id token d = if fails.cache_sets then d else record d {
    service = record d.service {
      limits = limiter.set (reset_cache_key id) token (now + hour) d.service.limits;
    };
  }

  abbrev pub with_reset_token :
      (Text → Text) → ℤ → Identity → Option Text → Desk L R → Result (Unit {0}) × Desk L R
  with_reset_token lower row i none d = (err token_failed, d)
  with_reset_token lower row i (some token) d =
      if fails.token_inserts
      then (err token_unstored, d)
      else let stored = record d {
        tokens =
            create_verification_token row (new_token i.id (lit "password_reset") token (now + hour))
              d.tokens;
      } in
        (
          ok tt,
          mailed (reset_mail (string_from_null i.email) (name_of_user i.id d) token)
              (in_cache i.id token stored),
        )

  -- An unknown address is answered like a known one.
  abbrev pub with_owner :
      (Text → Text) → ℤ → Option Text → Option Identity → Desk L R → Result (Unit {0}) × Desk L R
  with_owner lower row random none d = (ok tt, d)
  with_owner lower row random (some i) d = with_reset_token lower row i random d

  abbrev pub limited_reset :
      (Text → Text)
      → ℤ
      → Option Text
      → Text
      → Desk L R
      → Limits.Result Bool × L
      → Result (Unit {0}) × Desk L R
  limited_reset lower row random email d (Limits.err e, l) =
      (err limiter_failed, record d { service = record d.service { limits = l } })
  limited_reset lower row random email d (Limits.ok false, l) =
      (err too_many_attempts, record d { service = record d.service { limits = l } })
  limited_reset lower row random email d (Limits.ok true, l) =
      with_owner lower row random
        (found fails.service.identities (find_identity_by_email lower email d.service.identities))
        (record d { service = record d.service { limits = l } })

  pub forgot_password :
      (Text → Text) → ℤ → Option Text → Text → Desk L R → Result (Unit {0}) × Desk L R
  forgot_password lower row random email d =
      limited_reset lower row random email d
        (check_password_reset_attempt limiter fails.service.limits now email d.service.limits)

  abbrev pub in_service : Desk L R → Result (Unit {0}) × State L R → Result (Unit {0}) × Desk L R
  in_service d (r, st) = (r, record d { service = st })

  abbrev pub marked : ℤ → Desk L R → Desk L R
  marked id d =
      if fails.token_marks then d else record d { tokens = mark_token_as_used now id d.tokens }

  abbrev pub uncached : ℤ → State L R → State L R
  uncached id st =
      if fails.cache_dels
      then st
      else record st { limits = limiter.del (reset_cache_key id) st.limits }

  abbrev pub with_new_password :
      VerificationToken → Provider → Option Text → Desk L R → Result (Unit {0}) × Desk L R
  with_new_password t p none d = (err hash_failed, d)
  with_new_password t p (some hash) d =
      if fails.service.updates
      then (err update_failed, d)
      else in_service (marked t.id d) (
          logout_all_sessions limiter redis signer generator verifier fails.service now
            t.identity_id
            (uncached t.identity_id (record d.service {
              providers = update_provider_password now p.id hash d.service.providers;
            })))

  abbrev pub with_token_provider :
      VerificationToken → Option Text → Desk L R → Option Provider → Result (Unit {0}) × Desk L R
  with_token_provider t hashed d none = (err no_local_provider, d)
  with_token_provider t hashed d (some p) = with_new_password t p hashed d

  abbrev pub with_token :
      Option Text → Desk L R → Option VerificationToken → Result (Unit {0}) × Desk L R
  with_token hashed d none = (err invalid_token, d)
  with_token hashed d (some t) = with_token_provider t hashed d (
      found fails.service.providers
        (find_provider_by_identity_and_type t.identity_id (lit "local") d.service.providers))

  -- `hashed` is what bcrypt makes of the new password.
  pub reset_password : Text → Option Text → Desk L R → Result (Unit {0}) × Desk L R
  reset_password token hashed d =
      with_token hashed d (
        found fails.token_finds (find_verification_token now (lit "password_reset") token d.tokens))

  pub send_email_verification : ℤ → Text → ℤ → Text → Desk L R → Result (Unit {0}) × Desk L R
  send_email_verification row random id email d =
      if fails.token_inserts then (err token_unstored, d) else (
        ok tt,
        mailed (verification_mail email (name_of_user id d) random) (record d {
          tokens =
              create_verification_token row
                (new_token id (lit "email_verify") random (now + 24 * hour)) d.tokens;
        }),
      )

  abbrev pub with_verified :
      VerificationToken → Desk L R → Option Identity → Result (Unit {0}) × Desk L R
  with_verified t d none = (err no_identity, d)
  with_verified t d (some i) = if fails.service.updates then (err update_failed, d) else (
    ok tt,
    mailed (welcome_mail (string_from_null i.email) (name_of_user i.id d)) (
        marked t.id (record d {
          service = record d.service {
            identities = update_identity_status i.id (lit "active") d.service.identities;
          };
        })),
  )

  abbrev pub with_email_token : Desk L R → Option VerificationToken → Result (Unit {0}) × Desk L R
  with_email_token d none = (err invalid_token, d)
  with_email_token d (some t) =
      with_verified t d
        (found fails.service.identities (find_identity_by_id t.identity_id d.service.identities))

  pub verify_email : Text → Desk L R → Result (Unit {0}) × Desk L R
  verify_email token d =
      with_email_token d
        (found fails.token_finds (find_verification_token now (lit "email_verify") token d.tokens))

  abbrev pub resent : ℤ → Text → Desk L R → Option Identity → Result (Unit {0}) × Desk L R
  resent row random d none = (err no_identity, d)
  resent row random d (some i) =
      if i.email_verified
      then (err already_verified, d)
      else send_email_verification row random i.id (string_from_null i.email) d

  pub resend_email_verification : ℤ → Text → ℤ → Desk L R → Result (Unit {0}) × Desk L R
  resend_email_verification row random id d =
      resent row random d
        (found fails.service.identities (find_identity_by_id id d.service.identities))
