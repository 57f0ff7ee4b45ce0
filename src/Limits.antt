-- ===== src/Limits.antt =====
-- The rate limits (internal/pkg/session/redis_store.go): counters in Redis that expire with their
-- window. Every limit counts by INCR, and sets the expiry where the reply is 1; an error of EXPIRE is
-- dropped. Times are in seconds; a request's commands all run at one time.
pub mod Windows
mod Tests
use zentora_backend.Prelude.{
  ℕ, suc, ◌+◌, ◌-◌, ◌*◌, ◌==◌, ◌≡◌, Bool, true, false, ◌&&◌, not, Option, none, some, List, [], ◌∷◌,
  ◌++◌, if◌then◌else◌, leb, ltb,
}
use zentora_backend.Prelude.Int.{ℤ, pos}
use zentora_backend.Text.{Text, lit}
use zentora_backend.Text.Decimal.{itoa}
use zentora_backend.Redis.{Redis, Entry, live, number_of, expiry_of}

pub data Error : Type 0 where
  redis_failed wait_a_minute too_many : Error

pub data Result {ℓ} (A : Type ℓ) : Type ℓ where
  ok : A → Result A
  err : Error → Result A

-- Which kinds of commands fail during a request.
pub record Failures : Type 0 where
  pub incrs : Bool
  pub expires : Bool
  pub gets : Bool
  pub sets : Bool
  pub dels : Bool

abbrev pub minute : ℕ
minute = 60

abbrev pub hour : ℕ
hour = 3600

abbrev pub login_key : Text → Text → Text
login_key ip email = lit "ratelimit:login:" ++ (ip ++ (lit ":" ++ email))

abbrev pub reset_key : Text → Text
reset_key email = lit "ratelimit:password_reset:" ++ email

abbrev pub otp_key : ℤ → Text
otp_key id = lit "ratelimit:otp:" ++ itoa id

abbrev pub api_key : ℤ → Text → Text
api_key id endpoint = lit "ratelimit:api:" ++ (itoa id ++ (lit ":" ++ endpoint))

abbrev pub account_key : ℤ → Text
account_key id = lit "account:locked:" ++ itoa id

abbrev pub short_key : Text → Text
short_key email = lit "ratelimit:email_verify_short:" ++ email

abbrev pub long_key : Text → Text
long_key email = lit "ratelimit:email_verify_long:" ++ email

abbrev pub email_key : Text → Text
email_key email = lit "email_verify:locked:" ++ email

module _ {R : Type 0} (redis : Redis R Text) (fails : Failures) (now : ℕ) where
  -- INCR, and EXPIRE on the first attempt.
  abbrev pub dated : Text → ℕ → ℕ × R → Result ℕ × R
  dated k window (n, r) =
      (ok n, if n == 1 && not fails.expires then redis.expire k (now + window) r else r)

  unfoldable pub count_attempt : Text → ℕ → R → Result ℕ × R
  count_attempt k window r =
      if fails.incrs then (err redis_failed, r) else dated k window (redis.incr k now r)

  abbrev pub within : ℕ → Result ℕ × R → Result Bool × R
  within max_ (err e, r) = (err e, r)
  within max_ (ok n, r) = (ok (leb n max_), r)

  pub check_limit : Text → ℕ → ℕ → R → Result Bool × R
  check_limit k max_ window r = within max_ (count_attempt k window r)

  -- Whether the login may go on, and how many attempts remain.
  abbrev pub login_reply : Result ℕ × R → Result (Bool × ℕ) × R
  login_reply (err e, r) = (err e, r)
  login_reply (ok n, r) = (ok (leb n 5, 5 - n), r)

  unfoldable pub check_login_attempt : Text → Text → R → Result (Bool × ℕ) × R
  check_login_attempt ip email r = login_reply (count_attempt (login_key ip email) (15 * minute) r)

  pub check_password_reset_attempt : Text → R → Result Bool × R
  check_password_reset_attempt email r = within 3 (count_attempt (reset_key email) hour r)

  pub check_otp_attempt : ℤ → R → Result Bool × R
  check_otp_attempt id r = within 5 (count_attempt (otp_key id) (10 * minute) r)

  pub check_api_rate_limit : ℤ → Text → ℕ → ℕ → R → Result Bool × R
  check_api_rate_limit id endpoint max_ window r =
      within max_ (count_attempt (api_key id endpoint) window r)

  -- GET as a number: a key without a value has all attempts left.
  abbrev pub left_of : ℕ → Text → R → Result ℕ
  left_of max_ k r =
      if fails.gets then err redis_failed else ok (max_ - number_of (live now (redis.entry k r)))

  pub get_remaining_attempts : Text → Text → R → Result ℕ
  get_remaining_attempts ip email r = left_of 5 (login_key ip email) r

  pub get_remaining_email_verification_attempts : Text → R → Result ℕ
  get_remaining_email_verification_attempts email r = left_of 4 (long_key email) r

  abbrev pub deleted : Text → R → Result (Unit {0}) × R
  deleted k r = if fails.dels then (err redis_failed, r) else (ok tt, redis.del k r)

  unfoldable pub reset_login_attempts : Text → Text → R → Result (Unit {0}) × R
  reset_login_attempts ip email r = deleted (login_key ip email) r

  pub reset_otp_attempts : ℤ → R → Result (Unit {0}) × R
  reset_otp_attempts id r = deleted (otp_key id) r

  -- TTL, negative (here `none`) without a key or without an expiry.
  abbrev pub remaining : Option ℕ → Option ℕ
  remaining none = none
  remaining (some t) = some (t - now)

  abbrev pub ttl : Text → R → Result (Option ℕ)
  ttl k r =
      if fails.gets
      then err redis_failed
      else ok (remaining (expiry_of (live now (redis.entry k r))))

  pub is_account_temporarily_locked : ℤ → R → Result (Option ℕ)
  is_account_temporarily_locked id r = ttl (account_key id) r

  pub is_email_verification_locked : Text → R → Result (Option ℕ)
  is_email_verification_locked email r = ttl (email_key email) r

  pub get_email_verification_cooldown : Text → R → Result (Option ℕ)
  get_email_verification_cooldown email r = ttl (short_key email) r

  abbrev pub locked_until : Text → ℕ → R → Result (Unit {0}) × R
  locked_until k duration r =
      if fails.sets
      then (err redis_failed, r)
      else (ok tt, redis.set k (lit "1") (now + duration) r)

  pub lock_account : ℤ → ℕ → R → Result (Unit {0}) × R
  lock_account id duration r = locked_until (account_key id) duration r

  pub unlock_account : ℤ → R → Result (Unit {0}) × R
  unlock_account id r = deleted (account_key id) r

  pub lock_email_verification : Text → ℕ → R → Result (Unit {0}) × R
  lock_email_verification email duration r = locked_until (email_key email) duration r

  -- The two counters of the requests for a code: one a minute, four in half an hour.
  abbrev pub locked_out : Result (Unit {0}) × R → Result (Unit {0}) × R
  locked_out (err e, r) = (err e, r)
  locked_out (ok u, r) = (err too_many, r)

  abbrev pub long_checked : Text → Result ℕ × R → Result (Unit {0}) × R
  long_checked email (err e, r) = (err e, r)
  long_checked email (ok n, r) =
      if ltb 4 n then locked_out (lock_email_verification email (30 * minute) r) else (ok tt, r)

  abbrev pub short_checked : Text → Result ℕ × R → Result (Unit {0}) × R
  short_checked email (err e, r) = (err e, r)
  short_checked email (ok n, r) =
      if ltb 1 n
      then (err wait_a_minute, r)
      else long_checked email (count_attempt (long_key email) (30 * minute) r)

  -- `ok` is that a code may be sent.
  pub check_email_verification_attempt : Text → R → Result (Unit {0}) × R
  check_email_verification_attempt email r =
      short_checked email (count_attempt (short_key email) minute r)
