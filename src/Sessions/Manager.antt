-- ===== src/Sessions/Manager.antt =====
-- The session manager (internal/pkg/session/manager.go): sessions in Redis with the database behind
-- them, and the blacklist of tokens. What a call starts in a goroutine it returns as a task, which
-- runs at a time of its own.
pub mod Untouched
pub mod Steps
pub mod Revoked
pub mod Revived
mod Tests
use zentora_backend.Prelude.{
  ℕ, ◌+◌, ◌≡◌, Bool, true, false, ◌&&◌, not, Option, none, some, List, [], ◌∷◌, ◌++◌, if◌then◌else◌,
  leb, ltb,
}
use zentora_backend.Prelude.Int.{ℤ, pos, ◌==ℤ◌, ltb_ℤ}
use zentora_backend.Text.{Text, lit}
use zentora_backend.Text.Decimal.{itoa}
use zentora_backend.Redis.{Redis, Entry, Value, number, payload, live, is_present}
use zentora_backend.Sessions.{
  SessionData, Session, is_active_status, find_session_by_token, update_session_row_activity,
  invalidate_session_row, invalidate_all_rows,
}

-- What is stored under the manager's keys: a session as JSON, or "1".
pub data Stored : Type 0 where
  session : SessionData → Stored
  one : Stored

pub data Error : Type 0 where
  already_expired redis_failed database_failed corrupt not_found mismatch : Error

pub data Result {ℓ} (A : Type ℓ) : Type ℓ where
  ok : A → Result A
  err : Error → Result A

-- Which kinds of commands fail during a call. A SCAN that fails yields no key.
pub record Failures : Type 0 where
  pub gets : Bool
  pub sets : Bool
  pub dels : Bool
  pub scans : Bool
  pub finds : Bool
  pub updates : Bool

-- What a call leaves to a goroutine.
pub data Task : Type 0 where
  touch : ℤ → Text → Task
  restore : SessionData → Task

pub record World (R : Type 0) : Type 0 where
  pub redis : R
  pub rows : List Session

unfoldable pub session_prefix : ℤ → Text
session_prefix identity_id = lit "session:" ++ (itoa identity_id ++ lit ":")

unfoldable pub session_key : ℤ → Text → Text
unfolding session_prefix
session_key identity_id jti = session_prefix identity_id ++ jti

unfoldable pub blacklist_key : Text → Text
blacklist_key jti = lit "blacklist:" ++ jti

abbrev pub string_from_null : Option Text → Text
string_from_null none = []
string_from_null (some t) = t

-- A row as session data, with the email of its identity.
abbrev pub data_of : Text → Option Text → Session → SessionData
data_of jti email s = record {
  jti = jti;
  identity_id = s.identity_id;
  session_id = s.id;
  email = string_from_null email;
  roles = [];
  permissions = [];
  device = string_from_null s.device_id;
  device_id = string_from_null s.device_id;
  device_name = string_from_null s.device_name;
  ip_address = string_from_null s.ip_address;
  user_agent = string_from_null s.user_agent;
  provider = s.provider;
  login_at = s.login_at;
  last_activity_at = s.last_activity_at;
  expires_at = s.expires_at;
  is_active = is_active_status s.status;
  metadata = s.metadata;
}

-- GET and json.Unmarshal.
abbrev pub decoded : Stored → Result (Option SessionData)
decoded (session d) = ok (some d)
decoded one = err corrupt

abbrev pub read_value : Value Stored → Result (Option SessionData)
read_value (number n) = err corrupt
read_value (payload p) = decoded p

abbrev pub read_entry : Option (Entry Stored) → Result (Option SessionData)
read_entry none = ok none
read_entry (some e) = read_value e.value

module _ {R : Type 0} (redis : Redis R Stored) (fails : Failures) (now : ℕ) where
  abbrev pub row_touched : SessionData → World R → World R
  row_touched d w =
      if ltb_ℤ (pos 0) d.session_id && not fails.updates
      then record w { rows = update_session_row_activity now d.session_id w.rows }
      else w

  abbrev pub stored_in : ℤ → Text → SessionData → World R → World R
  stored_in identity_id jti d w = record w {
    redis = redis.set (session_key identity_id jti) (session d) d.expires_at w.redis;
  }

  unfoldable pub create_session : SessionData → World R → Result (Unit {0}) × World R
  create_session d w =
      if leb d.expires_at now
      then (err already_expired, w)
      else if fails.sets
      then (err redis_failed, w)
      else (ok tt, row_touched d (stored_in d.identity_id d.jti d w))

  abbrev pub miss_or_entry : ℤ → Text → World R → Result (Option SessionData)
  miss_or_entry identity_id jti w =
      if fails.gets
      then ok none
      else read_entry (live now (redis.entry (session_key identity_id jti) w.redis))

  abbrev pub from_row :
      (ℤ → Option Text) → ℤ → Text → Option Session → Result SessionData × Option Task
  from_row find_email identity_id jti none = (err not_found, none)
  from_row find_email identity_id jti (some s) =
      let d = data_of jti (find_email identity_id) s in
      if s.identity_id ==ℤ identity_id then (ok d, some (restore d)) else (err mismatch, none)

  abbrev pub from_database :
      (ℤ → Option Text) → ℤ → Text → World R → Result SessionData × Option Task
  from_database find_email identity_id jti w =
      if fails.finds
      then (err not_found, none)
      else from_row find_email identity_id jti (find_session_by_token now jti w.rows)

  abbrev pub looked_up :
      (ℤ → Option Text)
      → ℤ
      → Text
      → World R
      → Result (Option SessionData)
      → Result SessionData × Option Task
  looked_up find_email identity_id jti w (err e) = (err e, none)
  looked_up find_email identity_id jti w (ok (some d)) =
      (ok (record d { last_activity_at = now }), some (touch identity_id jti))
  looked_up find_email identity_id jti w (ok none) = from_database find_email identity_id jti w

  -- `find_email` is the email of FindIdentityByID.
  unfoldable pub get_session :
      (ℤ → Option Text) → ℤ → Text → World R → Result SessionData × Option Task
  get_session find_email identity_id jti w =
      looked_up find_email identity_id jti w (miss_or_entry identity_id jti w)

  -- The two commands of UpdateSessionActivity: what it reads, and what it then writes.
  pub read_activity : ℤ → Text → World R → Result (Option SessionData)
  read_activity identity_id jti w = miss_or_entry identity_id jti w

  pub write_activity : ℤ → Text → SessionData → World R → Result (Unit {0}) × World R
  write_activity identity_id jti d w =
      if ltb now d.expires_at
      then (if fails.sets
          then (err redis_failed, w)
          else (ok tt, stored_in identity_id jti (record d { last_activity_at = now }) w))
      else (ok tt, w)

  abbrev pub activity_read :
      ℤ → Text → World R → Result (Option SessionData) → Result (Unit {0}) × World R
  activity_read identity_id jti w (err e) = (err e, w)
  activity_read identity_id jti w (ok none) = (ok tt, w)
  activity_read identity_id jti w (ok (some d)) = write_activity identity_id jti d w

  pub update_session_activity : ℤ → Text → World R → Result (Unit {0}) × World R
  update_session_activity identity_id jti w =
      activity_read identity_id jti w (read_activity identity_id jti w)

  pub run_task : Task → World R → World R
  run_task (touch identity_id jti) w = (update_session_activity identity_id jti w).1
  run_task (restore d) w = (create_session d w).1

  abbrev pub deleted : Text → World R → World R
  deleted k w = if fails.dels then w else record w { redis = redis.del k w.redis }

  abbrev pub row_invalidated : Option Session → World R → Result (Unit {0}) × World R
  row_invalidated none w = (ok tt, w)
  row_invalidated (some s) w =
      if fails.updates
      then (err database_failed, w)
      else (ok tt, record w { rows = invalidate_session_row now s.id w.rows })

  unfoldable pub invalidate_session : ℤ → Text → World R → Result (Unit {0}) × World R
  invalidate_session identity_id jti w =
      let found = if fails.finds then none else find_session_by_token now jti w.rows in
      row_invalidated found (deleted (session_key identity_id jti) w)

  abbrev pub delete_all : List Text → R → R
  delete_all [] r = r
  delete_all (k ∷ ks) r = delete_all ks (if fails.dels then r else redis.del k r)

  unfoldable pub session_keys : ℤ → World R → List Text
  session_keys identity_id w =
      if fails.scans then [] else redis.scan (session_prefix identity_id) now w.redis

  unfoldable pub invalidate_all_user_sessions : ℤ → World R → Result (Unit {0}) × World R
  invalidate_all_user_sessions identity_id w =
      let cleared = record w { redis = delete_all (session_keys identity_id w) w.redis } in
      if fails.updates then (err database_failed, cleared) else (
        if fails.scans then err redis_failed else ok tt,
        record cleared { rows = invalidate_all_rows now identity_id cleared.rows },
      )

  abbrev pub refreshed :
      ℕ → World R → Result SessionData × Option Task → (Result (Unit {0}) × World R) × Option Task
  refreshed expiry w (err e, task) = ((err e, w), task)
  refreshed expiry w (ok d, task) =
      (create_session (record d { expires_at = expiry; last_activity_at = now }) w, task)

  pub refresh_session :
      (ℤ → Option Text) → ℤ → Text → ℕ → World R → (Result (Unit {0}) × World R) × Option Task
  refresh_session find_email identity_id jti expiry w =
      refreshed expiry w (get_session find_email identity_id jti w)

  unfoldable pub is_token_blacklisted : Text → World R → Result Bool
  is_token_blacklisted jti w =
      if fails.gets
      then err redis_failed
      else ok (is_present (live now (redis.entry (blacklist_key jti) w.redis)))

  unfoldable pub blacklist_token : Text → ℕ → World R → Result (Unit {0}) × World R
  blacklist_token jti ttl w =
      if fails.sets
      then (err redis_failed, w)
      else (ok tt, record w { redis = redis.set (blacklist_key jti) one (now + ttl) w.redis })

  abbrev pub keep_session : Result (Option SessionData) → List SessionData → List SessionData
  keep_session (ok (some d)) ds = d ∷ ds
  keep_session (ok none) ds = ds
  keep_session (err e) ds = ds

  abbrev pub sessions_at : List Text → R → List SessionData
  sessions_at [] r = []
  sessions_at (k ∷ ks) r =
      keep_session (if fails.gets then ok none else read_entry (live now (redis.entry k r)))
        (sessions_at ks r)

  pub get_user_active_sessions : ℤ → World R → List SessionData × Bool
  get_user_active_sessions identity_id w =
      (sessions_at (session_keys identity_id w) w.redis, fails.scans)
