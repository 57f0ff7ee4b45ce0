-- ===== src/Sessions/Manager/Steps.antt =====
-- What the session manager may do after a token was put on the blacklist, in any order and with any
-- failures, the writes of late goroutines included; the token stays on the list.
use zentora_backend.Prelude.{
  ℕ, none, refl, ◌+◌, ◌≤◌, ◌<◌, ◌≢◌, Bool, true, false, leb, sym, ◌≡◌, ap, ◌∙◌, inl, inr, Option,
  some, List, [], ◌∷◌, arith, Bool-cases, All,
}
use zentora_backend.Prelude.Int.{ℤ}
use zentora_backend.Text.{Text, text_eq, text_eq_iff}
use zentora_backend.Redis.{Redis, IsRedis, payload}
use zentora_backend.Sessions.{SessionData}
use zentora_backend.Sessions.Manager.{
  Result, ok, err, redis_failed, is_token_blacklisted, Stored, one, Failures, World, blacklist_key,
  create_session, write_activity, invalidate_session, invalidate_all_user_sessions, refresh_session,
  blacklist_token,
}
use zentora_backend.Sessions.Manager.Untouched.{
  blacklist_key-IsOther, blacklist_key_eq, create_session-other, write_activity-other,
  invalidate_session-other, invalidate_all-other, refresh_session-other,
}

-- A call on the manager, or the write of a goroutine whose read came before.
pub data Action : Type 0 where
  create : SessionData → Action
  write : ℤ → Text → SessionData → Action
  invalidate : ℤ → Text → Action
  invalidate_all : ℤ → Action
  refresh : ℤ → Text → ℕ → Action
  blacklist : Text → Action

module _ {R : Type 0} (redis : Redis R Stored) where
  pub perform : (ℤ → Option Text) → ℕ → ℕ → Failures → Action → World R → World R
  perform find_email ttl now fails (create d) w = (create_session redis fails now d w).1
  perform find_email ttl now fails (write id jti d) w =
      (write_activity redis fails now id jti d w).1
  perform find_email ttl now fails (invalidate id jti) w =
      (invalidate_session redis fails now id jti w).1
  perform find_email ttl now fails (invalidate_all id) w =
      (invalidate_all_user_sessions redis fails now id w).1
  perform find_email ttl now fails (refresh id jti expiry) w =
      (refresh_session redis fails now find_email id jti expiry w).0.1
  perform find_email ttl now fails (blacklist jti) w = (blacklist_token redis fails now jti ttl w).1

  -- Actions with their times and failures.
  abbrev pub Schedule : Type 0
  Schedule = List (ℕ × Failures × Action)

  pub perform_all : (ℤ → Option Text) → ℕ → Schedule → World R → World R
  perform_all find_email ttl [] w = w
  perform_all find_email ttl (a ∷ as_) w =
      perform_all find_email ttl as_ (perform find_email ttl a.0 a.1 a.2 w)

  abbrev pub IsFrom : ℕ → Schedule → Type 0
  IsFrom now as_ = All (λ a. now ≤ a.0) as_

  -- Without an entry a token is not on the list.
  pub is_token_blacklisted_absent :
      (fails : Failures) (u : ℕ) (jti : Text) (w : World R)
      → fails.gets ≡ false
      → redis.entry (blacklist_key jti) w.redis ≡ none
      → is_token_blacklisted redis fails u jti w ≡ ok false
  unfolding is_token_blacklisted
  is_token_blacklisted_absent fails u jti w works absent = rw (works, absent) refl

  -- The token is on the list up to a time at least.
  abbrev pub IsRevoked : ℕ → Text → World R → Type 0
  IsRevoked until jti w =
      (e : ℕ) × (redis.entry (blacklist_key jti) w.redis
        ≡ some (record { value = payload one; expires_at = some e }))
      × (until ≤ e)

  module _ (laws : IsRedis redis) (find_email : ℤ → Option Text) (ttl : ℕ) where
    blacklist_token-IsRevoked :
        (jti : Text) (now until : ℕ) (fails : Failures) (j : Text) (w : World R)
        → until ≤ now + ttl
        → IsRevoked until jti w
        → IsRevoked until jti (blacklist_token redis fails now j ttl w).1
    unfolding blacklist_token
    blacklist_token-IsRevoked jti now until fails j w h (e, held, long) =
        elim (Bool-cases fails.sets) [
          | inl f ↦ rw f (e, held, long)
          | inr f ↦ elim (Bool-cases (text_eq jti j)) [
            | inl same ↦
                let again : jti ≡ j = (text_eq_iff jti j).0 same in
                rw f (
                  now + ttl,
                  ap
                        (λ x.
                          redis.entry (blacklist_key x)
                            (redis.set (blacklist_key j) one (now + ttl) w.redis))
                        again
                      ∙ laws.set-entry (blacklist_key j) one (now + ttl) w.redis,
                  h,
                )
            | inr apart ↦ rw f (
              e,
              laws.set-other (blacklist_key j) (blacklist_key jti) one (now + ttl) w.redis
                    (blacklist_key_eq jti j ∙ apart)
                  ∙ held,
              long,
            )
          ]
        ]

    perform-IsRevoked :
        (jti : Text) (now until : ℕ) (fails : Failures) (a : Action) (w : World R)
        → until ≤ now + ttl
        → IsRevoked until jti w
        → IsRevoked until jti (perform find_email ttl now fails a w)
    unfolding perform
    perform-IsRevoked jti now until fails (create d) w h (e, held, long) = (
      e,
      create_session-other redis laws (blacklist_key jti) (blacklist_key-IsOther jti) fails now d w
          ∙ held,
      long,
    )
    perform-IsRevoked jti now until fails (write id j d) w h (e, held, long) = (
      e,
      write_activity-other redis laws (blacklist_key jti) (blacklist_key-IsOther jti) fails now id j
            d w
          ∙ held,
      long,
    )
    perform-IsRevoked jti now until fails (invalidate id j) w h (e, held, long) = (
      e,
      invalidate_session-other redis laws (blacklist_key jti) (blacklist_key-IsOther jti) fails now
            id j w
          ∙ held,
      long,
    )
    perform-IsRevoked jti now until fails (invalidate_all id) w h (e, held, long) = (
      e,
      invalidate_all-other redis laws (blacklist_key jti) (blacklist_key-IsOther jti) fails now id w
          ∙ held,
      long,
    )
    perform-IsRevoked jti now until fails (refresh id j expiry) w h (e, held, long) = (
      e,
      refresh_session-other redis laws (blacklist_key jti) (blacklist_key-IsOther jti) fails now
            find_email id j expiry w
          ∙ held,
      long,
    )
    perform-IsRevoked jti now until fails (blacklist j) w h r =
        blacklist_token-IsRevoked jti now until fails j w h r

    pub perform_all-IsRevoked :
        (jti : Text) (now until : ℕ) (as_ : Schedule) (w : World R)
        → until ≤ now + ttl
        → IsFrom now as_
        → IsRevoked until jti w
        → IsRevoked until jti (perform_all find_email ttl as_ w)
    unfolding perform_all
    perform_all-IsRevoked jti now until [] w h from r = r
    perform_all-IsRevoked jti now until (a ∷ as_) w h from r =
        perform_all-IsRevoked jti now until as_ (perform find_email ttl a.0 a.1 a.2 w) h from.1
          (perform-IsRevoked jti a.0 until a.1 a.2 w (omega (arith, h, from.0)) r)

    -- A token that was just put on the list.
    pub blacklist_token_ok :
        (now : ℕ) (fails : Failures) (jti : Text) (w w' : World R)
        → blacklist_token redis fails now jti ttl w ≡ (ok tt, w')
        → IsRevoked (now + ttl) jti w'
    unfolding blacklist_token
    blacklist_token_ok now fails jti w w' h = elim (Bool-cases fails.sets) [
      | inl f ↦
          let failed : ◌≡◌ {A = Result (Unit {0}) × World R} (err redis_failed, w) (ok tt, w') =
            rw f at h in
          absurd cc
      | inr f ↦ (
        now + ttl,
        let put = record w { redis = redis.set (blacklist_key jti) one (now + ttl) w.redis } in
            let done : ◌≡◌ {A = Result (Unit {0}) × World R} (ok tt, put) (ok tt, w') = rw f at h in
            ap (λ x. redis.entry (blacklist_key jti) x.1.redis) (sym done)
            ∙ laws.set-entry (blacklist_key jti) one (now + ttl) w.redis,
        omega arith,
      )
    ]

    -- Up to its time a token on the list is never found to be off it.
    pub is_token_blacklisted-IsRevoked :
        (u until : ℕ) (fails : Failures) (jti : Text) (w : World R)
        → IsRevoked until jti w
        → u < until
        → is_token_blacklisted redis fails u jti w ≢ ok false
    unfolding is_token_blacklisted
    is_token_blacklisted-IsRevoked u until fails jti w (e, held, long) early h =
        elim (Bool-cases fails.gets) [
          | inl f ↦
              let failed : ◌≡◌ {A = Result Bool} (err redis_failed) (ok false) = rw f at h in
              absurd cc
          | inr f ↦
              let running : leb e u ≡ false = ground (arith, long, early) in
              let there : ◌≡◌ {A = Result Bool} (ok true) (ok false) = rw (f, held, running) at h in
              absurd cc
        ]
