-- ===== src/Sessions/Manager/Untouched.antt =====
-- The keys of the manager, and what its calls leave as it was: every key that is no session's.
use zentora_backend.Prelude.{
  ℕ, ◌≡◌, refl, ap, ◌∙◌, inl, inr, Bool, true, false, ◌&&◌, not, Option, none, some, List, [], ◌∷◌,
  ◌++◌, if◌then◌else◌, leb, ltb, arith, Bool-cases, All,
}
use zentora_backend.Prelude.Int.{ℤ, pos, ltb_ℤ}
use zentora_backend.Text.{Text, text_eq, text_eq_iff, has_prefix}
use zentora_backend.Redis.{Redis, IsRedis}
use zentora_backend.Sessions.{SessionData, find_session_by_token}
use zentora_backend.Sessions.Manager.{
  Stored, session, Failures, Result, ok, err, World, Task, session_prefix, session_key,
  blacklist_key, row_touched, row_invalidated, deleted, delete_all, stored_in, create_session,
  write_activity, invalidate_session, session_keys, invalidate_all_user_sessions, refresh_session,
  refreshed, get_session,
}

-- A key that is no session's.
abbrev pub IsOther : Text → Type 0
IsOther q = (id : ℤ) → has_prefix q (session_prefix id) ≡ false

prefix-append : (p s : Text) → has_prefix (p ++ s) p ≡ true
prefix-append [] s = refl
prefix-append (c ∷ p) s = ground (arith, prefix-append p s)

other_key :
    (q k : Text) (id : ℤ)
    → IsOther q
    → has_prefix k (session_prefix id) ≡ true
    → text_eq q k ≡ false
other_key q k id other h = elim (Bool-cases (text_eq q k)) [
  | inl e ↦
      let same : q ≡ k = (text_eq_iff q k).0 e in
      let prefixed : has_prefix q (session_prefix id) ≡ true =
        ap (λ x. has_prefix x (session_prefix id)) same ∙ h in
      let apart = other id in absurd cc
  | inr e ↦ e
]

pub session_key-prefix :
    (id : ℤ) (jti : Text) → has_prefix (session_key id jti) (session_prefix id) ≡ true
unfolding session_key
session_key-prefix id jti = prefix-append (session_prefix id) jti

pub blacklist_key-IsOther : (jti : Text) → IsOther (blacklist_key jti)
unfolding blacklist_key session_prefix
blacklist_key-IsOther jti id = refl

pub blacklist_key_eq : (a b : Text) → text_eq (blacklist_key a) (blacklist_key b) ≡ text_eq a b
unfolding blacklist_key
blacklist_key_eq a b = refl

module _ {R : Type 0} (redis : Redis R Stored) where
  pub row_touched-redis :
      (fails : Failures) (now : ℕ) (d : SessionData) (w : World R)
      → (row_touched redis fails now d w).redis ≡ w.redis
  row_touched-redis fails now d w =
      elim (Bool-cases (ltb_ℤ (pos 0) d.session_id && not fails.updates)) [
        | inl e ↦ rw e refl
        | inr e ↦ rw e refl
      ]

  module _ (laws : IsRedis redis) (q : Text) (other : IsOther q) (fails : Failures) (now : ℕ) where
    stored_in-other :
        (id : ℤ) (jti : Text) (d : SessionData) (w : World R)
        → redis.entry q (stored_in redis fails now id jti d w).redis ≡ redis.entry q w.redis
    stored_in-other id jti d w =
        laws.set-other (session_key id jti) q (session d) d.expires_at w.redis
          (other_key q (session_key id jti) id other (session_key-prefix id jti))

    pub create_session-other :
        (d : SessionData) (w : World R)
        → redis.entry q (create_session redis fails now d w).1.redis ≡ redis.entry q w.redis
    unfolding create_session
    create_session-other d w = elim (Bool-cases (leb d.expires_at now)) [
      | inl e ↦ rw e refl
      | inr e ↦ elim (Bool-cases fails.sets) [
        | inl f ↦ rw (e, f) refl
        | inr f ↦
            rw (e, f)
              (ap (redis.entry q) (
                  row_touched-redis fails now d (stored_in redis fails now d.identity_id d.jti d w))
                ∙ stored_in-other d.identity_id d.jti d w)
      ]
    ]

    pub write_activity-other :
        (id : ℤ) (jti : Text) (d : SessionData) (w : World R)
        → redis.entry q (write_activity redis fails now id jti d w).1.redis ≡ redis.entry q w.redis
    unfolding write_activity
    write_activity-other id jti d w = elim (Bool-cases (ltb now d.expires_at)) [
      | inl e ↦ elim (Bool-cases fails.sets) [
        | inl f ↦ rw (e, f) refl
        | inr f ↦ rw (e, f) (stored_in-other id jti (record d { last_activity_at = now }) w)
      ]
      | inr e ↦ rw e refl
    ]

    delete_all-other :
        (id : ℤ) (ks : List Text) (r : R)
        → All (λ k. has_prefix k (session_prefix id) ≡ true) ks
        → redis.entry q (delete_all redis fails now ks r) ≡ redis.entry q r
    delete_all-other id [] r h = refl
    delete_all-other id (k ∷ ks) r h = elim (Bool-cases fails.dels) [
      | inl e ↦ rw e (delete_all-other id ks r h.1)
      | inr e ↦ rw e (
          delete_all-other id ks (redis.del k r) h.1
          ∙ laws.del-other k q r (other_key q k id other h.0))
    ]

    pub invalidate_session-other :
        (id : ℤ) (jti : Text) (w : World R)
        → redis.entry q (invalidate_session redis fails now id jti w).1.redis
          ≡ redis.entry q w.redis
    unfolding invalidate_session
    invalidate_session-other id jti w =
        ap (redis.entry q) (
          rows_only (if fails.finds then none else find_session_by_token now jti w.rows)
            (deleted redis fails now (session_key id jti) w))
        ∙ elim (Bool-cases fails.dels) [
          | inl e ↦ rw e refl
          | inr e ↦ rw e (
              laws.del-other (session_key id jti) q w.redis
                (other_key q (session_key id jti) id other (session_key-prefix id jti)))
        ]
      where
        rows_only :
            (s : Option _) (v : World R) → (row_invalidated redis fails now s v).1.redis ≡ v.redis
        rows_only none v = refl
        rows_only (some s) v = elim (Bool-cases fails.updates) [
          | inl e ↦ rw e refl
          | inr e ↦ rw e refl
        ]

    session_keys-prefix :
        (id : ℤ) (w : World R)
        → All (λ k. has_prefix k (session_prefix id) ≡ true) (session_keys redis fails now id w)
    unfolding session_keys
    session_keys-prefix id w = elim (Bool-cases fails.scans) [
      | inl e ↦ rw e tt
      | inr e ↦ rw e (laws.scan-prefix (session_prefix id) now w.redis)
    ]

    pub invalidate_all-other :
        (id : ℤ) (w : World R)
        → redis.entry q (invalidate_all_user_sessions redis fails now id w).1.redis
          ≡ redis.entry q w.redis
    unfolding invalidate_all_user_sessions
    invalidate_all-other id w =
        let kept =
          delete_all-other id (session_keys redis fails now id w) w.redis
            (session_keys-prefix id w) in
        either fails.updates _ _ kept kept
      where
        either :
            (b : Bool) (x y : Result (Unit {0}) × World R)
            → redis.entry q x.1.redis ≡ redis.entry q w.redis
            → redis.entry q y.1.redis ≡ redis.entry q w.redis
            → redis.entry q (if b then x else y).1.redis ≡ redis.entry q w.redis
        either true x y hx hy = hx
        either false x y hx hy = hy

    pub refresh_session-other :
        (find_email : ℤ → Option Text) (id : ℤ) (jti : Text) (expiry : ℕ) (w : World R)
        → redis.entry q (refresh_session redis fails now find_email id jti expiry w).0.1.redis
          ≡ redis.entry q w.redis
    unfolding refresh_session
    refresh_session-other find_email id jti expiry w =
        again (get_session redis fails now find_email id jti w)
      where
        again :
            (g : Result SessionData × Option Task)
            → redis.entry q (refreshed redis fails now expiry w g).0.1.redis ≡ redis.entry q w.redis
        again (err e, t) = refl
        again (ok d, t) =
            create_session-other (record d { expires_at = expiry; last_activity_at = now }) w
