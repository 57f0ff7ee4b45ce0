-- ===== src/Sessions/Manager/Revived.antt =====
-- What CreateSession stores in Redis and GetSession finds there; and the race of
-- UpdateSessionActivity, whose GET and SET are two commands, with a revocation between them.
use zentora_backend.Prelude.{
  ℕ, ◌≤◌, ◌<◌, ◌≡◌, refl, ap, sym, ◌∙◌, inl, inr, true, false, Option, some, leb, ltb, arith,
  Bool-cases,
}
use zentora_backend.Prelude.Int.{ℤ}
use zentora_backend.Text.{Text}
use zentora_backend.Redis.{Redis, IsRedis, payload}
use zentora_backend.Sessions.{SessionData}
use zentora_backend.Sessions.Manager.{
  Stored, session, Failures, Result, ok, err, Error, already_expired, redis_failed, row_touched,
  World, session_key, stored_in, create_session, write_activity, read_activity, activity_read,
  invalidate_all_user_sessions, get_session, looked_up, miss_or_entry,
}
use zentora_backend.Sessions.Manager.Untouched.{row_touched-redis}
use zentora_backend.Sessions.Manager.Revoked.{is_err, get_session-invalidate_all}

module _ {R : Type 0} (redis : Redis R Stored) (laws : IsRedis redis)
    (find_email : ℤ → Option Text) where
  -- A session whose entry is known is found, with the time of the search as its last activity.
  pub get_session-stored :
      (reads : Failures) (u : ℕ) (id : ℤ) (jti : Text) (d : SessionData) (w : World R)
      → reads.gets ≡ false
      → u < d.expires_at
      → redis.entry (session_key id jti) w.redis
        ≡ some (record { value = payload (session d); expires_at = some d.expires_at })
      → (get_session redis reads u find_email id jti w).0 ≡ ok (record d { last_activity_at = u })
  unfolding get_session
  get_session-stored reads u id jti d w works alive held =
      let running : leb d.expires_at u ≡ false = ground (arith, alive) in
      let read : miss_or_entry redis reads u id jti w ≡ ok (some d) =
        rw (works, held, running) refl in
      ap (λ x. (looked_up redis reads u find_email id jti w x).0) read

  -- What CreateSession leaves in Redis.
  pub create_session_stored :
      (writes : Failures) (now : ℕ) (d : SessionData) (w v : World R)
      → create_session redis writes now d w ≡ (ok tt, v)
      → redis.entry (session_key d.identity_id d.jti) v.redis
        ≡ some (record { value = payload (session d); expires_at = some d.expires_at })
  unfolding create_session
  create_session_stored writes now d w v made = elim (Bool-cases (leb d.expires_at now)) [
    | inl e ↦
        let late : (err already_expired, w) ≡ (ok tt, v) = rw e at made in
        absurd (clash (ap (λ x. x.0) late))
    | inr e ↦ elim (Bool-cases writes.sets) [
      | inl f ↦
          let failed : (err redis_failed, w) ≡ (ok tt, v) = rw (e, f) at made in
          absurd (clash (ap (λ x. x.0) failed))
      | inr f ↦
          let stored = stored_in redis writes now d.identity_id d.jti d w in
          let same : (ok tt, row_touched redis writes now d stored) ≡ (ok tt, v) =
            rw (e, f) at made in
          ap (λ x. redis.entry (session_key d.identity_id d.jti) x.1.redis) (sym same)
          ∙ ap (redis.entry (session_key d.identity_id d.jti))
              (row_touched-redis redis writes now d stored)
          ∙ laws.set-entry (session_key d.identity_id d.jti) (session d) d.expires_at w.redis
    ]
  ]
    where
      clash : {x : Error} → ◌≡◌ {A = Result (Unit {0})} (err x) (ok tt) → ⊥
      clash p = cc

  -- A session that UpdateSessionActivity has read, and that InvalidateAllUserSessions revokes before
  -- the write: it is not found, at that time or later, but once the write has run it is found again,
  -- up to the expiry that was read. It holds when the revocation's commands, the SET and the GET of
  -- the search do not fail, and the SET comes before the session's expiry.
  pub write_activity_revives :
      (reads revokes writes finds : Failures) (t now u v : ℕ) (id : ℤ) (jti : Text)
      (d : SessionData) (w : World R)
      → read_activity redis reads t id jti w ≡ ok (some d)
      → (revokes.dels ≡ false) × (revokes.scans ≡ false) × (revokes.updates ≡ false)
      → now ≤ v
      → writes.sets ≡ false
      → u < d.expires_at
      → finds.gets ≡ false
      → v < d.expires_at
      → (is_err
            (get_session redis finds v find_email id jti
              (invalidate_all_user_sessions redis revokes now id w).1).0
          ≡ true)
        × ((get_session redis finds v find_email id jti
              (activity_read redis writes u id jti
                (invalidate_all_user_sessions redis revokes now id w).1
                (read_activity redis reads t id jti w)).1).0
            ≡ ok (record d { last_activity_at = v }))
  unfolding write_activity
  write_activity_revives reads revokes writes finds t now u v id jti d w read revoked order sets
        early gets alive =
      let running : ltb u d.expires_at ≡ true = ground (arith, early) in
      let e : SessionData = record d { last_activity_at = u } in
      let cleared = (invalidate_all_user_sessions redis revokes now id w).1 in
      let held = laws.set-entry (session_key id jti) (session e) d.expires_at cleared.redis in
      (
        get_session-invalidate_all redis laws revokes now find_email id jti finds v w revoked.0
            revoked.1 revoked.2 order,
        rw (read, running, sets)
            (get_session-stored finds v id jti e (stored_in redis writes u id jti e cleared) gets
              alive held),
      )
