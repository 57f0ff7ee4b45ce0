-- ===== src/Sessions/Manager/Revoked.antt =====
-- What LogoutAllSessions and ChangePassword rest on: after InvalidateAllUserSessions no session of
-- the identity is found, in Redis or in the database.
use zentora_backend.Prelude.{
  ℕ, if◌then◌else◌, ◌≤◌, ◌≡◌, refl, sym, ap, ◌∙◌, inl, inr, ◌⊎◌, Bool, true, false, ◌&&◌, Option,
  none, some, List, [], ◌∷◌, arith, Bool-cases, Option-cases, any,
}
use zentora_backend.Prelude.Int.{ℤ, ◌==ℤ◌}
use zentora_backend.Text.{Text, text_eq, text_eq_iff}
use zentora_backend.Redis.{Redis, IsRedis, Entry, live, is_present, is_expired}
use zentora_backend.Sessions.{
  Session, revoked, is_active_status, is_open, find_session_by_token, invalidate_all_rows,
}
use zentora_backend.Sessions.Manager.{
  Stored, Failures, Result, ok, err, redis_failed, database_failed, World, session_prefix,
  session_key, delete_all, session_keys, invalidate_all_user_sessions, get_session, looked_up,
  miss_or_entry,
}
use zentora_backend.Sessions.Manager.Untouched.{session_key-prefix}

abbrev pub is_err {ℓ} : {A : Type ℓ} → Result A → Bool
is_err (ok a) = false
is_err (err e) = true

-- What is not there now is not there later.
live_later :
    (now u : ℕ) (e : Option (Entry Stored))
    → now ≤ u
    → is_present (live now e) ≡ false
    → live u e ≡ none
live_later now u none h gone = refl
live_later now u (some e) h gone = elim (Bool-cases (is_expired now e.expires_at)) [
  | inl x ↦ let later = expired_later e.expires_at x in rw later refl
  | inr x ↦ let there : true ≡ false = rw x at gone in absurd cc
]
  where
    expired_later : (x : Option ℕ) → is_expired now x ≡ true → is_expired u x ≡ true
    expired_later none p = p
    expired_later (some t) p = ground (arith, h, p)

-- A row that is found after all of an identity's were revoked is not the identity's.
find-invalidate_all_rows :
    (now u : ℕ) (id : ℤ) (token : Text) (rows : List Session) (s : Session)
    → find_session_by_token u token (invalidate_all_rows now id rows) ≡ some s
    → (s.identity_id ==ℤ id) ≡ false
unfolding find_session_by_token invalidate_all_rows
find-invalidate_all_rows now u id token [] s h = absurd cc
find-invalidate_all_rows now u id token (r ∷ rows) s h =
    elim (Bool-cases (r.identity_id ==ℤ id && is_active_status r.status)) [
      | inl c ↦
          let ended : Session = record r { status = revoked; logout_at = some now } in
          let closed : is_open u token ended ≡ false = ground arith in
          let rest : find_session_by_token u token (invalidate_all_rows now id rows) ≡ some s =
            rw (c, closed) at h in
          find-invalidate_all_rows now u id token rows s rest
      | inr c ↦ elim (Bool-cases (is_open u token r)) [
        | inl o ↦
            let same : some r ≡ some s = rw (c, o) at h in
            let other : (r.identity_id ==ℤ id) ≡ false = ground (arith, c, o) in
            ap (λ x. x.identity_id ==ℤ id) (some_injective (sym same)) ∙ other
        | inr o ↦
            let rest : find_session_by_token u token (invalidate_all_rows now id rows) ≡ some s =
              rw (c, o) at h in
            find-invalidate_all_rows now u id token rows s rest
      ]
    ]
  where
    some_injective : {x y : Session} → some x ≡ some y → x ≡ y
    some_injective p = cc

module _ {R : Type 0} (redis : Redis R Stored) (laws : IsRedis redis) (fails : Failures)
    (now : ℕ) where
  del_none : (q k : Text) (r : R) → redis.entry q r ≡ none → redis.entry q (redis.del k r) ≡ none
  del_none q k r h = elim (Bool-cases (text_eq q k)) [
    | inl e ↦
        let same : q ≡ k = (text_eq_iff q k).0 e in
        ap (λ x. redis.entry x (redis.del k r)) same ∙ laws.del-entry k r
    | inr e ↦ laws.del-other k q r e ∙ h
  ]

  delete_all-none :
      (q : Text) (ks : List Text) (r : R)
      → redis.entry q r ≡ none
      → redis.entry q (delete_all redis fails now ks r) ≡ none
  delete_all-none q [] r h = h
  delete_all-none q (k ∷ ks) r h = elim (Bool-cases fails.dels) [
    | inl f ↦ rw f (delete_all-none q ks r h)
    | inr f ↦ rw f (delete_all-none q ks (redis.del k r) (del_none q k r h))
  ]

  delete_all-entry :
      (q : Text) (ks : List Text) (r : R)
      → fails.dels ≡ false
      → (redis.entry q (delete_all redis fails now ks r) ≡ none)
        ⊎ ((redis.entry q (delete_all redis fails now ks r) ≡ redis.entry q r)
            × (any (λ k. text_eq q k) ks ≡ false))
  delete_all-entry q [] r works = inr (refl, refl)
  delete_all-entry q (k ∷ ks) r works = elim (Bool-cases (text_eq q k)) [
    | inl e ↦
        let same : q ≡ k = (text_eq_iff q k).0 e in
        let gone : redis.entry q (redis.del k r) ≡ none =
          ap (λ x. redis.entry x (redis.del k r)) same ∙ laws.del-entry k r in
        rw works (inl (delete_all-none q ks (redis.del k r) gone))
    | inr e ↦ elim (delete_all-entry q ks (redis.del k r) works) [
      | inl gone ↦ rw works (inl gone)
      | inr (kept, absent) ↦ rw (works, e) (inr (kept ∙ laws.del-other k q r e, absent))
    ]
  ]

  -- The cleared world.
  invalidated :
      (id : ℤ) (w : World R)
      → fails.scans ≡ false
      → fails.updates ≡ false
      → ((invalidate_all_user_sessions redis fails now id w).1.redis
          ≡ delete_all redis fails now (redis.scan (session_prefix id) now w.redis) w.redis)
        × ((invalidate_all_user_sessions redis fails now id w).1.rows
            ≡ invalidate_all_rows now id w.rows)
  unfolding invalidate_all_user_sessions session_keys
  invalidated id w scans updates = rw (scans, updates) (refl, refl)

  invalidated-entry :
      (id : ℤ) (jti : Text) (u : ℕ) (w : World R)
      → fails.dels ≡ false
      → now ≤ u
      → live u (
          redis.entry
            (session_key id jti)
            (delete_all redis fails now (redis.scan (session_prefix id) now w.redis) w.redis))
        ≡ none
  invalidated-entry id jti u w dels later =
      let q = session_key id jti in
      let ks = redis.scan (session_prefix id) now w.redis in
      elim (delete_all-entry q ks w.redis dels) [
        | inl gone ↦ ap (live u) gone
        | inr (kept, absent) ↦
            ap (live u) kept ∙ elim (Bool-cases (is_present (live now (redis.entry q w.redis)))) [
              | inl there ↦
                  let found =
                    laws.scan-finds (session_prefix id) q now w.redis (session_key-prefix id jti)
                      there in
                  absurd cc
              | inr gone ↦ live_later now u (redis.entry q w.redis) later gone
            ]
      ]

  -- After InvalidateAllUserSessions without a failing command, no session of the identity is found
  -- at that time or later, whichever commands of the search fail.
  pub get_session-invalidate_all :
      (find_email : ℤ → Option Text) (id : ℤ) (jti : Text) (reads : Failures) (u : ℕ) (w : World R)
      → fails.dels ≡ false
      → fails.scans ≡ false
      → fails.updates ≡ false
      → now ≤ u
      → is_err
          (get_session redis reads u find_email id jti
            (invalidate_all_user_sessions redis fails now id w).1).0
        ≡ true
  unfolding get_session
  get_session-invalidate_all find_email id jti reads u w dels scans updates later =
      let v = (invalidate_all_user_sessions redis fails now id w).1 in
      let i = invalidated id w scans updates in
      let gone : live u (redis.entry (session_key id jti) v.redis) ≡ none =
        ap (λ r. live u (redis.entry (session_key id jti) r)) i.0
        ∙ invalidated-entry id jti u w dels later in
      let missed : miss_or_entry redis reads u id jti v ≡ ok none = elim (Bool-cases reads.gets) [
        | inl f ↦ rw f refl
        | inr f ↦ rw (f, gone) refl
      ] in
      ap (λ x. is_err (looked_up redis reads u find_email id jti v x).0) missed
      ∙ elim (Bool-cases reads.finds) [
        | inl f ↦ rw f refl
        | inr f ↦ rw f (elim (Option-cases (find_session_by_token u jti v.rows)) [
          | inl e ↦ rw e refl
          | inr (s, e) ↦
              let mapped : find_session_by_token u jti (invalidate_all_rows now id w.rows)
                  ≡ some s =
                ap (find_session_by_token u jti) (sym i.1) ∙ e in
              let other = find-invalidate_all_rows now u id jti w.rows s mapped in
              rw (e, other) refl
        ])
      ]

  -- Where it reports no error, SCAN and the update of the rows have not failed.
  pub invalidate_all_ok :
      (id : ℤ) (w w' : World R)
      → invalidate_all_user_sessions redis fails now id w ≡ (ok tt, w')
      → (fails.scans ≡ false) × (fails.updates ≡ false)
  unfolding invalidate_all_user_sessions
  invalidate_all_ok id w w' h = reply fails.updates fails.scans _ _ (ap (λ x. x.0) h)
    where
      reply :
          (b s : Bool) (x y : World R)
          → ◌≡◌ {A = Result (Unit {0})}
              (if◌then◌else◌ {A = Result (Unit {0}) × World R} b
                (err database_failed, x)
                (if s then err redis_failed else ok tt, y)).0
              (ok tt)
          → (s ≡ false) × (b ≡ false)
      reply true s x y p = absurd cc
      reply false true x y p = absurd cc
      reply false false x y p = (refl, refl)
