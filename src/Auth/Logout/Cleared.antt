-- ===== src/Auth/Logout/Cleared.antt =====
-- What clears the sessions of an identity, ChangePassword and DeactivateUser, leaves no valid token of
-- it.
use zentora_backend.Prelude.{
  ℕ, ◌≤◌, ◌≡◌, ◌≢◌, refl, sym, ap, ◌∙◌, subst, Bool, true, false, Option, none, some, [],
}
use zentora_backend.Prelude.Int.{ℤ}
use zentora_backend.Text.{Text, lit}
use zentora_backend.Access.{Claims}
use zentora_backend.Redis.{Redis, IsRedis}
use zentora_backend.Tokens.{Signer, Generator, Verifier, verify_access_token}
use zentora_backend.Sessions.{SessionData}
use zentora_backend.Accounts.{
  update_provider_password, update_identity_status, Provider, find_provider_by_identity_and_type,
}
use zentora_backend.Sessions.Manager.{
  string_from_null, Stored, one, World, Task, blacklist_key, blacklist_token, is_token_blacklisted,
  invalidate_session, invalidate_all_user_sessions, get_session,
}
use zentora_backend.Sessions.Manager.Revoked.{is_err, invalidate_all_ok, get_session-invalidate_all}
use zentora_backend.Auth.{
  invalidate_failed, incorrect_password, update_failed, ok, Failures, force_logout, disconnect,
  State, found, email_in,
}
use zentora_backend.Auth.Logout.{
  noticed, logout_all_sessions, deactivate_user, rehashed, with_local, change_password,
  with_session, unless_blacklisted, with_claims, validate_token,
}
use zentora_backend.Auth.Outcomes.{unless_ok, when_ok}
use zentora_backend.Sessions.Manager as Manager
use zentora_backend.Auth.Logout.Refused.{in_sessions_ok, then_do_ok, noticed_ok}

module _ {L R T : Type 0} (limiter : Redis L Text) (redis : Redis R Stored) (signer : Signer T)
    (g : Generator) (v : Verifier) (laws : IsRedis redis) where
  -- The sessions are those that InvalidateAllUserSessions leaves.
  abbrev IsCleared : Failures → ℕ → ℤ → World R → State L R → Type 0
  IsCleared fails now id w st' =
      (fails.sessions.scans ≡ false)
      × (fails.sessions.updates ≡ false)
      × (st'.sessions ≡ (invalidate_all_user_sessions redis fails.sessions now id w).1)

  logout_all_ok :
      (fails : Failures) (now : ℕ) (id : ℤ) (st st' : State L R)
      → logout_all_sessions limiter redis signer g v fails now id st ≡ (ok tt, st')
      → IsCleared fails now id st.sessions st'
  unfolding logout_all_sessions
  logout_all_ok fails now id st st' h =
      let (s, cleared, told) =
        then_do_ok limiter redis signer g v laws fails now _
          (noticed limiter redis signer g v fails now (force_logout id [])) st' h in
      let done =
        in_sessions_ok limiter redis signer g v laws fails now invalidate_failed st s _ cleared in
      let worked = invalidate_all_ok redis laws fails.sessions now id st.sessions s.sessions done in
      (
        worked.0,
        worked.1,
        sym (noticed_ok limiter redis signer g v laws fails now (force_logout id []) s st' told)
            ∙ ap (λ x. x.1) (sym done),
      )

  change_password_ok :
      (compare_hash : Text → Text → Bool) (fails : Failures) (now : ℕ) (id : ℤ) (current : Text)
      (hashed : Option Text) (st st' : State L R)
      → change_password limiter redis signer g v fails now compare_hash id current hashed st
        ≡ (ok tt, st')
      → IsCleared fails now id st.sessions st'
  unfolding change_password
  change_password_ok compare_hash fails now id current hashed st st' h =
      with_provider
        (found fails.providers (find_provider_by_identity_and_type id (lit "local") st.providers)) h
    where
      rehashed_ok :
          (p : Provider) (o : Option Text)
          → rehashed limiter redis signer g v fails now id p o st ≡ (ok tt, st')
          → IsCleared fails now id st.sessions st'
      rehashed_ok p none k = absurd cc
      rehashed_ok p (some hash) k =
          logout_all_ok fails now id
            (record st { providers = update_provider_password now p.id hash st.providers }) st'
            (unless_ok fails.updates update_failed st _ k)

      with_provider :
          (o : Option Provider)
          → with_local limiter redis signer g v fails now compare_hash id current hashed st o
            ≡ (ok tt, st')
          → IsCleared fails now id st.sessions st'
      with_provider none k = absurd cc
      with_provider (some p) k = rehashed_ok p hashed (
          when_ok (compare_hash (string_from_null p.password_hash) current) incorrect_password st _
            k)

  deactivate_user_ok :
      (fails : Failures) (now : ℕ) (id : ℤ) (st st' : State L R)
      → deactivate_user limiter redis signer g v fails now id st ≡ (ok tt, st')
      → IsCleared fails now id st.sessions st'
  unfolding deactivate_user
  deactivate_user_ok fails now id st st' h =
      let (s, out, told) =
        then_do_ok limiter redis signer g v laws fails now _
          (noticed limiter redis signer g v fails now (disconnect id)) st'
          (unless_ok fails.updates update_failed st _ h) in
      let (scans, updates, same) =
        logout_all_ok fails now id
          (record st { identities = update_identity_status id (lit "inactive") st.identities }) s
          out in
      (
        scans,
        updates,
        sym (noticed_ok limiter redis signer g v laws fails now (disconnect id) s st' told) ∙ same,
      )

  -- The search for the session of some claims.
  abbrev session_of : Failures → ℕ → State L R → Claims → Manager.Result SessionData × Option Task
  session_of fails u st c =
      get_session redis fails.sessions u (λ i. found fails.identities (email_in st.identities i))
        c.identity_id c.id st.sessions

  with_session_ok :
      (fails : Failures) (u : ℕ) (st : State L R) (d c : Claims)
      (r : Manager.Result SessionData × Option Task)
      → (with_session limiter redis signer g v fails u d r).0 ≡ ok c
      → (d ≡ c) × (is_err r.0 ≡ false)
  with_session_ok fails u st d c (Manager.err e, t) h = absurd cc
  with_session_ok fails u st d c (Manager.ok x, t) h = (cc, refl)

  -- A valid token has a session.
  validate_token_ok :
      (fails : Failures) (u : ℕ) (token : T) (st : State L R) (c : Claims)
      → (validate_token limiter redis signer g v fails u token st).0 ≡ ok c
      → is_err (session_of fails u st c).0 ≡ false
  unfolding validate_token
  validate_token_ok fails u token st c h = claimed (verify_access_token signer v u token) h
    where
      listed :
          (d : Claims) (b : Manager.Result Bool)
          → (unless_blacklisted limiter redis signer g v fails u d st b).0 ≡ ok c
          → is_err (session_of fails u st c).0 ≡ false
      listed d (Manager.err e) p = absurd cc
      listed d (Manager.ok true) p = absurd cc
      listed d (Manager.ok false) p =
          let (same, there) = with_session_ok fails u st d c (session_of fails u st d) p in
          subst (λ x. is_err (session_of fails u st x).0 ≡ false) same there

      claimed :
          (o : Option Claims)
          → (with_claims limiter redis signer g v fails u st o).0 ≡ ok c
          → is_err (session_of fails u st c).0 ≡ false
      claimed none p = absurd cc
      claimed (some d) p = listed d (is_token_blacklisted redis fails.sessions u d.id st.sessions) p

  -- Where the sessions of an identity are cleared, no token is valid that is the identity's.
  cleared_refused :
      (outs ins : Failures) (now u : ℕ) (id : ℤ) (w : World R) (st : State L R) (token : T)
      (c : Claims)
      → IsCleared outs now id w st
      → outs.sessions.dels ≡ false
      → now ≤ u
      → (validate_token limiter redis signer g v ins u token st).0 ≡ ok c
      → c.identity_id ≢ id
  cleared_refused outs ins now u id w st token c (scans, updates, same) dels order h mine =
      let there = validate_token_ok ins u token st c h in
      let gone =
        get_session-invalidate_all redis laws outs.sessions now
          (λ i. found ins.identities (email_in st.identities i)) id c.id ins.sessions u w dels scans
          updates order in
      let moved : is_err (session_of ins u st c).0 ≡ true =
        ap
          (λ x.
            is_err
              (get_session redis ins.sessions u
                (λ i. found ins.identities (email_in st.identities i)) x c.id st.sessions).0)
          mine
        ∙ ap
            (λ x.
              is_err
                (get_session redis ins.sessions u
                  (λ i. found ins.identities (email_in st.identities i)) id c.id x).0)
            same
        ∙ gone in
      absurd cc

  -- After a password change that reported no error, no token of the identity is valid, at that time or
  -- later, when no DEL failed, and no session was written since.
  pub change_password-validate_token :
      (compare_hash : Text → Text → Bool) (outs ins : Failures) (now u : ℕ) (id : ℤ)
      (current : Text) (hashed : Option Text) (st st' : State L R) (token : T) (c : Claims)
      → change_password limiter redis signer g v outs now compare_hash id current hashed st
        ≡ (ok tt, st')
      → outs.sessions.dels ≡ false
      → now ≤ u
      → (validate_token limiter redis signer g v ins u token st').0 ≡ ok c
      → c.identity_id ≢ id
  change_password-validate_token compare_hash outs ins now u id current hashed st st' token c h dels
        order valid =
      let cleared = change_password_ok compare_hash outs now id current hashed st st' h in
      cleared_refused outs ins now u id st.sessions st' token c cleared dels order valid

  -- After a deactivation that reported no error, no token of the identity is valid, at that time or
  -- later, when no DEL failed, and no session was written since.
  pub deactivate_user-validate_token :
      (outs ins : Failures) (now u : ℕ) (id : ℤ) (st st' : State L R) (token : T) (c : Claims)
      → deactivate_user limiter redis signer g v outs now id st ≡ (ok tt, st')
      → outs.sessions.dels ≡ false
      → now ≤ u
      → (validate_token limiter redis signer g v ins u token st').0 ≡ ok c
      → c.identity_id ≢ id
  deactivate_user-validate_token outs ins now u id st st' token c h dels order valid =
      cleared_refused outs ins now u id st.sessions st' token c
        (deactivate_user_ok outs now id st st' h) dels order valid
