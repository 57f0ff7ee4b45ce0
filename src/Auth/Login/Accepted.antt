-- ===== src/Auth/Login/Accepted.antt =====
-- What a login gives: a token that the service itself accepts, with the session behind it.
use zentora_backend.Prelude.{
  ℕ, ◌+◌, ◌≤◌, ◌<◌, ◌≡◌, refl, sym, ap, ◌∙◌, subst, Bool, true, false, Option, none, some, List, [],
}
use zentora_backend.Text.{Text, lit, text_eq}
use zentora_backend.Access.{Claims}
use zentora_backend.Redis.{Redis, IsRedis}
use zentora_backend.Tokens.{
  Signer, IsSigner, Generator, Verifier, generate_access_token, generate_refresh_token,
  verify_access_token,
}
use zentora_backend.Tokens.Purposes.{
  for_access, IsPaired, verify_as-generate_as, generate_as_inv, claims_for,
}
use zentora_backend.Sessions.{SessionData}
use zentora_backend.Sessions.Manager.{
  Stored, World, Task, create_session, get_session, is_token_blacklisted,
}
use zentora_backend.Sessions.Manager.Steps.{is_token_blacklisted_absent}
use zentora_backend.Sessions.Manager.Revived.{create_session_stored, get_session-stored}
use zentora_backend.Accounts.{Identity, Provider, Profile, find_identity_by_email, get_user_profile}
use zentora_backend.Limits.{check_login_attempt}
use zentora_backend.Auth.{
  session_failed, Result, ok, err, panicked, Failures, State, LoginRequest, LoginResponse, Fresh,
  found, is_after, email_in,
}
use zentora_backend.Auth.Login.{
  answered, cached, inserted, row_for, session_for, with_access, with_roles,
  get_user_roles_and_permissions, login_with_identity, welcomed, with_provider, with_identity,
  limited, login,
}
use zentora_backend.Auth.Logout.{with_session, validate_token}
use zentora_backend.Sessions.Manager.{blacklist_key, session_key, string_from_null}
use zentora_backend.Auth.Outcomes.{unless_ok, when_ok}
use zentora_backend.Sessions.Manager as Manager
use zentora_backend.Limits as Limits

abbrev response_or : {T : Type 0} → LoginResponse T → Result (LoginResponse T) → LoginResponse T
response_or d (ok r) = r
response_or d (err e) = d
response_or d panicked = d

module _ {L R T : Type 0} (limiter : Redis L Text) (redis : Redis R Stored) (signer : Signer T)
    (g : Generator) (v : Verifier) (fails : Failures) (now : ℕ) where
  -- The response's token was generated for its identity, and its session was created.
  abbrev IsLogged : Fresh → Text → LoginResponse T → State L R → Type 0
  IsLogged f device r st' =
      (j : Text) × (w : World R) × (d : SessionData) × (generate_access_token signer now
          f.access_jti g r.identity_id r.roles r.permissions device []
        ≡ some (r.access_token, j))
      × (create_session redis fails.sessions now d w ≡ (Manager.ok tt, st'.sessions))
      × (d.identity_id ≡ r.identity_id)
      × (d.jti ≡ f.access_jti)
      × (d.expires_at ≡ now + g.ttl)

  answered_ok :
      (i : Identity) (a b : T) (r : List Text × List Text) (o : Option Profile)
      (resp : LoginResponse T)
      → answered limiter redis signer g v fails now i a b r o ≡ ok resp
      → (a ≡ resp.access_token)
        × (i.id ≡ resp.identity_id)
        × (r.0 ≡ resp.roles)
        × (r.1 ≡ resp.permissions)
  answered_ok i a b r none resp h = absurd cc
  answered_ok i a b r (some p) resp h = (
    ap (λ x. (response_or resp x).access_token) h,
    ap (λ x. (response_or resp x).identity_id) h,
    ap (λ x. (response_or resp x).roles) h,
    ap (λ x. (response_or resp x).permissions) h,
  )

  cached_ok :
      (i : Identity) (a b : T) (r : List Text × List Text) (st : State L R)
      (c : Manager.Result (Unit {0}) × World R) (resp : LoginResponse T) (st' : State L R)
      → cached limiter redis signer g v fails now i a b r st c ≡ (ok resp, st')
      → (c ≡ (Manager.ok tt, st'.sessions))
        × (answered limiter redis signer g v fails now i a b r
              (found fails.profiles (get_user_profile i.id st.profiles))
            ≡ ok resp)
  cached_ok i a b r st (Manager.err e, w) resp st' h = absurd cc
  cached_ok i a b r st (Manager.ok u, w) resp st' h =
      (ap (λ x. (Manager.ok tt, x.1.sessions)) h, ap (λ x. x.0) h)

  with_access_ok :
      (f : Fresh) (i : Identity) (p : Provider) (device ip_address user_agent : Text)
      (st : State L R) (r : List Text × List Text) (x y : Option (T × Text))
      (resp : LoginResponse T) (st' : State L R)
      → x ≡ generate_access_token signer now f.access_jti g i.id r.0 r.1 device []
      → with_access limiter redis signer g v fails now f i p device ip_address user_agent st r x y
        ≡ (ok resp, st')
      → IsLogged f device resp st'
  with_access_ok f i p device ip_address user_agent st r none y resp st' e h = absurd cc
  with_access_ok f i p device ip_address user_agent st r (some a) none resp st' e h = absurd cc
  with_access_ok f i p device ip_address user_agent st r (some a) (some b) resp st' e h =
      let row = row_for limiter redis signer g v fails now f i p device ip_address user_agent in
      let d = session_for limiter redis signer g v fails now f i p device ip_address user_agent r in
      let w = (inserted limiter redis signer g v fails now row st).sessions in
      let st2 = inserted limiter redis signer g v fails now row st in
      let (made, told) =
        cached_ok i a.0 b.0 r st2 _ resp st' (unless_ok fails.inserts session_failed st _ h) in
      let (token, same, roles, permissions) = answered_ok i a.0 b.0 r _ resp told in
      (a.1, w, d, cc, made, same, refl, refl)

  with_roles_ok :
      (f : Fresh) (i : Identity) (p : Provider) (device ip_address user_agent : Text)
      (st : State L R) (o : Option (List Text × List Text)) (resp : LoginResponse T)
      (st' : State L R)
      → with_roles limiter redis signer g v fails now f i p device ip_address user_agent st o
        ≡ (ok resp, st')
      → IsLogged f device resp st'
  with_roles_ok f i p device ip_address user_agent st none resp st' h = absurd cc
  with_roles_ok f i p device ip_address user_agent st (some r) resp st' h =
      with_access_ok f i p device ip_address user_agent st r _
        (generate_refresh_token signer now f.refresh_jti g i.id device) resp st' refl h

  module _ (lower : Text → Text) (compare_hash : Text → Text → Bool) where
    with_provider_ok :
        (f : Fresh) (req : LoginRequest) (remaining : ℕ) (i : Identity) (st : State L R)
        (o : Option Provider) (resp : LoginResponse T) (st' : State L R)
        → with_provider limiter redis signer g v fails now lower compare_hash f req remaining i st o
          ≡ (ok resp, st')
        → IsLogged f req.device resp st'
    unfolding login_with_identity
    with_provider_ok f req remaining i st none resp st' h = absurd cc
    with_provider_ok f req remaining i st (some p) resp st' h =
        let in_ = welcomed limiter redis signer g v fails now lower compare_hash req i st in
        with_roles_ok f i p req.device req.ip_address req.user_agent in_
          (get_user_roles_and_permissions limiter redis signer g v fails now i.id in_) resp st'
          (when_ok (compare_hash (string_from_null p.password_hash) req.password) _ _ _ h)

    with_identity_ok :
        (f : Fresh) (req : LoginRequest) (remaining : ℕ) (st : State L R) (o : Option Identity)
        (resp : LoginResponse T) (st' : State L R)
        → with_identity limiter redis signer g v fails now lower compare_hash f req remaining st o
          ≡ (ok resp, st')
        → IsLogged f req.device resp st'
    with_identity_ok f req remaining st none resp st' h = absurd cc
    with_identity_ok f req remaining st (some i) resp st' h =
        with_provider_ok f req remaining i st _ resp st' (
          unless_ok (is_after now i.locked_until) _ _ _ (
            unless_ok (text_eq i.status (lit "suspended")) _ _ _
              (unless_ok (text_eq i.status (lit "inactive")) _ _ _ h)))

    login_ok :
        (f : Fresh) (req : LoginRequest) (st : State L R) (resp : LoginResponse T) (st' : State L R)
        → login limiter redis signer g v fails now lower compare_hash f req st ≡ (ok resp, st')
        → IsLogged f req.device resp st'
    unfolding login
    login_ok f req st resp st' h =
        allowed (check_login_attempt limiter fails.limits now req.ip_address req.email st.limits) h
      where
        allowed :
            (c : Limits.Result (Bool × ℕ) × L)
            → limited limiter redis signer g v fails now lower compare_hash f req st c
              ≡ (ok resp, st')
            → IsLogged f req.device resp st'
        allowed (Limits.err e, l) k = absurd cc
        allowed (Limits.ok (false, n), l) k = absurd cc
        allowed (Limits.ok (true, n), l) k =
            with_identity_ok f req n (record st { limits = l })
              (found fails.identities (find_identity_by_email lower req.email st.identities)) resp
              st' k

    accepted :
        (c : Claims) (r : Manager.Result SessionData × Option Task) (d : SessionData)
        → r.0 ≡ Manager.ok d
        → (with_session limiter redis signer g v fails now c r).0 ≡ ok c
    accepted c (Manager.err e, t) d h = absurd cc
    accepted c (Manager.ok x, t) d h = refl

    -- The access token of a login that went well is accepted, up to its expiry and in any later state
    -- where the session's entry in Redis is as the login left it and the token's identifier is not on
    -- the blacklist, with the identity, the roles and the permissions of the response, when the
    -- verifier is paired with the generator and no GET fails.
    pub login-validate_token :
        (laws : IsRedis redis) (signs : IsSigner signer) (f : Fresh) (req : LoginRequest)
        (st : State L R) (resp : LoginResponse T) (st' end_ : State L R) (ins : Failures) (u : ℕ)
        → IsPaired g v
        → login limiter redis signer g v fails now lower compare_hash f req st ≡ (ok resp, st')
        → redis.entry (session_key resp.identity_id f.access_jti) end_.sessions.redis
          ≡ redis.entry (session_key resp.identity_id f.access_jti) st'.sessions.redis
        → redis.entry (blacklist_key f.access_jti) end_.sessions.redis ≡ none
        → ins.sessions.gets ≡ false
        → now ≤ u
        → u < now + g.ttl
        → (validate_token limiter redis signer g v ins u resp.access_token end_).0
          ≡ ok (
              claims_for resp.identity_id f.access_jti
                (for_access resp.roles resp.permissions req.device []))
    unfolding validate_token
    login-validate_token laws signs f req st resp st' end_ ins u paired h unchanged fresh works
          begun alive =
        let (j, w, d, made, stored, owner, named, until) = login_ok f req st resp st' h in
        let request = for_access resp.roles resp.permissions req.device [] in
        let same : j ≡ f.access_jti =
          (generate_as_inv signer now f.access_jti g resp.identity_id request resp.access_token j
            made).1 in
        let verified : verify_access_token signer v u resp.access_token
            ≡ some (claims_for resp.identity_id f.access_jti request) =
          verify_as-generate_as signer signs v g now u f.access_jti resp.identity_id request
            resp.access_token j paired made begun alive refl
          ∙ ap (λ x. some (claims_for resp.identity_id x request)) same in
        let unlisted : is_token_blacklisted redis ins.sessions u f.access_jti end_.sessions
            ≡ Manager.ok false =
          is_token_blacklisted_absent redis ins.sessions u f.access_jti end_.sessions works fresh in
        let key : session_key d.identity_id d.jti ≡ session_key resp.identity_id f.access_jti =
          ap (λ x. session_key x d.jti) owner ∙ ap (session_key resp.identity_id) named in
        let held =
          unchanged
          ∙ ap (λ k. redis.entry k st'.sessions.redis) (sym key)
          ∙ create_session_stored redis laws (λ i. none) fails.sessions now d w st'.sessions
              stored in
        let there =
          get_session-stored redis laws (λ i. found ins.identities (email_in end_.identities i))
            ins.sessions u resp.identity_id f.access_jti d end_.sessions works
            (subst (λ x. u < x) (sym until) alive) held in
        rw (verified, unlisted)
          (accepted (claims_for resp.identity_id f.access_jti request) _
            (record d { last_activity_at = u }) there)
