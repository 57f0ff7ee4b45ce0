-- ===== src/Auth/Logout/Refused.antt =====
-- Logout puts its token on the blacklist, and the token is never accepted again.
use zentora_backend.Prelude.{
  ℕ, ◌+◌, ◌≤◌, ◌<◌, ◌≡◌, refl, sym, ap, subst, inl, inr, Bool, true, false, Option, none, some,
  List, leb, arith, Bool-cases, leb→le,
}
use zentora_backend.Prelude.Int.{ℤ}
use zentora_backend.Text.{Text}
use zentora_backend.Access.{Claims}
use zentora_backend.Redis.{Redis, IsRedis}
use zentora_backend.Tokens.{
  read_back, Signer, IsSigner, Generator, Verifier, Extra, generate_access_token,
  verify_access_token,
}
use zentora_backend.Tokens.Purposes.{
  access, for_access, IsPaired, verify_as_expired, verify_as-read_back, claims_for,
}
use zentora_backend.Sessions.Manager.{
  string_from_null, Stored, one, World, Task, blacklist_key, blacklist_token, is_token_blacklisted,
  invalidate_session, invalidate_all_user_sessions, get_session,
}
use zentora_backend.Sessions.Manager.Steps.{
  Schedule, IsFrom, IsRevoked, perform_all, perform_all-IsRevoked, blacklist_token_ok,
  is_token_blacklisted-IsRevoked,
}
use zentora_backend.Auth.{
  Error, blacklist_failed, Result, ok, err, panicked, Failures, Notice, force_logout, State,
}
use zentora_backend.Auth.Logout.{
  in_sessions, then_do, noticed, blacklisted, logout, unless_blacklisted, with_claims,
  validate_token,
}
use zentora_backend.Sessions.Manager as Manager

abbrev pub is_refused {ℓ} : {A : Type ℓ} → Result A → Bool
is_refused (ok a) = false
is_refused (err e) = true
is_refused panicked = false

module _ {L R T : Type 0} (limiter : Redis L Text) (redis : Redis R Stored) (signer : Signer T)
    (g : Generator) (v : Verifier) (laws : IsRedis redis) where
  pub in_sessions_ok :
      (fails : Failures) (now : ℕ) (e : Error) (st st' : State L R)
      (b : Manager.Result (Unit {0}) × World R)
      → in_sessions limiter redis signer g v fails now e st b ≡ (ok tt, st')
      → b ≡ (Manager.ok tt, st'.sessions)
  in_sessions_ok fails now e st st' (Manager.err x, w) h = absurd cc
  in_sessions_ok fails now e st st' (Manager.ok u, w) h = ap (λ x. (Manager.ok tt, x.1.sessions)) h

  -- A chain of two steps went well where both did.
  pub then_do_ok :
      (fails : Failures) (now : ℕ) (a : Result (Unit {0}) × State L R)
      (f : State L R → Result (Unit {0}) × State L R) (st' : State L R)
      → then_do limiter redis signer g v fails now a f ≡ (ok tt, st')
      → (s : State L R) × (a ≡ (ok tt, s)) × (f s ≡ (ok tt, st'))
  then_do_ok fails now (err e, s) f st' h = absurd cc
  then_do_ok fails now (panicked, s) f st' h = absurd cc
  then_do_ok fails now (ok u, s) f st' h = (s, refl, h)

  pub noticed_ok :
      (fails : Failures) (now : ℕ) (n : Notice) (st st' : State L R)
      → noticed limiter redis signer g v fails now n st ≡ (ok tt, st')
      → st.sessions ≡ st'.sessions
  noticed_ok fails now n st st' h = ap (λ x. x.1.sessions) h

  logout_ok :
      (fails : Failures) (now : ℕ) (id : ℤ) (jti : Text) (st st' : State L R)
      → logout limiter redis signer g v fails now id jti st ≡ (ok tt, st')
      → IsRevoked redis (now + g.ttl) jti st'.sessions
  unfolding logout
  logout_ok fails now id jti st st' h =
      let (s, chain, told) =
        then_do_ok fails now _ (noticed limiter redis signer g v fails now (force_logout id jti))
          st' h in
      let (r, first, listed) =
        then_do_ok fails now _ (blacklisted limiter redis signer g v fails now jti) s chain in
      let put = in_sessions_ok fails now blacklist_failed r s _ listed in
      subst (IsRevoked redis (now + g.ttl) jti)
        (noticed_ok fails now (force_logout id jti) s st' told)
        (blacklist_token_ok redis laws (λ i. none) g.ttl now fails.sessions jti r.sessions
          s.sessions put)

  -- A token that is on the list, or has expired, is refused.
  with_claims_revoked :
      (fails : Failures) (u until : ℕ) (c : Claims) (st : State L R)
      → IsRevoked redis until c.id st.sessions
      → u < until
      → is_refused (with_claims limiter redis signer g v fails u st (some c)).0 ≡ true
  with_claims_revoked fails u until c st revoked early =
      listed (is_token_blacklisted redis fails.sessions u c.id st.sessions) refl
    where
      listed :
          (b : Manager.Result Bool)
          → is_token_blacklisted redis fails.sessions u c.id st.sessions ≡ b
          → is_refused (unless_blacklisted limiter redis signer g v fails u c st b).0 ≡ true
      listed (Manager.err e) p = refl
      listed (Manager.ok true) p = refl
      listed (Manager.ok false) p = absurd (
          is_token_blacklisted-IsRevoked redis laws (λ i. none) g.ttl u until fails.sessions c.id
            st.sessions revoked early p)

  -- A token that Logout took back is never accepted again: whatever calls, failures and late writes
  -- of goroutines follow on the session manager, from the logout's time on, and whatever happens to
  -- the other tables. It holds for an access token of the generator that was issued before, with a
  -- verifier that is paired with the generator, when Logout reported no error.
  pub logout-validate_token :
      (signs : IsSigner signer) (issued now u : ℕ) (id : ℤ) (roles permissions : List Text)
      (device : Text) (extra : Extra) (token : T) (jti : Text) (made : Text) (outs ins : Failures)
      (find_email : ℤ → Option Text) (later : Schedule redis) (st st' end_ : State L R)
      → IsPaired g v
      → generate_access_token signer issued made g id roles permissions device extra
        ≡ some (token, jti)
      → issued ≤ now
      → logout limiter redis signer g v outs now id jti st ≡ (ok tt, st')
      → IsFrom redis now later
      → end_.sessions ≡ perform_all redis find_email g.ttl later st'.sessions
      → now ≤ u
      → is_refused (validate_token limiter redis signer g v ins u token end_).0 ≡ true
  unfolding validate_token
  logout-validate_token signs issued now u id roles permissions device extra token jti made outs ins
        find_email later st st' end_ paired signed order out from after_ then_ =
      let request = for_access roles permissions device extra in
      elim (Bool-cases (leb (issued + g.ttl) u)) [
        | inl e ↦
            let expired : verify_access_token signer v u token ≡ none =
              verify_as_expired signer signs v g issued u made id request token jti access signed
                (leb→le (issued + g.ttl) u e) in
            rw expired refl
        | inr e ↦
            let verified : verify_access_token signer v u token
                ≡ some (read_back signer (claims_for id jti request)) =
              verify_as-read_back signer signs v g issued u made id request token jti paired signed
                (omega (arith, order, then_)) (ground (arith, e)) in
            let held =
              perform_all-IsRevoked redis laws find_email g.ttl jti now (now + g.ttl) later
                st'.sessions (omega arith) from (logout_ok outs now id jti st st' out) in
            let revoked = subst (IsRevoked redis (now + g.ttl) jti) (sym after_) held in
            rw verified (
              with_claims_revoked ins u (now + g.ttl) (read_back signer (claims_for id jti request))
                end_ revoked (ground (arith, e, order)))
      ]
