-- ===== src/Auth/Recovery/Single.antt =====
-- A reset token serves once.
use zentora_backend.Prelude.{ℕ, ◌≤◌, ◌≡◌, refl, sym, ap, ◌∙◌, Bool, true, false, Option, none, some}
use zentora_backend.Text.{Text, lit}
use zentora_backend.Redis.{Redis}
use zentora_backend.Tokens.{Signer, Generator, Verifier}
use zentora_backend.Sessions.Manager.{Stored}
use zentora_backend.Accounts.{Provider}
use zentora_backend.Accounts.Verifications.{
  VerificationToken, find_verification_token, mark_token_as_used,
}
use zentora_backend.Accounts.Verifications.Spent.{
  rows_of, find_verification_token-mark_token_as_used,
}
use zentora_backend.Auth.{ok, err, invalid_token, update_failed, found}
use zentora_backend.Auth.Outcomes.{unless_ok}
use zentora_backend.Auth.Recovery.{
  Desk, RecoveryFailures, reset_password, with_token, with_token_provider, with_new_password,
  marked,
}

module _ {L R T : Type 0} (limiter : Redis L Text) (redis : Redis R Stored) (signer : Signer T)
    (g : Generator) (v : Verifier) (fails : RecoveryFailures) (now : ℕ) where
  -- A reset that went well marked the token that it found.
  with_token_ok :
      (hashed : Option Text) (d d' : Desk L R) (o : Option VerificationToken)
      → fails.token_marks ≡ false
      → with_token limiter redis signer g v fails now hashed d o ≡ (ok tt, d')
      → (t : VerificationToken) × (o ≡ some t) × (d'.tokens ≡ mark_token_as_used now t.id d.tokens)
  with_token_ok hashed d d' none marks h = absurd cc
  with_token_ok hashed d d' (some t) marks h = (t, refl, provided _ h)
    where
      marked_tokens :
          (marked limiter redis signer g v fails now t.id d).tokens
          ≡ mark_token_as_used now t.id d.tokens
      marked_tokens = rw marks refl

      renewed :
          (p : Provider) (hash : Option Text)
          → with_new_password limiter redis signer g v fails now t p hash d ≡ (ok tt, d')
          → d'.tokens ≡ mark_token_as_used now t.id d.tokens
      renewed p none k = absurd cc
      renewed p (some hash) k =
          sym (ap (λ x. x.1.tokens) (unless_ok fails.service.updates update_failed d _ k))
          ∙ marked_tokens

      provided :
          (o : Option Provider)
          → with_token_provider limiter redis signer g v fails now t hashed d o ≡ (ok tt, d')
          → d'.tokens ≡ mark_token_as_used now t.id d.tokens
      provided none k = absurd cc
      provided (some p) k = renewed p hashed k

-- A token that reset a password without an error is refused from then on, whatever the time, the new
-- password and the failures, when the token was marked as used and the table held it once.
pub reset_password_once :
    {L R T : Type 0} (limiter : Redis L Text) (redis : Redis R Stored) (signer : Signer T)
    (g : Generator) (v : Verifier) (first second : RecoveryFailures) (now u : ℕ) (token : Text)
    (hashed again : Option Text) (d d' : Desk L R)
    → first.token_marks ≡ false
    → rows_of (lit "password_reset") token d.tokens ≤ 1
    → reset_password limiter redis signer g v first now token hashed d ≡ (ok tt, d')
    → reset_password limiter redis signer g v second u token again d' ≡ (err invalid_token, d')
unfolding reset_password
reset_password_once limiter redis signer g v first second now u token hashed again d d' marks single
      h =
    let type = lit "password_reset" in
    let search = found first.token_finds (find_verification_token now type token d.tokens) in
    let (t, there, left) =
      with_token_ok limiter redis signer g v first now hashed d d' search marks h in
    let gone : find_verification_token u type token d'.tokens ≡ none =
      ap (find_verification_token u type token) left
      ∙ find_verification_token-mark_token_as_used type token now u t.id d.tokens t single
          (was_found first.token_finds (find_verification_token now type token d.tokens) there)
          refl in
    ap (with_token limiter redis signer g v second u again d')
      (nothing second.token_finds (find_verification_token u type token d'.tokens) gone)
  where
    was_found :
        (b : Bool) (o : Option VerificationToken) {t : VerificationToken}
        → found b o ≡ some t
        → o ≡ some t
    was_found true o k = absurd cc
    was_found false o k = k

    nothing : (b : Bool) (o : Option VerificationToken) → o ≡ none → found b o ≡ none
    nothing true o k = refl
    nothing false o k = k
