-- ===== src/Accounts/Verifications.antt =====
-- The table auth_verification_tokens (internal/repository/postgres/auth_repo.go): tokens that are sent
-- by mail. Its schema does not make a token unique; 32 random bytes do.
pub mod Spent
use zentora_backend.Prelude.{
  ℕ, ◌+◌, Bool, true, false, ◌&&◌, Option, none, some, List, [], ◌∷◌, ◌++◌, map, if◌then◌else◌, ltb,
}
use zentora_backend.Prelude.Int.{ℤ, ◌==ℤ◌}
use zentora_backend.Text.{Text, text_eq}

pub record VerificationToken : Type 0 where
  pub id : ℤ
  pub identity_id : ℤ
  pub token_type : Text
  pub token : Text
  pub code : Option Text
  pub expires_at : ℕ
  pub used_at : Option ℕ
  pub verified_at : Option ℕ
  pub attempts : ℕ

-- The database fills the id and the rest.
pub create_verification_token :
    ℤ → VerificationToken → List VerificationToken → List VerificationToken
create_verification_token id t ts =
    ts ++ record t { id = id; used_at = none; verified_at = none; attempts = 0 } ∷ []

abbrev pub is_unused : Option ℕ → Bool
is_unused none = true
is_unused (some t) = false

abbrev pub is_token : Text → Text → VerificationToken → Bool
is_token type token t = text_eq t.token_type type && text_eq t.token token

abbrev pub is_usable : ℕ → Text → Text → VerificationToken → Bool
is_usable now type token t = is_token type token t && (ltb now t.expires_at && is_unused t.used_at)

unfoldable pub find_verification_token :
    ℕ → Text → Text → List VerificationToken → Option VerificationToken
find_verification_token now type token [] = none
find_verification_token now type token (t ∷ ts) =
    if is_usable now type token t then some t else find_verification_token now type token ts

abbrev pub spent : ℕ → ℤ → VerificationToken → VerificationToken
spent now id t = if t.id ==ℤ id then record t { used_at = some now; verified_at = some now } else t

pub mark_token_as_used : ℕ → ℤ → List VerificationToken → List VerificationToken
mark_token_as_used now id ts = map (spent now id) ts

pub increment_token_attempts : ℤ → List VerificationToken → List VerificationToken
increment_token_attempts id ts =
    map (λ t. if t.id ==ℤ id then record t { attempts = t.attempts + 1 } else t) ts
