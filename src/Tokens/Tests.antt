-- ===== src/Tokens/Tests.antt =====
-- The tokens of internal/pkg/jwt with a signer that keeps what it signs.
use zentora_backend.Prelude.{ℕ, ◌+◌, ◌*◌, ◌≡◌, refl, Bool, true, false, none, some, [], ◌∷◌, arith}
use zentora_backend.Prelude.Int.{pos}
use zentora_backend.Text.{Text, lit}
use zentora_backend.Access.{Claims, flag}
use zentora_backend.Tokens.{
  Signed, generate, generate_access_token, generate_magic_link_token, registered_of, minute,
}
use zentora_backend.Tokens.Instance.{generator, verifier, keeper, keeper-IsSigner}
use zentora_backend.Tokens.Purposes.{
  access, refresh, magic_link, for_access, for_link, verify_as, claims_for, verify_as_exclusive,
  verify_as-generate_as, verify_as_expired,
}

abbrev token : Text → Bool → ℕ → Claims → Signed
token jti is_temp now c = record {
  claims = c;
  registered = registered_of generator now is_temp (pos 7);
}

abbrev access_token : Signed
access_token =
    token (lit "j") false 100
      (claims_for (pos 7) (lit "j") (for_access [] [] [] ((lit "new", flag true) ∷ [])))

abbrev link_token : Signed
link_token = token (lit "j") true 100 (claims_for (pos 7) (lit "j") (for_link (lit "a@b.c")))

verify_as-generate_as_example :
    verify_as keeper verifier 200 access access_token
    ≡ some (claims_for (pos 7) (lit "j") (for_access [] [] [] ((lit "new", flag true) ∷ [])))
unfolding generate generate_access_token
verify_as-generate_as_example =
    verify_as-generate_as keeper keeper-IsSigner verifier generator 100 200 (lit "j") (pos 7)
      (for_access [] [] [] ((lit "new", flag true) ∷ [])) access_token (lit "j") (refl, refl, refl)
      refl (omega arith) (omega arith) refl

-- A magic link is accepted after 20 minutes: it lasts for 30.
late_link :
    verify_as keeper verifier (100 + 20 * minute) magic_link link_token
    ≡ some (claims_for (pos 7) (lit "j") (for_link (lit "a@b.c")))
unfolding generate generate_magic_link_token
late_link =
    verify_as-generate_as keeper keeper-IsSigner verifier generator 100 (100 + 20 * minute)
      (lit "j") (pos 7) (for_link (lit "a@b.c")) link_token (lit "j") (refl, refl, refl) refl
      (omega arith) (omega arith) refl

verify_as_expired_example : verify_as keeper verifier 1000 refresh access_token ≡ none
unfolding generate generate_access_token
verify_as_expired_example =
    verify_as_expired keeper keeper-IsSigner verifier generator 100 1000 (lit "j") (pos 7)
      (for_access [] [] [] ((lit "new", flag true) ∷ [])) access_token (lit "j") refresh refl
      (omega arith)

verify_as_exclusive_example : verify_as keeper verifier 200 refresh access_token ≡ none
verify_as_exclusive_example =
    verify_as_exclusive keeper verifier 200 access refresh access_token
      (claims_for (pos 7) (lit "j") (for_access [] [] [] ((lit "new", flag true) ∷ [])))
      verify_as-generate_as_example (λ e. absurd cc)
