-- ===== src/Tokens/Instance.antt =====
-- A signer that keeps its laws: what it signs is the token, and it reads numbers and lists of the
-- extra data back as values of other types; and a generator with its verifier.
use zentora_backend.Prelude.{
  [], ◌∷◌, ap, refl, ◌≡◌, sym, subst, true, false, ◌&&◌, some, none, if◌then◌else◌, leb, ltb, arith,
}
use zentora_backend.Text.{lit}
use zentora_backend.Access.{Value, int, text, texts, flag, other}
use zentora_backend.Tokens.{
  Generator, Verifier, Signed, Signer, IsSigner, Extra, reread_all, read_back,
}

abbrev reread_value : Value → Value
reread_value (int z) = other
reread_value (text t) = text t
reread_value (texts ts) = other
reread_value (flag b) = flag b
reread_value other = other

abbrev reread_extra : Extra → Extra
reread_extra [] = []
reread_extra ((k, x) ∷ e) = (k, reread_value x) ∷ reread_extra e

abbrev pub keeper : Signer Signed
keeper = record {
  sign = λ s. some s;
  parse = λ now s.
      if leb s.registered.not_before now && ltb now s.registered.expires_at
      then some
          (record s { claims = record s.claims { extra_data = reread_extra s.claims.extra_data } })
      else none;
  reread = reread_value;
}

reread_extra-reread_all : (e : Extra) → reread_extra e ≡ reread_all keeper e
reread_extra-reread_all [] = refl
reread_extra-reread_all ((k, x) ∷ e) = ap (λ r. (k, reread_value x) ∷ r) (reread_extra-reread_all e)

pub keeper-IsSigner : IsSigner keeper
keeper-IsSigner = record {
  parse-sign = λ s t now h begun alive.
      let same : t ≡ s = cc in
      let valid : (leb s.registered.not_before now && ltb now s.registered.expires_at) ≡ true =
        ground (arith, begun, alive) in
      let back = reread_extra-reread_all s.claims.extra_data in
      subst (λ x. keeper.parse now x ≡ some (record s { claims = read_back keeper s.claims }))
        (sym same) (rw (valid, back) refl);
  reread-text = λ t. refl;
  reread-flag = λ b. refl;
  parse_expired = λ s t now h late.
      let same : t ≡ s = cc in
      let invalid : (leb s.registered.not_before now && ltb now s.registered.expires_at) ≡ false =
        ground (arith, late) in
      subst (λ x. keeper.parse now x ≡ none) (sym same) (rw invalid refl);
}

abbrev pub generator : Generator
generator = record { has_key = true; issuer = lit "zentora"; audience = lit "shop"; ttl = 900 }

abbrev pub verifier : Verifier
verifier = record { has_key = true; issuer = lit "zentora"; audience = lit "shop" }
