-- ===== src/Redis/Instance.antt =====
-- A server that keeps its laws: a list of what was written, the last first.
use zentora_backend.Prelude.{
  ℕ, suc, ◌≡◌, refl, sym, ap, ◌∙◌, inl, inr, true, ◌&&◌, Option, none, some, List, [], ◌∷◌, arith,
  if◌then◌else◌, any, All, Bool-cases,
}
use zentora_backend.Text.{Text, text_eq, text_eq_iff, text_eq_refl, has_prefix}
use zentora_backend.Redis.{
  number, payload, Entry, Redis, IsRedis, live, number_of, expiry_of, expiring, is_present,
}

abbrev pub Memory : Type 0 → Type 0
Memory P = List (Text × Option (Entry P))

module _ {P : Type 0} where
  abbrev pub lookup : Text → Memory P → Option (Entry P)
  lookup q [] = none
  lookup q (w ∷ m) = if text_eq q w.0 then w.1 else lookup q m

  -- The written keys of a prefix that are live in a memory.
  abbrev pub scanned : Text → ℕ → Memory P → Memory P → List Text
  scanned p now all_ [] = []
  scanned p now all_ (w ∷ m) =
      let rest = scanned p now all_ m in
      if has_prefix w.0 p && is_present (live now (lookup w.0 all_)) then w.0 ∷ rest else rest

  scanned-prefix :
      (p : Text) (now : ℕ) (all_ m : Memory P)
      → All (λ k. has_prefix k p ≡ true) (scanned p now all_ m)
  scanned-prefix p now all_ [] = tt
  scanned-prefix p now all_ (w ∷ m) =
      elim (Bool-cases (has_prefix w.0 p && is_present (live now (lookup w.0 all_)))) [
        | inl e ↦ rw e (ground arith, scanned-prefix p now all_ m)
        | inr e ↦ rw e (scanned-prefix p now all_ m)
      ]

  scanned-finds :
      (p q : Text) (now : ℕ) (all_ m : Memory P)
      → has_prefix q p ≡ true
      → is_present (live now (lookup q all_)) ≡ true
      → is_present (live now (lookup q m)) ≡ true
      → any (λ k. text_eq q k) (scanned p now all_ m) ≡ true
  scanned-finds p q now all_ [] h there here = here
  scanned-finds p q now all_ (w ∷ m) h there here = elim (Bool-cases (text_eq q w.0)) [
    | inl e ↦
        let same : q ≡ w.0 = (text_eq_iff q w.0).0 e in
        let prefixed : has_prefix w.0 p ≡ true = ap (λ x. has_prefix x p) (sym same) ∙ h in
        let live_there : is_present (live now (lookup w.0 all_)) ≡ true =
          ap (λ x. is_present (live now (lookup x all_))) (sym same) ∙ there in
        rw (prefixed, live_there, e) refl
    | inr e ↦
        let found : is_present (live now (lookup q m)) ≡ true = rw (e) at here in
        let rest = scanned-finds p q now all_ m h there found in
        elim (Bool-cases (has_prefix w.0 p && is_present (live now (lookup w.0 all_)))) [
          | inl g ↦ rw (g, e) rest
          | inr g ↦ rw g rest
        ]
  ]

  abbrev pub memory : Redis (Memory P) P
  memory = record {
    entry = lookup;
    incr = λ k now m. (
      suc (number_of (live now (lookup k m))),
      (
        k,
        some (record {
          value = number (suc (number_of (live now (lookup k m))));
          expires_at = expiry_of (live now (lookup k m));
        }),
      )
          ∷ m,
    );
    expire = λ k t m. (k, expiring t (lookup k m)) ∷ m;
    set = λ k p t m. (k, some (record { value = payload p; expires_at = some t })) ∷ m;
    del = λ k m. (k, none) ∷ m;
    scan = λ p now m. scanned p now m m;
  }

  pub memory-IsRedis : IsRedis memory
  memory-IsRedis = record {
    incr-reply = λ k now r c. refl;
    incr-entry = λ k now r c. rw (text_eq_refl k) refl;
    incr-other = λ k q now r h. rw h refl;
    expire-entry = λ k t r. rw (text_eq_refl k) refl;
    expire-other = λ k q t r h. rw h refl;
    set-entry = λ k p t r. rw (text_eq_refl k) refl;
    set-other = λ k q p t r h. rw h refl;
    del-entry = λ k r. rw (text_eq_refl k) refl;
    del-other = λ k q r h. rw h refl;
    scan-finds = λ p q now r h g. scanned-finds p q now r r h g g;
    scan-prefix = λ p now r. scanned-prefix p now r r;
  }
