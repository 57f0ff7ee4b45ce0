-- ===== src/Delivery/Repository/Versions.antt =====
-- Optimistic updates of the policy.
use zentora_backend.Prelude.{
  ℕ, ◌≡◌, refl, sym, ap, ◌∙◌, inl, inr, Bool, true, false, ◌&&◌, ◌||◌, ◌==◌, Option, none, some,
  arith, Bool-cases, Option-cases,
}
use zentora_backend.Prelude.Int.{ℤ, pos, ◌+ℤ◌, ◌==ℤ◌, ==ℤ_iff, +ℤ_parts, pos_part, neg_part}
use zentora_backend.Delivery.{Policy, PolicyUpdate, is_valid_update, prepare}
use zentora_backend.Delivery.Repository.{
  Error, ok, err, conflict, Method, Tables, Failures, count_fees, set_fees, read_policy, get_policy,
  is_current, new_method, committed, versioned, update_policy,
}

module _ (zones : Bool) (fails : Failures) (now : ℕ) where
  -- What an update that succeeds met and leaves.
  pub record IsUpdated (u : PolicyUpdate) (admin : ℤ) (t t' : Tables) (p : Policy) : Type 0 where
    pub before : Method
    pub stored : t.method ≡ some before
    pub version : before.policy_version ≡ u.expected_version
    pub valid : is_valid_update u ≡ true
    pub after : t'.method ≡ some (new_method zones fails now u admin before)
    pub fees : t'.rates ≡ set_fees before.id u.nairobi_indicative_fee t.rates
    pub seen : get_policy zones t' ≡ ok p

  -- An update that succeeds is valid and was made on the version that it expected; the version goes
  -- up by one, the text is the trimmed one, the Nairobi fee is the new one, and the policy that it
  -- returns is the one that Get returns afterwards.
  pub update_policy-IsUpdated :
      (u : PolicyUpdate) (admin : ℤ) (t : Tables) {p : Policy} {t' : Tables}
      → update_policy zones fails now u admin t ≡ (ok p, t')
      → IsUpdated u admin t t' p
  unfolding update_policy
  update_policy-IsUpdated u admin t {p} {t'} e = elim (Bool-cases (is_valid_update u)) [
    | inr bad ↦ absurd (ground arith)
    | inl good ↦ elim (Bool-cases (fails.begins || fails.updates_method)) [
      | inl down ↦ absurd (ground arith)
      | inr up ↦ elim (Option-cases t.method) [
        | inl missing ↦ absurd (ground arith)
        | inr (m, found) ↦ stepped good m found (ground arith)
      ]
    ]
  ]
    where
      read_back :
          (m : Method)
          → (o : Option Policy)
          → read_policy zones
              (record { method = some m; rates = set_fees m.id u.nairobi_indicative_fee t.rates })
            ≡ o
          → committed zones fails now t
              (record { method = some m; rates = set_fees m.id u.nairobi_indicative_fee t.rates })
              o
            ≡ (ok p, t')
          → (t'
              ≡ record { method = some m; rates = set_fees m.id u.nairobi_indicative_fee t.rates })
            × (get_policy zones (record {
              method = some m;
              rates = set_fees m.id u.nairobi_indicative_fee t.rates;
            })
                ≡ ok p)
      read_back m none r k = cc
      read_back m (some q) r k = elim (Bool-cases fails.commits) [
        | inl lost ↦ absurd (ground arith)
        | inr kept ↦
            let made : prepare q ≡ p = ground arith in
            (ground arith, unfold get_policy in (rw (get_policy, r) (ap ok made)))
      ]

      stepped :
          is_valid_update u ≡ true
          → (m : Method) → t.method ≡ some m
          → versioned zones fails now u admin t (some m) ≡ (ok p, t')
          → IsUpdated u admin t t' p
      stepped good m found k =
          elim (Bool-cases (is_current m && m.policy_version ==ℤ u.expected_version)) [
            | inr stale ↦ absurd (ground arith)
            | inl fresh ↦ elim (Bool-cases fails.updates_rates) [
              | inl down ↦ absurd (ground arith)
              | inr up ↦ elim (Bool-cases (count_fees m.id t.rates == 1)) [
                | inr others ↦ absurd (ground arith)
                | inl one ↦
                    let m' = new_method zones fails now u admin m in
                    let (rows, seen) = read_back m' _ refl (ground arith) in
                    record {
                      before = m;
                      stored = found;
                      version = ground (arith, ==ℤ_iff m.policy_version u.expected_version);
                      valid = good;
                      after = ap (λ x. x.method) rows;
                      fees = ap (λ x. x.rates) rows;
                      seen = ap (get_policy zones) rows ∙ seen;
                    }
              ]
            ]
          ]

  next_version : (v w : ℤ) → v ≡ w → (v +ℤ pos 1) ==ℤ w ≡ false
  next_version v w e = elim (Bool-cases ((v +ℤ pos 1) ==ℤ w)) [
    | inr h ↦ h
    | inl h ↦
        let same = (==ℤ_iff (v +ℤ pos 1) w).0 h in
        let cycle = same ∙ sym e in
        absurd (omega (arith, +ℤ_parts v (pos 1), ap pos_part cycle, ap neg_part cycle))
  ]

  -- Of two updates that were made from the same version, only the first takes place: once it has
  -- succeeded, the other one, if valid, is answered with the conflict and changes nothing, unless
  -- the database fails before it looks.
  pub update_policy-conflict :
      (u v : PolicyUpdate) (admin other_admin : ℤ) (t : Tables) {p : Policy} {t' : Tables}
      → update_policy zones fails now u admin t ≡ (ok p, t')
      → v.expected_version ≡ u.expected_version
      → is_valid_update v ≡ true
      → fails.begins || fails.updates_method ≡ false
      → update_policy zones fails now v other_admin t' ≡ (err conflict, t')
  unfolding update_policy
  update_policy-conflict u v admin other_admin t {p} {t'} e same good up =
      let d = update_policy-IsUpdated u admin t (unfold update_policy in e) in
      let stale = next_version d.before.policy_version v.expected_version (d.version ∙ sym same) in
      rw (good, up) (met t'.method d.before d.after stale)
    where
      met :
          (o : Option Method) (m : Method)
          → o ≡ some (new_method zones fails now u admin m)
          → (m.policy_version +ℤ pos 1) ==ℤ v.expected_version ≡ false
          → versioned zones fails now v other_admin t' o ≡ (err conflict, t')
      met none m h stale = refl
      met (some x) m h stale =
          let same_version : x.policy_version ≡ m.policy_version +ℤ pos 1 = ground arith in
          let no_match : x.policy_version ==ℤ v.expected_version ≡ false =
            ap (λ y. y ==ℤ v.expected_version) same_version ∙ stale in
          ground (arith, no_match)

  -- An update that fails, at whatever statement, changes nothing.
  pub update_policy_atomic :
      (u : PolicyUpdate) (admin : ℤ) (t : Tables) {e : Error} {t' : Tables}
      → update_policy zones fails now u admin t ≡ (err e, t')
      → t' ≡ t
  unfolding update_policy
  update_policy_atomic u admin t {e} {t'} h = elim (Bool-cases (is_valid_update u)) [
    | inr bad ↦ ground arith
    | inl good ↦ elim (Bool-cases (fails.begins || fails.updates_method)) [
      | inl down ↦ ground arith
      | inr ready ↦ of_method t.method (ground arith)
    ]
  ]
    where
      priced_again : Method → Tables
      priced_again m = record {
        method = some (new_method zones fails now u admin m);
        rates = set_fees m.id u.nairobi_indicative_fee t.rates;
      }

      of_read :
          (a : Tables) (o : Option Policy) → committed zones fails now t a o ≡ (err e, t') → t' ≡ t
      of_read a none k = ground arith
      of_read a (some q) k = ground arith

      of_method : (o : Option Method) → versioned zones fails now u admin t o ≡ (err e, t') → t' ≡ t
      of_method none k = ground arith
      of_method (some m) k =
          elim (Bool-cases (is_current m && m.policy_version ==ℤ u.expected_version)) [
            | inr stale ↦ ground arith
            | inl fresh ↦ elim (Bool-cases fails.updates_rates) [
              | inl down ↦ ground arith
              | inr kept ↦ elim (Bool-cases (count_fees m.id t.rates == 1)) [
                | inr others ↦ ground arith
                | inl one ↦
                    of_read (priced_again m) (read_policy zones (priced_again m)) (ground arith)
              ]
            ]
          ]
