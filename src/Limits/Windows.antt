-- ===== src/Limits/Windows.antt =====
-- The limits as fixed windows: what they are meant to be, that they are it, and what becomes of a
-- counter that lost its expiry.
use zentora_backend.Prelude.{
  ℕ, suc, ◌+◌, ◌-◌, ◌==◌, ◌≤◌, ◌<◌, min, ◌≡◌, refl, sym, ap, ◌∙◌, inl, inr, Bool, true, false,
  Option, none, some, List, [], ◌∷◌, map, if◌then◌else◌, leb, arith, Bool-cases, All, length, subst,
}
use zentora_backend.Text.{Text}
use zentora_backend.Redis.{
  Redis, Entry, number, live, number_of, expiry_of, expiring, IsCounter, IsRedis,
}
use zentora_backend.Limits.{Failures, Result, ok, err, count_attempt, check_limit, within}

-- The specification: a window opens with the first attempt after the last window has closed, and
-- its attempts are counted up to its end.
abbrev pub Window : Type 0
Window = Option (ℕ × ℕ)

abbrev pub open_at : ℕ → Window → Window
open_at now none = none
open_at now (some w) = if leb w.1 now then none else some w

abbrev pub counted_in : ℕ → ℕ → Window → ℕ × ℕ
counted_in now span none = (1, now + span)
counted_in now span (some w) = (suc w.0, w.1)

abbrev pub attempt : ℕ → ℕ → Window → ℕ × ℕ
attempt span now w = counted_in now span (open_at now w)

-- The answers of the specification at some times.
unfoldable pub spec_answers : ℕ → ℕ → List ℕ → Window → List Bool
spec_answers max_ span [] w = []
spec_answers max_ span (t ∷ ts) w =
    let next = attempt span t w in leb next.0 max_ ∷ spec_answers max_ span ts (some next)

-- How many of the attempts the specification lets pass.
abbrev pub passed : List Bool → ℕ
passed [] = 0
passed (true ∷ bs) = suc (passed bs)
passed (false ∷ bs) = passed bs

spec_answers_before :
    (max_ span : ℕ) (ts : List ℕ) (w : ℕ × ℕ)
    → All (λ t. t < w.1) ts
    → passed (spec_answers max_ span ts (some w)) ≡ min (length ts) (max_ - w.0)
unfolding spec_answers
spec_answers_before max_ span [] w h = omega arith
spec_answers_before max_ span (t ∷ ts) w h =
    let running : leb w.1 t ≡ false = ground (arith, h.0) in
    let rest = spec_answers_before max_ span ts (suc w.0, w.1) h.1 in
    elim (Bool-cases (leb (suc w.0) max_)) [
      | inl e ↦ rw (running, e) ground (arith, rest, e)
      | inr e ↦ rw (running, e) ground (arith, rest, e)
    ]

abbrev pub passes : List (Result Bool) → ℕ
passes [] = 0
passes (ok true ∷ xs) = suc (passes xs)
passes (ok false ∷ xs) = passes xs
passes (err e ∷ xs) = passes xs

passes-map_ok : (bs : List Bool) → passes (map ok bs) ≡ passed bs
passes-map_ok [] = refl
passes-map_ok (true ∷ bs) = ap suc (passes-map_ok bs)
passes-map_ok (false ∷ bs) = passes-map_ok bs

module _ {R : Type 0} (redis : Redis R Text) where
  -- The answers of the code at some times, and the failures that it meets.
  pub answers : Text → ℕ → ℕ → List (ℕ × Failures) → R → List (Result Bool)
  answers k max_ span [] r = []
  answers k max_ span (t ∷ ts) r =
      let next = check_limit redis t.1 t.0 k max_ span r in next.0 ∷ answers k max_ span ts next.1

  abbrev pub times : List (ℕ × Failures) → List ℕ
  times [] = []
  times (t ∷ ts) = t.0 ∷ times ts

  -- Neither INCR nor EXPIRE fails.
  abbrev pub AreServed : List (ℕ × Failures) → Type 0
  AreServed = All (λ t. (t.1.incrs ≡ false) × (t.1.expires ≡ false))

  abbrev pub entry_of : Window → Option (Entry Text)
  entry_of none = none
  entry_of (some w) = some (record { value = number w.0; expires_at = some w.1 })

  -- The key holds the window, which has been counted in at least once.
  abbrev pub IsStarted : Window → Type 0
  IsStarted none = Unit
  IsStarted (some w) = 1 ≤ w.0

  abbrev pub Holds : Text → R → Window → Type 0
  Holds k r w = (redis.entry k r ≡ entry_of w) × IsStarted w

  live-entry_of : (now : ℕ) (w : Window) → live now (entry_of w) ≡ entry_of (open_at now w)
  live-entry_of now none = refl
  live-entry_of now (some w) = elim (Bool-cases (leb w.1 now)) [
    | inl e ↦ rw e refl
    | inr e ↦ rw e refl
  ]

  IsStarted-open_at : (now : ℕ) (w : Window) → IsStarted w → IsStarted (open_at now w)
  IsStarted-open_at now none h = tt
  IsStarted-open_at now (some w) h = elim (Bool-cases (leb w.1 now)) [
    | inl e ↦ rw e tt
    | inr e ↦ rw e h
  ]

  module _ (laws : IsRedis redis) where
    -- INCR on a key whose live value is known.
    incr_live :
        (k : Text) (now : ℕ) (r : R) (e : Option (Entry Text)) (l : Window)
        → redis.entry k r ≡ e
        → live now e ≡ entry_of l
        → ((redis.incr k now r).0 ≡ suc (number_of (entry_of l)))
          × (redis.entry k (redis.incr k now r).1
              ≡ some (record {
                value = number (suc (number_of (entry_of l)));
                expires_at = expiry_of (entry_of l);
              }))
    incr_live k now r e l h g =
        let same : live now (redis.entry k r) ≡ entry_of l = ap (live now) h ∙ g in
        let counter = is_counter l in
        (
          laws.incr-reply k now r (subst_counter same counter) ∙ ap (λ x. suc (number_of x)) same,
          laws.incr-entry k now r (subst_counter same counter)
              ∙ ap
                  (λ x.
                    some (record { value = number (suc (number_of x)); expires_at = expiry_of x }))
                  same,
        )
      where
        is_counter : (w : Window) → IsCounter (entry_of w)
        is_counter none = tt
        is_counter (some w) = tt

        subst_counter : {x y : Option (Entry Text)} → x ≡ y → IsCounter y → IsCounter x
        subst_counter p c = subst IsCounter (sym p) c

    count_attempt-Holds :
        (k : Text) (now span : ℕ) (fails : Failures) (r : R) (w : Window)
        → fails.incrs ≡ false
        → fails.expires ≡ false
        → Holds k r w
        → ((count_attempt redis fails now k span r).0 ≡ ok (attempt span now w).0)
          × Holds k (count_attempt redis fails now k span r).1 (some (attempt span now w))
    unfolding count_attempt
    count_attempt-Holds k now span fails r w fi fe h = opened (open_at now w) refl
      where
        opened :
            (o : Window)
            → open_at now w ≡ o
            → ((count_attempt redis fails now k span r).0 ≡ ok (counted_in now span o).0)
              × Holds k (count_attempt redis fails now k span r).1 (some (counted_in now span o))
        opened none e =
            let a = incr_live k now r (entry_of w) none h.0 (live-entry_of now w ∙ ap entry_of e) in
            rw (fi, fe, a.0)
              (
                refl,
                (
                  laws.expire-entry k (now + span) (redis.incr k now r).1
                      ∙ ap (expiring (now + span)) a.1,
                  omega arith,
                ),
              )
        opened (some v) e =
            let a =
              incr_live k now r (entry_of w) (some v) h.0 (live-entry_of now w ∙ ap entry_of e) in
            let started : 1 ≤ v.0 = subst IsStarted e (IsStarted-open_at now w h.1) in
            let later : (suc v.0 == 1) ≡ false = ground (arith, started) in
            rw (fi, a.0, later) (refl, (a.1, omega arith))

    check_limit-Holds :
        (k : Text) (now max_ span : ℕ) (fails : Failures) (r : R) (w : Window)
        → fails.incrs ≡ false
        → fails.expires ≡ false
        → Holds k r w
        → ((check_limit redis fails now k max_ span r).0 ≡ ok (leb (attempt span now w).0 max_))
          × Holds k (check_limit redis fails now k max_ span r).1 (some (attempt span now w))
    unfolding check_limit
    check_limit-Holds k now max_ span fails r w fi fe h =
        let c = count_attempt-Holds k now span fails r w fi fe h in
        counted (count_attempt redis fails now k span r) refl c
      where
        counted :
            (c : Result ℕ × R)
            → count_attempt redis fails now k span r ≡ c
            → (c.0 ≡ ok (attempt span now w).0) × Holds k c.1 (some (attempt span now w))
            → ((within redis fails now max_ c).0 ≡ ok (leb (attempt span now w).0 max_))
              × Holds k (within redis fails now max_ c).1 (some (attempt span now w))
        counted (ok n, q) e (a, h) = (cc, h)
        counted (err x, q) e (a, h) = absurd cc

    -- Whatever the times of the requests are, the code answers as the fixed windows do, when the key
    -- holds the window at the start and neither INCR nor EXPIRE fails.
    pub answers-refine :
        (k : Text) (max_ span : ℕ) (ts : List (ℕ × Failures)) (r : R) (w : Window)
        → AreServed ts
        → Holds k r w
        → answers k max_ span ts r ≡ map ok (spec_answers max_ span (times ts) w)
    unfolding answers spec_answers
    answers-refine k max_ span [] r w s h = refl
    answers-refine k max_ span (t ∷ ts) r w s h =
        let c = check_limit-Holds k t.0 max_ span t.1 r w s.0.0 s.0.1 h in
        let rest =
          answers-refine k max_ span ts (check_limit redis t.1 t.0 k max_ span r).1
            (some (attempt span t.0 w)) s.1 c.1 in
        cc

    -- From the end of its window on, an attempt is answered as a first one, when neither command
    -- fails.
    pub check_limit_reopens :
        (k : Text) (now max_ span : ℕ) (fails : Failures) (r : R) (w : ℕ × ℕ)
        → fails.incrs ≡ false
        → fails.expires ≡ false
        → Holds k r (some w)
        → w.1 ≤ now
        → (check_limit redis fails now k max_ span r).0 ≡ ok (leb 1 max_)
    check_limit_reopens k now max_ span fails r w fi fe h late =
        let closed : leb w.1 now ≡ true = ground (arith, late) in
        let reopened : open_at now (some w) ≡ none = rw closed refl in
        let c = check_limit-Holds k now max_ span fails r (some w) fi fe h in
        c.0 ∙ ap (λ o. ok (leb (counted_in now span o).0 max_)) reopened

    -- Of the attempts from a first one on an unused key up to its window's end, the code lets pass as
    -- many as there are, up to the limit, when neither INCR nor EXPIRE fails.
    pub answers-bounded :
        (k : Text) (max_ span : ℕ) (t : ℕ × Failures) (ts : List (ℕ × Failures)) (r : R)
        → AreServed (t ∷ ts)
        → redis.entry k r ≡ none
        → All (λ u. u < t.0 + span) (times ts)
        → passes (answers k max_ span (t ∷ ts) r) ≡ min (suc (length ts)) max_
    unfolding answers spec_answers
    answers-bounded k max_ span t ts r s unused h =
        let refined = answers-refine k max_ span (t ∷ ts) r none s (unused, tt) in
        let inside = spec_answers_before max_ span (times ts) (1, t.0 + span) h in
        let counted = length-times ts in
        ap passes refined
        ∙ passes-map_ok (spec_answers max_ span (times (t ∷ ts)) none)
        ∙ elim (Bool-cases (leb 1 max_)) [
          | inl e ↦ rw e ground (arith, inside, e, counted)
          | inr e ↦ rw e ground (arith, inside, e, counted)
        ]
      where
        length-times : (us : List (ℕ × Failures)) → length (times us) ≡ length us
        length-times [] = refl
        length-times (u ∷ us) = ap suc (length-times us)

    -- A counter without an expiry that has reached the limit refuses every later attempt, at
    -- whatever time, when INCR does not fail.
    pub answers_stuck :
        (k : Text) (max_ span n : ℕ) (ts : List (ℕ × Failures)) (r : R)
        → All (λ t. t.1.incrs ≡ false) ts
        → redis.entry k r ≡ some (record { value = number n; expires_at = none })
        → 1 ≤ n
        → max_ ≤ n
        → passes (answers k max_ span ts r) ≡ 0
    unfolding answers check_limit count_attempt
    answers_stuck k max_ span n [] r s h started full = refl
    answers_stuck k max_ span n (t ∷ ts) r s h started full =
        let full_counter : Entry Text = record { value = number n; expires_at = none } in
        let counter : IsCounter (live t.0 (redis.entry k r)) =
          subst (λ e. IsCounter (live t.0 e)) (sym h) tt in
        let same : live t.0 (redis.entry k r) ≡ some full_counter = ap (live t.0) h in
        let reply : (redis.incr k t.0 r).0 ≡ suc n =
          laws.incr-reply k t.0 r counter ∙ ap (λ x. suc (number_of x)) same in
        let entry : redis.entry k (redis.incr k t.0 r).1
            ≡ some (record { value = number (suc n); expires_at = none }) =
          laws.incr-entry k t.0 r counter
          ∙ ap (λ x. some (record { value = number (suc (number_of x)); expires_at = expiry_of x }))
              same in
        let later : (suc n == 1) ≡ false = ground (arith, started) in
        let refused : leb (suc n) max_ ≡ false = ground (arith, full) in
        let rest =
          answers_stuck k max_ span (suc n) ts (redis.incr k t.0 r).1 s.1 entry
            (omega (arith, started)) (omega (arith, full)) in
        rw (s.0, reply, later, refused) rest
