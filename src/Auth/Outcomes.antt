-- ===== src/Auth/Outcomes.antt =====
-- Inversions of the guards of the authentication service: what went well passed its tests.
use zentora_backend.Prelude.{◌≡◌, Bool, true, false, if◌then◌else◌}
use zentora_backend.Auth.{Result, ok, err, Error}

module _ {A S : Type 0} where
  pub unless_ok :
      {a : A} {s' : S} (b : Bool) (e : Error) (s : S) (y : Result A × S)
      → (if b then (err e, s) else y) ≡ (ok a, s')
      → y ≡ (ok a, s')
  unless_ok true e s y h = absurd cc
  unless_ok false e s y h = h

  pub when_ok :
      {a : A} {s' : S} (b : Bool) (e : Error) (s : S) (y : Result A × S)
      → (if b then y else (err e, s)) ≡ (ok a, s')
      → y ≡ (ok a, s')
  when_ok true e s y h = h
  when_ok false e s y h = absurd cc
