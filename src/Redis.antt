-- ===== src/Redis.antt =====
-- Redis, as the sessions, the limits and the cart use it: an interface with the laws that its
-- documentation gives. A key holds a number or a value, and may have a time at which it expires.
pub mod Instance
use zentora_backend.Prelude.{
  ℕ, suc, ◌≡◌, Bool, true, false, Option, none, some, if◌then◌else◌, leb, List, any, All,
}
use zentora_backend.Text.{Text, text_eq, has_prefix}

-- The two kinds of values that are stored: counters, and what JSON or "1" encodes.
pub data Value (P : Type 0) : Type 0 where
  number : ℕ → Value P
  payload : P → Value P

pub record Entry (P : Type 0) : Type 0 where
  pub value : Value P
  pub expires_at : Option ℕ

-- R is the state of the server. `entry` shows the key as it was last written, also when it has
-- expired since.
pub record Redis (R P : Type 0) : Type 0 where
  pub entry : Text → R → Option (Entry P)
  -- INCR at a time: the reply and the state.
  pub incr : Text → ℕ → R → ℕ × R
  -- EXPIRE, here with the time at which the key is to expire.
  pub expire : Text → ℕ → R → R
  -- SET with a time to live.
  pub set : Text → P → ℕ → R → R
  pub del : Text → R → R
  -- The keys that SCAN yields for a prefix followed by `*`.
  pub scan : Text → ℕ → R → List Text

abbrev pub is_expired : ℕ → Option ℕ → Bool
is_expired now none = false
is_expired now (some t) = leb t now

module _ {P : Type 0} where
  -- The entry that a command meets at a time.
  abbrev pub live : ℕ → Option (Entry P) → Option (Entry P)
  live now none = none
  live now (some e) = if is_expired now e.expires_at then none else some e

  abbrev pub number_in : Value P → ℕ
  number_in (number n) = n
  number_in (payload p) = 0

  abbrev pub number_of : Option (Entry P) → ℕ
  number_of none = 0
  number_of (some e) = number_in e.value

  abbrev pub expiry_of : Option (Entry P) → Option ℕ
  expiry_of none = none
  expiry_of (some e) = e.expires_at

  abbrev pub expiring : ℕ → Option (Entry P) → Option (Entry P)
  expiring t none = none
  expiring t (some e) = some (record e { expires_at = some t })

  abbrev pub IsNumber : Value P → Type 0
  IsNumber (number n) = Unit
  IsNumber (payload p) = ⊥

  abbrev pub is_present : Option (Entry P) → Bool
  is_present none = false
  is_present (some e) = true

  -- No value, or a number: what INCR takes.
  abbrev pub IsCounter : Option (Entry P) → Type 0
  IsCounter none = Unit
  IsCounter (some e) = IsNumber e.value

module _ {R P : Type 0} (redis : Redis R P) where
  pub record IsRedis : Type 0 where
    pub incr-reply :
        (k : Text) (now : ℕ) (r : R)
        → IsCounter (live now (redis.entry k r))
        → (redis.incr k now r).0 ≡ suc (number_of (live now (redis.entry k r)))
    pub incr-entry :
        (k : Text) (now : ℕ) (r : R)
        → IsCounter (live now (redis.entry k r))
        → redis.entry k (redis.incr k now r).1
          ≡ some (record {
            value = number (suc (number_of (live now (redis.entry k r))));
            expires_at = expiry_of (live now (redis.entry k r));
          })
    pub incr-other :
        (k q : Text) (now : ℕ) (r : R)
        → text_eq q k ≡ false
        → redis.entry q (redis.incr k now r).1 ≡ redis.entry q r
    pub expire-entry :
        (k : Text) (t : ℕ) (r : R)
        → redis.entry k (redis.expire k t r) ≡ expiring t (redis.entry k r)
    pub expire-other :
        (k q : Text) (t : ℕ) (r : R)
        → text_eq q k ≡ false
        → redis.entry q (redis.expire k t r) ≡ redis.entry q r
    pub set-entry :
        (k : Text) (p : P) (t : ℕ) (r : R)
        → redis.entry k (redis.set k p t r)
          ≡ some (record { value = payload p; expires_at = some t })
    pub set-other :
        (k q : Text) (p : P) (t : ℕ) (r : R)
        → text_eq q k ≡ false
        → redis.entry q (redis.set k p t r) ≡ redis.entry q r
    pub del-entry : (k : Text) (r : R) → redis.entry k (redis.del k r) ≡ none
    pub del-other :
        (k q : Text) (r : R) → text_eq q k ≡ false → redis.entry q (redis.del k r) ≡ redis.entry q r
    -- SCAN yields every key of the prefix that is there throughout, and no other prefix's.
    pub scan-finds :
        (p q : Text) (now : ℕ) (r : R)
        → has_prefix q p ≡ true
        → is_present (live now (redis.entry q r)) ≡ true
        → any (λ k. text_eq q k) (redis.scan p now r) ≡ true
    pub scan-prefix :
        (p : Text) (now : ℕ) (r : R) → All (λ k. has_prefix k p ≡ true) (redis.scan p now r)
