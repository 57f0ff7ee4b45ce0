-- ===== src/Limits/Tests.antt =====
-- The limits of internal/pkg/session/redis_store.go on a server in memory.
use zentora_backend.Prelude.{ℕ, ◌≡◌, refl, true, false, none, some, List, [], ◌∷◌, map, arith}
use zentora_backend.Prelude.Int.{pos}
use zentora_backend.Text.{Text, lit}
use zentora_backend.Redis.{number}
use zentora_backend.Redis.Instance.{Memory, lookup, memory, memory-IsRedis}
use zentora_backend.Limits.{
  Failures, Result, ok, err, wait_a_minute, too_many, check_limit, check_otp_attempt,
  check_email_verification_attempt, otp_key,
}
use zentora_backend.Limits.Windows.{
  answers, spec_answers, times, passes, answers-refine, answers-bounded, answers_stuck,
}

abbrev fine : Failures
fine = record { incrs = false; expires = false; gets = false; sets = false; dels = false }

abbrev undated : Failures
undated = record { incrs = false; expires = true; gets = false; sets = false; dels = false }

abbrev key : Text
key = lit "ratelimit:otp:7"

abbrev empty : Memory Text
empty = []

-- Two attempts in a minute, the third is refused, the fourth opens a window.
abbrev visits : List (ℕ × Failures)
visits = (0, fine) ∷ (10, fine) ∷ (20, fine) ∷ (60, fine) ∷ []

abbrev early : List (ℕ × Failures)
early = (10, fine) ∷ (20, fine) ∷ []

abbrev forgotten : Memory Text
forgotten = (key, some (record { value = number 5; expires_at = none })) ∷ []

answers-refine_example :
    answers memory key 2 60 visits empty ≡ map ok (spec_answers 2 60 (times memory visits) none)
answers-refine_example =
    answers-refine memory memory-IsRedis key 2 60 visits empty none
      ((refl, refl), ((refl, refl), ((refl, refl), ((refl, refl), tt)))) (refl, tt)

spec_answers-visits : spec_answers 2 60 (times memory visits) none ≡ true ∷ true ∷ false ∷ true ∷ []
unfolding spec_answers
spec_answers-visits = refl

answers-bounded_example : passes (answers memory key 2 60 ((0, fine) ∷ early) empty) ≡ 2
answers-bounded_example =
    answers-bounded memory memory-IsRedis key 2 60 (0, fine) early empty
      ((refl, refl), ((refl, refl), ((refl, refl), tt))) refl (omega arith, (omega arith, tt))

answers_stuck_example : passes (answers memory key 5 600 visits forgotten) ≡ 0
answers_stuck_example =
    answers_stuck memory memory-IsRedis key 5 600 5 visits forgotten
      (refl, (refl, (refl, (refl, tt)))) refl (omega arith) (omega arith)

-- The counter of a window whose EXPIRE failed has no expiry.
undated_counter :
    lookup key (check_otp_attempt memory undated 0 (pos 7) empty).1
    ≡ some (record { value = number 1; expires_at = none })
unfolding check_otp_attempt zentora_backend.Limits.count_attempt zentora_backend.Text.Decimal.itoa
undated_counter = refl

-- A second request for a code in one minute.
soon :
    (check_email_verification_attempt memory fine 30
      (lit "a")
      (check_email_verification_attempt memory fine 0 (lit "a") empty).1).0
    ≡ err wait_a_minute
unfolding check_email_verification_attempt zentora_backend.Limits.count_attempt
soon = refl
