-- ===== src/Text/Trim.antt =====
-- `TrimSpace` leaves no space at either end, and does nothing the second time.
use zentora_backend.Prelude.{◌≡◌, refl, false, [], ◌∷◌, arith, ◌≤◌, length}
use zentora_backend.Text.{Text, is_space, trim_left, trim_right, trim_space}

-- No space in front.
abbrev IsLeftTrimmed : Text → Type 0
IsLeftTrimmed [] = Unit
IsLeftTrimmed (c ∷ s) = is_space c ≡ false

trim_left_trims : (s : Text) → IsLeftTrimmed (trim_left s)
unfolding trim_left
trim_left_trims [] = tt
trim_left_trims (c ∷ s) = ground (arith, trim_left_trims s)

trim_left_id : (s : Text) → IsLeftTrimmed s → trim_left s ≡ s
unfolding trim_left
trim_left_id [] h = refl
trim_left_id (c ∷ s) h = ground arith

trim_right-IsLeftTrimmed : (s : Text) → IsLeftTrimmed s → IsLeftTrimmed (trim_right s)
unfolding trim_right
trim_right-IsLeftTrimmed [] h = tt
trim_right-IsLeftTrimmed (c ∷ s) h = ground arith

trim_right_idem : (s : Text) → trim_right (trim_right s) ≡ trim_right s
unfolding trim_right
trim_right_idem [] = refl
trim_right_idem (c ∷ s) = ground (arith, trim_right_idem s)

pub trim_space_idem : (s : Text) → trim_space (trim_space s) ≡ trim_space s
unfolding trim_space
trim_space_idem s =
    rw
      (trim_left_id (trim_right (trim_left s))
        (trim_right-IsLeftTrimmed (trim_left s) (trim_left_trims s)))
      (trim_right_idem (trim_left s))

length-trim_left : (s : Text) → length (trim_left s) ≤ length s
unfolding trim_left
length-trim_left [] = omega arith
length-trim_left (c ∷ s) = ground (arith, length-trim_left s)

length-trim_right : (s : Text) → length (trim_right s) ≤ length s
unfolding trim_right
length-trim_right [] = omega arith
length-trim_right (c ∷ s) = ground (arith, length-trim_right s)

pub length-trim_space : (s : Text) → length (trim_space s) ≤ length s
unfolding trim_space
length-trim_space s = omega (arith, length-trim_left s, length-trim_right (trim_left s))
