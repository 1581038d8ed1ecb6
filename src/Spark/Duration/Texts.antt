-- ===== src/Spark/Duration/Texts.antt =====
-- Numerals with a unit, on the way to time.ParseDuration.
use livy_next.Prelude.{
  ℕ, zero, suc, ◌+◌, ◌%◌, ◌/◌, ◌≡◌, refl, ◌∙◌, ap, true, false, [], ◌∷◌, ◌++◌, none, Text, ltb,
  Bool-cases, inl, inr, arith,
}
use livy_next.Strconv.{is_digit}
use livy_next.Strconv.Decimal.{show_from, show_nat}
use livy_next.Net.{is_space, trim_space, trim_left_space, trim_right_space}
use livy_next.Net.Parts.{trim_right_space-cons}
use livy_next.Spark.Duration.{lower_byte, to_lower, before_d, with_byte}

-- No white space and no capital letter.
abbrev pub IsLower : Text → Type 0
IsLower [] = Unit {0}
IsLower (c ∷ s) = (is_space c ≡ false) × (lower_byte c ≡ c) × IsLower s

abbrev pub AllDigits : Text → Type 0
AllDigits [] = Unit {0}
AllDigits (c ∷ s) = (is_digit c ≡ true) × AllDigits s

AllDigits-show_from : (f n : ℕ) (s : Text) → AllDigits s → AllDigits (show_from f n s)
unfolding show_from
AllDigits-show_from zero n s h = h
AllDigits-show_from (suc f) n s h =
    let e : is_digit (b'0' + n % 10) ≡ true = ground arith in
    elim (Bool-cases (ltb n 10)) [
      | inl k ↦ rw (k, show_from) (e, h)
      | inr k ↦ rw (k, show_from) (AllDigits-show_from f (n / 10) ((b'0' + n % 10) ∷ s) (e, h))
    ]

pub AllDigits-show_nat : (n : ℕ) → AllDigits (show_nat n)
unfolding show_nat
AllDigits-show_nat n = AllDigits-show_from (n + 1) n [] tt

pub digits-IsLower : (s : Text) → AllDigits s → IsLower s
unfolding is_space lower_byte
digits-IsLower [] h = tt
digits-IsLower (c ∷ s) (e, h) = (ground arith, ground arith, digits-IsLower s h)

pub append-IsLower : (s t : Text) → IsLower s → IsLower t → IsLower (s ++ t)
append-IsLower [] t h k = k
append-IsLower (c ∷ s) t (a, b, h) k = (a, b, append-IsLower s t h k)

to_lower-IsLower : (s : Text) → IsLower s → to_lower s ≡ s
unfolding to_lower
to_lower-IsLower [] h = refl
to_lower-IsLower (c ∷ s) (a, b, h) = rw (b, to_lower-IsLower s h) refl

trim_right_space-IsLower : (s : Text) → IsLower s → trim_right_space s ≡ s
trim_right_space-IsLower [] h = unfold trim_right_space in refl
trim_right_space-IsLower (c ∷ s) (a, b, h) =
    trim_right_space-cons c s a ∙ ap (◌∷◌ c) (trim_right_space-IsLower s h)

trim_left_space-IsLower : (s : Text) → IsLower s → trim_left_space s ≡ s
unfolding trim_left_space
trim_left_space-IsLower [] h = refl
trim_left_space-IsLower (c ∷ s) (a, b, h) = rw a refl

-- Neither ToLower nor TrimSpace changes it.
pub trim_space-to_lower : (s : Text) → IsLower s → trim_space (to_lower s) ≡ s
unfolding trim_space
trim_space-to_lower s h =
    rw (to_lower-IsLower s h, trim_left_space-IsLower s h) (trim_right_space-IsLower s h)

-- What stands before does not make it end in a d.
pub before_d-append :
    (s : Text) (c : ℕ) (t : Text) → before_d (c ∷ t) ≡ none → before_d (s ++ c ∷ t) ≡ none
unfolding before_d with_byte
before_d-append [] c t h = h
before_d-append (d ∷ []) c t h = rw h refl
before_d-append (d ∷ e ∷ s) c t h = rw (before_d-append (e ∷ s) c t h) refl
