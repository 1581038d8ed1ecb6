-- ===== src/Spark/Duration/Units.antt =====
-- The durations that numerals stand for, with a unit and without.
use livy_next.Prelude.{
  ℕ, ◌*◌, ◌<◌, ◌≡◌, refl, sym, ◌∙◌, ap, subst, ◌+◌, true, false, [], ◌∷◌, ◌++◌, Option, none, Text,
  codes, text_eq, inl, inr, arith,
}
use livy_next.Prelude.Int.{ℤ, pos, ◌*ℤ◌}
use livy_next.Prelude.Int64.{wrap64, sign_bit}
use livy_next.Strconv.{is_digit}
use livy_next.Strconv.Decimal.{show_nat, digits_value-show_nat, atoi-show_nat}
use livy_next.Net.{is_space}
use livy_next.Time.Duration.{parse_duration}
use livy_next.Time.Duration.Units.{
  UnitName, nanoseconds, microseconds, milliseconds as millis, seconds, minutes, hours, unit_text,
  unit_size, parse_duration-unit,
}
use livy_next.Time.Duration.Plain.{parse_duration-numeral}
use livy_next.Spark.Duration.{
  parsed, parse_spark_duration, is_disabled, day_match, before_d, lower_byte, not_days, with_unit,
  with_byte, milliseconds,
}
use livy_next.Spark.Duration.Texts.{
  IsLower, AllDigits, AllDigits-show_nat, digits-IsLower, append-IsLower, trim_space-to_lower,
  before_d-append,
}

unit-IsLower : (u : UnitName) → IsLower (unit_text u)
unfolding is_space lower_byte
unit-IsLower nanoseconds = (refl, refl, (refl, refl, tt))
unit-IsLower microseconds = (refl, refl, (refl, refl, tt))
unit-IsLower millis = (refl, refl, (refl, refl, tt))
unit-IsLower seconds = (refl, refl, tt)
unit-IsLower minutes = (refl, refl, tt)
unit-IsLower hours = (refl, refl, tt)

unit-before_d : (s : Text) (u : UnitName) → before_d (s ++ unit_text u) ≡ none
unit-before_d s nanoseconds = before_d-append s b'n' (codes "s") (unfold before_d with_byte in refl)
unit-before_d s microseconds =
    before_d-append s b'u' (codes "s") (unfold before_d with_byte in refl)
unit-before_d s millis = before_d-append s b'm' (codes "s") (unfold before_d with_byte in refl)
unit-before_d s seconds = before_d-append s b's' [] (unfold before_d in refl)
unit-before_d s minutes = before_d-append s b'm' [] (unfold before_d in refl)
unit-before_d s hours = before_d-append s b'h' [] (unfold before_d in refl)

digit-is_disabled : (c : ℕ) (s : Text) → is_digit c ≡ true → is_disabled (c ∷ s) ≡ false
unfolding is_disabled text_eq
digit-is_disabled c s h = ground arith

digits-before_d : (s : Text) → AllDigits s → before_d s ≡ none
unfolding before_d with_byte
digits-before_d [] h = refl
digits-before_d (c ∷ []) (e, h) = ground arith
digits-before_d (c ∷ d ∷ s) (e, h) = rw (digits-before_d (d ∷ s) h) refl

module _ (fraction : ℕ → ℕ → ℕ → ℕ) (days : Text → Option ℤ) where
  -- A text that begins with a digit and is no number of days.
  read_lem :
      (c : ℕ) (s : Text)
      → is_digit c ≡ true
      → IsLower (c ∷ s)
      → before_d (c ∷ s) ≡ none
      → parse_spark_duration fraction days (c ∷ s)
        ≡ with_unit (c ∷ s) (parse_duration fraction (c ∷ s))
  unfolding parse_spark_duration day_match
  read_lem c s a l b =
      rw (trim_space-to_lower (c ∷ s) l, digit-is_disabled c s a)
        (rw (b, day_match) (unfold not_days in refl))

  -- ParseSparkDuration of a decimal numeral followed by ns, us, ms, s, m or h is that many units,
  -- if they are fewer than 2 ^ 63 nanoseconds, whatever the floating-point arithmetic.
  pub units_lem :
      (u : UnitName) (n : ℕ)
      → n * unit_size u < sign_bit
      → parse_spark_duration fraction days (show_nat n ++ unit_text u)
        ≡ parsed (pos (n * unit_size u))
  units_lem u n h =
      let (d, t, k, p, v) = digits_value-show_nat n in
      let l : IsLower (show_nat n ++ unit_text u) =
        append-IsLower (show_nat n) (unit_text u)
          (digits-IsLower (show_nat n) (AllDigits-show_nat n)) (unit-IsLower u) in
      let q : show_nat n ++ unit_text u ≡ (b'0' + d) ∷ (t ++ unit_text u) =
        ap (λ s. s ++ unit_text u) p in
      let r : parse_spark_duration fraction days ((b'0' + d) ∷ (t ++ unit_text u))
          ≡ with_unit ((b'0' + d) ∷ (t ++ unit_text u))
              (parse_duration fraction ((b'0' + d) ∷ (t ++ unit_text u))) =
        read_lem (b'0' + d) (t ++ unit_text u) (ground arith) (subst IsLower q l)
          (subst (λ s. before_d s ≡ none) q (unit-before_d (show_nat n) u)) in
      ap (parse_spark_duration fraction days) q
      ∙ r
      ∙ ap (λ s. with_unit s (parse_duration fraction s)) (sym q)
      ∙ ap (with_unit (show_nat n ++ unit_text u)) (parse_duration-unit fraction u n h)
      ∙ unfold with_unit in refl

  zero_lem : (n : ℕ) → n ≡ 0 → parsed (pos 0) ≡ parsed (wrap64 (pos n *ℤ pos 1000000))
  unfolding wrap64 ◌*ℤ◌
  zero_lem n z = rw z refl

  -- ParseSparkDuration of a decimal numeral below 2 ^ 63 without a unit is that many
  -- milliseconds, as nanoseconds that wrap at 64 bits.
  pub plain_lem :
      (n : ℕ)
      → n < sign_bit
      → parse_spark_duration fraction days (show_nat n) ≡ parsed (wrap64 (pos n *ℤ pos 1000000))
  unfolding milliseconds with_unit
  plain_lem n h =
      let (d, t, k, p, v) = digits_value-show_nat n in
      let r : parse_spark_duration fraction days ((b'0' + d) ∷ t)
          ≡ with_unit ((b'0' + d) ∷ t) (parse_duration fraction ((b'0' + d) ∷ t)) =
        read_lem (b'0' + d) t (ground arith)
          (subst IsLower p (digits-IsLower (show_nat n) (AllDigits-show_nat n)))
          (subst (λ s. before_d s ≡ none) p
            (digits-before_d (show_nat n) (AllDigits-show_nat n))) in
      ap (parse_spark_duration fraction days) p
      ∙ r
      ∙ ap (λ s. with_unit s (parse_duration fraction s)) (sym p)
      ∙ elim (parse_duration-numeral fraction n h) [
        | inl e ↦ rw (e, atoi-show_nat n h) refl
        | inr (z, e) ↦ rw e (zero_lem n z)
      ]
