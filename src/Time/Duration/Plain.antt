-- ===== src/Time/Duration/Plain.antt =====
-- A numeral with no unit after it.
use mathlib.Core.List.{append-nil}
use livy_next.Prelude.{
  ℕ, ◌+◌, ◌<◌, ◌≡◌, refl, sym, ◌∙◌, ap, true, false, [], ◌∷◌, ◌++◌, ◌⊎◌, text_eq→eq, none, some,
  Text, codes, text_eq, length, Bool-cases, inl, inr, arith,
}
use livy_next.Prelude.Int.{pos}
use livy_next.Prelude.Int64.{sign_bit}
use livy_next.Strconv.{is_digit, digits_from, digits_value}
use livy_next.Strconv.Decimal.{show_nat, digits_value-show_nat}
use livy_next.Time.Duration.{
  leading_int, leading_unit, one_part, parse_part, next_part, parse_parts, signed_duration,
  unsigned, parse_duration,
}
use livy_next.Time.Duration.Units.{parse_digit, leading_int-digits}

zero_lem : (s : Text) (n : ℕ) → text_eq s (codes "0") ≡ true → digits_from 0 s ≡ some n → n ≡ 0
unfolding digits_from
zero_lem s n z g =
    let r : digits_from 0 (codes "0") ≡ some n =
      ap (digits_from 0) (sym (text_eq→eq s (codes "0") z)) ∙ g in
    ground arith

module _ (fraction : ℕ → ℕ → ℕ → ℕ) where
  parse_parts-none :
      (c : ℕ) (s : Text)
      → parse_part fraction (c ∷ s) ≡ none
      → parse_parts fraction (length (c ∷ s)) 0 (c ∷ s) ≡ none
  unfolding parse_parts
  parse_parts-none c s e = rw (e, next_part) refl

  no_unit :
      (c : ℕ) (t : Text) (n : ℕ)
      → is_digit c ≡ true
      → digits_from 0 (c ∷ t) ≡ some n
      → n < sign_bit
      → parse_part fraction (c ∷ t) ≡ none
  unfolding parse_part one_part leading_unit
  no_unit c t n a g h =
      let l : leading_int 0 ((c ∷ t) ++ []) ≡ some (n, []) =
        leading_int-digits 0 (c ∷ t) [] g (omega arith) tt in
      let e : leading_int 0 (c ∷ t) ≡ some (n, []) =
        ap (leading_int 0) (sym (append-nil (c ∷ t))) ∙ l in
      rw (a, e) (ground arith)

  -- A numeral without a unit is refused, unless it is 0.
  pub parse_duration-numeral :
      (n : ℕ)
      → n < sign_bit
      → (parse_duration fraction (show_nat n) ≡ none)
        ⊎ ((n ≡ 0) × (parse_duration fraction (show_nat n) ≡ some (pos 0)))
  unfolding digits_value unsigned
  parse_duration-numeral n h =
      let (d, t, k, p, v) = digits_value-show_nat n in
      let c = b'0' + d in
      let a : is_digit c ≡ true = ground arith in
      let g : digits_from 0 (c ∷ t) ≡ some n = ap digits_value (sym p) ∙ v in
      let e : parse_duration fraction (show_nat n) ≡ unsigned fraction false (c ∷ t) =
        ap (parse_duration fraction) p ∙ parse_digit fraction c t a in
      elim (Bool-cases (text_eq (c ∷ t) (codes "0"))) [
        | inl z ↦ inr (zero_lem (c ∷ t) n z g, e ∙ rw z refl)
        | inr z ↦
            inl (e ∙ rw z (rw (parse_parts-none c t (no_unit c t n a g h), signed_duration) refl))
      ]
