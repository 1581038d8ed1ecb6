-- ===== src/Strconv/Decimal.antt =====
-- The decimal numeral of a number, and that Atoi reads it back.
use livy_next.Prelude.{
  none, Option, ◌==◌, ℕ, zero, suc, ◌+◌, ◌*◌, ◌/◌, ◌%◌, ◌<◌, ◌≡◌, refl, sym, ◌∙◌, ap, inl, inr,
  true, false, [], ◌∷◌, some, arith, Text, ltb, Bool-cases, ltb→lt,
}
use livy_next.Prelude.Int.{ℤ, pos, negsuc, pos_part}
use livy_next.Prelude.Int64.{sign_bit}
use livy_next.Strconv.{is_digit, digits_from, digits_value, atoi, positive, negative}

-- The digits of n before those in s; the fuel bounds their number.
unfoldable pub show_from : ℕ → ℕ → Text → Text
show_from zero n s = s
show_from (suc f) n s =
    let s' = (b'0' + n % 10) ∷ s in elim (ltb n 10) [ true ↦ s' | false ↦ show_from f (n / 10) s' ]

-- strconv.Itoa of a number that is not negative. n + 1 rounds are enough.
unfoldable pub show_nat : ℕ → Text
unfolding show_from
show_nat n = show_from (n + 1) n []

is_digit-digit : (d : ℕ) → d < 10 → is_digit (b'0' + d) ≡ true
is_digit-digit d h = ground arith

digits_from-digit :
    (acc d : ℕ) (s : Text)
    → d < 10
    → digits_from acc ((b'0' + d) ∷ s) ≡ digits_from (10 * acc + d) s
unfolding digits_from
digits_from-digit acc d s h = rw (is_digit-digit d h) (ap (λ m. digits_from m s) (omega arith))

-- Reading what was shown goes on with the value.
digits_from-show_from :
    (f n : ℕ) (s : Text) → n < f → digits_from 0 (show_from f n s) ≡ digits_from n s
unfolding show_from
digits_from-show_from zero n s h = absurd (omega arith)
digits_from-show_from (suc f) n s h = elim (Bool-cases (ltb n 10)) [
  | inl e ↦
      rw (e, show_from)
        (digits_from-digit 0 (n % 10) s (omega arith)
          ∙ ap (λ m. digits_from m s) (omega (arith, ltb→lt n 10 e)))
  | inr e ↦
      rw (e, show_from)
        (digits_from-show_from f (n / 10) ((b'0' + n % 10) ∷ s) (ground arith)
          ∙ digits_from-digit (n / 10) (n % 10) s (omega arith)
          ∙ ap (λ m. digits_from m s) (omega arith))
]

-- A numeral begins with a digit.
show_from-digit :
    (f n : ℕ) (s : Text)
    → n < f
    → (d : ℕ) × (t : Text) × (d < 10) × (show_from f n s ≡ (b'0' + d) ∷ t)
unfolding show_from
show_from-digit zero n s h = absurd (omega arith)
show_from-digit (suc f) n s h = elim (Bool-cases (ltb n 10)) [
  | inl e ↦ (n % 10, s, omega arith, rw (e, show_from))
  | inr e ↦
      let (d, t, k, p) = show_from-digit f (n / 10) ((b'0' + n % 10) ∷ s) (ground arith) in
      (d, t, k, rw (e, show_from) p)
]

digits_from-nil : (n : ℕ) → digits_from n [] ≡ some n
unfolding digits_from
digits_from-nil n = refl

positive_small : (n : ℕ) → n < sign_bit → positive (some n) ≡ some (pos n)
unfolding positive
positive_small n h = ground arith

digits_value-cons : (c : ℕ) (s : Text) → digits_value (c ∷ s) ≡ digits_from 0 (c ∷ s)
unfolding digits_value
digits_value-cons c s = refl

atoi-digit :
    (d : ℕ) (t : Text) → d < 10 → atoi ((b'0' + d) ∷ t) ≡ positive (digits_value ((b'0' + d) ∷ t))
unfolding atoi
atoi-digit d t h = ground arith

-- Atoi reads every numeral of an int64 that is not negative.
pub atoi-show_nat : (n : ℕ) → n < sign_bit → atoi (show_nat n) ≡ some (pos n)
unfolding show_nat
atoi-show_nat n h =
    let (d, t, k, p) = show_from-digit (n + 1) n [] (omega arith) in
    let v : digits_from 0 ((b'0' + d) ∷ t) ≡ some n =
      ap (digits_from 0) (sym p)
      ∙ digits_from-show_from (n + 1) n [] (omega arith)
      ∙ digits_from-nil n in
    rw p (atoi-digit d t k ∙ ap positive (digits_value-cons (b'0' + d) t ∙ v) ∙ positive_small n h)

positive-bound : (o : Option ℕ) (z : ℤ) → positive o ≡ some z → pos_part z < sign_bit
unfolding positive
positive-bound none z h = cc
positive-bound (some n) z h = ground arith

negative-bound : (o : Option ℕ) (z : ℤ) → negative o ≡ some z → pos_part z < sign_bit
unfolding negative
negative-bound none z h = cc
negative-bound (some n) z h = ground arith

-- Atoi answers no number beyond the largest int.
pub atoi-bound : (s : Text) (z : ℤ) → atoi s ≡ some z → pos_part z < sign_bit
unfolding atoi
atoi-bound [] z h = cc
atoi-bound (c ∷ s) z h = elim (Bool-cases (c == b'-')) [
  | inl e ↦ negative-bound (digits_value s) z (rw e at h)
  | inr e ↦ elim (Bool-cases (c == b'+')) [
    | inl f ↦ positive-bound (digits_value s) z (rw (e, f) at h)
    | inr f ↦ positive-bound (digits_value (c ∷ s)) z (rw (e, f) at h)
  ]
]

-- Itoa of any integer.
unfoldable pub show_int : ℤ → Text
show_int (pos n) = show_nat n
show_int (negsuc n) = b'-' ∷ show_nat (suc n)

pub digits_value-show_nat :
    (n : ℕ)
    → (d : ℕ) × (t : Text) × (d < 10)
      × (show_nat n ≡ (b'0' + d) ∷ t)
      × (digits_value (show_nat n) ≡ some n)
unfolding show_nat
digits_value-show_nat n =
    let (d, t, k, p) = show_from-digit (n + 1) n [] (omega arith) in
    (
      d,
      t,
      k,
      p,
      ap digits_value p
          ∙ digits_value-cons (b'0' + d) t
          ∙ sym (ap (digits_from 0) p)
          ∙ digits_from-show_from (n + 1) n [] (omega arith)
          ∙ digits_from-nil n,
    )
