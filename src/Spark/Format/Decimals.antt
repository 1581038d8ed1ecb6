-- ===== src/Spark/Format/Decimals.antt =====
-- The texts of decimals denote them exactly.
use mathlib.Core.Path.{ap₂}
use livy_next.Prelude.{
  ℕ, zero, suc, ◌+◌, ◌-◌, ◌<◌, ◌≡◌, refl, ◌∙◌, ap, inl, inr, Bool, false, [], ◌∷◌, ◌++◌, some,
  arith, Text, codes, is_empty, length, take, drop, replicate, Bool-cases, take-append-drop,
  length-drop, length-take, length-append, length-replicate,
}
use livy_next.Prelude.Int.{ℤ, pos, negsuc, pos_part, neg_part, ltb_ℤ, leb_ℤ}
use livy_next.Prelude.Int64.{sign_bit32}
use livy_next.Strconv.{digits_from, digits_value}
use livy_next.Strconv.Decimal.{show_nat, show_int, digits_value-show_nat}
use livy_next.Spark.Format.{
  split_sign, needs_zero, pad_zeros, insert_dot, with_sign, place_dot, decimal128_to_string,
  decimal256_to_string,
}
use livy_next.Spark.Format.Padding.{pad_zeros_lem}

pub digits_value-zero :
    (s : Text) {n : ℕ} → digits_value s ≡ some n → digits_value (b'0' ∷ s) ≡ some n
unfolding digits_value digits_from
digits_value-zero [] h = cc
digits_value-zero (c ∷ s) h = h

digits_value-pad_zeros :
    (f scale : ℕ) (s : Text) {n : ℕ}
    → digits_value s ≡ some n
    → digits_value (pad_zeros f scale s) ≡ some n
unfolding pad_zeros
digits_value-pad_zeros zero scale s h = h
digits_value-pad_zeros (suc f) scale s {n} h = elim (Bool-cases (needs_zero scale s)) [
  | inl e ↦ rw e (digits_value-pad_zeros f scale (b'0' ∷ s) {n = n} (digits_value-zero s h))
  | inr e ↦ rw e h
]

split_sign-show_nat : (n : ℕ) → split_sign (show_nat n) ≡ (false, show_nat n)
unfolding split_sign
split_sign-show_nat n = let (d, t, k, p, q) = digits_value-show_nat n in rw p (ground arith)

split_sign-show_int :
    (v : ℤ) → split_sign (show_int v) ≡ (ltb_ℤ v (pos 0), show_nat (pos_part v + neg_part v))
unfolding show_int split_sign
split_sign-show_int (pos n) =
    split_sign-show_nat n ∙ ap₂ (λ (b : Bool) (m : ℕ). (b, show_nat m)) (ground arith) (omega arith)
split_sign-show_int (negsuc n) =
    ap₂ (λ (b : Bool) (m : ℕ). (b, show_nat m)) (ground arith) (omega arith)

-- The text denotes n / 10 ^ scale, negated where neg is true, with scale digits after the dot.
pub record Denotes (neg : Bool) (n scale : ℕ) (t : Text) : Type 0 where
  pub whole : Text
  pub fraction : Text
  pub shape : t ≡ with_sign neg (whole ++ codes "." ++ fraction)
  pub has_whole : is_empty whole ≡ false
  pub places : length fraction ≡ scale
  pub digits : digits_value (whole ++ fraction) ≡ some n

length-not_empty : (t : Text) → 0 < length t → is_empty t ≡ false
length-not_empty [] h = absurd (omega arith)
length-not_empty (c ∷ t) h = refl

padded-length :
    (scale : ℕ) (s : Text)
    → suc scale < sign_bit32
    → length s < sign_bit32
    → scale < length (pad_zeros (suc scale) scale s)
padded-length scale s b l =
    let zeros : Text = replicate (suc scale - length s) b'0' in
    rw ((pad_zeros_lem (suc scale) scale s b l (omega arith)).1)
      (omega (arith, length-append zeros s, length-replicate {A = ℕ} (suc scale - length s) b'0'))

place_dot-Denotes :
    (neg : Bool) (s : Text) (scale : ℕ) {n : ℕ}
    → suc scale < sign_bit32
    → length s < sign_bit32
    → digits_value s ≡ some n
    → Denotes neg n scale (place_dot (neg, s) scale)
unfolding place_dot insert_dot
place_dot-Denotes neg s scale {n} b l h =
    let q = pad_zeros (suc scale) scale s in
    let k : scale < length q = padded-length scale s b l in
    record {
      whole = take (length q - scale) q;
      fraction = drop (length q - scale) q;
      shape = refl;
      has_whole = length-not_empty _ (omega (arith, length-take (length q - scale) q));
      places = omega (arith, length-drop (length q - scale) q);
      digits =
          ap digits_value (take-append-drop (length q - scale) q)
          ∙ digits_value-pad_zeros (suc scale) scale s h;
    }

place_dot-show_int :
    (num : ℤ) (scale : ℕ)
    → suc scale < sign_bit32
    → length (show_nat (pos_part num + neg_part num)) < sign_bit32
    → Denotes
        (ltb_ℤ num (pos 0))
        (pos_part num + neg_part num)
        scale
        (place_dot (split_sign (show_int num)) scale)
place_dot-show_int num scale b l =
    let n = pos_part num + neg_part num in
    let (d, t, k, p, q) = digits_value-show_nat n in
    rw (split_sign-show_int num) (place_dot-Denotes (ltb_ℤ num (pos 0)) (show_nat n) scale b l q)

-- With a positive scale below 2 ^ 31 - 1 and a number of fewer than 2 ^ 31 digits
-- decimal128ToString and decimal256ToString give a text that is a minus sign exactly for a
-- negative number, at least one digit, a dot, and as many digits as the scale, where all the
-- digits together are a numeral of the absolute value of the number.
pub decimal_to_string_lem :
    (num : ℤ) (scale : ℕ)
    → 0 < scale
    → suc scale < sign_bit32
    → length (show_nat (pos_part num + neg_part num)) < sign_bit32
    → Denotes
        (ltb_ℤ num (pos 0))
        (pos_part num + neg_part num)
        scale
        (decimal128_to_string num (pos scale))
      × Denotes
          (ltb_ℤ num (pos 0))
          (pos_part num + neg_part num)
          scale
          (decimal256_to_string num (pos scale))
unfolding decimal128_to_string decimal256_to_string
decimal_to_string_lem num scale h b l =
    let e : leb_ℤ (pos scale) (pos 0) ≡ false = ground arith in
    rw e (place_dot-show_int num scale b l, place_dot-show_int num scale b l)
