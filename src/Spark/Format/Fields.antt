-- ===== src/Spark/Format/Fields.antt =====
-- Numbers that are padded with zeros to a width.
use livy_next.Prelude.{
  ℕ, zero, suc, ◌+◌, ◌-◌, ◌*◌, ◌/◌, ◌%◌, ◌≤◌, ◌<◌, true, ◌≡◌, inl, inr, [], ◌∷◌, ◌++◌, some, arith,
  Text, length, replicate, length-append, length-replicate, ltb, Bool-cases,
}
use livy_next.Prelude.Int.{pos}
use livy_next.Strconv.{digits_value}
use livy_next.Strconv.Decimal.{show_from, show_nat, digits_value-show_nat}
use livy_next.Spark.Format.{pad_int}
use livy_next.Spark.Format.Decimals.{digits_value-zero}

-- The text is a numeral of n with that many digits.
abbrev pub IsField : ℕ → ℕ → Text → Type 0
IsField w n t = (digits_value t ≡ some n) × (length t ≡ w)

-- 10 ^ w
abbrev pub power : ℕ → ℕ
power zero = 1
power (suc w) = 10 * power w

length-show_from :
    (w f n : ℕ) (s : Text) → n < power (suc w) → length (show_from f n s) ≤ suc w + length s
unfolding show_from
length-show_from w zero n s h = omega arith
length-show_from zero (suc f) n s h =
    let e : ltb n 10 ≡ true = ground arith in rw (e, show_from) (omega arith)
length-show_from (suc v) (suc f) n s h = elim (Bool-cases (ltb n 10)) [
  | inl e ↦ rw (e, show_from) (omega arith)
  | inr e ↦
      rw (e, show_from)
        (omega (arith, length-show_from v f (n / 10) ((b'0' + n % 10) ∷ s) (omega arith)))
]

digits_value-zeros :
    (k : ℕ) (s : Text) {n : ℕ}
    → digits_value s ≡ some n
    → digits_value (replicate k b'0' ++ s) ≡ some n
digits_value-zeros zero s h = h
digits_value-zeros (suc k) s {n} h =
    digits_value-zero (replicate k b'0' ++ s) {n = n} (digits_value-zeros k s h)

pub pad_int-IsField : (w n : ℕ) → n < power (suc w) → IsField (suc w) n (pad_int (suc w) (pos n))
unfolding pad_int show_nat
pad_int-IsField w n h =
    let (d, t, k, p, q) = digits_value-show_nat n in
    let l : length (show_nat n) ≤ suc w + 0 = length-show_from w (n + 1) n [] h in
    let zeros : Text = replicate (suc w - length (show_nat n)) b'0' in
    (
      digits_value-zeros (suc w - length (show_nat n)) (show_nat n) {n = n} q,
      omega (
        arith,
        length-append zeros (show_nat n),
        length-replicate {A = ℕ} (suc w - length (show_nat n)) b'0',
      ),
    )
