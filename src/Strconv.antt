-- ===== src/Strconv.antt =====
-- What the program uses of Go's package strconv: Atoi, and the decimal numerals that it reads.
pub mod Decimal
use livy_next.Prelude.{
  ℕ, ◌+◌, ◌-◌, ◌*◌, Bool, List, [], ◌∷◌, Option, none, some, Text, ltb, leb, ◌&&◌, ◌==◌,
  if◌then◌else◌,
}
use livy_next.Prelude.Int.{ℤ, pos, sub_ℕ}
use livy_next.Prelude.Int64.{sign_bit}

abbrev pub is_digit : ℕ → Bool
is_digit c = leb b'0' c && leb c b'9'

-- The value of the digits that follow, after those that have been read; none at another byte.
unfoldable pub digits_from : ℕ → Text → Option ℕ
digits_from acc [] = some acc
digits_from acc (c ∷ s) =
    let rest = digits_from (10 * acc + (c - b'0')) s in if is_digit c then rest else none

unfoldable pub digits_value : Text → Option ℕ
unfolding digits_from
digits_value [] = none
digits_value (c ∷ s) = digits_from 0 (c ∷ s)

positive : Option ℕ → Option ℤ
positive none = none
positive (some n) = if ltb n sign_bit then some (pos n) else none

negative : Option ℕ → Option ℤ
negative none = none
negative (some n) = if leb n sign_bit then some (sub_ℕ 0 n) else none

-- An optional sign and decimal digits, in the range of int64; none stands for the error.
unfoldable pub atoi : Text → Option ℤ
unfolding digits_value positive negative
atoi [] = none
atoi (c ∷ s) =
    if c == b'-'
    then negative (digits_value s)
    else if c == b'+'
    then positive (digits_value s)
    else positive (digits_value (c ∷ s))
