-- ===== src/Spark/Duration.antt =====
-- pkg/spark/client.go: ParseSparkDuration. Floating-point arithmetic is a parameter: `fraction` of
-- time.ParseDuration, and `days`, the duration that many days make, with the error of
-- strconv.ParseFloat.
pub mod Texts
pub mod Units
mod Examples
use livy_next.Prelude.{
  ℕ, suc, ◌+◌, Bool, true, false, List, [], ◌∷◌, Option, none, some, Text, codes, is_empty, text_eq,
  map, leb, ◌==◌, ◌&&◌, ◌||◌, if◌then◌else◌,
}
use livy_next.Prelude.Int.{ℤ, pos, negsuc, ◌*ℤ◌}
use livy_next.Prelude.Int64.{wrap64}
use livy_next.Strconv.{atoi, is_digit}
use livy_next.Net.{trim_space, cut}
use livy_next.Time.Duration.{parse_duration}

-- The duration, or one of the errors.
pub data Parsed : Type 0 where
  parsed : ℤ → Parsed
  empty_text bad_days invalid_duration : Parsed

unfoldable pub lower_byte : ℕ → ℕ
lower_byte c = if leb b'A' c && leb c b'Z' then c + 32 else c

-- strings.ToLower of a text of ASCII.
unfoldable pub to_lower : Text → Text
unfolding lower_byte
to_lower [] = []
to_lower (c ∷ s) = lower_byte c ∷ to_lower s

unfoldable pub is_disabled : Text → Bool
is_disabled s =
    text_eq s (codes "-1")
    || text_eq s (codes "-1ms")
    || text_eq s (codes "-1s")
    || text_eq s (codes "-1m")

all_digits : Text → Bool
all_digits [] = true
all_digits (c ∷ s) = is_digit c && all_digits s

is_numeral : Text → Bool
unfolding all_digits
is_numeral [] = false
is_numeral (c ∷ s) = all_digits (c ∷ s)

-- Digits, and perhaps a period with digits after it.
unfoldable pub is_decimal : Text → Bool
unfolding is_numeral
is_decimal s = elim (cut b'.' s) [
  | none ↦ is_numeral s
  | some (t, u) ↦ is_numeral t && is_numeral u
]

unfoldable pub with_byte : ℕ → Option Text → Option Text
with_byte c none = none
with_byte c (some s) = some (c ∷ s)

-- What stands before a d at the end.
unfoldable pub before_d : Text → Option Text
unfolding with_byte
before_d [] = none
before_d (c ∷ []) = if c == b'd' then some [] else none
before_d (c ∷ d ∷ s) = with_byte c (before_d (d ∷ s))

-- The group of dayRegex, if the text matches it.
unfoldable pub day_match : Text → Option Text
day_match s = elim (before_d s) [ none ↦ none | some t ↦ if is_decimal t then some t else none ]

pub milliseconds : Option ℤ → Parsed
milliseconds none = invalid_duration
milliseconds (some n) = parsed (wrap64 (n *ℤ pos 1000000))

unfoldable pub with_unit : Text → Option ℤ → Parsed
unfolding milliseconds
with_unit s none = milliseconds (atoi s)
with_unit s (some d) = parsed d

days_parsed : Option ℤ → Parsed
days_parsed none = bad_days
days_parsed (some d) = parsed d

module _ (fraction : ℕ → ℕ → ℕ → ℕ) (days : Text → Option ℤ) where
  pub not_days : Text → Option Text → Parsed
  unfolding with_unit days_parsed
  not_days s none = with_unit s (parse_duration fraction s)
  not_days s (some t) = days_parsed (days t)

  unfoldable pub parse_spark_duration : Text → Parsed
  unfolding not_days
  parse_spark_duration text =
      let s = trim_space (to_lower text) in
      if is_empty s
      then empty_text
      else if is_disabled s
      then parsed (negsuc 0)
      else not_days s (day_match s)
