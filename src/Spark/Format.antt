-- ===== src/Spark/Format.antt =====
-- pkg/spark/client.go: decimal128ToString, decimal256ToString, formatMonthInterval, formatDuration,
-- and the texts of DayTimeInterval.
-- The integer that a decimal holds is the argument.
pub mod Decimals
pub mod Padding
pub mod Fields
pub mod Intervals
pub mod Durations
pub mod DayTime
use livy_next.Prelude.{
  ℕ, zero, suc, ◌-◌, Bool, true, false, List, [], ◌∷◌, ◌++◌, Text, codes, length, take, drop,
  replicate, leb, ltb, ◌==◌, if◌then◌else◌,
}
use livy_next.Prelude.Int.{ℤ, pos, negsuc, pos_part, ltb_ℤ, leb_ℤ, ◌-ℤ◌, ◌*ℤ◌}
use livy_next.Prelude.Int64.{wrap64, wrap32, quot_by, rem_by}
use livy_next.Strconv.Decimal.{show_nat, show_int}

-- arrow.TimeUnit; the last constructor stands for any other value.
pub data TimeUnit : Type 0 where
  second millisecond microsecond nanosecond other_unit : TimeUnit

-- Whether there is a leading minus sign, and the text without it.
unfoldable pub split_sign : Text → Bool × Text
split_sign [] = (false, [])
split_sign (c ∷ s) = if c == b'-' then (true, s) else (false, c ∷ s)

-- int32(len(str)) <= scale
unfoldable pub needs_zero : ℕ → Text → Bool
needs_zero scale s = leb_ℤ (wrap32 (pos (length s))) (pos scale)

-- The loop that puts zeros before the digits until there are more than scale. Each round adds one,
-- so that scale + 1 rounds are enough, for a scale below the largest int32.
unfoldable pub pad_zeros : ℕ → ℕ → Text → Text
pad_zeros zero scale s = s
pad_zeros (suc f) scale s =
    let rest = pad_zeros f scale (b'0' ∷ s) in if needs_zero scale s then rest else s

unfoldable pub insert_dot : ℕ → Text → Text
insert_dot scale s = let dot_pos = length s - scale in take dot_pos s ++ codes "." ++ drop dot_pos s

abbrev pub with_sign : Bool → Text → Text
with_sign neg s = if neg then codes "-" ++ s else s

unfoldable pub place_dot : Bool × Text → ℕ → Text
place_dot (neg, s) scale = with_sign neg (insert_dot scale (pad_zeros (suc scale) scale s))

unfoldable pub decimal128_to_string : ℤ → ℤ → Text
decimal128_to_string num scale =
    if leb_ℤ scale (pos 0)
    then show_int num
    else place_dot (split_sign (show_int num)) (pos_part scale)

unfoldable pub decimal256_to_string : ℤ → ℤ → Text
decimal256_to_string num scale =
    if leb_ℤ scale (pos 0)
    then show_int num
    else place_dot (split_sign (show_int num)) (pos_part scale)

unfoldable pub format_month_interval : ℤ → Text
format_month_interval m =
    let neg = ltb_ℤ m (pos 0) in
    let months = if neg then wrap32 (pos 0 -ℤ m) else m in
    codes "INTERVAL '"
    ++ with_sign neg (show_int (quot_by months 12) ++ codes "-" ++ show_int (rem_by months 12))
    ++ codes "' YEAR TO MONTH"

-- fmt's %0wd: zeros between the sign and the digits up to the width.
unfoldable pub pad_int : ℕ → ℤ → Text
pad_int w (pos n) = replicate (w - length (show_nat n)) b'0' ++ show_nat n
pad_int w (negsuc n) =
    b'-' ∷ (replicate (w - 1 - length (show_nat (suc n))) b'0' ++ show_nat (suc n))

unfoldable pub to_micros : ℤ → TimeUnit → ℤ
to_micros duration second = wrap64 (duration *ℤ pos 1000000)
to_micros duration millisecond = wrap64 (duration *ℤ pos 1000)
to_micros duration microsecond = duration
to_micros duration nanosecond = quot_by duration 1000
to_micros duration other_unit = duration

-- The text for a number of microseconds without its sign.
unfoldable pub clock : Bool → ℤ → Text
unfolding pad_int
clock neg micros =
    let total_sec = quot_by micros 1000000 in
    let micro_rem = rem_by micros 1000000 in
    let sec_rem = rem_by total_sec 86400 in
    let min_rem = rem_by sec_rem 3600 in
    let time =
      show_int (quot_by total_sec 86400)
      ++ codes " "
      ++ pad_int 2 (quot_by sec_rem 3600)
      ++ codes ":"
      ++ pad_int 2 (quot_by min_rem 60)
      ++ codes ":"
      ++ pad_int 2 (rem_by min_rem 60) in
    let fraction = codes "." ++ pad_int 6 micro_rem in
    codes "INTERVAL '"
    ++ with_sign neg (if ltb_ℤ (pos 0) micro_rem then time ++ fraction else time)
    ++ codes "' DAY TO SECOND"

unfoldable pub format_duration : ℤ → TimeUnit → Text
unfolding clock to_micros
format_duration duration unit =
    let micros = to_micros duration unit in
    if ltb_ℤ micros (pos 0) then clock true (wrap64 (pos 0 -ℤ micros)) else clock false micros

-- The case of a DayTimeInterval, which SanitizeValue and extractArrowValue share.
unfoldable pub format_day_time_interval : ℤ → ℤ → Text
format_day_time_interval days milliseconds =
    let total_sec = quot_by milliseconds 1000 in
    let millis = rem_by milliseconds 1000 in
    let time =
      show_int days
      ++ codes " "
      ++ pad_int 2 (quot_by total_sec 3600)
      ++ codes ":"
      ++ pad_int 2 (quot_by (rem_by total_sec 3600) 60)
      ++ codes ":"
      ++ pad_int 2 (rem_by total_sec 60) in
    codes "INTERVAL '"
    ++ (if ltb_ℤ (pos 0) millis then time ++ (codes "." ++ pad_int 3 millis) else time)
    ++ codes "' DAY TO SECOND"
