-- ===== src/Time.antt =====
-- What the program uses of Go's package time: dates of the proleptic Gregorian calendar, and two
-- layouts of Format.
pub mod Duration
mod Tests
use livy_next.Prelude.{
  ℕ, suc, ◌+◌, ◌-◌, ◌*◌, ◌/◌, ◌%◌, Bool, List, [], ◌∷◌, ◌++◌, Text, codes, length, replicate, ltb,
  leb, ◌==◌, ◌&&◌, if◌then◌else◌,
}
use livy_next.Prelude.Int.{ℤ, pos, negsuc, pos_part, ltb_ℤ, eqb_ℤ, ◌+ℤ◌, ◌-ℤ◌, ◌*ℤ◌}
use livy_next.Prelude.Int64.{quot_by, rem_by}
use livy_next.Strconv.Decimal.{show_nat}

-- Division that rounds down, and its remainder, which is not negative.
unfoldable pub floor_div : ℤ → ℕ → ℤ
floor_div (pos n) d = pos (n / d)
floor_div (negsuc n) d = negsuc (n / d)

unfoldable pub floor_mod : ℤ → ℕ → ℕ
floor_mod (pos n) d = n % d
floor_mod (negsuc n) d = d - 1 - n % d

pub record Date : Type 0 where
  pub year : ℤ
  pub month : ℕ
  pub day : ℕ

-- The year, month and day of a day of the era of 400 years that begins on 1 March.
day_of_era : ℤ → ℕ → Date
day_of_era era doe =
    let yoe = (doe - doe / 1460 + doe / 36524 - doe / 146096) / 365 in
    let doy = doe - (365 * yoe + yoe / 4 - yoe / 100) in
    let mp = (5 * doy + 2) / 153 in
    let year = pos yoe +ℤ era *ℤ pos 400 in
    record {
      year = if leb mp 9 then year else year +ℤ pos 1;
      month = if leb mp 9 then mp + 3 else mp - 9;
      day = doy - (153 * mp + 2) / 5 + 1;
    }

-- The date of a number of days since 1 January 1970.
unfoldable pub date_of : ℤ → Date
unfolding day_of_era floor_div floor_mod ◌+ℤ◌ ◌*ℤ◌
date_of days = let z = days +ℤ pos 719468 in day_of_era (floor_div z 146097) (floor_mod z 146097)

-- Digits with zeros before them, up to the width.
unfoldable pub pad : ℕ → ℕ → Text
pad w n = replicate (w - length (show_nat n)) b'0' ++ show_nat n

year_text : ℤ → Text
year_text (pos n) = pad 4 n
year_text (negsuc n) = b'-' ∷ pad 4 (suc n)

-- The layout 2006-01-02.
unfoldable pub format_date : Date → Text
unfolding year_text pad
format_date d = year_text d.year ++ b'-' ∷ pad 2 d.month ++ b'-' ∷ pad 2 d.day

-- An instant: seconds since 1970 and nanoseconds, with the offset of its zone in seconds.
pub record Time : Type 0 where
  pub seconds : ℤ
  pub nanos : ℕ
  pub offset : ℤ

-- time.Unix(sec, nsec).UTC(), where nsec counts less than a second, and may be negative.
unfoldable pub unix : ℤ → ℤ → Time
unix sec (pos n) = record { seconds = sec; nanos = n; offset = pos 0 }
unix sec (negsuc n) = record { seconds = sec -ℤ pos 1; nanos = 999999999 - n; offset = pos 0 }

-- The first instant of the year 1.
unfoldable pub is_zero : Time → Bool
is_zero t = eqb_ℤ t.seconds (negsuc 62135596799) && (t.nanos == 0)

local_seconds : Time → ℤ
local_seconds t = t.seconds +ℤ t.offset

unfoldable pub time_date : Time → Date
unfolding local_seconds date_of
time_date t = date_of (floor_div (local_seconds t) 86400)

minutes_text : ℕ → Text
minutes_text m = pad 2 (m / 60) ++ b':' ∷ pad 2 (m % 60)

zone_text : ℤ → Text
unfolding minutes_text
zone_text (pos n) = if n == 0 then codes "Z" else b'+' ∷ minutes_text (n / 60)
zone_text (negsuc n) = (if ltb (suc n) 60 then b'+' else b'-') ∷ minutes_text (suc n / 60)

clock_text : ℕ → Text
clock_text s = pad 2 (s / 3600) ++ b':' ∷ pad 2 (s % 3600 / 60) ++ b':' ∷ pad 2 (s % 60)

-- The layout RFC3339.
unfoldable pub format_rfc3339 : Time → Text
unfolding clock_text zone_text local_seconds time_date format_date floor_mod
format_rfc3339 t =
    format_date (time_date t)
    ++ b'T' ∷ clock_text (floor_mod (local_seconds t) 86400)
    ++ zone_text t.offset
