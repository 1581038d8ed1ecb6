-- ===== src/Spark/Format/DayTime.antt =====
-- The numbers in the texts of day-time intervals.
use livy_next.Prelude.{ℕ, ◌+◌, ◌*◌, ◌/◌, ◌%◌, ◌<◌, ◌≡◌, ◌++◌, arith, codes, ltb, if◌then◌else◌}
use livy_next.Prelude.Int.{ℤ, pos}
use livy_next.Prelude.Int64.{quot_by, rem_by}
use livy_next.Strconv.Decimal.{show_int}
use livy_next.Spark.Format.{pad_int, format_day_time_interval}
use livy_next.Spark.Format.Durations.{ltb_ℤ-zero}

-- The text of a day-time interval whose milliseconds are not negative: the hours, minutes, seconds
-- and milliseconds add up to them, the last three in their ranges.
pub format_day_time_interval_pos :
    (days : ℤ) (n : ℕ)
    → (hours : ℕ) × (minutes : ℕ) × (seconds : ℕ) × (millis : ℕ) × (((hours * 60 + minutes) * 60
              + seconds)
            * 1000
          + millis
        ≡ n)
      × (minutes < 60)
      × (seconds < 60)
      × (millis < 1000)
      × (format_day_time_interval days (pos n) ≡ (
          let time =
            show_int days
            ++ codes " "
            ++ pad_int 2 (pos hours)
            ++ codes ":"
            ++ pad_int 2 (pos minutes)
            ++ codes ":"
            ++ pad_int 2 (pos seconds) in
          codes "INTERVAL '"
          ++ (if ltb 0 millis then time ++ (codes "." ++ pad_int 3 (pos millis)) else time)
          ++ codes "' DAY TO SECOND"))
unfolding format_day_time_interval quot_by rem_by
format_day_time_interval_pos days n = (
  n / 1000 / 3600,
  n / 1000 % 3600 / 60,
  n / 1000 % 60,
  n % 1000,
  omega arith,
  omega arith,
  omega arith,
  omega arith,
  rw (ltb_ℤ-zero (n % 1000)),
)
