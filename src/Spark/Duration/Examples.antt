-- ===== src/Spark/Duration/Examples.antt =====
-- Durations at concrete inputs, and the theorems applied to them.
use livy_next.Prelude.{ℕ, ◌≡◌, refl, ◌++◌, Option, none, Text, arith}
use livy_next.Prelude.Int.{ℤ, pos, negsuc, ◌*ℤ◌}
use livy_next.Prelude.Int64.{wrap64}
use livy_next.Strconv.Decimal.{show_nat}
use livy_next.Time.Duration.Units.{minutes, unit_text}
use livy_next.Spark.Duration.{parsed, parse_spark_duration}
use livy_next.Spark.Duration.Units.{units_lem, plain_lem}

abbrev no_fraction : ℕ → ℕ → ℕ → ℕ
no_fraction f k unit = 0

abbrev no_days : Text → Option ℤ
no_days s = none

units_lem_example :
    parse_spark_duration no_fraction no_days (show_nat 120 ++ unit_text minutes)
    ≡ parsed (pos 7200000000000)
units_lem_example = units_lem no_fraction no_days minutes 120 (omega arith)

plain_lem_example :
    parse_spark_duration no_fraction no_days (show_nat 10000000000000)
    ≡ parsed (wrap64 (pos 10000000000000 *ℤ pos 1000000))
plain_lem_example = plain_lem no_fraction no_days 10000000000000 (omega arith)

-- 317 years are a negative duration.
wraps : wrap64 (pos 10000000000000 *ℤ pos 1000000) ≡ negsuc 8446744073709551615
unfolding wrap64 ◌*ℤ◌
wraps = refl
