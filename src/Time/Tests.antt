-- ===== src/Time/Tests.antt =====
-- Dates and instants that package time formats.
use livy_next.Prelude.{◌≡◌, refl, codes}
use livy_next.Prelude.Int.{pos, negsuc, ◌-ℤ◌}
use livy_next.Time.{date_of, format_date, unix, format_rfc3339}
use livy_next.Strconv.Decimal.{show_nat}

epoch : format_date (date_of (pos 0)) ≡ codes "1970-01-01"
unfolding date_of format_date show_nat
epoch = refl

leap_day : format_date (date_of (pos 19782)) ≡ codes "2024-02-29"
unfolding date_of format_date show_nat
leap_day = refl

before : format_date (date_of (negsuc 0)) ≡ codes "1969-12-31"
unfolding date_of format_date show_nat
before = refl

far : format_date (date_of (negsuc 719527)) ≡ codes "0000-01-01"
unfolding date_of format_date show_nat
far = refl

instant : format_rfc3339 (unix (pos 1700000000) (pos 5)) ≡ codes "2023-11-14T22:13:20Z"
unfolding format_rfc3339 unix show_nat
instant = refl

half_before : format_rfc3339 (unix (pos 0) (negsuc 499999999)) ≡ codes "1969-12-31T23:59:59Z"
unfolding format_rfc3339 unix ◌-ℤ◌ show_nat
half_before = refl

zoned :
    format_rfc3339 (record { seconds = pos 0; nanos = 0; offset = negsuc 12599 })
    ≡ codes "1969-12-31T20:30:00-03:30"
unfolding format_rfc3339 show_nat
zoned = refl
