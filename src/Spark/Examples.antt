-- ===== src/Spark/Examples.antt =====
-- Values at concrete inputs, and the theorems applied to them.
use livy_next.Prelude.{
  some, none, ℕ, [], ◌∷◌, ◌≡◌, ◌⊎◌, refl, true, false, arith, codes, replicate, ◌++◌,
}
use livy_next.Prelude.Int.{pos, negsuc, ◌*ℤ◌, ◌-ℤ◌}
use livy_next.Prelude.Int64.{wrap64, wrap32, quot_by, rem_by}
use livy_next.Prelude.Outcome.{value}
use livy_next.Session.Types.{QueryResult}
use livy_next.Value.{Value, int, bytes, any_map, arr, field, end, cons, nil}
use livy_next.Base64.{encode}
use livy_next.Spark.Sanitize.{sanitize_value}
use livy_next.Spark.Sanitize.Clean.{IsClean, sanitize_value-IsClean}
use livy_next.Spark.Sanitize.Twice.{sanitize_value_twice}
use livy_next.Spark.Extract.{
  Cell, int32_cell, list_cell, null_cell, message, Json, extract_arrow_value,
}
use livy_next.Spark.Extract.Kinds.{type_id}
use livy_next.Spark.Extract.Schema.{Shown, table_values_lem}
use livy_next.Strconv.Decimal.{show_nat, show_int}
use livy_next.Spark.Format.{
  decimal128_to_string, decimal256_to_string, split_sign, place_dot, needs_zero, pad_zeros,
  insert_dot, format_month_interval, format_duration, format_day_time_interval, to_micros, pad_int,
  clock, second, millisecond, nanosecond,
}
use livy_next.Spark.Table.{Table, table_to_query_result, int32, string, list}
use livy_next.Spark.Table.Cells.{Holds, table_to_query_result_lem}
use livy_next.Spark.Format.Padding.{pad_zeros_lem}
use livy_next.Spark.Format.Decimals.{Denotes, decimal_to_string_lem}
use livy_next.Spark.Format.Intervals.{Months, format_month_interval_lem}
use livy_next.Spark.Format.Durations.{ShownClock, format_duration_lem}

small_decimal : decimal128_to_string (negsuc 4) (pos 3) ≡ codes "-0.005"
unfolding decimal128_to_string split_sign place_dot pad_zeros needs_zero wrap32 insert_dot show_int
    show_nat
small_decimal = refl

a_day : format_duration (pos 90061) second ≡ codes "INTERVAL '1 01:01:01' DAY TO SECOND"
unfolding format_duration clock to_micros wrap64 ◌*ℤ◌ quot_by rem_by pad_int show_int show_nat
a_day = refl

back :
    format_duration (negsuc 1499) millisecond ≡ codes "INTERVAL '-0 00:00:01.500000' DAY TO SECOND"
unfolding format_duration clock to_micros wrap64 ◌*ℤ◌ ◌-ℤ◌ quot_by rem_by pad_int show_int show_nat
back = refl

-- A minus sign inside the time, and no fraction.
second_and_a_half_back :
    format_day_time_interval (pos 0) (negsuc 1499) ≡ codes "INTERVAL '0 00:00:-1' DAY TO SECOND"
unfolding format_day_time_interval quot_by rem_by pad_int show_int show_nat
second_and_a_half_back = refl

decimal_to_string_lem_example :
    Denotes true 5 3 (decimal128_to_string (negsuc 4) (pos 3))
    × Denotes true 5 3 (decimal256_to_string (negsuc 4) (pos 3))
decimal_to_string_lem_example =
    decimal_to_string_lem (negsuc 4) 3 (omega arith) (omega arith) (unfold show_nat in omega arith)

pad_zeros_lem_example :
    (needs_zero 3 (pad_zeros 5 3 (codes "12")) ≡ false)
    × (pad_zeros 5 3 (codes "12") ≡ replicate 2 b'0' ++ codes "12")
pad_zeros_lem_example = pad_zeros_lem 5 3 (codes "12") (omega arith) (omega arith) (omega arith)

format_month_interval_lem_example :
    ((negsuc 29 ≡ negsuc 2147483647)
      × (format_month_interval (negsuc 29) ≡ codes "INTERVAL '--178956970--8' YEAR TO MONTH"))
    ⊎ Months true 30 (format_month_interval (negsuc 29))
format_month_interval_lem_example = format_month_interval_lem (negsuc 29) (omega arith, omega arith)

format_duration_lem_example :
    ShownClock true 2000000 (format_duration (negsuc 1999999999) nanosecond)
format_duration_lem_example = format_duration_lem (negsuc 1999999999) nanosecond (omega arith)

-- Two columns of three cells, in chunks of different lengths.
abbrev two_columns : Table ℕ
two_columns = record {
  num_rows = 3;
  columns =
      record {
        field = record { name = codes "a"; type = int32; nullable = true };
        chunks = (1 ∷ 2 ∷ []) ∷ (3 ∷ []) ∷ [];
      }
      ∷ record {
        field = record { name = codes "b"; type = string; nullable = false };
        chunks = (4 ∷ []) ∷ [] ∷ (5 ∷ 6 ∷ []) ∷ [];
      }
      ∷ [];
}

abbrev number : ℕ → Value
number n = int (pos n)

table_to_query_result_lem_example :
    (q : QueryResult) × (table_to_query_result number two_columns ≡ value q)
    × Holds number two_columns q
table_to_query_result_lem_example = table_to_query_result_lem number two_columns (refl, (refl, tt))

padded : encode (codes "Man!") ≡ codes "TWFuIQ=="
unfolding encode
padded = refl

-- A map with bytes, and a key that comes twice.
abbrev a_map : Value
a_map = any_map (
    field (codes "k") (bytes (codes "Man!")) (field (codes "k") (arr (cons (int (pos 1)) nil)) end))

sanitize_value-IsClean_example : IsClean (sanitize_value a_map)
sanitize_value-IsClean_example = sanitize_value-IsClean a_map

sanitize_value_twice_example : sanitize_value (sanitize_value a_map) ≡ sanitize_value a_map
sanitize_value_twice_example = sanitize_value_twice a_map

-- Every text decodes to the array of 7, and to no pairs and no object.
abbrev sevens : Json
sevens = record {
  decode = λ s. some (arr (cons (int (pos 7)) nil));
  decode_pairs = λ s. none;
  decode_object = λ s. none;
}

-- A column of integers with a null, and one of lists.
abbrev numbers_and_lists : Table Cell
numbers_and_lists = record {
  num_rows = 2;
  columns =
      record {
        field = record { name = codes "n"; type = int32; nullable = true };
        chunks = (int32_cell (pos 3) ∷ []) ∷ (null_cell ∷ []) ∷ [];
      }
      ∷ record {
        field = record { name = codes "l"; type = list; nullable = false };
        chunks = (list_cell (message (codes "[7]")) ∷ list_cell (message (codes "[7]")) ∷ []) ∷ [];
      }
      ∷ [];
}

table_values_lem_example :
    (q : QueryResult) × (table_to_query_result (extract_arrow_value sevens) numbers_and_lists
      ≡ value q)
    × Shown q 1 0
table_values_lem_example =
    table_values_lem sevens numbers_and_lists 1 0 {x = list_cell (message (codes "[7]"))}
      (refl, (refl, tt)) refl refl (unfold type_id in refl)
      (codes "[7]", cons (int (pos 7)) nil, refl, refl)
