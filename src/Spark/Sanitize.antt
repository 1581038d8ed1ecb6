-- ===== src/Spark/Sanitize.antt =====
-- pkg/spark/client.go: SanitizeValue and detectSparkType. A value that holds itself, on which
-- SanitizeValue does not return, is not a value of the model.
pub mod Clean
pub mod Twice
use livy_next.Prelude.{ℕ, Bool, true, false, [], ◌∷◌, ◌++◌, Text, codes, text_eq, if◌then◌else◌}
use livy_next.Prelude.Int.{ℤ, pos, ◌*ℤ◌}
use livy_next.Prelude.Int64.{quot_by, rem_by}
use livy_next.Strconv.Decimal.{show_int}
use livy_next.Base64.{encode}
use livy_next.Time.{Time, unix, is_zero, date_of, time_date, format_date, format_rfc3339}
use livy_next.Value.{
  Value, nil_value, bool, int, float, text, bytes, decimal, timestamp, date32, date64, time,
  month_interval, day_time_interval, month_day_nano_interval, duration, arr, obj, any_map,
  nil_pointer, pointer, byte_slice, slice, map_of, marshaler, stringer, struct, opaque, Values, nil,
  cons, Fields, end, field, Members, done, member,
}
use livy_next.Spark.Format.{
  format_month_interval, format_day_time_interval, format_duration, microsecond,
}

unfoldable pub date32_text : ℤ → Text
date32_text days = format_date (date_of days)

unfoldable pub date64_text : ℤ → Text
date64_text ms = format_date (time_date (unix (quot_by ms 1000) (rem_by ms 1000 *ℤ pos 1000000)))

unfoldable pub timestamp_text : ℤ → Text
timestamp_text us = format_rfc3339 (unix (quot_by us 1000000) (rem_by us 1000000 *ℤ pos 1000))

unfoldable pub month_day_nano_text : ℤ → ℤ → ℤ → Text
month_day_nano_text months days nanoseconds =
    show_int months
    ++ (codes " months "
        ++ (show_int days ++ (codes " days " ++ (show_int nanoseconds ++ codes " ns"))))

time_value : Time → Value
time_value t = if is_zero t then nil_value else text (format_rfc3339 t)

-- res[k] = v
unfoldable pub put : Text → Value → Fields → Fields
put k v end = field k v end
put k v (field j w fs) = if text_eq j k then field j v fs else field j w (put k v fs)

unfoldable mutual
  unfolding time_value put

  pub sanitize_value : Value → Value
  sanitize_value nil_value = nil_value
  sanitize_value (bool b) = bool b
  sanitize_value (int n) = int n
  sanitize_value (float x) = float x
  sanitize_value (text s) = text s
  sanitize_value (bytes xs) = text (encode xs)
  sanitize_value (decimal n) = text (show_int n)
  sanitize_value (timestamp us) = text (timestamp_text us)
  sanitize_value (date32 days) = text (date32_text days)
  sanitize_value (date64 ms) = text (date64_text ms)
  sanitize_value (time t) = time_value t
  sanitize_value (month_interval m) = text (format_month_interval m)
  sanitize_value (day_time_interval days ms) = text (format_day_time_interval days ms)
  sanitize_value (month_day_nano_interval m d n) = text (month_day_nano_text m d n)
  sanitize_value (duration d) = text (format_duration d microsecond)
  sanitize_value (arr xs) = arr (sanitize_values xs)
  sanitize_value (obj fs) = obj (sanitize_fields fs end)
  sanitize_value (any_map fs) = obj (sanitize_fields fs end)
  sanitize_value nil_pointer = nil_value
  sanitize_value (pointer v) = sanitize_value v
  sanitize_value (byte_slice xs) = text (encode xs)
  sanitize_value (slice xs) = arr (sanitize_values xs)
  sanitize_value (map_of fs) = obj (sanitize_fields fs end)
  sanitize_value (marshaler j) = marshaler j
  sanitize_value (stringer s) = text s
  sanitize_value (struct ms) = obj (sanitize_members ms end)
  sanitize_value (opaque s) = opaque s

  pub sanitize_values : Values → Values
  sanitize_values nil = nil
  sanitize_values (cons x xs) = cons (sanitize_value x) (sanitize_values xs)

  -- The loop over a map, with the result so far.
  pub sanitize_fields : Fields → Fields → Fields
  sanitize_fields end res = res
  sanitize_fields (field k v fs) res = sanitize_fields fs (put k (sanitize_value v) res)

  -- The loop over the fields of a struct.
  pub sanitize_members : Members → Fields → Fields
  sanitize_members done res = res
  sanitize_members (member name exported v ms) res =
      sanitize_members ms (if exported then put name (sanitize_value v) res else res)

unfoldable pub detect_spark_type : Value → Text
detect_spark_type nil_value = codes "void"
detect_spark_type (int n) = codes "integer"
detect_spark_type (float x) = codes "double"
detect_spark_type (decimal n) = codes "double"
detect_spark_type (bool b) = codes "boolean"
detect_spark_type (text s) = codes "string"
detect_spark_type (date32 d) = codes "date"
detect_spark_type (date64 d) = codes "date"
detect_spark_type (timestamp t) = codes "timestamp"
detect_spark_type (time t) = codes "timestamp"
detect_spark_type (month_interval m) = codes "interval"
detect_spark_type (day_time_interval d ms) = codes "interval"
detect_spark_type (month_day_nano_interval m d n) = codes "interval"
detect_spark_type (duration d) = codes "interval"
detect_spark_type (obj fs) = codes "map"
detect_spark_type (any_map fs) = codes "map"
detect_spark_type (arr xs) = codes "array"
detect_spark_type (map_of fs) = codes "map"
detect_spark_type (bytes xs) = codes "array"
detect_spark_type (byte_slice xs) = codes "array"
detect_spark_type (slice xs) = codes "array"
detect_spark_type (marshaler j) = codes "struct"
detect_spark_type (stringer s) = codes "struct"
detect_spark_type (struct ms) = codes "struct"
detect_spark_type nil_pointer = codes "string"
detect_spark_type (pointer v) = codes "string"
detect_spark_type (opaque s) = codes "string"
