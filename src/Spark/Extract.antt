-- ===== src/Spark/Extract.antt =====
-- pkg/spark/client.go: extractArrowValue. A cell is an array and an index; its constructor is the
-- Go type of the array.
pub mod Clean
pub mod Kinds
pub mod Schema
use livy_next.Prelude.{ℕ, Bool, List, Option, none, some, Text}
use livy_next.Prelude.Int.{ℤ, pos}
use livy_next.Base64.{encode}
use livy_next.Time.{Time, format_rfc3339}
use livy_next.Value.{Value, nil_value, bool, int, float, text, obj, byte_slice, Fields, end}
use livy_next.Spark.Format.{
  TimeUnit, format_month_interval, format_day_time_interval, format_duration, decimal128_to_string,
  decimal256_to_string,
}
use livy_next.Spark.Sanitize.{
  sanitize_value, sanitize_fields, date32_text, date64_text, month_day_nano_text,
}

-- What GetOneForMarshal answers: a json.RawMessage, or anything else.
pub data Raw : Type 0 where
  message : Text → Raw
  other : Value → Raw

-- The value at the index. A float is a bit pattern (of a float32 for a Float16), a timestamp the
-- time that ToTime makes of it, a decimal its BigInt and its scale.
pub data Cell : Type 0 where
  null_cell : Cell
  boolean_cell : Bool → Cell
  int8_cell int16_cell int32_cell int64_cell : ℤ → Cell
  uint8_cell uint16_cell uint32_cell uint64_cell : ℕ → Cell
  float16_cell float32_cell float64_cell : ℕ → Cell
  string_cell large_string_cell string_view_cell : Text → Cell
  binary_cell large_binary_cell binary_view_cell fixed_size_binary_cell : List ℕ → Cell
  date32_cell date64_cell : ℤ → Cell
  timestamp_cell : Time → Cell
  month_interval_cell : ℤ → Cell
  day_time_interval_cell : ℤ → ℤ → Cell
  month_day_nano_interval_cell : ℤ → ℤ → ℤ → Cell
  duration_cell : ℤ → TimeUnit → Cell
  decimal128_cell decimal256_cell : ℤ → ℤ → Cell
  list_cell large_list_cell fixed_size_list_cell map_cell struct_cell other_cell : Raw → Cell

-- json.Unmarshal into an interface{}, into the slice of keys and values (a key by its text), and
-- into a map[string]interface{}.
pub record Json : Type 0 where
  pub decode : Text → Option Value
  pub decode_pairs : Text → Option Fields
  pub decode_object : Text → Option Fields

unfoldable pub utc : Time → Time
utc t = record t { offset = pos 0 }

-- SanitizeValue(raw), where a json.RawMessage is a slice of bytes.
unfoldable pub sanitize_raw : Raw → Value
sanitize_raw (message s) = sanitize_value (byte_slice s)
sanitize_raw (other v) = sanitize_value v

decoded : Text → Option Value → Value
decoded s none = sanitize_raw (message s)
decoded s (some v) = sanitize_value v

decoded_map : Text → Option Fields → Value
decoded_map s none = sanitize_raw (message s)
decoded_map s (some fs) = obj (sanitize_fields fs end)

decoded_struct : Text → Option Fields → Value
decoded_struct s none = sanitize_raw (message s)
decoded_struct s (some fs) = sanitize_value (obj fs)

decoded_other : Text → Option Value → Value
decoded_other s none = text s
decoded_other s (some v) = sanitize_value v

module _ (json : Json) where
  -- The cases of the lists, which are the same three times.
  unfoldable pub extract_list : Raw → Value
  unfolding decoded sanitize_raw
  extract_list (message s) = decoded s (json.decode s)
  extract_list (other v) = sanitize_raw (other v)

  unfoldable pub extract_map : Raw → Value
  unfolding decoded_map sanitize_raw
  extract_map (message s) = decoded_map s (json.decode_pairs s)
  extract_map (other v) = sanitize_raw (other v)

  unfoldable pub extract_struct : Raw → Value
  unfolding decoded_struct sanitize_raw
  extract_struct (other v) = sanitize_value v
  extract_struct (message s) = decoded_struct s (json.decode_object s)

  unfoldable pub extract_other : Raw → Value
  unfolding decoded_other
  extract_other (message s) = decoded_other s (json.decode s)
  extract_other (other v) = sanitize_value v

  unfoldable pub extract_arrow_value : Cell → Value
  extract_arrow_value null_cell = nil_value
  extract_arrow_value (boolean_cell b) = bool b
  extract_arrow_value (int8_cell n) = int n
  extract_arrow_value (int16_cell n) = int n
  extract_arrow_value (int32_cell n) = int n
  extract_arrow_value (int64_cell n) = int n
  extract_arrow_value (uint8_cell n) = int (pos n)
  extract_arrow_value (uint16_cell n) = int (pos n)
  extract_arrow_value (uint32_cell n) = int (pos n)
  extract_arrow_value (uint64_cell n) = int (pos n)
  extract_arrow_value (float16_cell x) = float x
  extract_arrow_value (float32_cell x) = float x
  extract_arrow_value (float64_cell x) = float x
  extract_arrow_value (string_cell s) = text s
  extract_arrow_value (large_string_cell s) = text s
  extract_arrow_value (string_view_cell s) = text s
  extract_arrow_value (binary_cell xs) = text (encode xs)
  extract_arrow_value (large_binary_cell xs) = text (encode xs)
  extract_arrow_value (binary_view_cell xs) = text (encode xs)
  extract_arrow_value (fixed_size_binary_cell xs) = text (encode xs)
  extract_arrow_value (date32_cell days) = text (date32_text days)
  extract_arrow_value (date64_cell ms) = text (date64_text ms)
  extract_arrow_value (timestamp_cell t) = text (format_rfc3339 (utc t))
  extract_arrow_value (month_interval_cell m) = text (format_month_interval m)
  extract_arrow_value (day_time_interval_cell days ms) = text (format_day_time_interval days ms)
  extract_arrow_value (month_day_nano_interval_cell m d n) = text (month_day_nano_text m d n)
  extract_arrow_value (duration_cell d unit) = text (format_duration d unit)
  extract_arrow_value (decimal128_cell n scale) = text (decimal128_to_string n scale)
  extract_arrow_value (decimal256_cell n scale) = text (decimal256_to_string n scale)
  extract_arrow_value (list_cell r) = extract_list r
  extract_arrow_value (large_list_cell r) = extract_list r
  extract_arrow_value (fixed_size_list_cell r) = extract_list r
  extract_arrow_value (map_cell r) = extract_map r
  extract_arrow_value (struct_cell r) = extract_struct r
  extract_arrow_value (other_cell r) = extract_other r
