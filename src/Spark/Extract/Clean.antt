-- ===== src/Spark/Extract/Clean.antt =====
-- The cells that are sanitised, and those that need not be.
use livy_next.Prelude.{Option, none, some, Text}
use livy_next.Value.{Value, obj, byte_slice, Fields}
use livy_next.Spark.Sanitize.{sanitize_value}
use livy_next.Spark.Sanitize.Clean.{IsClean, sanitize_value-IsClean}
use livy_next.Spark.Extract.{
  Cell, null_cell, boolean_cell, int8_cell, int16_cell, int32_cell, int64_cell, uint8_cell,
  uint16_cell, uint32_cell, uint64_cell, float16_cell, float32_cell, float64_cell, string_cell,
  large_string_cell, string_view_cell, binary_cell, large_binary_cell, binary_view_cell,
  fixed_size_binary_cell, date32_cell, date64_cell, timestamp_cell, month_interval_cell,
  day_time_interval_cell, month_day_nano_interval_cell, duration_cell, decimal128_cell,
  decimal256_cell, list_cell, large_list_cell, fixed_size_list_cell, map_cell, struct_cell,
  other_cell, Raw, message, other, Json, extract_list, extract_map, extract_struct, extract_other,
  sanitize_raw, decoded, decoded_map, decoded_struct, decoded_other, extract_arrow_value,
}

decoded-IsClean : (s : Text) (o : Option Value) → IsClean (decoded s o)
unfolding decoded sanitize_raw
decoded-IsClean s none = sanitize_value-IsClean (byte_slice s)
decoded-IsClean s (some v) = sanitize_value-IsClean v

decoded_map-IsClean : (s : Text) (o : Option Fields) → IsClean (decoded_map s o)
unfolding decoded_map sanitize_raw sanitize_value
decoded_map-IsClean s none = sanitize_value-IsClean (byte_slice s)
decoded_map-IsClean s (some fs) = sanitize_value-IsClean (obj fs)

decoded_struct-IsClean : (s : Text) (o : Option Fields) → IsClean (decoded_struct s o)
unfolding decoded_struct sanitize_raw
decoded_struct-IsClean s none = sanitize_value-IsClean (byte_slice s)
decoded_struct-IsClean s (some fs) = sanitize_value-IsClean (obj fs)

decoded_other-IsClean : (s : Text) (o : Option Value) → IsClean (decoded_other s o)
unfolding decoded_other IsClean
decoded_other-IsClean s none = tt
decoded_other-IsClean s (some v) = sanitize_value-IsClean v

module _ (json : Json) where
  extract_list-IsClean : (r : Raw) → IsClean (extract_list json r)
  unfolding extract_list sanitize_raw
  extract_list-IsClean (message s) = decoded-IsClean s (json.decode s)
  extract_list-IsClean (other v) = sanitize_value-IsClean v

  extract_map-IsClean : (r : Raw) → IsClean (extract_map json r)
  unfolding extract_map sanitize_raw
  extract_map-IsClean (message s) = decoded_map-IsClean s (json.decode_pairs s)
  extract_map-IsClean (other v) = sanitize_value-IsClean v

  extract_struct-IsClean : (r : Raw) → IsClean (extract_struct json r)
  unfolding extract_struct sanitize_raw
  extract_struct-IsClean (message s) = decoded_struct-IsClean s (json.decode_object s)
  extract_struct-IsClean (other v) = sanitize_value-IsClean v

  extract_other-IsClean : (r : Raw) → IsClean (extract_other json r)
  unfolding extract_other sanitize_raw
  extract_other-IsClean (message s) = decoded_other-IsClean s (json.decode s)
  extract_other-IsClean (other v) = sanitize_value-IsClean v

  pub extract-IsClean : (c : Cell) → IsClean (extract_arrow_value json c)
  unfolding extract_arrow_value IsClean
  extract-IsClean null_cell = tt
  extract-IsClean (boolean_cell b) = tt
  extract-IsClean (int8_cell n) = tt
  extract-IsClean (int16_cell n) = tt
  extract-IsClean (int32_cell n) = tt
  extract-IsClean (int64_cell n) = tt
  extract-IsClean (uint8_cell n) = tt
  extract-IsClean (uint16_cell n) = tt
  extract-IsClean (uint32_cell n) = tt
  extract-IsClean (uint64_cell n) = tt
  extract-IsClean (float16_cell x) = tt
  extract-IsClean (float32_cell x) = tt
  extract-IsClean (float64_cell x) = tt
  extract-IsClean (string_cell s) = tt
  extract-IsClean (large_string_cell s) = tt
  extract-IsClean (string_view_cell s) = tt
  extract-IsClean (binary_cell xs) = tt
  extract-IsClean (large_binary_cell xs) = tt
  extract-IsClean (binary_view_cell xs) = tt
  extract-IsClean (fixed_size_binary_cell xs) = tt
  extract-IsClean (date32_cell d) = tt
  extract-IsClean (date64_cell d) = tt
  extract-IsClean (timestamp_cell x) = tt
  extract-IsClean (month_interval_cell m) = tt
  extract-IsClean (day_time_interval_cell d ms) = tt
  extract-IsClean (month_day_nano_interval_cell m d n) = tt
  extract-IsClean (duration_cell d u) = tt
  extract-IsClean (decimal128_cell n s) = tt
  extract-IsClean (decimal256_cell n s) = tt
  extract-IsClean (list_cell r) = extract_list-IsClean r
  extract-IsClean (large_list_cell r) = extract_list-IsClean r
  extract-IsClean (fixed_size_list_cell r) = extract_list-IsClean r
  extract-IsClean (map_cell r) = extract_map-IsClean r
  extract-IsClean (struct_cell r) = extract_struct-IsClean r
  extract-IsClean (other_cell r) = extract_other-IsClean r
