-- ===== src/Spark/Extract/Kinds.antt =====
-- The values of a column as its schema announces them.
use livy_next.Prelude.{
  ◌≡◌, ◌⊎◌, inl, inr, subst, refl, Option, none, some, Text, codes, text_eq, ◌||◌, if◌then◌else◌,
}
use livy_next.Value.{Value, nil_value, bool, int, float, text, arr, obj, Values, Fields}
use livy_next.Spark.Table.{TypeId, detect_spark_type_from_arrow}
use livy_next.Spark.Table as Table
use livy_next.Spark.Sanitize.{sanitize_value}
use livy_next.Spark.Sanitize.Clean.{IsClean}
use livy_next.Spark.Extract.Clean.{extract-IsClean}
use livy_next.Spark.Extract.{
  Cell, null_cell, boolean_cell, int8_cell, int16_cell, int32_cell, int64_cell, uint8_cell,
  uint16_cell, uint32_cell, uint64_cell, float16_cell, float32_cell, float64_cell, string_cell,
  large_string_cell, string_view_cell, binary_cell, large_binary_cell, binary_view_cell,
  fixed_size_binary_cell, date32_cell, date64_cell, timestamp_cell, month_interval_cell,
  day_time_interval_cell, month_day_nano_interval_cell, duration_cell, decimal128_cell,
  decimal256_cell, list_cell, large_list_cell, fixed_size_list_cell, map_cell, struct_cell,
  other_cell, Raw, message, other, Json, extract_list, extract_map, extract_struct, decoded,
  decoded_map, decoded_struct, extract_arrow_value,
}

-- The Arrow type of an array that holds such cells, where the array's Go type tells it.
unfoldable pub type_id : Cell → Option TypeId
type_id null_cell = none
type_id (boolean_cell b) = some Table.TypeId.bool
type_id (int8_cell n) = some Table.TypeId.int8
type_id (int16_cell n) = some Table.TypeId.int16
type_id (int32_cell n) = some Table.TypeId.int32
type_id (int64_cell n) = some Table.TypeId.int64
type_id (uint8_cell n) = some Table.TypeId.uint8
type_id (uint16_cell n) = some Table.TypeId.uint16
type_id (uint32_cell n) = some Table.TypeId.uint32
type_id (uint64_cell n) = some Table.TypeId.uint64
type_id (float16_cell x) = some Table.TypeId.float16
type_id (float32_cell x) = some Table.TypeId.float32
type_id (float64_cell x) = some Table.TypeId.float64
type_id (string_cell s) = some Table.TypeId.string
type_id (large_string_cell s) = some Table.TypeId.large_string
type_id (string_view_cell s) = some Table.TypeId.string_view
type_id (binary_cell xs) = some Table.TypeId.binary
type_id (large_binary_cell xs) = some Table.TypeId.large_binary
type_id (binary_view_cell xs) = some Table.TypeId.binary_view
type_id (fixed_size_binary_cell xs) = some Table.TypeId.fixed_size_binary
type_id (date32_cell d) = some Table.TypeId.date32
type_id (date64_cell d) = some Table.TypeId.date64
type_id (timestamp_cell t) = some Table.TypeId.timestamp
type_id (month_interval_cell m) = some Table.TypeId.interval_months
type_id (day_time_interval_cell d ms) = some Table.TypeId.interval_day_time
type_id (month_day_nano_interval_cell m d n) = some Table.TypeId.interval_month_day_nano
type_id (duration_cell d unit) = some Table.TypeId.duration
type_id (decimal128_cell n scale) = some Table.TypeId.decimal128
type_id (decimal256_cell n scale) = some Table.TypeId.decimal256
type_id (list_cell r) = some Table.TypeId.list
type_id (large_list_cell r) = some Table.TypeId.large_list
type_id (fixed_size_list_cell r) = some Table.TypeId.fixed_size_list
type_id (map_cell r) = some Table.TypeId.map_type
type_id (struct_cell r) = some Table.TypeId.struct
type_id (other_cell r) = none

-- How a value stands in JSON, as far as its type tells.
pub data JsonKind : Type 0 where
  null_kind bool_kind number_kind string_kind array_kind object_kind unknown_kind : JsonKind

unfoldable pub kind_of : Value → JsonKind
kind_of nil_value = null_kind
kind_of (bool b) = bool_kind
kind_of (int n) = number_kind
kind_of (float x) = number_kind
kind_of (text s) = string_kind
kind_of (arr xs) = array_kind
kind_of (obj fs) = object_kind
kind_of _ = unknown_kind

-- What a reader of the schema may expect at a column of that type.
unfoldable pub announced : Text → JsonKind
announced t =
    if text_eq t (codes "boolean")
    then bool_kind
    else if text_eq t (codes "byte")
        || text_eq t (codes "short")
        || text_eq t (codes "integer")
        || text_eq t (codes "long")
        || text_eq t (codes "float")
        || text_eq t (codes "double")
    then number_kind
    else if text_eq t (codes "array")
    then array_kind
    else if text_eq t (codes "map") || text_eq t (codes "struct")
    then object_kind
    else string_kind

-- Whether a value is of the kind that its column announces, where the array's type is known.
abbrev Agrees : Value → Option TypeId → Type 0
Agrees v none = Unit {0}
Agrees v (some t) = kind_of v ≡ announced (detect_spark_type_from_arrow t)

module _ (json : Json) where
  -- What Arrow makes of a list is JSON of an array.
  abbrev pub IsJsonArray : Raw → Type 0
  IsJsonArray r = (s : Text) × (xs : Values) × (r ≡ message s) × (json.decode s ≡ some (arr xs))

  -- What it makes of a map is JSON of an array of keys and values.
  abbrev pub IsJsonPairs : Raw → Type 0
  IsJsonPairs r = (s : Text) × (fs : Fields) × (r ≡ message s) × (json.decode_pairs s ≡ some fs)

  -- What it makes of a struct is a map, or JSON of an object.
  abbrev pub IsJsonObject : Raw → Type 0
  IsJsonObject r =
      (fs : Fields) × ((r ≡ other (obj fs))
        ⊎ ((s : Text) × (r ≡ message s) × (json.decode_object s ≡ some fs)))

  abbrev pub IsMarshaled : Cell → Type 0
  IsMarshaled (list_cell r) = IsJsonArray r
  IsMarshaled (large_list_cell r) = IsJsonArray r
  IsMarshaled (fixed_size_list_cell r) = IsJsonArray r
  IsMarshaled (map_cell r) = IsJsonPairs r
  IsMarshaled (struct_cell r) = IsJsonObject r
  IsMarshaled _ = Unit {0}

  extract_list-kind : (r : Raw) → IsJsonArray r → kind_of (extract_list json r) ≡ array_kind
  unfolding extract_list decoded sanitize_value kind_of
  extract_list-kind r (s, xs, e, f) = rw e (rw f refl)

  extract_map-kind : (r : Raw) → IsJsonPairs r → kind_of (extract_map json r) ≡ object_kind
  unfolding extract_map decoded_map kind_of
  extract_map-kind r (s, fs, e, f) = rw e (rw f refl)

  extract_struct-kind : (r : Raw) → IsJsonObject r → kind_of (extract_struct json r) ≡ object_kind
  unfolding extract_struct decoded_struct sanitize_value kind_of
  extract_struct-kind r (fs, inl e) = rw e refl
  extract_struct-kind r (fs, inr (s, e, f)) = rw e (rw f refl)

  extract-Agrees : (c : Cell) → IsMarshaled c → Agrees (extract_arrow_value json c) (type_id c)
  unfolding extract_arrow_value type_id kind_of announced detect_spark_type_from_arrow text_eq
  extract-Agrees null_cell a = tt
  extract-Agrees (boolean_cell b) a = refl
  extract-Agrees (int8_cell n) a = refl
  extract-Agrees (int16_cell n) a = refl
  extract-Agrees (int32_cell n) a = refl
  extract-Agrees (int64_cell n) a = refl
  extract-Agrees (uint8_cell n) a = refl
  extract-Agrees (uint16_cell n) a = refl
  extract-Agrees (uint32_cell n) a = refl
  extract-Agrees (uint64_cell n) a = refl
  extract-Agrees (float16_cell x) a = refl
  extract-Agrees (float32_cell x) a = refl
  extract-Agrees (float64_cell x) a = refl
  extract-Agrees (string_cell s) a = refl
  extract-Agrees (large_string_cell s) a = refl
  extract-Agrees (string_view_cell s) a = refl
  extract-Agrees (binary_cell xs) a = refl
  extract-Agrees (large_binary_cell xs) a = refl
  extract-Agrees (binary_view_cell xs) a = refl
  extract-Agrees (fixed_size_binary_cell xs) a = refl
  extract-Agrees (date32_cell d) a = refl
  extract-Agrees (date64_cell d) a = refl
  extract-Agrees (timestamp_cell x) a = refl
  extract-Agrees (month_interval_cell m) a = refl
  extract-Agrees (day_time_interval_cell d ms) a = refl
  extract-Agrees (month_day_nano_interval_cell m d n) a = refl
  extract-Agrees (duration_cell d u) a = refl
  extract-Agrees (decimal128_cell n s) a = refl
  extract-Agrees (decimal256_cell n s) a = refl
  extract-Agrees (list_cell r) a = extract_list-kind r a
  extract-Agrees (large_list_cell r) a = extract_list-kind r a
  extract-Agrees (fixed_size_list_cell r) a = extract_list-kind r a
  extract-Agrees (map_cell r) a = extract_map-kind r a
  extract-Agrees (struct_cell r) a = extract_struct-kind r a
  extract-Agrees (other_cell r) a = tt

  -- about
  pub extract_arrow_value_lem :
      (c : Cell) {t : TypeId}
      → type_id c ≡ some t
      → IsMarshaled c
      → IsClean (extract_arrow_value json c)
        × (kind_of (extract_arrow_value json c) ≡ announced (detect_spark_type_from_arrow t))
  extract_arrow_value_lem c e a =
      (extract-IsClean json c, subst (Agrees (extract_arrow_value json c)) e (extract-Agrees c a))
