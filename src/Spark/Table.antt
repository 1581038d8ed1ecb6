-- ===== src/Spark/Table.antt =====
-- pkg/spark/client.go: detectSparkTypeFromArrow and ArrowTableToQueryResult. A chunk of a column is
-- the list of its cells; what extractArrowValue makes of a cell is the parameter `extract`.
pub mod Grid
pub mod Cells
use livy_next.Prelude.{
  ℕ, suc, ◌+◌, Bool, true, List, [], ◌∷◌, map, Option, none, some, Text, codes, length, get_elem?,
  set, replicate, ltb, if◌then◌else◌,
}
use livy_next.Prelude.Int.{pos}
use livy_next.Prelude.Outcome.{Outcome, value, panic, bind, map_outcome}
use livy_next.Session.Types.{QueryResult, Schema, SchemaField}
use livy_next.Value.{Value, nil_value}

-- The identifiers of Arrow's types that the code distinguishes; the last stands for any other.
pub data TypeId : Type 0 where
  bool int8 int16 int32 int64 uint8 uint16 uint32 uint64 float16 float32 float64 : TypeId
  decimal32 decimal64 decimal128 decimal256 string large_string string_view : TypeId
  binary large_binary binary_view fixed_size_binary date32 date64 timestamp : TypeId
  interval_months interval_day_time interval_month_day_nano duration : TypeId
  list large_list fixed_size_list list_view large_list_view map_type struct other_type : TypeId

unfoldable pub detect_spark_type_from_arrow : TypeId → Text
detect_spark_type_from_arrow bool = codes "boolean"
detect_spark_type_from_arrow int8 = codes "byte"
detect_spark_type_from_arrow int16 = codes "short"
detect_spark_type_from_arrow int32 = codes "integer"
detect_spark_type_from_arrow int64 = codes "long"
detect_spark_type_from_arrow uint8 = codes "byte"
detect_spark_type_from_arrow uint16 = codes "short"
detect_spark_type_from_arrow uint32 = codes "integer"
detect_spark_type_from_arrow uint64 = codes "long"
detect_spark_type_from_arrow float16 = codes "float"
detect_spark_type_from_arrow float32 = codes "float"
detect_spark_type_from_arrow float64 = codes "double"
detect_spark_type_from_arrow decimal32 = codes "decimal"
detect_spark_type_from_arrow decimal64 = codes "decimal"
detect_spark_type_from_arrow decimal128 = codes "decimal"
detect_spark_type_from_arrow decimal256 = codes "decimal"
detect_spark_type_from_arrow string = codes "string"
detect_spark_type_from_arrow large_string = codes "string"
detect_spark_type_from_arrow string_view = codes "string"
detect_spark_type_from_arrow binary = codes "binary"
detect_spark_type_from_arrow large_binary = codes "binary"
detect_spark_type_from_arrow binary_view = codes "binary"
detect_spark_type_from_arrow fixed_size_binary = codes "binary"
detect_spark_type_from_arrow date32 = codes "date"
detect_spark_type_from_arrow date64 = codes "date"
detect_spark_type_from_arrow timestamp = codes "timestamp"
detect_spark_type_from_arrow interval_months = codes "interval"
detect_spark_type_from_arrow interval_day_time = codes "interval"
detect_spark_type_from_arrow interval_month_day_nano = codes "interval"
detect_spark_type_from_arrow duration = codes "interval"
detect_spark_type_from_arrow list = codes "array"
detect_spark_type_from_arrow large_list = codes "array"
detect_spark_type_from_arrow fixed_size_list = codes "array"
detect_spark_type_from_arrow list_view = codes "array"
detect_spark_type_from_arrow large_list_view = codes "array"
detect_spark_type_from_arrow map_type = codes "map"
detect_spark_type_from_arrow struct = codes "struct"
detect_spark_type_from_arrow other_type = codes "string"

pub record Field : Type 0 where
  pub name : Text
  pub type : TypeId
  pub nullable : Bool

pub record Column (C : Type 0) : Type 0 where
  pub field : Field
  pub chunks : List (List C)

pub record Table (C : Type 0) : Type 0 where
  pub num_rows : ℕ
  pub columns : List (Column C)

unfoldable pub schema_field : Field → SchemaField
schema_field f = record {
  name = f.name;
  type = detect_spark_type_from_arrow f.type;
  nullable = f.nullable;
  metadata = [];
}

abbrev pub schema_of : {C : Type 0} → List (Column C) → Option Schema
schema_of [] = none
schema_of (col ∷ cols) =
    some
      (record { type = codes "struct"; fields = map (λ col. schema_field col.field) (col ∷ cols) })

abbrev pub result_of : {C : Type 0} → List (Column C) → List (List Value) → QueryResult
result_of cols rows = record {
  schema = schema_of cols;
  rows = rows;
  total = pos 0;
  from = pos 0;
  size = pos 0;
}

put_in : List (List Value) → ℕ → ℕ → Value → Option (List Value) → Outcome (List (List Value))
put_in rows r c v none = panic
put_in rows r c v (some row) =
    if ltb c (length row) then value (set rows r (set row c v)) else panic

-- rows[r][c] = v
unfoldable pub put : List (List Value) → ℕ → ℕ → Value → Outcome (List (List Value))
unfolding put_in
put rows r c v = put_in rows r c v (get_elem? rows r)

module _ {C : Type 0} (extract : C → Value) where
  -- The innermost loop, from row r on.
  unfoldable pub fill_chunk : ℕ → ℕ → List C → List (List Value) → Outcome (List (List Value))
  fill_chunk c r [] rows = value rows
  fill_chunk c r (x ∷ xs) rows = bind (put rows r c (extract x)) (fill_chunk c (suc r) xs)

  unfoldable pub fill_chunks :
      ℕ → ℕ → List (List C) → List (List Value) → Outcome (List (List Value))
  fill_chunks c r [] rows = value rows
  fill_chunks c r (chunk ∷ chunks) rows =
      bind (fill_chunk c r chunk rows) (fill_chunks c (r + length chunk) chunks)

  unfoldable pub fill_columns :
      ℕ → List (Column C) → List (List Value) → Outcome (List (List Value))
  fill_columns c [] rows = value rows
  fill_columns c (col ∷ cols) rows =
      bind (fill_chunks c 0 col.chunks rows) (fill_columns (suc c) cols)

  unfoldable pub table_to_query_result : Table C → Outcome QueryResult
  table_to_query_result t =
      map_outcome (result_of t.columns)
        (fill_columns 0 t.columns (replicate t.num_rows (replicate (length t.columns) nil_value)))
