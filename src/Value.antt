-- ===== src/Value.antt =====
-- What an interface{} may hold, as the types that pkg/spark/client.go tells apart.
use livy_next.Prelude.{ℕ, Bool, List, Text}
use livy_next.Prelude.Int.{ℤ}
use livy_next.Time.{Time}

-- `int` is any of Go's integer types, `float` the bit pattern of a floating-point number, `decimal`
-- a decimal128.Num or decimal256.Num, `obj` a map[string]interface{}, `any_map` a
-- map[interface{}]interface{}. The cases after it are told apart by reflection: pointers, slices and
-- maps of other types (a byte_slice has elements of an unsigned byte type), structs that implement
-- json.Marshaler (given by their JSON) or fmt.Stringer (by their text), other structs, and values
-- of any other kind. A key of a map stands for the text that the verb %v of package fmt makes of it.
mutual
  pub data Value : Type 0 where
    nil_value : Value
    bool : Bool → Value
    int : ℤ → Value
    float : ℕ → Value
    text : Text → Value
    bytes : List ℕ → Value
    decimal : ℤ → Value
    timestamp date32 date64 : ℤ → Value
    time : Time → Value
    month_interval : ℤ → Value
    day_time_interval : ℤ → ℤ → Value
    month_day_nano_interval : ℤ → ℤ → ℤ → Value
    duration : ℤ → Value
    arr : Values → Value
    obj any_map : Fields → Value
    nil_pointer : Value
    pointer : Value → Value
    byte_slice : List ℕ → Value
    slice : Values → Value
    map_of : Fields → Value
    marshaler stringer : Text → Value
    struct : Members → Value
    opaque : Text → Value

  pub data Values : Type 0 where
    nil : Values
    cons : Value → Values → Values

  pub data Fields : Type 0 where
    end : Fields
    field : Text → Value → Fields → Fields

  -- The fields of a struct, and whether they are exported.
  pub data Members : Type 0 where
    done : Members
    member : Text → Bool → Value → Members → Members
