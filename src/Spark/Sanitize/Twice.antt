-- ===== src/Spark/Sanitize/Twice.antt =====
-- SanitizeValue on what it answers.
use livy_next.Prelude.{◌≡◌, refl, sym, ◌∙◌, ap, false, Text, text_eq, arith}
use mathlib.Core.Path.{ap₂}
use livy_next.Value.{
  Value, nil_value, bool, int, float, text, bytes, decimal, timestamp, date32, date64, time,
  month_interval, day_time_interval, month_day_nano_interval, duration, arr, obj, any_map,
  nil_pointer, pointer, byte_slice, slice, map_of, marshaler, stringer, struct, opaque, Values, nil,
  cons, Fields, end, field,
}
use livy_next.Spark.Sanitize.{put, sanitize_value, sanitize_values, sanitize_fields}
use livy_next.Spark.Sanitize.Clean.{
  has_key, IsClean, AreClean, FieldsClean, text_eq_ne, has_key-put, sanitize_value-IsClean,
}

append : Fields → Fields → Fields
append end gs = gs
append (field k v fs) gs = field k v (append fs gs)

append-end : (fs : Fields) → append fs end ≡ fs
unfolding append
append-end end = refl
append-end (field k v fs) = ap (field k v) (append-end fs)

append-put :
    (k : Text) (v : Value) (fs gs : Fields)
    → has_key k fs ≡ false
    → append (put k v fs) gs ≡ append fs (field k v gs)
unfolding append put has_key
append-put k v end gs h = refl
append-put k v (field j w fs) gs h = ground (arith, append-put k v fs gs)

-- No key of the first is one of the second.
Apart : Fields → Fields → Type 0
Apart end res = Unit {0}
Apart (field k v fs) res = (has_key k res ≡ false) × Apart fs res

Apart-put :
    (k : Text) (v : Value) (fs res : Fields)
    → has_key k fs ≡ false
    → Apart fs res
    → Apart fs (put k v res)
unfolding Apart has_key
Apart-put k v end res h a = tt
Apart-put k v (field j w fs) res h (e, a) =
    let f : text_eq j k ≡ false = ground arith in
    let g : has_key k fs ≡ false = ground arith in
    (has_key-put j k v res (text_eq_ne j k f) e, Apart-put k v fs res g a)

Apart-end : (fs : Fields) → Apart fs end
unfolding Apart has_key
Apart-end end = tt
Apart-end (field k v fs) = (refl, Apart-end fs)

mutual
  unfolding sanitize_value IsClean append Apart

  clean_value : (v : Value) → IsClean v → sanitize_value v ≡ v
  clean_value nil_value c = refl
  clean_value (bool b) c = refl
  clean_value (int n) c = refl
  clean_value (float x) c = refl
  clean_value (text s) c = refl
  clean_value (marshaler j) c = refl
  clean_value (opaque s) c = refl
  clean_value (arr xs) c = ap arr (clean_values xs c)
  clean_value (obj fs) c = ap obj (clean_fields fs end c (Apart-end fs))
  clean_value (bytes xs) c = elim c [ ]
  clean_value (decimal n) c = elim c [ ]
  clean_value (timestamp t) c = elim c [ ]
  clean_value (date32 d) c = elim c [ ]
  clean_value (date64 d) c = elim c [ ]
  clean_value (time t) c = elim c [ ]
  clean_value (month_interval m) c = elim c [ ]
  clean_value (day_time_interval d ms) c = elim c [ ]
  clean_value (month_day_nano_interval m d n) c = elim c [ ]
  clean_value (duration d) c = elim c [ ]
  clean_value (any_map fs) c = elim c [ ]
  clean_value nil_pointer c = elim c [ ]
  clean_value (pointer v) c = elim c [ ]
  clean_value (byte_slice xs) c = elim c [ ]
  clean_value (slice xs) c = elim c [ ]
  clean_value (map_of fs) c = elim c [ ]
  clean_value (stringer s) c = elim c [ ]
  clean_value (struct ms) c = elim c [ ]

  clean_values : (xs : Values) → AreClean xs → sanitize_values xs ≡ xs
  clean_values nil c = refl
  clean_values (cons x xs) (c, d) = ap₂ cons (clean_value x c) (clean_values xs d)

  clean_fields :
      (fs res : Fields) → FieldsClean fs → Apart fs res → sanitize_fields fs res ≡ append res fs
  clean_fields end res c a = sym (append-end res)
  clean_fields (field k v fs) res (e, c, d) (f, a) =
      ap (λ w. sanitize_fields fs (put k w res)) (clean_value v c)
      ∙ clean_fields fs (put k v res) d (Apart-put k v fs res e a)
      ∙ append-put k v res fs f

-- SanitizeValue changes nothing in what it has answered.
pub sanitize_value_twice : (v : Value) → sanitize_value (sanitize_value v) ≡ sanitize_value v
sanitize_value_twice v = clean_value (sanitize_value v) (sanitize_value-IsClean v)
