-- ===== src/Spark/Sanitize/Clean.antt =====
-- The values that SanitizeValue answers.
use livy_next.Prelude.{
  ◌≡◌, refl, Bool, true, false, Text, text_eq, ◌||◌, arith, Bool-cases, inl, inr, text_eq→eq,
  text_eq_refl,
}
use livy_next.Value.{
  Value, nil_value, bool, int, float, text, bytes, decimal, timestamp, date32, date64, time,
  month_interval, day_time_interval, month_day_nano_interval, duration, arr, obj, any_map,
  nil_pointer, pointer, byte_slice, slice, map_of, marshaler, stringer, struct, opaque, Values, nil,
  cons, Fields, end, field, Members, done, member,
}
use livy_next.Time.{Time, is_zero}
use livy_next.Spark.Sanitize.{
  put, time_value, sanitize_value, sanitize_values, sanitize_fields, sanitize_members,
}

unfoldable pub has_key : Text → Fields → Bool
has_key k end = false
has_key k (field j v fs) = text_eq j k || has_key k fs

-- Only basic values, arrays and maps with distinct keys of such, values that marshal themselves,
-- and values of the kinds that are let through.
unfoldable mutual
  pub IsClean : Value → Type 0
  IsClean nil_value = Unit {0}
  IsClean (bool b) = Unit {0}
  IsClean (int n) = Unit {0}
  IsClean (float x) = Unit {0}
  IsClean (text s) = Unit {0}
  IsClean (marshaler j) = Unit {0}
  IsClean (opaque s) = Unit {0}
  IsClean (arr xs) = AreClean xs
  IsClean (obj fs) = FieldsClean fs
  IsClean (bytes xs) = ⊥
  IsClean (decimal n) = ⊥
  IsClean (timestamp t) = ⊥
  IsClean (date32 d) = ⊥
  IsClean (date64 d) = ⊥
  IsClean (time t) = ⊥
  IsClean (month_interval m) = ⊥
  IsClean (day_time_interval d ms) = ⊥
  IsClean (month_day_nano_interval m d n) = ⊥
  IsClean (duration d) = ⊥
  IsClean (any_map fs) = ⊥
  IsClean nil_pointer = ⊥
  IsClean (pointer v) = ⊥
  IsClean (byte_slice xs) = ⊥
  IsClean (slice xs) = ⊥
  IsClean (map_of fs) = ⊥
  IsClean (stringer s) = ⊥
  IsClean (struct ms) = ⊥

  pub AreClean : Values → Type 0
  AreClean nil = Unit {0}
  AreClean (cons x xs) = IsClean x × AreClean xs

  pub FieldsClean : Fields → Type 0
  FieldsClean end = Unit {0}
  FieldsClean (field k v fs) = (has_key k fs ≡ false) × IsClean v × FieldsClean fs

pub text_eq_ne : (j k : Text) → text_eq j k ≡ false → text_eq k j ≡ false
text_eq_ne j k h = ground (arith, text_eq→eq k j, text_eq_refl j)

pub has_key-put :
    (j k : Text) (v : Value) (fs : Fields)
    → text_eq k j ≡ false
    → has_key j fs ≡ false
    → has_key j (put k v fs) ≡ false
unfolding has_key put
has_key-put j k v end h e = ground arith
has_key-put j k v (field i w fs) h e = ground (arith, has_key-put j k v fs)

FieldsClean-put :
    (k : Text) (v : Value) (fs : Fields) → IsClean v → FieldsClean fs → FieldsClean (put k v fs)
unfolding put has_key IsClean
FieldsClean-put k v end c h = (refl, c, tt)
FieldsClean-put k v (field j w fs) c (a, d, h) = elim (Bool-cases (text_eq j k)) [
  | inl e ↦ rw e (a, c, h)
  | inr e ↦ rw e (has_key-put j k v fs (text_eq_ne j k e) a, d, FieldsClean-put k v fs c h)
]

time_value-IsClean : (t : Time) → IsClean (time_value t)
unfolding time_value IsClean
time_value-IsClean t = elim (Bool-cases (is_zero t)) [ inl e ↦ rw e tt | inr e ↦ rw e tt ]

mutual
  unfolding sanitize_value IsClean

  value-IsClean : (v : Value) → IsClean (sanitize_value v)
  value-IsClean nil_value = tt
  value-IsClean (bool b) = tt
  value-IsClean (int n) = tt
  value-IsClean (float x) = tt
  value-IsClean (text s) = tt
  value-IsClean (bytes xs) = tt
  value-IsClean (decimal n) = tt
  value-IsClean (timestamp us) = tt
  value-IsClean (date32 days) = tt
  value-IsClean (date64 ms) = tt
  value-IsClean (time t) = time_value-IsClean t
  value-IsClean (month_interval m) = tt
  value-IsClean (day_time_interval days ms) = tt
  value-IsClean (month_day_nano_interval m d n) = tt
  value-IsClean (duration d) = tt
  value-IsClean (arr xs) = values-AreClean xs
  value-IsClean (obj fs) = fields-FieldsClean fs end tt
  value-IsClean (any_map fs) = fields-FieldsClean fs end tt
  value-IsClean nil_pointer = tt
  value-IsClean (pointer v) = value-IsClean v
  value-IsClean (byte_slice xs) = tt
  value-IsClean (slice xs) = values-AreClean xs
  value-IsClean (map_of fs) = fields-FieldsClean fs end tt
  value-IsClean (marshaler j) = tt
  value-IsClean (stringer s) = tt
  value-IsClean (struct ms) = members-FieldsClean ms end tt
  value-IsClean (opaque s) = tt

  values-AreClean : (xs : Values) → AreClean (sanitize_values xs)
  values-AreClean nil = tt
  values-AreClean (cons x xs) = (value-IsClean x, values-AreClean xs)

  fields-FieldsClean : (fs res : Fields) → FieldsClean res → FieldsClean (sanitize_fields fs res)
  fields-FieldsClean end res h = h
  fields-FieldsClean (field k v fs) res h =
      fields-FieldsClean fs (put k (sanitize_value v) res)
        (FieldsClean-put k (sanitize_value v) res (value-IsClean v) h)

  members-FieldsClean :
      (ms : Members) (res : Fields) → FieldsClean res → FieldsClean (sanitize_members ms res)
  members-FieldsClean done res h = h
  members-FieldsClean (member name true v ms) res h =
      members-FieldsClean ms (put name (sanitize_value v) res)
        (FieldsClean-put name (sanitize_value v) res (value-IsClean v) h)
  members-FieldsClean (member name false v ms) res h = members-FieldsClean ms res h

-- What SanitizeValue answers holds only nil, Booleans, numbers, texts, slices of such values,
-- maps with distinct keys from texts to such values, structs that marshal themselves, and values
-- of the kinds that it lets through.
pub sanitize_value-IsClean : (v : Value) → IsClean (sanitize_value v)
sanitize_value-IsClean v = value-IsClean v
