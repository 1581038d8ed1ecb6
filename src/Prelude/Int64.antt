-- ===== src/Prelude/Int64.antt =====
-- Go's int and int64: integers whose results are brought back into the range of 64 bits.
use livy_next.Prelude.{ℕ, ◌+◌, ◌-◌, ◌%◌, ◌/◌, ◌<◌, ◌≤◌, ◌≡◌, arith, ltb, if◌then◌else◌}
use livy_next.Prelude.Int.{ℤ, pos, negsuc, sub_ℕ, pos_part, neg_part}

-- 2 ^ 63 and 2 ^ 64
abbrev pub sign_bit : ℕ
sign_bit = 9223372036854775808

abbrev pub word : ℕ
word = 18446744073709551616

-- The bit pattern of an integer, and the integer of a bit pattern.
unfoldable pub residue : ℤ → ℕ
residue (pos n) = n % word
residue (negsuc n) = word - 1 - n % word

unfoldable pub signed : ℕ → ℤ
signed r = if ltb r sign_bit then pos r else negsuc (word - 1 - r)

-- Two's complement: what Go's +, - and * on int64 keep of the exact result.
unfoldable pub wrap64 : ℤ → ℤ
unfolding residue signed
wrap64 z = signed (residue z)

abbrev pub In64 : ℤ → Type 0
In64 z = (pos_part z < sign_bit) × (neg_part z ≤ sign_bit)

pub wrap64_id : (z : ℤ) → In64 z → wrap64 z ≡ z
unfolding wrap64
wrap64_id (pos n) h = ground arith
wrap64_id (negsuc n) h = ground arith

pub wrap64-In64 : (z : ℤ) → In64 (wrap64 z)
unfolding wrap64
wrap64-In64 (pos n) = ground arith
wrap64-In64 (negsuc n) = ground arith

-- Go's / on integers cuts off towards 0.
unfoldable pub quot_by : ℤ → ℕ → ℤ
quot_by (pos n) d = pos (n / d)
quot_by (negsuc n) d = sub_ℕ 0 ((n + 1) / d)

-- The difference of two instants stops at the ends of the range (time.Time.Sub).
unfoldable pub saturate64 : ℤ → ℤ
saturate64 (pos n) = if ltb n sign_bit then pos n else pos (sign_bit - 1)
saturate64 (negsuc n) = if ltb n sign_bit then negsuc n else negsuc (sign_bit - 1)

-- Go's % has the sign of the number that is divided.
unfoldable pub rem_by : ℤ → ℕ → ℤ
rem_by (pos n) d = pos (n % d)
rem_by (negsuc n) d = sub_ℕ 0 ((n + 1) % d)

-- The same for int32: 2 ^ 31, and what its arithmetic keeps of an exact result.
abbrev pub sign_bit32 : ℕ
sign_bit32 = 2147483648

abbrev pub In32 : ℤ → Type 0
In32 z = (pos_part z < sign_bit32) × (neg_part z ≤ sign_bit32)

residue32 : ℤ → ℕ
residue32 (pos n) = n % 4294967296
residue32 (negsuc n) = 4294967295 - n % 4294967296

unfoldable pub wrap32 : ℤ → ℤ
unfolding residue32
wrap32 z =
    if ltb (residue32 z) sign_bit32 then pos (residue32 z) else negsuc (4294967295 - residue32 z)
