-- ===== src/Time/Duration.antt =====
-- time.ParseDuration of Go. A number with a fraction is rounded by floating-point arithmetic, which
-- is the parameter `fraction`: the nanoseconds of f / 10 ^ digits of a unit.

pub mod Units
pub mod Plain
pub mod Fuel
use livy_next.Prelude.{
  ℕ, zero, suc, ◌+◌, ◌-◌, ◌*◌, ◌/◌, ◌^◌, Bool, true, false, [], ◌∷◌, Option, none, some, Text,
  codes, is_empty, text_eq, length, leb, ltb, ◌==◌, ◌&&◌, ◌||◌, not, if◌then◌else◌,
}
use livy_next.Prelude.Int.{ℤ, pos, sub_ℕ}
use livy_next.Prelude.Int64.{sign_bit}
use livy_next.Strconv.{is_digit}

-- leadingInt: the value of the digits and what follows; none where the value exceeds 2 ^ 63.
unfoldable pub leading_int : ℕ → Text → Option (ℕ × Text)
leading_int x [] = some (x, [])
leading_int x (c ∷ s) =
    let y = 10 * x + (c - b'0') in
    let rest = leading_int y s in
    if is_digit c
    then (if ltb (sign_bit / 10) x then none else if ltb sign_bit y then none else rest)
    else some (x, c ∷ s)

-- leadingFraction: the value of the digits, how many of them count, and what follows. Digits after
-- an overflow do not count.
unfoldable pub leading_fraction : Bool → ℕ → ℕ → Text → (ℕ × ℕ) × Text
leading_fraction over x k [] = ((x, k), [])
leading_fraction over x k (c ∷ s) =
    let y = 10 * x + (c - b'0') in
    let skipped = leading_fraction true x k s in
    let counted = leading_fraction false y (suc k) s in
    if is_digit c
    then (if over || ltb ((sign_bit - 1) / 10) x || ltb sign_bit y then skipped else counted)
    else ((x, k), c ∷ s)

-- The unit that follows, up to the next digit or period, and the rest.
unfoldable pub leading_unit : Text → Text × Text
leading_unit [] = ([], [])
leading_unit (c ∷ s) =
    let (u, rest) = leading_unit s in
    if is_digit c || (c == b'.') then ([], c ∷ s) else (c ∷ u, rest)

unfoldable pub unit_nanos : Text → Option ℕ
unit_nanos u =
    if text_eq u (codes "ns")
    then some 1
    else if text_eq u (codes "us")
        || text_eq u (194 ∷ 181 ∷ b's' ∷ [])
        || text_eq u (206 ∷ 188 ∷ b's' ∷ [])
    then some 1000
    else if text_eq u (codes "ms")
    then some 1000000
    else if text_eq u (codes "s")
    then some 1000000000
    else if text_eq u (codes "m")
    then some 60000000000
    else if text_eq u (codes "h")
    then some 3600000000000
    else none

abbrev starts_number : Text → Bool
starts_number [] = false
starts_number (c ∷ s) = is_digit c || (c == b'.')

abbrev after_point : Text → Option Text
after_point [] = none
after_point (c ∷ s) = if c == b'.' then some s else none

-- Whether the digits after the period are any, their value, their number, and what follows.
abbrev fraction_part : Option Text → Text → Bool × ((ℕ × ℕ) × Text)
fraction_part none s = (false, ((0, 0), s))
fraction_part (some t) s = let r = leading_fraction false 0 0 t in (not (length t == length r.1), r)

module _ (fraction : ℕ → ℕ → ℕ → ℕ) where
  -- The value of a number of units, unless it exceeds 2 ^ 63.
  unfoldable pub amount : ℕ → ℕ × ℕ → Option ℕ → Option ℕ
  amount v (f, k) none = none
  amount v (f, k) (some unit) =
      if ltb (sign_bit / unit) v
      then none
      else let x = v * unit + (if f == 0 then 0 else fraction f k unit) in
        if ltb 0 f && ltb sign_bit x then none else some x

  one_part : Text → Option (ℕ × Text) → Option (ℕ × Text)
  one_part s none = none
  one_part s (some (v, t)) =
      let (post, (fk, r)) = fraction_part (after_point t) t in
      let (u, rest) = leading_unit r in
      if length s == length t && not post
      then none
      else if is_empty u
      then none
      else elim (amount v fk (unit_nanos u)) [ none ↦ none | some x ↦ some (x, rest) ]

  -- A number with its unit, and the rest.
  unfoldable pub parse_part : Text → Option (ℕ × Text)
  unfolding one_part
  parse_part s = if starts_number s then one_part s (leading_int 0 s) else none

  next_part : (ℕ → Text → Option ℕ) → ℕ → Option (ℕ × Text) → Option ℕ
  next_part loop d none = none
  next_part loop d (some (x, rest)) = if ltb sign_bit (d + x) then none else loop (d + x) rest

  -- The loop over the parts. Each takes at least one byte, so that as many rounds as there are bytes
  -- are enough.
  unfoldable pub parse_parts : ℕ → ℕ → Text → Option ℕ
  unfolding next_part
  parse_parts f d [] = some d
  parse_parts zero d (c ∷ s) = none
  parse_parts (suc f) d (c ∷ s) = next_part (parse_parts f) d (parse_part (c ∷ s))

  signed_duration : Bool → Option ℕ → Option ℤ
  signed_duration neg none = none
  signed_duration neg (some d) =
      if neg then some (sub_ℕ 0 d) else if ltb (sign_bit - 1) d then none else some (pos d)

  pub unsigned : Bool → Text → Option ℤ
  unfolding signed_duration
  unsigned neg s =
      if text_eq s (codes "0")
      then some (pos 0)
      else if is_empty s
      then none
      else signed_duration neg (parse_parts (length s) 0 s)

  -- none stands for an error.
  unfoldable pub parse_duration : Text → Option ℤ
  unfolding unsigned
  parse_duration [] = none
  parse_duration (c ∷ s) =
      if c == b'-'
      then unsigned true s
      else if c == b'+'
      then unsigned false s
      else unsigned false (c ∷ s)
