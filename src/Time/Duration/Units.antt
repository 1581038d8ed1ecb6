-- ===== src/Time/Duration/Units.antt =====
-- A whole number of one unit.
use livy_next.Prelude.{
  ℕ, zero, suc, ◌+◌, ◌-◌, ◌*◌, ◌/◌, ◌<◌, ◌≤◌, ◌≡◌, refl, sym, ◌∙◌, ap, true, false, [], ◌∷◌, ◌++◌,
  none, some, Text, codes, text_eq, length, length-append, ltb, ◌==◌, Bool-cases, inl, inr, arith,
}
use livy_next.Prelude.Int.{pos}
use livy_next.Prelude.Int64.{sign_bit}
use livy_next.Strconv.{is_digit, digits_from, digits_value}
use livy_next.Strconv.Decimal.{show_nat, digits_value-show_nat}
use livy_next.Time.Duration.{
  leading_int, leading_unit, unit_nanos, amount, one_part, parse_part, next_part, parse_parts,
  signed_duration, unsigned, parse_duration,
}

pub data UnitName : Type 0 where
  nanoseconds microseconds milliseconds seconds minutes hours : UnitName

abbrev pub unit_text : UnitName → Text
unit_text nanoseconds = codes "ns"
unit_text microseconds = codes "us"
unit_text milliseconds = codes "ms"
unit_text seconds = codes "s"
unit_text minutes = codes "m"
unit_text hours = codes "h"

abbrev pub unit_size : UnitName → ℕ
unit_size nanoseconds = 1
unit_size microseconds = 1000
unit_size milliseconds = 1000000
unit_size seconds = 1000000000
unit_size minutes = 60000000000
unit_size hours = 3600000000000

digits_from-ge : (x : ℕ) (s : Text) {v : ℕ} → digits_from x s ≡ some v → x ≤ v
unfolding digits_from
digits_from-ge x [] h = ground arith
digits_from-ge x (c ∷ s) {v} h = elim (Bool-cases (is_digit c)) [
  | inl e ↦
      let g : digits_from (10 * x + (c - b'0')) s ≡ some v = rw e at h in
      omega (arith, digits_from-ge (10 * x + (c - b'0')) s g)
  | inr e ↦ (let g : none ≡ some v = rw e at h in absurd cc)
]

-- The text does not go on with a digit.
abbrev pub Stops : Text → Type 0
Stops [] = Unit {0}
Stops (c ∷ s) = is_digit c ≡ false

leading_int-Stops : (x : ℕ) (r : Text) → Stops r → leading_int x r ≡ some (x, r)
unfolding leading_int
leading_int-Stops x [] h = refl
leading_int-Stops x (c ∷ r) h = rw h refl

pub leading_int-digits :
    (x : ℕ) (s r : Text) {v : ℕ}
    → digits_from x s ≡ some v
    → v ≤ sign_bit
    → Stops r
    → leading_int x (s ++ r) ≡ some (v, r)
unfolding digits_from leading_int
leading_int-digits x [] r {v} h l k = leading_int-Stops x r k ∙ ground arith
leading_int-digits x (c ∷ s) r {v} h l k = elim (Bool-cases (is_digit c)) [
  | inl e ↦
      (let y = 10 * x + (c - b'0') in
        let g : digits_from y s ≡ some v = rw e at h in
        let m : y ≤ v = digits_from-ge y s g in
        let a : ltb (sign_bit / 10) x ≡ false = ground arith in
        let b : ltb sign_bit y ≡ false = ground arith in
        rw (e, a, b) (leading_int-digits y s r g l k))
  | inr e ↦ (let g : none ≡ some v = rw e at h in absurd cc)
]

module _ (fraction : ℕ → ℕ → ℕ → ℕ) where
  amount_lem :
      (u : UnitName) (v : ℕ)
      → v * unit_size u < sign_bit
      → amount fraction v (0, 0) (unit_nanos (unit_text u)) ≡ some (v * unit_size u)
  unfolding amount unit_nanos text_eq
  amount_lem nanoseconds v h = ground arith
  amount_lem microseconds v h = ground arith
  amount_lem milliseconds v h = ground arith
  amount_lem seconds v h = ground arith
  amount_lem minutes v h = ground arith
  amount_lem hours v h = ground arith

  one_part_lem :
      (u : UnitName) (s : Text) (v : ℕ)
      → (length s == length (unit_text u)) ≡ false
      → v * unit_size u < sign_bit
      → one_part fraction s (some (v, unit_text u)) ≡ some (v * unit_size u, [])
  unfolding one_part leading_unit
  one_part_lem nanoseconds s v e h = rw (e, amount_lem nanoseconds v h) refl
  one_part_lem microseconds s v e h = rw (e, amount_lem microseconds v h) refl
  one_part_lem milliseconds s v e h = rw (e, amount_lem milliseconds v h) refl
  one_part_lem seconds s v e h = rw (e, amount_lem seconds v h) refl
  one_part_lem minutes s v e h = rw (e, amount_lem minutes v h) refl
  one_part_lem hours s v e h = rw (e, amount_lem hours v h) refl

  stops_lem : (u : UnitName) → Stops (unit_text u)
  stops_lem nanoseconds = refl
  stops_lem microseconds = refl
  stops_lem milliseconds = refl
  stops_lem seconds = refl
  stops_lem minutes = refl
  stops_lem hours = refl

  small_lem : (u : UnitName) (v : ℕ) → v * unit_size u < sign_bit → v < sign_bit
  small_lem nanoseconds v h = omega arith
  small_lem microseconds v h = omega arith
  small_lem milliseconds v h = omega arith
  small_lem seconds v h = omega arith
  small_lem minutes v h = omega arith
  small_lem hours v h = omega arith

  parse_parts-nil : (f d : ℕ) → parse_parts fraction f d [] ≡ some d
  unfolding parse_parts
  parse_parts-nil zero d = refl
  parse_parts-nil (suc f) d = refl

  -- One round of the loop, where it reads everything.
  parse_parts-one :
      (c : ℕ) (s : Text) (x : ℕ)
      → parse_part fraction (c ∷ s) ≡ some (x, [])
      → x < sign_bit
      → parse_parts fraction (length (c ∷ s)) 0 (c ∷ s) ≡ some x
  unfolding parse_parts
  parse_parts-one c s x e h =
      let a : ltb sign_bit (0 + x) ≡ false = ground arith in
      rw (e, next_part) (rw a (parse_parts-nil (length s) (0 + x) ∙ ap some (omega arith)))

  unsigned_lem :
      (c d : ℕ) (s : Text) (x : ℕ)
      → parse_part fraction (c ∷ d ∷ s) ≡ some (x, [])
      → x < sign_bit
      → unsigned fraction false (c ∷ d ∷ s) ≡ some (pos x)
  unfolding unsigned
  unsigned_lem c d s x e h =
      let a : text_eq (c ∷ d ∷ s) (codes "0") ≡ false = unfold text_eq in ground arith in
      let b : ltb (sign_bit - 1) x ≡ false = ground arith in
      rw a (rw (parse_parts-one c (d ∷ s) x e h, signed_duration) (rw b refl))

  digit_lem :
      (u : UnitName) (c : ℕ) (t : Text) (n : ℕ)
      → is_digit c ≡ true
      → digits_from 0 (c ∷ t) ≡ some n
      → n * unit_size u < sign_bit
      → parse_part fraction ((c ∷ t) ++ unit_text u) ≡ some (n * unit_size u, [])
  unfolding parse_part
  digit_lem u c t n a g h =
      let s = (c ∷ t) ++ unit_text u in
      let l : leading_int 0 s ≡ some (n, unit_text u) =
        leading_int-digits 0 (c ∷ t) (unit_text u) g (omega (arith, small_lem u n h))
          (stops_lem u) in
      let m : length s ≡ suc (length t) + length (unit_text u) =
        length-append (c ∷ t) (unit_text u) in
      let e : (length s == length (unit_text u)) ≡ false = ground arith in
      rw (a, l) (one_part_lem u s n e h)

  unsigned_digit :
      (u : UnitName) (c : ℕ) (t : Text) (x : ℕ)
      → parse_part fraction ((c ∷ t) ++ unit_text u) ≡ some (x, [])
      → x < sign_bit
      → unsigned fraction false ((c ∷ t) ++ unit_text u) ≡ some (pos x)
  unsigned_digit u c (d ∷ t) x e h = unsigned_lem c d (t ++ unit_text u) x e h
  unsigned_digit nanoseconds c [] x e h = unsigned_lem c _ _ x e h
  unsigned_digit microseconds c [] x e h = unsigned_lem c _ _ x e h
  unsigned_digit milliseconds c [] x e h = unsigned_lem c _ _ x e h
  unsigned_digit seconds c [] x e h = unsigned_lem c _ _ x e h
  unsigned_digit minutes c [] x e h = unsigned_lem c _ _ x e h
  unsigned_digit hours c [] x e h = unsigned_lem c _ _ x e h

  pub parse_digit :
      (c : ℕ) (s : Text)
      → is_digit c ≡ true
      → parse_duration fraction (c ∷ s) ≡ unsigned fraction false (c ∷ s)
  unfolding parse_duration
  parse_digit c s a = ground arith

  -- A numeral with a unit after it is that many units, if they are fewer than 2 ^ 63 nanoseconds.
  pub parse_duration-unit :
      (u : UnitName) (n : ℕ)
      → n * unit_size u < sign_bit
      → parse_duration fraction (show_nat n ++ unit_text u) ≡ some (pos (n * unit_size u))
  unfolding digits_value
  parse_duration-unit u n h =
      let (d, t, k, p, v) = digits_value-show_nat n in
      let c = b'0' + d in
      let a : is_digit c ≡ true = ground arith in
      let g : digits_from 0 (c ∷ t) ≡ some n = ap digits_value (sym p) ∙ v in
      rw p (
        parse_digit c (t ++ unit_text u) a
        ∙ unsigned_digit u c t (n * unit_size u) (digit_lem u c t n a g h) h)
