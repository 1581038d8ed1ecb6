-- ===== src/Time/Duration/Fuel.antt =====
-- How many rounds the loop of time.ParseDuration takes.
use livy_next.Prelude.{
  ℕ, zero, suc, ◌+◌, ◌-◌, ◌*◌, ◌/◌, ◌<◌, ◌≤◌, ◌≡◌, refl, Bool, true, false, [], ◌∷◌, Option, none,
  some, Text, is_empty, length, ltb, ◌==◌, ◌&&◌, ◌||◌, not, Bool-cases, Option-cases, inl, inr,
  arith,
}
use livy_next.Prelude.Int64.{sign_bit}
use livy_next.Strconv.{is_digit}
use livy_next.Time.Duration.{
  leading_int, leading_fraction, leading_unit, unit_nanos, amount, fraction_part, after_point,
  one_part, parse_part, next_part, parse_parts, starts_number,
}

leading_int-le :
    (x : ℕ) (s : Text) {v : ℕ} {r : Text} → leading_int x s ≡ some (v, r) → length r ≤ length s
unfolding leading_int
leading_int-le x [] h = ground arith
leading_int-le x (c ∷ s) {v} {r} h = elim (Bool-cases (is_digit c)) [
  | inl e ↦ elim (Bool-cases (ltb (sign_bit / 10) x)) [
    | inl f ↦ (let g : none ≡ some (v, r) = rw (e, f) at h in absurd cc)
    | inr f ↦ elim (Bool-cases (ltb sign_bit (10 * x + (c - b'0')))) [
      | inl k ↦ (let g : none ≡ some (v, r) = rw (e, f, k) at h in absurd cc)
      | inr k ↦
          (let g : leading_int (10 * x + (c - b'0')) s ≡ some (v, r) = rw (e, f, k) at h in
            omega (arith, leading_int-le (10 * x + (c - b'0')) s g))
    ]
  ]
  | inr e ↦ (let g : some (x, c ∷ s) ≡ some (v, r) = rw e at h in ground arith)
]

leading_fraction-le :
    (over : Bool) (x k : ℕ) (s : Text) → length (leading_fraction over x k s).1 ≤ length s
unfolding leading_fraction
leading_fraction-le over x k [] = omega arith
leading_fraction-le over x k (c ∷ s) = ground (
  arith,
  leading_fraction-le true x k s,
  leading_fraction-le false (10 * x + (c - b'0')) (suc k) s,
)

leading_unit-le : (s : Text) → length (leading_unit s).1 ≤ length s
unfolding leading_unit
leading_unit-le [] = omega arith
leading_unit-le (c ∷ s) = elim (Bool-cases (is_digit c || (c == b'.'))) [
  | inl e ↦ rw e (omega arith)
  | inr e ↦ rw e (omega (arith, leading_unit-le s))
]

-- The unit takes at least a byte where it is not empty.
leading_unit-lt :
    (s : Text) → is_empty (leading_unit s).0 ≡ false → length (leading_unit s).1 < length s
unfolding leading_unit
leading_unit-lt [] h = absurd cc
leading_unit-lt (c ∷ s) h = elim (Bool-cases (is_digit c || (c == b'.'))) [
  | inl e ↦ (let g : true ≡ false = rw e at h in absurd cc)
  | inr e ↦ rw e (omega (arith, leading_unit-le s))
]

after_point-le : (s : Text) {t : Text} → after_point s ≡ some t → length t ≤ length s
after_point-le [] h = cc
after_point-le (c ∷ s) {t} h = elim (Bool-cases (c == b'.')) [
  | inl e ↦ (let g : some s ≡ some t = rw e at h in ground arith)
  | inr e ↦ (let g : none ≡ some t = rw e at h in absurd cc)
]

fraction_part-le :
    (o : Option Text) (s : Text)
    → ((t : Text) → o ≡ some t → length t ≤ length s)
    → length (fraction_part o s).1.1 ≤ length s
fraction_part-le none s h = omega arith
fraction_part-le (some t) s h = omega (arith, h t refl, leading_fraction-le false 0 0 t)

module _ (fraction : ℕ → ℕ → ℕ → ℕ) where
  amount-rest :
      (o : Option ℕ) (rest : Text) {x : ℕ} {r : Text}
      → ◌≡◌ {A = Option (ℕ × Text)} (elim o [ none ↦ none | some y ↦ some (y, rest) ]) (some (x, r))
      → r ≡ rest
  amount-rest none rest h = cc
  amount-rest (some y) rest h = ground arith

  one_part-lt :
      (s : Text) (v : ℕ) (t : Text) {x : ℕ} {r : Text}
      → length t ≤ length s
      → one_part fraction s (some (v, t)) ≡ some (x, r)
      → length r < length s
  unfolding one_part
  one_part-lt s v t {x} {r} l h =
      let fp = fraction_part (after_point t) t in
      let m : length fp.1.1 ≤ length t =
        fraction_part-le (after_point t) t (λ w e. after_point-le t e) in
      elim (Bool-cases (length s == length t && not fp.0)) [
        | inl e ↦ (let g : none ≡ some (x, r) = rw e at h in absurd cc)
        | inr e ↦ elim (Bool-cases (is_empty (leading_unit fp.1.1).0)) [
          | inl f ↦ (let g : none ≡ some (x, r) = rw (e, f) at h in absurd cc)
          | inr f ↦
              (let g : r ≡ (leading_unit fp.1.1).1 =
                  amount-rest (amount fraction v fp.1.0 (unit_nanos (leading_unit fp.1.1).0)) _
                    (rw (e, f) at h) in
                let k : length (leading_unit fp.1.1).1 < length fp.1.1 = leading_unit-lt fp.1.1 f in
                rw g (omega arith))
        ]
      ]

  parse_part-lt :
      (s : Text) {x : ℕ} {r : Text} → parse_part fraction s ≡ some (x, r) → length r < length s
  unfolding parse_part
  parse_part-lt s {x} {r} h = elim (Bool-cases (starts_number s)) [
    | inl e ↦ elim (Option-cases (leading_int 0 s)) [
      | inl f ↦ (let g : none ≡ some (x, r) = rw (e, f, one_part) at h in absurd cc)
      | inr ((v, t), f) ↦ one_part-lt s v t (leading_int-le 0 s f) (rw (e, f) at h)
    ]
    | inr e ↦ (let g : none ≡ some (x, r) = rw e at h in absurd cc)
  ]

  next_part-same :
      (run again : ℕ → Text → Option ℕ) (d : ℕ) (o : Option (ℕ × Text))
      → ((x : ℕ) (r : Text) → o ≡ some (x, r) → run (d + x) r ≡ again (d + x) r)
      → next_part fraction run d o ≡ next_part fraction again d o
  unfolding next_part
  next_part-same run again d none h = refl
  next_part-same run again d (some (x, r)) h = elim (Bool-cases (ltb sign_bit (d + x))) [
    | inl a ↦ rw a refl
    | inr a ↦ rw a (h x r refl)
  ]

  -- As many rounds as there are bytes are enough: more give the same.
  parse_parts-enough :
      (f g d : ℕ) (s : Text)
      → length s ≤ f
      → length s ≤ g
      → parse_parts fraction f d s ≡ parse_parts fraction g d s
  unfolding parse_parts
  parse_parts-enough f g d [] h k = refl
  parse_parts-enough zero g d (c ∷ s) h k = absurd (omega arith)
  parse_parts-enough (suc f) zero d (c ∷ s) h k = absurd (omega arith)
  parse_parts-enough (suc f) (suc g) d (c ∷ s) h k =
      next_part-same (parse_parts fraction f) (parse_parts fraction g) d
        (parse_part fraction (c ∷ s))
        (λ x r e.
          parse_parts-enough f g (d + x) r (omega (arith, parse_part-lt (c ∷ s) e))
            (omega (arith, parse_part-lt (c ∷ s) e)))
