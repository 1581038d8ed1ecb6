-- ===== src/Spark/Format/Durations.antt =====
-- The numbers in the texts of durations.
use mathlib.Core.List.{append-nil}
use livy_next.Prelude.{
  refl, sym, ap, [], some, ◌⊎◌, inl, inr, ℕ, suc, ◌+◌, ◌*◌, ◌/◌, ◌%◌, ◌<◌, ◌≡◌, subst, Bool, true,
  false, ◌++◌, arith, Text, codes, ltb, if◌then◌else◌, ◌∙◌, Bool-cases,
}
use livy_next.Prelude.Int.{
  ℤ, pos, negsuc, pos_part, neg_part, ltb_ℤ, ltb_ℤ-negsuc, ltb_ℤ-pos, ◌-ℤ◌, ◌*ℤ◌,
}
use livy_next.Prelude.Int64.{sign_bit, wrap64, quot_by, rem_by}
use livy_next.Strconv.{digits_value}
use livy_next.Strconv.Decimal.{show_nat, show_int, digits_value-show_nat}
use livy_next.Spark.Format.Fields.{IsField, pad_int-IsField}
use livy_next.Spark.Format.{
  second, millisecond, microsecond, nanosecond, other_unit, with_sign, TimeUnit, pad_int, to_micros,
  clock, format_duration,
}

-- Days, hours, minutes, seconds and microseconds that make up a number of microseconds.
pub record Clock (n : ℕ) : Type 0 where
  pub days : ℕ
  pub hours : ℕ
  pub minutes : ℕ
  pub seconds : ℕ
  pub micros : ℕ
  pub total : (((days * 24 + hours) * 60 + minutes) * 60 + seconds) * 1000000 + micros ≡ n
  pub hours_bound : hours < 24
  pub minutes_bound : minutes < 60
  pub seconds_bound : seconds < 60
  pub micros_bound : micros < 1000000

-- The text with those numbers. The fraction is left out where there is none.
abbrev clock_text : {n : ℕ} → Bool → Clock n → Text
clock_text neg c =
    let time =
      show_nat c.days
      ++ codes " "
      ++ pad_int 2 (pos c.hours)
      ++ codes ":"
      ++ pad_int 2 (pos c.minutes)
      ++ codes ":"
      ++ pad_int 2 (pos c.seconds) in
    codes "INTERVAL '"
    ++ with_sign neg
        (if ltb 0 c.micros then time ++ (codes "." ++ pad_int 6 (pos c.micros)) else time)
    ++ codes "' DAY TO SECOND"

the_clock : (n : ℕ) → Clock n
the_clock n = record {
  days = n / 1000000 / 86400;
  hours = n / 1000000 % 86400 / 3600;
  minutes = n / 1000000 % 86400 % 3600 / 60;
  seconds = n / 1000000 % 86400 % 3600 % 60;
  micros = n % 1000000;
  total = omega arith;
  hours_bound = omega arith;
  minutes_bound = omega arith;
  seconds_bound = omega arith;
  micros_bound = omega arith;
}

pub ltb_ℤ-zero : (k : ℕ) → ltb_ℤ (pos 0) (pos k) ≡ ltb 0 k
ltb_ℤ-zero k = ground arith

clock-pos : (neg : Bool) (n : ℕ) → clock neg (pos n) ≡ clock_text neg (the_clock n)
unfolding clock quot_by rem_by show_int the_clock
clock-pos neg n = rw (ltb_ℤ-zero (n % 1000000))

clock_lem : (neg : Bool) (n k : ℕ) → n ≡ k → (c : Clock k) × (clock neg (pos n) ≡ clock_text neg c)
clock_lem neg n k e =
    subst (λ j. (c : Clock j) × (clock neg (pos n) ≡ clock_text neg c)) e
      (the_clock n, clock-pos neg n)

wrap64_neg : (n : ℕ) → suc n < sign_bit → wrap64 (pos 0 -ℤ negsuc n) ≡ pos (suc n)
unfolding wrap64 ◌-ℤ◌
wrap64_neg n h = ground arith

format_duration-clock_text :
    (z : ℤ)
    → pos_part z + neg_part z < sign_bit
    → (c : Clock (pos_part z + neg_part z)) × ((if ltb_ℤ z (pos 0)
          then clock true (wrap64 (pos 0 -ℤ z))
          else clock false z)
        ≡ clock_text (ltb_ℤ z (pos 0)) c)
format_duration-clock_text (pos n) h = rw (ltb_ℤ-pos n) (clock_lem false n (n + 0) (omega arith))
format_duration-clock_text (negsuc n) h =
    rw (ltb_ℤ-negsuc n, wrap64_neg n (omega arith))
      (clock_lem true (suc n) (0 + suc n) (omega arith))

-- How many microseconds a number of units is; part of one counts for none, and any other unit than
-- these is taken for microseconds.
abbrev pub magnitude : TimeUnit → ℕ → ℕ
magnitude second n = n * 1000000
magnitude millisecond n = n * 1000
magnitude microsecond n = n
magnitude nanosecond n = n / 1000
magnitude other_unit n = n

-- Whether the duration is negative and at least a microsecond long.
abbrev pub is_back : TimeUnit → ℤ → Bool
is_back unit (pos n) = false
is_back unit (negsuc n) = ltb 0 (magnitude unit (suc n))

to_micros_lem :
    (duration : ℤ) (unit : TimeUnit)
    → magnitude unit (pos_part duration + neg_part duration) < sign_bit
    → (pos_part (to_micros duration unit) + neg_part (to_micros duration unit)
        ≡ magnitude unit (pos_part duration + neg_part duration))
      × (ltb_ℤ (to_micros duration unit) (pos 0) ≡ is_back unit duration)
unfolding to_micros wrap64 ◌*ℤ◌ quot_by
to_micros_lem (pos n) second h = (ground arith, ground arith)
to_micros_lem (pos n) millisecond h = (ground arith, ground arith)
to_micros_lem (pos n) microsecond h = (ground arith, ground arith)
to_micros_lem (pos n) nanosecond h = (ground arith, ground arith)
to_micros_lem (pos n) other_unit h = (ground arith, ground arith)
to_micros_lem (negsuc n) second h = (ground arith, ground arith)
to_micros_lem (negsuc n) millisecond h = (ground arith, ground arith)
to_micros_lem (negsuc n) microsecond h = (ground arith, ground arith)
to_micros_lem (negsuc n) nanosecond h = (ground arith, ground arith)
to_micros_lem (negsuc n) other_unit h = (ground arith, ground arith)

-- The numbers of the clock as the text shows them; there is a fraction exactly where there are
-- microseconds.
pub record ShownClock (neg : Bool) (n : ℕ) (t : Text) : Type 0 where
  pub clock : Clock n
  pub days : Text
  pub hours : Text
  pub minutes : Text
  pub seconds : Text
  pub fraction : Text
  pub days_digits : digits_value days ≡ some clock.days
  pub hours_digits : IsField 2 clock.hours hours
  pub minutes_digits : IsField 2 clock.minutes minutes
  pub seconds_digits : IsField 2 clock.seconds seconds
  pub fraction_digits :
      ((clock.micros ≡ 0) × (fraction ≡ []))
      ⊎ ((0 < clock.micros)
          × ((digits : Text) × IsField 6 clock.micros digits × (fraction ≡ codes "." ++ digits)))
  pub shape :
      t
      ≡ codes "INTERVAL '"
        ++ ((if neg then codes "-" else [])
            ++ (days
                ++ codes " "
                ++ hours
                ++ codes ":"
                ++ minutes
                ++ codes ":"
                ++ seconds
                ++ fraction))
        ++ codes "' DAY TO SECOND"

abbrev fraction_of : ℕ → Text
fraction_of k = if ltb 0 k then codes "." ++ pad_int 6 (pos k) else []

fraction_of-digits :
    (k : ℕ)
    → k < 1000000
    → ((k ≡ 0) × (fraction_of k ≡ []))
      ⊎ ((0 < k) × ((digits : Text) × IsField 6 k digits × (fraction_of k ≡ codes "." ++ digits)))
fraction_of-digits k h = elim (Bool-cases (ltb 0 k)) [
  | inl e ↦ rw e (inr (ground arith, (pad_int 6 (pos k), pad_int-IsField 5 k (omega arith), refl)))
  | inr e ↦ rw e (inl (ground arith, refl))
]

with_fraction :
    (neg : Bool) (time : Text) (k : ℕ)
    → with_sign neg (if ltb 0 k then time ++ (codes "." ++ pad_int 6 (pos k)) else time)
      ≡ (if neg then codes "-" else []) ++ (time ++ fraction_of k)
with_fraction neg time k = elim (Bool-cases (ltb 0 k)) [
  | inl e ↦ rw e (signed neg (time ++ (codes "." ++ pad_int 6 (pos k))))
  | inr e ↦
      rw e
        (signed neg time ∙ ap (λ t. (if neg then codes "-" else []) ++ t) (sym (append-nil time)))
]
  where
    signed : (b : Bool) (t : Text) → with_sign b t ≡ (if b then codes "-" else []) ++ t
    signed true t = refl
    signed false t = refl

clock_text-ShownClock : {n : ℕ} (neg : Bool) (c : Clock n) → ShownClock neg n (clock_text neg c)
clock_text-ShownClock neg c =
    let (d, t, k, p, q) = digits_value-show_nat c.days in
    record {
      clock = c;
      days = show_nat c.days;
      hours = pad_int 2 (pos c.hours);
      minutes = pad_int 2 (pos c.minutes);
      seconds = pad_int 2 (pos c.seconds);
      fraction = fraction_of c.micros;
      days_digits = q;
      hours_digits = pad_int-IsField 1 c.hours (omega (arith, c.hours_bound));
      minutes_digits = pad_int-IsField 1 c.minutes (omega (arith, c.minutes_bound));
      seconds_digits = pad_int-IsField 1 c.seconds (omega (arith, c.seconds_bound));
      fraction_digits = fraction_of-digits c.micros c.micros_bound;
      shape =
          ap (λ t. codes "INTERVAL '" ++ t ++ codes "' DAY TO SECOND")
            (with_fraction neg _ c.micros);
    }

-- Where a duration in seconds, milliseconds, microseconds, nanoseconds or an unknown unit, which
-- counts as microseconds, has fewer than 2 ^ 63 whole microseconds, formatDuration gives a text
-- with a minus sign exactly for a negative duration of at least a microsecond, a numeral of days,
-- numerals of two digits of hours below 24 and of minutes and seconds below 60, and, exactly if
-- they are not 0, six digits of microseconds, which together are that number of microseconds.
pub format_duration_lem :
    (duration : ℤ) (unit : TimeUnit)
    → magnitude unit (pos_part duration + neg_part duration) < sign_bit
    → ShownClock
        (is_back unit duration)
        (magnitude unit (pos_part duration + neg_part duration))
        (format_duration duration unit)
unfolding format_duration
format_duration_lem duration unit h =
    let z = to_micros duration unit in
    let (a, b) = to_micros_lem duration unit h in
    let (c, e) = format_duration-clock_text z (omega arith) in
    let v : ShownClock (ltb_ℤ z (pos 0)) (pos_part z + neg_part z) (format_duration duration unit) =
      subst (ShownClock (ltb_ℤ z (pos 0)) (pos_part z + neg_part z)) (sym e)
        (clock_text-ShownClock (ltb_ℤ z (pos 0)) c) in
    subst (λ n. ShownClock (is_back unit duration) n (format_duration duration unit)) a
      (subst (λ s. ShownClock s (pos_part z + neg_part z) (format_duration duration unit)) b v)
