-- ===== src/Spark/Format/Intervals.antt =====
-- The numbers in the texts of intervals.
use livy_next.Prelude.{
  ℕ, suc, ◌+◌, ◌*◌, ◌/◌, ◌%◌, ◌<◌, ◌≡◌, refl, ◌∙◌, ap, inl, inr, ◌⊎◌, Bool, ◌++◌, arith, Text,
  codes, ltb, ltb→lt, Bool-cases,
}
use livy_next.Prelude.Int.{ℤ, pos, negsuc, pos_part, neg_part, ltb_ℤ, ltb_ℤ-negsuc, ltb_ℤ-pos, ◌-ℤ◌}
use livy_next.Prelude.Int64.{In32, sign_bit32, wrap32, quot_by, rem_by}
use livy_next.Strconv.Decimal.{show_nat, show_int}
use livy_next.Spark.Format.{with_sign, format_month_interval}

-- The text of n months, negated where neg is true.
pub record Months (neg : Bool) (n : ℕ) (t : Text) : Type 0 where
  pub years : ℕ
  pub months : ℕ
  pub total : years * 12 + months ≡ n
  pub bound : months < 12
  pub shape :
      t
      ≡ codes "INTERVAL '"
        ++ with_sign neg (show_nat years ++ codes "-" ++ show_nat months)
        ++ codes "' YEAR TO MONTH"

wrap32_neg : (n : ℕ) → suc n < sign_bit32 → wrap32 (pos 0 -ℤ negsuc n) ≡ pos (suc n)
unfolding wrap32 ◌-ℤ◌
wrap32_neg n h = ground arith

least_month_interval :
    format_month_interval (negsuc 2147483647) ≡ codes "INTERVAL '--178956970--8' YEAR TO MONTH"
unfolding format_month_interval quot_by rem_by show_int show_nat wrap32 ◌-ℤ◌
least_month_interval = refl

-- For every int32, formatMonthInterval gives the text of years and of months below 12 that add up
-- to its absolute value, with a minus sign exactly for a negative one; or the number is the least
-- int32, and the text has two more minus signs than it should.
pub format_month_interval_lem :
    (m : ℤ)
    → In32 m
    → ((m ≡ negsuc 2147483647)
        × (format_month_interval m ≡ codes "INTERVAL '--178956970--8' YEAR TO MONTH"))
      ⊎ Months (ltb_ℤ m (pos 0)) (pos_part m + neg_part m) (format_month_interval m)
unfolding format_month_interval quot_by rem_by show_int
format_month_interval_lem (pos n) h = inr (record {
  years = n / 12;
  months = n % 12;
  total = omega arith;
  bound = omega arith;
  shape = rw (ltb_ℤ-pos n);
})
format_month_interval_lem (negsuc n) h = elim (Bool-cases (ltb (suc n) sign_bit32)) [
  | inl e ↦ inr (record {
    years = suc n / 12;
    months = suc n % 12;
    total = omega arith;
    bound = omega arith;
    shape = rw (ltb_ℤ-negsuc n, wrap32_neg n (ltb→lt (suc n) sign_bit32 e));
  })
  | inr e ↦
      let q : n ≡ 2147483647 = ground arith in
      inl (ap negsuc q, ap (λ k. format_month_interval (negsuc k)) q ∙ least_month_interval)
]
