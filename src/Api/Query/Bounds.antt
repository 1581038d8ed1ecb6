-- ===== src/Api/Query/Bounds.antt =====
-- The values that the parameters from and size can have.
use livy_next.Prelude.{
  ℕ, ◌<◌, ◌≡◌, refl, sym, ◌∙◌, inl, inr, false, Option, none, some, arith, Text, [], ◌∷◌, is_empty,
  Bool-cases,
}
use livy_next.Prelude.Int.{ℤ, pos, negsuc, pos_part}
use livy_next.Prelude.Int64.{sign_bit}
use livy_next.Strconv.{atoi}
use livy_next.Strconv.Decimal.{show_nat, atoi-show_nat, atoi-bound}
use livy_next.Api.Query.{query_from, query_size, from_value, size_value}

values_agree : (o : Option ℤ) → (k : ℕ) × (from_value o ≡ size_value o) × (from_value o ≡ pos k)
unfolding from_value size_value
values_agree none = (0, refl, refl)
values_agree (some (pos n)) = (n, ground arith, ground arith)
values_agree (some (negsuc n)) = (0, ground arith, ground arith)

value_bound :
    (o : Option ℤ)
    → ((z : ℤ) → o ≡ some z → pos_part z < sign_bit)
    → pos_part (from_value o) < sign_bit
unfolding from_value
value_bound none f = omega arith
value_bound (some (pos n)) f = ground (arith, f (pos n) refl)
value_bound (some (negsuc n)) f = ground arith

-- For every text the parameters from and size have the same value, which is a number below 2 ^
-- 63.
pub query_lem :
    (s : Text) → (k : ℕ) × (k < sign_bit) × (query_from s ≡ pos k) × (query_size s ≡ pos k)
unfolding query_from query_size
query_lem s = elim (Bool-cases (is_empty s)) [
  | inl e ↦ (0, omega arith, rw e, rw e)
  | inr e ↦
      let (k, a, f) = values_agree (atoi s) in
      let b : pos_part (from_value (atoi s)) < sign_bit =
        value_bound (atoi s) (λ z g. atoi-bound s z g) in
      (k, ground arith, rw (e, f), rw e (sym a ∙ f))
]

show_nat-not_empty : (n : ℕ) → n < sign_bit → is_empty (show_nat n) ≡ false
unfolding atoi
show_nat-not_empty n h = go (show_nat n) (atoi-show_nat n h)
  where
    go : (s : Text) → atoi s ≡ some (pos n) → is_empty s ≡ false
    go [] e = cc
    go (c ∷ s) e = refl

pub query-show_nat :
    (n : ℕ) → n < sign_bit → (query_from (show_nat n) ≡ pos n) × (query_size (show_nat n) ≡ pos n)
unfolding query_from query_size from_value size_value
query-show_nat n h = (
  rw (show_nat-not_empty n h, atoi-show_nat n h) (ground arith),
  rw (show_nat-not_empty n h, atoi-show_nat n h) (ground arith),
)
