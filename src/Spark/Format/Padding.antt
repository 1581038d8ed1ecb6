-- ===== src/Spark/Format/Padding.antt =====
-- The loop that puts zeros before the digits of a decimal.
use livy_next.Prelude.{
  ℕ, zero, suc, ◌+◌, ◌-◌, ◌<◌, ◌≡◌, refl, sym, ◌∙◌, ap, inl, inr, false, ◌∷◌, ◌++◌, arith, Text,
  length, leb, replicate, Bool-cases,
}
use livy_next.Prelude.Int64.{sign_bit32, wrap32}
use livy_next.Spark.Format.{needs_zero, pad_zeros}

needs_zero_lem :
    (scale : ℕ) (s : Text) → length s < sign_bit32 → needs_zero scale s ≡ leb (length s) scale
unfolding needs_zero wrap32
needs_zero_lem scale s h = ground arith

replicate-append : (n c : ℕ) (s : Text) → replicate n c ++ c ∷ s ≡ replicate (suc n) c ++ s
replicate-append zero c s = refl
replicate-append (suc n) c s = ap (λ t. c ∷ t) (replicate-append n c s)

-- With a scale below 2 ^ 31 - 1, a text shorter than 2 ^ 31 and any rounds that are, together
-- with its length, more than the scale, the loop that puts zeros before the digits of a decimal
-- ends with its condition false, and its text is the digits after the zeros that they lack to be
-- one more than the scale.
pub pad_zeros_lem :
    (f scale : ℕ) (s : Text)
    → suc scale < sign_bit32
    → length s < sign_bit32
    → scale < f + length s
    → (needs_zero scale (pad_zeros f scale s) ≡ false)
      × (pad_zeros f scale s ≡ replicate (suc scale - length s) b'0' ++ s)
unfolding pad_zeros
pad_zeros_lem zero scale s b l h =
    let e : suc scale - length s ≡ 0 = omega arith in
    (needs_zero_lem scale s l ∙ ground arith, rw e refl)
pad_zeros_lem (suc f) scale s b l h = elim (Bool-cases (leb (length s) scale)) [
  | inl e ↦
      (let (a, q) = pad_zeros_lem f scale (b'0' ∷ s) b (ground arith) (omega arith) in
        let i : suc scale - suc (length s) ≡ scale - length s = omega arith in
        let k : suc scale - length s ≡ suc (scale - length s) = ground arith in
        rw (needs_zero_lem scale s l ∙ e) (
          a,
          q
              ∙ (ap (λ n. replicate n b'0' ++ b'0' ∷ s) i
                  ∙ (replicate-append (scale - length s) b'0' s
                      ∙ ap (λ n. replicate n b'0' ++ s) (sym k))),
        ))
  | inr e ↦
      (let k : suc scale - length s ≡ 0 = ground arith in
        let i = needs_zero_lem scale s l ∙ e in rw i (i, rw k refl))
]
