-- ===== src/Session/Page/Bounds.antt =====
-- The pages of paginateOutput and GetStatements against take and drop.
use livy_next.Prelude.{
  ℕ, zero, suc, true, false, min, ◌+◌, ◌-◌, ◌*◌, ◌≤◌, ◌<◌, ◌≡◌, refl, List, [], ◌∷◌, ◌++◌, arith,
  sym, ◌⊎◌, inl, inr, length, take, drop, length-drop, take-append-drop, ap, ◌∙◌,
}
use livy_next.Prelude.Int.{ℤ, pos, negsuc, pos_part, ◌+ℤ◌}
use livy_next.Prelude.Int64.{sign_bit, wrap64}
use livy_next.Prelude.Outcome.{Outcome, value, panic}
use livy_next.Session.Page.{clamp_start, page_end, in_bounds, slice, page}

≤-cases : (a b : ℕ) → (a ≤ b) ⊎ (b ≤ a)
≤-cases a b = grind arith

pub clamp_start_lem : (t : ℕ) (from : ℤ) → clamp_start (pos t) from ≡ pos (min (pos_part from) t)
unfolding clamp_start
clamp_start_lem t (pos f) = ground arith
clamp_start_lem t (negsuc f) = ground arith

abbrev end_of : ℕ → ℕ → ℕ → ℕ
end_of t s zero = t
end_of t s (suc n) = min t (s + suc n)

end_of-ge : (t s n : ℕ) → s ≤ t → s ≤ end_of t s n
end_of-ge t s zero h = h
end_of-ge t s (suc n) h = omega arith

end_of-le : (t s n : ℕ) → s ≤ t → end_of t s n ≤ t
end_of-le t s zero h = omega arith
end_of-le t s (suc n) h = omega arith

page_end_lem :
    (t s : ℕ) (size : ℤ)
    → t < sign_bit
    → s + pos_part size < sign_bit
    → page_end (pos t) (pos s) size ≡ pos (end_of t s (pos_part size))
unfolding page_end wrap64 ◌+ℤ◌
page_end_lem t s (pos zero) h k = ground arith
page_end_lem t s (pos (suc n)) h k = ground arith
page_end_lem t s (negsuc n) h k = ground arith

in_bounds_lem : (t s e : ℕ) → s ≤ e → e ≤ t → in_bounds t (pos s) (pos e) ≡ true
unfolding in_bounds
in_bounds_lem t s e h k = ground arith

page_end_overflow :
    (t s n : ℕ)
    → t < sign_bit
    → n < sign_bit
    → s ≤ t
    → sign_bit ≤ s + n
    → in_bounds t (pos s) (page_end (pos t) (pos s) (pos n)) ≡ false
unfolding in_bounds page_end wrap64 ◌+ℤ◌
page_end_overflow t s n h k l m = ground arith

module _ {ℓ} {A : Type ℓ} where
  -- The items from f on: all of them if n is 0, and n of them at most if not.
  abbrev pub window : List A → ℕ → ℕ → List A
  window xs f zero = drop f xs
  window xs f (suc n) = take (suc n) (drop f xs)

  drop-all : (n : ℕ) (xs : List A) → length xs ≤ n → drop n xs ≡ []
  drop-all zero [] h = refl
  drop-all zero (x ∷ xs) h = absurd (omega arith)
  drop-all (suc n) [] h = refl
  drop-all (suc n) (x ∷ xs) h = drop-all n xs (omega arith)

  take-all : (n : ℕ) (xs : List A) → length xs ≤ n → take n xs ≡ xs
  take-all zero [] h = refl
  take-all zero (x ∷ xs) h = absurd (omega arith)
  take-all (suc n) [] h = refl
  take-all (suc n) (x ∷ xs) h = ap (◌∷◌ x) (take-all n xs (omega arith))

  drop-min : (f : ℕ) (xs : List A) → drop (min f (length xs)) xs ≡ drop f xs
  drop-min f xs = elim (≤-cases f (length xs)) [
    | inl h ↦ ap (λ n. drop n xs) (omega arith)
    | inr h ↦
        ap (λ n. drop n xs) (omega arith)
        ∙ drop-all (length xs) xs (omega arith)
        ∙ sym (drop-all f xs h)
  ]

  slice_lem :
      (xs : List A) (s e : ℕ)
      → s ≤ e
      → e ≤ length xs
      → slice xs (pos s) (pos e) ≡ value (take (e - s) (drop s xs))
  unfolding slice
  slice_lem xs s e h k = rw (in_bounds_lem (length xs) s e h k)

  -- What the end of the page leaves of the rest.
  window_lem :
      (xs : List A) (s n : ℕ)
      → s ≤ length xs
      → take (end_of (length xs) s n - s) (drop s xs) ≡ window xs s n
  window_lem xs s zero h = take-all _ (drop s xs) (omega (arith, length-drop s xs))
  window_lem xs s (suc n) h = elim (≤-cases (length (drop s xs)) (suc n)) [
    | inl k ↦
        take-all _ (drop s xs) (omega (arith, length-drop s xs))
        ∙ sym (take-all (suc n) (drop s xs) k)
    | inr k ↦ ap (λ m. take m (drop s xs)) {y = suc n} (omega (arith, length-drop s xs))
  ]

  window-min : (xs : List A) (f n : ℕ) → window xs (min f (length xs)) n ≡ window xs f n
  window-min xs f zero = drop-min f xs
  window-min xs f (suc n) = ap (take (suc n)) (drop-min f xs)

  clamp_page :
      (xs : List A) (s n : ℕ)
      → s ≤ length xs
      → slice xs (pos s) (pos (end_of (length xs) s n)) ≡ value (window xs s n)
  clamp_page xs s n h =
      slice_lem xs s (end_of (length xs) s n) (end_of-ge (length xs) s n h)
        (end_of-le (length xs) s n h)
      ∙ ap value (window_lem xs s n h)

  -- What the code computes is the window, for every page that an int can address.
  pub page_lem :
      (xs : List A) (from size : ℤ)
      → length xs < sign_bit
      → min (pos_part from) (length xs) + pos_part size < sign_bit
      → page xs from size ≡ value (window xs (pos_part from) (pos_part size))
  unfolding page
  page_lem xs from size h k =
      let s : ℕ = min (pos_part from) (length xs) in
      rw (clamp_start_lem (length xs) from) (
        rw (page_end_lem (length xs) s size h k) (
          clamp_page xs s (pos_part size) (omega arith)
          ∙ ap value (window-min xs (pos_part from) (pos_part size))))

  -- Where the end of the page is no int, the code panics.
  pub page_overflow :
      (xs : List A) (f n : ℕ)
      → length xs < sign_bit
      → n < sign_bit
      → sign_bit ≤ min f (length xs) + n
      → page xs (pos f) (pos n) ≡ panic
  unfolding page slice
  page_overflow xs f n h k l =
      rw (clamp_start_lem (length xs) (pos f))
        (rw (page_end_overflow (length xs) (min f (length xs)) n h k (omega arith) l))

  drop-drop : (n : ℕ) (xs : List A) (f : ℕ) → drop n (drop f xs) ≡ drop (f + n) xs
  drop-drop n xs zero = ap (λ m. drop m xs) (omega arith)
  drop-drop n [] (suc f) = drop-all n [] (omega arith) ∙ sym (drop-all (suc f + n) [] (omega arith))
  drop-drop n (x ∷ xs) (suc f) =
      drop-drop n xs f ∙ ap (λ m. drop m (x ∷ xs)) {x = suc (f + n)} (omega arith)

  abbrev join_page : Outcome (List A) → Outcome (List A) → Outcome (List A)
  join_page panic r = panic
  join_page (value p) panic = panic
  join_page (value p) (value r) = value (p ++ r)

  take-drop : (n : ℕ) (xs : List A) (f : ℕ) → take n (drop f xs) ++ drop (f + n) xs ≡ drop f xs
  take-drop n xs f =
      ap (◌++◌ (take n (drop f xs))) (sym (drop-drop n xs f)) ∙ take-append-drop n (drop f xs)

  -- A client that asks for k pages of n items from the item f on, and joins them.
  pub read_pages : ℕ → ℕ → ℕ → List A → Outcome (List A)
  read_pages zero n f xs = value []
  read_pages (suc k) n f xs = join_page (page xs (pos f) (pos n)) (read_pages k n (f + n) xs)

  -- Reading k pages of n + 1 items from the item f on, one after another, gives all items from f
  -- on, each once and in order, if the pages reach the end and the list with one page more fits
  -- an int.
  pub read_pages_lem :
      (k n f : ℕ) (xs : List A)
      → length xs + suc n < sign_bit
      → length xs ≤ f + k * suc n
      → read_pages k (suc n) f xs ≡ value (drop f xs)
  unfolding read_pages
  read_pages_lem zero n f xs h k = ap value (sym (drop-all f xs (omega arith)))
  read_pages_lem (suc j) n f xs h k =
      rw (page_lem xs (pos f) (pos (suc n)) (omega arith) (omega arith))
        (rw (read_pages_lem j n (f + suc n) xs h (grind arith)) (ap value (take-drop (suc n) xs f)))
