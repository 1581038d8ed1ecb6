-- ===== src/Spark/Table/Grid.antt =====
-- One column of a grid of values.
use mathlib.Core.List.{append_assoc}
use mathlib.Core.Path.{ap₂}
use livy_next.Prelude.{
  ℕ, zero, suc, ◌+◌, ◌<◌, ◌≤◌, ◌≡◌, ◌≢◌, refl, sym, ◌∙◌, ap, List, [], ◌∷◌, ◌++◌, Option, none,
  some, arith, length, get_elem?, set, replicate, length-set, get_elem?-set_self, get_elem?-set_ne,
  length-replicate, length-append, ltb, true,
}
use livy_next.Prelude.Outcome.{value, bind, bind_ext, bind_assoc}
use livy_next.Value.{Value}
use livy_next.Spark.Table.{put, put_in, fill_chunk, fill_chunks}

-- Every row has m values.
abbrev pub Wide : ℕ → List (List Value) → Type 0
Wide m [] = Unit {0}
Wide m (row ∷ rows) = (length row ≡ m) × Wide m rows

abbrev pub cell : Option (List Value) → ℕ → Option Value
cell none c = none
cell (some row) c = get_elem? row c

-- The value in row r and column c.
abbrev pub at : ℕ → ℕ → List (List Value) → Option Value
at r c rows = cell (get_elem? rows r) c

pub Wide-replicate : (n m : ℕ) (v : Value) → Wide m (replicate n (replicate m v))
Wide-replicate zero m v = tt
Wide-replicate (suc n) m v = (length-replicate m v, Wide-replicate n m v)

set-append :
    (pre : List (List Value)) (row new : List Value) (rows : List (List Value))
    → set (pre ++ row ∷ rows) (length pre) new ≡ pre ++ new ∷ rows
set-append [] row new rows = refl
set-append (x ∷ pre) row new rows = ap (◌∷◌ x) (set-append pre row new rows)

get-append :
    (pre : List (List Value)) (row : List Value) (rows : List (List Value))
    → get_elem? (pre ++ row ∷ rows) (length pre) ≡ some row
get-append [] row rows = refl
get-append (x ∷ pre) row rows = get-append pre row rows

put-append :
    (pre : List (List Value)) (row : List Value) (rows : List (List Value)) (c : ℕ) (v : Value)
    → c < length row
    → put (pre ++ row ∷ rows) (length pre) c v ≡ value (pre ++ set row c v ∷ rows)
unfolding put
put-append pre row rows c v h =
    let e : ltb c (length row) ≡ true = ground arith in
    rw (get-append pre row rows, put_in) (rw e (ap value (set-append pre row (set row c v) rows)))

-- The cells of a column, one chunk after another.
abbrev pub all_cells : {C : Type 0} → List (List C) → List C
all_cells [] = []
all_cells (chunk ∷ chunks) = chunk ++ all_cells chunks

module _ {C : Type 0} (extract : C → Value) where
  -- The first values of a column, written over.
  unfoldable pub overwrite : ℕ → List C → List (List Value) → List (List Value)
  overwrite c [] rows = rows
  overwrite c (x ∷ xs) [] = []
  overwrite c (x ∷ xs) (row ∷ rows) = set row c (extract x) ∷ overwrite c xs rows

  pub Wide-overwrite :
      (m c : ℕ) (xs : List C) (rows : List (List Value))
      → Wide m rows
      → Wide m (overwrite c xs rows)
  unfolding overwrite
  Wide-overwrite m c [] rows w = w
  Wide-overwrite m c (x ∷ xs) [] w = tt
  Wide-overwrite m c (x ∷ xs) (row ∷ rows) (e, w) =
      (length-set row c (extract x) ∙ e, Wide-overwrite m c xs rows w)

  pub length-overwrite :
      (c : ℕ) (xs : List C) (rows : List (List Value)) → length (overwrite c xs rows) ≡ length rows
  unfolding overwrite
  length-overwrite c [] rows = refl
  length-overwrite c (x ∷ xs) [] = refl
  length-overwrite c (x ∷ xs) (row ∷ rows) = ap suc (length-overwrite c xs rows)

  fill_chunk_lem :
      (m c : ℕ) (xs : List C) (pre rows : List (List Value))
      → c < m
      → Wide m rows
      → length xs ≤ length rows
      → fill_chunk extract c (length pre) xs (pre ++ rows) ≡ value (pre ++ overwrite c xs rows)
  unfolding fill_chunk overwrite
  fill_chunk_lem m c [] pre rows h w k = refl
  fill_chunk_lem m c (x ∷ xs) pre [] h w k = absurd (omega arith)
  fill_chunk_lem m c (x ∷ xs) pre (row ∷ rows) h (e, w) k =
      let new = set row c (extract x) in
      rw (put-append pre row rows c (extract x) (omega arith)) (
        ap₂ (λ r ys. fill_chunk extract c r xs ys) (omega (arith, length-append pre (new ∷ [])))
          (sym (append_assoc pre (new ∷ []) rows))
        ∙ fill_chunk_lem m c xs (pre ++ new ∷ []) rows h w (omega arith)
        ∙ ap value (append_assoc pre (new ∷ []) (overwrite c xs rows)))

  pub at-overwrite_ne :
      (c d : ℕ) (xs : List C) (rows : List (List Value)) (r : ℕ)
      → c ≢ d
      → at r d (overwrite c xs rows) ≡ at r d rows
  unfolding overwrite
  at-overwrite_ne c d [] rows r n = refl
  at-overwrite_ne c d (x ∷ xs) [] r n = refl
  at-overwrite_ne c d (x ∷ xs) (row ∷ rows) zero n = get_elem?-set_ne row (extract x) n
  at-overwrite_ne c d (x ∷ xs) (row ∷ rows) (suc r) n = at-overwrite_ne c d xs rows r n

  pub at-overwrite_self :
      (m c : ℕ) (xs : List C) (rows : List (List Value)) (r : ℕ) {x : C}
      → c < m
      → Wide m rows
      → length xs ≤ length rows
      → get_elem? xs r ≡ some x
      → at r c (overwrite c xs rows) ≡ some (extract x)
  unfolding overwrite
  at-overwrite_self m c [] rows r h w k g = cc
  at-overwrite_self m c (y ∷ xs) [] r h w k g = absurd (omega arith)
  at-overwrite_self m c (y ∷ xs) (row ∷ rows) zero {x} h (e, w) k g =
      let q : y ≡ x = cc in
      get_elem?-set_self row c (extract y) (omega arith) ∙ ap (λ z. some (extract z)) q
  at-overwrite_self m c (y ∷ xs) (row ∷ rows) (suc r) {x} h (e, w) k g =
      at-overwrite_self m c xs rows r {x = x} h w (omega arith) g

  fill_chunk-append :
      (c r : ℕ) (xs ys : List C) (rows : List (List Value))
      → fill_chunk extract c r (xs ++ ys) rows
        ≡ bind (fill_chunk extract c r xs rows) (fill_chunk extract c (r + length xs) ys)
  unfolding fill_chunk
  fill_chunk-append c r [] ys rows = ap (λ k. fill_chunk extract c k ys rows) (omega arith)
  fill_chunk-append c r (x ∷ xs) ys rows =
      bind_ext (put rows r c (extract x)) _ _ (λ a.
        fill_chunk-append c (suc r) xs ys a
        ∙ ap (λ k. bind (fill_chunk extract c (suc r) xs a) (fill_chunk extract c k ys))
            (omega arith))
      ∙ sym (bind_assoc (put rows r c (extract x)) (fill_chunk extract c (suc r) xs) _)

  -- The chunks are written as one list.
  fill_chunks-all_cells :
      (c r : ℕ) (chunks : List (List C)) (rows : List (List Value))
      → fill_chunks extract c r chunks rows ≡ fill_chunk extract c r (all_cells chunks) rows
  unfolding fill_chunks fill_chunk
  fill_chunks-all_cells c r [] rows = refl
  fill_chunks-all_cells c r (chunk ∷ chunks) rows =
      bind_ext (fill_chunk extract c r chunk rows) _ _
        (λ a. fill_chunks-all_cells c (r + length chunk) chunks a)
      ∙ sym (fill_chunk-append c r chunk (all_cells chunks) rows)

  pub fill_chunks_lem :
      (m c : ℕ) (chunks : List (List C)) (rows : List (List Value))
      → c < m
      → Wide m rows
      → length (all_cells chunks) ≤ length rows
      → fill_chunks extract c 0 chunks rows ≡ value (overwrite c (all_cells chunks) rows)
  fill_chunks_lem m c chunks rows h w k =
      fill_chunks-all_cells c 0 chunks rows ∙ fill_chunk_lem m c (all_cells chunks) [] rows h w k
