-- ===== src/Spark/Table/Cells.antt =====
-- Where the cells of a table stand in its result.
use livy_next.Prelude.{
  ℕ, zero, suc, ◌+◌, ◌<◌, ◌≤◌, ◌≡◌, refl, ◌∙◌, ap, List, [], ◌∷◌, some, arith, length, get_elem?,
  replicate, length-replicate,
}
use livy_next.Prelude.Outcome.{value}
use livy_next.Session.Types.{QueryResult}
use livy_next.Value.{Value, nil_value}
use livy_next.Spark.Table.{Column, Table, fill_columns, schema_of, result_of, table_to_query_result}
use livy_next.Spark.Table.Grid.{
  Wide, Wide-replicate, at, all_cells, overwrite, Wide-overwrite, length-overwrite, fill_chunks_lem,
  at-overwrite_ne, at-overwrite_self,
}

-- Every column has that many cells.
abbrev pub Even : {C : Type 0} → ℕ → List (Column C) → Type 0
Even n [] = Unit {0}
Even n (col ∷ cols) = (length (all_cells col.chunks) ≡ n) × Even n cols

module _ {C : Type 0} (extract : C → Value) where
  -- Columns c, c + 1, ... written over.
  overwrite_all : ℕ → List (Column C) → List (List Value) → List (List Value)
  overwrite_all c [] rows = rows
  overwrite_all c (col ∷ cols) rows =
      overwrite_all (suc c) cols (overwrite extract c (all_cells col.chunks) rows)

  length-overwrite_all :
      (c : ℕ) (cols : List (Column C)) (rows : List (List Value))
      → length (overwrite_all c cols rows) ≡ length rows
  unfolding overwrite_all
  length-overwrite_all c [] rows = refl
  length-overwrite_all c (col ∷ cols) rows =
      length-overwrite_all (suc c) cols _ ∙ length-overwrite extract c (all_cells col.chunks) rows

  Wide-overwrite_all :
      (m c : ℕ) (cols : List (Column C)) (rows : List (List Value))
      → Wide m rows
      → Wide m (overwrite_all c cols rows)
  unfolding overwrite_all
  Wide-overwrite_all m c [] rows w = w
  Wide-overwrite_all m c (col ∷ cols) rows w =
      Wide-overwrite_all m (suc c) cols _ (Wide-overwrite extract m c (all_cells col.chunks) rows w)

  fill_columns_lem :
      (m c n : ℕ) (cols : List (Column C)) (rows : List (List Value))
      → c + length cols ≤ m
      → length rows ≡ n
      → Wide m rows
      → Even n cols
      → fill_columns extract c cols rows ≡ value (overwrite_all c cols rows)
  unfolding overwrite_all fill_columns
  fill_columns_lem m c n [] rows h k w v = refl
  fill_columns_lem m c n (col ∷ cols) rows h k w (e, v) =
      rw (fill_chunks_lem extract m c col.chunks rows (omega arith) w (omega arith)) (
        fill_columns_lem m (suc c) n cols (overwrite extract c (all_cells col.chunks) rows)
          (omega arith) (length-overwrite extract c (all_cells col.chunks) rows ∙ k)
          (Wide-overwrite extract m c (all_cells col.chunks) rows w) v)

  -- A column before those that are written stays.
  at-overwrite_all_lt :
      (c d : ℕ) (cols : List (Column C)) (rows : List (List Value)) (r : ℕ)
      → d < c
      → at r d (overwrite_all c cols rows) ≡ at r d rows
  unfolding overwrite_all
  at-overwrite_all_lt c d [] rows r h = refl
  at-overwrite_all_lt c d (col ∷ cols) rows r h =
      at-overwrite_all_lt (suc c) d cols _ r (omega arith)
      ∙ at-overwrite_ne extract c d (all_cells col.chunks) rows r (λ e. absurd (omega arith))

  at-overwrite_all :
      (m c n j r : ℕ) (cols : List (Column C)) (rows : List (List Value)) {col : Column C} {x : C}
      → c + length cols ≤ m
      → length rows ≡ n
      → Wide m rows
      → Even n cols
      → get_elem? cols j ≡ some col
      → get_elem? (all_cells col.chunks) r ≡ some x
      → at r (c + j) (overwrite_all c cols rows) ≡ some (extract x)
  unfolding overwrite_all
  at-overwrite_all m c n j r [] rows h k w v g f = cc
  at-overwrite_all m c n zero r (y ∷ cols) rows {col} {x} h k w (e, v) g f =
      let q : y ≡ col = cc in
      let f' : get_elem? (all_cells y.chunks) r ≡ some x =
        ap (λ (z : Column C). get_elem? (all_cells z.chunks) r) q ∙ f in
      at-overwrite_all_lt (suc c) (c + 0) cols _ r (omega arith)
      ∙ ap (λ i. at r i (overwrite extract c (all_cells y.chunks) rows)) {y = c} (omega arith)
      ∙ at-overwrite_self extract m c (all_cells y.chunks) rows r {x = x} (omega arith) w
          (omega arith) f'
  at-overwrite_all m c n (suc j) r (y ∷ cols) rows {col} {x} h k w (e, v) g f =
      let rows' = overwrite extract c (all_cells y.chunks) rows in
      ap (λ i. at r i (overwrite_all (suc c) cols rows')) {y = suc c + j} (omega arith)
      ∙ at-overwrite_all m (suc c) n j r cols rows' {col = col} {x = x} (omega arith)
          (length-overwrite extract c (all_cells y.chunks) rows ∙ k)
          (Wide-overwrite extract m c (all_cells y.chunks) rows w) v g f

  -- What the result holds.
  pub record Holds (t : Table C) (q : QueryResult) : Type 0 where
    pub schema : q.schema ≡ schema_of t.columns
    pub count : length q.rows ≡ t.num_rows
    pub wide : Wide (length t.columns) q.rows
    pub cells :
        (j r : ℕ) {col : Column C} {x : C}
        → get_elem? t.columns j ≡ some col
        → get_elem? (all_cells col.chunks) r ≡ some x
        → at r j q.rows ≡ some (extract x)

  -- ArrowTableToQueryResult of a table each of whose columns has as many cells as the table has
  -- rows does not panic, and its result has that many rows, each as long as there are columns,
  -- with the value of the cell r of column j, counted over all its chunks, in row r and column j,
  -- and a schema with the fields of the columns, if there are any.
  pub table_to_query_result_lem :
      (t : Table C)
      → Even t.num_rows t.columns
      → (q : QueryResult) × (table_to_query_result extract t ≡ value q) × Holds t q
  unfolding table_to_query_result
  table_to_query_result_lem t v =
      let m = length t.columns in
      let rows = replicate t.num_rows (replicate m nil_value) in
      let k : length rows ≡ t.num_rows = length-replicate t.num_rows (replicate m nil_value) in
      let w : Wide m rows = Wide-replicate t.num_rows m nil_value in
      (
        result_of t.columns (overwrite_all 0 t.columns rows),
        rw (fill_columns_lem m 0 t.num_rows t.columns rows (omega arith) k w v),
        record {
          schema = refl;
          count = length-overwrite_all 0 t.columns rows ∙ k;
          wide = Wide-overwrite_all m 0 t.columns rows w;
          cells = λ j r {col} {x} g f.
              ap (λ i. at r i (overwrite_all 0 t.columns rows)) {x = j} {y = 0 + j} (omega arith)
              ∙ at-overwrite_all m 0 t.num_rows j r t.columns rows {col = col} {x = x} (omega arith)
                  k w v g f;
        },
      )
