-- ===== src/Spark/Extract/Schema.antt =====
-- A whole table: ArrowTableToQueryResult with extractArrowValue.
use livy_next.Prelude.{
  ℕ, zero, suc, ◌≡◌, refl, ◌∙◌, ap, List, [], ◌∷◌, map, Option, none, some, get_elem?,
}
use livy_next.Prelude.Outcome.{value}
use livy_next.Session.Types.{QueryResult, Schema, SchemaField}
use livy_next.Value.{Value}
use livy_next.Spark.Table.{Table, Column, schema_field, schema_of, table_to_query_result}
use livy_next.Spark.Table.Grid.{at, all_cells}
use livy_next.Spark.Table.Cells.{Even, table_to_query_result_lem}
use livy_next.Spark.Sanitize.Clean.{IsClean}
use livy_next.Spark.Extract.{Cell, Json, extract_arrow_value}
use livy_next.Spark.Extract.Kinds.{
  type_id, IsMarshaled, kind_of, announced, extract_arrow_value_lem,
}

get_elem?-map :
    {A B : Type 0} (f : A → B) (xs : List A) (j : ℕ) {x : A}
    → get_elem? xs j ≡ some x
    → get_elem? (map f xs) j ≡ some (f x)
get_elem?-map f [] j h = cc
get_elem?-map f (y ∷ xs) zero h =
    let e : some y ≡ some _ = h in
    ap (λ (o : Option _). elim o [ none ↦ none | some z ↦ some (f z) ]) e
get_elem?-map f (y ∷ xs) (suc j) h = get_elem?-map f xs j h

schema_of-field :
    (cols : List (Column Cell)) (j : ℕ) {col : Column Cell}
    → get_elem? cols j ≡ some col
    → (sc : Schema) × (schema_of cols ≡ some sc)
      × (get_elem? sc.fields j ≡ some (schema_field col.field))
schema_of-field [] j h = cc
schema_of-field (c ∷ cols) j h =
    (_, refl, get_elem?-map (λ (k : Column Cell). schema_field k.field) (c ∷ cols) j h)

-- What the result says of the cell r of column j: a field of the schema, and a value that is
-- sanitised and of the kind that the field's type announces.
pub record Shown (q : QueryResult) (j r : ℕ) : Type 0 where
  pub schema : Schema
  pub field : SchemaField
  pub shown : Value
  pub has_schema : q.schema ≡ some schema
  pub has_field : get_elem? schema.fields j ≡ some field
  pub stands : at r j q.rows ≡ some shown
  pub clean : IsClean shown
  pub kind : kind_of shown ≡ announced field.type

-- ArrowTableToQueryResult with extractArrowValue, for a table each of whose columns has as many
-- cells as it has rows, and a cell that is not null, whose array has the type of its column and,
-- where it is a list, a map or a struct, whose GetOneForMarshal gives the JSON that this type is
-- documented to have or a map: the result has a schema with a field for the column, and at the
-- row and column of the cell a value that is sanitised and of the JSON kind that the field's type
-- name announces.
pub table_values_lem :
    (json : Json) (t : Table Cell) (j r : ℕ) {col : Column Cell} {x : Cell}
    → Even t.num_rows t.columns
    → get_elem? t.columns j ≡ some col
    → get_elem? (all_cells col.chunks) r ≡ some x
    → type_id x ≡ some col.field.type
    → IsMarshaled json x
    → (q : QueryResult) × (table_to_query_result (extract_arrow_value json) t ≡ value q)
      × Shown q j r
unfolding schema_field
table_values_lem json t j r {col} {x} v g f e a =
    let (q, m, h) = table_to_query_result_lem (extract_arrow_value json) t v in
    let (sc, i, k) = schema_of-field t.columns j g in
    let (c, d) = extract_arrow_value_lem json x e a in
    (
      q,
      m,
      record {
        schema = sc;
        field = schema_field col.field;
        shown = extract_arrow_value json x;
        has_schema = h.schema ∙ i;
        has_field = k;
        stands = h.cells j r g f;
        clean = c;
        kind = d;
      },
    )
