-- ===== src/Session/Page.antt =====
-- pkg/session/session.go: the pages of a result and of the list of statements (GetStatement,
-- paginateOutput, GetStatements). Go panics where a slice's bounds are out of order or of range.
pub mod Bounds
pub mod Output
pub mod Returns
use livy_next.Prelude.{
  ℕ, ◌-◌, Bool, true, false, List, [], ◌∷◌, map, Option, none, some, codes, leb, ◌==◌, length,
  get_elem?, take, drop, if◌then◌else◌, ◌||◌, ◌&&◌, Text,
}
use livy_next.Prelude.Assoc.{lookup, insert, text_key}
use livy_next.Prelude.Int.{ℤ, pos, negsuc, ltb_ℤ, leb_ℤ, pos_part, ◌+ℤ◌}
use livy_next.Prelude.Int64.{wrap64}
use livy_next.Prelude.Outcome.{Outcome, value, panic, map_outcome}
use livy_next.Session.Types.{
  Session, Statement, StatementOutput, OutputValue, result_ptr, result, other, QueryResult,
}
use livy_next.Value.{Value}
use livy_next.Session.Statements.{is_no_index}

-- from, brought into 0 .. total.
unfoldable pub clamp_start : ℤ → ℤ → ℤ
clamp_start total from =
    let start = if ltb_ℤ from (pos 0) then pos 0 else from in
    if ltb_ℤ total start then total else start

at_most : ℤ → ℤ → ℤ
at_most total e = if ltb_ℤ total e then total else e

-- start + size is an int, and wraps.
unfoldable pub page_end : ℤ → ℤ → ℤ → ℤ
unfolding at_most
page_end total start size =
    if ltb_ℤ (pos 0) size then at_most total (wrap64 (start +ℤ size)) else total

-- Whether start:end is a slice of that many items.
unfoldable pub in_bounds : ℕ → ℤ → ℤ → Bool
in_bounds n start end = leb_ℤ (pos 0) start && leb_ℤ start end && leb_ℤ end (pos n)

-- xs[start:end]
unfoldable pub slice {ℓ} : {A : Type ℓ} → List A → ℤ → ℤ → Outcome (List A)
slice xs start end =
    if in_bounds (length xs) start end
    then value (take (pos_part end - pos_part start) (drop (pos_part start) xs))
    else panic

-- The rows from `from` on, at most `size` of them if that is positive.
unfoldable pub page {ℓ} : {A : Type ℓ} → List A → ℤ → ℤ → Outcome (List A)
unfolding clamp_start page_end slice
page xs from size =
    let total = pos (length xs) in
    let start = clamp_start total from in slice xs start (page_end total start size)

abbrev pub is_page : ℤ → ℤ → Bool
is_page from size = ltb_ℤ (pos 0) from || ltb_ℤ (pos 0) size

-- The *QueryResult that is paged, if there is one.
unfoldable pub paged_result : Option OutputValue → Option QueryResult
paged_result none = none
paged_result (some (result_ptr q)) = q
paged_result (some (result q)) = some q
paged_result (some (other v)) = none

unfoldable pub page_result : QueryResult → ℤ → ℤ → List (List Value) → QueryResult
page_result q from size rows = record {
  schema = q.schema;
  rows = rows;
  total = pos (length q.rows);
  from = clamp_start (pos (length q.rows)) from;
  size = pos (length rows);
}

abbrev pub output_map : Option (List (Text × OutputValue)) → List (Text × OutputValue)
output_map none = []
output_map (some m) = m

-- The copy that paginateOutput makes: its map is never nil.
abbrev pub copy_output : StatementOutput → StatementOutput
copy_output out = record out { output_data = some (output_map out.output_data) }

put_page : StatementOutput → ℤ → ℤ → Option QueryResult → Outcome StatementOutput
put_page out from size none = value (copy_output out)
put_page out from size (some q) =
    map_outcome
      (λ rows. record out {
        output_data = some (
            insert (codes "application/json") (result_ptr (some (page_result q from size rows)))
              (output_map out.output_data));
      })
      (page q.rows from size)

unfoldable pub paginate_output : StatementOutput → ℤ → ℤ → Outcome StatementOutput
unfolding put_page paged_result
paginate_output out from size =
    if is_page from size
    then put_page out from size
        (paged_result (lookup (codes "application/json") (output_map out.output_data)))
    else value (copy_output out)

-- A copy of a statement has no cancelFunc.
abbrev pub copy_statement : Statement → Statement
copy_statement st = record st { cancel_func = none }

fetch_output : ℤ → ℤ → Statement → Option StatementOutput → Outcome (Option Statement)
fetch_output from size st none = value (some (copy_statement st))
fetch_output from size st (some out) =
    map_outcome (λ o. some (record (copy_statement st) { output = some o }))
      (paginate_output out from size)

fetch : ℤ → ℤ → Option Statement → Outcome (Option Statement)
unfolding fetch_output
fetch from size none = value none
fetch from size (some st) = fetch_output from size st st.output

-- `none` is the answer (nil, false).
unfoldable pub get_statement : ℤ → ℤ → ℤ → Session → Outcome (Option Statement)
unfolding fetch
get_statement id from size s =
    if is_no_index id (length s.statements)
    then value none
    else fetch from size (get_elem? s.statements (pos_part id))

unfoldable pub get_statements : ℤ → ℤ → Session → Outcome (List Statement × ℕ)
get_statements from size s =
    if length s.statements == 0
    then value ([], 0)
    else map_outcome (λ sts. (map copy_statement sts, length s.statements))
        (page s.statements from size)
