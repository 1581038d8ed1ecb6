-- ===== src/Session/Page/Output.antt =====
-- What GetStatement and GetStatements answer: copies of the statements with one page of the rows.
use livy_next.Prelude.{
  ℕ, zero, suc, ◌+◌, ◌≤◌, ◌<◌, ◌≡◌, refl, ◌∙◌, ap, ◌⊎◌, inl, inr, true, false, min, List, [], ◌∷◌,
  map, Option, none, some, arith, codes, length, get_elem?-lt, get_elem?-some, ◌≢◌, ◌↔◌, ◌==◌,
  get_elem?, Bool-cases, Option-cases, Text,
}
use livy_next.Prelude.Assoc.{lookup, insert, text_key}
use livy_next.Prelude.Int.{ℤ, pos, pos_part, ltb_ℤ}
use livy_next.Prelude.Int64.{sign_bit}
use livy_next.Prelude.Outcome.{Outcome, value, panic, map_outcome}
use livy_next.Session.Types.{Session, Statement, StatementOutput, result_ptr, QueryResult}
use livy_next.Session.Page.{
  is_page, paged_result, page_result, output_map, copy_statement, paginate_output, get_statement,
  get_statements, fetch, fetch_output,
}
use livy_next.Session.Page.Bounds.{window, page_lem, page_overflow, clamp_start_lem}
use livy_next.Session.Statements.{is_no_index, is_no_index_pos, is_no_index_iff, is_no_index-false}

-- The page of a result that starts at row f, described by the list of its rows.
abbrev pub page_of : ℕ → ℕ → QueryResult → QueryResult
page_of f n q = record {
  schema = q.schema;
  rows = window q.rows f n;
  total = pos (length q.rows);
  from = pos (min f (length q.rows));
  size = pos (length (window q.rows f n));
}

abbrev pub json_key : Text
json_key = codes "application/json"

-- The *QueryResult of a statement's output.
abbrev pub output_result : StatementOutput → Option QueryResult
output_result out = paged_result (lookup json_key (output_map out.output_data))

abbrev pub with_result : QueryResult → StatementOutput → StatementOutput
with_result q out = record out {
  output_data = some (insert json_key (result_ptr (some q)) (output_map out.output_data));
}

-- The statement that is answered: no cancelFunc, and this output.
abbrev pub answer : Statement → StatementOutput → Statement
answer st out = record st { cancel_func = none; output = some out }

page_result_lem :
    (q : QueryResult) (from size : ℤ)
    → page_result q from size (window q.rows (pos_part from) (pos_part size))
      ≡ page_of (pos_part from) (pos_part size) q
unfolding page_result
page_result_lem q from size = rw (clamp_start_lem (length q.rows) from)

paginate_output_lem :
    (out : StatementOutput) (q : QueryResult) (from size : ℤ)
    → is_page from size ≡ true
    → output_result out ≡ some q
    → length q.rows < sign_bit
    → min (pos_part from) (length q.rows) + pos_part size < sign_bit
    → paginate_output out from size
      ≡ value (with_result (page_of (pos_part from) (pos_part size) q) out)
unfolding paginate_output
paginate_output_lem out q from size p e h k =
    rw (p, e, page_lem q.rows from size h k, page_result_lem q from size)

-- GetStatement at the index of a statement is `fetch` of that statement.
get_statement_at :
    (s : Session) (i : ℕ) (st : Statement) (from size : ℤ)
    → get_elem? s.statements i ≡ some st
    → get_statement (pos i) from size s ≡ fetch from size (some st)
unfolding get_statement
get_statement_at s i st from size h = rw (is_no_index_pos (get_elem?-lt s.statements i h), h)

paginate_output_overflow :
    (out : StatementOutput) (q : QueryResult) (f n : ℕ)
    → is_page (pos f) (pos n) ≡ true
    → output_result out ≡ some q
    → length q.rows < sign_bit
    → n < sign_bit
    → sign_bit ≤ min f (length q.rows) + n
    → paginate_output out (pos f) (pos n) ≡ panic
unfolding paginate_output
paginate_output_overflow out q f n p e h k l = rw (p, e, page_overflow q.rows f n h k l)

-- GetStatement at a statement whose output holds a query result, with a positive offset or size
-- whose page end fits an int, answers the statement without its cancelFunc and with the result
-- replaced by the page: the rows from the offset on (from the first if it is negative), at most
-- size of them if size is positive, with the number of all rows, the offset cut to it, and the
-- number of rows on the page.
pub get_statement_page :
    (s : Session) (i : ℕ) (from size : ℤ) {st : Statement} {out : StatementOutput} {q : QueryResult}
    → get_elem? s.statements i ≡ some st
    → st.output ≡ some out
    → output_result out ≡ some q
    → is_page from size ≡ true
    → length q.rows < sign_bit
    → min (pos_part from) (length q.rows) + pos_part size < sign_bit
    → get_statement (pos i) from size s
      ≡ value (some (answer st (with_result (page_of (pos_part from) (pos_part size) q) out)))
unfolding fetch
get_statement_page s i from size {st} {out} {q} h o e p b k =
    rw (get_statement_at s i st from size h)
      (rw (o, fetch_output) (rw (paginate_output_lem out q from size p e b k)))

-- GetStatement at a statement with an output, with neither a positive offset nor a positive size,
-- answers the statement without its cancelFunc and with the whole output, whose map is then not
-- nil.
pub get_statement_whole :
    (s : Session) (i : ℕ) (from size : ℤ) {st : Statement} {out : StatementOutput}
    → get_elem? s.statements i ≡ some st
    → st.output ≡ some out
    → is_page from size ≡ false
    → get_statement (pos i) from size s
      ≡ value (some (answer st (record out { output_data = some (output_map out.output_data) })))
unfolding fetch paginate_output
get_statement_whole s i from size {st} {out} h o p =
    rw (get_statement_at s i st from size h) (rw (o, fetch_output) (rw p))

-- GetStatement at a statement whose output holds a query result panics if the offset, cut to the
-- number of rows, plus the size exceeds the largest int, each of them being an int.
pub get_statement_overflow :
    (s : Session) (i f n : ℕ) {st : Statement} {out : StatementOutput} {q : QueryResult}
    → get_elem? s.statements i ≡ some st
    → st.output ≡ some out
    → output_result out ≡ some q
    → length q.rows < sign_bit
    → n < sign_bit
    → sign_bit ≤ min f (length q.rows) + n
    → get_statement (pos i) (pos f) (pos n) s ≡ panic
unfolding fetch
get_statement_overflow s i f n {st} {out} {q} h o e b l k =
    rw (get_statement_at s i st (pos f) (pos n) h)
      (rw (o, fetch_output) (rw (paginate_output_overflow out q f n (ground arith) e b l k)))

-- A statement without an output is answered as it is, without its cancelFunc.
pub get_statement_bare :
    (s : Session) (i : ℕ) (from size : ℤ) {st : Statement}
    → get_elem? s.statements i ≡ some st
    → st.output ≡ none
    → get_statement (pos i) from size s ≡ value (some (copy_statement st))
unfolding fetch
get_statement_bare s i from size {st} h o =
    get_statement_at s i st from size h ∙ ap (fetch_output from size st) o

copies-nil :
    (xs : List Statement) (f n : ℕ) → length xs ≡ 0 → map copy_statement (window xs f n) ≡ []
copies-nil [] zero zero h = refl
copies-nil [] zero (suc n) h = refl
copies-nil [] (suc f) zero h = refl
copies-nil [] (suc f) (suc n) h = refl
copies-nil (x ∷ xs) f n h = absurd (omega arith)

-- GetStatements answers copies without cancelFunc of the statements from the offset on (from the
-- first if it is negative), at most size of them if size is positive, and the number of all
-- statements, if the page end fits an int.
pub get_statements_lem :
    (s : Session) (from size : ℤ)
    → length s.statements < sign_bit
    → min (pos_part from) (length s.statements) + pos_part size < sign_bit
    → get_statements from size s
      ≡ value (
        map copy_statement (window s.statements (pos_part from) (pos_part size)),
        length s.statements,
      )
unfolding get_statements
get_statements_lem s from size h k = elim (Bool-cases (length s.statements == 0)) [
  | inl e ↦ rw e (ground (arith, copies-nil s.statements (pos_part from) (pos_part size)))
  | inr e ↦ rw (e, page_lem s.statements from size h k)
]

map_outcome-some {ℓ} :
    {A : Type ℓ} (f : A → Statement) (r : Outcome A) → map_outcome (λ a. some (f a)) r ≢ value none
map_outcome-some f (value a) h = cc
map_outcome-some f panic h = cc

fetch-ne-none : (from size : ℤ) (st : Statement) → fetch from size (some st) ≢ value none
unfolding fetch
fetch-ne-none from size st h = elim (Option-cases st.output) [
  | inl e ↦ ground arith
  | inr (out, e) ↦ map_outcome-some _ (paginate_output out from size) (rw (e, fetch_output) at h)
]

-- GetStatement finds no statement exactly when the number is negative or not below the number of
-- statements.
pub get_statement_missing :
    (s : Session) (id from size : ℤ)
    → (get_statement id from size s ≡ value none)
      ↔ ((ltb_ℤ id (pos 0) ≡ true) ⊎ (length s.statements ≤ pos_part id))
unfolding get_statement fetch
get_statement_missing s id from size =
    (missing, λ h. rw ((is_no_index_iff id (length s.statements)).1 h))
  where
    found : is_no_index id (length s.statements) ≡ false → get_statement id from size s ≢ value none
    found e h =
        let i : ℕ = pos_part id in
        let (st, g) =
          get_elem?-some s.statements i (is_no_index-false id (length s.statements) e) in
        fetch-ne-none from size st (rw (e, g) at h)

    missing :
        get_statement id from size s ≡ value none
        → (ltb_ℤ id (pos 0) ≡ true) ⊎ (length s.statements ≤ pos_part id)
    missing h = elim (Bool-cases (is_no_index id (length s.statements))) [
      | inl e ↦ (is_no_index_iff id (length s.statements)).0 e
      | inr e ↦ absurd (found e h)
    ]
