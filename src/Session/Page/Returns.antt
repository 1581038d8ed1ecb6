-- ===== src/Session/Page/Returns.antt =====
-- When GetStatement and GetStatements do not panic.
use livy_next.Prelude.{
  ℕ, ◌<◌, ◌≡◌, refl, ap, inl, inr, List, Option, none, some, arith, codes, length, get_elem?,
  Bool-cases, ◌==◌,
}
use livy_next.Prelude.Assoc.{lookup, text_key}
use livy_next.Prelude.Int.{ℤ, pos_part}
use livy_next.Prelude.Outcome.{Outcome, value, map_outcome}
use livy_next.Session.Types.{Session, Statement, StatementOutput, QueryResult}
use livy_next.Session.Statements.{is_no_index}
use livy_next.Session.Page.{
  page, is_page, paged_result, output_map, put_page, paginate_output, fetch, fetch_output,
  get_statement, get_statements,
}
use livy_next.Session.Page.Bounds.{window, page_lem}

-- 2 ^ 62
abbrev pub half : ℕ
half = 4611686018427387904

abbrev pub Returns {ℓ} : {A : Type ℓ} → Outcome A → Type ℓ
Returns {A = A} o = (a : A) × (o ≡ value a)

pub Returns-map_outcome {ℓ κ} :
    {A : Type ℓ} {B : Type κ} (f : A → B) (o : Outcome A) → Returns o → Returns (map_outcome f o)
Returns-map_outcome f o (a, e) = (f a, ap (map_outcome f) e)

-- The result that the output holds, if it holds one, has fewer than 2 ^ 62 rows.
abbrev pub IsShortOutput : StatementOutput → Type 0
IsShortOutput out =
    (q : QueryResult)
    → paged_result (lookup (codes "application/json") (output_map out.output_data)) ≡ some q
    → length q.rows < half

-- Fewer than 2 ^ 62 statements, and outputs as above.
pub record IsShort (s : Session) : Type 0 where
  pub few : length s.statements < half
  pub outputs :
      (i : ℕ) {st : Statement} {out : StatementOutput}
      → get_elem? s.statements i ≡ some st
      → st.output ≡ some out
      → IsShortOutput out

page-Returns {ℓ} :
    {A : Type ℓ} (xs : List A) (from size : ℤ)
    → length xs < half
    → pos_part size < half
    → Returns (page xs from size)
page-Returns xs from size h k =
    (window xs (pos_part from) (pos_part size), page_lem xs from size (omega arith) (omega arith))

put_page-Returns :
    (out : StatementOutput) (from size : ℤ) (o : Option QueryResult)
    → ((q : QueryResult) → o ≡ some q → length q.rows < half)
    → pos_part size < half
    → Returns (put_page out from size o)
unfolding put_page
put_page-Returns out from size none f k = (_, refl)
put_page-Returns out from size (some q) f k =
    Returns-map_outcome _ (page q.rows from size) (page-Returns q.rows from size (f q refl) k)

paginate_output-Returns :
    (out : StatementOutput) (from size : ℤ)
    → IsShortOutput out
    → pos_part size < half
    → Returns (paginate_output out from size)
unfolding paginate_output
paginate_output-Returns out from size f k = elim (Bool-cases (is_page from size)) [
  | inl e ↦ rw e (put_page-Returns out from size _ f k)
  | inr e ↦ rw e (_, refl)
]

fetch_output-Returns :
    (from size : ℤ) (st : Statement) (o : Option StatementOutput)
    → ((out : StatementOutput) → o ≡ some out → IsShortOutput out)
    → pos_part size < half
    → Returns (fetch_output from size st o)
unfolding fetch_output
fetch_output-Returns from size st none f k = (_, refl)
fetch_output-Returns from size st (some out) f k =
    Returns-map_outcome _ (paginate_output out from size)
      (paginate_output-Returns out from size (f out refl) k)

fetch-Returns :
    (from size : ℤ) (o : Option Statement)
    → ((st : Statement) (out : StatementOutput)
        → o ≡ some st
        → st.output ≡ some out
        → IsShortOutput out)
    → pos_part size < half
    → Returns (fetch from size o)
unfolding fetch
fetch-Returns from size none f k = (_, refl)
fetch-Returns from size (some st) f k =
    fetch_output-Returns from size st st.output (λ out e. f st out refl e) k

pub get_statement-Returns :
    (id from size : ℤ) (s : Session)
    → IsShort s
    → pos_part size < half
    → Returns (get_statement id from size s)
unfolding get_statement
get_statement-Returns id from size s h k =
    elim (Bool-cases (is_no_index id (length s.statements))) [
      | inl e ↦ rw e (none, refl)
      | inr e ↦ rw e (
          fetch-Returns from size (get_elem? s.statements (pos_part id))
            (λ st out g o. h.outputs (pos_part id) g o) k)
    ]

pub get_statements-Returns :
    (from size : ℤ) (s : Session)
    → IsShort s
    → pos_part size < half
    → Returns (get_statements from size s)
unfolding get_statements
get_statements-Returns from size s h k = elim (Bool-cases (length s.statements == 0)) [
  | inl e ↦ rw e (_, refl)
  | inr e ↦ rw e (
      Returns-map_outcome _ (page s.statements from size)
        (page-Returns s.statements from size h.few k))
]
