-- ===== src/Session/Examples.antt =====
-- Runs of a session at concrete inputs, and the theorems applied to them.
use livy_next.Prelude.{
  ℕ, ◌≡◌, refl, Bool, true, false, List, [], ◌∷◌, Option, none, some, arith, Text, codes, text_eq,
}
use livy_next.Prelude.Int.{ℤ, pos}
use livy_next.Prelude.Int64.{quot_by}
use livy_next.Prelude.Assoc.{lookup, insert}
use livy_next.Prelude.Outcome.{value, panic}
use livy_next.Session.Types.{
  Session, SessionCreateParams, QueryResult, StatementOutput, Statement, idle, available,
}
use livy_next.Value.{text}
use livy_next.Session.Lifecycle.{new_session, set_state, close, close_state, panicked}
use livy_next.Session.Statements.{
  submit_statement, start_statement, finish_statement, any_active, is_busy, new_statement,
  update_busy_state, record_result, ok_output,
}
use livy_next.Session.Run.{
  System, boot, submit, start, finish, on_session, Reach, here, next, submits, starts, finishes,
  closes, anyone,
}
use livy_next.Session.Run.Tidy.{Inv}
use livy_next.Session.Run.Invariant.{boot-Reach-Inv}
use livy_next.Session.Run.Final.{Kept, Reach-Kept}
use livy_next.Session.Run.Closing.{Closes, close_returns, panic_reachable}
use livy_next.Session.Run.Progress.{all_end}
use livy_next.Session.Page.{paged_result, get_statement, get_statements, copy_statement}
use livy_next.Session.Page.Bounds.{read_pages, read_pages_lem}
use livy_next.Session.Page.Output.{
  page_of, answer, with_result, get_statement_page, get_statement_overflow, get_statements_lem,
}

abbrev params : SessionCreateParams
params = record {
  name = codes "etl";
  kind = [];
  proxy_user = codes "alice";
  user_id = [];
  session_id = [];
  user_agent = [];
  token = [];
  conf = [];
  jars = [];
  max_result_rows = pos 0;
}

abbrev three_rows : QueryResult
three_rows = record {
  schema = none;
  rows = (text (codes "a") ∷ []) ∷ (text (codes "b") ∷ []) ∷ (text (codes "c") ∷ []) ∷ [];
  total = pos 0;
  from = pos 0;
  size = pos 0;
}

abbrev answers : ℕ → Option QueryResult × Option Text
answers i = (some three_rows, none)

-- A run of one statement. Its `unfolding` line serves the theorems below.
fresh : System
fresh = boot (pos 0) (pos 5) (pos 7) params none

waits : System
unfolding fresh
waits = submit (pos 10) (pos 11) (codes "SELECT 1") [] fresh

runs : System
unfolding waits
runs = start 0 waits

ends : System
unfolding runs boot submit start finish submit_statement start_statement finish_statement
    new_session set_state new_statement update_busy_state any_active record_result quot_by
ends = finish (pos 20) (pos 21) 0 (answers 0) runs

ends_idle : ends.session.state ≡ idle
unfolding ends
ends_idle = refl

whole_run : {admit : Session → Bool} → admit fresh.session ≡ true → Reach admit fresh ends
unfolding ends
whole_run h =
    next (next (next here (submits (pos 10) (pos 11) (codes "SELECT 1") [] h)) (starts 0 refl))
      (finishes (pos 20) (pos 21) 0 (answers 0) refl)

boot-Reach-Inv_example : Inv ends
unfolding fresh
boot-Reach-Inv_example =
    boot-Reach-Inv (pos 0) (pos 5) (pos 7) params none {admit = anyone} {z = ends} (whole_run refl)

done : Statement
unfolding ends
done = record {
  id = pos 0;
  code = codes "SELECT 1";
  state = available;
  output = some (ok_output (pos 0) (some three_rows));
  progress = 10;
  started = pos 0;
  completed = pos 0;
  tags = [];
  cancel_func = some (record { done = true });
}

-- A Close after the end of the statement.
closed : System
unfolding ends close
closed = on_session (λ s. close_state (close (pos 30) s)) ends

ends-Inv : Inv ends
unfolding fresh
ends-Inv =
    boot-Reach-Inv (pos 0) (pos 5) (pos 7) params none {admit = anyone} {z = ends} (whole_run refl)

Reach-Kept_example : Kept 0 done closed.session.statements
unfolding closed done
Reach-Kept_example =
    Reach-Kept {admit = anyone} {y = ends} {z = closed} 0 {st = done} ends-Inv
      (next here (closes (pos 30))) refl

close_returns_example : Closes ends.session (close (pos 30) ends.session)
unfolding fresh
close_returns_example =
    close_returns (pos 0) (pos 5) (pos 7) params none (pos 30) {z = ends}
      (whole_run (unfold boot new_session set_state in refl))

panic_reachable_example :
    (z : System) × Reach anyone (boot (pos 0) (pos 5) (pos 7) params none) z
    × ((then_ : ℤ) → (t : Session) × (close then_ z.session ≡ panicked t))
panic_reachable_example = panic_reachable (pos 0) (pos 5) (pos 7) params none (codes "SELECT 2") []

runs-Inv : Inv runs
unfolding ends
runs-Inv =
    boot-Reach-Inv (pos 0) (pos 5) (pos 7) params none {admit = anyone} {z = runs}
      (next (next here (submits (pos 10) (pos 11) (codes "SELECT 1") [] refl)) (starts 0 refl))

all_end_example :
    (z : System) × Reach anyone runs z
    × (any_active z.session.statements ≡ false)
    × (is_busy z.session.state ≡ false)
all_end_example = all_end anyone (pos 60) (pos 61) answers runs runs-Inv

-- The names by which the output is read.
output : StatementOutput
unfolding done paged_result lookup text_eq insert
output = ok_output (pos 0) (some three_rows)

get_statement_page_example :
    get_statement (pos 0) (pos 1) (pos 2) ends.session
    ≡ value (
        some (
          answer done (with_result (page_of 1 2 three_rows) (ok_output (pos 0) (some three_rows)))))
unfolding done output
get_statement_page_example =
    get_statement_page ends.session 0 (pos 1) (pos 2) {st = done}
      {out = ok_output (pos 0) (some three_rows)} {q = three_rows} refl refl refl refl (omega arith)
      (omega arith)

get_statement_overflow_example :
    get_statement (pos 0) (pos 1) (pos 9223372036854775807) ends.session ≡ panic
unfolding done output
get_statement_overflow_example =
    get_statement_overflow ends.session 0 1 9223372036854775807 {st = done}
      {out = ok_output (pos 0) (some three_rows)} {q = three_rows} refl refl refl (omega arith)
      (omega arith) (omega arith)

get_statements_example :
    get_statements (pos 0) (pos 5) ends.session ≡ value (copy_statement done ∷ [], 1)
unfolding done
get_statements_example = get_statements_lem ends.session (pos 0) (pos 5) (omega arith) (omega arith)

abbrev numbers : List ℕ
numbers = 1 ∷ 2 ∷ 3 ∷ []

read_pages_example : read_pages 2 2 0 numbers ≡ value numbers
read_pages_example = read_pages_lem 2 1 0 numbers (omega arith) (omega arith)
