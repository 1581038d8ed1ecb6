-- ===== src/Api/Statements/Listing.antt =====
-- The page of statements that ListStatements answers.
use livy_next.Prelude.{ℕ, ◌+◌, ◌<◌, ◌≡◌, min, map, some, Text, length}
use livy_next.Prelude.Int.{pos}
use livy_next.Prelude.Int64.{sign_bit}
use livy_next.Prelude.Outcome.{value}
use livy_next.Strconv.Decimal.{show_nat}
use livy_next.Session.Types.{Session}
use livy_next.Session.Page.{copy_statement}
use livy_next.Session.Page.Bounds.{window}
use livy_next.Session.Page.Output.{get_statements_lem}
use livy_next.Manager.{Store}
use livy_next.Api.Types.{Handler, statements, respond_json}
use livy_next.Api.Query.Bounds.{query-show_nat}
use livy_next.Api.Statements.{find_session, list_statements, list_found}

-- ListStatements of a found session, with decimal numerals for from and size, answers 200 with
-- the statements from that offset on, at most size of them if it is not 0, without their
-- cancelFunc, and with the number of all, if the numbers and the page end fit an int.
pub list_statements_lem :
    (h : Handler) (id : Text) (f n : ℕ) (w : Store) {p : ℕ} {s : Session}
    → find_session id w ≡ some (p, s)
    → f < sign_bit
    → n < sign_bit
    → length s.statements < sign_bit
    → min f (length s.statements) + n < sign_bit
    → list_statements h id (show_nat f) (show_nat n) w
      ≡ value (
          respond_json h 200 (
            statements (record {
              total_statements = length s.statements;
              statements = map copy_statement (window s.statements f n);
            })))
unfolding list_statements
list_statements_lem h id f n w {p} {s} e a b c d =
    rw (e, (query-show_nat f a).0, (query-show_nat n b).1, list_found)
      (rw (get_statements_lem s (pos f) (pos n) c d))
