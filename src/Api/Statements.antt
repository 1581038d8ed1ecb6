-- ===== src/Api/Statements.antt =====
-- pkg/api/handler.go: SubmitStatement, ListStatements, GetStatement, CancelStatement.
pub mod Replies
pub mod Found
pub mod Sequence
pub mod Returns
pub mod Listing
use livy_next.Prelude.{
  ℕ, Bool, true, false, List, Option, none, some, Text, codes, is_empty, get_elem?, set,
  if◌then◌else◌,
}
use livy_next.Prelude.Int.{ℤ}
use livy_next.Prelude.Outcome.{Outcome, value, map_outcome}
use livy_next.Session.Types.{Session, Statement}
use livy_next.Session.Lifecycle.{is_terminal}
use livy_next.Session.Statements as Session
use livy_next.Session.Page as Page
use livy_next.Strconv.{atoi}
use livy_next.Manager.{Store, get_session_by_identifier}
use livy_next.Api.Types.{
  Handler, Response, statement, statements, msg, CreateStatementRequest, respond_json,
  respond_error,
}
use livy_next.Api.Query.{query_from, query_size}

-- The session that an identifier leads to, with its pointer.
abbrev pub pointed : Option ℕ → List Session → Option (ℕ × Session)
pointed none heap = none
pointed (some p) heap = elim (get_elem? heap p) [ none ↦ none | some s ↦ some (p, s) ]

unfoldable pub find_session : Text → Store → Option (ℕ × Session)
find_session id w = pointed (get_session_by_identifier id w) w.heap

not_found : Handler → Response
not_found h = respond_error h 404 (codes "Session not found")

unfoldable pub submit_code :
    Handler → ℤ → ℤ → Option CreateStatementRequest → ℕ → Session → Store → Store × Response
submit_code h now later none p s w = (w, respond_error h 400 (codes "Invalid request payload"))
submit_code h now later (some req) p s w =
    if is_empty req.code
    then (w, respond_error h 400 (codes "Code cannot be empty"))
    else let (t, st) = Session.submit_statement now later req.code req.tags s in
      (record w { heap = set w.heap p t }, respond_json h 201 (statement st))

unfoldable pub submit_found :
    Handler
    → ℤ
    → ℤ
    → Option CreateStatementRequest
    → Option (ℕ × Session)
    → Store
    → Store × Response
unfolding submit_code not_found
submit_found h now later body none w = (w, not_found h)
submit_found h now later body (some (p, s)) w =
    if is_terminal s.state
    then (w, respond_error h 400 (codes "Cannot submit statement to a terminated session"))
    else submit_code h now later body p s w

-- With no other call between the test of the state and the submission.
unfoldable pub submit_statement :
    Handler → ℤ → ℤ → Text → Option CreateStatementRequest → Store → Store × Response
unfolding submit_found
submit_statement h now later id body w = submit_found h now later body (find_session id w) w

list_found : Handler → ℤ → ℤ → Option (ℕ × Session) → Outcome Response
unfolding not_found
list_found h from size none = value (not_found h)
list_found h from size (some (p, s)) =
    map_outcome
      (λ r. respond_json h 200 (statements (record { total_statements = r.1; statements = r.0 })))
      (Page.get_statements from size s)

unfoldable pub list_statements : Handler → Text → Text → Text → Store → Outcome Response
unfolding list_found
list_statements h id from size w =
    list_found h (query_from from) (query_size size) (find_session id w)

statement_reply : Handler → Option Statement → Response
statement_reply h none = respond_error h 404 (codes "Statement not found")
statement_reply h (some st) = respond_json h 200 (statement st)

get_at : Handler → Option ℤ → ℤ → ℤ → Session → Outcome Response
unfolding statement_reply
get_at h none from size s = value (respond_error h 400 (codes "Invalid statement ID"))
get_at h (some n) from size s = map_outcome (statement_reply h) (Page.get_statement n from size s)

get_found : Handler → Option ℤ → ℤ → ℤ → Option (ℕ × Session) → Outcome Response
unfolding get_at not_found
get_found h n from size none = value (not_found h)
get_found h n from size (some (p, s)) = get_at h n from size s

unfoldable pub get_statement : Handler → Text → Text → Text → Text → Store → Outcome Response
unfolding get_found
get_statement h id statement_id from size w =
    get_found h (atoi statement_id) (query_from from) (query_size size) (find_session id w)

cancel_reply : Handler → Bool → Response
cancel_reply h true = respond_json h 200 (msg (codes "cancelled"))
cancel_reply h false =
    respond_error h 400
      (codes "Statement cannot be cancelled (either not found or already completed)")

unfoldable pub cancel_at : Handler → Option ℤ → ℕ → Session → Store → Store × Response
unfolding cancel_reply
cancel_at h none p s w = (w, respond_error h 400 (codes "Invalid statement ID"))
cancel_at h (some n) p s w =
    let (t, ok) = Session.cancel_statement n s in
    (record w { heap = set w.heap p t }, cancel_reply h ok)

unfoldable pub cancel_found : Handler → Option ℤ → Option (ℕ × Session) → Store → Store × Response
unfolding cancel_at not_found
cancel_found h n none w = (w, not_found h)
cancel_found h n (some (p, s)) w = cancel_at h n p s w

unfoldable pub cancel_statement : Handler → Text → Text → Store → Store × Response
unfolding cancel_found
cancel_statement h id statement_id w = cancel_found h (atoi statement_id) (find_session id w) w
