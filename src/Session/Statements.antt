-- ===== src/Session/Statements.antt =====
-- pkg/session/session.go: SubmitStatement, runStatement, updateBusyStateLocked, CancelStatement. A
-- pointer to a statement is its index in the list. runStatement is two steps, since it gives the
-- lock up while the query runs: start_statement before ExecuteSQL and finish_statement after it.
pub mod Steps
use livy_next.Prelude.{
  ℕ, ◌<◌, ◌≤◌, ◌≡◌, ◌↔◌, ◌⊎◌, arith, Bool, true, false, List, [], ◌∷◌, ◌++◌, Option, none, some,
  Text, codes, contains_text, ltb, leb, length, get_elem?, set, if◌then◌else◌, ◌||◌, ◌&&◌, not,
}
use livy_next.Prelude.Int.{ℤ, pos, negsuc, ltb_ℤ, pos_part}
use livy_next.Prelude.Int64.{quot_by}
use livy_next.Session.Types.{
  Session, SessionState, idle, busy, Statement, StatementState, waiting, running, available, error,
  cancelled, StatementOutput, OutputValue, result_ptr, Context, QueryResult,
}

abbrev pub is_active : StatementState → Bool
is_active waiting = true
is_active running = true
is_active _ = false

abbrev pub is_cancelled : StatementState → Bool
is_cancelled cancelled = true
is_cancelled _ = false

abbrev pub is_busy : SessionState → Bool
is_busy busy = true
is_busy _ = false

-- The loop of updateBusyStateLocked, negated: whether some statement is waiting or running.
unfoldable pub any_active : List Statement → Bool
any_active [] = false
any_active (st ∷ sts) = is_active st.state || any_active sts

unfoldable pub update_busy_state : Session → Session
update_busy_state s =
    if not (any_active s.statements) && is_busy s.state then record s { state = idle } else s

-- UnixNano() / int64(time.Millisecond)
abbrev pub millis : ℤ → ℤ
millis now = quot_by now 1000000

unfoldable pub new_statement : ℤ → ℕ → Text → List Text → Statement
new_statement now n code tags = record {
  id = pos n;
  code = code;
  state = waiting;
  output = none;
  progress = 0;
  started = millis now;
  completed = pos 0;
  tags = tags;
  cancel_func = none;
}

-- The two times are the two calls of time.Now.
unfoldable pub submit_statement : ℤ → ℤ → Text → List Text → Session → Session × Statement
submit_statement now later code tags s =
    let st = new_statement now (length s.statements) code tags in
    (record s { statements = s.statements ++ st ∷ []; state = busy; last_activity = later }, st)

abbrev pub put_statement : ℕ → Statement → Session → Session
put_statement i st s = record s { statements = set s.statements i st }

unfoldable pub begin_run : Statement → Statement
begin_run st = record st {
  cancel_func = some (record { done = false });
  state = running;
  progress = 1;
}

start_at : ℕ → Option Statement → Session → Session × Bool
start_at i none s = (s, false)
start_at i (some st) s =
    if is_cancelled st.state then (s, false) else (put_statement i (begin_run st) s, true)

-- Up to the call of ExecuteSQL, which is made if the result is true. On a nil client the call would
-- panic and end the process; CreateSession never makes a session without a client.
unfoldable pub start_statement : ℕ → Session → Session × Bool
unfolding start_at begin_run
start_statement i s = start_at i (get_elem? s.statements i) s

unfoldable pub cancel_context : Option Context → Option Context
cancel_context none = none
cancel_context (some c) = some (record { done = true })

watch_at : ℕ → Option Statement → Session → Session
watch_at i none s = s
watch_at i (some st) s =
    if s.close_ch
    then put_statement i (record st { cancel_func = cancel_context st.cancel_func }) s
    else s

-- The goroutine that listens for the close of the session.
unfoldable pub watch_close : ℕ → Session → Session
unfolding watch_at cancel_context
watch_close i s = watch_at i (get_elem? s.statements i) s

-- The errors by which the session is taken to be lost.
unfoldable pub is_lost : Text → Bool
is_lost e =
    contains_text e (codes "SESSION_CLOSED")
    || contains_text e (codes "INVALID_HANDLE")
    || contains_text e (codes "Unavailable")
    || contains_text e (codes "transport is closing")
    || contains_text e (codes "connection reset by peer")
    || contains_text e (codes "TransientFailure")

abbrev pub error_output : ℤ → Text → Text → Text → StatementOutput
error_output id ename evalue trace = record {
  status = codes "error";
  execution_count = id;
  output_data = none;
  ename = ename;
  evalue = evalue;
  traceback = trace ∷ [];
}

abbrev pub ok_output : ℤ → Option QueryResult → StatementOutput
ok_output id res = record {
  status = codes "ok";
  execution_count = id;
  output_data = some ((codes "application/json", result_ptr res) ∷ []);
  ename = [];
  evalue = [];
  traceback = [];
}

-- What ExecuteSQL answered, put into the statement.
unfoldable pub record_result : Option QueryResult × Option Text → Statement → Statement
record_result (res, none) st = record st { state = available; output = some (ok_output st.id res) }
record_result (res, some e) st = record st {
  state = error;
  output = some (error_output st.id (codes "SparkExecutionError") e e);
}

unfoldable pub result_log : Option Text → Text
result_log none = codes "Statement executed successfully"
result_log (some e) = codes "Statement execution failed: " ++ e

abbrev pub lost_by : Option Text → Bool
lost_by none = false
lost_by (some e) = is_lost e

unfoldable pub complete : ℤ → Statement → Statement
unfolding cancel_context
complete now st = record st {
  completed = millis now;
  progress = 10;
  cancel_func = cancel_context st.cancel_func;
}

finish_at :
    ℤ → ℤ → ℕ → Option QueryResult × Option Text → Option Statement → Session → Session × Bool
finish_at now later i res none s = (s, false)
finish_at now later i res (some st) s =
    let st1 = complete now st in
    if is_cancelled st.state then (update_busy_state (put_statement i st1 s), false) else (
      record (update_busy_state (put_statement i (record_result res st1) s)) {
        log = s.log ++ result_log res.1 ∷ [];
        last_activity = later;
      },
      lost_by res.1,
    )

-- From the answer of ExecuteSQL on, with the deferred cancel(). The result says whether
-- `go s.Close()` was started.
unfoldable pub finish_statement :
    ℤ → ℤ → ℕ → Option QueryResult × Option Text → Session → Session × Bool
unfolding finish_at complete
finish_statement now later i res s = finish_at now later i res (get_elem? s.statements i) s

unfoldable pub stop : Statement → Statement
unfolding cancel_context
stop st = record st {
  state = cancelled;
  cancel_func = cancel_context st.cancel_func;
  output = some (
      error_output st.id (codes "StatementCancelled") (codes "Statement was cancelled by user")
        (codes "Cancelled"));
}

cancel_at : ℕ → Option Statement → Session → Session × Bool
unfolding stop
cancel_at i none s = (s, false)
cancel_at i (some st) s =
    if is_active st.state
    then (
      update_busy_state (record (put_statement i (stop st) s) {
        log = s.log ++ codes "Statement execution cancelled by user" ∷ [];
      }),
      true,
    )
    else (s, false)

-- id < 0 || id >= len(s.Statements)
unfoldable pub is_no_index : ℤ → ℕ → Bool
is_no_index id n = ltb_ℤ id (pos 0) || leb n (pos_part id)

unfoldable pub cancel_statement : ℤ → Session → Session × Bool
unfolding cancel_at
cancel_statement id s =
    if is_no_index id (length s.statements)
    then (s, false)
    else cancel_at (pos_part id) (get_elem? s.statements (pos_part id)) s

pub is_no_index_pos : {i n : ℕ} → i < n → is_no_index (pos i) n ≡ false
unfolding is_no_index
is_no_index_pos h = ground arith

pub is_no_index_iff :
    (id : ℤ) (n : ℕ) → (is_no_index id n ≡ true) ↔ ((ltb_ℤ id (pos 0) ≡ true) ⊎ (n ≤ pos_part id))
unfolding is_no_index
is_no_index_iff id n = (ground arith, ground arith)

pub is_no_index-false : (id : ℤ) (n : ℕ) → is_no_index id n ≡ false → pos_part id < n
unfolding is_no_index
is_no_index-false id n h = ground arith
