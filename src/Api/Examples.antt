-- ===== src/Api/Examples.antt =====
-- Requests at concrete inputs, and the theorems applied to them.
use livy_next.Prelude.{
  text_eq, ℕ, List, inl, ◌≡◌, ◌⊎◌, refl, inr, true, false, [], ◌∷◌, none, some, arith, codes,
}
use livy_next.Prelude.Assoc.{lookup, text_key}
use livy_next.Prelude.Int.{ℤ, pos}
use livy_next.Prelude.Outcome.{value}
use livy_next.Session.Types.{Session, SparkClient, Statement, busy, available, waiting, dead}
use livy_next.Session.Statements.{new_statement}
use livy_next.Strconv.{atoi}
use livy_next.Strconv.Decimal.{show_nat}
use livy_next.Manager.{Store, get_session_by_identifier}
use livy_next.Manager.Order.{Settled, reordered, swap}
use livy_next.Api.Types.{
  Handler, client, session, msg, statement, CreateSessionRequest, CreateStatementRequest,
  respond_json, respond_error,
}
use livy_next.Api.Sessions.{create_session, get_session, delete_session, request_params}
use livy_next.Api.Sessions.Creation.{Opened, create_session_lem, get_session-create_session_http}
use livy_next.Api.Sessions.Ending.{delete_session_live, submit_statement-delete_session}
use livy_next.Api.Cors.{cors_middleware}
use livy_next.Api.Cors.Origins.{has_text, cors_lem}
use livy_next.Api.Statements.{find_session, submit_statement, get_statement, cancel_statement}
use livy_next.Api.Statements.Replies.{Accepted, Takes, Declines, submit_lem}
use livy_next.Api.Statements.Sequence.{
  get_statement-submit_statement, get_statement-cancel_statement, cancel_refused, shown_cancelled,
}

abbrev spark : SparkClient
spark = record {
  execute_sql = λ q. (none, none);
  get_app_id = (codes "app-1", none);
  get_session_id = codes "uuid";
  get_session_timeout = (pos 60000000000, none);
  get_spark_version = (codes "4.0.0", none);
  get_master = (codes "local", none);
  set_config = λ k v. none;
  close_error = none;
}

abbrev the_handler : Handler
the_handler = record {
  create_client = λ params. client spark;
  spark_ui_url = [];
  spark_history_url = [];
  discovered_spark_ui = [];
  spark_ui_proxy = true;
  sync_session_timeout = true;
  encode_error = λ payload. none;
}

abbrev no_sessions : Store
no_sessions = record {
  manager = record {
    sessions = [];
    next_id = pos 0;
    idle_timeout = pos 0;
    dead_timeout = pos 0;
    spark_version = [];
    spark_master = [];
    stop_ch = false;
  };
  heap = [];
}

abbrev plain_request : CreateSessionRequest
plain_request = record {
  kind = [];
  proxy_user = [];
  user_id = [];
  session_id = [];
  user_agent = [];
  token = [];
  name = [];
  conf = [];
  jars = [];
}

create_session_lem_example :
    ((create_session the_handler (pos 1) (pos 2) (some plain_request) no_sessions).1
      ≡ respond_json the_handler 201 (session 0))
    × Opened the_handler
        (request_params plain_request)
        spark
        no_sessions
        (create_session the_handler (pos 1) (pos 2) (some plain_request) no_sessions).0
create_session_lem_example =
    create_session_lem the_handler (pos 1) (pos 2) plain_request no_sessions {c = spark} refl

get_session-create_session_http_example :
    get_session the_handler
      (show_nat 0)
      (create_session the_handler (pos 1) (pos 2) (some plain_request) no_sessions).0
    ≡ respond_json the_handler 200 (session 0)
get_session-create_session_http_example =
    get_session-create_session_http the_handler (pos 1) (pos 2) plain_request no_sessions
      {c = spark} refl 0 refl (omega arith)

-- A live session with a statement that is waiting and one that has ended.
abbrev waits : Statement
waits = record {
  id = pos 0;
  code = codes "SELECT 1";
  state = waiting;
  output = none;
  progress = 0;
  started = pos 0;
  completed = pos 0;
  tags = [];
  cancel_func = none;
}

abbrev ended : Statement
ended = record waits { id = pos 1; state = available }

abbrev the_session : Session
the_session = record {
  id = pos 0;
  name = [];
  app_id = [];
  session_id = codes "uuid";
  user_id = [];
  user_agent = [];
  owner = [];
  proxy_user = [];
  state = busy;
  kind = codes "spark";
  app_info = none;
  log = [];
  statements = waits ∷ ended ∷ [];
  last_activity = pos 0;
  idle_timeout = pos 0;
  spark_version = [];
  idle_timeout_duration = pos 0;
  client = some spark;
  close_ch = false;
}

abbrev single : Store
single = record no_sessions {
  manager = record no_sessions.manager { sessions = (pos 0, 0) ∷ []; next_id = pos 1 };
  heap = the_session ∷ [];
}

abbrev select : CreateStatementRequest
select = record { code = codes "SELECT 2"; tags = [] }

-- Two sessions with one session UUID, and their map in another order.
abbrev two : Store
two = record no_sessions {
  manager = record no_sessions.manager { sessions = (pos 0, 0) ∷ (pos 1, 1) ∷ []; next_id = pos 2 };
  heap = the_session ∷ record the_session { id = pos 1 } ∷ [];
}

abbrev other_order : List (ℤ × ℕ)
other_order = (pos 1, 1) ∷ (pos 0, 0) ∷ []

settled : Settled (codes "0") two 0
unfolding livy_next.Manager.get_session get_session_by_identifier atoi lookup
settled = record {
  inv = record {
    count = 2;
    next = refl;
    good = (
      (0, refl, omega arith),
      refl,
      (the_session, refl, refl),
      ((1, refl, omega arith), refl, (record the_session { id = pos 1 }, refl, refl), tt),
    );
  };
  leads = refl;
  only = inl (pos 0, refl, refl);
}

found_first : find_session (codes "0") two ≡ some (0, the_session)
unfolding find_session get_session_by_identifier atoi lookup
found_first = refl

found : find_session (codes "0") single ≡ some (0, the_session)
unfolding find_session get_session_by_identifier atoi lookup
found = refl

accepts : Accepted (codes "0") (some select) two
accepts = record {
  p = 0;
  s = the_session;
  req = select;
  found = found_first;
  decoded = refl;
  is_live = refl;
  has_code = refl;
}

submit_lem_example :
    Takes the_handler (pos 5) (pos 6) (codes "0") single (some select)
    ⊎ Declines the_handler (pos 5) (pos 6) (codes "0") single (some select)
submit_lem_example = submit_lem the_handler (pos 5) (pos 6) (codes "0") single (some select)

get_statement-submit_statement_example :
    get_statement the_handler (codes "0") (show_nat 2) (codes "x") [] (
      reordered other_order
        (submit_statement the_handler (pos 5) (pos 6) (codes "0") (some select) two).0)
    ≡ value
        (respond_json the_handler 200 (statement (new_statement (pos 5) 2 (codes "SELECT 2") [])))
unfolding accepts
get_statement-submit_statement_example =
    get_statement-submit_statement the_handler (pos 5) (pos 6) (codes "0") (codes "x") []
      (some select) two accepts settled swap (omega arith)

get_statement-cancel_statement_example :
    ((cancel_statement the_handler (codes "0") (show_nat 0) two).1
      ≡ respond_json the_handler 200 (msg (codes "cancelled")))
    × (get_statement the_handler
          (codes "0")
          (show_nat 0)
          []
          []
          (reordered other_order (cancel_statement the_handler (codes "0") (show_nat 0) two).0)
        ≡ value (respond_json the_handler 200 (statement (shown_cancelled waits))))
get_statement-cancel_statement_example =
    get_statement-cancel_statement the_handler (codes "0") 0 two {p = 0} {s = the_session}
      {st = waits} (omega arith) found_first settled swap refl refl

cancel_refused_example : cancel_statement the_handler (codes "0") (show_nat 1) single ≡ (
  single,
  respond_error the_handler 400
      (codes "Statement cannot be cancelled (either not found or already completed)"),
)
cancel_refused_example =
    cancel_refused the_handler (codes "0") 1 single {p = 0} {s = the_session} (omega arith) found
      (inr (ended, refl, refl))

delete_session_live_example : delete_session the_handler (pos 9) (codes "0") single ≡ (
  record single {
    heap =
        record the_session {
          state = dead;
          close_ch = true;
          last_activity = pos 9;
          log = codes "Session shutting down" ∷ codes "Session terminated" ∷ [];
        }
        ∷ [];
  },
  value (respond_json the_handler 200 (msg (codes "deleted"))),
)
delete_session_live_example =
    delete_session_live the_handler (pos 9) (codes "0") single {p = 0} {s = the_session} found refl
      refl

submit_statement-delete_session_example :
    submit_statement the_handler
      (pos 5)
      (pos 6)
      (codes "0")
      (some select)
      (reordered other_order (delete_session the_handler (pos 9) (codes "0") two).0)
    ≡ (
      reordered other_order (delete_session the_handler (pos 9) (codes "0") two).0,
      respond_error the_handler 400 (codes "Cannot submit statement to a terminated session"),
    )
submit_statement-delete_session_example =
    submit_statement-delete_session the_handler (pos 9) (codes "0") two (pos 5) (pos 6)
      (some select) {p = 0} {s = the_session} found_first settled swap

cors_lem_example :
    lookup
      (codes "Access-Control-Allow-Origin")
      (cors_middleware (codes "http://a" ∷ []) (codes "http://a") (codes "GET") []).0
    ≡ some (codes "http://a")
unfolding has_text text_eq
cors_lem_example = cors_lem (codes "http://a" ∷ []) (codes "http://a") (codes "GET")
