-- ===== src/Session/Run.antt =====
-- A session with the goroutines that run its statements, as steps in any order. Each step is one
-- critical section of pkg/session/session.go, so every interleaving is a sequence of steps. A query
-- may answer anything; a client is taken to be there (ExecuteSQL of a nil one ends the process).
pub mod Fit
pub mod Tidy
pub mod Invariant
pub mod Final
pub mod Closing
pub mod Progress
use livy_next.Prelude.{
  ℕ, ◌≡◌, Bool, true, false, List, [], ◌∷◌, ◌++◌, Option, none, some, Text, get_elem?, set,
  if◌then◌else◌,
}
use livy_next.Prelude.Int.{ℤ}
use livy_next.Session.Types.{Session, SessionCreateParams, SparkClient, idle, QueryResult}
use livy_next.Session.Lifecycle.{
  new_session, set_state, add_log, set_idle_timeout, close, close_state, set_app_info,
}
use livy_next.Session.Statements.{
  submit_statement, start_statement, watch_close, finish_statement, cancel_statement,
}

-- Where the goroutine of a statement stands: before its first lock, in ExecuteSQL, or at its end.
pub data Task : Type 0 where
  ready executing finished : Task

-- Task i belongs to statement i.
pub record System : Type 0 where
  pub session : Session
  pub tasks : List Task

-- As the handler CreateSession leaves it: registered, and then idle.
unfoldable pub boot : ℤ → ℤ → ℤ → SessionCreateParams → Option SparkClient → System
boot now later id params client = record {
  session = set_state later idle (new_session now id params client);
  tasks = [];
}

unfoldable pub submit : ℤ → ℤ → Text → List Text → System → System
submit now later code tags y = record {
  session = (submit_statement now later code tags y.session).0;
  tasks = y.tasks ++ ready ∷ [];
}

unfoldable pub start : ℕ → System → System
start i y =
    let (s, runs) = start_statement i y.session in
    record { session = s; tasks = set y.tasks i (if runs then executing else finished) }

unfoldable pub finish : ℤ → ℤ → ℕ → Option QueryResult × Option Text → System → System
finish now later i res y = record {
  session = (finish_statement now later i res y.session).0;
  tasks = set y.tasks i finished;
}

abbrev pub on_session : (Session → Session) → System → System
on_session f y = record y { session = f y.session }

-- `admit` is what is known of the session when SubmitStatement takes the lock. The steps are those
-- of the statements, of their goroutines, and the methods that anyone may call at any time.
pub data Step (admit : Session → Bool) : System → System → Type 0 where
  submits :
      {y : System} (now later : ℤ) (code : Text) (tags : List Text)
      → admit y.session ≡ true
      → Step admit y (submit now later code tags y)
  starts : {y : System} (i : ℕ) → get_elem? y.tasks i ≡ some ready → Step admit y (start i y)
  finishes :
      {y : System} (now later : ℤ) (i : ℕ) (res : Option QueryResult × Option Text)
      → get_elem? y.tasks i ≡ some executing
      → Step admit y (finish now later i res y)
  watches : {y : System} (i : ℕ) → Step admit y (on_session (watch_close i) y)
  cancels : {y : System} (id : ℤ) → Step admit y (on_session (λ s. (cancel_statement id s).0) y)
  closes : {y : System} (now : ℤ) → Step admit y (on_session (λ s. close_state (close now s)) y)
  logs : {y : System} (msg : Text) → Step admit y (on_session (add_log msg) y)
  sets_timeout : {y : System} (d : ℤ) → Step admit y (on_session (set_idle_timeout d) y)
  sets_app_info :
      {y : System} (app_id ui history : Text)
      → Step admit y (on_session (set_app_info app_id ui history) y)

pub data Reach (admit : Session → Bool) (y : System) : System → Type 0 where
  here : Reach admit y y
  next : {z w : System} → Reach admit y z → Step admit z w → Reach admit y w

-- Nothing is known: the handler has read the state before, under another lock.
abbrev pub anyone : Session → Bool
anyone s = true
