-- ===== src/Session/Lifecycle.antt =====
-- pkg/session/session.go: NewSession, the setters and getters, Close and SetAppInfo.
pub mod Close
use livy_next.Prelude.{
  ℕ, ◌≡◌, Bool, true, false, List, [], ◌∷◌, ◌++◌, Option, none, some, arith, is_empty, Text, codes,
  trim_right, if◌then◌else◌, ◌&&◌, not,
}
use livy_next.Prelude.Assoc.{insert, text_key}
use livy_next.Prelude.Int.{ℤ, pos, negsuc, ltb_ℤ}
use livy_next.Prelude.Int64.{quot_by}
use livy_next.Session.Types.{
  Session, SessionState, starting, idle, busy, dead, shutting_down, SessionCreateParams,
  SparkClient,
}

-- s, or d where s is empty.
abbrev pub or_default : Text → Text → Text
or_default s d = if is_empty s then d else s

session_id_of : Text → Option SparkClient → Text
session_id_of s none = s
session_id_of s (some c) = or_default s c.get_session_id

unfoldable pub new_session : ℤ → ℤ → SessionCreateParams → Option SparkClient → Session
unfolding session_id_of
new_session now id params client = record {
  id = id;
  name = params.name;
  app_id = [];
  session_id = session_id_of params.session_id client;
  user_id = or_default params.user_id params.proxy_user;
  user_agent = or_default params.user_agent (codes "livy-next");
  owner = [];
  proxy_user = params.proxy_user;
  state = starting;
  kind = or_default params.kind (codes "spark");
  app_info = some [];
  log = codes "Session created" ∷ [];
  statements = [];
  last_activity = now;
  idle_timeout = pos 0;
  spark_version = [];
  idle_timeout_duration = pos 0;
  client = client;
  close_ch = false;
}

unfoldable pub set_state : ℤ → SessionState → Session → Session
set_state now st s = record s { state = st; last_activity = now }

abbrev pub get_state : Session → SessionState
get_state s = s.state

unfoldable pub add_log : Text → Session → Session
add_log msg s = record s { log = s.log ++ msg ∷ [] }

abbrev pub get_logs : Session → List Text
get_logs s = s.log

-- time.Duration counts nanoseconds, and IdleTimeout milliseconds.
unfoldable pub set_idle_timeout : ℤ → Session → Session
set_idle_timeout d s = record s {
  idle_timeout_duration = d;
  idle_timeout =
      if ltb_ℤ (pos 0) d then quot_by d 1000000 else if ltb_ℤ d (pos 0) then negsuc 0 else pos 0;
}

abbrev pub get_idle_timeout : Session → ℤ
get_idle_timeout s = s.idle_timeout_duration

-- The method returns an error or nil, or panics with the session as it is then.
pub data CloseResult : Type 0 where
  returned : Session → Option Text → CloseResult
  panicked : Session → CloseResult

abbrev pub is_terminal : SessionState → Bool
is_terminal dead = true
is_terminal shutting_down = true
is_terminal _ = false

-- s.client.Close() where there is a client
unfoldable pub client_close : Option SparkClient → Option Text
client_close none = none
client_close (some c) = c.close_error

unfoldable pub begin_close : Session → Session
begin_close s = record s {
  state = shutting_down;
  log = s.log ++ codes "Session shutting down" ∷ [];
}

unfoldable pub finish_close : ℤ → Session → Session
finish_close now s = record s {
  close_ch = true;
  state = dead;
  log = s.log ++ codes "Session terminated" ∷ [];
  last_activity = now;
}

-- close(s.closeCh) panics where the channel is closed.
unfoldable pub close : ℤ → Session → CloseResult
unfolding begin_close finish_close client_close
close now s =
    if is_terminal s.state
    then returned s none
    else if s.close_ch
    then panicked (begin_close s)
    else returned (finish_close now (begin_close s)) (client_close s.client)

abbrev pub close_state : CloseResult → Session
close_state (returned s e) = s
close_state (panicked s) = s

app_info_map : Option (List (Text × Text)) → List (Text × Text)
app_info_map none = []
app_info_map (some m) = m

set_spark_ui : Text → Text → List (Text × Text) → List (Text × Text)
set_spark_ui session_id spark_ui m =
    let ui = trim_right b'/' spark_ui in
    let connect =
      if is_empty session_id
      then ui ++ codes "/connect/"
      else ui ++ codes "/connect/session/?id=" ++ session_id in
    insert (codes "sparkConnectUiUrl") connect (insert (codes "sparkUiUrl") ui m)

set_history : Text → Text → List (Text × Text) → List (Text × Text)
set_history app_id spark_history m =
    insert (codes "sparkHistoryUrl") (trim_right b'/' spark_history ++ codes "/history/" ++ app_id)
      m

unfoldable pub set_app_info : Text → Text → Text → Session → Session
unfolding app_info_map set_spark_ui set_history
set_app_info app_id spark_ui spark_history s =
    let m0 = app_info_map s.app_info in
    let m1 = if is_empty app_id then m0 else insert (codes "sparkAppId") app_id m0 in
    let m2 = if is_empty spark_ui then m1 else set_spark_ui s.session_id spark_ui m1 in
    let m3 =
      if not (is_empty spark_history) && not (is_empty app_id)
      then set_history app_id spark_history m2
      else m2 in
    record s { app_id = app_id; app_info = some m3 }
