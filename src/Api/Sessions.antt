-- ===== src/Api/Sessions.antt =====
-- pkg/api/handler.go: ListSessions, CreateSession, GetVersion, GetSession, DeleteSession.
pub mod Ending
pub mod Opening
pub mod Creation
use livy_next.Prelude.{
  ℕ, Option, none, some, Text, codes, is_empty, text_eq, length, get_elem?, set, if◌then◌else◌,
  ◌&&◌, not, ◌++◌,
}
use livy_next.Prelude.Int.{ℤ, pos, negsuc, ltb_ℤ}
use livy_next.Prelude.Int64.{quot_by}
use livy_next.Session.Types.{Session, SessionCreateParams, SparkClient, idle}
use livy_next.Session.Lifecycle.{or_default, set_state, set_idle_timeout, set_app_info}
use livy_next.Manager as Manager
use livy_next.Manager.{Store, on_manager, DeleteResult, deleted, panics}
use livy_next.Api.Types.{
  Handler, Response, sessions, session, version, msg, Created, client, failed, CreateSessionRequest,
  respond_json, respond_error,
}
use livy_next.Prelude.Outcome.{Outcome, value, panic}

-- GetEffectiveSparkUIUrl
unfoldable pub effective_spark_ui_url : Handler → Text
effective_spark_ui_url h =
    if not (is_empty h.spark_ui_url) && not (text_eq h.spark_ui_url (codes "auto"))
    then h.spark_ui_url
    else codes "/spark-ui"

unfoldable pub list_sessions : Handler → Store → Response
list_sessions h w = respond_json h 200 (
    sessions (record {
      from = pos 0;
      total = length (Manager.list_sessions w);
      sessions = Manager.list_sessions w;
      idle_timeout = quot_by w.manager.idle_timeout 1000000;
      dead_timeout = quot_by w.manager.dead_timeout 1000000;
      spark_version = w.manager.spark_version;
      spark_master = w.manager.spark_master;
    }))

unfoldable pub get_version : Handler → Store → Response
get_version h w = respond_json h 200 (
    version (record {
      version = codes "1.0.0";
      spark_version = w.manager.spark_version;
      spark_master = w.manager.spark_master;
      build = codes "livy-next";
    }))

unfoldable pub request_params : CreateSessionRequest → SessionCreateParams
request_params req = record {
  name = req.name;
  kind = or_default req.kind (codes "spark");
  proxy_user = req.proxy_user;
  user_id = or_default req.user_id req.proxy_user;
  session_id = req.session_id;
  user_agent = or_default req.user_agent (codes "livy-next");
  token = req.token;
  conf = req.conf;
  jars = req.jars;
  max_result_rows = pos 0;
}

-- A method call through a session's pointer.
unfoldable pub update_session : ℕ → (Session → Session) → Store → Store
update_session p f w = elim (get_elem? w.heap p) [
  | none ↦ w
  | some s ↦ record w { heap = set w.heap p (f s) }
]

sync_timeout : Handler → ℤ → Store → Store
sync_timeout h t w = if h.sync_session_timeout then on_manager (Manager.set_idle_timeout t) w else w

-- The server's timeout, where it answers one.
unfoldable pub inherit_timeout : Handler → ℕ → ℤ × Option Text → Store → Store
unfolding sync_timeout
inherit_timeout h p (t, some e) w = w
inherit_timeout h p (t, none) w =
    if ltb_ℤ (pos 0) t
    then sync_timeout h t (update_session p (set_idle_timeout t) w)
    else if ltb_ℤ t (pos 0)
    then update_session p (set_idle_timeout (negsuc 0)) w
    else w

-- The Spark version, where it is known.
unfoldable pub inherit_version : ℕ → Text × Option Text → Text → Store → Store
inherit_version p (v, some e) master w = w
inherit_version p (v, none) master w =
    if is_empty v
    then w
    else on_manager (Manager.set_spark_info v master)
        (update_session p (λ s. record s { spark_version = v }) w)

-- From the registration of the session on.
unfoldable pub register : Handler → ℤ → ℤ → SessionCreateParams → SparkClient → Store → Store × ℕ
register h now later params c w =
    let (w0, p) = Manager.create_session now params (some c) w in
    let w1 = update_session p (set_state later idle) w0 in
    let w2 =
      update_session p (set_app_info c.get_app_id.0 (effective_spark_ui_url h) h.spark_history_url)
        w1 in
    let w3 = inherit_timeout h p c.get_session_timeout w2 in
    (inherit_version p c.get_spark_version c.get_master.0 w3, p)

unfoldable pub create_with :
    Handler → ℤ → ℤ → SessionCreateParams → Created → Store → Store × Response
create_with h now later params (failed e) w =
    (w, respond_error h 500 (codes "Failed to connect to Spark Connect server: " ++ e))
create_with h now later params (client c) w =
    let (v, p) = register h now later params c w in (v, respond_json h 201 (session p))

-- The body is none where it does not decode.
unfoldable pub create_session :
    Handler → ℤ → ℤ → Option CreateSessionRequest → Store → Store × Response
unfolding create_with
create_session h now later none w = (w, respond_error h 400 (codes "Invalid request payload"))
create_session h now later (some req) w =
    create_with h now later (request_params req) (h.create_client (request_params req)) w

session_reply : Handler → Option ℕ → Response
session_reply h none = respond_error h 404 (codes "Session not found")
session_reply h (some p) = respond_json h 200 (session p)

unfoldable pub get_session : Handler → Text → Store → Response
unfolding session_reply
get_session h id w = session_reply h (Manager.get_session_by_identifier id w)

unfoldable pub delete_reply : Handler → DeleteResult → Outcome Response
delete_reply h panics = panic
delete_reply h (deleted (some e)) = value (respond_error h 404 e)
delete_reply h (deleted none) = value (respond_json h 200 (msg (codes "deleted")))

unfoldable pub delete_session : Handler → ℤ → Text → Store → Store × Outcome Response
unfolding delete_reply
delete_session h now id w =
    let (v, r) = Manager.delete_session_by_identifier now id w in (v, delete_reply h r)
