-- ===== src/Server/Examples.antt =====
-- The creation of a client at concrete inputs, and the theorem applied to it.
use livy_next.Prelude.{◌≡◌, ◌⊎◌, refl, false, [], ◌∷◌, codes, Text, contains_text, trim_right}
use livy_next.Prelude.Int.{pos}
use livy_next.Prelude.Int64.{quot_by}
use livy_next.Session.Types.{SparkClient, SessionCreateParams}
use livy_next.Strconv.Decimal.{show_int, show_nat}
use livy_next.Spark.Mock.{mock_client}
use livy_next.Prelude.{text_eq, if◌then◌else◌, ◌++◌, arith}
use livy_next.Strconv.Decimal.{show_nat}
use livy_next.Time.Duration.Units.{minutes, seconds, unit_text}
use livy_next.Server.Startup.{default_flags, start}
use livy_next.Server.Startup.Timeouts.{start_lem}
use livy_next.Server.{
  Settings, built, not_built, creator, build_spark_remote_uri, remote_params, keepalive_params,
  with_params, join,
}
use livy_next.Server.Clients.{Ends, Accepts, Adds, all_calls, creator_lem}

plain_remote :
    build_spark_remote_uri (codes "sc://host:15002/") (codes "u") [] [] (codes "t") (pos 0) (pos 0)
    ≡ codes "sc://host:15002/;user_id=u;token=t"
unfolding build_spark_remote_uri with_params remote_params keepalive_params join contains_text
    trim_right
plain_remote = refl

kept_alive :
    build_spark_remote_uri (codes "sc://h/;x=1") [] [] [] [] (pos 60000000000) (pos 20000000)
    ≡ codes
        "sc://h/;x=1;grpc_keepalive_enabled=true;grpc_keepalive_time_ms=60000;grpc_keepalive_timeout_ms=20;grpc_keepalive_without_calls=true"
unfolding build_spark_remote_uri with_params remote_params keepalive_params join contains_text
    trim_right show_int show_nat quot_by
kept_alive = refl

abbrev mock : SparkClient
mock = mock_client (record { app_name = []; session_id = []; timeout = pos 0 })

abbrev settings : Settings
settings = record {
  mock_mode = false;
  spark_remote = codes "sc://localhost:15002";
  spark_token = [];
  keepalive_time = pos 0;
  keepalive_timeout = pos 0;
  statement_limit = pos 10000;
  new_uuid = codes "uuid";
  new_client = λ remote name limit. built mock;
}

abbrev params : SessionCreateParams
params = record {
  name = codes "etl";
  kind = codes "spark";
  proxy_user = [];
  user_id = [];
  session_id = [];
  user_agent = [];
  token = [];
  conf = (codes "spark.sql.ansi.enabled", codes "true") ∷ [];
  jars = codes "a.jar" ∷ [];
  max_result_rows = pos 0;
}

creator_lem_example :
    ((creator settings params ≡ (all_calls params.conf params.jars, built mock))
      × Accepts mock params.conf
      × Adds mock params.jars)
    ⊎ ((e : Text) × ((creator settings params).1 ≡ not_built e) × Ends (creator settings params).0)
creator_lem_example = creator_lem settings params {c = mock} refl refl

-- Half an hour idle, and ninety seconds dead.
abbrev an_env : Text → Text
an_env key =
    if text_eq key (codes "IDLE_TIMEOUT")
    then show_nat 30 ++ unit_text minutes
    else if text_eq key (codes "DEAD_TIMEOUT")
    then show_nat 90 ++ unit_text seconds
    else []

start_lem_example :
    ((start (default_flags (λ f k unit. 0) an_env)).manager.idle_timeout ≡ pos 1800000000000)
    × ((start (default_flags (λ f k unit. 0) an_env)).manager.dead_timeout ≡ pos 90000000000)
start_lem_example =
    start_lem (λ f k unit. 0) an_env minutes seconds 30 90 (unfold text_eq in refl)
      (unfold text_eq in refl) (omega arith) (omega arith)
