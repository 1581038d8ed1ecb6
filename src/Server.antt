-- ===== src/Server.antt =====
-- cmd/livy-next/main.go: buildSparkRemoteURI, and the function that creates the client of a session.
pub mod Clients
pub mod Startup
mod Examples
use livy_next.Prelude.{
  ℕ, Bool, List, [], ◌∷◌, ◌++◌, Option, none, some, Text, codes, is_empty, contains_text,
  trim_right, if◌then◌else◌, not, true, false,
}
use livy_next.Prelude.Int.{ℤ, pos, ltb_ℤ}
use livy_next.Prelude.Int64.{quot_by}
use livy_next.Session.Types.{SparkClient, SessionCreateParams, QueryResult}
use livy_next.Session.Lifecycle.{or_default}
use livy_next.Strconv.Decimal.{show_int}
use livy_next.Spark.Mock.{mock_client}

-- strings.Join
unfoldable pub join : Text → List Text → Text
join sep [] = []
join sep (x ∷ []) = x
join sep (x ∷ y ∷ xs) = x ++ (sep ++ join sep (y ∷ xs))

-- key=value, where the value is not empty.
abbrev pub optional_param : Text → Text → List Text
optional_param key v = if is_empty v then [] else (key ++ v) ∷ []

-- Milliseconds counts whole ones.
unfoldable pub keepalive_params : ℤ → ℤ → List Text
keepalive_params time timeout =
    if ltb_ℤ (pos 0) time
    then codes "grpc_keepalive_enabled=true"
      ∷ (codes "grpc_keepalive_time_ms=" ++ show_int (quot_by time 1000000))
      ∷ (codes "grpc_keepalive_timeout_ms=" ++ show_int (quot_by timeout 1000000))
      ∷ codes "grpc_keepalive_without_calls=true"
      ∷ []
    else []

unfoldable pub remote_params : Text → Text → Text → Text → ℤ → ℤ → List Text
remote_params user_id session_id user_agent token time timeout =
    optional_param (codes "user_id=") user_id
    ++ (optional_param (codes "session_id=") session_id
        ++ (optional_param (codes "user_agent=") user_agent
            ++ (optional_param (codes "token=") token ++ keepalive_params time timeout)))

unfoldable pub with_params : Text → List Text → Text
with_params remote [] = remote
with_params remote (p ∷ ps) =
    remote
    ++ ((if contains_text remote (codes ";") then codes ";" else codes "/;")
        ++ join (codes ";") (p ∷ ps))

unfoldable pub build_spark_remote_uri : Text → Text → Text → Text → Text → ℤ → ℤ → Text
build_spark_remote_uri base user_id session_id user_agent token time timeout =
    with_params (trim_right b'/' base)
      (remote_params user_id session_id user_agent token time timeout)

-- A client, or an error.
pub data Built : Type 0 where
  built : SparkClient → Built
  not_built : Text → Built

-- A call of a method of the client that was built.
pub data Call : Type 0 where
  sets : Text → Text → Call
  executes : Text → Call
  closes : Call

-- The flags that the function reads. `new_uuid` is the answer of uuid.New, and `new_client` what
-- spark.NewClient answers for a remote, a name and a limit of rows.
pub record Settings : Type 0 where
  pub mock_mode : Bool
  pub spark_remote : Text
  pub spark_token : Text
  pub keepalive_time : ℤ
  pub keepalive_timeout : ℤ
  pub statement_limit : ℤ
  pub new_uuid : Text
  pub new_client : Text → Text → ℤ → Built

-- Whether the error of SetConfig ends the creation.
abbrev pub is_fatal : Option Text → Bool
is_fatal none = false
is_fatal (some e) = not (contains_text e (codes "CANNOT_MODIFY_STATIC_CONFIG"))

abbrev pub is_error : Option Text → Bool
is_error none = false
is_error (some e) = true

abbrev pub message : Option Text → Text
message none = []
message (some e) = e

abbrev pub before : Call → List Call × Option Text → List Call × Option Text
before call (calls, e) = (call ∷ calls, e)

-- The loop over the configuration: the calls it makes, and the error with which it returns.
unfoldable pub apply_conf : SparkClient → List (Text × Text) → List Call × Option Text
apply_conf c [] = ([], none)
apply_conf c ((k, v) ∷ conf) =
    let e = c.set_config k v in
    let rest = apply_conf c conf in
    if is_fatal e
    then (
      sets k v ∷ closes ∷ [],
      some (codes "failed to set config " ++ k ++ codes ": " ++ message e),
    )
    else before (sets k v) rest

unfoldable pub add_jars : SparkClient → List Text → List Call × Option Text
add_jars c [] = ([], none)
add_jars c (jar ∷ jars) =
    let sql = codes "ADD JAR " ++ jar in
    let e = (c.execute_sql sql).1 in
    let rest = add_jars c jars in
    if is_error e
    then (
      executes sql ∷ closes ∷ [],
      some (codes "failed to add jar " ++ jar ++ codes ": " ++ message e),
    )
    else before (executes sql) rest

abbrev pub made : SparkClient → Option Text → Built
made c none = built c
made c (some e) = not_built e

abbrev pub and_then : List Call × Option Text → List Call × Option Text → List Call × Option Text
and_then (calls, some e) rest = (calls, some e)
and_then (calls, none) (more, e) = (calls ++ more, e)

unfoldable pub set_up : SparkClient → SessionCreateParams → List Call × Option Text
set_up c params = and_then (apply_conf c params.conf) (add_jars c params.jars)

with_client : SessionCreateParams → Built → List Call × Built
with_client params (not_built e) = ([], not_built (codes "failed to build Spark session: " ++ e))
with_client params (built c) = ((set_up c params).0, made c (set_up c params).1)

abbrev pub remote_of : Settings → SessionCreateParams → Text
remote_of s params =
    build_spark_remote_uri s.spark_remote (or_default params.user_id params.proxy_user)
      (or_default params.session_id s.new_uuid) (or_default params.user_agent (codes "livy-next"))
      (or_default params.token s.spark_token) s.keepalive_time s.keepalive_timeout

unfoldable pub creator : Settings → SessionCreateParams → List Call × Built
unfolding with_client
creator s params =
    if s.mock_mode
    then (
      [],
      built (
          mock_client
            (record { app_name = params.name; session_id = params.session_id; timeout = pos 0 })),
    )
    else with_client params (s.new_client (remote_of s params) params.name s.statement_limit)
