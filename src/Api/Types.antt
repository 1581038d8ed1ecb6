-- ===== src/Api/Types.antt =====
-- The requests, responses and payloads of pkg/api/handler.go. JSON decoding is done before a handler
-- is entered: a body that does not decode is none. Encoding is a parameter of respond_json.
use livy_next.Prelude.{ℕ, Bool, List, Option, none, some, Text}
use livy_next.Prelude.Int.{ℤ}
use livy_next.Session.Types.{Statement, SessionCreateParams, SparkClient}

pub record CreateSessionRequest : Type 0 where
  pub kind : Text
  pub proxy_user : Text
  pub user_id : Text
  pub session_id : Text
  pub user_agent : Text
  pub token : Text
  pub name : Text
  pub conf : List (Text × Text)
  pub jars : List Text

pub record CreateStatementRequest : Type 0 where
  pub code : Text
  pub tags : List Text

-- Sessions are given by their pointers, since the payload is read from them when it is encoded.
pub record SessionsResponse : Type 0 where
  pub from : ℤ
  pub total : ℕ
  pub sessions : List ℕ
  pub idle_timeout : ℤ
  pub dead_timeout : ℤ
  pub spark_version : Text
  pub spark_master : Text

pub record VersionResponse : Type 0 where
  pub version : Text
  pub spark_version : Text
  pub spark_master : Text
  pub build : Text

pub record StatementsResponse : Type 0 where
  pub total_statements : ℕ
  pub statements : List Statement

pub data Payload : Type 0 where
  sessions : SessionsResponse → Payload
  session : ℕ → Payload
  statement : Statement → Payload
  statements : StatementsResponse → Payload
  version : VersionResponse → Payload
  msg : Text → Payload
  error : Text → Payload
  plain : Text → Payload

pub record Response : Type 0 where
  pub status : ℕ
  pub payload : Payload

-- What createClient answers: a client, or an error.
pub data Created : Type 0 where
  client : SparkClient → Created
  failed : Text → Created

-- The fields of Handler but for the manager, which is in the store, and the remote. `encode_error`
-- is the error of json.Marshal on a payload, if it has one.
pub record Handler : Type 0 where
  pub create_client : SessionCreateParams → Created
  pub spark_ui_url : Text
  pub spark_history_url : Text
  pub discovered_spark_ui : Text
  -- Whether the proxy of the Spark UI is not nil.
  pub spark_ui_proxy : Bool
  pub sync_session_timeout : Bool
  pub encode_error : Payload → Option Text

answer_json : ℕ → Payload → Option Text → Response
answer_json status payload none = record { status = status; payload = payload }
answer_json status payload (some e) = record { status = 500; payload = plain e }

unfoldable pub respond_json : Handler → ℕ → Payload → Response
unfolding answer_json
respond_json h status payload = answer_json status payload (h.encode_error payload)

unfoldable pub respond_error : Handler → ℕ → Text → Response
unfolding respond_json
respond_error h status message = respond_json h status (error message)
