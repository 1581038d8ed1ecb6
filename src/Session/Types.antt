-- ===== src/Session/Types.antt =====
-- The types of pkg/session/session.go. A timestamp is the number of nanoseconds since the epoch, a
-- progress the number of tenths. The lock is not a field: each method is one step of the model.
use livy_next.Prelude.{ℕ, Bool, List, Option, Text}
use livy_next.Value.{Value}
use livy_next.Prelude.Int.{ℤ}

pub data SessionState : Type 0 where
  starting idle busy dead shutting_down : SessionState

pub data StatementState : Type 0 where
  waiting running available error cancelling cancelled : StatementState

pub record SchemaField : Type 0 where
  pub name : Text
  pub type : Text
  pub nullable : Bool
  pub metadata : List (Text × Value)

pub record Schema : Type 0 where
  pub type : Text
  pub fields : List SchemaField

-- `none` is the nil interface.
pub record QueryResult : Type 0 where
  pub schema : Option Schema
  pub rows : List (List Value)
  pub total : ℤ
  pub from : ℤ
  pub size : ℤ

-- An entry of the map Data: a *QueryResult that may be nil, a QueryResult, or another value.
pub data OutputValue : Type 0 where
  result_ptr : Option QueryResult → OutputValue
  result : QueryResult → OutputValue
  other : Value → OutputValue

-- `output_data` is none where the map is nil.
pub record StatementOutput : Type 0 where
  pub status : Text
  pub execution_count : ℤ
  pub output_data : Option (List (Text × OutputValue))
  pub ename : Text
  pub evalue : Text
  pub traceback : List Text

-- The context of a running statement, and whether it has been cancelled.
pub record Context : Type 0 where
  pub done : Bool

-- `cancel_func` is the context that the function cancels, none where the function is nil.
pub record Statement : Type 0 where
  pub id : ℤ
  pub code : Text
  pub state : StatementState
  pub output : Option StatementOutput
  pub progress : ℕ
  pub started : ℤ
  pub completed : ℤ
  pub tags : List Text
  pub cancel_func : Option Context

-- The interface SparkClient, as what its methods answer: a value and an error, which may be nil.
pub record SparkClient : Type 0 where
  pub execute_sql : Text → Option QueryResult × Option Text
  pub get_app_id : Text × Option Text
  pub get_session_id : Text
  pub get_session_timeout : ℤ × Option Text
  pub get_spark_version : Text × Option Text
  pub get_master : Text × Option Text
  pub set_config : Text → Text → Option Text
  pub close_error : Option Text

pub record SessionCreateParams : Type 0 where
  pub name : Text
  pub kind : Text
  pub proxy_user : Text
  pub user_id : Text
  pub session_id : Text
  pub user_agent : Text
  pub token : Text
  pub conf : List (Text × Text)
  pub jars : List Text
  pub max_result_rows : ℤ

-- `close_ch` says whether the channel closeCh is closed; `app_info` is none where the map is nil.
pub record Session : Type 0 where
  pub id : ℤ
  pub name : Text
  pub app_id : Text
  pub session_id : Text
  pub user_id : Text
  pub user_agent : Text
  pub owner : Text
  pub proxy_user : Text
  pub state : SessionState
  pub kind : Text
  pub app_info : Option (List (Text × Text))
  pub log : List Text
  pub statements : List Statement
  pub last_activity : ℤ
  pub idle_timeout : ℤ
  pub spark_version : Text
  pub idle_timeout_duration : ℤ
  pub client : Option SparkClient
  pub close_ch : Bool
