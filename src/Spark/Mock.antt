-- ===== src/Spark/Mock.antt =====
-- pkg/spark/mock.go: MockClient, as what its methods answer.
use livy_next.Prelude.{true, [], ◌∷◌, ◌++◌, none, some, Text, codes, is_empty, if◌then◌else◌}
use livy_next.Prelude.Int.{ℤ, pos}
use livy_next.Session.Types.{SparkClient, QueryResult}
use livy_next.Value.{text}

pub record MockClient : Type 0 where
  pub app_name : Text
  pub session_id : Text
  pub timeout : ℤ

abbrev pub mock_result : QueryResult
mock_result = record {
  schema = some (record {
    type = codes "struct";
    fields =
        record { name = codes "mock_col"; type = codes "string"; nullable = true; metadata = [] }
        ∷ [];
  });
  rows = (text (codes "mock_result_data") ∷ []) ∷ [];
  total = pos 0;
  from = pos 0;
  size = pos 0;
}

mock_session_id : MockClient → Text
mock_session_id m =
    if is_empty m.session_id
    then if is_empty m.app_name
      then codes "mock-session-id-default"
      else codes "mock-session-id-" ++ m.app_name
    else m.session_id

unfoldable pub mock_client : MockClient → SparkClient
unfolding mock_session_id
mock_client m = record {
  execute_sql = λ sql. (some mock_result, none);
  get_app_id = (
    if is_empty m.app_name then codes "mock-app-id-default" else codes "mock-app-id-" ++ m.app_name,
    none,
  );
  get_session_id = mock_session_id m;
  get_session_timeout = (m.timeout, none);
  get_spark_version = (codes "4.2.0-mock", none);
  get_master = (codes "local[*]", none);
  set_config = λ key value. none;
  close_error = none;
}
