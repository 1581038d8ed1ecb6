-- ===== src/Api/Entry.antt =====
-- pkg/api/handler.go: NewHandler, and the path of a request that is passed on to the Spark UI.
use livy_next.Prelude.{
  ℕ, Bool, true, List, [], ◌∷◌, ◌++◌, Option, Text, codes, has_prefix, trim_prefix, if◌then◌else◌,
}
use livy_next.Session.Types.{SessionCreateParams}
use livy_next.Session.Lifecycle.{or_default}
use livy_next.Spark.Remote.{discover_spark_ui_endpoint}
use livy_next.Api.Types.{Handler, Created, Payload}

-- The last argument has any number of values.
unfoldable pub sync_flag : List Bool → Bool
sync_flag [] = true
sync_flag (b ∷ more) = b

-- `get` is the HTTP client, and `parses` says whether url.Parse takes a URL; `encode_error` is not
-- one of the code's fields.
unfoldable pub new_handler :
    (Text → Option ℕ)
    → (Text → Bool)
    → (SessionCreateParams → Created)
    → Text
    → Text
    → Text
    → List Bool
    → (Payload → Option Text)
    → Handler
new_handler get parses create_client spark_remote spark_ui_url spark_history_url
      sync_session_timeout encode_error =
    let discovered = discover_spark_ui_endpoint get spark_remote in
    record {
      create_client = create_client;
      spark_ui_url = spark_ui_url;
      spark_history_url = or_default spark_history_url (codes "http://localhost:18088");
      discovered_spark_ui = discovered;
      spark_ui_proxy = parses discovered;
      sync_session_timeout = sync_flag sync_session_timeout;
      encode_error = encode_error;
    }

rooted : Text → Text
rooted path = if has_prefix path (codes "/") then path else codes "/" ++ path

-- What the proxy's Director makes of the path.
unfoldable pub proxied_path : Text → Text
unfolding rooted
proxied_path path = rooted (trim_prefix path (codes "/spark-ui"))
