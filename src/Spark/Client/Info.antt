-- ===== src/Spark/Client/Info.antt =====
-- pkg/spark/client.go: GetSessionTimeout, GetMaintenanceInterval and GetSparkVersion. `parse` is
-- ParseSparkDuration with the arithmetic that it takes as a parameter.
use livy_next.Prelude.{[], ◌∷◌, Text, codes, is_empty, if◌then◌else◌}
use livy_next.Prelude.Outcome.{Outcome, map_outcome}
use livy_next.Session.Types.{QueryResult}
use livy_next.Value.{Value}
use livy_next.Net.{trim_space, first_part}
use livy_next.Spark.Duration.{Parsed}
use livy_next.Spark.Client.{Answer, answer, fails, Client, execute_sql}

-- Config().Get and ParseSparkDuration of its answer.
parsed_answer : (Text → Parsed) → Answer Text → Answer Parsed
parsed_answer parse (fails e) = fails e
parsed_answer parse (answer val) = answer (parse val)

unfoldable pub get_session_timeout : {C : Type 0} → (Text → Parsed) → Client C → Answer Parsed
unfolding parsed_answer
get_session_timeout parse c =
    parsed_answer parse
      (c.session.get (codes "spark.connect.session.manager.defaultSessionTimeout"))

unfoldable pub get_maintenance_interval : {C : Type 0} → (Text → Parsed) → Client C → Answer Parsed
unfolding parsed_answer
get_maintenance_interval parse c =
    parsed_answer parse (c.session.get (codes "spark.connect.session.manager.maintenanceInterval"))

-- The text before the first space, or all of it where that is empty.
first_word : Text → Text
first_word raw = let part = first_part b' ' raw in if is_empty part then raw else part

-- `show` is the verb %v of package fmt.
version_of : (Value → Text) → Answer QueryResult → Answer Text
unfolding first_word
version_of show (fails e) = fails e
version_of show (answer qr) = elim qr.rows [
  | [] ↦ fails (codes "empty version response from spark connect")
  | [] ∷ rows ↦ fails (codes "empty version response from spark connect")
  | (v ∷ row) ∷ rows ↦ answer (first_word (trim_space (show v)))
]

unfoldable pub get_spark_version :
    {C : Type 0} → (C → Value) → (Value → Text) → Client C → Outcome (Answer Text)
unfolding version_of
get_spark_version extract show c =
    map_outcome (version_of show) (execute_sql extract c (codes "SELECT version()"))
