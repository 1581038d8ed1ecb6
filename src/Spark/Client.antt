-- ===== src/Spark/Client.antt =====
-- pkg/spark/client.go: NewClient and the methods of Client that ask Spark Connect. The session of
-- spark-connect-go is a record of what its methods answer.
pub mod Limits
pub mod Info
pub mod Release
use livy_next.Prelude.{
  Bool, List, [], ◌∷◌, Option, none, some, Text, codes, is_empty, if◌then◌else◌,
}
use livy_next.Prelude.Int.{ℤ, pos, ltb_ℤ}
use livy_next.Prelude.Int64.{wrap32}
use livy_next.Prelude.Outcome.{Outcome, value, map_outcome}
use livy_next.Session.Types.{QueryResult}
use livy_next.Value.{Value}
use livy_next.Spark.Table.{Table, table_to_query_result}

-- A value, or an error.
pub data Answer (A : Type 0) : Type 0 where
  answer : A → Answer A
  fails : Text → Answer A

-- What ToArrow answers, by the limit that is set on the frame; the table is none where the pointer
-- is nil.
pub record DataFrame (C : Type 0) : Type 0 where
  pub to_arrow : Option ℤ → Answer (Option (Table C))

pub record SparkSession (C : Type 0) : Type 0 where
  pub sql : Text → Answer (DataFrame C)
  pub get : Text → Answer Text
  pub set : Text → Text → Option Text

pub record Client (C : Type 0) : Type 0 where
  pub session : SparkSession C
  pub max_rows : ℤ

-- The argument maxRows has any number of values.
unfoldable pub row_limit : List ℤ → ℤ
row_limit [] = pos 10000
row_limit (n ∷ more) = if ltb_ℤ (pos 0) n then n else pos 10000

abbrev pub no_rows : QueryResult
no_rows = record { schema = none; rows = []; total = pos 0; from = pos 0; size = pos 0 }

module _ {C : Type 0} where
  new_with : Text → List ℤ → Answer (SparkSession C) → Answer (Client C) × List (Text × Text)
  new_with app_name max_rows (fails e) = (fails e, [])
  new_with app_name max_rows (answer s) = (
    answer (record { session = s; max_rows = row_limit max_rows }),
    if is_empty app_name then [] else (codes "spark.app.name", app_name) ∷ [],
  )

  -- `build` is the session builder. The second result are the settings that are made, whose errors
  -- are ignored.
  unfoldable pub new_client :
      (Text → Answer (SparkSession C))
      → Text
      → Text
      → List ℤ
      → Answer (Client C) × List (Text × Text)
  unfolding new_with
  new_client build remote app_name max_rows = new_with app_name max_rows (build remote)

  unfoldable pub get_app_id : Client C → Answer Text
  get_app_id c = c.session.get (codes "spark.app.id")

  unfoldable pub get_master : Client C → Answer Text
  get_master c = c.session.get (codes "spark.master")

  unfoldable pub set_config : Text → Text → Client C → Option Text
  set_config key val c = c.session.set key val

  abbrev pub frame_limit : Client C → Option ℤ
  frame_limit c = if ltb_ℤ (pos 0) c.max_rows then some (wrap32 c.max_rows) else none

  module _ (extract : C → Value) where
    unfoldable pub from_arrow : Answer (Option (Table C)) → Outcome (Answer QueryResult)
    from_arrow (fails e) = value (fails e)
    from_arrow (answer none) = value (answer no_rows)
    from_arrow (answer (some t)) = map_outcome answer (table_to_query_result extract t)

    on_frame : Client C → Answer (DataFrame C) → Outcome (Answer QueryResult)
    on_frame c (fails e) = value (fails e)
    on_frame c (answer df) = from_arrow (df.to_arrow (frame_limit c))

    unfoldable pub execute_sql : Client C → Text → Outcome (Answer QueryResult)
    unfolding on_frame
    execute_sql c sql_query = on_frame c (c.session.sql sql_query)
