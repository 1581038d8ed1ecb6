-- ===== src/Spark/Client/Limits.antt =====
-- The number of rows that a client asks for.
use livy_next.Prelude.{◌≡◌, ap, [], ◌∷◌, some, arith, Text, if◌then◌else◌}
use livy_next.Prelude.Int.{ℤ, pos, negsuc, ltb_ℤ}
use livy_next.Prelude.Int64.{In32, wrap32}
use livy_next.Value.{Value}
use livy_next.Spark.Client.{
  Answer, answer, DataFrame, SparkSession, Client, row_limit, new_with, new_client, frame_limit,
  from_arrow, on_frame, execute_sql,
}

-- The limit of a client made with the limit n.
abbrev pub effective_limit : ℤ → ℤ
effective_limit n = if ltb_ℤ (pos 0) n then n else pos 10000

frame_limit_lem :
    {C : Type 0} (s : SparkSession C) (n : ℤ)
    → In32 n
    → frame_limit (record { session = s; max_rows = row_limit (n ∷ []) }) ≡ some (effective_limit n)
unfolding row_limit wrap32
frame_limit_lem s (pos n) h = ground arith
frame_limit_lem s (negsuc n) h = ground arith

-- With a limit n that is an int32, NewClient of a remote that answers a session makes a client
-- whose ExecuteSQL, where the session answers a frame, asks for at most n rows if n is positive
-- and for at most 10000 otherwise, and turns what the frame answers for that limit into its
-- result.
pub execute_sql_lem :
    {C : Type 0} (extract : C → Value) (build : Text → Answer (SparkSession C))
    (remote app_name sql_query : Text) (n : ℤ) {s : SparkSession C} {df : DataFrame C}
    → In32 n
    → build remote ≡ answer s
    → s.sql sql_query ≡ answer df
    → (c : Client C) × ((new_client build remote app_name (n ∷ [])).0 ≡ answer c)
      × (execute_sql extract c sql_query
          ≡ from_arrow extract (df.to_arrow (some (effective_limit n))))
unfolding new_client execute_sql
execute_sql_lem extract build remote app_name sql_query n {s} {df} h b q = (
  record { session = s; max_rows = row_limit (n ∷ []) },
  rw (b, new_with),
  rw (q, on_frame) (ap (λ l. from_arrow extract (df.to_arrow l)) (frame_limit_lem s n h)),
)
