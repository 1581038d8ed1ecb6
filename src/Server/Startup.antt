-- ===== src/Server/Startup.antt =====
-- cmd/livy-next/main.go: the flags by default, the manager, and what the start-up probe does to it.
pub mod Keeps
pub mod Timeouts
use livy_next.Prelude.{
  ℕ, Bool, true, false, List, [], ◌∷◌, map, Option, none, some, Text, codes, is_empty, ◌==◌,
  if◌then◌else◌, ◌&&◌,
}
use livy_next.Prelude.Int.{ℤ, pos, ltb_ℤ}
use livy_next.Session.Types.{SparkClient}
use livy_next.Session.Lifecycle.{or_default}
use livy_next.Time.Duration.{parse_duration}
use livy_next.Net.{trim_space, cut}
use livy_next.Manager.{Store, Manager, new_manager, set_spark_info, set_idle_timeout, on_manager}
use livy_next.Server.{Built, built, not_built}

-- The flags of main, with their defaults; package flag may set others.
pub record Flags : Type 0 where
  pub addr : Text
  pub spark_remote : Text
  pub spark_ui_url : Text
  pub spark_history_url : Text
  pub spark_token : Text
  pub grpc_keepalive_time : ℤ
  pub grpc_keepalive_timeout : ℤ
  pub default_statement_limit : ℤ
  pub idle_timeout : ℤ
  pub dead_timeout : ℤ
  pub sync_session_timeout : Bool
  pub cors_allowed_origins : Text
  pub mock_mode : Bool

-- The duration that the environment gives, if it is one.
unfoldable pub env_duration : (Text → Option ℤ) → Text → ℤ → ℤ
env_duration parse v d = if is_empty v then d else elim (parse v) [ none ↦ d | some t ↦ t ]

-- `env` is os.Getenv, `fraction` belongs to time.ParseDuration.
unfoldable pub default_flags : (ℕ → ℕ → ℕ → ℕ) → (Text → Text) → Flags
default_flags fraction env = record {
  addr = or_default (env (codes "LIVY_ADDR")) (codes ":8998");
  spark_remote = or_default (env (codes "SPARK_REMOTE")) (codes "sc://localhost:15002");
  spark_ui_url = or_default (env (codes "SPARK_UI_URL")) [];
  spark_history_url = or_default (env (codes "SPARK_HISTORY_URL")) (codes "http://localhost:18088");
  spark_token = or_default (env (codes "SPARK_TOKEN")) [];
  grpc_keepalive_time = pos 60000000000;
  grpc_keepalive_timeout = pos 20000000000;
  default_statement_limit = pos 10000;
  idle_timeout =
      env_duration (parse_duration fraction) (env (codes "IDLE_TIMEOUT")) (pos 1800000000000);
  dead_timeout =
      env_duration (parse_duration fraction) (env (codes "DEAD_TIMEOUT")) (pos 300000000000);
  sync_session_timeout = true;
  cors_allowed_origins = or_default (env (codes "CORS_ALLOWED_ORIGINS")) (codes "*");
  mock_mode = false;
}

-- strings.Split with a separator of one byte.
unfoldable pub split_at : ℕ → Text → List Text
split_at b [] = [] ∷ []
split_at b (c ∷ s) =
    let rest = split_at b s in
    if c == b then [] ∷ rest else elim rest [ [] ↦ (c ∷ []) ∷ [] | t ∷ ts ↦ (c ∷ t) ∷ ts ]

unfoldable pub origins : Flags → List Text
unfolding split_at
origins flags = map trim_space (split_at b',' flags.cors_allowed_origins)

unfoldable pub start : Flags → Store
start flags = record { manager = (new_manager flags.idle_timeout flags.dead_timeout).0; heap = [] }

unfoldable pub probe_version : Text × Option Text → Text → Store → Store
probe_version (version, some e) master w = w
probe_version (version, none) master w =
    if is_empty version then w else on_manager (set_spark_info version master) w

unfoldable pub probe_timeout : Bool → ℤ × Option Text → Store → Store
probe_timeout sync (t, some e) w = w
probe_timeout sync (t, none) w =
    if sync && ltb_ℤ (pos 0) t then on_manager (set_idle_timeout t) w else w

unfoldable pub probe_client : Flags → Built → Store → Store
unfolding probe_version probe_timeout
probe_client flags (not_built e) w = w
probe_client flags (built c) w =
    probe_timeout flags.sync_session_timeout c.get_session_timeout
      (probe_version c.get_spark_version c.get_master.0 w)

-- The goroutine that asks Spark Connect at the start; the argument is what spark.NewClient answers.
unfoldable pub startup_probe : Flags → Built → Store → Store
unfolding probe_client
startup_probe flags b w = if flags.mock_mode then w else probe_client flags b w
