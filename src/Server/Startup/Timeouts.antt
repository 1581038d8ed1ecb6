-- ===== src/Server/Startup/Timeouts.antt =====
-- The timeouts that the environment gives.
use livy_next.Prelude.{ℕ, ◌*◌, ◌<◌, ◌≡◌, refl, ap, false, ◌++◌, Text, codes, is_empty}
use livy_next.Prelude.Int.{ℤ, pos}
use livy_next.Prelude.Int64.{sign_bit}
use livy_next.Strconv.Decimal.{show_nat, digits_value-show_nat}
use livy_next.Time.Duration.{parse_duration}
use livy_next.Time.Duration.Units.{UnitName, unit_text, unit_size, parse_duration-unit}
use livy_next.Manager.{new_manager}
use livy_next.Server.Startup.{env_duration, default_flags, start}

numeral-is_empty : (n : ℕ) (s : Text) → is_empty (show_nat n ++ s) ≡ false
numeral-is_empty n s =
    let (d, t, k, p, v) = digits_value-show_nat n in ap (λ x. is_empty (x ++ s)) p

module _ (fraction : ℕ → ℕ → ℕ → ℕ) where
  env_duration_lem :
      (u : UnitName) (n : ℕ) (v : Text) (d : ℤ)
      → v ≡ show_nat n ++ unit_text u
      → n * unit_size u < sign_bit
      → env_duration (parse_duration fraction) v d ≡ pos (n * unit_size u)
  unfolding env_duration
  env_duration_lem u n v d e h =
      rw (e, numeral-is_empty n (unit_text u), env_duration)
        (rw (parse_duration-unit fraction u n h) refl)

  -- Where IDLE_TIMEOUT and DEAD_TIMEOUT are numerals with a unit that stand for fewer than 2 ^ 63
  -- nanoseconds, the manager that main makes from the default flags has these timeouts.
  pub start_lem :
      (env : Text → Text) (u r : UnitName) (n m : ℕ)
      → env (codes "IDLE_TIMEOUT") ≡ show_nat n ++ unit_text u
      → env (codes "DEAD_TIMEOUT") ≡ show_nat m ++ unit_text r
      → n * unit_size u < sign_bit
      → m * unit_size r < sign_bit
      → ((start (default_flags fraction env)).manager.idle_timeout ≡ pos (n * unit_size u))
        × ((start (default_flags fraction env)).manager.dead_timeout ≡ pos (m * unit_size r))
  unfolding start default_flags new_manager
  start_lem env u r n m e f h k = (
    env_duration_lem u n _ (pos 1800000000000) e h,
    env_duration_lem r m _ (pos 300000000000) f k,
  )
