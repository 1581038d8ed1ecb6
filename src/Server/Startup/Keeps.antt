-- ===== src/Server/Startup/Keeps.antt =====
-- The start-up probe and the registry.
use livy_next.Prelude.{
  refl, Bool, Option, none, some, Text, is_empty, length, Bool-cases, inl, inr, arith, ◌&&◌,
}
use livy_next.Prelude.Int.{ℤ, pos, ltb_ℤ}
use livy_next.Manager.{Store, set_spark_info, set_idle_timeout}
use livy_next.Manager.Spec.Keeps.{Kept, Keeps, settings-Keeps}
use livy_next.Server.{Built, built, not_built}
use livy_next.Server.Startup.{Flags, probe_version, probe_timeout, probe_client, startup_probe}

module _ (w : Store) (k : Kept w) where
  version-Keeps :
      (r : Text × Option Text) (master : Text)
      → Keeps k.inv.count (length w.heap) (probe_version r master w)
  unfolding probe_version set_spark_info
  version-Keeps (v, some e) master = (k, omega arith, omega arith)
  version-Keeps (v, none) master = elim (Bool-cases (is_empty v)) [
    | inl e ↦ rw e (k, omega arith, omega arith)
    | inr e ↦ rw e (settings-Keeps w k _ refl refl)
  ]

  timeout-Keeps :
      (sync : Bool) (r : ℤ × Option Text)
      → Keeps k.inv.count (length w.heap) (probe_timeout sync r w)
  unfolding probe_timeout set_idle_timeout
  timeout-Keeps sync (t, some e) = (k, omega arith, omega arith)
  timeout-Keeps sync (t, none) = elim (Bool-cases (sync && ltb_ℤ (pos 0) t)) [
    | inl e ↦ rw e (settings-Keeps w k _ refl refl)
    | inr e ↦ rw e (k, omega arith, omega arith)
  ]

client-Keeps :
    (flags : Flags) (b : Built) (w : Store) (k : Kept w)
    → Keeps k.inv.count (length w.heap) (probe_client flags b w)
unfolding probe_client
client-Keeps flags (not_built e) w k = (k, omega arith, omega arith)
client-Keeps flags (built c) w k =
    let (k1, l1, b1) = version-Keeps w k c.get_spark_version c.get_master.0 in
    let (k2, l2, b2) =
      timeout-Keeps (probe_version c.get_spark_version c.get_master.0 w) k1
        flags.sync_session_timeout c.get_session_timeout in
    (k2, omega arith, omega arith)

pub startup_probe-Keeps :
    (flags : Flags) (b : Built) (w : Store) (k : Kept w)
    → Keeps k.inv.count (length w.heap) (startup_probe flags b w)
unfolding startup_probe
startup_probe-Keeps flags b w k = elim (Bool-cases flags.mock_mode) [
  | inl e ↦ rw e (k, omega arith, omega arith)
  | inr e ↦ rw e (client-Keeps flags b w k)
]
