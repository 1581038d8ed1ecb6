-- ===== src/Manager/Spec.antt =====
-- pkg/session/manager.go as its clients see it: a finite map from numbers to sessions, with no
-- pointers and no order.
pub mod Keeps
pub mod Seen
pub mod Steps
pub mod Runs
use livy_next.Prelude.{ℕ, Bool, List, [], ◌∷◌, Option, none, some, get_elem?, if◌then◌else◌, ◌&&◌}
use livy_next.Prelude.Assoc.{int_key}
use livy_next.Prelude.Int.{ℤ, pos, ltb_ℤ, eqb_ℤ, ◌+ℤ◌}
use livy_next.Session.Types.{
  Session, SessionState, starting, idle, busy, shutting_down, dead, SessionCreateParams,
  SparkClient,
}
use livy_next.Session.Lifecycle.{new_session, close, close_state}
use livy_next.Manager.{
  Manager, Store, create_session, get_session, delete_session, cleanup_idle_sessions, close_all,
  set_idle_timeout, on_manager, inactive,
}

-- The abstract state: which session has a number, and the settings that decide when one expires.
pub record Registry : Type 0 where
  pub next : ℤ
  pub at : ℤ → Option Session
  pub idle_timeout : ℤ
  pub dead_timeout : ℤ

pub data Request : Type 0 where
  creates : ℤ → SessionCreateParams → Option SparkClient → Request
  deletes : ℤ → ℤ → Request
  cleans_up : ℤ → Request
  closes_all : ℤ → Request
  sets_timeout : ℤ → Request

-- How long a session in that state may be inactive; 0 where there is no limit.
abbrev pub patience : Registry → Session → SessionState → ℤ
patience r s dead = r.dead_timeout
patience r s idle =
    if eqb_ℤ s.idle_timeout_duration (pos 0) then r.idle_timeout else s.idle_timeout_duration
patience r s starting =
    if eqb_ℤ s.idle_timeout_duration (pos 0) then r.idle_timeout else s.idle_timeout_duration
patience r s _ = pos 0

abbrev pub outlasts : ℤ → ℤ → Bool
outlasts limit t = ltb_ℤ (pos 0) limit && ltb_ℤ limit t

abbrev pub keep_fresh : ℤ → Registry → Option Session → Option Session
keep_fresh now r none = none
keep_fresh now r (some s) =
    if outlasts (patience r s s.state) (inactive now s) then none else some s

abbrev pub closed_at : ℤ → Option Session → Option Session
closed_at now none = none
closed_at now (some s) = some (close_state (close now s))

-- What each request does to the abstract state.
unfoldable pub specify : Request → Registry → Registry
specify (creates now params client) r = record r {
  next = r.next +ℤ pos 1;
  at = λ id. if eqb_ℤ r.next id then some (new_session now r.next params client) else r.at id;
}
specify (deletes now id) r = record r {
  at = λ j. if eqb_ℤ id j then closed_at now (r.at id) else r.at j;
}
specify (cleans_up now) r = record r { at = λ id. keep_fresh now r (r.at id) }
specify (closes_all now) r = record r { at = λ id. none }
specify (sets_timeout d) r = record r { idle_timeout = d }

unfoldable pub specify_all : List Request → Registry → Registry
specify_all [] r = r
specify_all (q ∷ qs) r = specify_all qs (specify q r)

-- What each does to the store.
unfoldable pub serve : Request → Store → Store
serve (creates now params client) w = (create_session now params client w).0
serve (deletes now id) w = (delete_session now id w).0
serve (cleans_up now) w = (cleanup_idle_sessions now w).0
serve (closes_all now) w = (close_all now w).0
serve (sets_timeout d) w = on_manager (set_idle_timeout d) w

unfoldable pub serve_all : List Request → Store → Store
serve_all [] w = w
serve_all (q ∷ qs) w = serve_all qs (serve q w)

abbrev pub through : List Session → Option ℕ → Option Session
through heap none = none
through heap (some p) = get_elem? heap p

-- The abstraction: a number's session is what its pointer leads to.
unfoldable pub abstract : Store → Registry
abstract w = record {
  next = w.manager.next_id;
  at = λ id. through w.heap (get_session id w);
  idle_timeout = w.manager.idle_timeout;
  dead_timeout = w.manager.dead_timeout;
}
