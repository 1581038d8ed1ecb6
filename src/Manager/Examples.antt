-- ===== src/Manager/Examples.antt =====
-- A registry at concrete inputs, and the theorems applied to it.
use livy_next.Prelude.{◌≡◌, ◌↔◌, refl, true, false, List, [], ◌∷◌, none, arith, codes}
use livy_next.Prelude.Assoc.{lookup, insert}
use livy_next.Prelude.Int.{pos, ◌+ℤ◌, ◌-ℤ◌}
use livy_next.Prelude.Int64.{wrap64, saturate64}
use livy_next.Session.Types.{Session, SessionCreateParams}
use livy_next.Session.Lifecycle.{new_session}
use livy_next.Strconv.{atoi}
use livy_next.Manager.{
  Store, new_manager, create_session, get_session, get_session_by_identifier,
  delete_session_by_identifier, close_all, cleanup_idle_sessions, is_expired, expired_at,
}
use livy_next.Manager.Spec.{Request, creates, deletes, cleans_up, serve_all, specify_all, abstract}
use livy_next.Manager.Spec.Runs.{started, initial, runs_lem}
use livy_next.Manager.Registry.{Inv}
use livy_next.Manager.Cleanup.{cleanup_lem}
use livy_next.Manager.Cleanup.Expiry.{IsExpired, is_expired_iff}
use livy_next.Manager.Shutdown.{AllSound, AllDead, Closed, delete_lem, close_all_lem}

abbrev params : SessionCreateParams
params = record {
  name = [];
  kind = [];
  proxy_user = [];
  user_id = [];
  session_id = codes "uuid";
  user_agent = [];
  token = [];
  conf = [];
  jars = [];
  max_result_rows = pos 0;
}

-- A timeout of 100 nanoseconds, and no retention limit for dead sessions.
empty : Store
unfolding new_manager
empty = record { manager = (new_manager (pos 100) (pos 0)).0; heap = [] }

-- Session 0, created at time 5.
single : Store
unfolding empty create_session new_session wrap64 ◌+ℤ◌ insert lookup
single = (create_session (pos 5) params none empty).0

empty-Inv : Inv empty
unfolding empty
empty-Inv = record { count = 0; next = refl; good = tt }

the_session : Session
unfolding single
the_session = new_session (pos 5) (pos 0) params none

single-Inv : Inv single
unfolding the_session
single-Inv = record {
  count = 1;
  next = refl;
  good = ((0, refl, omega arith), refl, (the_session, refl, refl), tt);
}

single_sound : AllSound single.heap
unfolding single
single_sound = (record { closed = refl; whole = λ e. cc }, tt)

is_expired_iff_example :
    (is_expired (pos 200) single.manager the_session ≡ true)
    ↔ IsExpired (pos 200) single.manager the_session
unfolding single the_session
is_expired_iff_example =
    is_expired_iff (pos 200) single.manager the_session (omega arith) (omega arith) (omega arith)

cleanup_lem_example : get_session (pos 0) (cleanup_idle_sessions (pos 200) single).0 ≡ none
unfolding single expired_at is_expired saturate64 ◌-ℤ◌ get_session
cleanup_lem_example = cleanup_lem (pos 200) single (pos 0) single-Inv

delete_lem_example :
    Closed
      (pos 30)
      0
      the_session
      single
      (delete_session_by_identifier (pos 30) (codes "0") single).0
      (delete_session_by_identifier (pos 30) (codes "0") single).1
unfolding the_session get_session_by_identifier atoi
delete_lem_example =
    delete_lem (pos 30) (codes "0") single {p = 0} {s = the_session} refl refl single_sound.0

close_all_lem_example :
    (v : Store) × (close_all (pos 30) single ≡ (v, false))
    × (v.manager.sessions ≡ [])
    × (v.manager.stop_ch ≡ true)
    × AllDead v.heap ((pos 0, 0) ∷ [])
unfolding single
close_all_lem_example = close_all_lem (pos 30) single single-Inv single_sound

abbrev requests : List Request
requests = creates (pos 5) params none ∷ deletes (pos 9) (pos 0) ∷ cleans_up (pos 300) ∷ []

runs_lem_example :
    abstract (serve_all requests (started (pos 100) (pos 0)))
    ≡ specify_all requests (initial (pos 100) (pos 0))
runs_lem_example = runs_lem (pos 100) (pos 0) requests (omega arith)
