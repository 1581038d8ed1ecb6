-- ===== src/Manager.antt =====
-- pkg/session/manager.go: the registry of sessions. A *Session is an index into the heap, which
-- keeps the sessions that were taken out of the map: handlers and goroutines still hold them.
pub mod Registry
pub mod Cleanup
pub mod Shutdown
pub mod Identifier
pub mod Order
pub mod Lock
pub mod Spec
mod Examples
use livy_next.Prelude.{
  ℕ, Bool, true, false, List, [], ◌∷◌, ◌++◌, map, Option, none, some, Text, codes, is_empty,
  text_eq, length, get_elem?, set, if◌then◌else◌, ◌&&◌, ◌||◌,
}
use livy_next.Prelude.Assoc.{lookup, insert, remove, int_key}
use livy_next.Prelude.Int.{ℤ, pos, ltb_ℤ, eqb_ℤ, ◌+ℤ◌, ◌-ℤ◌}
use livy_next.Prelude.Int64.{wrap64, saturate64}
use livy_next.Session.Types.{
  Session, SessionState, starting, idle, dead, SessionCreateParams, SparkClient,
}
use livy_next.Session.Lifecycle.{
  new_session, close, close_state, CloseResult, returned, panicked, get_idle_timeout,
}
use livy_next.Strconv.{atoi}

-- The map from numbers to pointers, and whether the channel stopCh is closed.
pub record Manager : Type 0 where
  pub sessions : List (ℤ × ℕ)
  pub next_id : ℤ
  pub idle_timeout : ℤ
  pub dead_timeout : ℤ
  pub spark_version : Text
  pub spark_master : Text
  pub stop_ch : Bool

pub record Store : Type 0 where
  pub manager : Manager
  pub heap : List Session

-- The goroutine of cleanupLoop is started if the result is true.
unfoldable pub new_manager : ℤ → ℤ → Manager × Bool
new_manager idle_timeout dead_timeout = (
  record {
    sessions = [];
    next_id = pos 0;
    idle_timeout = idle_timeout;
    dead_timeout = dead_timeout;
    spark_version = [];
    spark_master = [];
    stop_ch = false;
  },
  ltb_ℤ (pos 0) idle_timeout || ltb_ℤ (pos 0) dead_timeout,
)

-- The new session and its pointer.
unfoldable pub create_session : ℤ → SessionCreateParams → Option SparkClient → Store → Store × ℕ
create_session now params client w =
    let id = w.manager.next_id in
    let p = length w.heap in
    (
      record {
        manager = record w.manager {
          sessions = insert id p w.manager.sessions;
          next_id = wrap64 (id +ℤ pos 1);
        };
        heap = w.heap ++ new_session now id params client ∷ [];
      },
      p,
    )

unfoldable pub get_session : ℤ → Store → Option ℕ
get_session id w = lookup id w.manager.sessions

-- sess.SessionID == identifier
abbrev pub matches_id : Text → Option Session → Bool
matches_id identifier none = false
matches_id identifier (some s) = text_eq s.session_id identifier

unfoldable pub has_session_id : Text → List Session → ℕ → Bool
has_session_id identifier heap p = matches_id identifier (get_elem? heap p)

-- The range over the map for a session with that UUID.
unfoldable pub find_session_id : Text → List Session → List (ℤ × ℕ) → Option ℕ
find_session_id identifier heap [] = none
find_session_id identifier heap ((id, p) ∷ m) =
    if has_session_id identifier heap p then some p else find_session_id identifier heap m

unfoldable pub or_else : Option ℕ → Option ℕ → Option ℕ
or_else none q = q
or_else (some p) q = some p

pub find_number : Option ℤ → Store → Option ℕ
find_number none w = none
find_number (some id) w = lookup id w.manager.sessions

unfoldable pub get_session_by_identifier : Text → Store → Option ℕ
unfolding find_number or_else
get_session_by_identifier identifier w =
    or_else (find_number (atoi identifier) w) (find_session_id identifier w.heap w.manager.sessions)

unfoldable pub list_sessions : Store → List ℕ
list_sessions w = map (λ e. e.1) w.manager.sessions

abbrev pub on_manager : (Manager → Manager) → Store → Store
on_manager f w = record w { manager = f w.manager }

unfoldable pub set_idle_timeout : ℤ → Manager → Manager
set_idle_timeout d m = record m { idle_timeout = d }

unfoldable pub set_spark_info : Text → Text → Manager → Manager
set_spark_info version master m = record m {
  spark_version = if is_empty version then m.spark_version else version;
  spark_master = if is_empty master then m.spark_master else master;
}

-- The error that is returned (none is nil), or the panic of a closed channel.
pub data DeleteResult : Type 0 where
  deleted : Option Text → DeleteResult
  panics : DeleteResult

abbrev pub close_answer : CloseResult → DeleteResult
close_answer (returned s e) = deleted e
close_answer (panicked s) = panics

pub close_found : ℤ → ℕ → Store → Option Session → Store × DeleteResult
close_found now p w none = (w, panics)
close_found now p w (some s) =
    (record w { heap = set w.heap p (close_state (close now s)) }, close_answer (close now s))

-- sess.Close() through a pointer.
unfoldable pub close_at : ℤ → ℕ → Store → Store × DeleteResult
unfolding close_found
close_at now p w = close_found now p w (get_elem? w.heap p)

pub delete_found : ℤ → Option ℕ → Store → Store × DeleteResult
delete_found now none w = (w, deleted (some (codes "session not found")))
delete_found now (some p) w = close_at now p w

unfoldable pub delete_session : ℤ → ℤ → Store → Store × DeleteResult
unfolding delete_found
delete_session now id w = delete_found now (get_session id w) w

unfoldable pub delete_session_by_identifier : ℤ → Text → Store → Store × DeleteResult
unfolding delete_found
delete_session_by_identifier now identifier w =
    delete_found now (get_session_by_identifier identifier w) w

abbrev pub drop_session : ℤ → Store → Store
drop_session id = on_manager λ m. record m { sessions = remove id m.sessions }

abbrev pub unless_panic : DeleteResult → Store → Store × Bool → Store × Bool
unless_panic (deleted e) v rest = rest
unless_panic panics v rest = (v, true)

-- The loop of CloseAll over the entries of the map; a panic ends it.
unfoldable pub close_each : ℤ → List (ℤ × ℕ) → Store → Store × Bool
close_each now [] w = (w, false)
close_each now ((id, p) ∷ m) w =
    let (v, r) = close_at now p w in
    let rest = close_each now m (drop_session id v) in unless_panic r v rest

-- The channel stopCh is closed unless it is. The result says whether a Close panicked.
unfoldable pub close_all : ℤ → Store → Store × Bool
unfolding close_each
close_all now w =
    close_each now w.manager.sessions (on_manager (λ m. record m { stop_ch = true }) w)

abbrev pub is_dead : SessionState → Bool
is_dead dead = true
is_dead _ = false

abbrev pub may_expire : SessionState → Bool
may_expire idle = true
may_expire starting = true
may_expire _ = false

-- now.Sub(sess.LastActivity)
abbrev pub inactive : ℤ → Session → ℤ
inactive now s = saturate64 (now -ℤ s.last_activity)

abbrev pub effective_timeout : Manager → Session → ℤ
effective_timeout m s =
    if eqb_ℤ (get_idle_timeout s) (pos 0) then m.idle_timeout else get_idle_timeout s

-- The condition under which the first loop of cleanupIdleSessions puts a session on toDelete.
unfoldable pub is_expired : ℤ → Manager → Session → Bool
is_expired now m s =
    if is_dead s.state
    then ltb_ℤ (pos 0) m.dead_timeout && ltb_ℤ m.dead_timeout (inactive now s)
    else ltb_ℤ (pos 0) (effective_timeout m s)
      && may_expire s.state
      && ltb_ℤ (effective_timeout m s) (inactive now s)

unfoldable pub expired_at : ℤ → Store → ℕ → Bool
expired_at now w p = elim (get_elem? w.heap p) [
  | none ↦ false
  | some s ↦ is_expired now w.manager s
]

-- The first loop.
unfoldable pub to_delete : ℤ → Store → List (ℤ × ℕ) → List ℤ
to_delete now w [] = []
to_delete now w ((id, p) ∷ m) =
    let rest = to_delete now w m in if expired_at now w p then id ∷ rest else rest

abbrev pub with_pointer : Option ℕ → List ℕ → List ℕ
with_pointer none ps = ps
with_pointer (some p) ps = p ∷ ps

-- The second loop: the map that is left, and the pointers p of `go p.Close()`.
unfoldable pub reap : List ℤ → List (ℤ × ℕ) → List (ℤ × ℕ) × List ℕ
reap [] m = (m, [])
reap (id ∷ gone) m =
    let (left, ps) = reap gone (remove id m) in (left, with_pointer (lookup id m) ps)

unfoldable pub cleanup_idle_sessions : ℤ → Store → Store × List ℕ
cleanup_idle_sessions now w =
    let (left, ps) = reap (to_delete now w w.manager.sessions) w.manager.sessions in
    (on_manager (λ m. record m { sessions = left }) w, ps)
