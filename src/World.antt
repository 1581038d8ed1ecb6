-- ===== src/World.antt =====
-- The parts together: requests of pkg/api/handler.go, the goroutines of statements
-- (pkg/session/session.go) and of clean-ups (pkg/session/manager.go), in any order.
pub mod Creates
pub mod Keeps
pub mod Steps
pub mod Requests
pub mod Replies
pub mod Safe
mod Examples
use livy_next.Prelude.{
  Bool, true, false, set, get_elem?, some, ℕ, zero, suc, ◌≡◌, List, [], ◌∷◌, ◌++◌, Option, Text,
}
use livy_next.Prelude.Int.{ℤ}
use livy_next.Session.Types.{Session, QueryResult}
use livy_next.Session.Statements.{start_statement, watch_close, finish_statement}
use livy_next.Manager.{Store, close_at, cleanup_idle_sessions, close_all}
use livy_next.Manager.Order.{Reorders, reordered}
use livy_next.Api.Types.{Handler, CreateSessionRequest, CreateStatementRequest}
use livy_next.Api.Sessions as Sessions
use livy_next.Api.Sessions.{update_session}
use livy_next.Api.Statements as Statements
use livy_next.Server.{Built}
use livy_next.Server.Startup.{Flags, start, startup_probe}

-- `closing` are the pointers p whose goroutine `go p.Close()` has not run yet, whether a clean-up
-- or the end of a statement started it.
pub record World : Type 0 where
  pub store : Store
  pub closing : List ℕ

abbrev pub with_store : Store → World → World
with_store w y = record y { store = w }

-- As main makes the manager.
unfoldable pub booted : Flags → World
booted flags = record { store = start flags; closing = [] }

-- The Close that finish_statement starts in a goroutine, if it starts one.
abbrev pub started_closes : ℕ → Bool → List ℕ
started_closes p true = p ∷ []
started_closes p false = []

-- One request that changes the store, one critical section of the goroutine of statement i of the
-- session p, a change of the order in which the map is visited, a clean-up, one of the Closes that
-- a clean-up or the end of a statement started, the start-up probe, or CloseAll. A goroutine may
-- here take its steps at any time and any number of times, and its query may answer anything. Each
-- step gets its locks; none waits.
pub data Step (h : Handler) : World → World → Type 0 where
  creates :
      {y : World} (now later : ℤ) (body : Option CreateSessionRequest)
      → Step h y (with_store (Sessions.create_session h now later body y.store).0 y)
  deletes :
      {y : World} (now : ℤ) (id : Text)
      → Step h y (with_store (Sessions.delete_session h now id y.store).0 y)
  submits :
      {y : World} (now later : ℤ) (id : Text) (body : Option CreateStatementRequest)
      → Step h y (with_store (Statements.submit_statement h now later id body y.store).0 y)
  cancels :
      {y : World} (id statement_id : Text)
      → Step h y (with_store (Statements.cancel_statement h id statement_id y.store).0 y)
  starts :
      {y : World} (p i : ℕ)
      → Step h y (with_store (update_session p (λ s. (start_statement i s).0) y.store) y)
  watches :
      {y : World} (p i : ℕ) → Step h y (with_store (update_session p (watch_close i) y.store) y)
  finishes :
      {y : World} (p i : ℕ) (now later : ℤ) (res : Option QueryResult × Option Text) {s : Session}
      → get_elem? y.store.heap p ≡ some s
      → Step h y (record {
        store = record y.store { heap = set y.store.heap p (finish_statement now later i res s).0 };
        closing = y.closing ++ started_closes p (finish_statement now later i res s).1;
      })
  reorders :
      {y : World} {m : List (ℤ × ℕ)}
      → Reorders y.store.manager.sessions m
      → Step h y (with_store (reordered m y.store) y)
  cleans_up :
      {y : World} (now : ℤ)
      → Step h y (record {
        store = (cleanup_idle_sessions now y.store).0;
        closing = y.closing ++ (cleanup_idle_sessions now y.store).1;
      })
  closes :
      {y : World} (now : ℤ) (p : ℕ) (before after : List ℕ)
      → y.closing ≡ before ++ p ∷ after
      → Step h y (record { store = (close_at now p y.store).0; closing = before ++ after })
  probes :
      {y : World} (flags : Flags) (b : Built)
      → Step h y (with_store (startup_probe flags b y.store) y)
  shuts_down : {y : World} (now : ℤ) → Step h y (with_store (close_all now y.store).0 y)

-- A run of that many steps.
pub data Reach (h : Handler) (y : World) : ℕ → World → Type 0 where
  here : Reach h y zero y
  next : {n : ℕ} {z w : World} → Reach h y n z → Step h z w → Reach h y (suc n) w
