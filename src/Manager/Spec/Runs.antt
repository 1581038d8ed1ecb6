-- ===== src/Manager/Spec/Runs.antt =====
-- Any number of requests, from the start of the manager on.
use livy_next.Prelude.{◌+◌, ◌<◌, ◌≡◌, refl, ◌∙◌, ap, List, [], ◌∷◌, none, arith, length}
use livy_next.Prelude.Int.{ℤ, pos}
use livy_next.Prelude.Int64.{sign_bit}
use livy_next.Prelude.Assoc.{lookup, int_key}
use livy_next.Manager.{Store, new_manager, get_session}
use livy_next.Manager.Spec.{Registry, Request, serve, serve_all, specify_all, abstract}
use livy_next.Manager.Spec.Keeps.{Kept, serve-Keeps}
use livy_next.Manager.Spec.Steps.{serve-specify}

-- NewManager, before any request.
unfoldable pub started : ℤ → ℤ → Store
started idle_timeout dead_timeout = record {
  manager = (new_manager idle_timeout dead_timeout).0;
  heap = [];
}

-- The registry in which no number has a session.
unfoldable pub initial : ℤ → ℤ → Registry
initial idle_timeout dead_timeout = record {
  next = pos 0;
  at = λ id. none;
  idle_timeout = idle_timeout;
  dead_timeout = dead_timeout;
}

started-Kept : (i d : ℤ) → (k : Kept (started i d)) × (k.inv.count ≡ 0)
unfolding started new_manager
started-Kept i d = (record { inv = record { count = 0; next = refl; good = tt }; sound = tt }, refl)

serve_all-specify_all :
    (qs : List Request) (w : Store) (k : Kept w)
    → k.inv.count + length qs < sign_bit
    → abstract (serve_all qs w) ≡ specify_all qs (abstract w)
unfolding serve_all specify_all
serve_all-specify_all [] w k h = refl
serve_all-specify_all (q ∷ qs) w k h =
    let (k', l, b) = serve-Keeps q w k (omega arith) in
    serve_all-specify_all qs (serve q w) k' (omega arith)
    ∙ ap (specify_all qs) (serve-specify q w k (omega arith))

serve_all-Kept :
    (qs : List Request) (w : Store) (k : Kept w)
    → k.inv.count + length qs < sign_bit
    → Kept (serve_all qs w)
unfolding serve_all
serve_all-Kept [] w k h = k
serve_all-Kept (q ∷ qs) w k h =
    let (k', l, b) = serve-Keeps q w k (omega arith) in
    serve_all-Kept qs (serve q w) k' (omega arith)

started-initial : (i d : ℤ) → abstract (started i d) ≡ initial i d
unfolding abstract started initial new_manager get_session lookup
started-initial i d = refl

-- For any sequence of fewer than 2 ^ 63 creations, deletions by number, clean-ups, settings of
-- the default timeout and calls of CloseAll on a new manager, the sessions that the numbers lead
-- to, the next number and the timeouts are those of the specification, which is a function from
-- numbers to sessions: a creation enters the next number, a deletion replaces that number's
-- session alone by what Close leaves of it, a clean-up takes out the sessions that have outlasted
-- their limit, and CloseAll takes out all.
pub runs_lem :
    (idle_timeout dead_timeout : ℤ) (qs : List Request)
    → length qs < sign_bit
    → abstract (serve_all qs (started idle_timeout dead_timeout))
      ≡ specify_all qs (initial idle_timeout dead_timeout)
runs_lem i d qs h =
    let (k, e) = started-Kept i d in
    serve_all-specify_all qs (started i d) k (omega arith)
    ∙ ap (specify_all qs) (started-initial i d)

-- After any such sequence of requests on a new manager the registry is well formed, and each
-- session's channel is closed exactly if it is dead, and none is shutting down.
pub runs-Kept :
    (idle_timeout dead_timeout : ℤ) (qs : List Request)
    → length qs < sign_bit
    → Kept (serve_all qs (started idle_timeout dead_timeout))
runs-Kept i d qs h =
    let (k, e) = started-Kept i d in serve_all-Kept qs (started i d) k (omega arith)
