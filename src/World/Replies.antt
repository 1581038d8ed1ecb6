-- ===== src/World/Replies.antt =====
-- Which requests the handlers of pkg/api/router.go answer without a panic.
use livy_next.Prelude.{ℕ, ◌<◌, refl, Text, codes}
use livy_next.Prelude.Int.{ℤ, pos_part}
use livy_next.Prelude.Int64.{sign_bit}
use livy_next.Session.Page.Returns.{half, Returns, Returns-map_outcome}
use livy_next.Api.Types.{Handler}
use livy_next.Api.Query.{query_size}
use livy_next.Api.Sessions as Sessions
use livy_next.Api.Statements as Statements
use livy_next.Api.Statements.Returns.{AllShort, list_statements-Returns, get_statement-Answers}
use livy_next.Api.Router.{
  Endpoint, Request, answered, dispatch, redirect, ui, favicon, get_version, spark_ui, swagger,
  list_sessions, create_session, get_session, delete_session, list_statements, submit_statement,
  get_statement, cancel_statement,
}
use livy_next.Server.Startup.{Flags}
use livy_next.World.{World, Reach, booted}
use livy_next.World.Safe.{world_lem}

-- From the start of the server on, with any flags, after any fewer than 2 ^ 63 steps in any
-- order, each of which gets its locks at once - CreateSession, DeleteSession, SubmitStatement and
-- CancelStatement requests, each taken as one step, critical sections of the goroutines of
-- statements with any answers of their queries, changes of the order in which the map is visited,
-- clean-ups, the Closes that clean-ups and the ends of statements start, start-up probes, and
-- CloseAll - where every session has fewer than 2 ^ 62 statements and every query result in the
-- output of one fewer than 2 ^ 62 rows, no handler of a route, taken as one step, panics at a
-- request whose size stands for fewer than 2 ^ 62, whatever the parameters in its path.
pub dispatch_lem :
    (h : Handler) (flags : Flags) (now later : ℤ) (req : Request) (ps : Text → Text) (e : Endpoint)
    (n : ℕ) {y : World}
    → n < sign_bit
    → Reach h (booted flags) n y
    → AllShort y.store
    → pos_part (query_size req.size) < half
    → Returns (dispatch h now later req ps e y.store).1
unfolding dispatch
dispatch_lem h flags now later req ps redirect n l r a k = (_, refl)
dispatch_lem h flags now later req ps ui n l r a k = (_, refl)
dispatch_lem h flags now later req ps favicon n l r a k = (_, refl)
dispatch_lem h flags now later req ps get_version n l r a k = (_, refl)
dispatch_lem h flags now later req ps spark_ui n l r a k = (_, refl)
dispatch_lem h flags now later req ps swagger n l r a k = (_, refl)
dispatch_lem h flags now later req ps list_sessions n l r a k = (_, refl)
dispatch_lem h flags now later req ps create_session n l r a k = (_, refl)
dispatch_lem h flags now later req ps get_session n l r a k = (_, refl)
dispatch_lem h flags now later req ps delete_session n {y} l r a k =
    let (kept, reply, closes, shuts) = world_lem h flags now (ps (codes "id")) n l r in
    Returns-map_outcome answered (Sessions.delete_session h now (ps (codes "id")) y.store).1 reply
dispatch_lem h flags now later req ps list_statements n {y} l r a k =
    let id = ps (codes "id") in
    Returns-map_outcome answered (Statements.list_statements h id req.from req.size y.store)
      (list_statements-Returns h id req.from req.size y.store a k)
dispatch_lem h flags now later req ps submit_statement n l r a k = (_, refl)
dispatch_lem h flags now later req ps get_statement n {y} l r a k =
    let id = ps (codes "id") in
    let statement_id = ps (codes "statementId") in
    Returns-map_outcome answered
      (Statements.get_statement h id statement_id req.from req.size y.store)
      (get_statement-Answers h id statement_id req.from req.size y.store a k)
dispatch_lem h flags now later req ps cancel_statement n l r a k = (_, refl)
