-- ===== src/Api/Router.antt =====
-- pkg/api/router.go: SetupRouter, the table of its routes and what each leads to. The matching of a
-- request with the table and the middleware that answers a panic belong to the chi library: they are
-- parameters. What a page or an icon contains is not modelled.
pub mod Table
pub mod Matching
use livy_next.Prelude.{
  ℕ, ◌≡◌, Bool, true, List, [], ◌∷◌, ◌++◌, Option, none, some, Text, codes, is_empty, text_eq,
  get_elem?, not, if◌then◌else◌, ◌||◌,
}
use livy_next.Prelude.Int.{ℤ}
use livy_next.Prelude.Outcome.{Outcome, value, map_outcome}
use livy_next.Manager.{Store}
use livy_next.Api.Types.{Handler, Response, CreateSessionRequest, CreateStatementRequest}
use livy_next.Api.Cors.{cors_middleware}
use livy_next.Api.Entry.{proxied_path}
use livy_next.Api.Sessions as Sessions
use livy_next.Api.Statements as Statements

-- What a route leads to.
pub data Endpoint : Type 0 where
  redirect ui favicon get_version spark_ui swagger list_sessions create_session get_session :
      Endpoint
  delete_session list_statements submit_statement get_statement cancel_statement : Endpoint

-- The method is empty where a route takes any.
pub record Route : Type 0 where
  pub method : Text
  pub pattern : Text
  pub endpoint : Endpoint

abbrev route : Text → Text → Endpoint → Route
route method pattern endpoint = record { method = method; pattern = pattern; endpoint = endpoint }

-- r.Route: the routes of a part of the table, below a prefix.
unfoldable pub under : Text → List Route → List Route
under prefix [] = []
under prefix (r ∷ rs) = record r { pattern = prefix ++ r.pattern } ∷ under prefix rs

unfoldable pub statement_routes : List Route
statement_routes =
    route (codes "GET") (codes "/") list_statements
    ∷ route (codes "POST") (codes "/") submit_statement
    ∷ route (codes "GET") (codes "/{statementId}") get_statement
    ∷ route (codes "POST") (codes "/{statementId}/cancel") cancel_statement
    ∷ []

unfoldable pub session_routes : List Route
session_routes =
    route (codes "GET") (codes "/") get_session
    ∷ route (codes "DELETE") (codes "/") delete_session
    ∷ under (codes "/statements") statement_routes

unfoldable pub sessions_routes : List Route
sessions_routes =
    route (codes "GET") (codes "/") list_sessions
    ∷ route (codes "POST") (codes "/") create_session
    ∷ under (codes "/{id}") session_routes

unfoldable pub routes : List Route
routes =
    route (codes "GET") (codes "/") redirect
    ∷ route (codes "GET") (codes "/ui") ui
    ∷ route (codes "GET") (codes "/favicon.ico") favicon
    ∷ route (codes "HEAD") (codes "/favicon.ico") favicon
    ∷ route (codes "GET") (codes "/version") get_version
    ∷ route [] (codes "/spark-ui") spark_ui
    ∷ route (codes "GET") (codes "/swagger/*") swagger
    ∷ under (codes "/sessions") sessions_routes

-- What the handlers read from a request; from and size are empty where they are missing, and a body
-- is none where it does not decode.
pub record Request : Type 0 where
  pub method : Text
  pub path : Text
  pub origin : Text
  pub from : Text
  pub size : Text
  pub session_body : Option CreateSessionRequest
  pub statement_body : Option CreateStatementRequest

pub data Reply : Type 0 where
  answered : Response → Reply
  redirected : ℕ → Text → Reply
  page : Reply
  -- Whether the body of the icon is written.
  icon : Bool → Reply
  -- The request is passed on, with that path.
  forwarded : Text → Reply
  -- There is no proxy.
  unavailable : ℕ → Reply
  documented : Reply
  -- The answer to a preflight request.
  preflight : ℕ → Reply
  unrouted : Reply

unfoldable pub spark_ui_proxy_handler : Handler → Text → Reply
spark_ui_proxy_handler h path =
    if h.spark_ui_proxy then forwarded (proxied_path path) else unavailable 502

abbrev answers : Store × Response → Store × Outcome Reply
answers (w, r) = (w, value (answered r))

abbrev reads : Store → Outcome Response → Store × Outcome Reply
reads w o = (w, map_outcome answered o)

abbrev leaves : Store × Outcome Response → Store × Outcome Reply
leaves (w, o) = (w, map_outcome answered o)

-- The handler of a route; ps is chi.URLParam of the request.
unfoldable pub dispatch :
    Handler → ℤ → ℤ → Request → (Text → Text) → Endpoint → Store → Store × Outcome Reply
dispatch h now later req ps redirect w = (w, value (redirected 301 (codes "/ui")))
dispatch h now later req ps ui w = (w, value page)
dispatch h now later req ps favicon w = (w, value (icon (not (text_eq req.method (codes "HEAD")))))
dispatch h now later req ps get_version w = reads w (value (Sessions.get_version h w))
dispatch h now later req ps spark_ui w = (w, value (spark_ui_proxy_handler h req.path))
dispatch h now later req ps swagger w = (w, value documented)
dispatch h now later req ps list_sessions w = reads w (value (Sessions.list_sessions h w))
dispatch h now later req ps create_session w =
    answers (Sessions.create_session h now later req.session_body w)
dispatch h now later req ps get_session w =
    reads w (value (Sessions.get_session h (ps (codes "id")) w))
dispatch h now later req ps delete_session w =
    leaves (Sessions.delete_session h now (ps (codes "id")) w)
dispatch h now later req ps list_statements w =
    reads w (Statements.list_statements h (ps (codes "id")) req.from req.size w)
dispatch h now later req ps submit_statement w =
    answers (Statements.submit_statement h now later (ps (codes "id")) req.statement_body w)
dispatch h now later req ps get_statement w =
    reads w
      (Statements.get_statement h (ps (codes "id")) (ps (codes "statementId")) req.from req.size w)
dispatch h now later req ps cancel_statement w =
    answers (Statements.cancel_statement h (ps (codes "id")) (ps (codes "statementId")) w)

-- What chi does: it finds the route of a method and a path, with chi.URLParam of the request, and
-- turns a panic into a reply.
pub record Chi : Type 0 where
  pub find : List Route → Text → Text → Option (Route × (Text → Text))
  pub recoverer : Outcome Reply → Reply

-- It finds routes of the table, and of the method of the request.
pub record Follows (chi : Chi) : Type 0 where
  pub listed :
      (rs : List Route) (m p : Text) {r : Route} {ps : Text → Text}
      → chi.find rs m p ≡ some (r, ps)
      → (i : ℕ) × (get_elem? rs i ≡ some r)
  pub same_method :
      (rs : List Route) (m p : Text) {r : Route} {ps : Text → Text}
      → chi.find rs m p ≡ some (r, ps)
      → (is_empty r.method || text_eq r.method m) ≡ true

abbrev recovered : Chi → Store × Outcome Reply → Store × Reply
recovered chi (w, o) = (w, chi.recoverer o)

unfoldable pub serve_found :
    Chi → Handler → ℤ → ℤ → Request → Option (Route × (Text → Text)) → Store → Store × Reply
serve_found chi h now later req none w = (w, unrouted)
serve_found chi h now later req (some (r, ps)) w =
    recovered chi (dispatch h now later req ps r.endpoint w)

unfoldable pub after_cors : Chi → Handler → ℤ → ℤ → Request → Option ℕ → Store → Store × Reply
unfolding serve_found
after_cors chi h now later req (some status) w = (w, preflight status)
after_cors chi h now later req none w =
    serve_found chi h now later req (chi.find routes req.method req.path) w

-- What SetupRouter makes of a request: the store, the headers that the CORS middleware sets, and the
-- reply.
unfoldable pub serve :
    Chi → Handler → List Text → ℤ → ℤ → Request → Store → Store × (List (Text × Text) × Reply)
unfolding after_cors
serve chi h allowed_origins now later req w =
    let (headers, done) = cors_middleware allowed_origins req.origin req.method [] in
    let (v, reply) = after_cors chi h now later req done w in (v, (headers, reply))
