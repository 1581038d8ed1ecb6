-- ===== src/World/Examples.antt =====
-- A run at concrete inputs, and the theorem applied to it.
use livy_next.Prelude.{
  ℕ, ◌<◌, List, get_elem?, zero, suc, length, Option, ap, sym, ◌∙◌, ◌≡◌, refl, true, false, [], ◌∷◌,
  ◌++◌, some, none, arith, codes,
}
use livy_next.Prelude.Int.{pos, pos_part}
use livy_next.Prelude.Outcome.{value}
use livy_next.Session.Types.{SparkClient, Session, Statement}
use livy_next.Manager.{Store, cleanup_idle_sessions, close_all}
use livy_next.Manager.Spec.Keeps.{Kept}
use livy_next.Api.Types.{Handler, Response, client, CreateSessionRequest}
use livy_next.Api.Sessions.{create_session, delete_session}
use livy_next.Api.Router.{Request, routes, serve, dispatch, list_statements}
use livy_next.Api.Router.Table.{is_unsafe}
use livy_next.Api.Router.Matching.{matching, find_route, matching-Follows}
use livy_next.Server.Startup.{Flags, default_flags}
use livy_next.World.{World, booted, Reach, here, next, creates, cleans_up, with_store}
use livy_next.World.Safe.{AllReturn, world_lem}
use livy_next.World.Replies.{dispatch_lem}
use livy_next.Api.Query.{query_size}
use livy_next.Api.Statements.Returns.{AllShort}
use livy_next.Session.Page.Returns.{half, IsShort, Returns}
use livy_next.Api.Query.Bounds.{query-show_nat}
use livy_next.Strconv.Decimal.{show_nat}
use livy_next.World.Requests.{Leads, serve_lem}

abbrev spark : SparkClient
spark = record {
  execute_sql = λ q. (none, none);
  get_app_id = (codes "app-1", none);
  get_session_id = codes "uuid";
  get_session_timeout = (pos 100, none);
  get_spark_version = (codes "4.0.0", none);
  get_master = (codes "local", none);
  set_config = λ k v. none;
  close_error = none;
}

-- The environment is empty.
abbrev the_flags : Flags
the_flags = default_flags (λ f k unit. 0) (λ key. [])

abbrev the_handler : Handler
the_handler = record {
  create_client = λ params. client spark;
  spark_ui_url = [];
  spark_history_url = [];
  discovered_spark_ui = [];
  spark_ui_proxy = true;
  sync_session_timeout = false;
  encode_error = λ payload. none;
}

abbrev a_request : CreateSessionRequest
a_request = record {
  kind = [];
  proxy_user = [];
  user_id = [];
  session_id = codes "uuid";
  user_agent = [];
  token = [];
  name = [];
  conf = [];
  jars = [];
}

-- A session is created at time 5, and a clean-up at time 300 takes it out again.
abbrev created : World
created =
    with_store
      (create_session the_handler (pos 5) (pos 6) (some a_request) (booted the_flags).store).0
      (booted the_flags)

abbrev cleaned : World
cleaned = record {
  store = (cleanup_idle_sessions (pos 300) created.store).0;
  closing = created.closing ++ (cleanup_idle_sessions (pos 300) created.store).1;
}

one_closing : cleaned.closing ≡ 0 ∷ []
unfolding booted livy_next.Server.Startup.start default_flags livy_next.Server.Startup.env_duration
    cleanup_idle_sessions livy_next.Manager.reap livy_next.Manager.to_delete create_session
    livy_next.Api.Sessions.register livy_next.Api.Sessions.inherit_version
    livy_next.Manager.set_spark_info livy_next.Api.Sessions.update_session
    livy_next.Api.Sessions.inherit_timeout livy_next.Manager.create_session
    livy_next.Prelude.Assoc.insert livy_next.Manager.new_manager livy_next.Manager.expired_at
    livy_next.Manager.is_expired livy_next.Session.Lifecycle.set_idle_timeout
    livy_next.Session.Lifecycle.set_app_info livy_next.Api.Sessions.create_with
    livy_next.Api.Sessions.effective_spark_ui_url livy_next.Api.Sessions.request_params
    livy_next.Manager.set_idle_timeout livy_next.Prelude.Assoc.lookup livy_next.Prelude.Assoc.remove
    livy_next.Prelude.Int.◌+ℤ◌ livy_next.Prelude.Int.◌-ℤ◌ livy_next.Prelude.Int64.saturate64
    livy_next.Prelude.Int64.wrap64 livy_next.Prelude.text_eq livy_next.Session.Lifecycle.new_session
    livy_next.Session.Lifecycle.set_state
one_closing = refl

the_run : Reach the_handler (booted the_flags) 2 cleaned
the_run = next (next here (creates (pos 5) (pos 6) (some a_request))) (cleans_up (pos 300))

world_lem_example :
    Kept cleaned.store
    × ((a : Response) × ((delete_session the_handler (pos 301) (codes "0") cleaned.store).1
          ≡ value a))
    × AllReturn (pos 301) cleaned.store cleaned.closing
    × ((close_all (pos 301) cleaned.store).1 ≡ false)
world_lem_example = world_lem the_handler the_flags (pos 301) (codes "0") 2 (omega arith) the_run

abbrev deletion : Request
deletion = record {
  method = codes "DELETE";
  path = codes "/sessions/0";
  origin = [];
  from = [];
  size = [];
  session_body = none;
  statement_body = none;
}

deletion_is_served :
    (serve matching the_handler [] (pos 301) (pos 302) deletion created.store).0
    ≡ (delete_session the_handler (pos 301) (codes "0") created.store).0
unfolding serve livy_next.Api.Router.after_cors livy_next.Api.Router.serve_found
    livy_next.Api.Router.dispatch livy_next.Api.Cors.cors_middleware find_route
    livy_next.Api.Router.Matching.match_route livy_next.Prelude.text_eq
    livy_next.Prelude.Assoc.lookup livy_next.Server.Startup.split_at routes
    livy_next.Api.Router.sessions_routes livy_next.Api.Router.session_routes
    livy_next.Api.Router.statement_routes livy_next.Api.Router.under livy_next.Prelude.has_prefix
deletion_is_served = refl

serve_lem_example :
    Leads the_handler
      (is_unsafe (codes "DELETE"))
      created
      (serve matching the_handler [] (pos 301) (pos 302) deletion created.store).0
serve_lem_example =
    serve_lem matching the_handler (pos 301) (pos 302) deletion created [] matching-Follows

created_heap : (t : Session) × (created.store.heap ≡ t ∷ []) × (t.statements ≡ [])
unfolding booted livy_next.Server.Startup.start default_flags livy_next.Server.Startup.env_duration
    cleanup_idle_sessions livy_next.Manager.reap livy_next.Manager.to_delete create_session
    livy_next.Api.Sessions.register livy_next.Api.Sessions.inherit_version
    livy_next.Manager.set_spark_info livy_next.Api.Sessions.update_session
    livy_next.Api.Sessions.inherit_timeout livy_next.Manager.create_session
    livy_next.Prelude.Assoc.insert livy_next.Manager.new_manager livy_next.Manager.expired_at
    livy_next.Manager.is_expired livy_next.Session.Lifecycle.set_idle_timeout
    livy_next.Session.Lifecycle.set_app_info livy_next.Api.Sessions.create_with
    livy_next.Api.Sessions.effective_spark_ui_url livy_next.Api.Sessions.request_params
    livy_next.Manager.set_idle_timeout livy_next.Prelude.Assoc.lookup livy_next.Prelude.Assoc.remove
    livy_next.Prelude.Int.◌+ℤ◌ livy_next.Prelude.Int.◌-ℤ◌ livy_next.Prelude.Int64.saturate64
    livy_next.Prelude.Int64.wrap64 livy_next.Prelude.text_eq livy_next.Session.Lifecycle.new_session
    livy_next.Session.Lifecycle.set_state
created_heap = (_, refl, refl)

no_item :
    {A : Type 0} (xs : List Statement) (i : ℕ) {st : Statement}
    → xs ≡ []
    → get_elem? xs i ≡ some st
    → A
no_item [] i e g = absurd cc
no_item (x ∷ xs) i e g = absurd cc

no_statements-IsShort : (s : Session) → s.statements ≡ [] → IsShort s
no_statements-IsShort s e = record {
  few = (let k : length s.statements ≡ 0 = rw e refl in omega arith);
  outputs = λ i g o. no_item s.statements i e g;
}

single-AllShort : (w : Store) (t : Session) → w.heap ≡ t ∷ [] → t.statements ≡ [] → AllShort w
single-AllShort w t e k zero s g =
    let f : some t ≡ some s = rw e at g in
    no_statements-IsShort s
      (ap (λ (o : Option Session). elim o [ none ↦ [] | some u ↦ u.statements ]) (sym f) ∙ k)
single-AllShort w t e k (suc p) s g = let f : none ≡ some s = rw e at g in absurd cc

created-AllShort : AllShort created.store
created-AllShort = let (t, e, k) = created_heap in single-AllShort created.store t e k

page_of_twenty : pos_part (query_size (show_nat 20)) < half
page_of_twenty = rw ((query-show_nat 20 (omega arith)).1) (omega arith)

abbrev listing : Request
listing = record deletion { method = codes "GET"; size = show_nat 20 }

dispatch_lem_example :
    Returns
      (dispatch the_handler
        (pos 301)
        (pos 302)
        listing
        (λ name. codes "0")
        list_statements
        created.store).1
dispatch_lem_example =
    dispatch_lem the_handler the_flags (pos 301) (pos 302) listing (λ name. codes "0")
      list_statements 1 (omega arith) (next here (creates (pos 5) (pos 6) (some a_request)))
      created-AllShort page_of_twenty
