-- ===== src/World/Requests.antt =====
-- A request that comes through the router of pkg/api/router.go, at the parts together.
use livy_next.Prelude.{
  ℕ, [], codes, ◌≡◌, refl, ◌⊎◌, inl, inr, Bool, true, List, Option, none, some, Text,
}
use livy_next.Prelude.Int.{ℤ}
use livy_next.Manager.{Store}
use livy_next.Api.Types.{Handler}
use livy_next.Api.Cors.{cors_middleware}
use livy_next.Api.Router.{
  Endpoint, Route, Request, Chi, Follows, routes, dispatch, serve_found, after_cors, serve,
  redirect, ui, favicon, get_version, spark_ui, swagger, list_sessions, create_session, get_session,
  delete_session, list_statements, submit_statement, get_statement, cancel_statement,
}
use livy_next.Api.Router.Table.{changes, is_unsafe, changes-is_unsafe}
use livy_next.World.{World, Step, with_store, creates, deletes, submits, cancels}

-- The store is left as it was, or the test holds and the store is that of a step.
abbrev pub Leads : Handler → Bool → World → Store → Type 0
Leads h unsafe y w = (w ≡ y.store) ⊎ ((unsafe ≡ true) × Step h y (with_store w y))

module _ (chi : Chi) (h : Handler) (now later : ℤ) (req : Request) (y : World) where
  dispatch-Leads :
      (ps : Text → Text) (e : Endpoint)
      → Leads h (changes e) y (dispatch h now later req ps e y.store).0
  unfolding dispatch changes
  dispatch-Leads ps redirect = inl refl
  dispatch-Leads ps ui = inl refl
  dispatch-Leads ps favicon = inl refl
  dispatch-Leads ps get_version = inl refl
  dispatch-Leads ps spark_ui = inl refl
  dispatch-Leads ps swagger = inl refl
  dispatch-Leads ps list_sessions = inl refl
  dispatch-Leads ps create_session = inr (refl, creates now later req.session_body)
  dispatch-Leads ps get_session = inl refl
  dispatch-Leads ps delete_session = inr (refl, deletes now (ps (codes "id")))
  dispatch-Leads ps list_statements = inl refl
  dispatch-Leads ps submit_statement =
      inr (refl, submits now later (ps (codes "id")) req.statement_body)
  dispatch-Leads ps get_statement = inl refl
  dispatch-Leads ps cancel_statement =
      inr (refl, cancels (ps (codes "id")) (ps (codes "statementId")))

  serve_found-Leads :
      (o : Option (Route × (Text → Text)))
      → ((r : Route) (ps : Text → Text)
          → o ≡ some (r, ps)
          → changes r.endpoint ≡ true
          → is_unsafe req.method ≡ true)
      → Leads h (is_unsafe req.method) y (serve_found chi h now later req o y.store).0
  unfolding serve_found
  serve_found-Leads none f = inl refl
  serve_found-Leads (some (r, ps)) f = elim (dispatch-Leads ps r.endpoint) [
    | inl e ↦ inl e
    | inr (k, s) ↦ inr (f r ps refl k, s)
  ]

  after_cors-Leads :
      (ok : Follows chi) (o : Option ℕ)
      → Leads h (is_unsafe req.method) y (after_cors chi h now later req o y.store).0
  unfolding after_cors
  after_cors-Leads ok (some status) = inl refl
  after_cors-Leads ok none = serve_found-Leads (chi.find routes req.method req.path) (λ r ps e k.
      let (i, g) = ok.listed routes req.method req.path e in
      changes-is_unsafe i r req.method g (ok.same_method routes req.method req.path e) k)

  -- Where chi finds routes of the table that have the method of the request, any request to
  -- SetupRouter's handler leaves the store as it was, or its method is POST or DELETE and the
  -- store after it is that of a step of the parts together.
  pub serve_lem :
      (allowed_origins : List Text)
      → Follows chi
      → Leads h (is_unsafe req.method) y (serve chi h allowed_origins now later req y.store).0
  unfolding serve
  serve_lem allowed_origins ok =
      after_cors-Leads ok (cors_middleware allowed_origins req.origin req.method []).1
