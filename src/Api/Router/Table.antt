-- ===== src/Api/Router/Table.antt =====
-- The routes that lead to handlers that change the store.
use livy_next.Prelude.{
  ℕ, zero, suc, ◌≡◌, refl, Bool, true, false, List, [], ◌∷◌, some, arith, Text, codes, is_empty,
  text_eq, text_eq→eq, get_elem?, ◌&&◌, ◌||◌, not, subst,
}
use livy_next.Api.Router.{
  Endpoint, Route, routes, sessions_routes, session_routes, statement_routes, under, redirect, ui,
  favicon, get_version, spark_ui, swagger, list_sessions, create_session, get_session,
  delete_session, list_statements, submit_statement, get_statement, cancel_statement,
}

unfoldable pub changes : Endpoint → Bool
changes redirect = false
changes ui = false
changes favicon = false
changes get_version = false
changes spark_ui = false
changes swagger = false
changes list_sessions = false
changes create_session = true
changes get_session = false
changes delete_session = true
changes list_statements = false
changes submit_statement = true
changes get_statement = false
changes cancel_statement = true

unfoldable pub is_unsafe : Text → Bool
is_unsafe method = text_eq method (codes "POST") || text_eq method (codes "DELETE")

unfoldable has_fit_method : Route → Bool
has_fit_method r = not (changes r.endpoint) || is_unsafe r.method

unfoldable all_fit : List Route → Bool
all_fit [] = true
all_fit (r ∷ rs) = has_fit_method r && all_fit rs

routes-fit : all_fit routes ≡ true
unfolding all_fit has_fit_method changes is_unsafe routes sessions_routes session_routes
    statement_routes under text_eq
routes-fit = refl

all_fit-get_elem? :
    (rs : List Route) (i : ℕ) {r : Route}
    → all_fit rs ≡ true
    → get_elem? rs i ≡ some r
    → has_fit_method r ≡ true
unfolding all_fit
all_fit-get_elem? [] i h k = absurd cc
all_fit-get_elem? (x ∷ rs) zero {r} h k = ground arith
all_fit-get_elem? (x ∷ rs) (suc i) {r} h k = all_fit-get_elem? rs i (ground arith) k

is_unsafe-same :
    (a b : Text) → (is_empty a || text_eq a b) ≡ true → is_unsafe a ≡ true → is_unsafe b ≡ true
is_unsafe-same [] b h k = absurd (let g : false ≡ true = unfold is_unsafe text_eq in k in cc)
is_unsafe-same (c ∷ a) b h k = subst (λ m. is_unsafe m ≡ true) (text_eq→eq (c ∷ a) b h) k

-- A route of the table that leads to a handler that changes the store has the method POST or
-- DELETE, and so has every request that has its method.
pub changes-is_unsafe :
    (i : ℕ) (r : Route) (method : Text)
    → get_elem? routes i ≡ some r
    → (is_empty r.method || text_eq r.method method) ≡ true
    → changes r.endpoint ≡ true
    → is_unsafe method ≡ true
unfolding has_fit_method
changes-is_unsafe i r method g h k =
    let f : (not (changes r.endpoint) || is_unsafe r.method) ≡ true =
      all_fit-get_elem? routes i routes-fit g in
    is_unsafe-same r.method method h (ground arith)
