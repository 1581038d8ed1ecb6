-- ===== src/Api/Statements/Returns.antt =====
-- When ListStatements and GetStatement do not panic.
use livy_next.Prelude.{ℕ, ◌<◌, ◌≡◌, refl, Option, none, some, Text, get_elem?}
use livy_next.Prelude.Int.{ℤ, pos_part}
use livy_next.Session.Types.{Session}
use livy_next.Session.Page as Page
use livy_next.Session.Page.Returns.{
  half, Returns, Returns-map_outcome, IsShort, get_statement-Returns, get_statements-Returns,
}
use livy_next.Strconv.{atoi}
use livy_next.Manager.{Store}
use livy_next.Api.Types.{Handler}
use livy_next.Api.Query.{query_from, query_size}
use livy_next.Api.Statements.{
  find_session, list_found, list_statements, get_at, get_found, get_statement,
}
use livy_next.Api.Statements.Found.{find_session-some}

-- Every session of the store is short.
abbrev pub AllShort : Store → Type 0
AllShort w = (p : ℕ) (s : Session) → get_elem? w.heap p ≡ some s → IsShort s

module _ (h : Handler) where
  list_found-Returns :
      (from size : ℤ) (o : Option (ℕ × Session))
      → ((p : ℕ) (s : Session) → o ≡ some (p, s) → IsShort s)
      → pos_part size < half
      → Returns (list_found h from size o)
  unfolding list_found
  list_found-Returns from size none f k = (_, refl)
  list_found-Returns from size (some (p, s)) f k =
      Returns-map_outcome _ (Page.get_statements from size s)
        (get_statements-Returns from size s (f p s refl) k)

  get_at-Returns :
      (n : Option ℤ) (from size : ℤ) (s : Session)
      → IsShort s
      → pos_part size < half
      → Returns (get_at h n from size s)
  unfolding get_at
  get_at-Returns none from size s f k = (_, refl)
  get_at-Returns (some n) from size s f k =
      Returns-map_outcome _ (Page.get_statement n from size s)
        (get_statement-Returns n from size s f k)

  get_found-Returns :
      (n : Option ℤ) (from size : ℤ) (o : Option (ℕ × Session))
      → ((p : ℕ) (s : Session) → o ≡ some (p, s) → IsShort s)
      → pos_part size < half
      → Returns (get_found h n from size o)
  unfolding get_found
  get_found-Returns n from size none f k = (_, refl)
  get_found-Returns n from size (some (p, s)) f k = get_at-Returns n from size s (f p s refl) k

  pub list_statements-Returns :
      (id from size : Text) (w : Store)
      → AllShort w
      → pos_part (query_size size) < half
      → Returns (list_statements h id from size w)
  unfolding list_statements
  list_statements-Returns id from size w f k =
      list_found-Returns (query_from from) (query_size size) (find_session id w)
        (λ p s e. f p s (find_session-some id w e).1) k

  pub get_statement-Answers :
      (id statement_id from size : Text) (w : Store)
      → AllShort w
      → pos_part (query_size size) < half
      → Returns (get_statement h id statement_id from size w)
  unfolding get_statement
  get_statement-Answers id statement_id from size w f k =
      get_found-Returns (atoi statement_id) (query_from from) (query_size size) (find_session id w)
        (λ p s e. f p s (find_session-some id w e).1) k
