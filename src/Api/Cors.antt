-- ===== src/Api/Cors.antt =====
-- pkg/api/router.go: CORSMiddleware. The headers of a response are a map.
pub mod Origins
use livy_next.Prelude.{
  ℕ, Bool, true, false, List, [], ◌∷◌, Option, none, some, Text, codes, is_empty, text_eq,
  if◌then◌else◌,
}
use livy_next.Prelude.Assoc.{lookup, insert, text_key}

-- The loop over the allowed origins: allowedMap and allowAll. "*" ends it.
unfoldable pub collect : List Text → List (Text × Bool) → List (Text × Bool) × Bool
collect [] m = (m, false)
collect (origin ∷ origins) m =
    let rest = collect origins (insert origin true m) in
    if text_eq origin (codes "*") then (m, true) else rest

-- allowedMap[origin]
abbrev pub is_allowed : Option Bool → Bool
is_allowed none = false
is_allowed (some b) = b

unfoldable pub allow_origin :
    List (Text × Bool) × Bool → Text → List (Text × Text) → List (Text × Text)
allow_origin (m, all) origin headers =
    if all
    then insert (codes "Access-Control-Allow-Origin") (codes "*") headers
    else if is_allowed (lookup origin m)
    then insert (codes "Vary") (codes "Origin")
        (insert (codes "Access-Control-Allow-Origin") origin headers)
    else headers

unfoldable pub allow_methods : List (Text × Text) → List (Text × Text)
allow_methods headers = insert (codes "Access-Control-Max-Age") (codes "86400") (
    insert (codes "Access-Control-Allow-Headers")
      (codes "Content-Type, Authorization, X-Requested-With")
      (insert (codes "Access-Control-Allow-Methods") (codes "GET, POST, PUT, DELETE, OPTIONS")
        headers))

-- The headers, and the status of the answer to a preflight request; none where the next handler
-- answers. The origin is empty where the request has none.
unfoldable pub cors_middleware :
    List Text → Text → Text → List (Text × Text) → List (Text × Text) × Option ℕ
cors_middleware allowed_origins origin method headers = (
  if is_empty origin
      then headers
      else allow_methods (allow_origin (collect allowed_origins []) origin headers),
  if text_eq method (codes "OPTIONS") then some 204 else none,
)
