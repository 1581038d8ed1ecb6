-- ===== src/Api/Cors/Origins.antt =====
-- Which origins CORSMiddleware allows.
use livy_next.Prelude.{
  ◌≡◌, refl, ◌∙◌, inl, inr, Bool, true, false, List, [], ◌∷◌, Option, none, some, arith, Text,
  codes, is_empty, text_eq, if◌then◌else◌, ◌||◌, Bool-cases,
}
use livy_next.Prelude.Assoc.{lookup, insert, text_key, lookup-insert}
use livy_next.Api.Cors.{collect, is_allowed, allow_origin, allow_methods, cors_middleware}

-- Whether the list has that text.
unfoldable pub has_text : Text → List Text → Bool
has_text t [] = false
has_text t (x ∷ xs) = text_eq x t || has_text t xs

collect-all : (os : List Text) (m : List (Text × Bool)) → (collect os m).1 ≡ has_text (codes "*") os
unfolding collect has_text
collect-all [] m = refl
collect-all (o ∷ os) m = ground (arith, collect-all os (insert o true m))

collect-lookup :
    (os : List Text) (m : List (Text × Bool)) (o : Text)
    → has_text (codes "*") os ≡ false
    → lookup o (collect os m).0 ≡ (if has_text o os then some true else lookup o m)
unfolding collect has_text
collect-lookup [] m o h = refl
collect-lookup (x ∷ os) m o h =
    ground (arith, collect-lookup os (insert x true m) o, lookup-insert x o true m)

-- The value of Access-Control-Allow-Origin for an origin.
abbrev pub allowed_value : List Text → Text → Option Text
allowed_value origins origin =
    if has_text (codes "*") origins
    then some (codes "*")
    else if has_text origin origins
    then some origin
    else none

allow_origin-value :
    (c : List (Text × Bool) × Bool) (origin : Text)
    → lookup (codes "Access-Control-Allow-Origin") (allow_methods (allow_origin c origin [])) ≡ (
        if c.1
        then some (codes "*")
        else if is_allowed (lookup origin c.0)
        then some origin
        else none)
unfolding allow_origin allow_methods
allow_origin-value (m, all) origin = elim (Bool-cases all) [
  | inl e ↦ rw e (unfold lookup insert text_eq in refl)
  | inr e ↦ elim (Bool-cases (is_allowed (lookup origin m))) [
    | inl f ↦ rw (e, f) (unfold lookup insert text_eq in refl)
    | inr f ↦ rw (e, f) (unfold lookup insert text_eq in refl)
  ]
]

collect-value :
    (origins : List Text) (origin : Text)
    → (if (collect origins []).1
        then some (codes "*")
        else if is_allowed (lookup origin (collect origins []).0)
        then some origin
        else none)
      ≡ allowed_value origins origin
unfolding lookup
collect-value origins origin = elim (Bool-cases (has_text (codes "*") origins)) [
  | inl e ↦ rw (collect-all origins [], e)
  | inr e ↦
      rw (collect-all origins [], e, collect-lookup origins [] origin e)
        (ends (has_text origin origins))
]
  where
    ends :
        (b : Bool)
        → (if is_allowed (if b then some true else lookup origin []) then some origin else none)
          ≡ (if b then some origin else none)
    ends true = refl
    ends false = refl

-- On a response without headers CORSMiddleware sets Access-Control-Allow-Origin, if the request
-- has an origin, to "*" if that is among the allowed origins and to the origin if that is among
-- them, and otherwise not at all.
pub cors_lem :
    (origins : List Text) (origin method : Text)
    → lookup (codes "Access-Control-Allow-Origin") (cors_middleware origins origin method []).0
      ≡ (if is_empty origin then none else allowed_value origins origin)
unfolding cors_middleware
cors_lem origins origin method = elim (Bool-cases (is_empty origin)) [
  | inl e ↦ rw e (unfold lookup in refl)
  | inr e ↦ rw e (allow_origin-value (collect origins []) origin ∙ collect-value origins origin)
]
