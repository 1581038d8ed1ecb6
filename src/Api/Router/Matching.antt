-- ===== src/Api/Router/Matching.antt =====
-- A matcher that stands for chi's at concrete inputs: it takes the first route of the table that has
-- the method and whose pattern has the pieces of the path, where a piece in braces is any piece.
use livy_next.Prelude.{
  ℕ, zero, suc, ◌-◌, ◌≡◌, ap, subst, inl, inr, true, List, [], ◌∷◌, Option, none, some, Text, codes,
  is_empty, text_eq, get_elem?, length, take, drop, has_prefix, if◌then◌else◌, ◌||◌, Bool-cases,
  Option-cases,
}
use livy_next.Prelude.Assoc.{lookup, text_key}
use livy_next.Prelude.Outcome.{Outcome, value, panic}
use livy_next.Server.Startup.{split_at}
use livy_next.Api.Types.{plain}
use livy_next.Api.Router.{Route, Chi, Follows, Reply, answered}

abbrev non_empty : List Text → List Text
non_empty [] = []
non_empty (t ∷ ts) = if is_empty t then non_empty ts else t ∷ non_empty ts

abbrev bound : Text → Text → Option (List (Text × Text)) → Option (List (Text × Text))
bound t u none = none
bound t u (some ps) = some ((take (length t - 2) (drop 1 t), u) ∷ ps)

abbrev match_pieces : List Text → List Text → Option (List (Text × Text))
match_pieces [] [] = some []
match_pieces [] (u ∷ us) = none
match_pieces (t ∷ ts) [] = none
match_pieces (t ∷ ts) (u ∷ us) =
    let rest = match_pieces ts us in
    if has_prefix t (codes "{") then bound t u rest else (if text_eq t u then rest else none)

unfoldable pub match_route : Route → Text → Text → Option (List (Text × Text))
match_route r m p =
    if is_empty r.method || text_eq r.method m
    then match_pieces (non_empty (split_at b'/' r.pattern)) (non_empty (split_at b'/' p))
    else none

abbrev value_or_empty : Option Text → Text
value_or_empty none = []
value_or_empty (some t) = t

abbrev or_else :
    Route
    → Option (List (Text × Text))
    → Option (Route × (Text → Text))
    → Option (Route × (Text → Text))
or_else r none rest = rest
or_else r (some ps) rest = some (r, λ name. value_or_empty (lookup name ps))

unfoldable pub find_route : List Route → Text → Text → Option (Route × (Text → Text))
find_route [] m p = none
find_route (r ∷ rs) m p = or_else r (match_route r m p) (find_route rs m p)

abbrev recover : Outcome Reply → Reply
recover (value r) = r
recover panic = answered (record { status = 500; payload = plain [] })

abbrev pub matching : Chi
matching = record { find = find_route; recoverer = recover }

match_route-method :
    (r : Route) (m p : Text) {ps : List (Text × Text)}
    → match_route r m p ≡ some ps
    → (is_empty r.method || text_eq r.method m) ≡ true
unfolding match_route
match_route-method r m p {ps} h = elim (Bool-cases (is_empty r.method || text_eq r.method m)) [
  | inl e ↦ e
  | inr e ↦ (let g : none ≡ some ps = rw e at h in absurd cc)
]

find_route_lem :
    (rs : List Route) (m p : Text) {r : Route} {ps : Text → Text}
    → find_route rs m p ≡ some (r, ps)
    → ((i : ℕ) × (get_elem? rs i ≡ some r)) × ((is_empty r.method || text_eq r.method m) ≡ true)
unfolding find_route
find_route_lem [] m p h = absurd cc
find_route_lem (x ∷ rs) m p {r} {ps} h = elim (Option-cases (match_route x m p)) [
  | inl e ↦
      (let g : find_route rs m p ≡ some (r, ps) = rw e at h in
        let ((i, k), b) = find_route_lem rs m p g in ((suc i, k), b))
  | inr (qs, e) ↦
      (let g : ◌≡◌ {A = Option (Route × (Text → Text))}
            (some (x, λ name. value_or_empty (lookup name qs))) (some (r, ps)) =
          rw e at h in
        let k : x ≡ r = cc in
        (
          (zero, ap some k),
          subst (λ (y : Route). (is_empty y.method || text_eq y.method m) ≡ true) k
              (match_route-method x m p e),
        ))
]

pub matching-Follows : Follows matching
matching-Follows = record {
  listed = λ rs m p h. (find_route_lem rs m p h).0;
  same_method = λ rs m p h. (find_route_lem rs m p h).1;
}
