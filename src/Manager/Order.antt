-- ===== src/Manager/Order.antt =====
-- The order in which a range visits the map of sessions, which Go may change from one to the next.
use mathlib.Core.Bool.{false≢true}
use livy_next.Prelude.{
  ℕ, ◌≡◌, refl, sym, ◌∙◌, ap, subst, ◌⊎◌, inl, inr, true, List, ◌∷◌, Option, none, some, arith,
  Text, Option-cases,
}
use livy_next.Prelude.Assoc.{lookup, int_key}
use livy_next.Prelude.Int.{ℤ, eqb_ℤ→eq, eqb_ℤ_refl}
use livy_next.Session.Types.{Session}
use livy_next.Strconv.{atoi}
use livy_next.Manager.{
  Store, on_manager, get_session, get_session_by_identifier, find_session_id, find_number, or_else,
  has_session_id,
}
use livy_next.Manager.Registry.{Good, Inv, lookup-cons_none}
use livy_next.Manager.Identifier.{
  Numbered, find_session_id-Named, find_session_id-none, find_number-some,
}

-- The same entries in another order.
pub data Reorders : List (ℤ × ℕ) → List (ℤ × ℕ) → Type 0 where
  same : {m : List (ℤ × ℕ)} → Reorders m m
  swap : {x y : ℤ × ℕ} {m : List (ℤ × ℕ)} → Reorders (x ∷ y ∷ m) (y ∷ x ∷ m)
  keep : {x : ℤ × ℕ} {m l : List (ℤ × ℕ)} → Reorders m l → Reorders (x ∷ m) (x ∷ l)
  both : {m l k : List (ℤ × ℕ)} → Reorders m l → Reorders l k → Reorders m k

abbrev pub reordered : List (ℤ × ℕ) → Store → Store
reordered m = on_manager λ x. record x { sessions = m }

lookup-Reorders-none :
    (id : ℤ) {m l : List (ℤ × ℕ)} → Reorders m l → lookup id m ≡ none → lookup id l ≡ none
unfolding lookup
lookup-Reorders-none id same e = e
lookup-Reorders-none id (swap {x = (i, p)} {y = (j, q)} {m = m}) e = ground arith
lookup-Reorders-none id (keep {x = (i, p)} {m = m} {l = l} r) e =
    ground (arith, lookup-Reorders-none id r)
lookup-Reorders-none id (both r s) e = lookup-Reorders-none id s (lookup-Reorders-none id r e)

pub Good-Reorders :
    (n : ℕ) (heap : List Session) {m l : List (ℤ × ℕ)}
    → Reorders m l
    → Good n heap m
    → Good n heap l
unfolding lookup
Good-Reorders n heap same g = g
Good-Reorders n heap (swap {x = (i, p)} {y = (j, q)} {m = m}) (k, d, a, (k', d', a', g)) =
    let (e, f) = lookup-cons_none j i q m d in
    (k', ground (arith, eqb_ℤ→eq i j, eqb_ℤ_refl j), a', (k, f, a, g))
Good-Reorders n heap (keep {x = (i, p)} r) (k, d, a, g) =
    (k, lookup-Reorders-none i r d, a, Good-Reorders n heap r g)
Good-Reorders n heap (both r s) g = Good-Reorders n heap s (Good-Reorders n heap r g)

pub lookup-Reorders :
    (id : ℤ) (n : ℕ) (heap : List Session) {m l : List (ℤ × ℕ)}
    → Reorders m l
    → Good n heap m
    → lookup id m ≡ lookup id l
unfolding lookup
lookup-Reorders id n heap same g = refl
lookup-Reorders id n heap (swap {x = (i, p)} {y = (j, q)} {m = m}) (k, d, a, g) =
    let (e, f) = lookup-cons_none j i q m d in
    ground (arith, eqb_ℤ→eq i id, eqb_ℤ→eq j id, eqb_ℤ_refl id)
lookup-Reorders id n heap (keep {x = (i, p)} {m = m} {l = l} r) (k, d, a, g) =
    ground (arith, lookup-Reorders id n heap r g)
lookup-Reorders id n heap (both r s) g =
    lookup-Reorders id n heap r g ∙ lookup-Reorders id n heap s (Good-Reorders n heap r g)

-- The registry is well formed, the identifier leads to p, and it is p's number or no other session
-- of the map has it for its session UUID.
pub record Settled (id : Text) (w : Store) (p : ℕ) : Type 0 where
  pub inv : Inv w
  pub leads : get_session_by_identifier id w ≡ some p
  pub only :
      Numbered id w p
      ⊎ ((j : ℤ) (q : ℕ) → get_session j w ≡ some q → has_session_id id w.heap q ≡ true → q ≡ p)

or_else-left : (o q : Option ℕ) {p : ℕ} → o ≡ some p → or_else o q ≡ some p
unfolding or_else
or_else-left none q h = cc
or_else-left (some x) q h = h

or_else-right : (o q r : Option ℕ) → q ≡ r → or_else o q ≡ or_else o r
unfolding or_else
or_else-right none q r h = h
or_else-right (some x) q r h = refl

find_number-reordered :
    (o : Option ℤ) (w : Store) {m : List (ℤ × ℕ)}
    → Inv w
    → Reorders w.manager.sessions m
    → find_number o w ≡ find_number o (reordered m w)
unfolding find_number
find_number-reordered none w v r = refl
find_number-reordered (some id) w v r = lookup-Reorders id v.count w.heap r v.good

only-found :
    (id : Text) (n : ℕ) (heap : List Session) (p : ℕ) {m l : List (ℤ × ℕ)}
    → Reorders m l
    → Good n heap m
    → ((j : ℤ) (q : ℕ) → lookup j m ≡ some q → has_session_id id heap q ≡ true → q ≡ p)
    → find_session_id id heap m ≡ some p
    → find_session_id id heap l ≡ some p
only-found id n heap p {m} {l} r g only e =
    let (j, a, b) = find_session_id-Named id n heap m g e in
    elim (Option-cases (find_session_id id heap l)) [
      | inl f ↦ absurd (
          false≢true
            (sym (find_session_id-none id heap l j f (sym (lookup-Reorders j n heap r g) ∙ a)) ∙ b))
      | inr (q, f) ↦
          (let (i, c, d) = find_session_id-Named id n heap l (Good-Reorders n heap r g) f in
            f ∙ ap some (only i q (lookup-Reorders i n heap r g ∙ c) d))
    ]

-- Where no other session has the identifier for its UUID.
only-reordered :
    (id : Text) (w : Store) (p : ℕ) (m : List (ℤ × ℕ)) (o : Option ℕ)
    → Inv w
    → Reorders w.manager.sessions m
    → or_else o (find_session_id id w.heap w.manager.sessions) ≡ some p
    → ((j : ℤ) (q : ℕ)
        → lookup j w.manager.sessions ≡ some q
        → has_session_id id w.heap q ≡ true
        → q ≡ p)
    → or_else o (find_session_id id w.heap m) ≡ some p
unfolding or_else
only-reordered id w p m none v r k f = only-found id v.count w.heap p r v.good f k
only-reordered id w p m (some x) v r k f = k

-- Then GetSessionByIdentifier finds that session in whatever order the map is visited.
pub get_session_by_identifier-reordered :
    (id : Text) (w : Store) (p : ℕ) {m : List (ℤ × ℕ)}
    → Settled id w p
    → Reorders w.manager.sessions m
    → get_session_by_identifier id (reordered m w) ≡ some p
unfolding get_session_by_identifier get_session
get_session_by_identifier-reordered id w p {m} h r =
    let same_number = find_number-reordered (atoi id) w h.inv r in
    elim h.only [
      | inl (j, a, b) ↦
          or_else-left (find_number (atoi id) (reordered m w)) _
            (sym same_number ∙ (find_number-some (atoi id) w j a ∙ b))
      | inr f ↦
          subst (λ o. or_else o (find_session_id id w.heap m) ≡ some p) same_number
            (only-reordered id w p m (find_number (atoi id) w) h.inv r h.leads f)
    ]
