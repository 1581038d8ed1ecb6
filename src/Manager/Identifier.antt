-- ===== src/Manager/Identifier.antt =====
-- GetSessionByIdentifier: by number first, and by session UUID if no session has the number.
use mathlib.Core.Bool.{false≢true}
use native.Mathlib.Decide.{ℕ_discrete}
use livy_next.Prelude.{
  set, get_elem?-set_self, get_elem?-set_ne, get_elem?-lt, ℕ, ◌<◌, ◌≡◌, refl, sym, ◌∙◌, ap, subst,
  ◌⊎◌, inl, inr, true, false, List, [], ◌∷◌, Option, none, some, arith, Text, text_eq, text_eq→eq,
  text_eq_refl, get_elem?, Bool-cases, Option-cases,
}
use livy_next.Prelude.Assoc.{lookup, int_key}
use livy_next.Prelude.Int.{ℤ, pos, eqb_ℤ_refl, eqb_ℤ→eq}
use livy_next.Prelude.Int64.{sign_bit}
use livy_next.Session.Types.{Session}
use livy_next.Strconv.{atoi}
use livy_next.Strconv.Decimal.{show_nat, atoi-show_nat}
use livy_next.Manager.{
  Store, get_session, get_session_by_identifier, find_session_id, find_number, or_else,
  has_session_id, matches_id,
}
use livy_next.Manager.Registry.{Good, Inv}

-- The identifier is the number of the session at p.
abbrev pub Numbered : Text → Store → ℕ → Type 0
Numbered identifier w p = (id : ℤ) × (atoi identifier ≡ some id) × (get_session id w ≡ some p)

-- The identifier is the UUID of the session at p.
abbrev pub Named : Text → Store → ℕ → Type 0
Named identifier w p =
    (id : ℤ) × (s : Session) × (get_session id w ≡ some p)
    × (get_elem? w.heap p ≡ some s)
    × (s.session_id ≡ identifier)

pub has_session_id→eq :
    (identifier : Text) (heap : List Session) (p : ℕ)
    → has_session_id identifier heap p ≡ true
    → (s : Session) × (get_elem? heap p ≡ some s) × (s.session_id ≡ identifier)
unfolding has_session_id
has_session_id→eq identifier heap p h = elim (Option-cases (get_elem? heap p)) [
  | inl e ↦ absurd (false≢true (sym (ap (matches_id identifier) e) ∙ h))
  | inr (s, e) ↦ (s, e, text_eq→eq s.session_id identifier (sym (ap (matches_id identifier) e) ∙ h))
]

pub eq→has_session_id :
    (heap : List Session) (p : ℕ) {s : Session}
    → get_elem? heap p ≡ some s
    → has_session_id s.session_id heap p ≡ true
unfolding has_session_id
eq→has_session_id heap p {s} e = ap (matches_id s.session_id) e ∙ text_eq_refl s.session_id

pub find_session_id-Named :
    (identifier : Text) (n : ℕ) (heap : List Session) (m : List (ℤ × ℕ)) {p : ℕ}
    → Good n heap m
    → find_session_id identifier heap m ≡ some p
    → (id : ℤ) × (lookup id m ≡ some p) × (has_session_id identifier heap p ≡ true)
unfolding find_session_id lookup
find_session_id-Named identifier n heap [] g h = cc
find_session_id-Named identifier n heap ((id, q) ∷ m) {p} (k, d, x, g) h =
    elim (Bool-cases (has_session_id identifier heap q)) [
      | inl e ↦ (id, ground (arith, eqb_ℤ_refl id), ground arith)
      | inr e ↦
          let (j, l, f) = find_session_id-Named identifier n heap m {p = p} g (ground arith) in
          (j, ground (arith, eqb_ℤ→eq id j), f)
    ]

pub find_session_id-none :
    (identifier : Text) (heap : List Session) (m : List (ℤ × ℕ)) (id : ℤ) {p : ℕ}
    → find_session_id identifier heap m ≡ none
    → lookup id m ≡ some p
    → has_session_id identifier heap p ≡ false
unfolding find_session_id lookup
find_session_id-none identifier heap [] id h e = cc
find_session_id-none identifier heap ((j, q) ∷ m) id {p} h e =
    ground (arith, find_session_id-none identifier heap m id {p = p})

pub or_else-cases :
    (o q : Option ℕ) {p : ℕ} → or_else o q ≡ some p → (o ≡ some p) ⊎ ((o ≡ none) × (q ≡ some p))
unfolding or_else
or_else-cases none q h = inr (refl, h)
or_else-cases (some x) q h = inl h

or_else-none : (o q : Option ℕ) → or_else o q ≡ none → (o ≡ none) × (q ≡ none)
unfolding or_else
or_else-none none q h = (refl, h)
or_else-none (some x) q h = cc

pub find_number-Numbered :
    (o : Option ℤ) (w : Store) {p : ℕ}
    → find_number o w ≡ some p
    → (id : ℤ) × (o ≡ some id) × (get_session id w ≡ some p)
unfolding find_number get_session
find_number-Numbered none w h = cc
find_number-Numbered (some id) w h = (id, refl, h)

pub find_number-some :
    (o : Option ℤ) (w : Store) (id : ℤ) → o ≡ some id → find_number o w ≡ get_session id w
unfolding find_number get_session
find_number-some o w id e = rw (e, find_number)

-- In a well-formed registry the session that GetSessionByIdentifier finds has the identifier for
-- its number in decimal or for its session UUID.
pub get_session_by_identifier_sound :
    (identifier : Text) (w : Store) {p : ℕ}
    → Inv w
    → get_session_by_identifier identifier w ≡ some p
    → Numbered identifier w p ⊎ Named identifier w p
unfolding get_session_by_identifier get_session
get_session_by_identifier_sound identifier w {p} v h =
    elim (or_else-cases (find_number (atoi identifier) w) _ h) [
      | inl e ↦ inl (find_number-Numbered (atoi identifier) w e)
      | inr (n, e) ↦
          let (id, l, f) =
            find_session_id-Named identifier v.count w.heap w.manager.sessions v.good e in
          let (s, g, k) = has_session_id→eq identifier w.heap p f in inr (id, s, l, g, k)
    ]

-- Where GetSessionByIdentifier finds nothing, no session of the map has the identifier for its
-- number in decimal or for its session UUID.
pub get_session_by_identifier_complete :
    (identifier : Text) (w : Store)
    → get_session_by_identifier identifier w ≡ none
    → (p : ℕ) → (¬ Numbered identifier w p) × (¬ Named identifier w p)
unfolding get_session_by_identifier get_session
get_session_by_identifier_complete identifier w h p =
    let (a, b) = or_else-none (find_number (atoi identifier) w) _ h in
    (
      λ t.
          let e : get_session t.0 w ≡ none =
            sym (find_number-some (atoi identifier) w t.0 t.1) ∙ a in
          let f : get_session t.0 w ≡ some p = t.2 in cc,
      λ t.
          let f : has_session_id identifier w.heap p ≡ false =
            find_session_id-none identifier w.heap w.manager.sessions t.0 {p = p} b t.2 in
          let g : has_session_id identifier w.heap p ≡ true =
            subst (λ (i : Text). has_session_id i w.heap p ≡ true) t.4
              (eq→has_session_id w.heap p t.3) in
          absurd (false≢true (sym f ∙ g)),
    )

-- The decimal numeral of a number below 2 ^ 63 that leads to a session is an identifier of that
-- session.
pub get_session_by_identifier-show_nat :
    (n : ℕ) (w : Store) {p : ℕ}
    → n < sign_bit
    → get_session (pos n) w ≡ some p
    → get_session_by_identifier (show_nat n) w ≡ some p
unfolding get_session_by_identifier or_else
get_session_by_identifier-show_nat n w h e =
    rw (find_number-some (atoi (show_nat n)) w (pos n) (atoi-show_nat n h)) (rw e)

has_session_id-set :
    (identifier : Text) (heap : List Session) (q : ℕ) {s : Session} (t : Session) (p : ℕ)
    → get_elem? heap q ≡ some s
    → t.session_id ≡ s.session_id
    → has_session_id identifier (set heap q t) p ≡ has_session_id identifier heap p
unfolding has_session_id
has_session_id-set identifier heap q {s} t p e f = elim (ℕ_discrete q p) [
  | yes d ↦
      subst
        (λ r.
          matches_id identifier (get_elem? (set heap q t) r)
          ≡ matches_id identifier (get_elem? heap r))
        d
        (ap (matches_id identifier) (get_elem?-set_self heap q t (get_elem?-lt heap q e))
          ∙ ap (λ (i : Text). text_eq i identifier) f
          ∙ sym (ap (matches_id identifier) e))
  | no n ↦ ap (matches_id identifier) (get_elem?-set_ne heap t n)
]

find_session_id-set :
    (identifier : Text) (heap : List Session) (q : ℕ) {s : Session} (t : Session) (m : List (ℤ × ℕ))
    → get_elem? heap q ≡ some s
    → t.session_id ≡ s.session_id
    → find_session_id identifier (set heap q t) m ≡ find_session_id identifier heap m
unfolding find_session_id
find_session_id-set identifier heap q t [] e f = refl
find_session_id-set identifier heap q t ((id, p) ∷ m) e f = ground (
  arith,
  has_session_id-set identifier heap q t p e f,
  find_session_id-set identifier heap q t m e f,
)

find_number-heap :
    (o : Option ℤ) (w : Store) (heap : List Session)
    → find_number o (record w { heap = heap }) ≡ find_number o w
unfolding find_number get_session
find_number-heap none w heap = refl
find_number-heap (some id) w heap = refl

-- A change of one session that keeps its UUID does not change what an identifier leads to.
pub get_session_by_identifier-set :
    (identifier : Text) (w : Store) (q : ℕ) {s : Session} (t : Session)
    → get_elem? w.heap q ≡ some s
    → t.session_id ≡ s.session_id
    → get_session_by_identifier identifier (record w { heap = set w.heap q t })
      ≡ get_session_by_identifier identifier w
unfolding get_session_by_identifier
get_session_by_identifier-set identifier w q t e f =
    ap (λ o. or_else o (find_session_id identifier (set w.heap q t) w.manager.sessions))
      (find_number-heap (atoi identifier) w (set w.heap q t))
    ∙ ap (or_else (find_number (atoi identifier) w))
        (find_session_id-set identifier w.heap q t w.manager.sessions e f)
