-- ===== src/Api/Statements/Found.antt =====
-- The session that an identifier leads to, before and after a change of it.
use livy_next.Prelude.{
  ℕ, ◌≡◌, refl, inl, inr, ◌∙◌, Option, none, some, arith, Text, get_elem?, set, get_elem?-set_self,
  get_elem?-lt, Option-cases, List,
}
use livy_next.Prelude.Int.{ℤ}
use livy_next.Session.Types.{Session}
use livy_next.Manager.{Store, get_session_by_identifier}
use livy_next.Manager.Order.{Reorders, reordered, Settled, get_session_by_identifier-reordered}
use livy_next.Manager.Identifier.{get_session_by_identifier-set}
use livy_next.Api.Statements.{find_session, pointed}

pointed-some :
    (o : Option ℕ) (heap : List Session) {p : ℕ} {s : Session}
    → pointed o heap ≡ some (p, s)
    → (o ≡ some p) × (get_elem? heap p ≡ some s)
pointed-some none heap h = cc
pointed-some (some q) heap {p} {s} h = elim (Option-cases (get_elem? heap q)) [
  | inl e ↦ ground arith
  | inr (t, e) ↦ ground arith
]

pub find_session-some :
    (id : Text) (w : Store) {p : ℕ} {s : Session}
    → find_session id w ≡ some (p, s)
    → (get_session_by_identifier id w ≡ some p) × (get_elem? w.heap p ≡ some s)
unfolding find_session
find_session-some id w h = pointed-some (get_session_by_identifier id w) w.heap h

-- A change of the session that keeps its UUID.
pub find_session-set :
    (id : Text) (w : Store) (t : Session) {p : ℕ} {s : Session}
    → find_session id w ≡ some (p, s)
    → t.session_id ≡ s.session_id
    → find_session id (record w { heap = set w.heap p t }) ≡ some (p, t)
unfolding find_session
find_session-set id w t {p} e f =
    let (g, k) = find_session-some id w e in
    rw (get_session_by_identifier-set id w p t k f ∙ g)
      (rw (get_elem?-set_self w.heap p t (get_elem?-lt w.heap p k), pointed))

-- The same where the map is visited in another order, and the session is settled.
pub find_session-reordered :
    (id : Text) (w : Store) (t : Session) {p : ℕ} {s : Session} {m : List (ℤ × ℕ)}
    → find_session id w ≡ some (p, s)
    → Settled id w p
    → Reorders w.manager.sessions m
    → t.session_id ≡ s.session_id
    → find_session id (reordered m (record w { heap = set w.heap p t })) ≡ some (p, t)
unfolding find_session
find_session-reordered id w t {p} {s} {m} e h r f =
    let (g, k) = find_session-some id w e in
    let g' : get_session_by_identifier id (reordered m w) ≡ some p =
      get_session_by_identifier-reordered id w p h r in
    let e' : pointed (get_session_by_identifier id (reordered m w)) w.heap ≡ some (p, s) =
      rw (g', pointed) (rw k refl) in
    find_session-set id (reordered m w) t e' f
