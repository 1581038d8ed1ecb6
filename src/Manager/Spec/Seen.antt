-- ===== src/Manager/Spec/Seen.antt =====
-- What a request leaves behind each number.
use livy_next.Prelude.{
  ℕ, ◌≡◌, refl, sym, ◌∙◌, ap, subst, false, List, [], ◌∷◌, ◌++◌, Option, none, some, arith, length,
  get_elem?, set, get_elem?-lt, get_elem?-append_lt, get_elem?-append_last, get_elem?-set_self,
  get_elem?-set_ne, if◌then◌else◌, Option-cases, Bool-cases, inl, inr,
}
use livy_next.Prelude.Assoc.{lookup, int_key, lookup-insert}
use livy_next.Prelude.Int.{ℤ, eqb_ℤ, eqb_ℤ→eq, eqb_ℤ_refl}
use livy_next.Session.Types.{
  Session, SessionState, starting, idle, busy, dead, shutting_down, SessionCreateParams,
  SparkClient,
}
use livy_next.Session.Lifecycle.{new_session, close, close_state}
use livy_next.Manager.{
  Store, create_session, get_session, delete_session, delete_found, close_at, close_found,
  cleanup_idle_sessions, is_expired, expired_at, inactive,
}
use livy_next.Manager.Registry.{Good, Inv}
use livy_next.Manager.Cleanup.{cleanup_lem, unexpired}
use livy_next.Manager.Spec.{abstract, through, keep_fresh, closed_at, patience, outlasts}
use livy_next.Manager.Spec.Keeps.{Good-Points}

-- A session that is added at the end of the heap is seen through no pointer that leads somewhere.
through-append :
    (n : ℕ) (heap : List Session) (s : Session) (id : ℤ) (m : List (ℤ × ℕ))
    → Good n heap m
    → through (heap ++ s ∷ []) (lookup id m) ≡ through heap (lookup id m)
through-append n heap s id m g = elim (Option-cases (lookup id m)) [
  | inl e ↦ rw e refl
  | inr (p, e) ↦ rw e (
      let (t, f, h) = Good-Points n heap id m g e in
      get_elem?-append_lt heap (s ∷ []) p (get_elem?-lt heap p f))
]

pub creates_at :
    (now : ℤ) (params : SessionCreateParams) (client : Option SparkClient) (w : Store) (id : ℤ)
    → Inv w
    → through
        (create_session now params client w).0.heap
        (get_session id (create_session now params client w).0)
      ≡ (if eqb_ℤ w.manager.next_id id
          then some (new_session now w.manager.next_id params client)
          else through w.heap (get_session id w))
unfolding create_session get_session
creates_at now params client w id v =
    let s = new_session now w.manager.next_id params client in
    ap (through (w.heap ++ s ∷ []))
      (lookup-insert w.manager.next_id id (length w.heap) w.manager.sessions)
    ∙ elim (Bool-cases (eqb_ℤ w.manager.next_id id)) [
      | inl e ↦ rw e (get_elem?-append_last w.heap s)
      | inr e ↦ rw e (through-append v.count w.heap s id w.manager.sessions v.good)
    ]

-- Another number's session is not touched by what is done to the session of id.
through-set :
    (n : ℕ) (heap : List Session) (t : Session) (id j : ℤ) (p : ℕ) (m : List (ℤ × ℕ))
    → Good n heap m
    → lookup id m ≡ some p
    → eqb_ℤ id j ≡ false
    → through (set heap p t) (lookup j m) ≡ through heap (lookup j m)
through-set n heap t id j p m g e f = elim (Option-cases (lookup j m)) [
  | inl h ↦ rw h refl
  | inr (q, h) ↦ rw h (
      let (x, a, b) = Good-Points n heap id m g e in
      let (y, c, d) = Good-Points n heap j m g h in
      get_elem?-set_ne heap t (λ k.
        let c' : get_elem? heap p ≡ some y = subst (λ r. get_elem? heap r ≡ some y) (sym k) c in
        absurd (ground (arith, eqb_ℤ_refl id))))
]

unfoldable pub seen : ℤ → Store → Option Session
seen j w = through w.heap (get_session j w)

module _ (now id j : ℤ) (w : Store) (v : Inv w) where
  close_at-seen :
      (p : ℕ) {s : Session}
      → lookup id w.manager.sessions ≡ some p
      → get_elem? w.heap p ≡ some s
      → seen j (close_at now p w).0
        ≡ (if eqb_ℤ id j then some (close_state (close now s)) else seen j w)
  unfolding seen close_at get_session
  close_at-seen p {s} e f =
      rw (f, close_found)
        (elim (Bool-cases (eqb_ℤ id j)) [
          | inl h ↦ rw h (
              let k : lookup j w.manager.sessions ≡ some p =
                subst (λ i. lookup i w.manager.sessions ≡ some p) (eqb_ℤ→eq id j h) e in
              rw k
                (get_elem?-set_self w.heap p (close_state (close now s)) (get_elem?-lt w.heap p f)))
          | inr h ↦ rw h (
              through-set v.count w.heap (close_state (close now s)) id j p w.manager.sessions
                v.good e h)
        ])

  pub deletes_seen :
      seen j (delete_session now id w).0
      ≡ (if eqb_ℤ id j then closed_at now (seen id w) else seen j w)
  unfolding seen delete_session get_session
  deletes_seen = elim (Option-cases (lookup id w.manager.sessions)) [
    | inl e ↦
        rw (e, delete_found)
          (elim (Bool-cases (eqb_ℤ id j)) [
            | inl h ↦ rw h (
                ap (through w.heap)
                  (subst (λ i. lookup i w.manager.sessions ≡ none) (eqb_ℤ→eq id j h) e))
            | inr h ↦ rw h refl
          ])
    | inr (p, e) ↦
        (let (s, f, i) = Good-Points v.count w.heap id w.manager.sessions v.good e in
          rw (e, delete_found) (unfold seen get_session in close_at-seen p {s = s} e f ∙ rw f refl))
  ]

is_expired-patience :
    (now : ℤ) (w : Store) (s : Session) (st : SessionState)
    → s.state ≡ st
    → is_expired now w.manager s ≡ outlasts (patience (abstract w) s s.state) (inactive now s)
unfolding is_expired abstract
is_expired-patience now w s dead e = rw e refl
is_expired-patience now w s idle e = rw e (ground arith)
is_expired-patience now w s starting e = rw e (ground arith)
is_expired-patience now w s busy e = rw e (ground arith)
is_expired-patience now w s shutting_down e = rw e (ground arith)

expired_at-patience :
    (now : ℤ) (w : Store) (p : ℕ) {s : Session}
    → get_elem? w.heap p ≡ some s
    → expired_at now w p ≡ outlasts (patience (abstract w) s s.state) (inactive now s)
unfolding expired_at
expired_at-patience now w p {s} f = rw (f, expired_at) (is_expired-patience now w s s.state refl)

unexpired-keep_fresh :
    (now id : ℤ) (w : Store)
    → Inv w
    → through w.heap (unexpired now w (get_session id w)) ≡ keep_fresh now (abstract w) (seen id w)
unfolding seen get_session expired_at
unexpired-keep_fresh now id w v = elim (Option-cases (lookup id w.manager.sessions)) [
  | inl e ↦ rw e refl
  | inr (p, e) ↦
      (let (s, f, i) = Good-Points v.count w.heap id w.manager.sessions v.good e in
        let x = expired_at now w p in
        let h : x ≡ outlasts (patience (abstract w) s s.state) (inactive now s) =
          expired_at-patience now w p f in
        rw e (elim (Bool-cases x) [
          | inl y ↦ rw (y, f) (rw (sym h ∙ y) refl)
          | inr y ↦ rw (y, f) (rw (sym h ∙ y) refl)
        ]))
]

pub cleans_up_seen :
    (now id : ℤ) (w : Store)
    → Inv w
    → seen id (cleanup_idle_sessions now w).0 ≡ keep_fresh now (abstract w) (seen id w)
unfolding seen cleanup_idle_sessions
cleans_up_seen now id w v =
    ap (through w.heap) (cleanup_lem now w id v) ∙ unfold seen in unexpired-keep_fresh now id w v
