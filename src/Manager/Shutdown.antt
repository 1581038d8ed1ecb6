-- ===== src/Manager/Shutdown.antt =====
-- DeleteSession closes one session and leaves it in the map; CloseAll closes all and empties it.
use native.Mathlib.Decide.{ℕ_discrete}
use livy_next.Prelude.{
  ℕ, zero, suc, ◌≡◌, refl, ◌∙◌, ap, subst, true, false, List, [], ◌∷◌, Option, none, some, arith,
  Text, codes, get_elem?, set, get_elem?-lt, get_elem?-set_self, get_elem?-set_ne, length,
  length-set,
}
use livy_next.Prelude.Assoc.{lookup, remove, int_key}
use livy_next.Prelude.Int.{ℤ, eqb_ℤ_refl}
use livy_next.Session.Types.{Session, dead}
use livy_next.Session.Lifecycle.{close, close_state, CloseResult, returned, panicked}
use livy_next.Session.Lifecycle.Close.{close-id}
use livy_next.Session.Run.Closing.{Sound, Closes, close-Closes, close-Sound}
use livy_next.Manager.{
  Manager, Store, DeleteResult, deleted, close_answer, close_at, close_found,
  delete_session_by_identifier, delete_found, get_session_by_identifier, close_each, close_all,
  drop_session, on_manager, unless_panic,
}
use livy_next.Manager.Registry.{Good, Inv, Points, Good-heap, lookup-cons_none}

abbrev pub AllSound : List Session → Type 0
AllSound [] = Unit {0}
AllSound (s ∷ heap) = Sound s × AllSound heap

pub AllSound-at :
    (heap : List Session) (p : ℕ) {s : Session}
    → AllSound heap
    → get_elem? heap p ≡ some s
    → Sound s
AllSound-at [] p f e = cc
AllSound-at (x ∷ heap) zero {s} f e = let q : x ≡ s = cc in subst Sound q f.0
AllSound-at (x ∷ heap) (suc p) f e = AllSound-at heap p f.1 e

pub AllSound-set :
    (heap : List Session) (p : ℕ) (s : Session) → AllSound heap → Sound s → AllSound (set heap p s)
AllSound-set [] p s f h = tt
AllSound-set (x ∷ heap) zero s f h = (h, f.1)
AllSound-set (x ∷ heap) (suc p) s f h = (f.0, AllSound-set heap p s f.1 h)

-- The pointer leads to a dead session.
abbrev pub Dead : List Session → ℕ → Type 0
Dead heap p = (s : Session) × (get_elem? heap p ≡ some s) × (s.state ≡ dead)

-- Close through a pointer: no panic, the map as it was, and the session dead.
pub record Closed (now : ℤ) (p : ℕ) (s : Session) (w v : Store) (r : DeleteResult) : Type 0 where
  pub same_manager : v.manager ≡ w.manager
  pub heap_set : v.heap ≡ set w.heap p (close_state (close now s))
  pub is_dead : (close_state (close now s)).state ≡ dead
  pub answers : (e : Option Text) × (r ≡ deleted e)

answers-close :
    (s : Session) (r : CloseResult)
    → Closes s r
    → ((close_state r).state ≡ dead) × ((e : Option Text) × (close_answer r ≡ deleted e))
answers-close s (panicked t) c = absurd c
answers-close s (returned t e) c = (c.0, (e, refl))

pub close_at-Closed :
    (now : ℤ) (p : ℕ) (w : Store) {s : Session}
    → get_elem? w.heap p ≡ some s
    → Sound s
    → Closed now p s w (close_at now p w).0 (close_at now p w).1
unfolding close_at
close_at-Closed now p w {s} e h =
    let (d, a) = answers-close s (close now s) (close-Closes now s h) in
    rw (e, close_found) (record { same_manager = refl; heap_set = refl; is_dead = d; answers = a })

-- DeleteSessionByIdentifier of a session that is found, and whose channel is closed exactly if it
-- is dead, does not panic, leaves the registry as it was, and replaces that session alone by what
-- Close leaves, which is dead.
pub delete_lem :
    (now : ℤ) (identifier : Text) (w : Store) {p : ℕ} {s : Session}
    → get_session_by_identifier identifier w ≡ some p
    → get_elem? w.heap p ≡ some s
    → Sound s
    → Closed now p s w
        (delete_session_by_identifier now identifier w).0
        (delete_session_by_identifier now identifier w).1
unfolding delete_session_by_identifier
delete_lem now identifier w {p} f e h = rw (f, delete_found) (close_at-Closed now p w e h)

-- Deleting one that is found: what its Close leaves, and what it answers.
pub delete_at :
    (now : ℤ) (identifier : Text) (w : Store) {p : ℕ} {s : Session}
    → get_session_by_identifier identifier w ≡ some p
    → get_elem? w.heap p ≡ some s
    → delete_session_by_identifier now identifier w
      ≡ (record w { heap = set w.heap p (close_state (close now s)) }, close_answer (close now s))
unfolding delete_session_by_identifier close_at
delete_at now identifier w f e = rw (f, delete_found) (rw (e, close_found))

-- Deleting one that is not found.
pub delete_missing :
    (now : ℤ) (identifier : Text) (w : Store)
    → get_session_by_identifier identifier w ≡ none
    → delete_session_by_identifier now identifier w
      ≡ (w, deleted (some (codes "session not found")))
unfolding delete_session_by_identifier
delete_missing now identifier w f = rw (f, delete_found)

pub Points-set :
    (heap : List Session) (q : ℕ) {s : Session} (t : Session) (id : ℤ) (p : ℕ)
    → get_elem? heap q ≡ some s
    → t.id ≡ s.id
    → Points heap id p
    → Points (set heap q t) id p
Points-set heap q {s} t id p e f (x, g, h) = elim (ℕ_discrete q p) [
  | yes d ↦ (
    t,
    subst (λ r. get_elem? (set heap q t) r ≡ some t) d
        (get_elem?-set_self heap q t (get_elem?-lt heap q e)),
    let k : get_elem? heap p ≡ some s = subst (λ r. get_elem? heap r ≡ some s) d e in
        f ∙ ground arith,
  )
  | no n ↦ (x, get_elem?-set_ne heap t n ∙ g, h)
]

Dead-set :
    (heap : List Session) (q : ℕ) {s : Session} (t : Session) (p : ℕ)
    → get_elem? heap q ≡ some s
    → t.state ≡ dead
    → Dead heap p
    → Dead (set heap q t) p
Dead-set heap q t p e f (x, g, h) = elim (ℕ_discrete q p) [
  | yes d ↦ (
    t,
    subst (λ r. get_elem? (set heap q t) r ≡ some t) d
        (get_elem?-set_self heap q t (get_elem?-lt heap q e)),
    f,
  )
  | no n ↦ (x, get_elem?-set_ne heap t n ∙ g, h)
]

abbrev pub AllDead : List Session → List (ℤ × ℕ) → Type 0
AllDead heap [] = Unit {0}
AllDead heap ((id, p) ∷ m) = Dead heap p × AllDead heap m

-- The loop of CloseAll over the entries m, from the store w to the store v.
pub record Emptied (w v : Store) (m : List (ℤ × ℕ)) : Type 0 where
  pub left : v.manager ≡ record w.manager { sessions = [] }
  pub same_count : length v.heap ≡ length w.heap
  pub sound : AllSound v.heap
  pub all_dead : AllDead v.heap m
  pub stay_dead : (p : ℕ) → Dead w.heap p → Dead v.heap p

remove-absent : (id : ℤ) (m : List (ℤ × ℕ)) → lookup id m ≡ none → remove id m ≡ m
unfolding remove
remove-absent id [] h = refl
remove-absent id ((j, p) ∷ m) h =
    let (f, a) = lookup-cons_none j id p m h in rw f (ap (◌∷◌ (j, p)) (remove-absent id m a))

remove-head : (id : ℤ) (p : ℕ) (m : List (ℤ × ℕ)) → lookup id m ≡ none → remove id ((id, p) ∷ m) ≡ m
unfolding remove
remove-head id p m h = rw (eqb_ℤ_refl id) (remove-absent id m h)

pub close_each-Emptied :
    (now : ℤ) (n : ℕ) (m : List (ℤ × ℕ)) (w : Store)
    → w.manager.sessions ≡ m
    → Good n w.heap m
    → AllSound w.heap
    → (v : Store) × (close_each now m w ≡ (v, false)) × Emptied w v m
unfolding close_each
close_each-Emptied now n [] w e g h = (
  w,
  refl,
  record { left = ground arith; same_count = refl; sound = h; all_dead = tt; stay_dead = λ p d. d },
)
close_each-Emptied now n ((id, p) ∷ m) w e (k, d, (s, q, i), g) h =
    let t : Session = close_state (close now s) in
    let f : Sound s = AllSound-at w.heap p h q in
    let c : Closed now p s w (close_at now p w).0 (close_at now p w).1 =
      close_at-Closed now p w q f in
    let w' : Store = drop_session id (close_at now p w).0 in
    let e' : w'.manager.sessions ≡ m =
      ap (λ (a : Manager). remove id a.sessions) c.same_manager
      ∙ ap (remove id) e
      ∙ remove-head id p m d in
    let g' : Good n w'.heap m = rw c.heap_set (
      Good-heap n n w.heap (set w.heap p t) m (omega arith)
        (λ j r. Points-set w.heap p t j r q (close-id now s)) g) in
    let h' : AllSound w'.heap = rw c.heap_set (AllSound-set w.heap p t h (close-Sound now s f)) in
    let (v, r, z) = close_each-Emptied now n m w' e' g' h' in
    let dies : Dead w'.heap p =
      rw c.heap_set (t, get_elem?-set_self w.heap p t (get_elem?-lt w.heap p q), c.is_dead) in
    let stays : (j : ℕ) → Dead w.heap j → Dead w'.heap j =
      λ j l. rw c.heap_set (Dead-set w.heap p t j q c.is_dead l) in
    (
      v,
      ap (λ a. unless_panic a (close_at now p w).0 (close_each now m w')) c.answers.1 ∙ r,
      record {
        left = z.left ∙ ap (λ (a : Manager). record a { sessions = [] }) c.same_manager;
        same_count = z.same_count ∙ ap length c.heap_set ∙ length-set w.heap p t;
        sound = z.sound;
        all_dead = (z.stay_dead p dies, z.all_dead);
        stay_dead = λ j l. z.stay_dead j (stays j l);
      },
    )

-- CloseAll, on a well-formed registry whose sessions have their channels closed exactly if they
-- are dead, does not panic, empties the map, closes the stop channel and leaves every session
-- that was in the map dead.
pub close_all_lem :
    (now : ℤ) (w : Store)
    → Inv w
    → AllSound w.heap
    → (v : Store) × (close_all now w ≡ (v, false))
      × (v.manager.sessions ≡ [])
      × (v.manager.stop_ch ≡ true)
      × AllDead v.heap w.manager.sessions
unfolding close_all
close_all_lem now w v h =
    let (z, r, e) =
      close_each-Emptied now v.count w.manager.sessions
        (on_manager (λ m. record m { stop_ch = true }) w) refl v.good h in
    (
      z,
      r,
      ap (λ (a : Manager). a.sessions) e.left,
      ap (λ (a : Manager). a.stop_ch) e.left,
      e.all_dead,
    )

close_each-nil : (now : ℤ) (w : Store) → close_each now [] w ≡ (w, false)
unfolding close_each
close_each-nil now w = refl

-- CloseAll changes nothing where the map is empty and the stop channel closed.
pub close_all_again :
    (now : ℤ) (w : Store)
    → w.manager.sessions ≡ []
    → w.manager.stop_ch ≡ true
    → close_all now w ≡ (w, false)
unfolding close_all
close_all_again now w e f =
    let x : Store = on_manager (λ m. record m { stop_ch = true }) w in
    let y : x ≡ w = ground arith in
    ap (λ m. close_each now m x) e ∙ close_each-nil now x ∙ ap (λ (a : Store). (a, false)) y
