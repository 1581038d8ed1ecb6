-- ===== src/Manager/Spec/Keeps.antt =====
-- What every request keeps: a well-formed registry, and sessions whose channel is closed exactly
-- if they are dead.
use livy_next.Prelude.{
  ℕ, suc, ◌<◌, ◌≤◌, ◌≡◌, refl, ◌∙◌, ap, subst, false, List, [], ◌∷◌, ◌++◌, Option, none, some,
  arith, get_elem?, set, length, length-set, length-append, true, Bool-cases, inl, inr,
}
use livy_next.Prelude.Assoc.{lookup, int_key}
use livy_next.Prelude.Int.{ℤ, pos, eqb_ℤ, eqb_ℤ→eq, ◌+ℤ◌}
use livy_next.Prelude.Int64.{sign_bit, wrap64}
use livy_next.Session.Types.{Session, SessionCreateParams, SparkClient}
use livy_next.Session.Lifecycle.{new_session, close, close_state}
use livy_next.Session.Lifecycle.Close.{close-id}
use livy_next.Session.Run.Closing.{Sound, close-Sound}
use livy_next.Manager.{
  Manager, Store, create_session, get_session, delete_session, delete_found, close_at, close_found,
  cleanup_idle_sessions, close_all, set_idle_timeout, on_manager,
}
use livy_next.Manager.Registry.{Good, Inv, Points, Good-heap, create_session-Inv, wrap64-suc}
use livy_next.Manager.Cleanup.{cleanup-Inv}
use livy_next.Manager.Shutdown.{AllSound, AllSound-at, AllSound-set, Points-set, close_each-Emptied}
use livy_next.Manager.Spec.{Request, creates, deletes, cleans_up, closes_all, sets_timeout, serve}

pub Good-Points :
    (n : ℕ) (heap : List Session) (id : ℤ) (m : List (ℤ × ℕ)) {p : ℕ}
    → Good n heap m
    → lookup id m ≡ some p
    → Points heap id p
unfolding lookup
Good-Points n heap id [] g h = cc
Good-Points n heap id ((j, r) ∷ m) {p} (k, d, q, g) h = elim (Bool-cases (eqb_ℤ j id)) [
  | inl e ↦
      (let a : j ≡ id = eqb_ℤ→eq j id e in
        let b : r ≡ p = ground arith in
        subst (λ x. Points heap x p) a (subst (λ x. Points heap j x) b q))
  | inr e ↦ Good-Points n heap id m g (ground arith)
]

new_session-Sound :
    (now id : ℤ) (params : SessionCreateParams) (client : Option SparkClient)
    → Sound (new_session now id params client)
unfolding new_session
new_session-Sound now id params client = record { closed = refl; whole = λ e. cc }

AllSound-append :
    (heap : List Session) (s : Session) → AllSound heap → Sound s → AllSound (heap ++ s ∷ [])
AllSound-append [] s h v = (v, tt)
AllSound-append (x ∷ heap) s h v = (h.0, AllSound-append heap s h.1 v)

pub record Kept (w : Store) : Type 0 where
  pub inv : Inv w
  pub sound : AllSound w.heap

-- Kept, with at most n numbers given out and at least b sessions on the heap.
abbrev pub Keeps : ℕ → ℕ → Store → Type 0
Keeps n b w = (k : Kept w) × (k.inv.count ≤ n) × (b ≤ length w.heap)

module _ (w : Store) (k : Kept w) where
  -- Another session behind a pointer, with the same number.
  pub set-Keeps :
      (p : ℕ) (s t : Session)
      → get_elem? w.heap p ≡ some s
      → t.id ≡ s.id
      → Sound t
      → Keeps k.inv.count (length w.heap) (record w { heap = set w.heap p t })
  set-Keeps p s t e f v = (
    record {
      inv = record {
        count = k.inv.count;
        next = k.inv.next;
        good =
            Good-heap k.inv.count k.inv.count w.heap (set w.heap p t) w.manager.sessions
              (omega arith) (λ j r. Points-set w.heap p t j r e f) k.inv.good;
      };
      sound = AllSound-set w.heap p t k.sound v;
    },
    omega arith,
    omega (arith, length-set w.heap p t),
  )

  -- Other settings.
  pub settings-Keeps :
      (m : Manager)
      → m.sessions ≡ w.manager.sessions
      → m.next_id ≡ w.manager.next_id
      → Keeps k.inv.count (length w.heap) (record w { manager = m })
  settings-Keeps m e f = (
    record {
      inv = record { count = k.inv.count; next = f ∙ k.inv.next; good = rw e k.inv.good };
      sound = k.sound;
    },
    omega arith,
    omega arith,
  )

module _ (now : ℤ) (w : Store) (k : Kept w) where
  pub creates-Keeps :
      (params : SessionCreateParams) (client : Option SparkClient)
      → suc k.inv.count < sign_bit
      → Keeps (suc k.inv.count) (length w.heap) (create_session now params client w).0
  unfolding create_session
  creates-Keeps params client h =
      let v : Inv (create_session now params client w).0 =
        create_session-Inv now params client w k.inv h in
      let e : wrap64 (w.manager.next_id +ℤ pos 1) ≡ pos v.count = v.next in
      let f : wrap64 (w.manager.next_id +ℤ pos 1) ≡ pos (suc k.inv.count) =
        ap (λ i. wrap64 (i +ℤ pos 1)) k.inv.next ∙ wrap64-suc k.inv.count h in
      (
        record {
          inv = v;
          sound =
              AllSound-append w.heap _ k.sound
                (new_session-Sound now w.manager.next_id params client);
        },
        ground arith,
        omega (arith, length-append w.heap (new_session now w.manager.next_id params client ∷ [])),
      )

  pub close_at-Keeps :
      (p : ℕ) (o : Option Session)
      → get_elem? w.heap p ≡ o
      → Keeps k.inv.count (length w.heap) (close_found now p w o).0
  unfolding close_found
  close_at-Keeps p none e = (k, omega arith, omega arith)
  close_at-Keeps p (some s) e =
      set-Keeps w k p s (close_state (close now s)) e (close-id now s)
        (close-Sound now s (AllSound-at w.heap p k.sound e))

  pub delete_found-Keeps :
      (o : Option ℕ) → Keeps k.inv.count (length w.heap) (delete_found now o w).0
  unfolding delete_found close_at
  delete_found-Keeps none = (k, omega arith, omega arith)
  delete_found-Keeps (some p) = close_at-Keeps p (get_elem? w.heap p) refl

  pub cleans_up-Keeps : Keeps k.inv.count (length w.heap) (cleanup_idle_sessions now w).0
  unfolding cleanup_idle_sessions
  cleans_up-Keeps =
      let v : Inv (cleanup_idle_sessions now w).0 = cleanup-Inv now w k.inv in
      let e : w.manager.next_id ≡ pos v.count = v.next in
      let f : w.manager.next_id ≡ pos k.inv.count = k.inv.next in
      (record { inv = v; sound = k.sound }, ground arith, omega arith)

  pub closes_all-Emptied :
      (v : Store) × (close_all now w ≡ (v, false))
      × (v.manager ≡ record w.manager { sessions = []; stop_ch = true })
      × AllSound v.heap
      × (length v.heap ≡ length w.heap)
  unfolding close_all
  closes_all-Emptied =
      let (v, r, e) =
        close_each-Emptied now k.inv.count w.manager.sessions
          (on_manager (λ m. record m { stop_ch = true }) w) refl k.inv.good k.sound in
      (v, r, e.left, e.sound, e.same_count)

  pub closes_all-Keeps : Keeps k.inv.count (length w.heap) (close_all now w).0
  closes_all-Keeps =
      let (v, r, l, s, c) = closes_all-Emptied in
      rw r (
        record {
          inv = record {
            count = k.inv.count;
            next = ap (λ (m : Manager). m.next_id) l ∙ k.inv.next;
            good = rw (ap (λ (m : Manager). m.sessions) l) tt;
          };
          sound = s;
        },
        omega arith,
        omega (arith, c),
      )

pub more : {n b : ℕ} {w : Store} → Keeps n b w → Keeps (suc n) b w
more (k, l, b) = (k, omega arith, b)

pub serve-Keeps :
    (q : Request) (w : Store) (k : Kept w)
    → suc k.inv.count < sign_bit
    → Keeps (suc k.inv.count) (length w.heap) (serve q w)
unfolding serve delete_session set_idle_timeout
serve-Keeps (creates now params client) w k h = creates-Keeps now w k params client h
serve-Keeps (deletes now id) w k h = more (delete_found-Keeps now w k (get_session id w))
serve-Keeps (cleans_up now) w k h = more (cleans_up-Keeps now w k)
serve-Keeps (closes_all now) w k h = more (closes_all-Keeps now w k)
serve-Keeps (sets_timeout d) w k h = more (settings-Keeps w k _ refl refl)
