-- ===== src/World/Steps.antt =====
-- What every run keeps.
use livy_next.Prelude.{
  Bool, true, false, ℕ, zero, suc, ◌≤◌, ◌<◌, ◌≡◌, refl, subst, List, [], ◌∷◌, ◌++◌, arith, length,
  get_elem?, get_elem?-lt, Option-cases, inl, inr,
}
use livy_next.Prelude.Assoc.{lookup, remove, int_key}
use livy_next.Prelude.Int.{ℤ}
use livy_next.Prelude.Int64.{sign_bit}
use livy_next.Session.Types.{Session}
use livy_next.Session.Statements.{finish_statement}
use livy_next.Manager.{Store, new_manager, close_at, cleanup_idle_sessions, to_delete, reap}
use livy_next.Manager.Registry.{Good}
use livy_next.Manager.Cleanup.{Good-remove}
use livy_next.Manager.Spec.Keeps.{
  Kept, Keeps, Good-Points, more, close_at-Keeps, cleans_up-Keeps, closes_all-Keeps,
}
use livy_next.Api.Types.{Handler}
use livy_next.World.{
  World, booted, Step, creates, deletes, submits, cancels, starts, watches, finishes, cleans_up,
  closes, probes, shuts_down, reorders, started_closes, Reach, here, next,
}
use livy_next.Server.Startup.{Flags, start}
use livy_next.Server.Startup.Keeps.{startup_probe-Keeps}
use livy_next.World.Creates.{create_session-Keeps}
use livy_next.World.Keeps.{
  starts-Keeps, watches-Keeps, finishes-Keeps, submits-Keeps, cancels-Keeps, deletes-Keeps,
  reordered-Keeps,
}

-- The pointers lead to the first n places.
abbrev pub AllBelow : ℕ → List ℕ → Type 0
AllBelow n [] = Unit {0}
AllBelow n (p ∷ ps) = (p < n) × AllBelow n ps

AllBelow-mono : (n m : ℕ) (ps : List ℕ) → n ≤ m → AllBelow n ps → AllBelow m ps
AllBelow-mono n m [] l a = tt
AllBelow-mono n m (p ∷ ps) l (b, a) = (omega arith, AllBelow-mono n m ps l a)

AllBelow-append : (n : ℕ) (ps qs : List ℕ) → AllBelow n ps → AllBelow n qs → AllBelow n (ps ++ qs)
AllBelow-append n [] qs a b = b
AllBelow-append n (p ∷ ps) qs (c, a) b = (c, AllBelow-append n ps qs a b)

-- One pointer taken out.
AllBelow-middle :
    (n : ℕ) (ps : List ℕ) (p : ℕ) (qs : List ℕ)
    → AllBelow n (ps ++ p ∷ qs)
    → (p < n) × AllBelow n (ps ++ qs)
AllBelow-middle n [] p qs a = a
AllBelow-middle n (q ∷ ps) p qs (b, a) = let (c, d) = AllBelow-middle n ps p qs a in (c, (b, d))

reap-AllBelow :
    (n : ℕ) (heap : List Session) (gone : List ℤ) (m : List (ℤ × ℕ))
    → Good n heap m
    → AllBelow (length heap) (reap gone m).1
unfolding reap
reap-AllBelow n heap [] m g = tt
reap-AllBelow n heap (id ∷ gone) m g = elim (Option-cases (lookup id m)) [
  | inl e ↦ rw e (reap-AllBelow n heap gone (remove id m) (Good-remove n heap id m g))
  | inr (p, e) ↦ rw e (
      let (s, f, i) = Good-Points n heap id m g e in
      (get_elem?-lt heap p f, reap-AllBelow n heap gone (remove id m) (Good-remove n heap id m g)))
]

started-AllBelow : (n p : ℕ) (b : Bool) → p < n → AllBelow n (started_closes p b)
started-AllBelow n p true l = (l, tt)
started-AllBelow n p false l = tt

-- What every run keeps, when n steps have been taken.
pub record Holds (n : ℕ) (y : World) : Type 0 where
  pub kept : Kept y.store
  pub count : kept.inv.count ≤ n
  pub below : AllBelow (length y.store.heap) y.closing

module _ (n : ℕ) (y : World) (v : Holds n y) where
  stepped :
      (w : Store) (ps : List ℕ)
      → Keeps (suc v.kept.inv.count) (length y.store.heap) w
      → AllBelow (length y.store.heap) ps
      → Holds (suc n) (record { store = w; closing = ps })
  stepped w ps (k, l, b) a = record {
    kept = k;
    count = omega (arith, v.count);
    below = AllBelow-mono (length y.store.heap) (length w.heap) ps b a;
  }

  -- A step that changes the store alone.
  same_closing :
      (w : Store)
      → Keeps (suc v.kept.inv.count) (length y.store.heap) w
      → Holds (suc n) (record { store = w; closing = y.closing })
  same_closing w k = stepped w y.closing k v.below

  cleans_up-Holds :
      (now : ℤ)
      → Holds (suc n) (record {
        store = (cleanup_idle_sessions now y.store).0;
        closing = y.closing ++ (cleanup_idle_sessions now y.store).1;
      })
  unfolding cleanup_idle_sessions
  cleans_up-Holds now =
      let w = y.store in
      let g =
        reap-AllBelow v.kept.inv.count w.heap (to_delete now w w.manager.sessions)
          w.manager.sessions v.kept.inv.good in
      stepped _ _ (more (cleans_up-Keeps now w v.kept))
        (AllBelow-append (length w.heap) y.closing _ v.below g)

  closes-Holds :
      (now : ℤ) (p : ℕ) (before after : List ℕ)
      → y.closing ≡ before ++ p ∷ after
      → Holds (suc n) (record { store = (close_at now p y.store).0; closing = before ++ after })
  unfolding close_at
  closes-Holds now p before after e =
      stepped _ (before ++ after)
        (more (close_at-Keeps now y.store v.kept p (get_elem? y.store.heap p) refl))
        (AllBelow-middle (length y.store.heap) before p after
          (subst (AllBelow (length y.store.heap)) e v.below)).1

Step-Holds :
    (h : Handler) (n : ℕ) {y z : World}
    → suc n < sign_bit
    → Step h y z
    → Holds n y
    → Holds (suc n) z
Step-Holds h n l (creates {y = y} now later body) v =
    same_closing n y v _
      (create_session-Keeps h now later body y.store v.kept (omega (arith, v.count)))
Step-Holds h n l (deletes {y = y} now id) v =
    same_closing n y v _ (more (deletes-Keeps y.store v.kept h now id))
Step-Holds h n l (submits {y = y} now later id body) v =
    same_closing n y v _ (more (submits-Keeps y.store v.kept h now later id body))
Step-Holds h n l (cancels {y = y} id statement_id) v =
    same_closing n y v _ (more (cancels-Keeps y.store v.kept h id statement_id))
Step-Holds h n l (starts {y = y} p i) v =
    same_closing n y v _ (more (starts-Keeps y.store v.kept p i))
Step-Holds h n l (watches {y = y} p i) v =
    same_closing n y v _ (more (watches-Keeps y.store v.kept p i))
Step-Holds h n l (finishes {y = y} p i now later res {s = s} e) v =
    stepped n y v _ _ (more (finishes-Keeps y.store v.kept p i now later res s e)) (
      AllBelow-append (length y.store.heap) y.closing _ v.below (
        started-AllBelow (length y.store.heap) p (finish_statement now later i res s).1
          (get_elem?-lt y.store.heap p e)))
Step-Holds h n l (reorders {y = y} r) v =
    same_closing n y v _ (more (reordered-Keeps y.store v.kept r))
Step-Holds h n l (cleans_up {y = y} now) v = cleans_up-Holds n y v now
Step-Holds h n l (closes {y = y} now p before after e) v = closes-Holds n y v now p before after e
Step-Holds h n l (probes {y = y} flags b) v =
    same_closing n y v _ (more (startup_probe-Keeps flags b y.store v.kept))
Step-Holds h n l (shuts_down {y = y} now) v =
    same_closing n y v _ (more (closes_all-Keeps now y.store v.kept))

pub Reach-Holds :
    (h : Handler) (flags : Flags) (n : ℕ) {y : World}
    → n < sign_bit
    → Reach h (booted flags) n y
    → Holds n y
unfolding booted start new_manager
Reach-Holds h flags zero l here = record {
  kept = record { inv = record { count = 0; next = refl; good = tt }; sound = tt };
  count = omega arith;
  below = tt;
}
Reach-Holds h flags (suc n) l (next r s) =
    Step-Holds h n l s (Reach-Holds h flags n (omega arith) r)
