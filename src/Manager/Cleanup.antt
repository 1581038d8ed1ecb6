-- ===== src/Manager/Cleanup.antt =====
-- cleanupIdleSessions removes the sessions that have expired, and no others.
pub mod Expiry
use livy_next.Prelude.{
  ℕ, ◌≡◌, ◌↔◌, ◌⊎◌, sym, ap, subst, ◌≢◌, ◌<◌, suc, refl, ◌∙◌, inl, inr, Bool, true, false, List, [],
  ◌∷◌, Option, none, some, arith, get_elem?, if◌then◌else◌, Bool-cases, ◌||◌,
}
use livy_next.Prelude.Assoc.{lookup, remove, int_key, lookup-remove}
use livy_next.Prelude.Int.{ℤ, pos, negsuc, pos_part, ◌+ℤ◌, ◌-ℤ◌, ltb_ℤ, eqb_ℤ, eqb_ℤ→eq, eqb_ℤ_refl}
use livy_next.Prelude.Int64.{sign_bit, saturate64}
use livy_next.Session.Types.{Session, idle, starting, busy, dead}
use livy_next.Manager.{
  Manager, Store, is_expired, expired_at, to_delete, reap, cleanup_idle_sessions, get_session,
  inactive, effective_timeout,
}
use livy_next.Manager.Registry.{Good, Inv, lookup-cons_none}

abbrev has : ℤ → List ℤ → Bool
has id [] = false
has id (j ∷ js) = eqb_ℤ j id || has id js

lookup-reap :
    (id : ℤ) (gone : List ℤ) (m : List (ℤ × ℕ))
    → lookup id (reap gone m).0 ≡ (if has id gone then none else lookup id m)
unfolding reap
lookup-reap id [] m = refl
lookup-reap id (j ∷ gone) m =
    lookup-reap id gone (remove j m) ∙ ground (arith, lookup-remove j id m)

module _ (now : ℤ) (w : Store) where
  -- Whether what the map holds at a number has expired.
  abbrev pub expired_entry : Option ℕ → Bool
  expired_entry none = false
  expired_entry (some p) = expired_at now w p

  abbrev pub unexpired : Option ℕ → Option ℕ
  unexpired none = none
  unexpired (some p) = if expired_at now w p then none else some p

  has-to_delete :
      (n : ℕ) (heap : List Session) (id : ℤ) (m : List (ℤ × ℕ))
      → Good n heap m
      → has id (to_delete now w m) ≡ expired_entry (lookup id m)
  unfolding to_delete lookup
  has-to_delete n heap id [] g = refl
  has-to_delete n heap id ((j, p) ∷ m) (k, d, q, g) =
      ground (arith, has-to_delete n heap id m g, eqb_ℤ→eq j id)

  -- In a well-formed registry, after cleanupIdleSessions every number leads to the session that
  -- it led to before, unless that session has expired, and then to none.
  pub cleanup_lem :
      (id : ℤ)
      → Inv w
      → get_session id (cleanup_idle_sessions now w).0 ≡ unexpired (get_session id w)
  unfolding cleanup_idle_sessions get_session
  cleanup_lem id v =
      lookup-reap id (to_delete now w w.manager.sessions) w.manager.sessions
      ∙ ground (arith, has-to_delete v.count w.heap id w.manager.sessions v.good)

  -- The pointers of the expired entries, in the order of the map.
  unfoldable pub expired_pointers : List (ℤ × ℕ) → List ℕ
  expired_pointers [] = []
  expired_pointers ((id, p) ∷ m) =
      if expired_at now w p then p ∷ expired_pointers m else expired_pointers m

  -- Each entry of m is what the map m' holds.
  abbrev Holds : List (ℤ × ℕ) → List (ℤ × ℕ) → Type 0
  Holds [] m' = Unit {0}
  Holds ((id, p) ∷ m) m' = (lookup id m' ≡ some p) × Holds m m'

  Holds-remove :
      (id : ℤ) (m m' : List (ℤ × ℕ)) → lookup id m ≡ none → Holds m m' → Holds m (remove id m')
  Holds-remove id [] m' a h = tt
  Holds-remove id ((j, p) ∷ m) m' a h =
      let (f, a') = lookup-cons_none j id p m a in
      (lookup-remove id j m' ∙ ground arith, Holds-remove id m m' a' h.1)

  Holds-cons :
      (id : ℤ) (r : ℕ) (m m' : List (ℤ × ℕ))
      → lookup id m ≡ none
      → Holds m m'
      → Holds m ((id, r) ∷ m')
  unfolding lookup
  Holds-cons id r [] m' a h = tt
  Holds-cons id r ((j, p) ∷ m) m' a h =
      let (f, a') = lookup-cons_none j id p m a in (ground arith, Holds-cons id r m m' a' h.1)

  Holds-self : (n : ℕ) (heap : List Session) (m : List (ℤ × ℕ)) → Good n heap m → Holds m m
  unfolding lookup
  Holds-self n heap [] g = tt
  Holds-self n heap ((id, p) ∷ m) (k, d, q, g) =
      (ground (arith, eqb_ℤ_refl id), Holds-cons id p m m d (Holds-self n heap m g))

  reap-pointers :
      (n : ℕ) (heap : List Session) (m m' : List (ℤ × ℕ))
      → Good n heap m
      → Holds m m'
      → (reap (to_delete now w m) m').1 ≡ expired_pointers m
  unfolding to_delete expired_pointers reap
  reap-pointers n heap [] m' g h = refl
  reap-pointers n heap ((id, p) ∷ m) m' (k, d, q, g) (e, h) = ground (
    arith,
    reap-pointers n heap m m' g h,
    reap-pointers n heap m (remove id m') g (Holds-remove id m m' d h),
  )

  -- The goroutines that cleanupIdleSessions starts close the sessions that have expired, each
  -- once, in the order of the map.
  pub cleanup_closes : Inv w → (cleanup_idle_sessions now w).1 ≡ expired_pointers w.manager.sessions
  unfolding cleanup_idle_sessions
  cleanup_closes v =
      reap-pointers v.count w.heap w.manager.sessions w.manager.sessions v.good
        (Holds-self v.count w.heap w.manager.sessions v.good)

lookup-remove-none :
    (id j : ℤ) (m : List (ℤ × ℕ)) → lookup j m ≡ none → lookup j (remove id m) ≡ none
lookup-remove-none id j m h = lookup-remove id j m ∙ ground arith

pub Good-remove :
    (n : ℕ) (heap : List Session) (id : ℤ) (m : List (ℤ × ℕ))
    → Good n heap m
    → Good n heap (remove id m)
unfolding remove
Good-remove n heap id [] g = tt
Good-remove n heap id ((j, p) ∷ m) (k, d, q, g) = elim (Bool-cases (eqb_ℤ j id)) [
  | inl e ↦ rw e (Good-remove n heap id m g)
  | inr e ↦ rw e (k, lookup-remove-none id j m d, q, Good-remove n heap id m g)
]

Good-reap :
    (n : ℕ) (heap : List Session) (gone : List ℤ) (m : List (ℤ × ℕ))
    → Good n heap m
    → Good n heap (reap gone m).0
unfolding reap
Good-reap n heap [] m g = g
Good-reap n heap (id ∷ gone) m g = Good-reap n heap gone (remove id m) (Good-remove n heap id m g)

-- cleanupIdleSessions keeps the registry well formed.
pub cleanup-Inv : (now : ℤ) (w : Store) → Inv w → Inv (cleanup_idle_sessions now w).0
unfolding cleanup_idle_sessions
cleanup-Inv now w v = record {
  count = v.count;
  next = v.next;
  good = Good-reap v.count w.heap _ w.manager.sessions v.good;
}

-- In a well-formed registry cleanupIdleSessions never removes a busy session, whatever the time
-- and the timeouts.
pub cleanup_spares_busy :
    (now id : ℤ) (w : Store) {p : ℕ} {s : Session}
    → Inv w
    → get_session id w ≡ some p
    → get_elem? w.heap p ≡ some s
    → s.state ≡ busy
    → get_session id (cleanup_idle_sessions now w).0 ≡ some p
unfolding expired_at is_expired
cleanup_spares_busy now id w v e h b = cleanup_lem now w id v ∙ ground arith
