-- ===== src/Manager/Registry.antt =====
-- The registry stays well formed: numbers are unique and below the next one, and each leads to the
-- session that has it.
use livy_next.Prelude.{
  ℕ, suc, ◌<◌, ◌≤◌, ◌≡◌, refl, ◌∙◌, false, List, [], ◌∷◌, ◌++◌, Option, none, some, arith, length,
  get_elem?, get_elem?-append_lt, get_elem?-append_last, get_elem?-lt, if◌then◌else◌,
}
use livy_next.Prelude.Assoc.{lookup, insert, int_key, lookup-insert}
use livy_next.Prelude.Int.{ℤ, pos, eqb_ℤ, ◌+ℤ◌}
use livy_next.Prelude.Int64.{wrap64, sign_bit}
use livy_next.Session.Types.{Session, SessionCreateParams, SparkClient}
use livy_next.Session.Lifecycle.{new_session}
use livy_next.Manager.{Store, create_session, get_session}

-- The pointer leads to a session with that number.
abbrev pub Points : List Session → ℤ → ℕ → Type 0
Points heap id p = (s : Session) × (get_elem? heap p ≡ some s) × (s.id ≡ id)

-- The entries of the map, when n numbers have been given out.
abbrev pub Good : ℕ → List Session → List (ℤ × ℕ) → Type 0
Good n heap [] = Unit {0}
Good n heap ((id, p) ∷ m) =
    ((k : ℕ) × (id ≡ pos k) × (k < n)) × (lookup id m ≡ none) × Points heap id p × Good n heap m

pub record Inv (w : Store) : Type 0 where
  pub count : ℕ
  pub next : w.manager.next_id ≡ pos count
  pub good : Good count w.heap w.manager.sessions

pub Good-heap :
    (n n' : ℕ) (heap heap' : List Session) (m : List (ℤ × ℕ))
    → n ≤ n'
    → ((id : ℤ) (p : ℕ) → Points heap id p → Points heap' id p)
    → Good n heap m
    → Good n' heap' m
Good-heap n n' heap heap' [] l f g = tt
Good-heap n n' heap heap' ((id, p) ∷ m) l f (((k, e, b), a, q, g)) =
    ((k, e, omega arith), a, f id p q, Good-heap n n' heap heap' m l f g)

Good-fresh :
    (n : ℕ) (heap : List Session) (m : List (ℤ × ℕ)) → Good n heap m → lookup (pos n) m ≡ none
unfolding lookup
Good-fresh n heap [] g = refl
Good-fresh n heap ((id, p) ∷ m) ((k, e, b), a, q, g) = ground (arith, Good-fresh n heap m g)

-- A key that is put in does not disturb another one.
lookup-insert_ne :
    (id j : ℤ) (p : ℕ) (m : List (ℤ × ℕ))
    → eqb_ℤ id j ≡ false
    → lookup id m ≡ none
    → lookup id (insert j p m) ≡ none
lookup-insert_ne id j p m h e = rw (lookup-insert j id p m) (ground arith)

pub lookup-cons_none :
    (id j : ℤ) (p : ℕ) (m : List (ℤ × ℕ))
    → lookup j ((id, p) ∷ m) ≡ none
    → (eqb_ℤ id j ≡ false) × (lookup j m ≡ none)
unfolding lookup
lookup-cons_none id j p m h = ground arith

insert-cons_ne :
    (id j : ℤ) (p r : ℕ) (m : List (ℤ × ℕ))
    → eqb_ℤ id j ≡ false
    → insert j p ((id, r) ∷ m) ≡ (id, r) ∷ insert j p m
unfolding insert
insert-cons_ne id j p r m h = rw h

Good-insert :
    (n j : ℕ) (heap : List Session) (p : ℕ) (m : List (ℤ × ℕ))
    → j < n
    → lookup (pos j) m ≡ none
    → Points heap (pos j) p
    → Good n heap m
    → Good n heap (insert (pos j) p m)
unfolding insert
Good-insert n j heap p [] b a q g = ((j, refl, b), unfold lookup in refl, q, tt)
Good-insert n j heap p ((id, r) ∷ m) b a q (k, d, s, g) =
    let (f, a') = lookup-cons_none id (pos j) r m a in
    rw (insert-cons_ne id (pos j) p r m f)
      (k, lookup-insert_ne id (pos j) p m f d, s, Good-insert n j heap p m b a' q g)

Points-append :
    (heap : List Session) (s : Session) (id : ℤ) (p : ℕ)
    → Points heap id p
    → Points (heap ++ s ∷ []) id p
Points-append heap s id p (t, e, f) =
    (t, get_elem?-append_lt heap (s ∷ []) p (get_elem?-lt heap p e) ∙ e, f)

pub new_session-id :
    (now id : ℤ) (params : SessionCreateParams) (client : Option SparkClient)
    → (new_session now id params client).id ≡ id
unfolding new_session
new_session-id now id params client = refl

pub wrap64-suc : (n : ℕ) → suc n < sign_bit → wrap64 (pos n +ℤ pos 1) ≡ pos (suc n)
unfolding wrap64 ◌+ℤ◌
wrap64-suc n h = ground arith

-- CreateSession keeps the registry well formed, if the number after the next one still fits an
-- int: numbers are unique and below the next one, and each leads to the session that has it.
pub create_session-Inv :
    (now : ℤ) (params : SessionCreateParams) (client : Option SparkClient) (w : Store) (v : Inv w)
    → suc v.count < sign_bit
    → Inv (create_session now params client w).0
unfolding create_session
create_session-Inv now params client w v h = record {
  count = suc v.count;
  next = rw v.next (wrap64-suc v.count h);
  good = rw v.next (
      Good-insert (suc v.count) v.count _ (length w.heap) w.manager.sessions (omega arith)
        (Good-fresh v.count w.heap w.manager.sessions v.good)
        (_, get_elem?-append_last w.heap _, new_session-id now (pos v.count) params client)
        (Good-heap v.count (suc v.count) w.heap _ w.manager.sessions (omega arith)
          (Points-append w.heap _) v.good));
}

-- In a well-formed registry the next number leads to no session; after CreateSession it leads to
-- the new session, which is the one that NewSession makes with that number, and every other
-- number leads where it led before.
pub get_session-create_session :
    (now id : ℤ) (params : SessionCreateParams) (client : Option SparkClient) (w : Store)
    → Inv w
    → (get_session w.manager.next_id w ≡ none)
      × (get_session id (create_session now params client w).0 ≡ (
          if eqb_ℤ w.manager.next_id id
          then some (create_session now params client w).1
          else get_session id w))
      × (get_elem?
            (create_session now params client w).0.heap
            (create_session now params client w).1
          ≡ some (new_session now w.manager.next_id params client))
unfolding get_session create_session
get_session-create_session now id params client w v = (
  rw v.next (Good-fresh v.count w.heap w.manager.sessions v.good),
  lookup-insert w.manager.next_id id (length w.heap) w.manager.sessions,
  get_elem?-append_last w.heap _,
)
