-- ===== src/Manager/Lock.antt =====
-- The lock of a session (a sync.RWMutex of Go) in the first loop of cleanupIdleSessions, which locks it
-- for reading and, for a session that is not dead, once more in GetIdleTimeout
-- (pkg/session/session.go). A call of RLock waits while a writer has the lock or waits for it.
use livy_next.Prelude.{ℕ, suc, ◌+◌, ◌-◌, ◌<◌, ◌≡◌, refl, Bool, true, false, arith}

pub record RwMutex : Type 0 where
  pub readers : ℕ
  pub writing : Bool
  pub waiting : ℕ

-- Before sess.mu.RLock, before and after the call of GetIdleTimeout, and after sess.mu.RUnlock; in
-- between, in GetIdleTimeout with the lock.
pub data Place : Type 0 where
  outside outer inner back past : Place

pub record Visit : Type 0 where
  pub mu : RwMutex
  pub place : Place

-- How often the clean-up has the lock.
abbrev held : Place → ℕ
held outside = 0
held outer = 1
held inner = 2
held back = 1
held past = 0

-- A step of the clean-up at a session that is not dead, of a writer of the session, or of another
-- reader.
pub data Move : Visit → Visit → Type 0 where
  locks :
      {r : ℕ}
      → Move
          (record { mu = record { readers = r; writing = false; waiting = 0 }; place = outside })
          (record { mu = record { readers = suc r; writing = false; waiting = 0 }; place = outer })
  locks_again :
      {r : ℕ}
      → Move
          (record { mu = record { readers = r; writing = false; waiting = 0 }; place = outer })
          (record { mu = record { readers = suc r; writing = false; waiting = 0 }; place = inner })
  unlocks_again :
      {m : RwMutex}
      → Move
          (record { mu = m; place = inner })
          (record { mu = record m { readers = m.readers - 1 }; place = back })
  unlocks :
      {m : RwMutex}
      → Move
          (record { mu = m; place = back })
          (record { mu = record m { readers = m.readers - 1 }; place = past })
  writer_calls :
      {m : RwMutex} {p : Place}
      → Move
          (record { mu = m; place = p })
          (record { mu = record m { waiting = suc m.waiting }; place = p })
  writer_enters :
      {n : ℕ} {p : Place}
      → Move
          (record { mu = record { readers = 0; writing = false; waiting = suc n }; place = p })
          (record { mu = record { readers = 0; writing = true; waiting = n }; place = p })
  writer_leaves :
      {r n : ℕ} {p : Place}
      → Move
          (record { mu = record { readers = r; writing = true; waiting = n }; place = p })
          (record { mu = record { readers = r; writing = false; waiting = n }; place = p })
  reader_enters :
      {r : ℕ} {p : Place}
      → Move
          (record { mu = record { readers = r; writing = false; waiting = 0 }; place = p })
          (record { mu = record { readers = suc r; writing = false; waiting = 0 }; place = p })
  reader_leaves :
      (r : ℕ) {n : ℕ} {p : Place}
      → Move
          (record {
            mu = record { readers = suc (held p + r); writing = false; waiting = n };
            place = p;
          })
          (record { mu = record { readers = held p + r; writing = false; waiting = n }; place = p })

pub data Moves (y : Visit) : Visit → Type 0 where
  here : Moves y y
  next : {z w : Visit} → Moves y z → Move z w → Moves y w

-- The clean-up has the lock once and wants it again, and a writer waits.
pub record Stuck (y : Visit) : Type 0 where
  pub at_outer : y.place ≡ outer
  pub has_reader : 0 < y.mu.readers
  pub no_writer : y.mu.writing ≡ false
  pub has_waiting : 0 < y.mu.waiting

Move-Stuck : {y z : Visit} → Move y z → Stuck y → Stuck z
Move-Stuck (locks {r = r}) s = absurd (let h : 0 < 0 = s.has_waiting in omega arith)
Move-Stuck (locks_again {r = r}) s = absurd (let h : 0 < 0 = s.has_waiting in omega arith)
Move-Stuck (unlocks_again {m = m}) s = absurd (let h : inner ≡ outer = s.at_outer in cc)
Move-Stuck (unlocks {m = m}) s = absurd (let h : back ≡ outer = s.at_outer in cc)
Move-Stuck (writer_calls {m = m} {p = p}) s = record {
  at_outer = s.at_outer;
  has_reader = s.has_reader;
  no_writer = s.no_writer;
  has_waiting = omega arith;
}
Move-Stuck (writer_enters {n = n} {p = p}) s = absurd (let h : 0 < 0 = s.has_reader in omega arith)
Move-Stuck (writer_leaves {r = r} {n = n} {p = p}) s =
    absurd (let h : true ≡ false = s.no_writer in cc)
Move-Stuck (reader_enters {r = r} {p = p}) s = absurd (let h : 0 < 0 = s.has_waiting in omega arith)
Move-Stuck (reader_leaves r {n = n} {p = p}) s = record {
  at_outer = s.at_outer;
  has_reader = (let e : p ≡ outer = s.at_outer in rw e (omega arith));
  no_writer = refl;
  has_waiting = s.has_waiting;
}

pub Moves-Stuck : {y z : Visit} → Moves y z → Stuck y → Stuck z
Moves-Stuck here s = s
Moves-Stuck (next r m) s = Move-Stuck m (Moves-Stuck r s)

-- From a lock that no writer has or waits for, with any readers, there is a run that ends where the
-- clean-up has the lock once, and from there no run takes it any further, whatever the other readers
-- and writers do.
pub clean_up_blocks :
    (r : ℕ)
    → (y : Visit) × Moves
        (record { mu = record { readers = r; writing = false; waiting = 0 }; place = outside })
        y
      × ((z : Visit) → Moves y z → z.place ≡ outer)
clean_up_blocks r = (
  record { mu = record { readers = suc r; writing = false; waiting = 1 }; place = outer },
  next (next here locks) writer_calls,
  λ z m.
      (Moves-Stuck m (record {
        at_outer = refl;
        has_reader = omega arith;
        no_writer = refl;
        has_waiting = omega arith;
      })).at_outer,
)
