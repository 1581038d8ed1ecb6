-- ===== src/Session/Run/Fit.antt =====
-- How a statement's fields agree with where its goroutine stands.
use livy_next.Prelude.{
  ℕ, zero, suc, ◌+◌, ◌<◌, ◌≡◌, refl, subst, Bool, true, false, not, List, [], ◌∷◌, ◌++◌, Option,
  none, some, arith, length, get_elem?, set,
}
use livy_next.Prelude.Int.{pos}
use livy_next.Session.Types.{
  Statement, StatementState, waiting, running, available, error, cancelled,
}
use livy_next.Session.Statements.{is_active, any_active}
use livy_next.Session.Run.{Task, ready, executing, finished}

-- The states that a statement may have while its goroutine stands there.
abbrev pub agrees : StatementState → Task → Bool
agrees cancelled t = true
agrees waiting ready = true
agrees running executing = true
agrees available finished = true
agrees error finished = true
agrees _ _ = false

abbrev pub is_some {ℓ} : {A : Type ℓ} → Option A → Bool
is_some none = false
is_some (some a) = true

-- Statement k: its number is its place, its state agrees with its goroutine, and it has an output
-- exactly when it is neither waiting nor running.
pub record Fits (k : ℕ) (st : Statement) (t : Task) : Type 0 where
  pub numbered : st.id ≡ pos k
  pub agreeing : agrees st.state t ≡ true
  pub settled : is_some st.output ≡ not (is_active st.state)

abbrev pub AllFit : ℕ → List Statement → List Task → Type 0
AllFit k [] [] = Unit {0}
AllFit k [] (t ∷ ts) = ⊥
AllFit k (st ∷ sts) [] = ⊥
AllFit k (st ∷ sts) (t ∷ ts) = Fits k st t × AllFit (suc k) sts ts

pub Fits-at : {j k : ℕ} {st : Statement} {t : Task} → Fits j st t → j ≡ k → Fits k st t
Fits-at {j} {k} {st} {t} h e = subst (λ n. Fits n st t) e h

pub AllFit-at :
    (k : ℕ) (sts : List Statement) (ts : List Task) (i : ℕ) {st : Statement} {t : Task}
    → AllFit k sts ts
    → get_elem? sts i ≡ some st
    → get_elem? ts i ≡ some t
    → Fits (k + i) st t
AllFit-at k [] [] i f e g = cc
AllFit-at k [] (t ∷ ts) i f e g = absurd f
AllFit-at k (st ∷ sts) [] i f e g = absurd f
AllFit-at k (x ∷ sts) (y ∷ ts) zero f e g = ground arith
AllFit-at k (x ∷ sts) (y ∷ ts) (suc i) f e g =
    Fits-at (AllFit-at (suc k) sts ts i f.1 e g) (omega arith)

pub AllFit-task :
    (k : ℕ) (sts : List Statement) (ts : List Task) (i : ℕ) {st : Statement}
    → AllFit k sts ts
    → get_elem? sts i ≡ some st
    → (t : Task) × (get_elem? ts i ≡ some t)
AllFit-task k [] [] i f e = cc
AllFit-task k [] (t ∷ ts) i f e = absurd f
AllFit-task k (st ∷ sts) [] i f e = absurd f
AllFit-task k (x ∷ sts) (y ∷ ts) zero f e = (y, refl)
AllFit-task k (x ∷ sts) (y ∷ ts) (suc i) f e = AllFit-task (suc k) sts ts i f.1 e

pub AllFit-statement :
    (k : ℕ) (sts : List Statement) (ts : List Task) (i : ℕ) {t : Task}
    → AllFit k sts ts
    → get_elem? ts i ≡ some t
    → (st : Statement) × (get_elem? sts i ≡ some st)
AllFit-statement k [] [] i f e = cc
AllFit-statement k [] (t ∷ ts) i f e = absurd f
AllFit-statement k (st ∷ sts) [] i f e = absurd f
AllFit-statement k (x ∷ sts) (y ∷ ts) zero f e = (x, refl)
AllFit-statement k (x ∷ sts) (y ∷ ts) (suc i) f e = AllFit-statement (suc k) sts ts i f.1 e

pub AllFit-set :
    (k : ℕ) (sts : List Statement) (ts : List Task) (i : ℕ) (st : Statement) (t : Task)
    → AllFit k sts ts
    → Fits (k + i) st t
    → AllFit k (set sts i st) (set ts i t)
AllFit-set k [] [] i st t f h = tt
AllFit-set k [] (y ∷ ts) i st t f h = absurd f
AllFit-set k (x ∷ sts) [] i st t f h = absurd f
AllFit-set k (x ∷ sts) (y ∷ ts) zero st t f h = (Fits-at h (omega arith), f.1)
AllFit-set k (x ∷ sts) (y ∷ ts) (suc i) st t f h =
    (f.0, AllFit-set (suc k) sts ts i st t f.1 (Fits-at h (omega arith)))

pub AllFit-append :
    (k : ℕ) (sts : List Statement) (ts : List Task) (st : Statement) (t : Task)
    → AllFit k sts ts
    → Fits (k + length sts) st t
    → AllFit k (sts ++ st ∷ []) (ts ++ t ∷ [])
AllFit-append k [] [] st t f h = (Fits-at h (omega arith), tt)
AllFit-append k [] (y ∷ ts) st t f h = absurd f
AllFit-append k (x ∷ sts) [] st t f h = absurd f
AllFit-append k (x ∷ sts) (y ∷ ts) st t f h =
    (f.0, AllFit-append (suc k) sts ts st t f.1 (Fits-at h (omega arith)))

-- What a change of one statement does to the test of updateBusyStateLocked.
pub any_active-set_active :
    (sts : List Statement) (i : ℕ) (st : Statement)
    → i < length sts
    → is_active st.state ≡ true
    → any_active (set sts i st) ≡ true
unfolding any_active
any_active-set_active [] i st h e = absurd (omega arith)
any_active-set_active (x ∷ sts) zero st h e = ground arith
any_active-set_active (x ∷ sts) (suc i) st h e =
    ground (arith, any_active-set_active sts i st (omega arith) e)

pub any_active-set_same :
    (sts : List Statement) (i : ℕ) (st st' : Statement)
    → get_elem? sts i ≡ some st
    → st'.state ≡ st.state
    → any_active (set sts i st') ≡ any_active sts
unfolding any_active
any_active-set_same [] i st st' h e = refl
any_active-set_same (x ∷ sts) zero st st' h e = ground arith
any_active-set_same (x ∷ sts) (suc i) st st' h e =
    ground (arith, any_active-set_same sts i st st' h e)

pub any_active-append :
    (sts : List Statement) (st : Statement)
    → is_active st.state ≡ true
    → any_active (sts ++ st ∷ []) ≡ true
unfolding any_active
any_active-append [] st e = ground arith
any_active-append (x ∷ sts) st e = ground (arith, any_active-append sts st e)

pub any_active-set_inactive :
    (sts : List Statement) (i : ℕ) (st : Statement)
    → is_active st.state ≡ false
    → any_active (set sts i st) ≡ true
    → any_active sts ≡ true
unfolding any_active
any_active-set_inactive [] i st e h = h
any_active-set_inactive (x ∷ sts) zero st e h = ground arith
any_active-set_inactive (x ∷ sts) (suc i) st e h =
    ground (arith, any_active-set_inactive sts i st e)

pub any_active-at :
    (sts : List Statement) (i : ℕ) {st : Statement}
    → get_elem? sts i ≡ some st
    → is_active st.state ≡ true
    → any_active sts ≡ true
unfolding any_active
any_active-at [] i e h = cc
any_active-at (x ∷ sts) zero e h = ground arith
any_active-at (x ∷ sts) (suc i) e h = ground (arith, any_active-at sts i e h)
