-- ===== src/Session/Run/Tidy.antt =====
-- The invariant of a session with its goroutines, and what a change of one statement leaves of it.
use livy_next.Prelude.{
  ℕ, ◌≡◌, refl, true, false, ◌||◌, List, [], ◌∷◌, ◌++◌, Option, none, some, arith, get_elem?, set,
  Text, subst, set-get_elem?,
}
use livy_next.Prelude.Int.{ℤ}
use livy_next.Session.Types.{Session, SessionCreateParams, SparkClient, QueryResult, Statement}
use livy_next.Session.Lifecycle.{is_terminal, new_session, set_state}
use livy_next.Session.Statements.{
  is_active, is_busy, is_cancelled, any_active, update_busy_state, submit_statement, new_statement,
  put_statement, begin_run, record_result, complete, stop,
}
use livy_next.Session.Run.{Task, ready, executing, finished, System, boot, submit}
use livy_next.Session.Run.Fit.{
  Fits, AllFit, AllFit-at, AllFit-set, AllFit-append, Fits-at, any_active-append,
  any_active-set_inactive,
}

-- The state of the session agrees with its statements: it is busy only while one is waiting or
-- running, and while one is, it is busy or terminated.
pub record Tidy (s : Session) : Type 0 where
  pub busy_active : is_busy s.state ≡ true → any_active s.statements ≡ true
  pub active_busy : any_active s.statements ≡ true → (is_busy s.state || is_terminal s.state) ≡ true

pub record Inv (y : System) : Type 0 where
  pub fitting : AllFit 0 y.session.statements y.tasks
  pub tidy : Tidy y.session

pub boot-Inv :
    (now later id : ℤ) (params : SessionCreateParams) (client : Option SparkClient)
    → Inv (boot now later id params client)
unfolding boot new_session set_state any_active
boot-Inv now later id params client = record {
  fitting = tt;
  tidy = record { busy_active = λ h. cc; active_busy = λ h. cc };
}

pub update_busy-Tidy :
    (s : Session)
    → (any_active s.statements ≡ true → (is_busy s.state || is_terminal s.state) ≡ true)
    → Tidy (update_busy_state s)
unfolding update_busy_state
update_busy-Tidy s h = ground arith

pub submit-Inv :
    (now later : ℤ) (code : Text) (tags : List Text) (y : System)
    → Inv y
    → Inv (submit now later code tags y)
unfolding submit submit_statement new_statement
submit-Inv now later code tags y v = record {
  fitting = AllFit-append 0 y.session.statements y.tasks _ _ v.fitting (ground arith);
  tidy = record {
    busy_active = λ _. any_active-append y.session.statements _ refl;
    active_busy = λ _. refl;
  };
}

-- A statement is replaced by one that fits, and the busy state is brought up to date.
pub update_busy-at :
    (s : Session) (i : ℕ) (st : Statement)
    → Tidy s
    → is_active st.state ≡ false
    → Tidy (update_busy_state (put_statement i st s))
update_busy-at s i st t a =
    update_busy-Tidy (put_statement i st s)
      λ h. t.active_busy (any_active-set_inactive s.statements i st a h)

pub update_busy-statements : (s : Session) → (update_busy_state s).statements ≡ s.statements
unfolding update_busy_state
update_busy-statements s = ground arith

pub complete_inactive :
    (now : ℤ) (st : Statement)
    → is_cancelled st.state ≡ true
    → is_active (complete now st).state ≡ false
unfolding complete
complete_inactive now st c = ground arith

pub record_result_inactive :
    (res : Option QueryResult × Option Text) (st : Statement)
    → is_active (record_result res st).state ≡ false
unfolding record_result
record_result_inactive (r, none) st = refl
record_result_inactive (r, some x) st = refl

pub stop_inactive : (st : Statement) → is_active (stop st).state ≡ false
unfolding stop
stop_inactive st = refl

module _ (i : ℕ) (y : System) (v : Inv y) {st : Statement}
    (e : get_elem? y.session.statements i ≡ some st) where
  pub begin_run-Fits :
      get_elem? y.tasks i ≡ some ready
      → is_cancelled st.state ≡ false
      → Fits i (begin_run st) executing
  unfolding begin_run
  begin_run-Fits g c = ground (arith, AllFit-at 0 y.session.statements y.tasks i v.fitting e g)

  pub ready-active :
      get_elem? y.tasks i ≡ some ready → is_cancelled st.state ≡ false → is_active st.state ≡ true
  ready-active g c = ground (arith, AllFit-at 0 y.session.statements y.tasks i v.fitting e g)

  pub executing-active :
      get_elem? y.tasks i ≡ some executing
      → is_cancelled st.state ≡ false
      → is_active st.state ≡ true
  executing-active g c = ground (arith, AllFit-at 0 y.session.statements y.tasks i v.fitting e g)

  pub skipped-Fits :
      {t : Task} → get_elem? y.tasks i ≡ some t → is_cancelled st.state ≡ true → Fits i st finished
  skipped-Fits g c = ground (arith, AllFit-at 0 y.session.statements y.tasks i v.fitting e g)

  pub complete-Fits :
      (now : ℤ) {t : Task}
      → get_elem? y.tasks i ≡ some t
      → is_cancelled st.state ≡ true
      → Fits i (complete now st) finished
  unfolding complete
  complete-Fits now g c = ground (arith, AllFit-at 0 y.session.statements y.tasks i v.fitting e g)

  pub record_result-Fits :
      (now : ℤ) (res : Option QueryResult × Option Text)
      → get_elem? y.tasks i ≡ some executing
      → Fits i (record_result res (complete now st)) finished
  unfolding record_result complete
  record_result-Fits now (r, none) g =
      ground (arith, AllFit-at 0 y.session.statements y.tasks i v.fitting e g)
  record_result-Fits now (r, some x) g =
      ground (arith, AllFit-at 0 y.session.statements y.tasks i v.fitting e g)

  pub stop-Fits : {t : Task} → get_elem? y.tasks i ≡ some t → Fits i (stop st) t
  unfolding stop
  stop-Fits g = ground (arith, AllFit-at 0 y.session.statements y.tasks i v.fitting e g)

  -- The lists after a change of the statement and of its goroutine.
  pub put-fitting :
      (st' : Statement) (t : Task)
      → Fits i st' t
      → AllFit 0 (set y.session.statements i st') (set y.tasks i t)
  put-fitting st' t f =
      AllFit-set 0 y.session.statements y.tasks i st' t v.fitting (Fits-at f (omega arith))

  pub keep-fitting :
      (st' : Statement) {t : Task}
      → get_elem? y.tasks i ≡ some t
      → Fits i st' t
      → AllFit 0 (set y.session.statements i st') y.tasks
  keep-fitting st' {t} g f =
      subst (λ ts. AllFit 0 (set y.session.statements i st') ts) (set-get_elem? y.tasks i g)
        (put-fitting st' t f)

  -- The session after a result, and the goroutine at its end.
  pub put_result :
      (st' : Statement) (msg : Text) (later : ℤ)
      → Fits i st' finished
      → is_active st'.state ≡ false
      → Inv (record {
        session = record (update_busy_state (put_statement i st' y.session)) {
          log = y.session.log ++ msg ∷ [];
          last_activity = later;
        };
        tasks = set y.tasks i finished;
      })
  put_result st' msg later f a =
      let t : Tidy (update_busy_state (put_statement i st' y.session)) =
        update_busy-at y.session i st' v.tidy a in
      record {
        fitting =
            rw (update_busy-statements (put_statement i st' y.session))
              (put-fitting st' finished f);
        tidy = record { busy_active = t.busy_active; active_busy = t.active_busy };
      }
