-- ===== src/Session/Run/Invariant.antt =====
-- What holds of a session and its goroutines in every interleaving.
use livy_next.Prelude.{
  ℕ, ◌≡◌, refl, inl, inr, Bool, true, Option, some, arith, get_elem?, set, Text, Bool-cases,
  get_elem?-lt, subst, set-get_elem?,
}
use livy_next.Prelude.Int.{ℤ}
use livy_next.Session.Types.{
  Session, Context, SessionCreateParams, SparkClient, QueryResult, Statement,
}
use livy_next.Session.Lifecycle.{
  is_terminal, add_log, set_idle_timeout, close, close_state, set_app_info,
}
use livy_next.Session.Lifecycle.Close.{close-statements, close-is_terminal}
use livy_next.Session.Statements.{
  is_cancelled, update_busy_state, put_statement, begin_run, record_result, complete, stop,
  cancel_context, result_log,
}
use livy_next.Session.Statements.Steps.{
  stopped, start_runs, start_skips, finish_records, finish_keeps_cancelled, cancel_cases,
  watch_cases,
}
use livy_next.Session.Run.{
  ready, executing, finished, System, boot, start, finish, on_session, Step, submits, starts,
  finishes, watches, cancels, closes, logs, sets_timeout, sets_app_info, Reach, here, next,
}
use livy_next.Session.Run.Fit.{
  Fits, AllFit, AllFit-at, AllFit-task, AllFit-statement, Fits-at, any_active-set_active,
  any_active-set_same, any_active-set_inactive, any_active-at,
}
use livy_next.Session.Run.Tidy.{
  Tidy, Inv, boot-Inv, update_busy-Tidy, submit-Inv, update_busy-at, update_busy-statements,
  complete_inactive, record_result-Fits, record_result_inactive, stop_inactive, begin_run-Fits,
  ready-active, skipped-Fits, complete-Fits, stop-Fits, put-fitting, keep-fitting, put_result,
}

module _ (i : ℕ) (y : System) (v : Inv y) {st : Statement}
    (e : get_elem? y.session.statements i ≡ some st) where
  start-Inv : get_elem? y.tasks i ≡ some ready → Inv (start i y)
  unfolding start
  start-Inv g = elim (Bool-cases (is_cancelled st.state)) [
    | inl c ↦ rw (start_skips i y.session e c) (record {
      fitting =
          subst (λ sts. AllFit 0 sts (set y.tasks i finished))
            (set-get_elem? y.session.statements i e)
            (put-fitting i y v e st finished (skipped-Fits i y v e g c));
      tidy = v.tidy;
    })
    | inr c ↦ rw (start_runs i y.session e c) (record {
      fitting = put-fitting i y v e _ executing (begin_run-Fits i y v e g c);
      tidy = record {
        busy_active = λ _.
            any_active-set_active y.session.statements i (begin_run st)
              (get_elem?-lt y.session.statements i e) (unfold begin_run in refl);
        active_busy = λ _.
            v.tidy.active_busy (any_active-at y.session.statements i e (ready-active i y v e g c));
      };
    })
  ]

  finish-Inv :
      (now later : ℤ) (res : Option QueryResult × Option Text)
      → get_elem? y.tasks i ≡ some executing
      → Inv (finish now later i res y)
  unfolding finish
  finish-Inv now later res g = elim (Bool-cases (is_cancelled st.state)) [
    | inl c ↦ rw (finish_keeps_cancelled i y.session e now later res c) (record {
      fitting =
          rw (update_busy-statements (put_statement i (complete now st) y.session))
            (put-fitting i y v e _ finished (complete-Fits i y v e now g c));
      tidy = update_busy-at y.session i (complete now st) v.tidy (complete_inactive now st c);
    })
    | inr c ↦ rw (finish_records i y.session e now later res c) (
        put_result i y v e (record_result res (complete now st)) (result_log res.1) later
          (record_result-Fits i y v e now res g) (record_result_inactive res (complete now st)))
  ]

  cancel-Inv : Inv (record y { session = update_busy_state (stopped i st y.session) })
  cancel-Inv =
      let (t, g) = AllFit-task 0 y.session.statements y.tasks i v.fitting e in
      record {
        fitting =
            rw (update_busy-statements (stopped i st y.session))
              (keep-fitting i y v e (stop st) g (stop-Fits i y v e g));
        tidy = update_busy-Tidy (stopped i st y.session) λ h.
            v.tidy.active_busy
              (any_active-set_inactive y.session.statements i (stop st) (stop_inactive st) h);
      }

  watch-Inv :
      (c : Option Context)
      → Inv (record y { session = put_statement i (record st { cancel_func = c }) y.session })
  watch-Inv c =
      let (t, g) = AllFit-task 0 y.session.statements y.tasks i v.fitting e in
      let f : Fits i st t =
        Fits-at (AllFit-at 0 y.session.statements y.tasks i v.fitting e g) (omega arith) in
      record {
        fitting =
            keep-fitting i y v e (record st { cancel_func = c }) g
              (record { numbered = f.numbered; agreeing = f.agreeing; settled = f.settled });
        tidy = ground (
          arith,
          v.tidy,
          any_active-set_same y.session.statements i st (record st { cancel_func = c }) e refl,
        );
      }

-- The methods that leave the statements and the state alone.
same-Inv :
    (y : System) (s : Session)
    → Inv y
    → s.statements ≡ y.session.statements
    → s.state ≡ y.session.state
    → Inv (record y { session = s })
same-Inv y s v e f = record {
  fitting = rw e v.fitting;
  tidy = record {
    busy_active = λ h. rw e (v.tidy.busy_active (rw f at h));
    active_busy = λ h. rw f (v.tidy.active_busy (rw e at h));
  };
}

terminal-Tidy : (s : Session) → is_terminal s.state ≡ true → Tidy s
terminal-Tidy s h = record { busy_active = ground arith; active_busy = ground arith }

close-Inv : (now : ℤ) (y : System) → Inv y → Inv (on_session (λ s. close_state (close now s)) y)
close-Inv now y v = record {
  fitting = rw (close-statements now y.session) v.fitting;
  tidy = terminal-Tidy (close_state (close now y.session)) (close-is_terminal now y.session);
}

-- Every step, whatever is known when a statement is submitted.
pub Step-Inv : {admit : Session → Bool} {y z : System} → Step admit y z → Inv y → Inv z
Step-Inv (submits {y = y} now later code tags a) v = submit-Inv now later code tags y v
Step-Inv (starts {y = y} i g) v =
    let (st, e) = AllFit-statement 0 y.session.statements y.tasks i v.fitting g in
    start-Inv i y v e g
Step-Inv (finishes {y = y} now later i res g) v =
    let (st, e) = AllFit-statement 0 y.session.statements y.tasks i v.fitting g in
    finish-Inv i y v e now later res g
Step-Inv (watches {y = y} i) v = elim (watch_cases i y.session) [
  | inl e ↦ rw e v
  | inr (st, e, h) ↦ rw h (watch-Inv i y v e (cancel_context st.cancel_func))
]
Step-Inv (cancels {y = y} id) v = elim (cancel_cases id y.session) [
  | inl e ↦ rw e v
  | inr (i, st, e, a, h) ↦ rw h (cancel-Inv i y v e)
]
Step-Inv (closes {y = y} now) v = close-Inv now y v
Step-Inv (logs {y = y} msg) v =
    same-Inv y (add_log msg y.session) v (unfold add_log in refl) (unfold add_log in refl)
Step-Inv (sets_timeout {y = y} d) v =
    same-Inv y (set_idle_timeout d y.session) v (unfold set_idle_timeout in refl)
      (unfold set_idle_timeout in refl)
Step-Inv (sets_app_info {y = y} a ui h) v =
    same-Inv y (set_app_info a ui h y.session) v (unfold set_app_info in refl)
      (unfold set_app_info in refl)

pub Reach-Inv : {admit : Session → Bool} {y z : System} → Inv y → Reach admit y z → Inv z
Reach-Inv v here = v
Reach-Inv v (next r st) = Step-Inv st (Reach-Inv v r)

-- In every run of a new session, in every interleaving of its statements, their goroutines,
-- cancellations and Close, whatever is known of the session when a statement is submitted:
-- statement k has the number k, its state agrees with where its goroutine stands, it has an
-- output exactly when it is neither waiting nor running, the session is busy only while some
-- statement is waiting or running, and while one is, the session is busy or terminated.
pub boot-Reach-Inv :
    (now later id : ℤ) (params : SessionCreateParams) (client : Option SparkClient)
    {admit : Session → Bool} {z : System}
    → Reach admit (boot now later id params client) z
    → Inv z
boot-Reach-Inv now later id params client r = Reach-Inv (boot-Inv now later id params client) r
