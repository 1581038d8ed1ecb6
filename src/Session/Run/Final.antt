-- ===== src/Session/Run/Final.antt =====
-- What never changes in a statement, and what no longer changes once it is over.
use livy_next.Prelude.{
  ℕ, zero, suc, ◌≡◌, refl, ◌∙◌, ap, subst, inl, inr, Bool, true, false, List, [], ◌∷◌, Option, none,
  some, arith, get_elem?, set, Text, Bool-cases, get_elem?-lt, get_elem?-append_lt,
}
use livy_next.Prelude.Int.{ℤ}
use livy_next.Session.Types.{Session, Statement, QueryResult}
use livy_next.Session.Lifecycle.{add_log, set_idle_timeout, set_app_info}
use livy_next.Session.Lifecycle.Close.{close-statements}
use livy_next.Session.Statements.{
  is_active, is_cancelled, submit_statement, put_statement, begin_run, record_result, complete,
  stop, cancel_statement, watch_close,
}
use livy_next.Session.Statements.Steps.{
  stopped, start_runs, start_skips, finish_records, finish_keeps_cancelled, cancel_cases,
  watch_cases,
}
use livy_next.Session.Run.{
  ready, executing, System, submit, start, finish, Step, submits, starts, finishes, watches,
  cancels, closes, logs, sets_timeout, sets_app_info, Reach, here, next,
}
use livy_next.Session.Run.Fit.{AllFit-statement}
use livy_next.Session.Run.Tidy.{Inv, update_busy-statements, ready-active, executing-active}
use livy_next.Session.Run.Invariant.{Reach-Inv}

-- st' is st at a later time.
pub record Later (st st' : Statement) : Type 0 where
  pub same_id : st'.id ≡ st.id
  pub same_code : st'.code ≡ st.code
  pub same_tags : st'.tags ≡ st.tags
  pub same_started : st'.started ≡ st.started
  pub over : is_active st.state ≡ false → (st'.state ≡ st.state) × (st'.output ≡ st.output)

Later-refl : (st : Statement) → Later st st
Later-refl st = record {
  same_id = refl;
  same_code = refl;
  same_tags = refl;
  same_started = refl;
  over = λ h. (refl, refl);
}

Later-trans : {a b c : Statement} → Later a b → Later b c → Later a c
Later-trans {a} {b} {c} p q = record {
  same_id = q.same_id ∙ p.same_id;
  same_code = q.same_code ∙ p.same_code;
  same_tags = q.same_tags ∙ p.same_tags;
  same_started = q.same_started ∙ p.same_started;
  over = λ h. let (e, o) = p.over h in let (f, r) = q.over (ap is_active e ∙ h) in (f ∙ e, r ∙ o);
}

-- The statement at that place, later.
abbrev pub Kept : ℕ → Statement → List Statement → Type 0
Kept i st sts = (st' : Statement) × (get_elem? sts i ≡ some st') × Later st st'

set-Kept :
    (sts : List Statement) (j : ℕ) {old : Statement} (new : Statement) (i : ℕ) {st : Statement}
    → get_elem? sts j ≡ some old
    → Later old new
    → get_elem? sts i ≡ some st
    → Kept i st (set sts j new)
set-Kept [] j new i e l h = cc
set-Kept (x ∷ sts) zero {old = old} new zero {st = st} e l h =
    let p : old ≡ st = cc in (new, refl, subst (λ a. Later a new) p l)
set-Kept (x ∷ sts) zero new (suc i) {st} e l h = (st, h, Later-refl st)
set-Kept (x ∷ sts) (suc j) new zero {st} e l h = (st, h, Later-refl st)
set-Kept (x ∷ sts) (suc j) new (suc i) e l h = set-Kept sts j new i e l h

begin_run-Later : (st : Statement) → is_active st.state ≡ true → Later st (begin_run st)
unfolding begin_run
begin_run-Later st a = ground arith

complete-Later : (now : ℤ) (st : Statement) → Later st (complete now st)
unfolding complete
complete-Later now st = ground arith

record_result-Later :
    (now : ℤ) (res : Option QueryResult × Option Text) (st : Statement)
    → is_active st.state ≡ true
    → Later st (record_result res (complete now st))
unfolding record_result complete
record_result-Later now (r, none) st a = ground arith
record_result-Later now (r, some x) st a = ground arith

stop-Later : (st : Statement) → is_active st.state ≡ true → Later st (stop st)
unfolding stop
stop-Later st a = ground arith

module _ (i : ℕ) (y : System) (v : Inv y) {st : Statement}
    (h : get_elem? y.session.statements i ≡ some st) where
  start-Kept : (j : ℕ) → get_elem? y.tasks j ≡ some ready → Kept i st (start j y).session.statements
  unfolding start
  start-Kept j g =
      let (old, e) = AllFit-statement 0 y.session.statements y.tasks j v.fitting g in
      elim (Bool-cases (is_cancelled old.state)) [
        | inl c ↦ rw (start_skips j y.session e c) (st, h, Later-refl st)
        | inr c ↦ rw (start_runs j y.session e c) (
            set-Kept y.session.statements j (begin_run old) i e
              (begin_run-Later old (ready-active j y v e g c)) h)
      ]

  finish-Kept :
      (now later : ℤ) (j : ℕ) (res : Option QueryResult × Option Text)
      → get_elem? y.tasks j ≡ some executing
      → Kept i st (finish now later j res y).session.statements
  unfolding finish
  finish-Kept now later j res g =
      let (old, e) = AllFit-statement 0 y.session.statements y.tasks j v.fitting g in
      elim (Bool-cases (is_cancelled old.state)) [
        | inl c ↦ rw (finish_keeps_cancelled j y.session e now later res c) (
            rw (update_busy-statements (put_statement j (complete now old) y.session))
              (set-Kept y.session.statements j (complete now old) i e (complete-Later now old) h))
        | inr c ↦ rw (finish_records j y.session e now later res c) (
            rw
              (update_busy-statements
                (put_statement j (record_result res (complete now old)) y.session))
              (set-Kept y.session.statements j (record_result res (complete now old)) i e
                (record_result-Later now res old (executing-active j y v e g c)) h))
      ]

  watch-Kept : (j : ℕ) → Kept i st (watch_close j y.session).statements
  watch-Kept j = elim (watch_cases j y.session) [
    | inl e ↦ rw e (st, h, Later-refl st)
    | inr (old, e, p) ↦ rw p (set-Kept y.session.statements j _ i e (ground arith) h)
  ]

  cancel-Kept : (id : ℤ) → Kept i st (cancel_statement id y.session).0.statements
  cancel-Kept id = elim (cancel_cases id y.session) [
    | inl e ↦ rw e (st, h, Later-refl st)
    | inr (j, old, e, a, p) ↦ rw p (
        rw (update_busy-statements (stopped j old y.session))
          (set-Kept y.session.statements j (stop old) i e (stop-Later old a) h))
  ]

  submit-Kept :
      (now later : ℤ) (code : Text) (tags : List Text)
      → Kept i st (submit now later code tags y).session.statements
  unfolding submit submit_statement
  submit-Kept now later code tags = (
    st,
    get_elem?-append_lt y.session.statements _ i (get_elem?-lt y.session.statements i h) ∙ h,
    Later-refl st,
  )

-- One step keeps a statement's number, code, tags and start, and all of a statement that is over.
pub Step-Kept :
    {admit : Session → Bool} {y z : System} (i : ℕ) {st : Statement}
    → Step admit y z
    → Inv y
    → get_elem? y.session.statements i ≡ some st
    → Kept i st z.session.statements
Step-Kept i {st} (submits {y = y} now later code tags a) v h =
    submit-Kept i y v h now later code tags
Step-Kept i (starts {y = y} j g) v h = start-Kept i y v h j g
Step-Kept i (finishes {y = y} now later j res g) v h = finish-Kept i y v h now later j res g
Step-Kept i (watches {y = y} j) v h = watch-Kept i y v h j
Step-Kept i (cancels {y = y} id) v h = cancel-Kept i y v h id
Step-Kept i {st} (closes {y = y} now) v h =
    rw (close-statements now y.session) (st, h, Later-refl st)
Step-Kept i {st} (logs msg) v h = unfold add_log in (st, h, Later-refl st)
Step-Kept i {st} (sets_timeout d) v h = unfold set_idle_timeout in (st, h, Later-refl st)
Step-Kept i {st} (sets_app_info a ui hist) v h = unfold set_app_info in (st, h, Later-refl st)

-- From a system that keeps the invariant, every run leaves each statement at its place with the
-- same number, code, tags and start; and if it was neither waiting nor running, with the same
-- state and output.
pub Reach-Kept :
    {admit : Session → Bool} {y z : System} (i : ℕ) {st : Statement}
    → Inv y
    → Reach admit y z
    → get_elem? y.session.statements i ≡ some st
    → Kept i st z.session.statements
Reach-Kept i {st} v here h = (st, h, Later-refl st)
Reach-Kept i v (next r s) h =
    let (a, e, l) = Reach-Kept i v r h in
    let (b, f, m) = Step-Kept i s (Reach-Inv v r) e in (b, f, Later-trans l m)
