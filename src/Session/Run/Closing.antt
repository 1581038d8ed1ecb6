-- ===== src/Session/Run/Closing.antt =====
-- When Close may panic: closeCh is closed at most once as long as no statement is submitted to a
-- session that has been closed.
use livy_next.Prelude.{
  ℕ, ◌≡◌, refl, ◌≢◌, sym, ◌∙◌, ap, inl, inr, Bool, true, not, List, Option, none, arith, get_elem?,
  Text, Option-cases, Bool-cases,
}
use livy_next.Prelude.Int.{ℤ}
use livy_next.Session.Types.{
  Session, SessionCreateParams, SparkClient, QueryResult, dead, busy, shutting_down,
}
use livy_next.Session.Lifecycle.{
  CloseResult, returned, panicked, is_terminal, new_session, set_state, add_log, set_idle_timeout,
  close, close_state, begin_close, finish_close, set_app_info,
}
use livy_next.Session.Lifecycle.Close.{close-is_terminal, close_terminal, close_open, close_closed}
use livy_next.Session.Statements.{
  is_cancelled, update_busy_state, submit_statement, put_statement, start_statement, watch_close,
  finish_statement, cancel_statement,
}
use livy_next.Session.Statements.Steps.{
  start_missing, finish_missing, stopped, start_runs, start_skips, finish_records,
  finish_keeps_cancelled, cancel_cases, watch_cases,
}
use livy_next.Session.Run.{
  System, boot, submit, start, finish, on_session, Step, submits, starts, finishes, watches,
  cancels, closes, logs, sets_timeout, sets_app_info, Reach, here, next, anyone,
}

-- What the handler SubmitStatement tests: the session is neither dead nor shutting down.
abbrev pub live : Session → Bool
live s = not (is_terminal s.state)

-- The channel is closed exactly in a dead session, and no session is left half closed.
pub record Sound (s : Session) : Type 0 where
  pub closed : s.close_ch ≡ is_terminal s.state
  pub whole : s.state ≢ shutting_down

boot-Sound :
    (now later id : ℤ) (params : SessionCreateParams) (client : Option SparkClient)
    → Sound (boot now later id params client).session
unfolding boot new_session set_state
boot-Sound now later id params client = record { closed = refl; whole = λ e. cc }

-- A change of the statements and of the busy state.
update_busy-Sound : (s : Session) → Sound s → Sound (update_busy_state s)
unfolding update_busy_state
update_busy-Sound s v = ground arith

pub same-Sound : (s t : Session) → Sound s → t.close_ch ≡ s.close_ch → t.state ≡ s.state → Sound t
same-Sound s t v e f = ground arith

pub submit-Sound :
    (now later : ℤ) (code : Text) (tags : List Text) (s : Session)
    → live s ≡ true
    → Sound s
    → Sound (submit_statement now later code tags s).0
unfolding submit_statement
submit-Sound now later code tags s a v = ground arith

pub start-Sound : (i : ℕ) (s : Session) → Sound s → Sound (start_statement i s).0
start-Sound i s v = elim (Option-cases (get_elem? s.statements i)) [
  | inl e ↦ rw (start_missing i s e) v
  | inr (st, e) ↦ elim (Bool-cases (is_cancelled st.state)) [
    | inl c ↦ rw (start_skips i s e c) v
    | inr c ↦ rw (start_runs i s e c) (same-Sound s _ v refl refl)
  ]
]

pub finish-Sound :
    (now later : ℤ) (i : ℕ) (res : Option QueryResult × Option Text) (s : Session)
    → Sound s
    → Sound (finish_statement now later i res s).0
finish-Sound now later i res s v = elim (Option-cases (get_elem? s.statements i)) [
  | inl e ↦ rw (finish_missing i s e now later res) v
  | inr (st, e) ↦ elim (Bool-cases (is_cancelled st.state)) [
    | inl c ↦
        rw (finish_keeps_cancelled i s e now later res c)
          (update_busy-Sound _ (same-Sound s _ v refl refl))
    | inr c ↦ rw (finish_records i s e now later res c) (
        same-Sound _ _ (update_busy-Sound _ (same-Sound s (put_statement i _ s) v refl refl)) refl
          refl)
  ]
]

pub watch-Sound : (i : ℕ) (s : Session) → Sound s → Sound (watch_close i s)
watch-Sound i s v = elim (watch_cases i s) [
  | inl e ↦ rw e v
  | inr (st, e, h) ↦ rw h (same-Sound s _ v refl refl)
]

pub cancel-Sound : (id : ℤ) (s : Session) → Sound s → Sound (cancel_statement id s).0
cancel-Sound id s v = elim (cancel_cases id s) [
  | inl e ↦ rw e v
  | inr (i, st, e, a, h) ↦ rw h (update_busy-Sound _ (same-Sound s (stopped i st s) v refl refl))
]

pub close-Sound : (now : ℤ) (s : Session) → Sound s → Sound (close_state (close now s))
unfolding close
close-Sound now s v = ground arith

pub Step-Sound : {y z : System} → Step live y z → Sound y.session → Sound z.session
Step-Sound (submits {y = y} now later code tags a) v =
    unfold submit in submit-Sound now later code tags y.session a v
Step-Sound (starts {y = y} i g) v = unfold start in start-Sound i y.session v
Step-Sound (finishes {y = y} now later i res g) v =
    unfold finish in finish-Sound now later i res y.session v
Step-Sound (watches {y = y} i) v = watch-Sound i y.session v
Step-Sound (cancels {y = y} id) v = cancel-Sound id y.session v
Step-Sound (closes {y = y} now) v = close-Sound now y.session v
Step-Sound (logs {y = y} msg) v = unfold add_log in same-Sound y.session _ v refl refl
Step-Sound (sets_timeout {y = y} d) v =
    unfold set_idle_timeout in same-Sound y.session _ v refl refl
Step-Sound (sets_app_info {y = y} a ui h) v =
    unfold set_app_info in same-Sound y.session _ v refl refl

Reach-Sound : {y z : System} → Sound y.session → Reach live y z → Sound z.session
Reach-Sound v here = v
Reach-Sound v (next r s) = Step-Sound s (Reach-Sound v r)

-- What Close did: it returned, and the session is dead with its channel closed.
abbrev pub Closes : Session → CloseResult → Type 0
Closes s (panicked t) = ⊥
Closes s (returned t e) = (t.state ≡ dead) × (t.close_ch ≡ true) × (t.statements ≡ s.statements)

pub close-Closes : (now : ℤ) (s : Session) → Sound s → Closes s (close now s)
unfolding finish_close begin_close
close-Closes now s v = elim (Bool-cases (is_terminal s.state)) [
  | inl t ↦ rw (close_terminal now s t) (ground arith)
  | inr t ↦ rw (close_open now s t (v.closed ∙ t)) (refl, refl, refl)
]

-- After every run of a new session in which statements are submitted only while the session is
-- neither dead nor shutting down, Close returns, with the session dead, its channel closed and
-- its statements as they were.
pub close_returns :
    (now later id : ℤ) (params : SessionCreateParams) (client : Option SparkClient) (then_ : ℤ)
    {z : System}
    → Reach live (boot now later id params client) z
    → Closes z.session (close then_ z.session)
close_returns now later id params client then_ {z} r =
    close-Closes then_ z.session (Reach-Sound (boot-Sound now later id params client) r)

-- If Close returns, a second Close of the session that it leaves changes nothing and returns no
-- error.
pub close_twice :
    (now later : ℤ) (s t : Session) {e : Option Text}
    → close now s ≡ returned t e
    → close later t ≡ returned t none
close_twice now later s t {e} h =
    close_terminal later t
      (ap (λ r. is_terminal (close_state r).state) (sym h) ∙ close-is_terminal now s)

-- SubmitStatement on a session whose channel is closed makes the session busy again, and the next
-- Close of it panics after it has set the state to shutting down.
pub submit_revives :
    (now later : ℤ) (code : Text) (tags : List Text) (then_ : ℤ) (s : Session)
    → s.close_ch ≡ true
    → let t = (submit_statement now later code tags s).0 in
      (t.state ≡ busy) × (close then_ t ≡ panicked (begin_close t))
unfolding submit_statement
submit_revives now later code tags then_ s c = (refl, close_closed then_ _ refl c)

boot_closed :
    (now later id : ℤ) (params : SessionCreateParams) (client : Option SparkClient)
    → (close_state (close later (boot now later id params client).session)).close_ch ≡ true
unfolding boot new_session set_state close
boot_closed now later id params client = refl

-- For every new session there is a run, in which a statement is submitted after a Close with
-- nothing known of the session, that ends in a system where every further Close panics.
pub panic_reachable :
    (now later id : ℤ) (params : SessionCreateParams) (client : Option SparkClient) (code : Text)
    (tags : List Text)
    → (z : System) × Reach anyone (boot now later id params client) z
      × ((then_ : ℤ) → (t : Session) × (close then_ z.session ≡ panicked t))
unfolding submit
panic_reachable now later id params client code tags =
    let y : System = boot now later id params client in
    let dying : System = on_session (λ s. close_state (close later s)) y in
    (
      submit now later code tags dying,
      next (next here (closes later)) (submits now later code tags refl),
      λ then_. (
        _,
        (submit_revives now later code tags then_ dying.session
            (boot_closed now later id params client)).1,
      ),
    )
