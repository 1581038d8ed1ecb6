-- ===== src/Session/Statements/Steps.antt =====
-- Each method of a statement, at a statement whose state is known.
use livy_next.Prelude.{
  ℕ, ◌≤◌, ◌≡◌, true, false, [], ◌∷◌, ◌++◌, Option, none, some, length, get_elem?, Text, codes,
  get_elem?-lt, get_elem?-some, ◌⊎◌, inl, inr, Bool-cases, Option-cases, if◌then◌else◌,
}
use livy_next.Prelude.Int.{ℤ, pos, pos_part}
use livy_next.Session.Types.{Session, QueryResult, Statement}
use livy_next.Session.Statements.{
  is_active, is_cancelled, update_busy_state, start_statement, watch_close, finish_statement,
  cancel_statement, put_statement, begin_run, start_at, watch_at, finish_at, cancel_at, stop,
  record_result, complete, cancel_context, result_log, lost_by, is_no_index_pos, is_no_index_iff,
  is_no_index, is_no_index-false,
}

-- The session after a cancellation of the statement, before the busy state is brought up to date.
abbrev pub stopped : ℕ → Statement → Session → Session
stopped i st s = record (put_statement i (stop st) s) {
  log = s.log ++ codes "Statement execution cancelled by user" ∷ [];
}

module _ (i : ℕ) (s : Session) {st : Statement} (e : get_elem? s.statements i ≡ some st) where
  pub start_runs :
      is_cancelled st.state ≡ false → start_statement i s ≡ (put_statement i (begin_run st) s, true)
  unfolding start_statement
  start_runs c = rw (e, start_at) (rw c)

  pub start_skips : is_cancelled st.state ≡ true → start_statement i s ≡ (s, false)
  unfolding start_statement
  start_skips c = rw (e, start_at) (rw c)

  pub watch_at_close : watch_close i s ≡ (
      if s.close_ch
      then put_statement i (record st { cancel_func = cancel_context st.cancel_func }) s
      else s)
  unfolding watch_close
  watch_at_close = rw (e, watch_at)

  pub cancel_stops :
      is_active st.state ≡ true
      → cancel_statement (pos i) s ≡ (update_busy_state (stopped i st s), true)
  unfolding cancel_statement
  cancel_stops c = rw (is_no_index_pos (get_elem?-lt s.statements i e)) (rw (e, cancel_at) (rw c))

  pub cancel_refuses : is_active st.state ≡ false → cancel_statement (pos i) s ≡ (s, false)
  unfolding cancel_statement
  cancel_refuses c = rw (is_no_index_pos (get_elem?-lt s.statements i e)) (rw (e, cancel_at) (rw c))

  module _ (now later : ℤ) (res : Option QueryResult × Option Text) where
    pub finish_records :
        is_cancelled st.state ≡ false
        → finish_statement now later i res s ≡ (
          record (update_busy_state (put_statement i (record_result res (complete now st)) s)) {
            log = s.log ++ result_log res.1 ∷ [];
            last_activity = later;
          },
          lost_by res.1,
        )
    unfolding finish_statement
    finish_records c = rw (e, finish_at) (rw c)

    pub finish_keeps_cancelled :
        is_cancelled st.state ≡ true
        → finish_statement now later i res s
          ≡ (update_busy_state (put_statement i (complete now st) s), false)
    unfolding finish_statement
    finish_keeps_cancelled c = rw (e, finish_at) (rw c)

module _ (i : ℕ) (s : Session) (e : get_elem? s.statements i ≡ none) where
  pub start_missing : start_statement i s ≡ (s, false)
  unfolding start_statement
  start_missing = rw (e, start_at)

  pub finish_missing :
      (now later : ℤ) (res : Option QueryResult × Option Text)
      → finish_statement now later i res s ≡ (s, false)
  unfolding finish_statement
  finish_missing now later res = rw (e, finish_at)

pub cancel_missing :
    (i : ℕ) (s : Session) → length s.statements ≤ i → cancel_statement (pos i) s ≡ (s, false)
unfolding cancel_statement
cancel_missing i s h = rw ((is_no_index_iff (pos i) (length s.statements)).1 (inr h))

-- A cancellation either changes nothing or stops one waiting or running statement.
pub cancel_cases :
    (id : ℤ) (s : Session)
    → (cancel_statement id s ≡ (s, false))
      ⊎ ((i : ℕ) × (st : Statement) × (get_elem? s.statements i ≡ some st)
          × (is_active st.state ≡ true)
          × (cancel_statement id s ≡ (update_busy_state (stopped i st s), true)))
unfolding cancel_statement
cancel_cases id s = elim (Bool-cases (is_no_index id (length s.statements))) [
  | inl e ↦ inl (rw e)
  | inr e ↦
      let (st, g) = get_elem?-some s.statements (pos_part id) (is_no_index-false id _ e) in
      elim (Bool-cases (is_active st.state)) [
        | inl a ↦ inr (pos_part id, st, g, a, rw e (rw (g, cancel_at) (rw a)))
        | inr a ↦ inl (rw e (rw (g, cancel_at) (rw a)))
      ]
]

-- The watcher either changes nothing or cancels the context of one statement.
pub watch_cases :
    (i : ℕ) (s : Session)
    → (watch_close i s ≡ s)
      ⊎ ((st : Statement) × (get_elem? s.statements i ≡ some st)
          × (watch_close i s
              ≡ put_statement i (record st { cancel_func = cancel_context st.cancel_func }) s))
unfolding watch_close
watch_cases i s = elim (Option-cases (get_elem? s.statements i)) [
  | inl e ↦ inl (rw (e, watch_at))
  | inr (st, e) ↦ elim (Bool-cases s.close_ch) [
    | inl c ↦ inr (st, e, rw (e, watch_at) (rw c))
    | inr c ↦ inl (rw (e, watch_at) (rw c))
  ]
]
