-- ===== src/World/Keeps.antt =====
-- What each step keeps.
use livy_next.Prelude.{
  ℕ, ◌≡◌, refl, sym, ◌∙◌, ap, false, List, Option, none, some, Text, arith, length, get_elem?, set,
  Option-cases, Bool-cases, inl, inr, is_empty,
}
use livy_next.Prelude.Int.{ℤ}
use livy_next.Session.Types.{Session, QueryResult}
use livy_next.Session.Lifecycle.{is_terminal}
use livy_next.Session.Statements as Session
use livy_next.Session.Statements.{
  start_statement, finish_statement, watch_close, cancel_statement, is_cancelled, update_busy_state,
}
use livy_next.Session.Statements.Steps.{
  start_missing, finish_missing, start_runs, start_skips, finish_records, finish_keeps_cancelled,
  cancel_cases, watch_cases,
}
use livy_next.Session.Run.Closing.{
  Sound, submit-Sound, start-Sound, finish-Sound, watch-Sound, cancel-Sound,
}
use livy_next.Manager.{Store, get_session_by_identifier, delete_session_by_identifier}
use livy_next.Manager.Order.{Reorders, reordered, Good-Reorders}
use livy_next.Manager.Shutdown.{AllSound-at}
use livy_next.Manager.Spec.Keeps.{Kept, Keeps, set-Keeps, delete_found-Keeps}
use livy_next.Strconv.{atoi}
use livy_next.Api.Types.{Handler, CreateStatementRequest}
use livy_next.Api.Sessions.{update_session}
use livy_next.Api.Sessions as Sessions
use livy_next.Api.Statements.{
  submit_statement, submit_found, submit_code, pointed, find_session, cancel_found, cancel_at,
}
use livy_next.Api.Statements as Statements

update_busy-id : (s : Session) → (update_busy_state s).id ≡ s.id
unfolding update_busy_state
update_busy-id s = ground arith

start-id : (i : ℕ) (s : Session) → (start_statement i s).0.id ≡ s.id
start-id i s = elim (Option-cases (get_elem? s.statements i)) [
  | inl e ↦ rw (start_missing i s e) refl
  | inr (st, e) ↦ elim (Bool-cases (is_cancelled st.state)) [
    | inl c ↦ rw (start_skips i s e c) refl
    | inr c ↦ rw (start_runs i s e c) refl
  ]
]

finish-id :
    (now later : ℤ) (i : ℕ) (res : Option QueryResult × Option Text) (s : Session)
    → (finish_statement now later i res s).0.id ≡ s.id
finish-id now later i res s = elim (Option-cases (get_elem? s.statements i)) [
  | inl e ↦ rw (finish_missing i s e now later res) refl
  | inr (st, e) ↦ elim (Bool-cases (is_cancelled st.state)) [
    | inl c ↦ rw (finish_keeps_cancelled i s e now later res c) (update_busy-id _)
    | inr c ↦ rw (finish_records i s e now later res c) (update_busy-id _)
  ]
]

watch-id : (i : ℕ) (s : Session) → (watch_close i s).id ≡ s.id
watch-id i s = elim (watch_cases i s) [ inl e ↦ rw e refl | inr (st, e, h) ↦ rw h refl ]

cancel-id : (id : ℤ) (s : Session) → (cancel_statement id s).0.id ≡ s.id
cancel-id id s = elim (cancel_cases id s) [
  | inl e ↦ rw e refl
  | inr (i, st, e, a, h) ↦ rw h (update_busy-id _)
]

submit-id :
    (now later : ℤ) (code : Text) (tags : List Text) (s : Session)
    → (Session.submit_statement now later code tags s).0.id ≡ s.id
unfolding Session.submit_statement
submit-id now later code tags s = refl

at_pointer : ℕ → Option Session → Option (ℕ × Session)
at_pointer q none = none
at_pointer q (some s) = some (q, s)

pointed-get :
    (o : Option ℕ) (heap : List Session) {p : ℕ} {s : Session}
    → pointed o heap ≡ some (p, s)
    → get_elem? heap p ≡ some s
unfolding at_pointer
pointed-get none heap h = cc
pointed-get (some q) heap {p} {s} h = elim (Option-cases (get_elem? heap q)) [
  | inl e ↦ (let c : at_pointer q none ≡ some (p, s) = sym (ap (at_pointer q) e) ∙ h in absurd cc)
  | inr (t, e) ↦
      (let c : at_pointer q (some t) ≡ some (p, s) = sym (ap (at_pointer q) e) ∙ h in ground arith)
]

find_session-get :
    (id : Text) (w : Store) {p : ℕ} {s : Session}
    → find_session id w ≡ some (p, s)
    → get_elem? w.heap p ≡ some s
unfolding find_session
find_session-get id w h = pointed-get (get_session_by_identifier id w) w.heap h

module _ (w : Store) (k : Kept w) where
  update-Keeps :
      (p : ℕ) (f : Session → Session)
      → ((s : Session) → (f s).id ≡ s.id)
      → ((s : Session) → Sound s → Sound (f s))
      → Keeps k.inv.count (length w.heap) (update_session p f w)
  unfolding update_session
  update-Keeps p f i v = elim (Option-cases (get_elem? w.heap p)) [
    | inl e ↦ rw (e, update_session) (k, omega arith, omega arith)
    | inr (s, e) ↦
        rw (e, update_session)
          (set-Keeps w k p s (f s) e (i s) (v s (AllSound-at w.heap p k.sound e)))
  ]

  pub starts-Keeps :
      (p i : ℕ)
      → Keeps k.inv.count (length w.heap) (update_session p (λ s. (start_statement i s).0) w)
  starts-Keeps p i = update-Keeps p (λ s. (start_statement i s).0) (start-id i) (start-Sound i)

  pub watches-Keeps :
      (p i : ℕ) → Keeps k.inv.count (length w.heap) (update_session p (watch_close i) w)
  watches-Keeps p i = update-Keeps p (watch_close i) (watch-id i) (watch-Sound i)

  pub finishes-Keeps :
      (p i : ℕ) (now later : ℤ) (res : Option QueryResult × Option Text) (s : Session)
      → get_elem? w.heap p ≡ some s
      → Keeps k.inv.count
          (length w.heap)
          (record w { heap = set w.heap p (finish_statement now later i res s).0 })
  finishes-Keeps p i now later res s e =
      set-Keeps w k p s _ e (finish-id now later i res s)
        (finish-Sound now later i res s (AllSound-at w.heap p k.sound e))

  pub reordered-Keeps :
      {m : List (ℤ × ℕ)}
      → Reorders w.manager.sessions m
      → Keeps k.inv.count (length w.heap) (reordered m w)
  reordered-Keeps r = (
    record {
      inv = record {
        count = k.inv.count;
        next = k.inv.next;
        good = Good-Reorders k.inv.count w.heap r k.inv.good;
      };
      sound = k.sound;
    },
    omega arith,
    omega arith,
  )

  submit_code-Keeps :
      (h : Handler) (now later : ℤ) (body : Option CreateStatementRequest) (p : ℕ) (s : Session)
      → get_elem? w.heap p ≡ some s
      → is_terminal s.state ≡ false
      → Keeps k.inv.count (length w.heap) (submit_code h now later body p s w).0
  unfolding submit_code
  submit_code-Keeps h now later none p s e l = (k, omega arith, omega arith)
  submit_code-Keeps h now later (some req) p s e l = elim (Bool-cases (is_empty req.code)) [
    | inl c ↦ rw c (k, omega arith, omega arith)
    | inr c ↦ rw c (
        set-Keeps w k p s _ e (submit-id now later req.code req.tags s) (
          submit-Sound now later req.code req.tags s (ground arith)
            (AllSound-at w.heap p k.sound e)))
  ]

  submit_found-Keeps :
      (h : Handler) (now later : ℤ) (body : Option CreateStatementRequest)
      (o : Option (ℕ × Session))
      → ((p : ℕ) (s : Session) → o ≡ some (p, s) → get_elem? w.heap p ≡ some s)
      → Keeps k.inv.count (length w.heap) (submit_found h now later body o w).0
  unfolding submit_found
  submit_found-Keeps h now later body none f = (k, omega arith, omega arith)
  submit_found-Keeps h now later body (some (p, s)) f = elim (Bool-cases (is_terminal s.state)) [
    | inl c ↦ rw c (k, omega arith, omega arith)
    | inr c ↦ rw c (submit_code-Keeps h now later body p s (f p s refl) c)
  ]

  pub submits-Keeps :
      (h : Handler) (now later : ℤ) (id : Text) (body : Option CreateStatementRequest)
      → Keeps k.inv.count (length w.heap) (submit_statement h now later id body w).0
  unfolding submit_statement
  submits-Keeps h now later id body =
      submit_found-Keeps h now later body (find_session id w) (λ p s e. find_session-get id w e)

  cancel_found-Keeps :
      (h : Handler) (n : Option ℤ) (o : Option (ℕ × Session))
      → ((p : ℕ) (s : Session) → o ≡ some (p, s) → get_elem? w.heap p ≡ some s)
      → Keeps k.inv.count (length w.heap) (cancel_found h n o w).0
  unfolding cancel_found cancel_at
  cancel_found-Keeps h n none f = (k, omega arith, omega arith)
  cancel_found-Keeps h none (some (p, s)) f = (k, omega arith, omega arith)
  cancel_found-Keeps h (some n) (some (p, s)) f =
      set-Keeps w k p s _ (f p s refl) (cancel-id n s)
        (cancel-Sound n s (AllSound-at w.heap p k.sound (f p s refl)))

  pub cancels-Keeps :
      (h : Handler) (id statement_id : Text)
      → Keeps k.inv.count (length w.heap) (Statements.cancel_statement h id statement_id w).0
  unfolding Statements.cancel_statement
  cancels-Keeps h id statement_id =
      cancel_found-Keeps h (atoi statement_id) (find_session id w)
        (λ p s e. find_session-get id w e)

  pub deletes-Keeps :
      (h : Handler) (now : ℤ) (id : Text)
      → Keeps k.inv.count (length w.heap) (Sessions.delete_session h now id w).0
  unfolding Sessions.delete_session delete_session_by_identifier
  deletes-Keeps h now id = delete_found-Keeps now w k (get_session_by_identifier id w)
