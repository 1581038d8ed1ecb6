-- ===== src/Api/Sessions/Ending.antt =====
-- DeleteSession on every branch, and what SubmitStatement answers after it.
use livy_next.Prelude.{
  ℕ, ◌≡◌, refl, ◌∙◌, ap, true, false, List, [], ◌∷◌, ◌++◌, Option, none, some, codes, Text, set,
  Option-cases, inl, inr,
}
use livy_next.Prelude.Int.{ℤ}
use livy_next.Prelude.Outcome.{value}
use livy_next.Session.Types.{Session, SparkClient, dead}
use livy_next.Session.Lifecycle.{
  is_terminal, close, close_state, client_close, begin_close, finish_close,
}
use livy_next.Session.Lifecycle.Close.{close-is_terminal, close-session_id, close_open}
use livy_next.Manager.{Store, deleted, get_session_by_identifier}
use livy_next.Manager.Order.{Reorders, reordered, Settled}
use livy_next.Manager.Shutdown.{delete_missing, delete_at}
use livy_next.Api.Types.{
  Handler, Response, msg, CreateStatementRequest, respond_json, respond_error,
}
use livy_next.Api.Sessions.{delete_session, delete_reply}
use livy_next.Api.Statements.{find_session, submit_statement}
use livy_next.Api.Statements.Replies.{submit_terminated}
use livy_next.Api.Statements.Found.{find_session-some, find_session-reordered}

-- What DeleteSession answers, by the error of the client's Close.
abbrev pub close_reply : Handler → Option Text → Response
close_reply h none = respond_json h 200 (msg (codes "deleted"))
close_reply h (some e) = respond_error h 404 e

pub deleted-close_reply :
    (h : Handler) (o : Option Text) → delete_reply h (deleted o) ≡ value (close_reply h o)
unfolding delete_reply
deleted-close_reply h none = refl
deleted-close_reply h (some e) = refl

reply-client :
    (h : Handler) (o : Option SparkClient)
    → close_reply h (client_close o) ≡ elim o [
      | none ↦ respond_json h 200 (msg (codes "deleted"))
      | some c ↦ elim c.close_error [
        | none ↦ respond_json h 200 (msg (codes "deleted"))
        | some e ↦ respond_error h 404 e
      ]
    ]
unfolding client_close
reply-client h none = refl
reply-client h (some c) = elim (Option-cases c.close_error) [
  | inl e ↦ rw e refl
  | inr (t, e) ↦ rw e refl
]

module _ (h : Handler) (now : ℤ) (id : Text) (w : Store) where
  -- A session that is not found.
  pub delete_session_missing :
      get_session_by_identifier id w ≡ none
      → delete_session h now id w ≡ (w, value (respond_error h 404 (codes "session not found")))
  unfolding delete_session
  delete_session_missing e = rw (delete_missing now id w e, delete_reply)

  delete_live_at :
      {p : ℕ} {s : Session}
      → find_session id w ≡ some (p, s)
      → is_terminal s.state ≡ false
      → s.close_ch ≡ false
      → delete_session h now id w ≡ (
        record w { heap = set w.heap p (finish_close now (begin_close s)) },
        value (close_reply h (client_close s.client)),
      )
  unfolding delete_session
  delete_live_at {p} {s} e t c =
      let (g, k) = find_session-some id w e in
      rw (delete_at now id w g k, close_open now s t c)
        (rw (deleted-close_reply h (client_close s.client)))

  -- DeleteSession of a session that is found, is neither dead nor shutting down and has an open
  -- channel leaves the manager and every other session as they were and that session dead, with
  -- its channel closed, the time as its last activity, two lines added to its log and nothing
  -- else changed; it answers 200, or 404 with the error that the Close of its client returns.
  pub delete_session_live :
      {p : ℕ} {s : Session}
      → find_session id w ≡ some (p, s)
      → is_terminal s.state ≡ false
      → s.close_ch ≡ false
      → delete_session h now id w ≡ (
        record w {
          heap = set w.heap p (record s {
            state = dead;
            close_ch = true;
            last_activity = now;
            log = s.log ++ codes "Session shutting down" ∷ [] ++ codes "Session terminated" ∷ [];
          });
        },
        value (elim s.client [
          | none ↦ respond_json h 200 (msg (codes "deleted"))
          | some c ↦ elim c.close_error [
            | none ↦ respond_json h 200 (msg (codes "deleted"))
            | some e ↦ respond_error h 404 e
          ]
        ]),
      )
  unfolding begin_close finish_close
  delete_session_live {p} {s} e t c =
      delete_live_at e t c
      ∙ ap
          (λ (r : Response).
            (record w { heap = set w.heap p (finish_close now (begin_close s)) }, value r))
          (reply-client h s.client)

  -- The heap after DeleteSession of a session that is found.
  delete_session-heap :
      {p : ℕ} {s : Session}
      → find_session id w ≡ some (p, s)
      → (delete_session h now id w).0 ≡ record w { heap = set w.heap p (close_state (close now s)) }
  unfolding delete_session
  delete_session-heap e = let (g, k) = find_session-some id w e in rw (delete_at now id w g k)

  -- After a DeleteSession of the session that an identifier leads to, in a well-formed registry,
  -- where the identifier is the number of that session or no other session of the map has it for
  -- its session UUID, and whatever the order in which the later lookup visits the map,
  -- SubmitStatement with the same identifier changes nothing and answers 400.
  pub submit_statement-delete_session :
      (now1 later : ℤ) (body : Option CreateStatementRequest) {p : ℕ} {s : Session}
      {m : List (ℤ × ℕ)}
      → find_session id w ≡ some (p, s)
      → Settled id w p
      → Reorders w.manager.sessions m
      → submit_statement h now1 later id body (reordered m (delete_session h now id w).0) ≡ (
        reordered m (delete_session h now id w).0,
        respond_error h 400 (codes "Cannot submit statement to a terminated session"),
      )
  submit_statement-delete_session now1 later body {p} {s} e v r = rw (delete_session-heap e) (
      submit_terminated h now1 later id _ body
        (find_session-reordered id w (close_state (close now s)) e v r (close-session_id now s))
        (close-is_terminal now s))
