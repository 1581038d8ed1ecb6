-- ===== src/Api/Statements/Sequence.antt =====
-- What one request on a statement or a session says of a later one.
use livy_next.Prelude.{
  ◌⊎◌, ◌≤◌, ℕ, ◌<◌, ◌≡◌, refl, inl, inr, ◌∙◌, ap, true, false, [], Option, none, some, arith, Text,
  codes, length, get_elem?, set, get_elem?-set_self, get_elem?-lt, get_elem?-append_last,
  set-get_elem?, List,
}
use livy_next.Prelude.Int.{ℤ, pos}
use livy_next.Prelude.Int64.{sign_bit}
use livy_next.Prelude.Outcome.{value, map_outcome}
use livy_next.Session.Types.{Session, Statement, cancelled}
use livy_next.Session.Statements as Session
use livy_next.Session.Statements.{
  new_statement, is_active, stop, error_output, update_busy_state, put_statement,
}
use livy_next.Session.Statements.Steps.{cancel_stops, cancel_refuses, cancel_missing, stopped}
use livy_next.Session.Page as Page
use livy_next.Session.Page.{copy_statement}
use livy_next.Session.Page.Output.{get_statement_bare, get_statement_whole}
use livy_next.Strconv.Decimal.{show_nat, atoi-show_nat}
use livy_next.Manager.{Store}
use livy_next.Manager.Order.{Reorders, reordered, Settled}
use livy_next.Api.Types.{
  Handler, statement, msg, CreateStatementRequest, respond_json, respond_error,
}
use livy_next.Api.Query.{query_from, query_size}
use livy_next.Api.Statements.{
  find_session, submit_statement, get_statement, cancel_statement, get_found, get_at,
  statement_reply, cancel_found, cancel_at, cancel_reply,
}
use livy_next.Api.Statements.Found.{find_session-some, find_session-reordered}
use livy_next.Api.Statements.Replies.{Accepted, submit_accepted}

-- GetStatement of a found session, at a numeral.
get_statement_found :
    (h : Handler) (id from size : Text) (n : ℕ) (w : Store) {p : ℕ} {s : Session}
    → n < sign_bit
    → find_session id w ≡ some (p, s)
    → get_statement h id (show_nat n) from size w
      ≡ map_outcome
          (statement_reply h)
          (Page.get_statement (pos n) (query_from from) (query_size size) s)
unfolding get_statement
get_statement_found h id from size n w b e = rw (e, get_found) (rw (atoi-show_nat n b, get_at))

submit-statements :
    (now later : ℤ) (code : Text) (tags : List Text) (s : Session)
    → get_elem? (Session.submit_statement now later code tags s).0.statements (length s.statements)
      ≡ some (new_statement now (length s.statements) code tags)
unfolding Session.submit_statement
submit-statements now later code tags s =
    get_elem?-append_last s.statements (new_statement now (length s.statements) code tags)

submit-session_id :
    (now later : ℤ) (code : Text) (tags : List Text) (s : Session)
    → (Session.submit_statement now later code tags s).0.session_id ≡ s.session_id
unfolding Session.submit_statement
submit-session_id now later code tags s = refl

new_statement_bare :
    (now : ℤ) (n : ℕ) (code : Text) (tags : List Text)
    → ((new_statement now n code tags).output ≡ none)
      × (copy_statement (new_statement now n code tags) ≡ new_statement now n code tags)
unfolding new_statement
new_statement_bare now n code tags = (refl, refl)

-- After an accepted SubmitStatement, in a well-formed registry, where the identifier is the
-- number of that session or no other session of the map has it for its session UUID, and whatever
-- the order in which the later lookup visits the map, GetStatement with the number of statements
-- before it in decimal, which is below 2 ^ 63, and with any from and size, answers 200 with the
-- submitted statement, still waiting.
pub get_statement-submit_statement :
    (h : Handler) (now later : ℤ) (id from size : Text) (body : Option CreateStatementRequest)
    (w : Store) (a : Accepted id body w) {m : List (ℤ × ℕ)}
    → Settled id w a.p
    → Reorders w.manager.sessions m
    → length a.s.statements < sign_bit
    → get_statement h id
        (show_nat (length a.s.statements))
        from
        size
        (reordered m (submit_statement h now later id body w).0)
      ≡ value (
          respond_json h 200
            (statement (new_statement now (length a.s.statements) a.req.code a.req.tags)))
get_statement-submit_statement h now later id from size body w a v r b =
    let n = length a.s.statements in
    let t = (Session.submit_statement now later a.req.code a.req.tags a.s).0 in
    let (o, c) = new_statement_bare now n a.req.code a.req.tags in
    rw (submit_accepted h now later id w body a) (
      get_statement_found h id from size n _ b (
        find_session-reordered id w t a.found v r
          (submit-session_id now later a.req.code a.req.tags a.s))
      ∙ ap (map_outcome (statement_reply h)) (
          get_statement_bare t n (query_from from) (query_size size)
            (submit-statements now later a.req.code a.req.tags a.s) o
          ∙ ap (λ st. value (some st)) c)
      ∙ ap value (unfold statement_reply in refl))

update_busy-same :
    (s : Session)
    → ((update_busy_state s).statements ≡ s.statements)
      × ((update_busy_state s).session_id ≡ s.session_id)
unfolding update_busy_state
update_busy-same s = (ground arith, ground arith)

stop-output :
    (st : Statement)
    → (stop st).output
      ≡ some (
          error_output st.id
            (codes "StatementCancelled")
            (codes "Statement was cancelled by user")
            (codes "Cancelled"))
unfolding stop
stop-output st = refl

-- The statement after a cancellation, as GetStatement answers it.
abbrev pub shown_cancelled : Statement → Statement
shown_cancelled st = record st {
  state = cancelled;
  cancel_func = none;
  output =
      some
        (record (error_output st.id (codes "StatementCancelled")
          (codes "Statement was cancelled by user") (codes "Cancelled")) { output_data = some [] });
}

get_statement_stopped :
    (s : Session) (i : ℕ) (st : Statement)
    → get_elem? s.statements i ≡ some (stop st)
    → Page.get_statement (pos i) (query_from []) (query_size []) s
      ≡ value (some (shown_cancelled st))
unfolding stop query_from query_size
get_statement_stopped s i st h = get_statement_whole s i (pos 0) (pos 0) h (stop-output st) refl

cancel_accepted :
    (h : Handler) (id : Text) (i : ℕ) (w : Store) {p : ℕ} {s : Session} {st : Statement}
    → i < sign_bit
    → find_session id w ≡ some (p, s)
    → get_elem? s.statements i ≡ some st
    → is_active st.state ≡ true
    → cancel_statement h id (show_nat i) w ≡ (
      record w { heap = set w.heap p (update_busy_state (stopped i st s)) },
      respond_json h 200 (msg (codes "cancelled")),
    )
unfolding cancel_statement cancel_reply
cancel_accepted h id i w {p} {s} b f e a =
    rw (f, cancel_found) (rw (atoi-show_nat i b, cancel_at) (rw (cancel_stops i s e a)))

-- CancelStatement of a waiting or running statement, whose number is below 2 ^ 63, of the session
-- that the identifier leads to answers 200, and, in a well-formed registry, where the identifier
-- is the number of that session or no other session of the map has it for its session UUID, and
-- whatever the order in which the later lookup visits the map, GetStatement after it, without
-- from and size, answers 200 with that statement cancelled, with the output of a cancellation.
pub get_statement-cancel_statement :
    (h : Handler) (id : Text) (i : ℕ) (w : Store) {p : ℕ} {s : Session} {st : Statement}
    {m : List (ℤ × ℕ)}
    → i < sign_bit
    → find_session id w ≡ some (p, s)
    → Settled id w p
    → Reorders w.manager.sessions m
    → get_elem? s.statements i ≡ some st
    → is_active st.state ≡ true
    → ((cancel_statement h id (show_nat i) w).1 ≡ respond_json h 200 (msg (codes "cancelled")))
      × (get_statement h id
            (show_nat i)
            []
            []
            (reordered m (cancel_statement h id (show_nat i) w).0)
          ≡ value (respond_json h 200 (statement (shown_cancelled st))))
get_statement-cancel_statement h id i w {p} {s} {st} b f z r e a =
    let t = update_busy_state (stopped i st s) in
    let (u, v) = update_busy-same (stopped i st s) in
    let k : get_elem? t.statements i ≡ some (stop st) =
      ap (λ xs. get_elem? xs i) u
      ∙ get_elem?-set_self s.statements i (stop st) (get_elem?-lt s.statements i e) in
    rw (cancel_accepted h id i w b f e a) (
      refl,
      get_statement_found h id [] [] i _ b (find_session-reordered id w t f z r v)
          ∙ ap (map_outcome (statement_reply h)) (get_statement_stopped t i st k)
          ∙ ap value (unfold statement_reply in refl),
    )

-- The statement is not there, or has ended.
abbrev pub Ended : Session → ℕ → Type 0
Ended s i =
    (length s.statements ≤ i)
    ⊎ ((st : Statement) × (get_elem? s.statements i ≡ some st) × (is_active st.state ≡ false))

cancel-Ended : (s : Session) (i : ℕ) → Ended s i → Session.cancel_statement (pos i) s ≡ (s, false)
cancel-Ended s i (inl h) = cancel_missing i s h
cancel-Ended s i (inr (st, e, a)) = cancel_refuses i s e a

-- CancelStatement of a found session with a number below 2 ^ 63 of no statement, or of one that
-- is neither waiting nor running, leaves the store as it was and answers 400.
pub cancel_refused :
    (h : Handler) (id : Text) (i : ℕ) (w : Store) {p : ℕ} {s : Session}
    → i < sign_bit
    → find_session id w ≡ some (p, s)
    → Ended s i
    → cancel_statement h id (show_nat i) w ≡ (
      w,
      respond_error h 400
          (codes "Statement cannot be cancelled (either not found or already completed)"),
    )
unfolding cancel_statement cancel_reply
cancel_refused h id i w {p} {s} b f a =
    rw (f, cancel_found)
      (rw (atoi-show_nat i b, cancel_at)
        (rw (cancel-Ended s i a) (rw (set-get_elem? w.heap p (find_session-some id w f).1))))
