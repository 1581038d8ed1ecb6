-- ===== src/Api/Statements/Replies.antt =====
-- SubmitStatement on every branch.
use livy_next.Prelude.{
  [], ◌∷◌, ◌++◌, length, ℕ, ◌≡◌, refl, ◌⊎◌, inl, inr, true, false, Option, none, some, codes,
  is_empty, set, Option-cases, Bool-cases, Text,
}
use livy_next.Prelude.Int.{ℤ}
use livy_next.Session.Types.{Session, busy}
use livy_next.Session.Lifecycle.{is_terminal}
use livy_next.Session.Statements as Session
use livy_next.Session.Statements.{new_statement}
use livy_next.Manager.{Store}
use livy_next.Api.Types.{
  Handler, Response, statement, CreateStatementRequest, respond_json, respond_error,
}
use livy_next.Api.Statements.{find_session, submit_statement, submit_found, submit_code}

-- The request is accepted: the session exists and is live, and the body has a code.
pub record Accepted (id : Text) (body : Option CreateStatementRequest) (w : Store) : Type 0 where
  pub p : ℕ
  pub s : Session
  pub req : CreateStatementRequest
  pub found : find_session id w ≡ some (p, s)
  pub decoded : body ≡ some req
  pub is_live : is_terminal s.state ≡ false
  pub has_code : is_empty req.code ≡ false

-- Why a request is refused, with the answer.
pub data Refused (h : Handler) (id : Text) (w : Store)
    : Option CreateStatementRequest → Response → Type 0 where
  not_found :
      {body : Option CreateStatementRequest}
      → find_session id w ≡ none
      → Refused h id w body (respond_error h 404 (codes "Session not found"))
  terminated :
      {body : Option CreateStatementRequest} {p : ℕ} {s : Session}
      → find_session id w ≡ some (p, s)
      → is_terminal s.state ≡ true
      → Refused h id w body
          (respond_error h 400 (codes "Cannot submit statement to a terminated session"))
  undecoded : Refused h id w none (respond_error h 400 (codes "Invalid request payload"))
  no_code :
      {req : CreateStatementRequest}
      → is_empty req.code ≡ true
      → Refused h id w (some req) (respond_error h 400 (codes "Code cannot be empty"))

-- The statement is added to the session, which is busy from then on, and answered with 201.
abbrev pub Takes : Handler → ℤ → ℤ → Text → Store → Option CreateStatementRequest → Type 0
Takes h now later id w body =
    (a : Accepted id body w) × (submit_statement h now later id body w ≡ (
      record w {
        heap = set w.heap a.p (record a.s {
          statements =
              a.s.statements
              ++ new_statement now (length a.s.statements) a.req.code a.req.tags ∷ [];
          state = busy;
          last_activity = later;
        });
      },
      respond_json h 201
          (statement (new_statement now (length a.s.statements) a.req.code a.req.tags)),
    ))

-- The store is as it was, and the answer is an error.
abbrev pub Declines : Handler → ℤ → ℤ → Text → Store → Option CreateStatementRequest → Type 0
Declines h now later id w body =
    (r : Response) × Refused h id w body r × (submit_statement h now later id body w ≡ (w, r))

module _ (h : Handler) (now later : ℤ) (id : Text) (w : Store) where
  pub submit_accepted :
      (body : Option CreateStatementRequest) (a : Accepted id body w)
      → submit_statement h now later id body w ≡ (
        record w {
          heap = set w.heap a.p (Session.submit_statement now later a.req.code a.req.tags a.s).0;
        },
        respond_json h 201
            (statement (Session.submit_statement now later a.req.code a.req.tags a.s).1),
      )
  unfolding submit_statement
  submit_accepted body a =
      rw (a.found, submit_found) (rw (a.is_live) (rw (a.decoded, submit_code) (rw a.has_code)))

  submit_missing :
      (body : Option CreateStatementRequest)
      → find_session id w ≡ none
      → submit_statement h now later id body w
        ≡ (w, respond_error h 404 (codes "Session not found"))
  unfolding submit_statement
  submit_missing body e = rw (e, submit_found)

  pub submit_terminated :
      (body : Option CreateStatementRequest) {p : ℕ} {s : Session}
      → find_session id w ≡ some (p, s)
      → is_terminal s.state ≡ true
      → submit_statement h now later id body w
        ≡ (w, respond_error h 400 (codes "Cannot submit statement to a terminated session"))
  unfolding submit_statement
  submit_terminated body e t = rw (e, submit_found) (rw t)

  submit_undecoded :
      {p : ℕ} {s : Session}
      → find_session id w ≡ some (p, s)
      → is_terminal s.state ≡ false
      → submit_statement h now later id none w
        ≡ (w, respond_error h 400 (codes "Invalid request payload"))
  unfolding submit_statement submit_code
  submit_undecoded e t = rw (e, submit_found) (rw t)

  submit_no_code :
      (req : CreateStatementRequest) {p : ℕ} {s : Session}
      → find_session id w ≡ some (p, s)
      → is_terminal s.state ≡ false
      → is_empty req.code ≡ true
      → submit_statement h now later id (some req) w
        ≡ (w, respond_error h 400 (codes "Code cannot be empty"))
  unfolding submit_statement submit_code
  submit_no_code req e t c = rw (e, submit_found) (rw t (rw c))

  submit_live :
      (body : Option CreateStatementRequest) {p : ℕ} {s : Session}
      → find_session id w ≡ some (p, s)
      → is_terminal s.state ≡ false
      → Accepted id body w ⊎ Declines h now later id w body
  submit_live none e t = inr (_, undecoded, submit_undecoded e t)
  submit_live (some req) {p} {s} e t = elim (Bool-cases (is_empty req.code)) [
    | inl c ↦ inr (_, no_code c, submit_no_code req e t c)
    | inr c ↦
        inl
          (record { p = p; s = s; req = req; found = e; decoded = refl; is_live = t; has_code = c })
  ]

  submit_cases :
      (body : Option CreateStatementRequest) → Accepted id body w ⊎ Declines h now later id w body
  submit_cases body = elim (Option-cases (find_session id w)) [
    | inl e ↦ inr (_, not_found e, submit_missing body e)
    | inr ((p, s), e) ↦ elim (Bool-cases (is_terminal s.state)) [
      | inl t ↦ inr (_, terminated e t, submit_terminated body e t)
      | inr t ↦ submit_live body e t
    ]
  ]

  -- SubmitStatement either adds a waiting statement with the next index to a session that it
  -- finds live, makes the session busy and answers 201 with the statement; or leaves the store as
  -- it was and answers 404 for a session that is not found, 400 for a terminated one, for a body
  -- that does not decode and for an empty code.
  pub submit_lem :
      (body : Option CreateStatementRequest)
      → Takes h now later id w body ⊎ Declines h now later id w body
  unfolding Session.submit_statement
  submit_lem body = elim (submit_cases body) [
    | inl a ↦ inl (a, submit_accepted body a)
    | inr r ↦ inr r
  ]
