-- ===== src/World/Safe.antt =====
-- Close, DeleteSession and CloseAll after a run.
use livy_next.Prelude.{
  ℕ, ◌<◌, ◌≡◌, ◌∙◌, ap, Bool, false, List, [], ◌∷◌, Option, some, Text, length, get_elem?,
  get_elem?-some, Option-cases, inl, inr,
}
use livy_next.Prelude.Assoc.{int_key}
use livy_next.Prelude.Int.{ℤ}
use livy_next.Prelude.Int64.{sign_bit}
use livy_next.Prelude.Outcome.{value}
use livy_next.Session.Types.{Session}
use livy_next.Manager.{
  Store, DeleteResult, deleted, close_at, close_all, get_session, get_session_by_identifier,
  delete_session_by_identifier,
}
use livy_next.Manager.Identifier.{get_session_by_identifier_sound}
use livy_next.Manager.Shutdown.{Closed, AllSound-at, close_at-Closed, delete_lem, delete_missing}
use livy_next.Manager.Spec.Keeps.{Kept, Good-Points, closes_all-Emptied}
use livy_next.Api.Types.{Handler, Response}
use livy_next.Api.Sessions.{delete_session, delete_reply}
use livy_next.Server.Startup.{Flags}
use livy_next.World.{World, booted, Reach}
use livy_next.Api.Sessions.Ending.{close_reply, deleted-close_reply}
use livy_next.World.Steps.{AllBelow, Holds, Reach-Holds}

-- Each of the Closes returns.
abbrev pub AllReturn : ℤ → Store → List ℕ → Type 0
AllReturn now w [] = Unit {0}
AllReturn now w (p ∷ ps) =
    ((e : Option Text) × ((close_at now p w).1 ≡ deleted e)) × AllReturn now w ps

module _ (now : ℤ) (w : Store) (k : Kept w) where
  AllBelow-AllReturn : (ps : List ℕ) → AllBelow (length w.heap) ps → AllReturn now w ps
  AllBelow-AllReturn [] a = tt
  AllBelow-AllReturn (p ∷ ps) (b, a) =
      let (s, e) = get_elem?-some w.heap p b in
      let c : Closed now p s w (close_at now p w).0 (close_at now p w).1 =
        close_at-Closed now p w e (AllSound-at w.heap p k.sound e) in
      (c.answers, AllBelow-AllReturn ps a)

  identified :
      (id : Text) {p : ℕ}
      → get_session_by_identifier id w ≡ some p
      → (s : Session) × (get_elem? w.heap p ≡ some s)
  unfolding get_session
  identified id {p} e =
      let (j, f) : (j : ℤ) × (get_session j w ≡ some p) =
        elim (get_session_by_identifier_sound id w k.inv e) [
          | inl (j, a, b) ↦ (j, b)
          | inr (j, s, a, b, c) ↦ (j, a)
        ] in
      let (s, g, i) = Good-Points k.inv.count w.heap j w.manager.sessions k.inv.good f in (s, g)

  reply-value :
      (h : Handler) (r : DeleteResult)
      → (e : Option Text) × (r ≡ deleted e)
      → (a : Response) × (delete_reply h r ≡ value a)
  reply-value h r (o, e) = (close_reply h o, ap (delete_reply h) e ∙ deleted-close_reply h o)

  delete-value :
      (h : Handler) (id : Text) → (a : Response) × ((delete_session h now id w).1 ≡ value a)
  unfolding delete_session
  delete-value h id = elim (Option-cases (get_session_by_identifier id w)) [
    | inl e ↦
        reply-value h _ (_, ap (λ (x : Store × DeleteResult). x.1) (delete_missing now id w e))
    | inr (p, e) ↦
        (let (s, f) = identified id e in
          let c : Closed now p s w (delete_session_by_identifier now id w).0
              (delete_session_by_identifier now id w).1 =
            delete_lem now id w e f (AllSound-at w.heap p k.sound f) in
          reply-value h _ c.answers)
  ]

-- From the start of the server on, with any flags, after any fewer than 2 ^ 63 steps in any
-- order, each of which gets its locks at once - CreateSession, DeleteSession, SubmitStatement and
-- CancelStatement requests, each taken as one step, critical sections of the goroutines of
-- statements with any answers of their queries, changes of the order in which the map is visited,
-- clean-ups, the Closes that clean-ups and the ends of statements start, start-up probes, and
-- CloseAll - the registry is well formed, each session's channel is closed exactly if it is dead,
-- and, taken as one step, neither DeleteSession nor a pending Close nor CloseAll panics.
pub world_lem :
    (h : Handler) (flags : Flags) (now : ℤ) (id : Text) (n : ℕ) {y : World}
    → n < sign_bit
    → Reach h (booted flags) n y
    → Kept y.store
      × ((a : Response) × ((delete_session h now id y.store).1 ≡ value a))
      × AllReturn now y.store y.closing
      × ((close_all now y.store).1 ≡ false)
world_lem h flags now id n {y} l r =
    let v : Holds n y = Reach-Holds h flags n l r in
    let (x, e, m, s, c) = closes_all-Emptied now y.store v.kept in
    (
      v.kept,
      delete-value now y.store v.kept h id,
      AllBelow-AllReturn now y.store v.kept y.closing v.below,
      ap (λ (x : Store × Bool). x.1) e,
    )
