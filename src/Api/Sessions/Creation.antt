-- ===== src/Api/Sessions/Creation.antt =====
-- CreateSession on every branch, and GetSession after it.
use livy_next.Prelude.{
  ℕ, ◌⊎◌, ◌≢◌, ◌<◌, ◌≡◌, refl, ◌∙◌, ap, inl, inr, Bool, true, false, [], ◌∷◌, ◌++◌, Option, none,
  some, arith, Text, codes, is_empty, length, if◌then◌else◌, ◌&&◌,
}
use livy_next.Prelude.Assoc.{insert, int_key, lookup, lookup-insert}
use livy_next.Prelude.Int.{ℤ, pos, negsuc, ltb_ℤ, eqb_ℤ_refl}
use livy_next.Prelude.Int64.{sign_bit}
use livy_next.Session.Types.{Session, SessionCreateParams, SparkClient, idle}
use livy_next.Session.Lifecycle.{new_session, set_state, set_idle_timeout, set_app_info}
use livy_next.Strconv.Decimal.{show_nat}
use livy_next.Manager as Manager
use livy_next.Manager.{Manager, Store, get_session_by_identifier}
use livy_next.Manager.Identifier.{get_session_by_identifier-show_nat}
use livy_next.Api.Types.{
  Handler, session, Created, client, failed, CreateSessionRequest, respond_json, respond_error,
}
use livy_next.Api.Sessions.{
  request_params, register, create_session, create_with, get_session, session_reply,
}
use livy_next.Api.Sessions.Opening.{
  timed, synced, versioned, informed, started, opened, register_lem,
}

-- The timeout of a new session, by the answer of GetSessionTimeout.
abbrev pub inherited : ℤ × Option Text → ℤ
inherited (t, some e) = pos 0
inherited (t, none) = if ltb_ℤ t (pos 0) then negsuc 0 else t

-- The Spark version of a new session, by the answer of GetSparkVersion.
abbrev pub known : Text × Option Text → Text
known (v, some e) = []
known (v, none) = v

-- The manager's idle timeout, by the same answer.
abbrev pub synced_timeout : Bool → ℤ × Option Text → ℤ → ℤ
synced_timeout sync (t, some e) d = d
synced_timeout sync (t, none) d = if ltb_ℤ (pos 0) t && sync then t else d

-- What CreateSession adds to the store w, for a client c, to give the store v.
pub record Opened (h : Handler) (params : SessionCreateParams) (c : SparkClient) (w v : Store)
    : Type 0 where
  pub s : Session
  pub heap : v.heap ≡ w.heap ++ s ∷ []
  pub entries : v.manager.sessions ≡ insert w.manager.next_id (length w.heap) w.manager.sessions
  pub id : s.id ≡ w.manager.next_id
  pub state : s.state ≡ idle
  pub statements : s.statements ≡ []
  pub close_ch : s.close_ch ≡ false
  pub client : s.client ≡ some c
  pub app_id : s.app_id ≡ c.get_app_id.0
  pub timeout : s.idle_timeout_duration ≡ inherited c.get_session_timeout
  pub version : s.spark_version ≡ known c.get_spark_version
  pub default_timeout :
      v.manager.idle_timeout
      ≡ synced_timeout h.sync_session_timeout c.get_session_timeout w.manager.idle_timeout

-- The fields that the inherited values do not change.
abbrev Same : Session → Session → Type 0
Same s t =
    (t.id ≡ s.id)
    × (t.state ≡ s.state)
    × (t.statements ≡ s.statements)
    × (t.close_ch ≡ s.close_ch)
    × (t.client ≡ s.client)
    × (t.app_id ≡ s.app_id)

timed-Same : (r : ℤ × Option Text) (s : Session) → Same s (timed r s)
unfolding set_idle_timeout
timed-Same (t, some e) s = (refl, refl, refl, refl, refl, refl)
timed-Same (t, none) s =
    (ground arith, ground arith, ground arith, ground arith, ground arith, ground arith)

versioned-Same : (r : Text × Option Text) (s : Session) → Same s (versioned r s)
versioned-Same (v, some e) s = (refl, refl, refl, refl, refl, refl)
versioned-Same (v, none) s =
    (ground arith, ground arith, ground arith, ground arith, ground arith, ground arith)

timed-duration :
    (r : ℤ × Option Text) (s : Session)
    → s.idle_timeout_duration ≡ pos 0
    → (timed r s).idle_timeout_duration ≡ inherited r
unfolding set_idle_timeout
timed-duration (t, some e) s h = h
timed-duration (t, none) s h = ground arith

timed-version : (r : ℤ × Option Text) (s : Session) → (timed r s).spark_version ≡ s.spark_version
unfolding set_idle_timeout
timed-version (t, some e) s = refl
timed-version (t, none) s = ground arith

versioned-duration :
    (r : Text × Option Text) (s : Session)
    → (versioned r s).idle_timeout_duration ≡ s.idle_timeout_duration
versioned-duration (v, some e) s = refl
versioned-duration (v, none) s = ground arith

is_empty→nil : (v : Text) → is_empty v ≡ true → v ≡ []
is_empty→nil [] h = refl
is_empty→nil (x ∷ v) h = cc

versioned-version :
    (r : Text × Option Text) (s : Session)
    → s.spark_version ≡ []
    → (versioned r s).spark_version ≡ known r
versioned-version (v, some e) s h = h
versioned-version (v, none) s h = ground (arith, is_empty→nil v)

module _ (h : Handler) (now later id : ℤ) (params : SessionCreateParams) (c : SparkClient) where
  started-fields :
      let s = started h now later id params c in
      (s.id ≡ id)
      × (s.state ≡ idle)
      × (s.statements ≡ [])
      × (s.close_ch ≡ false)
      × (s.client ≡ some c)
      × (s.app_id ≡ c.get_app_id.0)
      × (s.idle_timeout_duration ≡ pos 0)
      × (s.spark_version ≡ [])
  unfolding set_app_info set_state new_session
  started-fields = (refl, refl, refl, refl, refl, refl, refl, refl)

synced-fields :
    (sync : Bool) (r : ℤ × Option Text) (m : Manager)
    → ((synced sync r m).sessions ≡ m.sessions)
      × ((synced sync r m).idle_timeout ≡ synced_timeout sync r m.idle_timeout)
unfolding Manager.set_idle_timeout
synced-fields sync (t, some e) m = (refl, refl)
synced-fields sync (t, none) m = (ground arith, ground arith)

informed-fields :
    (r : Text × Option Text) (master : Text) (m : Manager)
    → ((informed r master m).sessions ≡ m.sessions)
      × ((informed r master m).idle_timeout ≡ m.idle_timeout)
unfolding Manager.set_spark_info
informed-fields (v, some e) master m = (refl, refl)
informed-fields (v, none) master m = (ground arith, ground arith)

register-Opened :
    (h : Handler) (now later : ℤ) (params : SessionCreateParams) (c : SparkClient) (w : Store)
    → (register h now later params c w).1 ≡ length w.heap
      × Opened h params c w (register h now later params c w).0
unfolding Manager.create_session
register-Opened h now later params c w =
    let m = (Manager.create_session now params (some c) w).0.manager in
    let n = synced h.sync_session_timeout c.get_session_timeout m in
    let s = started h now later w.manager.next_id params c in
    let t = timed c.get_session_timeout s in
    let (a1, a2, a3, a4, a5, a6, a7, a8) = started-fields h now later w.manager.next_id params c in
    let (b1, b2, b3, b4, b5, b6) = timed-Same c.get_session_timeout s in
    let (d1, d2, d3, d4, d5, d6) = versioned-Same c.get_spark_version t in
    let (k1, k2) = synced-fields h.sync_session_timeout c.get_session_timeout m in
    let (l1, l2) = informed-fields c.get_spark_version c.get_master.0 n in
    rw (register_lem h now later params c w) (
      refl,
      record {
        s = opened h now later w.manager.next_id params c;
        heap = refl;
        entries = l1 ∙ k1;
        id = d1 ∙ b1 ∙ a1;
        state = d2 ∙ b2 ∙ a2;
        statements = d3 ∙ b3 ∙ a3;
        close_ch = d4 ∙ b4 ∙ a4;
        client = d5 ∙ b5 ∙ a5;
        app_id = d6 ∙ b6 ∙ a6;
        timeout =
            versioned-duration c.get_spark_version t ∙ timed-duration c.get_session_timeout s a7;
        version =
            versioned-version c.get_spark_version t (timed-version c.get_session_timeout s ∙ a8);
        default_timeout = l2 ∙ k2;
      },
    )

module _ (h : Handler) (now later : ℤ) (req : CreateSessionRequest) (w : Store) {c : SparkClient}
    (e : h.create_client (request_params req) ≡ client c) where
  -- CreateSession, where a client is created, answers 201 with a session that it appends to the
  -- heap and enters in the map under the next number: it has that number, is idle, has no
  -- statements, has an open channel, that client, its application id and its version (empty where
  -- the client answers an error), and the idle timeout that the client answers (-1 for a negative
  -- one, 0 for an error), which also becomes the default of the manager if it is positive and
  -- timeouts are synchronised.
  pub create_session_lem :
      ((create_session h now later (some req) w).1 ≡ respond_json h 201 (session (length w.heap)))
      × Opened h (request_params req) c w (create_session h now later (some req) w).0
  unfolding create_session
  create_session_lem =
      let (a, b) = register-Opened h now later (request_params req) c w in
      rw (e, create_with) (ap (λ p. respond_json h 201 (session p)) a, b)

  -- After a CreateSession whose client is created, GetSession with the next number in decimal,
  -- which is below 2 ^ 63, answers 200 with the new session.
  pub get_session-create_session_http :
      (n : ℕ)
      → w.manager.next_id ≡ pos n
      → n < sign_bit
      → get_session h (show_nat n) (create_session h now later (some req) w).0
        ≡ respond_json h 200 (session (length w.heap))
  unfolding get_session Manager.get_session
  get_session-create_session_http n f b =
      let v = (create_session h now later (some req) w).0 in
      let g : Manager.get_session (pos n) v ≡ some (length w.heap) =
        ap (lookup (pos n)) create_session_lem.1.entries
        ∙ rw f (
            lookup-insert (pos n) (pos n) (length w.heap) w.manager.sessions
            ∙ rw (eqb_ℤ_refl (pos n))) in
      rw (get_session_by_identifier-show_nat n v b g, session_reply)

Created-cases :
    (r : Created) → ((c : SparkClient) × (r ≡ client c)) ⊎ ((err : Text) × (r ≡ failed err))
Created-cases (client c) = inl (c, refl)
Created-cases (failed err) = inr (err, refl)

-- CreateSession, where the body does not decode or no client is created, leaves the store as it
-- was and answers 400 in the first case and 500 with the error in the second.
pub create_session_refuses :
    (h : Handler) (now later : ℤ) (body : Option CreateSessionRequest) (w : Store)
    → ((req : CreateSessionRequest) (c : SparkClient)
        → body ≡ some req
        → h.create_client (request_params req) ≢ client c)
    → ((create_session h now later body w).0 ≡ w)
      × (((body ≡ none)
            × ((create_session h now later body w).1
                ≡ respond_error h 400 (codes "Invalid request payload")))
          ⊎ ((req : CreateSessionRequest) × (err : Text) × (body ≡ some req)
              × (h.create_client (request_params req) ≡ failed err)
              × ((create_session h now later body w).1
                  ≡ respond_error h 500
                      (codes "Failed to connect to Spark Connect server: " ++ err))))
unfolding create_session create_with
create_session_refuses h now later none w f = (refl, inl (refl, refl))
create_session_refuses h now later (some req) w f =
    elim (Created-cases (h.create_client (request_params req))) [
      | inl (c, e) ↦ absurd (f req c refl e)
      | inr (err, e) ↦ (rw (e, create_with), inr (req, err, refl, e, rw (e, create_with)))
    ]
