-- ===== src/World/Creates.antt =====
-- CreateSession as a step.
use livy_next.Prelude.{
  suc, ◌<◌, ◌≡◌, refl, sym, ◌∙◌, subst, Bool, Option, none, some, Text, arith, length,
  get_elem?-append_last,
}
use livy_next.Prelude.Int.{ℤ}
use livy_next.Prelude.Int64.{sign_bit}
use livy_next.Session.Types.{Session, SessionCreateParams, SparkClient}
use livy_next.Session.Lifecycle.{new_session, set_state, set_idle_timeout, set_app_info}
use livy_next.Session.Run.Closing.{Sound, same-Sound}
use livy_next.Manager as Manager
use livy_next.Manager.{Manager, Store}
use livy_next.Manager.Registry.{new_session-id}
use livy_next.Manager.Spec.Keeps.{Kept, Keeps, creates-Keeps, set-Keeps, settings-Keeps}
use livy_next.Api.Types.{Handler, CreateSessionRequest, Created, client, failed}
use livy_next.Api.Sessions.{create_session, create_with, register, request_params}
use livy_next.Api.Sessions.Opening.{
  opened, started, timed, versioned, after, synced, informed, register_lem, set-append_last,
}

-- A change that Close and the lookups do not see.
Alike : Session → Session → Type 0
Alike s t = (t.id ≡ s.id) × (t.close_ch ≡ s.close_ch) × (t.state ≡ s.state)

timed-Alike : (r : ℤ × Option Text) (s : Session) → Alike s (timed r s)
unfolding set_idle_timeout Alike
timed-Alike (t, some e) s = (refl, refl, refl)
timed-Alike (t, none) s = (ground arith, ground arith, ground arith)

versioned-Alike : (r : Text × Option Text) (s : Session) → Alike s (versioned r s)
unfolding Alike
versioned-Alike (v, some e) s = (refl, refl, refl)
versioned-Alike (v, none) s = (ground arith, ground arith, ground arith)

module _ (h : Handler) (now later id : ℤ) (params : SessionCreateParams) (c : SparkClient) where
  opened-Alike : Alike (started h now later id params c) (opened h now later id params c)
  unfolding Alike
  opened-Alike =
      let s = started h now later id params c in
      let (a, b, d) = timed-Alike c.get_session_timeout s in
      let (a', b', d') = versioned-Alike c.get_spark_version (timed c.get_session_timeout s) in
      (a' ∙ a, b' ∙ b, d' ∙ d)

  opened-id : (opened h now later id params c).id ≡ id
  unfolding set_app_info set_state new_session Alike
  opened-id = opened-Alike.0

  opened-Sound : Sound (opened h now later id params c)
  unfolding set_app_info set_state new_session Alike
  opened-Sound =
      same-Sound (started h now later id params c) _ (record { closed = refl; whole = λ e. cc })
        opened-Alike.1 opened-Alike.2

synced-same :
    (sync : Bool) (r : ℤ × Option Text) (m : Manager)
    → ((synced sync r m).sessions ≡ m.sessions) × ((synced sync r m).next_id ≡ m.next_id)
unfolding Manager.set_idle_timeout
synced-same sync (t, some e) m = (refl, refl)
synced-same sync (t, none) m = (ground arith, ground arith)

informed-same :
    (r : Text × Option Text) (master : Text) (m : Manager)
    → ((informed r master m).sessions ≡ m.sessions) × ((informed r master m).next_id ≡ m.next_id)
unfolding Manager.set_spark_info
informed-same (v, some e) master m = (refl, refl)
informed-same (v, none) master m = (ground arith, ground arith)

after-same :
    (h : Handler) (c : SparkClient) (m : Manager)
    → ((after h c m).sessions ≡ m.sessions) × ((after h c m).next_id ≡ m.next_id)
after-same h c m =
    let (a, b) = synced-same h.sync_session_timeout c.get_session_timeout m in
    let (a', b') =
      informed-same c.get_spark_version c.get_master.0
        (synced h.sync_session_timeout c.get_session_timeout m) in
    (a' ∙ a, b' ∙ b)

register-Keeps :
    (h : Handler) (now later : ℤ) (params : SessionCreateParams) (c : SparkClient) (w : Store)
    (k : Kept w)
    → suc k.inv.count < sign_bit
    → Keeps (suc k.inv.count) (length w.heap) (register h now later params c w).0
unfolding Manager.create_session
register-Keeps h now later params c w k l =
    let s = new_session now w.manager.next_id params (some c) in
    let t = opened h now later w.manager.next_id params c in
    let (k1, l1, b1) = creates-Keeps now w k params (some c) l in
    let w1 : Store = (Manager.create_session now params (some c) w).0 in
    let (k2, l2, b2) =
      set-Keeps w1 k1 (length w.heap) s t (get_elem?-append_last w.heap s)
        (opened-id h now later w.manager.next_id params c
          ∙ sym (new_session-id now w.manager.next_id params (some c)))
        (opened-Sound h now later w.manager.next_id params c) in
    let (a, b) = after-same h c w1.manager in
    let (k3, l3, b3) = settings-Keeps _ k2 (after h c w1.manager) a b in
    rw (register_lem h now later params c w) (
      subst
        (λ xs.
          Keeps (suc k.inv.count) (length w.heap)
            (record { manager = after h c w1.manager; heap = xs }))
        (set-append_last w.heap s t) (k3, omega arith, omega arith))

created-Keeps :
    (h : Handler) (now later : ℤ) (params : SessionCreateParams) (c : Created) (w : Store)
    (k : Kept w)
    → suc k.inv.count < sign_bit
    → Keeps (suc k.inv.count) (length w.heap) (create_with h now later params c w).0
unfolding create_with
created-Keeps h now later params (failed e) w k l = (k, omega arith, omega arith)
created-Keeps h now later params (client c) w k l = register-Keeps h now later params c w k l

pub create_session-Keeps :
    (h : Handler) (now later : ℤ) (body : Option CreateSessionRequest) (w : Store) (k : Kept w)
    → suc k.inv.count < sign_bit
    → Keeps (suc k.inv.count) (length w.heap) (create_session h now later body w).0
unfolding create_session
create_session-Keeps h now later none w k l = (k, omega arith, omega arith)
create_session-Keeps h now later (some req) w k l =
    created-Keeps h now later (request_params req) (h.create_client (request_params req)) w k l
