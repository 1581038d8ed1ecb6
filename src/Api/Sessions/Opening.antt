-- ===== src/Api/Sessions/Opening.antt =====
-- What the calls of CreateSession on the new session and on the manager do, one after another.
use livy_next.Prelude.{
  ◌≡◌, refl, ap, inl, inr, Bool-cases, Bool, List, [], ◌∷◌, ◌++◌, Option, none, some, Text,
  is_empty, length, set, if◌then◌else◌, ◌&&◌, get_elem?-append_last,
}
use livy_next.Prelude.Assoc.{int_key}
use livy_next.Prelude.Int.{ℤ, pos, negsuc, ltb_ℤ}
use livy_next.Session.Types.{Session, SessionCreateParams, SparkClient, idle}
use livy_next.Session.Lifecycle.{new_session, set_state, set_idle_timeout, set_app_info}
use livy_next.Manager as Manager
use livy_next.Manager.{Manager, Store, on_manager}
use livy_next.Api.Types.{Handler}
use livy_next.Api.Sessions.{
  effective_spark_ui_url, update_session, sync_timeout, inherit_timeout, inherit_version, register,
}

pub set-append_last {ℓ} :
    {A : Type ℓ} (xs : List A) (a b : A) → set (xs ++ a ∷ []) (length xs) b ≡ xs ++ b ∷ []
set-append_last [] a b = refl
set-append_last (x ∷ xs) a b = ap (◌∷◌ x) (set-append_last xs a b)

-- A method call on the session that was created last.
update_session-last :
    (m : Manager) (xs : List Session) (s : Session) (f : Session → Session)
    → update_session (length xs) f (record { manager = m; heap = xs ++ s ∷ [] })
      ≡ record { manager = m; heap = xs ++ f s ∷ [] }
unfolding update_session
update_session-last m xs s f =
    rw (get_elem?-append_last xs s, update_session) (rw (set-append_last xs s (f s)))

-- The session after the answer of GetSessionTimeout.
abbrev pub timed : ℤ × Option Text → Session → Session
timed (t, some e) s = s
timed (t, none) s =
    if ltb_ℤ (pos 0) t
    then set_idle_timeout t s
    else if ltb_ℤ t (pos 0)
    then set_idle_timeout (negsuc 0) s
    else s

abbrev pub synced : Bool → ℤ × Option Text → Manager → Manager
synced sync (t, some e) m = m
synced sync (t, none) m = if ltb_ℤ (pos 0) t && sync then Manager.set_idle_timeout t m else m

inherit_timeout-last :
    (h : Handler) (m : Manager) (xs : List Session) (s : Session) (r : ℤ × Option Text)
    → inherit_timeout h (length xs) r (record { manager = m; heap = xs ++ s ∷ [] })
      ≡ record { manager = synced h.sync_session_timeout r m; heap = xs ++ timed r s ∷ [] }
unfolding inherit_timeout sync_timeout
inherit_timeout-last h m xs s (t, some e) = refl
inherit_timeout-last h m xs s (t, none) = elim (Bool-cases (ltb_ℤ (pos 0) t)) [
  | inl e ↦ elim (Bool-cases h.sync_session_timeout) [
    | inl f ↦ rw (e, f, update_session-last m xs s (set_idle_timeout t))
    | inr f ↦ rw (e, f, update_session-last m xs s (set_idle_timeout t))
  ]
  | inr e ↦ elim (Bool-cases (ltb_ℤ t (pos 0))) [
    | inl f ↦ rw (e, f, update_session-last m xs s (set_idle_timeout (negsuc 0)))
    | inr f ↦ rw (e, f)
  ]
]

-- The session after the answer of GetSparkVersion.
abbrev pub versioned : Text × Option Text → Session → Session
versioned (v, some e) s = s
versioned (v, none) s = if is_empty v then s else record s { spark_version = v }

abbrev pub informed : Text × Option Text → Text → Manager → Manager
informed (v, some e) master m = m
informed (v, none) master m = if is_empty v then m else Manager.set_spark_info v master m

inherit_version-last :
    (m : Manager) (xs : List Session) (s : Session) (r : Text × Option Text) (master : Text)
    → inherit_version (length xs) r master (record { manager = m; heap = xs ++ s ∷ [] })
      ≡ record { manager = informed r master m; heap = xs ++ versioned r s ∷ [] }
unfolding inherit_version
inherit_version-last m xs s (v, some e) master = refl
inherit_version-last m xs s (v, none) master = elim (Bool-cases (is_empty v)) [
  | inl e ↦ rw e
  | inr e ↦ rw (e, update_session-last m xs s (λ t. record t { spark_version = v }))
]

-- What the three calls between NewSession and the inherited values leave.
abbrev pub started : Handler → ℤ → ℤ → ℤ → SessionCreateParams → SparkClient → Session
started h now later id params c =
    set_app_info c.get_app_id.0 (effective_spark_ui_url h) h.spark_history_url
      (set_state later idle (new_session now id params (some c)))

abbrev pub opened : Handler → ℤ → ℤ → ℤ → SessionCreateParams → SparkClient → Session
opened h now later id params c =
    versioned c.get_spark_version (timed c.get_session_timeout (started h now later id params c))

abbrev pub after : Handler → SparkClient → Manager → Manager
after h c m =
    informed c.get_spark_version c.get_master.0
      (synced h.sync_session_timeout c.get_session_timeout m)

pub register_lem :
    (h : Handler) (now later : ℤ) (params : SessionCreateParams) (c : SparkClient) (w : Store)
    → register h now later params c w ≡ (
      record {
        manager = after h c (Manager.create_session now params (some c) w).0.manager;
        heap = w.heap ++ opened h now later w.manager.next_id params c ∷ [];
      },
      length w.heap,
    )
unfolding register Manager.create_session
register_lem h now later params c w =
    let m = (Manager.create_session now params (some c) w).0.manager in
    let s = new_session now w.manager.next_id params (some c) in
    rw (
      update_session-last m w.heap s (set_state later idle),
      update_session-last m w.heap (set_state later idle s)
          (set_app_info c.get_app_id.0 (effective_spark_ui_url h) h.spark_history_url),
      inherit_timeout-last h m w.heap (started h now later w.manager.next_id params c)
          c.get_session_timeout,
      inherit_version-last (synced h.sync_session_timeout c.get_session_timeout m) w.heap
          (timed c.get_session_timeout (started h now later w.manager.next_id params c))
          c.get_spark_version c.get_master.0,
    )
