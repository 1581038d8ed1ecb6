-- ===== src/Manager/Spec/Steps.antt =====
-- One request, on the store and on the abstract state.
use livy_next.Prelude.{
  ℕ, suc, ◌<◌, ◌≡◌, refl, ◌∙◌, ap, Bool, true, [], Option, none, some, arith, get_elem?,
}
use livy_next.Prelude.Assoc.{lookup, int_key}
use livy_next.Prelude.Int.{ℤ, pos, ◌+ℤ◌}
use livy_next.Prelude.Int64.{sign_bit, wrap64}
use livy_next.Session.Types.{Session}
use livy_next.Manager.{
  Manager, Store, create_session, get_session, delete_session, delete_found, close_at, close_found,
  cleanup_idle_sessions, set_idle_timeout,
}
use livy_next.Manager.Registry.{Inv, wrap64-suc}
use livy_next.Manager.Spec.{
  Registry, Request, creates, deletes, cleans_up, closes_all, sets_timeout, serve, specify,
  abstract, through,
}
use livy_next.Manager.Spec.Keeps.{Kept, closes_all-Emptied}
use livy_next.Manager.Spec.Seen.{seen, creates_at, deletes_seen, cleans_up_seen}

Registry_ext :
    {r r' : Registry}
    → r.next ≡ r'.next
    → ((id : ℤ) → r.at id ≡ r'.at id)
    → r.idle_timeout ≡ r'.idle_timeout
    → r.dead_timeout ≡ r'.dead_timeout
    → r ≡ r'
Registry_ext n f i d =
    λ k. record { next = n k; at = λ id. f id k; idle_timeout = i k; dead_timeout = d k }

close_found-manager :
    (now : ℤ) (p : ℕ) (w : Store) (o : Option Session)
    → (close_found now p w o).0.manager ≡ w.manager
unfolding close_found
close_found-manager now p w none = refl
close_found-manager now p w (some s) = refl

delete_found-manager :
    (now : ℤ) (o : Option ℕ) (w : Store) → (delete_found now o w).0.manager ≡ w.manager
unfolding delete_found close_at
delete_found-manager now none w = refl
delete_found-manager now (some p) w = close_found-manager now p w (get_elem? w.heap p)

emptied-specify :
    (now : ℤ) (w v : Store)
    → v.manager ≡ record w.manager { sessions = []; stop_ch = true }
    → abstract v ≡ specify (closes_all now) (abstract w)
unfolding specify abstract get_session lookup
emptied-specify now w v l =
    Registry_ext (ap (λ (m : Manager). m.next_id) l)
      (λ id. ap (λ (m : Manager). through v.heap (lookup id m.sessions)) l)
      (ap (λ (m : Manager). m.idle_timeout) l) (ap (λ (m : Manager). m.dead_timeout) l)

-- An increment that does not wrap.
next_lem :
    (w : Store) (v : Inv w)
    → suc v.count < sign_bit
    → wrap64 (w.manager.next_id +ℤ pos 1) ≡ w.manager.next_id +ℤ pos 1
unfolding ◌+ℤ◌
next_lem w v h =
    ap (λ i. wrap64 (i +ℤ pos 1)) v.next ∙ wrap64-suc v.count h ∙ rw v.next (ground arith)

pub serve-specify :
    (q : Request) (w : Store) (k : Kept w)
    → suc k.inv.count < sign_bit
    → abstract (serve q w) ≡ specify q (abstract w)
unfolding serve specify abstract create_session cleanup_idle_sessions set_idle_timeout get_session
    delete_session
serve-specify (creates now params client) w k h =
    Registry_ext (next_lem w k.inv h) (λ id. creates_at now params client w id k.inv) refl refl
serve-specify (deletes now id) w k h =
    let m = delete_found-manager now (get_session id w) w in
    Registry_ext (ap (λ (m : Manager). m.next_id) m)
      (λ j. unfold seen in deletes_seen now id j w k.inv) (ap (λ (m : Manager). m.idle_timeout) m)
      (ap (λ (m : Manager). m.dead_timeout) m)
serve-specify (cleans_up now) w k h =
    Registry_ext refl (λ id. unfold seen in cleans_up_seen now id w k.inv) refl refl
serve-specify (closes_all now) w k h =
    let (v, r, l, s, c) = closes_all-Emptied now w k in
    ap (λ (x : Store × Bool). abstract x.0) r ∙ emptied-specify now w v l
serve-specify (sets_timeout d) w k h = refl
