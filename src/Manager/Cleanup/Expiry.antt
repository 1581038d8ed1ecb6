-- ===== src/Manager/Cleanup/Expiry.antt =====
-- When cleanupIdleSessions takes a session for expired.
use livy_next.Prelude.{
  ℕ, ◌≡◌, ◌↔◌, ◌⊎◌, sym, ap, subst, ◌≢◌, ◌<◌, suc, refl, ◌∙◌, inl, inr, true, false, arith,
  Bool-cases,
}
use livy_next.Prelude.Assoc.{int_key}
use livy_next.Prelude.Int.{ℤ, pos, negsuc, pos_part, ◌+ℤ◌, ◌-ℤ◌, ltb_ℤ, eqb_ℤ, eqb_ℤ→eq}
use livy_next.Prelude.Int64.{sign_bit, saturate64}
use livy_next.Session.Types.{Session, idle, starting, dead}
use livy_next.Manager.{Manager, is_expired, inactive, effective_timeout}

infix 50 ◌<ℤ◌
abbrev pub ◌<ℤ◌ : ℤ → ℤ → Type 0
a <ℤ b = ltb_ℤ a b ≡ true

-- More time than t has passed from a to b, on the line of all integers.
abbrev pub Older : ℤ → ℤ → ℤ → Type 0
Older a b t = (a +ℤ t) <ℤ b

-- The timeout of a session: its own unless that is 0, and then the manager's.
abbrev pub Timeout : Manager → Session → ℤ → Type 0
Timeout m s t =
    ((s.idle_timeout_duration ≢ pos 0) × (t ≡ s.idle_timeout_duration))
    ⊎ ((s.idle_timeout_duration ≡ pos 0) × (t ≡ m.idle_timeout))

-- When a session has expired: dead for longer than the retention time, or idle (or still starting)
-- for longer than its timeout, where that time is in force.
abbrev pub IsExpired : ℤ → Manager → Session → Type 0
IsExpired now m s =
    ((s.state ≡ dead) × (pos 0 <ℤ m.dead_timeout) × Older s.last_activity now m.dead_timeout)
    ⊎ (((s.state ≡ idle) ⊎ (s.state ≡ starting))
        × ((t : ℤ) × Timeout m s t × (pos 0 <ℤ t) × Older s.last_activity now t))

-- A difference that is cut off at the ends of the range exceeds a timeout below the upper end just
-- as the exact one does.
inactive-Older :
    (now last : ℤ) (n : ℕ)
    → suc n < sign_bit
    → ltb_ℤ (pos n) (saturate64 (now -ℤ last)) ≡ ltb_ℤ (last +ℤ pos n) now
unfolding saturate64 ◌-ℤ◌ ◌+ℤ◌
inactive-Older (pos a) (pos b) n h = ground arith
inactive-Older (pos a) (negsuc b) n h = ground arith
inactive-Older (negsuc a) (pos b) n h = ground arith
inactive-Older (negsuc a) (negsuc b) n h = ground arith

inactive_iff :
    (now last t : ℤ)
    → suc (pos_part t) < sign_bit
    → pos 0 <ℤ t
    → (t <ℤ saturate64 (now -ℤ last)) ↔ Older last now t
inactive_iff now last (pos n) h k =
    let e = inactive-Older now last n h in ((λ l. sym e ∙ l), (λ l. e ∙ l))
inactive_iff now last (negsuc n) h k = absurd (ground arith)

-- The condition in the code's own words.
abbrev Condition : ℤ → Manager → Session → Type 0
Condition now m s =
    ((s.state ≡ dead) × (pos 0 <ℤ m.dead_timeout) × (m.dead_timeout <ℤ inactive now s))
    ⊎ (((s.state ≡ idle) ⊎ (s.state ≡ starting))
        × (pos 0 <ℤ effective_timeout m s)
        × (effective_timeout m s <ℤ inactive now s))

is_expired-Condition :
    (now : ℤ) (m : Manager) (s : Session) → (is_expired now m s ≡ true) ↔ Condition now m s
unfolding is_expired
is_expired-Condition now m s = (ground arith, ground arith)

effective_timeout-Timeout : (m : Manager) (s : Session) → Timeout m s (effective_timeout m s)
effective_timeout-Timeout m s = elim (Bool-cases (eqb_ℤ s.idle_timeout_duration (pos 0))) [
  | inl e ↦ rw e (inr (eqb_ℤ→eq s.idle_timeout_duration (pos 0) e, refl))
  | inr e ↦ rw e (
      inl
        ((λ f. absurd (let g : true ≡ false = sym (ap (λ z. eqb_ℤ z (pos 0)) f) ∙ e in cc)), refl))
]

Timeout-effective_timeout :
    (m : Manager) (s : Session) (t : ℤ) → Timeout m s t → t ≡ effective_timeout m s
Timeout-effective_timeout m s t (inl (d, e)) =
    elim (Bool-cases (eqb_ℤ s.idle_timeout_duration (pos 0))) [
      | inl f ↦ absurd (d (eqb_ℤ→eq s.idle_timeout_duration (pos 0) f))
      | inr f ↦ rw f e
    ]
Timeout-effective_timeout m s t (inr (d, e)) = rw d e

-- Where the manager's timeouts and the session's are below the largest int64, the condition of
-- cleanupIdleSessions holds exactly when the session is dead and more than a positive retention
-- time has passed since its last activity, or it is idle or starting and more than its positive
-- timeout has passed, which is its own unless that is 0 and then the manager's.
pub is_expired_iff :
    (now : ℤ) (m : Manager) (s : Session)
    → suc (pos_part m.dead_timeout) < sign_bit
    → suc (pos_part m.idle_timeout) < sign_bit
    → suc (pos_part s.idle_timeout_duration) < sign_bit
    → (is_expired now m s ≡ true) ↔ IsExpired now m s
is_expired_iff now m s a b c = (
  λ e. elim ((is_expired-Condition now m s).0 e) [
    | inl (d, z, l) ↦ inl (d, z, (inactive_iff now s.last_activity m.dead_timeout a z).0 l)
    | inr (d, z, l) ↦ inr (
      d,
      (
        effective_timeout m s,
        effective_timeout-Timeout m s,
        z,
        (inactive_iff now s.last_activity (effective_timeout m s) bound z).0 l,
      ),
    )
  ],
  λ e. (is_expired-Condition now m s).1 (elim e [
    | inl (d, z, l) ↦ inl (d, z, (inactive_iff now s.last_activity m.dead_timeout a z).1 l)
    | inr (d, (t, f, z, l)) ↦ (let (x, y) = back t f z l in inr (d, x, y))
  ]),
)
  where
    bound : suc (pos_part (effective_timeout m s)) < sign_bit
    bound = elim (effective_timeout-Timeout m s) [ inl (d, e) ↦ rw e c | inr (d, e) ↦ rw e b ]

    back :
        (t : ℤ)
        → Timeout m s t
        → pos 0 <ℤ t
        → Older s.last_activity now t
        → (pos 0 <ℤ effective_timeout m s) × (effective_timeout m s <ℤ inactive now s)
    back t f z l =
        let g : t ≡ effective_timeout m s = Timeout-effective_timeout m s t f in
        let z' : pos 0 <ℤ effective_timeout m s = subst (λ u. pos 0 <ℤ u) g z in
        (
          z',
          (inactive_iff now s.last_activity (effective_timeout m s) bound z').1
              (subst (λ u. Older s.last_activity now u) g l),
        )
