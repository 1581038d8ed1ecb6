-- ===== src/Server/Clients.antt =====
-- What the creation of a client does with the client: it is handed over after all the settings, or
-- closed once.
use mathlib.Core.List.{append_assoc}
use livy_next.Prelude.{
  ◌≡◌, refl, ◌⊎◌, inl, inr, sym, ◌∙◌, ap, Bool, true, false, List, [], ◌∷◌, ◌++◌, map, Option, none,
  some, arith, Text, codes, ◌||◌, Bool-cases,
}
use livy_next.Session.Types.{SparkClient, SessionCreateParams}
use livy_next.Server.{
  built, not_built, Call, sets, executes, closes, Settings, is_fatal, is_error, before, apply_conf,
  add_jars, and_then, set_up, with_client, remote_of, creator,
}

abbrev pub is_close : Call → Bool
is_close closes = true
is_close _ = false

abbrev pub any_close : List Call → Bool
any_close [] = false
any_close (call ∷ calls) = is_close call || any_close calls

-- The last call closes the client, and no other does.
pub record Ends (calls : List Call) : Type 0 where
  pub first : List Call
  pub split : calls ≡ first ++ closes ∷ []
  pub none_closes : any_close first ≡ false

-- The calls that give a client all of its settings.
abbrev pub all_calls : List (Text × Text) → List Text → List Call
all_calls conf jars =
    map (λ e. sets e.0 e.1) conf ++ map (λ jar. executes (codes "ADD JAR " ++ jar)) jars

-- No setting is refused but for being static.
abbrev pub Accepts : SparkClient → List (Text × Text) → Type 0
Accepts c [] = Unit {0}
Accepts c ((k, v) ∷ conf) = (is_fatal (c.set_config k v) ≡ false) × Accepts c conf

abbrev pub Adds : SparkClient → List Text → Type 0
Adds c [] = Unit {0}
Adds c (jar ∷ jars) = (is_error (c.execute_sql (codes "ADD JAR " ++ jar)).1 ≡ false) × Adds c jars

-- A result with an error, after the client has been closed.
abbrev pub Fails : List Call × Option Text → Type 0
Fails r = (e : Text) × (r.1 ≡ some e) × Ends r.0

before-Fails :
    (call : Call) (r : List Call × Option Text)
    → is_close call ≡ false
    → Fails r
    → Fails (before call r)
before-Fails call (calls, o) h (e, f, v) = (
  e,
  f,
  record {
    first = call ∷ v.first;
    split = ap (◌∷◌ call) v.split;
    none_closes = rw h v.none_closes;
  },
)

apply_conf_lem :
    (c : SparkClient) (conf : List (Text × Text))
    → ((apply_conf c conf ≡ (map (λ e. sets e.0 e.1) conf, none)) × Accepts c conf)
      ⊎ Fails (apply_conf c conf)
unfolding apply_conf
apply_conf_lem c [] = inl (refl, tt)
apply_conf_lem c ((k, v) ∷ conf) = elim (Bool-cases (is_fatal (c.set_config k v))) [
  | inl e ↦
      inr (rw e ((_, refl, record { first = sets k v ∷ []; split = refl; none_closes = refl })))
  | inr e ↦ elim (apply_conf_lem c conf) [
    | inl (f, a) ↦ inl (rw e (ap (before (sets k v)) f), (e, a))
    | inr f ↦ inr (rw e (before-Fails (sets k v) (apply_conf c conf) refl f))
  ]
]

add_jars_lem :
    (c : SparkClient) (jars : List Text)
    → ((add_jars c jars ≡ (map (λ jar. executes (codes "ADD JAR " ++ jar)) jars, none))
        × Adds c jars)
      ⊎ Fails (add_jars c jars)
unfolding add_jars
add_jars_lem c [] = inl (refl, tt)
add_jars_lem c (jar ∷ jars) =
    elim (Bool-cases (is_error (c.execute_sql (codes "ADD JAR " ++ jar)).1)) [
      | inl e ↦ inr (
          rw e (
            (
              _,
              refl,
              record {
                first = executes (codes "ADD JAR " ++ jar) ∷ [];
                split = refl;
                none_closes = refl;
              },
            )))
      | inr e ↦ elim (add_jars_lem c jars) [
        | inl (f, a) ↦ inl (rw e (ap (before (executes (codes "ADD JAR " ++ jar))) f), (e, a))
        | inr f ↦
            inr (rw e (before-Fails (executes (codes "ADD JAR " ++ jar)) (add_jars c jars) refl f))
      ]
    ]

sets-open : (conf : List (Text × Text)) → any_close (map (λ e. sets e.0 e.1) conf) ≡ false
sets-open [] = refl
sets-open ((k, v) ∷ conf) = sets-open conf

any_close-append :
    (xs ys : List Call) → any_close xs ≡ false → any_close ys ≡ false → any_close (xs ++ ys) ≡ false
any_close-append [] ys h k = k
any_close-append (x ∷ xs) ys h k = ground (arith, any_close-append xs ys)

append-Fails :
    (xs : List Call) (r : List Call × Option Text)
    → any_close xs ≡ false
    → Fails r
    → Fails (and_then (xs, none) r)
append-Fails xs (calls, o) h (e, f, v) = (
  e,
  f,
  record {
    first = xs ++ v.first;
    split = ap (λ ys. xs ++ ys) v.split ∙ sym (append_assoc xs v.first (closes ∷ []));
    none_closes = any_close-append xs v.first h v.none_closes;
  },
)

and_then-Fails : (r s : List Call × Option Text) → Fails r → Fails (and_then r s)
and_then-Fails (calls, none) s (e, f, v) = cc
and_then-Fails (calls, some x) s (e, f, v) = (e, f, v)

set_up_lem :
    (c : SparkClient) (params : SessionCreateParams)
    → ((set_up c params ≡ (all_calls params.conf params.jars, none))
        × Accepts c params.conf
        × Adds c params.jars)
      ⊎ Fails (set_up c params)
unfolding set_up
set_up_lem c params = elim (apply_conf_lem c params.conf) [
  | inr f ↦ inr (and_then-Fails (apply_conf c params.conf) (add_jars c params.jars) f)
  | inl (e, a) ↦ elim (add_jars_lem c params.jars) [
    | inl (f, b) ↦ inl (rw (e, f), a, b)
    | inr f ↦ inr (rw e (append-Fails _ (add_jars c params.jars) (sets-open params.conf) f))
  ]
]

-- Outside mock mode, where NewClient answers a client, its creation either hands the client over
-- after setting each configuration entry and adding each jar, in order, each of them accepted (a
-- static entry may be refused) and the client never closed; or returns an error, and then its
-- last call closes the client, which no call before does.
pub creator_lem :
    (s : Settings) (params : SessionCreateParams) {c : SparkClient}
    → s.mock_mode ≡ false
    → s.new_client (remote_of s params) params.name s.statement_limit ≡ built c
    → ((creator s params ≡ (all_calls params.conf params.jars, built c))
        × Accepts c params.conf
        × Adds c params.jars)
      ⊎ ((e : Text) × ((creator s params).1 ≡ not_built e) × Ends (creator s params).0)
unfolding creator
creator_lem s params {c} m n = elim (set_up_lem c params) [
  | inl (e, a, b) ↦ inl (rw (m, n, with_client) (rw e), a, b)
  | inr (e, f, v) ↦ inr (e, rw (m, n, with_client) (rw f), rw (m, n, with_client) v)
]
