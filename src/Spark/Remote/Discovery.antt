-- ===== src/Spark/Remote/Discovery.antt =====
-- Which of the candidates is the endpoint.
use livy_next.Prelude.{
  ℕ, ◌+◌, ◌≡◌, ◌⊎◌, ◌∙◌, inl, inr, refl, ap, sym, true, false, List, [], ◌∷◌, ◌++◌, map, Option,
  none, some, Text, codes, is_empty, text_eq, ltb, if◌then◌else◌, arith, Bool-cases,
}
use livy_next.Prelude.Int.{pos}
use livy_next.Strconv.{atoi}
use livy_next.Strconv.Decimal.{show_nat, show_int}
use livy_next.Net.{split_host_port}
use livy_next.Net.Parts.{split_host_port-plain}
use livy_next.Spark.Remote.{
  endpoint, is_ok_status, is_up, probe_ports, candidate_ports, remote_port, probed_host, host_of,
  port_of, discover_spark_ui_endpoint,
}
use livy_next.Spark.Remote.Host.{Bare, uri, authority, clean_lem}

-- The URL of a port, without a path.
abbrev pub base : Text → ℕ → Text
base host port = codes "http://" ++ (host ++ (codes ":" ++ show_nat port))

-- The port of the remote, if it is positive, and the fixed ones.
abbrev pub candidates : ℕ → List ℕ
candidates n = (if ltb 0 n then n ∷ [] else []) ++ (4040 ∷ 4041 ∷ 4141 ∷ 4042 ∷ [])

-- 200 or 302
abbrev pub IsGood : Option ℕ → Type 0
IsGood status = (status ≡ some 200) ⊎ (status ≡ some 302)

is_ok_status-IsGood : (o : Option ℕ) → is_ok_status o ≡ true → IsGood o
unfolding is_ok_status
is_ok_status-IsGood none h = absurd cc
is_ok_status-IsGood (some n) h = ground arith

not_ok_status : (o : Option ℕ) → is_ok_status o ≡ false → ¬ IsGood o
unfolding is_ok_status
not_ok_status o h (inl e) =
    let g : is_ok_status (some 200) ≡ false = sym (ap is_ok_status e) ∙ h in absurd cc
not_ok_status o h (inr e) =
    let g : is_ok_status (some 302) ≡ false = sym (ap is_ok_status e) ∙ h in absurd cc

module _ (get : Text → Option ℕ) (host : Text) where
  -- A port answers at /connect/ or at the root.
  abbrev pub Up : ℕ → Type 0
  Up port =
      IsGood (get (base host port ++ codes "/connect/"))
      ⊎ IsGood (get (base host port ++ codes "/"))

  -- None of the ports answers.
  abbrev pub AllDown : List ℕ → Type 0
  AllDown [] = Unit {0}
  AllDown (port ∷ ports) = (¬ Up port) × AllDown ports

  -- The first port that answers, with those before it and after it.
  pub record FirstUp (ports : List ℕ) (answer : Text) : Type 0 where
    pub before : List ℕ
    pub port : ℕ
    pub after : List ℕ
    pub split : ports ≡ before ++ port ∷ after
    pub down : AllDown before
    pub up : Up port
    pub is_answer : answer ≡ base host port

  -- The URL of the first port that answers, or of 4040 where none does.
  abbrev pub Finds : List ℕ → Text → Type 0
  Finds ports answer = FirstUp ports answer ⊎ (AllDown ports × (answer ≡ base host 4040))

  is_up-Up : (port : ℕ) → is_up get host (pos port) ≡ true → Up port
  unfolding is_up endpoint show_int
  is_up-Up port h = elim (Bool-cases (is_ok_status (get (base host port ++ codes "/connect/")))) [
    | inl e ↦ inl (is_ok_status-IsGood _ e)
    | inr e ↦ inr (is_ok_status-IsGood _ (rw e at h))
  ]

  not-Up : (port : ℕ) → is_up get host (pos port) ≡ false → ¬ Up port
  unfolding is_up endpoint show_int
  not-Up port h u = elim (Bool-cases (is_ok_status (get (base host port ++ codes "/connect/")))) [
    | inl e ↦ (let g : true ≡ false = rw e at h in absurd cc)
    | inr e ↦ elim u [ inl v ↦ not_ok_status _ e v | inr v ↦ not_ok_status _ (rw e at h) v ]
  ]

  later :
      (port : ℕ) (ports : List ℕ) (answer : Text)
      → ¬ Up port
      → Finds ports answer
      → Finds (port ∷ ports) answer
  later port ports answer e (inl f) = inl (record {
    before = port ∷ f.before;
    port = f.port;
    after = f.after;
    split = ap (◌∷◌ port) f.split;
    down = (e, f.down);
    up = f.up;
    is_answer = f.is_answer;
  })
  later port ports answer e (inr (d, a)) = inr ((e, d), a)

  probe_ports-Finds : (ports : List ℕ) → Finds ports (probe_ports get host (map pos ports))
  unfolding probe_ports endpoint show_int
  probe_ports-Finds [] = inr (tt, refl)
  probe_ports-Finds (port ∷ ports) = elim (Bool-cases (is_up get host (pos port))) [
    | inl e ↦ rw e (
        inl (record {
          before = [];
          port = port;
          after = ports;
          split = refl;
          down = tt;
          up = is_up-Up port e;
          is_answer = refl;
        }))
    | inr e ↦ rw e (later port ports _ (not-Up port e) (probe_ports-Finds ports))
  ]

candidate_ports_lem :
    (port : Text) (n : ℕ) → atoi port ≡ some (pos n) → candidate_ports port ≡ map pos (candidates n)
unfolding candidate_ports remote_port
candidate_ports_lem [] n h = absurd (let g : none ≡ some (pos n) = unfold atoi in h in cc)
candidate_ports_lem (c ∷ port) n h = rw h (elim (Bool-cases (ltb 0 n)) [
  | inl e ↦ (let f : ltb 0 (n + 0) ≡ true = ground arith in rw (f, e) refl)
  | inr e ↦ (let f : ltb 0 (n + 0) ≡ false = ground arith in rw (f, e) refl)
])

-- For a remote sc://host:port/;params with any parameters, a host that is not empty, a host and a
-- port without colons, semicolons, slashes and square brackets, and a port that Atoi reads as a
-- number from 0 on, DiscoverSparkUIEndpoint answers http://host:p for the first p of the port, if
-- it is not 0, and of 4040, 4041, 4141 and 4042 for which a GET of /connect/ or of / answers 200
-- or 302, and with 4040 for p if there is none; for the host 0.0.0.0 it is 127.0.0.1.
pub discover_lem :
    (get : Text → Option ℕ) (host port params : Text) (n : ℕ)
    → Bare host
    → Bare port
    → is_empty host ≡ false
    → atoi port ≡ some (pos n)
    → Finds get
        (if text_eq host (codes "0.0.0.0") then codes "127.0.0.1" else host)
        (candidates n)
        (discover_spark_ui_endpoint get (uri host port params))
unfolding discover_spark_ui_endpoint host_of port_of
discover_lem get host port params n h p e a =
    let target = if text_eq host (codes "0.0.0.0") then codes "127.0.0.1" else host in
    let s : split_host_port (authority host port) ≡ some (host, port) =
      split_host_port-plain host port h.no_colon h.no_open h.no_close p.no_colon p.no_open
        p.no_close in
    let t : probed_host (uri host port params) host ≡ target = unfold probed_host in rw e refl in
    rw (clean_lem host port params h p)
      (rw s (rw (t, candidate_ports_lem port n a) (probe_ports-Finds get target (candidates n))))
