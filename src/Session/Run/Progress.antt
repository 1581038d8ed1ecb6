-- ===== src/Session/Run/Progress.antt =====
-- Every statement comes to an end, if ExecuteSQL answers.
use native.Mathlib.Decide.{ℕ_discrete}
use livy_next.Prelude.{
  ℕ, zero, suc, ◌<◌, ◌≤◌, ◌≡◌, ◌≢◌, refl, ◌∙◌, ap, inl, inr, Bool, false, List, [], ◌∷◌, Option,
  some, arith, length, get_elem?, Text, Bool-cases, length-set, get_elem?-set_self,
  get_elem?-set_ne, get_elem?-lt, get_elem?-some, if◌then◌else◌, subst,
}
use livy_next.Prelude.Int.{ℤ}
use livy_next.Session.Types.{Session, Statement, QueryResult}
use livy_next.Session.Statements.{is_busy, any_active, start_statement}
use livy_next.Session.Run.{
  Task, ready, executing, finished, System, start, finish, starts, finishes, Reach, here, next,
}
use livy_next.Session.Run.Fit.{AllFit}
use livy_next.Session.Run.Tidy.{Inv}
use livy_next.Session.Run.Invariant.{Reach-Inv}

after :
    {admit : Session → Bool} {x y z : System} → Reach admit x y → Reach admit y z → Reach admit x z
after r here = r
after r (next q s) = next (after r q) s

all_finished :
    (k : ℕ) (sts : List Statement) (ts : List Task)
    → AllFit k sts ts
    → ((j : ℕ) → j < length ts → get_elem? ts j ≡ some finished)
    → any_active sts ≡ false
unfolding any_active
all_finished k [] [] f h = refl
all_finished k [] (t ∷ ts) f h = absurd f
all_finished k (st ∷ sts) [] f h = absurd f
all_finished k (st ∷ sts) (t ∷ ts) f h =
    ground (arith, h 0, all_finished (suc k) sts ts f.1 (λ j l. h (suc j) (omega arith)))

module _ (admit : Session → Bool) (now later : ℤ)
    (answer : ℕ → Option QueryResult × Option Text) where
  -- The system z is reached from y with goroutine i at its end, and the others as they were.
  pub record Ran (i : ℕ) (y z : System) : Type 0 where
    pub reached : Reach admit y z
    pub ended : get_elem? z.tasks i ≡ some finished
    pub as_many : length z.tasks ≡ length y.tasks
    pub others : (j : ℕ) → i ≢ j → get_elem? z.tasks j ≡ get_elem? y.tasks j

  finish-Ran :
      (i : ℕ) (y : System)
      → get_elem? y.tasks i ≡ some executing
      → Ran i y (finish now later i (answer i) y)
  unfolding finish
  finish-Ran i y g = record {
    reached = next here (finishes now later i (answer i) g);
    ended = get_elem?-set_self y.tasks i finished (get_elem?-lt y.tasks i g);
    as_many = length-set y.tasks i finished;
    others = λ j n. get_elem?-set_ne y.tasks finished n;
  }

  -- What the start leaves: a goroutine in ExecuteSQL, or one at its end.
  started : System → ℕ → Task
  started y i = if (start_statement i y.session).1 then executing else finished

  start_task :
      (i : ℕ) (y : System)
      → get_elem? y.tasks i ≡ some ready
      → get_elem? (start i y).tasks i ≡ some (started y i)
  unfolding start started
  start_task i y g = get_elem?-set_self y.tasks i (started y i) (get_elem?-lt y.tasks i g)

  start-Ran :
      (i : ℕ) (y z : System) → get_elem? y.tasks i ≡ some ready → Ran i (start i y) z → Ran i y z
  unfolding start started
  start-Ran i y z g r = record {
    reached = after (next here (starts i g)) r.reached;
    ended = r.ended;
    as_many = r.as_many ∙ length-set y.tasks i (started y i);
    others = λ j n. r.others j n ∙ get_elem?-set_ne y.tasks (started y i) n;
  }

  still-Ran : (i : ℕ) (y : System) → get_elem? y.tasks i ≡ some finished → Ran i y y
  still-Ran i y g = record { reached = here; ended = g; as_many = refl; others = λ j n. refl }

  run_task :
      (i : ℕ) (y : System) (t : Task) → get_elem? y.tasks i ≡ some t → (z : System) × Ran i y z
  unfolding started
  run_task i y finished g = (y, still-Ran i y g)
  run_task i y executing g = (finish now later i (answer i) y, finish-Ran i y g)
  run_task i y ready g = elim (Bool-cases (start_statement i y.session).1) [
    | inl b ↦
        let e : get_elem? (start i y).tasks i ≡ some executing =
          start_task i y g ∙ ap (λ c. some (if c then executing else finished)) b in
        (_, start-Ran i y _ g (finish-Ran i (start i y) e))
    | inr b ↦
        let e : get_elem? (start i y).tasks i ≡ some finished =
          start_task i y g ∙ ap (λ c. some (if c then executing else finished)) b in
        (_, start-Ran i y _ g (still-Ran i (start i y) e))
  ]

  -- The first n goroutines are run to their ends.
  drain :
      (n : ℕ) (y : System)
      → n ≤ length y.tasks
      → (z : System) × Reach admit y z
        × (length z.tasks ≡ length y.tasks)
        × ((j : ℕ) → j < n → get_elem? z.tasks j ≡ some finished)
  drain zero y h = (y, here, refl, λ j k. absurd (omega arith))
  drain (suc n) y h =
      let (z, r, l, f) = drain n y (omega arith) in
      let (t, g) = get_elem?-some z.tasks n (omega arith) in
      let (w, ran) = run_task n z t g in
      (
        w,
        after r ran.reached,
        ran.as_many ∙ l,
        λ j k. elim (ℕ_discrete n j) [
          | yes e ↦ subst (λ m. get_elem? w.tasks m ≡ some finished) e ran.ended
          | no d ↦ ran.others j d ∙ f j (omega arith)
        ],
      )

  -- From every system that keeps the invariant, and for any answers of ExecuteSQL, there is a run
  -- to a system in which no statement is waiting or running and the session is not busy.
  pub all_end :
      (y : System)
      → Inv y
      → (z : System) × Reach admit y z
        × (any_active z.session.statements ≡ false)
        × (is_busy z.session.state ≡ false)
  all_end y v =
      let (z, r, l, f) = drain (length y.tasks) y (omega arith) in
      let w : Inv z = Reach-Inv v r in
      let a : any_active z.session.statements ≡ false =
        all_finished 0 z.session.statements z.tasks w.fitting (λ j k. f j (omega arith)) in
      (z, r, a, ground (arith, w.tidy.busy_active))
