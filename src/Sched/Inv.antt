-- ===== src/Sched/Inv.antt =====
-- The invariant of the scheduler's table, and how a change of one task keeps it.
use native.Mathlib.Decide.{ℕ_discrete}
use fobos_os.Base.{
  ℕ, ◌≤◌, ◌<◌, ◌≡◌, refl, ◌≢◌, ap, subst, some, arith, inl, inr, Option-cases, ◌==◌, if◌then◌else◌,
  length, get_elem?, modify, get_elem?-modify, length-modify, get_elem?-lt, get_elem?-some,
}
use fobos_os.Sched.{Tcb, Sched, running, set_state, set_tasks, switch_in, max_tasks}

-- Task `t` stands at index `i`.
abbrev pub At : Sched → ℕ → Tcb → Type 0
At s i t = get_elem? s.tasks i ≡ some t

-- What holds whenever the scheduler is entered: the ids are the indices, the priorities are in
-- range, and no task but the current one is marked as running.
pub record Sane (s : Sched) : Type 0 where
  pub few : length s.tasks ≤ max_tasks
  pub ids : (i : ℕ) (t : Tcb) → At s i t → t.id ≡ i
  pub prios : (i : ℕ) (t : Tcb) → At s i t → t.priority ≤ 31
  pub only_current : (i : ℕ) (t : Tcb) → At s i t → t.state ≡ running → s.current ≡ some i
  pub in_table : (c : ℕ) → s.current ≡ some c → c < length s.tasks

-- The current task, if there is one, is marked as running.
abbrev pub Runs : Sched → Type 0
Runs s = (c : ℕ) → s.current ≡ some c → (t : Tcb) × At s c t × (t.state ≡ running)

-- No task is marked as running.
abbrev pub Idle : Sched → Type 0
Idle s = (i : ℕ) (t : Tcb) → At s i t → t.state ≢ running

-- A change that leaves the id alone, and the priority in range.
abbrev pub Mild : (Tcb → Tcb) → Type 0
Mild f = (t : Tcb) → ((f t).id ≡ t.id) × (t.priority ≤ 31 → (f t).priority ≤ 31)

module _ (s : Sched) (c : ℕ) (f : Tcb → Tcb) where
  -- A task of the changed table is a task of the old one, changed if it is number `c`.
  pub At-modify :
      (i : ℕ) (u : Tcb)
      → At (set_tasks s (modify c f s.tasks)) i u
      → (t : Tcb) × At s i t × (u ≡ (if i == c then f t else t))
  At-modify i u h = elim (Option-cases (get_elem? s.tasks i)) [
    | inl e ↦ ground (arith, get_elem?-modify c f s.tasks i)
    | inr (t, e) ↦ (t, e, ground (arith, get_elem?-modify c f s.tasks i))
  ]

  pub At-modify_self : (t : Tcb) → At s c t → At (set_tasks s (modify c f s.tasks)) c (f t)
  At-modify_self t h = ground (arith, get_elem?-modify c f s.tasks c)

  pub At-modify_ne :
      (i : ℕ) (t : Tcb) → i ≢ c → At s i t → At (set_tasks s (modify c f s.tasks)) i t
  At-modify_ne i t ne h = ground (arith, get_elem?-modify c f s.tasks i)

  pub modify-Sane :
      Sane s
      → Mild f
      → ((t : Tcb) → At s c t → (f t).state ≡ running → s.current ≡ some c)
      → Sane (set_tasks s (modify c f s.tasks))
  modify-Sane v mild quiet = record {
    few = rw (length-modify c f s.tasks) v.few;
    ids = λ i u h. let (t, at, e) = At-modify i u h in ground (arith, v.ids i t at, mild t);
    prios = λ i u h. let (t, at, e) = At-modify i u h in ground (arith, v.prios i t at, (mild t).1);
    only_current = λ i u h st.
        let (t, at, e) = At-modify i u h in
        elim (ℕ_discrete i c) [
          | yes p ↦ let at_c : At s c t = subst (λ j. At s j t) p at in ground (arith, quiet t at_c)
          | no p ↦ ground (arith, v.only_current i t at)
        ];
    in_table = λ j h. rw (length-modify c f s.tasks) (v.in_table j h);
  }

module _ {s : Sched} (c : ℕ) (f : Tcb → Tcb) where
  -- The current task stops running.
  pub modify-Idle :
      Sane s
      → s.current ≡ some c
      → ((t : Tcb) → At s c t → (f t).state ≢ running)
      → Idle (set_tasks s (modify c f s.tasks))
  modify-Idle v cur stops i u h st =
      let (t, at, e) = At-modify s c f i u h in
      elim (ℕ_discrete i c) [
        | yes p ↦ let at_c : At s c t = subst (λ j. At s j t) p at in stops t at_c (ground arith)
        | no p ↦ ground (arith, v.only_current i t at)
      ]

pub set_running-Mild : Mild (set_state running)
set_running-Mild t = (refl, λ h. h)

-- The current task runs on.
pub run_on :
    {s : Sched} (c : ℕ)
    → Sane s
    → s.current ≡ some c
    → let s' = set_tasks s (modify c (set_state running) s.tasks) in Sane s' × Runs s'
run_on {s} c v cur = (
  modify-Sane s c (set_state running) v set_running-Mild (λ t at st. cur),
  λ d e.
      let (t, at) = get_elem?-some s.tasks c (v.in_table c cur) in
      let same : c ≡ d = ground arith in
      (
        set_state running t,
        subst (λ j. At (set_tasks s (modify c (set_state running) s.tasks)) j (set_state running t))
            same (At-modify_self s c (set_state running) t at),
        refl,
      ),
)

-- Another task is switched in while nobody runs.
pub switch_in-Sane :
    {s : Sched} (n : ℕ) (t : Tcb)
    → Sane s
    → Idle s
    → At s n t
    → let s' = switch_in n s in
      Sane s'
      × Runs s'
      × (s'.current ≡ some n)
      × (s'.switch_rsp ≡ t.rsp)
      × (s'.tasks ≡ modify n (set_state running) s.tasks)
unfolding switch_in
switch_in-Sane {s} n t v idle at =
    let chosen : Sched = record s { switch_rsp = t.rsp; current = some t.id } in
    let here : chosen.current ≡ some n = ap some (v.ids n t at) in
    let v' : Sane chosen = record {
      few = v.few;
      ids = v.ids;
      prios = v.prios;
      only_current = λ i u h st. absurd (idle i u h st);
      in_table = λ c e. ground (arith, get_elem?-lt s.tasks n at, v.ids n t at);
    } in
    let (sane, runs) = run_on n v' here in rw (at, switch_in) (sane, runs, here, refl, refl)
