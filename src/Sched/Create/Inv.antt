-- ===== src/Sched/Create/Inv.antt =====
-- Creating a task, and changing its priority, keep the scheduler's invariant.
use native.Mathlib.Decide.{dec_lt}
use fobos_os.Base.{
  ℕ, ◌+◌, ◌≤◌, ◌<◌, ◌≡◌, refl, ◌≢◌, ap, subst, sym, ◌∙◌, ◌⊎◌, inl, inr, none, some, List, [], ◌∷◌,
  ◌++◌, Bool-cases, leb, length, get_elem?, modify, length-append, get_elem?-append, get_elem?-lt,
  arith,
}
use fobos_os.Base.Int.{ℤ, pos, negsuc}
use fobos_os.Sched.{
  Tcb, Sched, ready, running, sleeping, set_tasks, max_tasks, clamp_priority, sched_set_priority,
  sched_wake, wake_task,
}
use fobos_os.Sched.Inv.{At, Sane, At-modify_self, At-modify_ne, modify-Sane}
use fobos_os.Sched.Create.{new_tcb, frame_of, sched_create_common}

pub clamp_priority-le : (p : ℤ) → clamp_priority p ≤ 31
unfolding clamp_priority
clamp_priority-le (pos n) = ground arith
clamp_priority-le (negsuc n) = omega arith

abbrev added : Sched → Tcb → List Tcb
added s t = s.tasks ++ (t ∷ [])

At-added :
    (s : Sched) (t : Tcb) (i : ℕ) (u : Tcb)
    → get_elem? (added s t) i ≡ some u
    → At s i u ⊎ ((i ≡ length s.tasks) × (u ≡ t))
At-added s t i u h = elim (dec_lt i (length s.tasks)) [
  | yes p ↦ inl (ground (arith, get_elem?-append s.tasks (t ∷ []) i))
  | no p ↦
      let lt : i < length (added s t) = get_elem?-lt (added s t) i h in
      let e : i ≡ length s.tasks = omega (arith, length-append s.tasks (t ∷ [])) in
      inr (e, ground (arith, get_elem?-append s.tasks (t ∷ []) i))
]

-- Adding a task that carries its index as its id and does not run.
added-Sane :
    (s : Sched) (t : Tcb) (w : ℕ → ℕ)
    → Sane s
    → length s.tasks < max_tasks
    → t.id ≡ length s.tasks
    → t.priority ≤ 31
    → t.state ≢ running
    → Sane (record s { tasks = added s t; words = w })
added-Sane s t w v few id pr st = record {
  few = omega (arith, length-append s.tasks (t ∷ []));
  ids = λ i u h. elim (At-added s t i u h) [
    | inl at ↦ v.ids i u at
    | inr (e, same) ↦ ap (λ (x : Tcb). x.id) same ∙ id ∙ sym e
  ];
  prios = λ i u h. elim (At-added s t i u h) [
    | inl at ↦ v.prios i u at
    | inr (e, same) ↦ omega (arith, ap (λ (x : Tcb). x.priority) same)
  ];
  only_current = λ i u h run. elim (At-added s t i u h) [
    | inl at ↦ v.only_current i u at run
    | inr (e, same) ↦ absurd (st (sym (ap (λ (x : Tcb). x.state) same) ∙ run))
  ];
  in_table = λ c h. omega (arith, v.in_table c h, length-append s.tasks (t ∷ []));
}

-- What a successful creation leaves.
pub record Created (s : Sched) (priority : ℤ) (id : ℕ) (s' : Sched) : Type 0 where
  pub next_id : id ≡ length s.tasks
  pub count : length s'.tasks ≡ length s.tasks + 1
  pub sane : Sane s'
  pub others : (i : ℕ) (t : Tcb) → At s i t → At s' i t
  pub task : Tcb
  pub found : At s' id task
  pub is_ready : task.state ≡ ready
  pub clamped : task.priority ≡ clamp_priority priority

-- `sched_create_common` refuses exactly when 16 tasks exist, and then changes nothing; else it
-- returns the next index, where a ready task with the clamped priority is added, keeps every other
-- task as it is, and keeps the invariant.
pub sched_create_common_lem :
    (pool stub : ℕ) (name : List ℕ) (entry : ℕ) (priority : ℤ) (period_ms : ℕ) {s : Sched}
    → Sane s
    → let (o, s') = sched_create_common pool stub name entry priority period_ms s in
      ((length s.tasks ≡ max_tasks) × (o ≡ none) × (s' ≡ s))
      ⊎ ((id : ℕ) × (o ≡ some id) × Created s priority id s')
unfolding sched_create_common
sched_create_common_lem pool stub name entry priority period_ms {s} v =
    let id = length s.tasks in
    let t' = new_tcb pool id name entry (clamp_priority priority) period_ms in
    let t = record t' { rsp = frame_of t' } in
    elim (Bool-cases (leb max_tasks id)) [
      | inl e ↦ rw e (inl (ground (arith, v.few), refl, refl))
      | inr e ↦ rw e (
          inr (
            id,
            refl,
            record {
              next_id = refl;
              count = omega (arith, length-append s.tasks (t ∷ []));
              sane =
                  added-Sane s t _ v (ground arith) refl (clamp_priority-le priority)
                    (λ st. ground arith);
              others = λ i u at.
                  ground (arith, get_elem?-append s.tasks (t ∷ []) i, get_elem?-lt s.tasks i at);
              task = t;
              found = ground (arith, get_elem?-append s.tasks (t ∷ []) id);
              is_ready = refl;
              clamped = refl;
            },
          ))
    ]

-- `sched_set_priority` keeps the invariant whatever number it is given.
pub sched_set_priority-Sane :
    {s : Sched} (id : ℕ) (priority : ℤ) → Sane s → Sane (sched_set_priority id priority s)
unfolding sched_set_priority
sched_set_priority-Sane {s} id priority v =
    modify-Sane s id _ v (λ t. (refl, λ h. clamp_priority-le priority))
      (λ t at st. v.only_current id t at st)

-- `sched_wake` keeps the invariant, makes a sleeping task ready and does nothing to any other.
pub sched_wake_lem :
    {s : Sched} (id : ℕ)
    → Sane s
    → let s' = sched_wake id s in
      Sane s'
      × ((t : Tcb) → At s id t → t.state ≡ sleeping → (u : Tcb) × At s' id u × (u.state ≡ ready))
      × ((t : Tcb) → At s id t → t.state ≢ sleeping → At s' id t)
      × ((i : ℕ) (t : Tcb) → i ≢ id → At s i t → At s' i t)
unfolding sched_wake
sched_wake_lem {s} id v = (
  modify-Sane s id wake_task v (λ t. (ground arith, λ h. ground arith))
      (λ t at st. v.only_current id t at (ground arith)),
  λ t at st. (wake_task t, At-modify_self s id wake_task t at, ground arith),
  λ t at st.
      subst (At (set_tasks s (modify id wake_task s.tasks)) id) (ground arith)
        (At-modify_self s id wake_task t at),
  λ i t ne at. At-modify_ne s id wake_task i t ne at,
)
