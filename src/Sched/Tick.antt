-- ===== src/Sched/Tick.antt =====
-- `sched_timer_tick` of kernel/sched.c: waking, charging the running task, preemption, rotation.
use native.Mathlib.Decide.{ℕ_discrete}
use fobos_os.Base.{
  ℕ, zero, suc, ◌-◌, ◌≤◌, ◌<◌, ◌≡◌, refl, ◌≢◌, sym, ap, ◌∙◌, subst, true, false, some, List, [],
  ◌∷◌, map, arith, inl, inr, Option-cases, Bool-cases, ltb, ◌==◌, length, get_elem?, modify,
  length-map, get_elem?-lt, inc64,
}
use fobos_os.Sched.{
  Tcb, Sched, ready, running, sleeping, is_running, set_state, set_tasks, pick_next,
  pick_higher_than, switch_in, wake_due, preempt, rotate, charge, sched_timer_tick,
}
use fobos_os.Sched.Pick.{Choice, Picked, NonePicked, pick_higher_than-Choice}
use fobos_os.Sched.Inv.{
  At, Sane, Runs, Idle, At-modify, At-modify_self, At-modify_ne, modify-Sane, modify-Idle, run_on,
}
use fobos_os.Sched.Switch.{MostUrgent, MostUrgent-of_pick, switch_in-MostUrgent, picked, none_ready}

get_elem?-map :
    (f : Tcb → Tcb) (l : List Tcb) (i : ℕ) (u : Tcb)
    → get_elem? (map f l) i ≡ some u
    → (t : Tcb) × (get_elem? l i ≡ some t) × (u ≡ f t)
get_elem?-map f [] i u h = ground arith
get_elem?-map f (x ∷ l) zero u h = (x, refl, ground arith)
get_elem?-map f (x ∷ l) (suc i) u h = get_elem?-map f l i u h

get_elem?-map_eq :
    (f : Tcb → Tcb) (l : List Tcb) (i : ℕ) (t : Tcb)
    → get_elem? l i ≡ some t
    → get_elem? (map f l) i ≡ some (f t)
get_elem?-map_eq f [] i t h = ground arith
get_elem?-map_eq f (x ∷ l) zero t h = ground arith
get_elem?-map_eq f (x ∷ l) (suc i) t h = get_elem?-map_eq f l i t h

Runs-of_At :
    (s : Sched) (c : ℕ) (t : Tcb) → s.current ≡ some c → At s c t → t.state ≡ running → Runs s
Runs-of_At s c t cur at st d h = let e : c ≡ d = ground arith in (t, subst (λ j. At s j t) e at, st)

-- The table after the waking loop.
abbrev pub woken : ℕ → Sched → Sched
woken now s = set_tasks s (map (wake_due now) s.tasks)

wake_due_lem :
    (now : ℕ) (t : Tcb)
    → ((wake_due now t).id ≡ t.id)
      × ((wake_due now t).priority ≡ t.priority)
      × ((wake_due now t).state ≡ running → t.state ≡ running)
      × (t.state ≡ running → wake_due now t ≡ t)
unfolding wake_due
wake_due_lem now t = ground arith

woken-Sane : {s : Sched} (now : ℕ) → Sane s → Sane (woken now s)
woken-Sane {s} now v = record {
  few = rw (length-map s.tasks (wake_due now)) v.few;
  ids = λ i u h.
      let (t, at, e) = get_elem?-map (wake_due now) s.tasks i u h in
      ap (λ (x : Tcb). x.id) e ∙ (wake_due_lem now t).0 ∙ v.ids i t at;
  prios = λ i u h.
      let (t, at, e) = get_elem?-map (wake_due now) s.tasks i u h in
      omega (arith, ap (λ (x : Tcb). x.priority) e, (wake_due_lem now t).1, v.prios i t at);
  only_current = λ i u h st.
      let (t, at, e) = get_elem?-map (wake_due now) s.tasks i u h in
      v.only_current i t at ((wake_due_lem now t).2 (sym (ap (λ (x : Tcb). x.state) e) ∙ st));
  in_table = λ c h. rw (length-map s.tasks (wake_due now)) (v.in_table c h);
}

woken-Runs : (s : Sched) (now : ℕ) → Runs s → Runs (woken now s)
woken-Runs s now runs c cur =
    let (t, at, st) = runs c cur in
    (
      wake_due now t,
      get_elem?-map_eq (wake_due now) s.tasks c t at,
      ap (λ (x : Tcb). x.state) ((wake_due_lem now t).3 st) ∙ st,
    )

-- The loop wakes exactly the sleepers whose time has come, and leaves all others as they are.
pub wake_due-exact :
    (now : ℕ) (t : Tcb)
    → (t.state ≡ sleeping → t.sleep_until_ms ≤ now → (wake_due now t).state ≡ ready)
      × (t.state ≡ sleeping → now < t.sleep_until_ms → wake_due now t ≡ t)
      × (t.state ≢ sleeping → wake_due now t ≡ t)
unfolding wake_due
wake_due-exact now t = (λ a b. ground arith, λ a b. ground arith, λ a. ground arith)

module _ {s : Sched} (r c : ℕ) (cur : Tcb) (v : Sane s) (now : s.current ≡ some c)
    (at_c : At s c cur) (run : cur.state ≡ running) where
  -- The table with one millisecond less for the running task.
  abbrev charged : Sched
  charged = set_tasks s (modify c (λ t. record t { remaining_ms = cur.remaining_ms - 1 }) s.tasks)

  charged-Sane : Sane charged
  charged-Sane = modify-Sane s c _ v (λ t. (refl, λ h. h)) (λ t a st. now)

  charged_self : At charged c (record cur { remaining_ms = cur.remaining_ms - 1 })
  charged_self = At-modify_self s c _ cur at_c

  -- The running task once it has made room for a more urgent one.
  abbrev ousted : Sched
  ousted = set_tasks charged (
      modify c (λ t. record t { state = ready; rsp = r; switch_count = inc64 t.switch_count })
        charged.tasks)

  ousted-Sane : Sane ousted
  ousted-Sane = modify-Sane charged c _ charged-Sane (λ t. (refl, λ h. h)) (λ t a st. ground arith)

  ousted-Idle : Idle ousted
  ousted-Idle = modify-Idle c _ charged-Sane now (λ t a h. ground arith)

  -- A task of the ousted table is the former running one, or an untouched one.
  At-ousted :
      (i : ℕ) (u : Tcb)
      → At ousted i u
      → (i ≡ c → u.priority ≡ cur.priority) × (i ≢ c → At charged i u)
  At-ousted i u h =
      let (t, at, e) = At-modify charged c _ i u h in
      (
        λ p. ground (arith, sym (ap (get_elem? charged.tasks) p) ∙ at, charged_self),
        λ p. ground arith,
      )

  -- Switching to the task that `pick_higher_than` has found.
  oust_lem :
      (h : ℕ)
      → Picked (λ k. k) charged.tasks cur.priority (length charged.tasks) h
      → let s' = switch_in h ousted in Sane s' × Runs s' × MostUrgent s'
  oust_lem h p =
      let at : At charged h p.task = ap (get_elem? charged.tasks) p.here ∙ p.found.0 in
      let ne : h ≢ c =
        λ q. ground (arith, sym (ap (get_elem? charged.tasks) q) ∙ at, charged_self, p.found.1) in
      let there : At ousted h p.task = At-modify_ne charged c _ h p.task ne at in
      switch_in-MostUrgent h p.task ousted-Sane ousted-Idle there λ i u at_u st.
        let (old, other) = At-ousted i u at_u in
        elim (ℕ_discrete i c) [
          | yes q ↦ omega (arith, old q, p.below)
          | no q ↦ p.least i u (get_elem?-lt charged.tasks i (other q)) (other q, st)
        ]

  preempt_lem :
      let s' = preempt r c (pick_higher_than cur.priority charged) charged in
      Sane s' × Runs s' × MostUrgent s'
  unfolding preempt
  preempt_lem = elim (Option-cases (pick_higher_than cur.priority charged)) [
    | inl e ↦
        let least : NonePicked (λ k. k) charged.tasks cur.priority (length charged.tasks) =
          subst (Choice (λ k. k) charged.tasks cur.priority (length charged.tasks)) e
            (pick_higher_than-Choice cur.priority charged) in
        let cur' = record cur { remaining_ms = cur.remaining_ms - 1 } in
        rw e (
          charged-Sane,
          Runs-of_At charged c cur' now charged_self run,
          (
            c,
            cur',
            now,
            charged_self,
            run,
            λ i u a st. least i u (get_elem?-lt charged.tasks i a) (a, st),
          ),
        )
    | inr (h, e) ↦ rw e (
        oust_lem h (
          subst (Choice (λ k. k) charged.tasks cur.priority (length charged.tasks)) e
            (pick_higher_than-Choice cur.priority charged)))
  ]

  -- The table in which the next task is looked for when the quantum is used up.
  abbrev spent : Sched
  spent =
      set_tasks s (modify c (λ t. record t { remaining_ms = t.quantum_ms; state = ready }) s.tasks)

  spent-Sane : Sane spent
  spent-Sane = modify-Sane s c _ v (λ t. (refl, λ h. h)) (λ t a st. ground arith)

  spent-Idle : Idle spent
  spent-Idle = modify-Idle c _ v now (λ t a h. ground arith)

  -- The same once the frame of the task that leaves is saved.
  abbrev saved : Sched
  saved =
      set_tasks spent
        (modify c (λ t. record t { rsp = r; switch_count = inc64 t.switch_count }) spent.tasks)

  saved-Sane : Sane saved
  saved-Sane = modify-Sane spent c _ spent-Sane (λ t. (refl, λ h. h)) (λ t a st. now)

  saved-Idle : Idle saved
  saved-Idle = modify-Idle c _ spent-Sane now (λ t a h. spent-Idle c t a h)

  rotate_lem : let s' = rotate r c (pick_next spent) spent in Sane s' × Runs s' × MostUrgent s'
  unfolding rotate
  rotate_lem = elim (Option-cases (pick_next spent)) [
    | inl e ↦ absurd (none_ready spent spent-Sane e c _ (At-modify_self s c _ cur at_c) refl)
    | inr (n, e) ↦ elim (ℕ_discrete n c) [
      | yes p ↦
          let test : (n == c) ≡ true = ground arith in
          let (a, b) = run_on {s = spent} c spent-Sane now in
          rw (e, test)
            (
              a,
              b,
              MostUrgent-of_pick spent (set_tasks spent (modify c (set_state running) spent.tasks))
                  n e (now ∙ ap some (sym p))
                  (ap (λ m. modify m (set_state running) spent.tasks) (sym p)),
            )
      | no p ↦
          let test : (n == c) ≡ false = ground arith in
          let (t, at, st, least) = picked spent n e in
          rw (e, test)
            (switch_in-MostUrgent n t saved-Sane saved-Idle
              (At-modify_ne spent c (λ t. record t { rsp = r; switch_count = inc64 t.switch_count })
                n t p at)
              λ i u at_u su.
                let (u', at', eu) = At-modify spent c _ i u at_u in ground (arith, least i u' at'))
    ]
  ]

  charge_lem : let s' = charge r c cur s in Sane s' × Runs s' × MostUrgent s'
  unfolding charge
  charge_lem = elim (Bool-cases (ltb 0 (cur.remaining_ms - 1))) [
    | inl e ↦ rw e preempt_lem
    | inr e ↦ rw e rotate_lem
  ]

tick_step :
    (s : Sched) (r now c : ℕ) (t : Tcb)
    → s.current ≡ some c
    → At (woken now s) c t
    → is_running t.state ≡ true
    → sched_timer_tick r now s ≡ charge r c t (woken now s)
unfolding sched_timer_tick
tick_step s r now c t cur at run = simp (cur, sched_timer_tick, at, run)

-- A timer tick that finds the current task running leaves a sane table in which exactly the current
-- task runs, and no ready task has a smaller priority number than it: a sleeper that the tick wakes
-- and that is more urgent is switched to at once.
pub sched_timer_tick-MostUrgent :
    {s : Sched} (r now c : ℕ)
    → Sane s
    → Runs s
    → s.current ≡ some c
    → let s' = sched_timer_tick r now s in Sane s' × Runs s' × MostUrgent s'
sched_timer_tick-MostUrgent {s} r now c v runs cur =
    let (t, at, st) = woken-Runs s now runs c cur in
    rw (tick_step s r now c t cur at (rw st)) (charge_lem r c t (woken-Sane now v) cur at st)
