-- ===== src/Sched/Switch.antt =====
-- Giving way in kernel/sched.c: `sched_yield_impl`, with the completeness of `pick_next`.
use native.Mathlib.Decide.{ℕ_discrete, dec_lt}
use native.Mathlib.Nat.{mod-eq_of_lt, mod-eq-sub-mod}
use fobos_os.Base.{
  ℕ, ◌+◌, ◌-◌, ◌%◌, ◌≤◌, ◌<◌, ◌≡◌, refl, ◌≢◌, sym, ap, ◌∙◌, subst, Option, none, some, arith, inl,
  inr, true, false, Option-cases, ◌==◌, if◌then◌else◌, length, get_elem?, modify, get_elem?-lt,
}
use fobos_os.Sched.{
  switch_in, Tcb, Sched, ready, running, set_state, set_tasks, pick_next, from_current,
  after_current, give_way, yield_to, sched_yield_impl,
}
use fobos_os.Sched.Pick.{Choice, Picked, pick_next-Choice}
use fobos_os.Sched.Inv.{
  At, Sane, Runs, Idle, Mild, At-modify, At-modify_self, modify-Sane, modify-Idle, run_on,
  switch_in-Sane,
}

-- Counting round from `a` reaches every index.
round_of : (a i n : ℕ) → a < n → i < n → (k : ℕ) × (k < n) × ((a + k) % n ≡ i)
round_of a i n ha hi = elim (dec_lt i a) [
  | yes p ↦ (
    i + n - a,
    omega arith,
    ap (λ m. m % n) (omega arith)
        ∙ mod-eq-sub-mod {n = i + n} {m = n} (omega arith)
        ∙ ap (λ m. m % n) (omega arith)
        ∙ mod-eq_of_lt hi,
  )
  | no p ↦ (i - a, omega arith, ap (λ m. m % n) (omega arith) ∙ mod-eq_of_lt hi)
]

module _ (s : Sched) where
  pub reached :
      (i : ℕ) → i < length s.tasks → (k : ℕ) × (k < length s.tasks) × (from_current s k ≡ i)
  reached i h =
      round_of (after_current s.current % length s.tasks) i (length s.tasks) (omega arith) h

  Choice-of_eq :
      (o : Option ℕ) → pick_next s ≡ o → Choice (from_current s) s.tasks 999 (length s.tasks) o
  Choice-of_eq o e =
      subst (Choice (from_current s) s.tasks 999 (length s.tasks)) e (pick_next-Choice s)

  -- The chosen task is ready, and no ready task has a smaller priority number.
  pub picked :
      (n : ℕ)
      → pick_next s ≡ some n
      → (t : Tcb) × At s n t
        × (t.state ≡ ready)
        × ((i : ℕ) (u : Tcb) → At s i u → u.state ≡ ready → t.priority ≤ u.priority)
  picked n e =
      let c : Picked (from_current s) s.tasks 999 (length s.tasks) n = Choice-of_eq (some n) e in
      (
        c.task,
        ap (get_elem? s.tasks) c.here ∙ c.found.0,
        c.found.1,
        λ i u at st.
            let (k, hk, ek) = reached i (get_elem?-lt s.tasks i at) in
            c.least k u hk (ap (get_elem? s.tasks) ek ∙ at, st),
      )

  -- If nothing is chosen, no task is ready.
  pub none_ready : Sane s → pick_next s ≡ none → (i : ℕ) (u : Tcb) → At s i u → u.state ≢ ready
  none_ready v e i u at st =
      let (k, hk, ek) = reached i (get_elem?-lt s.tasks i at) in
      let far : 999 ≤ u.priority =
        Choice-of_eq none e k u hk (ap (get_elem? s.tasks) ek ∙ at, st) in
      absurd (omega (arith, v.prios i u at))

abbrev pub or_else : Option ℕ → ℕ → ℕ
or_else none c = c
or_else (some n) c = n

module _ {s : Sched} (c : ℕ) (v : Sane s) (idle : Idle s) (cur : s.current ≡ some c) where
  -- From a table where nobody runs, `yield_to` makes the chosen task the running one.
  pub yield_to-Sane :
      (o : Option ℕ)
      → pick_next s ≡ o
      → let s' = yield_to c o s in
        Sane s'
        × Runs s'
        × (s'.current ≡ some (or_else o c))
        × (s'.tasks ≡ modify (or_else o c) (set_state running) s.tasks)
  unfolding yield_to
  yield_to-Sane none e = let (a, b) = run_on c v cur in (a, b, cur, refl)
  yield_to-Sane (some n) e = elim (ℕ_discrete n c) [
    | yes p ↦
        let test : (n == c) ≡ true = ground arith in
        let (a, b) = run_on c v cur in rw test (a, b, cur ∙ ap some (sym p), rw p refl)
    | no p ↦
        let test : (n == c) ≡ false = ground arith in
        let (t, at, st, least) = picked s n e in
        let (a, b, d, r, l) = switch_in-Sane n t v idle at in rw test (a, b, d, l)
  ]

pub give_way-Mild : (r : ℕ) → Mild (give_way r)
unfolding give_way
give_way-Mild r t = (ground arith, λ h. ground arith)

give_way-stops : (r : ℕ) (t : Tcb) → (give_way r t).state ≢ running
unfolding give_way
give_way-stops r t h = ground arith

-- The table in which `sched_yield_impl` looks for the next task.
abbrev pub given_way : ℕ → ℕ → Sched → Sched
given_way r c s = set_tasks s (modify c (give_way r) s.tasks)

module _ {s : Sched} (r c : ℕ) (v : Sane s) (cur : s.current ≡ some c) where
  pub given_way-Sane : Sane (given_way r c s)
  given_way-Sane =
      modify-Sane s c (give_way r) v (give_way-Mild r) (λ t at st. absurd (give_way-stops r t st))

  given_way-Idle : Idle (given_way r c s)
  given_way-Idle = modify-Idle c (give_way r) v cur (λ t at. give_way-stops r t)

  yield_step : sched_yield_impl r s ≡ yield_to c (pick_next (given_way r c s)) (given_way r c s)
  unfolding sched_yield_impl
  yield_step = simp (cur, sched_yield_impl)

  -- `sched_yield_impl`, entered with a sane table and a current task, leaves a sane table in which
  -- exactly the current task runs. The current task is then what `pick_next` finds once the caller
  -- has given way, or the caller itself if nothing is found.
  pub sched_yield_impl-Sane :
      let s' = sched_yield_impl r s in
      let o = pick_next (given_way r c s) in
      Sane s'
      × Runs s'
      × (s'.current ≡ some (or_else o c))
      × (s'.tasks ≡ modify (or_else o c) (set_state running) (given_way r c s).tasks)
  sched_yield_impl-Sane =
      rw yield_step
        (yield_to-Sane c given_way-Sane given_way-Idle cur (pick_next (given_way r c s)) refl)

-- A task of the table after the switch is one of the table before it, marked as running if it was
-- chosen.
pub At-after :
    (w s' : Sched) (n : ℕ)
    → s'.tasks ≡ modify n (set_state running) w.tasks
    → (i : ℕ) (u : Tcb) → At s' i u
    → (t : Tcb) × At w i t × (u ≡ (if i == n then set_state running t else t))
At-after w s' n e i u h =
    At-modify w n (set_state running) i u (ap (λ l. get_elem? l i) (sym e) ∙ h)

-- The task that runs is at least as urgent as every ready one.
abbrev pub MostUrgent : Sched → Type 0
MostUrgent s =
    (n : ℕ) × (t : Tcb) × (s.current ≡ some n)
    × At s n t
    × (t.state ≡ running)
    × ((i : ℕ) (u : Tcb) → At s i u → u.state ≡ ready → t.priority ≤ u.priority)

-- The same from what a switch to the choice of `pick_next w` leaves.
pub MostUrgent-of_pick :
    (w s' : Sched) (n : ℕ)
    → pick_next w ≡ some n
    → s'.current ≡ some n
    → s'.tasks ≡ modify n (set_state running) w.tasks
    → MostUrgent s'
MostUrgent-of_pick w s' n e cur tasks =
    let (t, at, st, least) = picked w n e in
    (
      n,
      set_state running t,
      cur,
      ap (λ l. get_elem? l n) tasks ∙ At-modify_self w n (set_state running) t at,
      refl,
      λ i u h su. let (t', at', eu) = At-after w s' n tasks i u h in ground (arith, least i t' at'),
    )

-- When the running task yields, the task that runs afterwards has the least priority number of all
-- tasks that are then running or ready: no ready task is more urgent than it.
pub sched_yield_impl-MostUrgent :
    {s : Sched} (r c : ℕ) → Sane s → Runs s → s.current ≡ some c → MostUrgent (sched_yield_impl r s)
sched_yield_impl-MostUrgent {s} r c v runs cur =
    let w = given_way r c s in
    let (sane, ran, now, tasks) = sched_yield_impl-Sane r c v cur in
    elim (Option-cases (pick_next w)) [
      | inr (n, e) ↦
          MostUrgent-of_pick w (sched_yield_impl r s) n e (now ∙ ap (λ o. some (or_else o c)) e)
            (tasks ∙ ap (λ o. modify (or_else o c) (set_state running) w.tasks) e)
      | inl e ↦
          let (t, at, st) = runs c cur in
          absurd (
            none_ready w (given_way-Sane r c v cur) e c (give_way r t)
              (At-modify_self s c (give_way r) t at) (unfold give_way in rw st))
    ]

-- Switching, in a table where nobody runs, to a task that no ready one beats.
pub switch_in-MostUrgent :
    {w : Sched} (n : ℕ) (t : Tcb)
    → Sane w
    → Idle w
    → At w n t
    → ((i : ℕ) (u : Tcb) → At w i u → u.state ≡ ready → t.priority ≤ u.priority)
    → let s' = switch_in n w in Sane s' × Runs s' × MostUrgent s'
switch_in-MostUrgent {w} n t v idle at least =
    let (a, b, d, e, l) = switch_in-Sane n t v idle at in
    (
      a,
      b,
      (
        n,
        set_state running t,
        d,
        ap (λ m. get_elem? m n) l ∙ At-modify_self w n (set_state running) t at,
        refl,
        λ i u at_u st.
            let (u', at', eu) = At-after w (switch_in n w) n l i u at_u in
            ground (arith, least i u' at'),
      ),
    )
