-- ===== src/Sched/Period/Inv.antt =====
-- Sleeping and waiting for a period keep the scheduler's invariant.
use fobos_os.Base.{
  ℕ, ◌+◌, ◌%◌, ◌^◌, ◌≤◌, ◌≡◌, refl, some, arith, inl, inr, Bool-cases, ◌==◌, if◌then◌else◌, modify,
  get_elem?-some,
}
use fobos_os.Sched.{Tcb, Sched, sleeping, set_tasks, sched_yield_impl}
use fobos_os.Sched.Inv.{At, Sane, Runs, modify-Sane}
use fobos_os.Sched.Switch.{sched_yield_impl-Sane}
use fobos_os.Sched.Period.{sched_sleep, sched_wait_period, sched_wait_resume, await, account}

module _ {s : Sched} (r now c : ℕ) (v : Sane s) (cur : s.current ≡ some c) where
  -- Putting the current task to sleep and switching away.
  slumber :
      (f : Tcb → Tcb)
      → ((t : Tcb) → ((f t).id ≡ t.id) × (t.priority ≤ 31 → (f t).priority ≤ 31))
      → let s' = sched_yield_impl r (set_tasks s (modify c f s.tasks)) in Sane s' × Runs s'
  slumber f mild =
      let m = modify-Sane s c f v mild (λ t at st. cur) in
      let (a, b, d, e) = sched_yield_impl-Sane {s = set_tasks s (modify c f s.tasks)} r c m cur in
      (a, b)

  -- `sched_sleep`, up to its switch, leaves a sane table in which exactly the current task runs.
  pub sched_sleep-Sane : (ms : ℕ) → let s' = sched_sleep r now ms s in Sane s' × Runs s'
  sched_sleep-Sane ms = rw sleep_step (slumber _ (λ t. (refl, λ h. h)))
    where
      sleep_step :
          sched_sleep r now ms s
          ≡ sched_yield_impl r (
              set_tasks s (
                modify c
                  (λ t. record t { sleep_until_ms = (now + ms) % 2 ^ 64; state = sleeping })
                  s.tasks))
      sleep_step = unfold sched_sleep in simp (cur, sched_sleep)

  wait_step :
      (t : Tcb)
      → At s c t
      → sched_wait_period r now s ≡ (
          if t.period_ms == 0
          then sched_sleep r now 1 s
          else sched_yield_impl r (set_tasks s (modify c (await now) s.tasks)))
  unfolding sched_wait_period
  wait_step t at = simp (cur, sched_wait_period, at)

  -- `sched_wait_period`, up to its switch, leaves a sane table in which exactly the current task
  -- runs, whether the caller is periodic or not.
  pub sched_wait_period-Sane : let s' = sched_wait_period r now s in Sane s' × Runs s'
  sched_wait_period-Sane =
      let (t, at) = get_elem?-some s.tasks c (v.in_table c cur) in
      elim (Bool-cases (t.period_ms == 0)) [
        | inl e ↦ rw (wait_step t at, e) (sched_sleep-Sane 1)
        | inr e ↦ rw (wait_step t at, e) (slumber (await now) (λ t. (refl, λ h. h)))
      ]

  account-Mild :
      (deadline woke : ℕ) (t : Tcb)
      → ((account deadline woke t).id ≡ t.id)
        × (t.priority ≤ 31 → (account deadline woke t).priority ≤ 31)
  unfolding account
  account-Mild deadline woke t = (ground arith, λ h. ground arith)

  -- Coming back from a wait keeps the invariant.
  pub sched_wait_resume-Sane : (deadline woke : ℕ) → Sane (sched_wait_resume c deadline woke s)
  unfolding sched_wait_resume
  sched_wait_resume-Sane deadline woke =
      modify-Sane s c (account deadline woke) v (account-Mild deadline woke) (λ t at st. cur)
