-- ===== src/Sched/Period.antt =====
-- Sleeping and periodic tasks in kernel/sched.c. A function that switches away in its middle is two:
-- up to the switch, and after it.
pub mod Inv
pub mod Jitter
use fobos_os.Base.{
  ℕ, zero, suc, ◌+◌, ◌-◌, ◌*◌, ◌/◌, ◌%◌, ◌^◌, ◌≤◌, ◌<◌, ◌≡◌, refl, Option, none, some, List, [],
  ◌∷◌, leb, ltb, ◌==◌, if◌then◌else◌, inc64, get_elem?, modify, arith,
}
use fobos_os.Sched.{Tcb, Sched, running, sleeping, set_state, set_tasks, sched_yield_impl}

-- Up to the switch: `ms` and `now` are added as `u64`.
pub sched_sleep : ℕ → ℕ → ℕ → Sched → Sched
sched_sleep r now ms s = elim s.current [
  | none ↦ s
  | some c ↦ sched_yield_impl r (
      set_tasks s (
        modify c (λ t. record t { sleep_until_ms = (now + ms) % 2 ^ 64; state = sleeping })
          s.tasks))
]

-- After the switch back to task `c`.
pub sched_resume : ℕ → Sched → Sched
sched_resume c s = set_tasks s (modify c (set_state running) s.tasks)

-- The next release of a periodic task, `cur->next_wake_ms` before the switch.
pub next_deadline : ℕ → Tcb → ℕ
next_deadline now t =
    let planned =
      if t.next_wake_ms == 0
      then (now + t.period_ms) % 2 ^ 64
      else (t.next_wake_ms + t.period_ms) % 2 ^ 64 in
    if leb planned now then (now + t.period_ms) % 2 ^ 64 else planned

abbrev pub await : ℕ → Tcb → Tcb
await now t = record t {
  next_wake_ms = next_deadline now t;
  sleep_until_ms = next_deadline now t;
  state = sleeping;
}

pub sched_wait_period : ℕ → ℕ → Sched → Sched
sched_wait_period r now s = elim s.current [
  | none ↦ s
  | some c ↦ elim (get_elem? s.tasks c) [
    | none ↦ s
    | some t ↦
        if t.period_ms == 0
        then sched_sleep r now 1 s
        else sched_yield_impl r (set_tasks s (modify c (await now) s.tasks))
  ]
]

-- After the switch back, at time `woke`: the accounting of one period.
pub account : ℕ → ℕ → Tcb → Tcb
account deadline woke t =
    let jitter = (woke - deadline) % 2 ^ 32 in
    if ltb deadline woke
    then record t {
      state = running;
      next_wake_ms =
          if leb t.period_ms jitter then (woke + t.period_ms) % 2 ^ 64 else t.next_wake_ms;
      periods_run = inc64 t.periods_run;
      periods_missed =
          if ltb (t.period_ms / 2) jitter then inc64 t.periods_missed else t.periods_missed;
      max_jitter_ms = if ltb t.max_jitter_ms jitter then jitter else t.max_jitter_ms;
      total_jitter_ms = (t.total_jitter_ms + jitter) % 2 ^ 64;
      jitter_samples = inc64 t.jitter_samples;
    }
    else record t {
      state = running;
      periods_run = inc64 t.periods_run;
      jitter_samples = inc64 t.jitter_samples;
    }

pub sched_wait_resume : ℕ → ℕ → ℕ → Sched → Sched
sched_wait_resume c deadline woke s = set_tasks s (modify c (account deadline woke) s.tasks)
