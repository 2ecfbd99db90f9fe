-- ===== src/Sched/Period/Jitter.antt =====
-- The deadlines of periodic tasks, and their jitter statistics.
use fobos_os.Base.{ℕ, ◌+◌, ◌-◌, ◌*◌, ◌%◌, ◌^◌, ◌≤◌, ◌<◌, ◌≡◌, ◌≢◌, arith}
use fobos_os.Sched.{Tcb}
use fobos_os.Sched.Period.{next_deadline, account}

-- While the clock is far from wrapping, the next deadline of a periodic task lies after `now` and
-- never further than one period beyond the later of `now` and the planned wake time; and a task
-- whose planned time has not been overrun keeps its rhythm: the new deadline is the old plus one
-- period.
pub next_deadline_lem :
    (now : ℕ) (t : Tcb)
    → 0 < t.period_ms
    → now + t.period_ms < 2 ^ 64
    → t.next_wake_ms + t.period_ms < 2 ^ 64
    → (now < next_deadline now t)
      × (t.next_wake_ms ≤ now → next_deadline now t ≤ now + t.period_ms)
      × (t.next_wake_ms ≢ 0
          → now < t.next_wake_ms + t.period_ms
          → next_deadline now t ≡ t.next_wake_ms + t.period_ms)
unfolding next_deadline
next_deadline_lem now t pos a b = (ground arith, λ h. ground arith, λ h k. ground arith)

-- The statistics of a periodic task: no more misses than samples, and the total jitter is at most
-- the greatest jitter for each sample.
pub record Consistent (t : Tcb) : Type 0 where
  pub missed : t.periods_missed ≤ t.jitter_samples
  pub total : t.total_jitter_ms ≤ t.max_jitter_ms * t.jitter_samples

mul_mono_left : (a b c : ℕ) → a ≤ b → a * c ≤ b * c
mul_mono_left a b c h = grind arith

one_more : (t m m' s j : ℕ) → t ≤ m * s → m ≤ m' → j ≤ m' → t + j ≤ m' * (s + 1)
one_more t m m' s j h a b = omega (arith, mul_mono_left m m' s a)

-- The accounting of a period keeps the statistics consistent, while the counters do not wrap.
pub account-Consistent :
    (deadline woke : ℕ) (t : Tcb)
    → Consistent t
    → t.jitter_samples + 1 < 2 ^ 64
    → t.total_jitter_ms + 2 ^ 32 < 2 ^ 64
    → Consistent (account deadline woke t)
unfolding account
account-Consistent deadline woke t v a b = record {
  missed = ground (arith, v.missed);
  total =
      let jitter = (woke - deadline) % 2 ^ 32 in
      ground (
        arith,
        one_more t.total_jitter_ms t.max_jitter_ms t.max_jitter_ms t.jitter_samples jitter,
        one_more t.total_jitter_ms t.max_jitter_ms jitter t.jitter_samples jitter,
        one_more t.total_jitter_ms t.max_jitter_ms t.max_jitter_ms t.jitter_samples 0,
        v.total,
      );
}
