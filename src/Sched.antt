-- ===== src/Sched.antt =====
-- The preemptive scheduler, kernel/sched.c. The table `g_tasks[0 .. g_task_count)` is a list, so
-- `g_task_count` is its length; a task pointer is an index; `g_current` is `none` for -1. The saved
-- stack pointers and the 64-bit words of the stacks are numbers. The interrupt frame `r` enters as
-- its address, and the clock `sched_ticks_ms()` as the argument `now`. A function that switches
-- away in its middle (`sched_sleep`, `sched_wait_period`) is two functions, in `Period`.
pub mod Pick
pub mod Inv
pub mod Switch
pub mod Order
pub mod Exit
pub mod Tick
pub mod Period
pub mod Create
mod Tests
use fobos_os.Base.{
  ℕ, zero, suc, ◌+◌, ◌-◌, ◌*◌, ◌/◌, ◌%◌, ◌^◌, Bool, true, false, ◌&&◌, Option, none, some, List, [],
  ◌∷◌, ◌++◌, map, ltb, leb, ◌==◌, if◌then◌else◌, update, inc64, length, get_elem?, modify, take,
}
use fobos_os.Base.Int.{ℤ, pos, negsuc, ltb_ℤ}

-- `SCHED_MAX_TASKS`
abbrev pub max_tasks : ℕ
max_tasks = 16

pub data TaskState : Type 0 where
  free ready running sleeping dead : TaskState

abbrev pub is_ready : TaskState → Bool
is_ready ready = true
is_ready _ = false

abbrev pub is_running : TaskState → Bool
is_running running = true
is_running _ = false

abbrev pub is_sleeping : TaskState → Bool
is_sleeping sleeping = true
is_sleeping _ = false

-- `struct tcb`; `entry` is the address of the task's function.
pub record Tcb : Type 0 where
  pub id : ℕ
  pub name : List ℕ
  pub rsp : ℕ
  pub stack_base : ℕ
  pub stack_size : ℕ
  pub state : TaskState
  pub priority : ℕ
  pub quantum_ms : ℕ
  pub remaining_ms : ℕ
  pub sleep_until_ms : ℕ
  pub wake_count : ℕ
  pub switch_count : ℕ
  pub period_ms : ℕ
  pub next_wake_ms : ℕ
  pub periods_run : ℕ
  pub periods_missed : ℕ
  pub max_jitter_ms : ℕ
  pub total_jitter_ms : ℕ
  pub jitter_samples : ℕ
  pub entry : ℕ

pub record Sched : Type 0 where
  pub tasks : List Tcb
  pub current : Option ℕ
  pub switch_rsp : ℕ
  pub words : ℕ → ℕ

abbrev pub set_state : TaskState → Tcb → Tcb
set_state st t = record t { state = st }

-- `best_prio` and `best` of the two searches.
abbrev pub Best : Type 0
Best = ℕ × Option ℕ

-- The loop's body for the task with index `i`.
pub pick_step : ℕ → List Tcb → Best → Best
pick_step i tasks b = elim (get_elem? tasks i) [
  | none ↦ b
  | some t ↦ if is_ready t.state && ltb t.priority b.0 then (t.priority, some i) else b
]

-- `index` says which task round `k` looks at; `rounds` are left.
pub pick_loop : ℕ → ℕ → (ℕ → ℕ) → List Tcb → Best → Best
pick_loop zero k index tasks b = b
pick_loop (suc rounds) k index tasks b =
    pick_loop rounds (k + 1) index tasks (pick_step (index k) tasks b)

abbrev pub after_current : Option ℕ → ℕ
after_current none = 0
after_current (some c) = c + 1

-- Round k of `pick_next` looks at `(start + k) % g_task_count`.
abbrev pub from_current : Sched → ℕ → ℕ
from_current s k = (after_current s.current % length s.tasks + k) % length s.tasks

pub pick_next : Sched → Option ℕ
pick_next s = (pick_loop (length s.tasks) 0 (from_current s) s.tasks (999, none)).1

pub pick_higher_than : ℕ → Sched → Option ℕ
pick_higher_than prio s = (pick_loop (length s.tasks) 0 (λ k. k) s.tasks (prio, none)).1

-- `next->state = TASK_RUNNING; sched_switch_rsp = next->rsp; g_current = (int)next->id;`
pub switch_in : ℕ → Sched → Sched
switch_in n s = elim (get_elem? s.tasks n) [
  | none ↦ s
  | some t ↦ record s {
    tasks = modify n (set_state running) s.tasks;
    switch_rsp = t.rsp;
    current = some t.id;
  }
]

abbrev pub set_tasks : Sched → List Tcb → Sched
set_tasks s l = record s { tasks = l }

-- What `sched_yield_impl` does to the task that gives way.
pub give_way : ℕ → Tcb → Tcb
give_way r t =
    if is_running t.state
    then record t {
      rsp = r;
      state = ready;
      remaining_ms = t.quantum_ms;
      switch_count = inc64 t.switch_count;
    }
    else record t { rsp = r; switch_count = inc64 t.switch_count }

-- The tail of `sched_yield_impl` and of the timer tick: without another task, `c` runs on.
pub yield_to : ℕ → Option ℕ → Sched → Sched
yield_to c none s = set_tasks s (modify c (set_state running) s.tasks)
yield_to c (some n) s =
    if n == c then set_tasks s (modify c (set_state running) s.tasks) else switch_in n s

pub sched_yield_impl : ℕ → Sched → Sched
sched_yield_impl r s = elim s.current [
  | none ↦ s
  | some c ↦ let s' = set_tasks s (modify c (give_way r) s.tasks) in yield_to c (pick_next s') s'
]

pub clamp_priority : ℤ → ℕ
clamp_priority (negsuc n) = 0
clamp_priority (pos n) = if ltb 31 n then 31 else n

abbrev pub wake_task : Tcb → Tcb
wake_task t =
    if is_sleeping t.state then record t { state = ready; wake_count = inc64 t.wake_count } else t

pub sched_wake : ℕ → Sched → Sched
sched_wake id s = set_tasks s (modify id wake_task s.tasks)

pub sched_exit : ℕ → Sched → Sched
sched_exit r s = elim s.current [
  | none ↦ s
  | some c ↦ sched_yield_impl r (set_tasks s (modify c (set_state dead) s.tasks))
]

pub sched_set_priority : ℕ → ℤ → Sched → Sched
sched_set_priority id priority s =
    set_tasks s (modify id (λ t. record t { priority = clamp_priority priority }) s.tasks)

-- The first loop of the tick.
pub wake_due : ℕ → Tcb → Tcb
wake_due now t =
    if is_sleeping t.state && leb t.sleep_until_ms now
    then record t { state = ready; wake_count = inc64 t.wake_count }
    else t

-- The running task `c` gives way to a task of higher priority within its quantum.
pub preempt : ℕ → ℕ → Option ℕ → Sched → Sched
preempt r c none s = s
preempt r c (some h) s = switch_in h (
    set_tasks s (
      modify c (λ t. record t { state = ready; rsp = r; switch_count = inc64 t.switch_count })
        s.tasks))

-- The quantum is used up: `n` is what `pick_next` found.
pub rotate : ℕ → ℕ → Option ℕ → Sched → Sched
rotate r c none s = set_tasks s (modify c (set_state running) s.tasks)
rotate r c (some n) s =
    if n == c
    then set_tasks s (modify c (set_state running) s.tasks)
    else switch_in n (
        set_tasks s
          (modify c (λ t. record t { rsp = r; switch_count = inc64 t.switch_count }) s.tasks))

-- The tick from `if (cur->remaining_ms > 0) cur->remaining_ms--` on, for the running task `c`.
pub charge : ℕ → ℕ → Tcb → Sched → Sched
charge r c cur s =
    let left = cur.remaining_ms - 1 in
    let s1 = set_tasks s (modify c (λ t. record t { remaining_ms = left }) s.tasks) in
    let s2 =
      set_tasks s
        (modify c (λ t. record t { remaining_ms = t.quantum_ms; state = ready }) s.tasks) in
    if ltb 0 left
    then preempt r c (pick_higher_than cur.priority s1) s1
    else rotate r c (pick_next s2) s2

pub sched_timer_tick : ℕ → ℕ → Sched → Sched
sched_timer_tick r now s =
    let s' = set_tasks s (map (wake_due now) s.tasks) in
    elim s'.current [
      | none ↦ s'
      | some c ↦ elim (get_elem? s'.tasks c) [
        | none ↦ s'
        | some cur ↦ if is_running cur.state then charge r c cur s' else s'
      ]
    ]

-- `none`: no task is ready, and the processor halts for good.
pub sched_start : Sched → Option Sched
sched_start s = elim (pick_next s) [
  | none ↦ none
  | some f ↦ elim (get_elem? s.tasks f) [
    | none ↦ none
    | some t ↦ some (record s { tasks = modify f (set_state running) s.tasks; current = some t.id })
  ]
]
