-- ===== src/Sched/Tests.antt =====
-- Runs of kernel/sched.c on a table of three tasks, and its theorems at them.
use fobos_os.Base.{
  ℕ, zero, suc, ◌+◌, ◌*◌, ◌≤◌, ◌<◌, ◌≡◌, refl, ◌≢◌, ◌⊎◌, none, some, List, [], ◌∷◌, length,
  get_elem?, arith, modify,
}
use fobos_os.Base.Int.{negsuc}
use fobos_os.Sched.{
  Tcb, Sched, TaskState, ready, running, sleeping, set_state, pick_next, sched_yield_impl,
  sched_exit, sched_timer_tick, sched_start, give_way, yield_to, switch_in, pick_loop, pick_step,
  wake_due, charge, preempt, rotate, pick_higher_than,
}
use fobos_os.Sched.Order.{Next, pick_next-Next}
use fobos_os.Sched.Inv.{At, Sane, Runs, Idle}
use fobos_os.Sched.Switch.{
  MostUrgent, or_else, given_way, sched_yield_impl-Sane, sched_yield_impl-MostUrgent,
}
use fobos_os.Sched.Exit.{sched_exit-dead, sched_exit-revives, sched_start_lem}
use fobos_os.Sched.Tick.{sched_timer_tick-MostUrgent}
use fobos_os.Sched.Create.{
  new_tcb, frame_of, sched_create_common, build_initial_frame, build_initial_frame_lem,
}
use fobos_os.Sched.Create.Inv.{Created, sched_create_common_lem}
use fobos_os.Sched.Period.{next_deadline, account}
use fobos_os.Sched.Period.Jitter.{next_deadline_lem, Consistent, account-Consistent}

abbrev task : ℕ → ℕ → TaskState → Tcb
task id priority st = record (new_tcb 0x100000 id (b'a' ∷ []) 0x200000 priority 0) {
  rsp = 0x1000 * (id + 1);
  state = st;
}

abbrev table : TaskState → List Tcb
table st =
    task 0 10 st
    ∷ task 1 5 ready
    ∷ record (task 2 0 sleeping) { sleep_until_ms = 100; period_ms = 20; next_wake_ms = 100 }
    ∷ []

abbrev busy : Sched
busy = record { tasks = table running; current = some 0; switch_rsp = 0; words = λ a. 0 }

abbrev at_rest : Sched
at_rest = record { tasks = table ready; current = none; switch_rsp = 0; words = λ a. 0 }

busy-Sane : Sane busy
busy-Sane = record {
  few = omega arith;
  ids = λ i t h. ids i t h;
  prios = λ i t h. prios i t h;
  only_current = λ i t h st. only i t h st;
  in_table = λ c h. ground arith;
}
  where
    ids : (i : ℕ) (t : Tcb) → get_elem? (table running) i ≡ some t → t.id ≡ i
    ids zero t h = ground arith
    ids (suc zero) t h = ground arith
    ids (suc (suc zero)) t h = ground arith
    ids (suc (suc (suc i))) t h = ground arith

    prios : (i : ℕ) (t : Tcb) → get_elem? (table running) i ≡ some t → t.priority ≤ 31
    prios zero t h = ground arith
    prios (suc zero) t h = ground arith
    prios (suc (suc zero)) t h = ground arith
    prios (suc (suc (suc i))) t h = ground arith

    only :
        (i : ℕ) (t : Tcb)
        → get_elem? (table running) i ≡ some t
        → t.state ≡ running
        → some 0 ≡ some i
    only zero t h st = refl
    only (suc zero) t h st = ground arith
    only (suc (suc zero)) t h st = ground arith
    only (suc (suc (suc i))) t h st = ground arith

busy-Runs : Runs busy
busy-Runs c h = let e : 0 ≡ c = ground arith in (task 0 10 running, ground arith, refl)

switches_to_one : (sched_yield_impl 7 busy).current ≡ some 1
unfolding sched_yield_impl pick_next pick_loop pick_step give_way yield_to switch_in
switches_to_one = refl

tick_wakes_two : (sched_timer_tick 7 100 busy).current ≡ some 2
unfolding sched_timer_tick wake_due charge preempt rotate pick_higher_than pick_loop pick_step
    switch_in
tick_wakes_two = refl

pick_next-Next_example : Next busy (pick_next busy)
pick_next-Next_example = pick_next-Next busy busy-Sane.in_table

sched_yield_impl-Sane_example :
    let s' = sched_yield_impl 7 busy in
    let o = pick_next (given_way 7 0 busy) in
    Sane s'
    × Runs s'
    × (s'.current ≡ some (or_else o 0))
    × (s'.tasks ≡ modify (or_else o 0) (set_state running) (given_way 7 0 busy).tasks)
sched_yield_impl-Sane_example = sched_yield_impl-Sane {s = busy} 7 0 busy-Sane refl

sched_yield_impl-MostUrgent_example : MostUrgent (sched_yield_impl 7 busy)
sched_yield_impl-MostUrgent_example =
    sched_yield_impl-MostUrgent {s = busy} 7 0 busy-Sane busy-Runs refl

sched_timer_tick-MostUrgent_example :
    let s' = sched_timer_tick 7 100 busy in Sane s' × Runs s' × MostUrgent s'
sched_timer_tick-MostUrgent_example =
    sched_timer_tick-MostUrgent {s = busy} 7 100 0 busy-Sane busy-Runs refl

sched_exit-dead_example :
    let s' = sched_exit 7 busy in
    (n : ℕ) × (s'.current ≡ some n) × (n ≢ 0) × ((t : Tcb) → At s' 0 t → t.state ≡ TaskState.dead)
sched_exit-dead_example =
    sched_exit-dead {s = busy} 7 0 busy-Sane refl 1 (task 1 5 ready) (omega arith) refl refl

-- One task alone.
abbrev alone : Sched
alone = record busy { tasks = task 0 10 running ∷ [] }

alone-Sane : Sane alone
alone-Sane = record {
  few = omega arith;
  ids = λ i t h. ids i t h;
  prios = λ i t h. prios i t h;
  only_current = λ i t h st. only i t h st;
  in_table = λ c h. ground arith;
}
  where
    ids : (i : ℕ) (t : Tcb) → At alone i t → t.id ≡ i
    ids zero t h = ground arith
    ids (suc i) t h = ground arith

    prios : (i : ℕ) (t : Tcb) → At alone i t → t.priority ≤ 31
    prios zero t h = ground arith
    prios (suc i) t h = ground arith

    only : (i : ℕ) (t : Tcb) → At alone i t → t.state ≡ running → some 0 ≡ some i
    only zero t h st = refl
    only (suc i) t h st = ground arith

alone-others : (i : ℕ) (u : Tcb) → i ≢ 0 → At alone i u → u.state ≢ ready
alone-others zero u ne h = absurd (ne refl)
alone-others (suc i) u ne h = ground arith

sched_exit-revives_example :
    let s' = sched_exit 7 alone in
    (s'.current ≡ some 0) × (t : Tcb) × At s' 0 t × (t.state ≡ running)
sched_exit-revives_example = sched_exit-revives {s = alone} 7 0 alone-Sane refl alone-others

sched_create_common_lem_example :
    let (o, s') = sched_create_common 0x100000 0x3000 (b'x' ∷ []) 0x4000 (negsuc 4) 0 busy in
    ((length busy.tasks ≡ 16) × (o ≡ none) × (s' ≡ busy))
    ⊎ ((id : ℕ) × (o ≡ some id) × Created busy (negsuc 4) id s')
sched_create_common_lem_example =
    sched_create_common_lem 0x100000 0x3000 (b'x' ∷ []) 0x4000 (negsuc 4) 0 busy-Sane

initial_frame_at :
    let t = task 0 10 ready in
    let w' = build_initial_frame 0x3000 t (λ a. 0) in
    let f = frame_of t in
    ((b : ℕ) → (b < f) ⊎ (f + 176 ≤ b) → w' b ≡ 0)
    × (w' (f + 136) ≡ 0x3000)
    × (w' (f + 144) ≡ 0x08)
    × (w' (f + 152) ≡ 0x202)
    × (w' (f + 160) ≡ 0x103f48)
    × (w' (f + 168) ≡ 0x10)
initial_frame_at = build_initial_frame_lem 0x3000 (task 0 10 ready) (λ a. 0) (omega arith)

abbrev periodic : Tcb
periodic = record (task 2 0 running) { period_ms = 20; next_wake_ms = 100 }

next_deadline_lem_example :
    (105 < next_deadline 105 periodic)
    × (100 ≤ 105 → next_deadline 105 periodic ≤ 125)
    × (◌≢◌ {A = ℕ} 100 0 → 105 < 120 → next_deadline 105 periodic ≡ 120)
next_deadline_lem_example = next_deadline_lem 105 periodic (omega arith) (omega arith) (omega arith)

accounted : Consistent (account 120 135 periodic)
accounted =
    account-Consistent 120 135 periodic (record { missed = omega arith; total = omega arith })
      (omega arith) (omega arith)

at_rest-Idle : Idle at_rest
at_rest-Idle zero t h st = ground arith
at_rest-Idle (suc zero) t h st = ground arith
at_rest-Idle (suc (suc zero)) t h st = ground arith
at_rest-Idle (suc (suc (suc i))) t h st = ground arith

at_rest-Sane : Sane at_rest
at_rest-Sane = record {
  few = omega arith;
  ids = λ i t h. ids i t h;
  prios = λ i t h. prios i t h;
  only_current = λ i t h st. absurd (at_rest-Idle i t h st);
  in_table = λ c h. ground arith;
}
  where
    ids : (i : ℕ) (t : Tcb) → get_elem? (table ready) i ≡ some t → t.id ≡ i
    ids zero t h = ground arith
    ids (suc zero) t h = ground arith
    ids (suc (suc zero)) t h = ground arith
    ids (suc (suc (suc i))) t h = ground arith

    prios : (i : ℕ) (t : Tcb) → get_elem? (table ready) i ≡ some t → t.priority ≤ 31
    prios zero t h = ground arith
    prios (suc zero) t h = ground arith
    prios (suc (suc zero)) t h = ground arith
    prios (suc (suc (suc i))) t h = ground arith

started_at_rest :
    ((s' : Sched) × (sched_start at_rest ≡ some s') × Sane s' × Runs s' × MostUrgent s')
    ⊎ ((sched_start at_rest ≡ none) × ((i : ℕ) (u : Tcb) → At at_rest i u → u.state ≢ ready))
started_at_rest = sched_start_lem {s = at_rest} at_rest-Sane at_rest-Idle
