-- ===== src/Sched/Create.antt =====
-- `sched_init` and the creation of tasks in kernel/sched.c, with the first frame on a task's stack.
pub mod Inv
use fobos_os.Base.{
  ℕ, zero, suc, ◌+◌, ◌-◌, ◌*◌, ◌/◌, ◌%◌, ◌^◌, ◌≤◌, ◌<◌, ◌≡◌, refl, ◌∙◌, ◌⊎◌, Option, none, some,
  List, [], ◌∷◌, ◌++◌, leb, ltb, ◌==◌, if◌then◌else◌, update, length, get_elem?, take, arith,
}
use fobos_os.Base.Int.{ℤ}
use fobos_os.Sched.{Tcb, Sched, TaskState, ready, max_tasks, clamp_priority}

abbrev pub stack_bytes : ℕ
stack_bytes = 16384

abbrev pub default_quantum : ℕ
default_quantum = 20

-- `sched_init`
abbrev pub sched_init : Sched
sched_init = record { tasks = []; current = none; switch_rsp = 0; words = λ a. 0 }

pub zero_words : ℕ → ℕ → (ℕ → ℕ) → ℕ → ℕ
zero_words zero a w = w
zero_words (suc n) a w = zero_words n (a + 8) (update w a 0)

-- The address of the frame that `build_initial_frame` makes, and the words it writes. `stub` is
-- the address of `task_entry_stub`.
abbrev pub frame_of : Tcb → ℕ
frame_of t = ((t.stack_base + t.stack_size) % 2 ^ 64 / 16 * 16 + (2 ^ 64 - 176)) % 2 ^ 64

pub build_initial_frame : ℕ → Tcb → (ℕ → ℕ) → ℕ → ℕ
build_initial_frame stub t w =
    let f = frame_of t in
    let w1 = update (update (zero_words 22 f w) (f + 15 * 8) 128) (f + 16 * 8) 0 in
    let w2 = update (update w1 (f + 17 * 8) stub) (f + 18 * 8) 0x08 in
    let w3 = update w2 (f + 19 * 8) 0x202 in
    update (update w3 (f + 20 * 8) ((f + (2 ^ 64 - 8)) % 2 ^ 64)) (f + 21 * 8) 0x10

-- The block that `sched_create_common` fills in before the frame. `pool` is the address of
-- `g_stack_pool`.
abbrev pub new_tcb : ℕ → ℕ → List ℕ → ℕ → ℕ → ℕ → Tcb
new_tcb pool id name entry priority period_ms = record {
  id = id;
  name = take 23 name;
  rsp = 0;
  stack_base = (pool + id * stack_bytes) % 2 ^ 64;
  stack_size = stack_bytes;
  state = ready;
  priority = priority;
  quantum_ms = default_quantum;
  remaining_ms = default_quantum;
  sleep_until_ms = 0;
  wake_count = 0;
  switch_count = 0;
  period_ms = period_ms;
  next_wake_ms = 0;
  periods_run = 0;
  periods_missed = 0;
  max_jitter_ms = 0;
  total_jitter_ms = 0;
  jitter_samples = 0;
  entry = entry;
}

-- `none` is the result -1.
pub sched_create_common : ℕ → ℕ → List ℕ → ℕ → ℤ → ℕ → Sched → Option ℕ × Sched
sched_create_common pool stub name entry priority period_ms s =
    let id = length s.tasks in
    let t = new_tcb pool id name entry (clamp_priority priority) period_ms in
    if leb max_tasks id then (none, s) else (
      some id,
      record s {
        tasks = s.tasks ++ (record t { rsp = frame_of t } ∷ []);
        words = build_initial_frame stub t s.words;
      },
    )

pub sched_create : ℕ → ℕ → List ℕ → ℕ → ℤ → Sched → Option ℕ × Sched
sched_create pool stub name entry priority s = sched_create_common pool stub name entry priority 0 s

pub sched_create_periodic : ℕ → ℕ → List ℕ → ℕ → ℤ → ℕ → Sched → Option ℕ × Sched
sched_create_periodic pool stub name entry priority period_ms s =
    if period_ms == 0
    then (none, s)
    else sched_create_common pool stub name entry priority period_ms s

frame_of_id :
    (pool id : ℕ) (name : List ℕ) (entry priority period_ms : ℕ)
    → pool + 16 * 16384 < 2 ^ 64
    → id < 16
    → let t = new_tcb pool id name entry priority period_ms in
      (frame_of t ≡ (pool + id * 16384 + 16384) / 16 * 16 - 176)
      × (t.stack_base ≡ pool + id * 16384)
frame_of_id pool id name entry priority period_ms h lt = omega arith

-- The frame of a new task is aligned and lies inside that task's own 16384 bytes of the pool.
pub frame_in_stack :
    (pool id : ℕ) (name : List ℕ) (entry priority period_ms : ℕ)
    → pool + 16 * 16384 < 2 ^ 64
    → id < 16
    → let t = new_tcb pool id name entry priority period_ms in
      (frame_of t % 16 ≡ 0)
      × (pool + id * 16384 ≤ frame_of t)
      × (frame_of t + 176 ≤ pool + (id + 1) * 16384)
frame_in_stack pool id name entry priority period_ms h lt = omega arith

zero_words-outside :
    (n a : ℕ) (w : ℕ → ℕ) (b : ℕ) → (b < a) ⊎ (a + 8 * n ≤ b) → zero_words n a w b ≡ w b
unfolding zero_words
zero_words-outside zero a w b h = refl
zero_words-outside (suc n) a w b h =
    zero_words-outside n (a + 8) (update w a 0) b (omega arith) ∙ ground arith

-- Outside the 176 bytes of the frame `build_initial_frame` writes nothing, so it touches no other
-- task's stack; inside, the five words that `iretq` pops are the entry stub, the kernel's code
-- selector, the flags with interrupts on, a stack pointer below the frame and the data selector.
pub build_initial_frame_lem :
    (stub : ℕ) (t : Tcb) (w : ℕ → ℕ)
    → 8 ≤ frame_of t
    → let w' = build_initial_frame stub t w in
      let f = frame_of t in
      ((b : ℕ) → (b < f) ⊎ (f + 176 ≤ b) → w' b ≡ w b)
      × (w' (f + 136) ≡ stub)
      × (w' (f + 144) ≡ 0x08)
      × (w' (f + 152) ≡ 0x202)
      × (w' (f + 160) ≡ f - 8)
      × (w' (f + 168) ≡ 0x10)
unfolding build_initial_frame
build_initial_frame_lem stub t w h = (
  λ b out. ground (arith, zero_words-outside 22 (frame_of t) w b),
  ground arith,
  ground arith,
  ground arith,
  ground arith,
  ground arith,
)
