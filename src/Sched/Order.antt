-- ===== src/Sched/Order.antt =====
-- The order in which `pick_next` of kernel/sched.c takes the tasks.
use native.Mathlib.Nat.{mod-eq_of_lt, mod-eq-sub-mod}
use fobos_os.Base.{
  ℕ, ◌+◌, ◌-◌, ◌%◌, ◌≤◌, ◌<◌, ◌≡◌, refl, sym, ap, ◌∙◌, Option, none, some, arith, inl, inr, false,
  ltb, ◌==◌, if◌then◌else◌, Bool-cases, length, get_elem?, get_elem?-lt,
}
use fobos_os.Sched.{Tcb, Sched, ready, pick_next, from_current, after_current}
use fobos_os.Sched.Pick.{Choice, pick_next-Choice}
use fobos_os.Sched.Inv.{At}
use fobos_os.Sched.Switch.{reached}

-- How many tasks of `n` stand before task `i` when one counts from the task after the current one,
-- round to the current one; from the first task when there is none.
abbrev pub turn : Option ℕ → ℕ → ℕ → ℕ
turn none n i = i
turn (some c) n i = if ltb c i then i - c - 1 else i + n - c - 1

-- The sum of two numbers below `n`, taken modulo it.
wrapped : (a k n : ℕ) → a < n → k < n → (a + k) % n ≡ (if ltb (a + k) n then a + k else a + k - n)
wrapped a k n ha hk = elim (Bool-cases (ltb (a + k) n)) [
  | inl h ↦ rw h (mod-eq_of_lt (ground (arith, h)))
  | inr h ↦
      let over : n ≤ a + k = ground (arith, h) in
      rw h (mod-eq-sub-mod {n = a + k} {m = n} over ∙ mod-eq_of_lt (omega (arith, over, ha, hk)))
]

turn-from_current :
    (current : Option ℕ) (n k : ℕ)
    → ((c : ℕ) → current ≡ some c → c < n)
    → k < n
    → turn current n ((after_current current % n + k) % n) ≡ k
turn-from_current none n k inside h =
    let start : 0 % n ≡ 0 = mod-eq_of_lt (omega (arith, h)) in
    ap (λ a. (a + k) % n) start ∙ ap (λ a. a % n) (omega arith) ∙ mod-eq_of_lt h
turn-from_current (some c) n k inside h =
    let hc = inside c refl in
    elim (Bool-cases (c + 1 == n)) [
      | inl e ↦
          let last : c + 1 ≡ n = ground (arith, e) in
          let start : (c + 1) % n ≡ 0 =
            mod-eq-sub-mod {n = c + 1} {m = n} (omega (arith, last))
            ∙ ap (λ a. a % n) (omega (arith, last))
            ∙ mod-eq_of_lt (omega (arith, h)) in
          let at : ((c + 1) % n + k) % n ≡ k =
            ap (λ a. (a + k) % n) start ∙ ap (λ a. a % n) (omega arith) ∙ mod-eq_of_lt h in
          rw at (ground (arith, last, h))
      | inr e ↦
          let start : (c + 1) % n ≡ c + 1 = mod-eq_of_lt (ground (arith, e, hc)) in
          let at = ap (λ a. (a + k) % n) start ∙ wrapped (c + 1) k n (ground (arith, e, hc)) h in
          rw at (ground (arith, h, hc))
    ]

-- Task `i` is ready with the least priority number below 999 of all ready tasks, and of those with
-- that number it is the first in turn.
pub record Chosen (s : Sched) (i : ℕ) : Type 0 where
  pub task : Tcb
  pub here : At s i task
  pub is_ready : task.state ≡ ready
  pub below : task.priority < 999
  pub least : (j : ℕ) (u : Tcb) → At s j u → u.state ≡ ready → task.priority ≤ u.priority
  pub first :
      (j : ℕ) (u : Tcb)
      → At s j u
      → u.state ≡ ready
      → u.priority ≡ task.priority
      → turn s.current (length s.tasks) i ≤ turn s.current (length s.tasks) j

abbrev pub Next : Sched → Option ℕ → Type 0
Next s none = (j : ℕ) (u : Tcb) → At s j u → u.state ≡ ready → 999 ≤ u.priority
Next s (some i) = Chosen s i

module _ (s : Sched) (inside : (c : ℕ) → s.current ≡ some c → c < length s.tasks) where
  turn_of : (k : ℕ) → k < length s.tasks → turn s.current (length s.tasks) (from_current s k) ≡ k
  turn_of k h = turn-from_current s.current (length s.tasks) k inside h

  Next-Choice : (o : Option ℕ) → Choice (from_current s) s.tasks 999 (length s.tasks) o → Next s o
  Next-Choice none c = λ j u at st.
      let (k, hk, ek) = reached s j (get_elem?-lt s.tasks j at) in
      c k u hk (ap (get_elem? s.tasks) ek ∙ at, st)
  Next-Choice (some i) c = record {
    task = c.task;
    here = ap (get_elem? s.tasks) c.here ∙ c.found.0;
    is_ready = c.found.1;
    below = c.below;
    least = λ j u at st.
        let (k, hk, ek) = reached s j (get_elem?-lt s.tasks j at) in
        c.least k u hk (ap (get_elem? s.tasks) ek ∙ at, st);
    first = λ j u at st same.
        let (k, hk, ek) = reached s j (get_elem?-lt s.tasks j at) in
        let later = c.first k u in
        let mine = ap (turn s.current (length s.tasks)) c.here ∙ turn_of c.round c.in_range in
        let theirs = ap (turn s.current (length s.tasks)) (sym ek) ∙ turn_of k hk in
        elim (Bool-cases (ltb k c.round)) [
          | inl m ↦
              let worse = later (ground (arith, m)) (ap (get_elem? s.tasks) ek ∙ at, st) in
              absurd (omega (arith, worse, same))
          | inr m ↦ omega (arith, mine, theirs, not_below k c.round m)
        ];
  }
    where
      not_below : (k r : ℕ) → ltb k r ≡ false → r ≤ k
      not_below k r m = ground (arith, m)

-- When the current task, if there is one, is one of the table, `pick_next` chooses, of the ready
-- tasks whose priority number is below 999, one with the least number, and of those the first in
-- turn, counting from the task after the current one round to the current one, or from task 0 when
-- there is none; it returns none only when no ready task has a number below 999.
pub pick_next-Next :
    (s : Sched) → ((c : ℕ) → s.current ≡ some c → c < length s.tasks) → Next s (pick_next s)
pick_next-Next s inside = Next-Choice s inside (pick_next s) (pick_next-Choice s)
