-- ===== src/Sched/Pick.antt =====
-- The two searches of kernel/sched.c: among the ready tasks they choose the least priority number,
-- and of several the first in the order in which the loop looks.
use native.Mathlib.Decide.{ℕ_discrete}
use fobos_os.Base.{
  ℕ, zero, suc, ◌+◌, ◌≤◌, ◌<◌, ◌≡◌, refl, inl, inr, true, ◌&&◌, Option, none, some, List, arith,
  sym, ap, subst, ◌∙◌, ltb, Option-cases, Bool-cases, length, get_elem?,
}
use fobos_os.Sched.{
  Tcb, Sched, TaskState, ready, is_ready, pick_step, pick_loop, pick_next, pick_higher_than,
  from_current,
}

pub is_ready_iff : (st : TaskState) → is_ready st ≡ true → st ≡ ready
is_ready_iff st h = ground arith

module _ (index : ℕ → ℕ) (tasks : List Tcb) (limit : ℕ) where
  -- Task `t` is what round `j` looks at, and it is ready.
  abbrev pub ReadyAt : ℕ → Tcb → Type 0
  ReadyAt j t = (get_elem? tasks (index j) ≡ some t) × (t.state ≡ ready)

  -- The best of the first `k` rounds.
  pub record Picked (k i : ℕ) : Type 0 where
    pub round : ℕ
    pub in_range : round < k
    pub here : i ≡ index round
    pub task : Tcb
    pub found : ReadyAt round task
    pub below : task.priority < limit
    pub least : (j : ℕ) (t : Tcb) → j < k → ReadyAt j t → task.priority ≤ t.priority
    pub first : (j : ℕ) (t : Tcb) → j < round → ReadyAt j t → task.priority < t.priority

  abbrev pub NonePicked : ℕ → Type 0
  NonePicked k = (j : ℕ) (t : Tcb) → j < k → ReadyAt j t → limit ≤ t.priority

  abbrev pub SoFar : ℕ → ℕ → Option ℕ → Type 0
  SoFar k p none = (p ≡ limit) × NonePicked k
  SoFar k p (some i) = (c : Picked k i) × (p ≡ c.task.priority)

  at_least :
      (k p : ℕ) (o : Option ℕ) (s : SoFar k p o) (j : ℕ) (t : Tcb)
      → j < k
      → ReadyAt j t
      → p ≤ t.priority
  at_least k p none (e, no_one) j t h r = omega (arith, no_one j t h r)
  at_least k p (some i) (c, e) j t h r = omega (arith, c.least j t h r)

  at_most : (k p : ℕ) (o : Option ℕ) → SoFar k p o → p ≤ limit
  at_most k p none (e, no_one) = omega arith
  at_most k p (some i) (c, e) = omega (arith, c.below)

  -- Round `k` finds a better task.
  better :
      (k p : ℕ) (o : Option ℕ) (t : Tcb)
      → SoFar k p o
      → ReadyAt k t
      → t.priority < p
      → SoFar (suc k) t.priority (some (index k))
  better k p o t s r lt = (
    record {
      round = k;
      in_range = omega arith;
      here = refl;
      task = t;
      found = r;
      below = omega (arith, at_most k p o s);
      least = λ j u h ru. elim (ℕ_discrete j k) [
        | yes e ↦
            let same : some u ≡ some t = sym ru.0 ∙ ap (λ m. get_elem? tasks (index m)) e ∙ r.0 in
            ground arith
        | no ne ↦ omega (arith, at_least k p o s j u (omega arith) ru)
      ];
      first = λ j u h ru. omega (arith, at_least k p o s j u h ru);
    },
    refl,
  )

  -- Round `k` finds nothing better.
  keep :
      (k p : ℕ) (o : Option ℕ)
      → SoFar k p o
      → ((t : Tcb) → ReadyAt k t → p ≤ t.priority)
      → SoFar (suc k) p o
  keep k p none (e, no_one) worse = (
    e,
    λ j t h r. elim (ℕ_discrete j k) [
      | yes q ↦ omega (arith, worse t (subst (λ m. ReadyAt m t) q r))
      | no q ↦ no_one j t (omega arith) r
    ],
  )
  keep k p (some i) (c, e) worse = (
    record {
      round = c.round;
      in_range = omega (arith, c.in_range);
      here = c.here;
      task = c.task;
      found = c.found;
      below = c.below;
      least = λ j t h r. elim (ℕ_discrete j k) [
        | yes q ↦ omega (arith, worse t (subst (λ m. ReadyAt m t) q r))
        | no q ↦ c.least j t (omega arith) r
      ];
      first = c.first;
    },
    e,
  )

  pick_step-SoFar :
      (k p : ℕ) (o : Option ℕ)
      → SoFar k p o
      → let b = pick_step (index k) tasks (p, o) in SoFar (suc k) b.0 b.1
  unfolding pick_step
  pick_step-SoFar k p o s = elim (Option-cases (get_elem? tasks (index k))) [
    | inl e ↦ rw (e, pick_step) (keep k p o s (λ t r. ground arith))
    | inr (t, e) ↦ elim (Bool-cases (is_ready t.state && ltb t.priority p)) [
      | inl h ↦
          rw (e, pick_step, h)
            (better k p o t s (e, is_ready_iff t.state (ground arith)) (ground arith))
      | inr h ↦ rw (e, pick_step, h) (keep k p o s (λ u r. ground arith))
    ]
  ]

  pub pick_loop-SoFar :
      (n k m p : ℕ) (o : Option ℕ)
      → n + k ≡ m
      → SoFar k p o
      → let b = pick_loop n k index tasks (p, o) in SoFar m b.0 b.1
  unfolding pick_loop
  pick_loop-SoFar zero k m p o e s = subst (λ j. SoFar j p o) (omega arith) s
  pick_loop-SoFar (suc n) k m p o e s =
      let b = pick_step (index k) tasks (p, o) in
      pick_loop-SoFar n (k + 1) m b.0 b.1 (omega arith)
        (subst (λ j. SoFar j b.0 b.1) (omega arith) (pick_step-SoFar k p o s))

  -- What a whole search returns.
  abbrev pub Choice : ℕ → Option ℕ → Type 0
  Choice n none = NonePicked n
  Choice n (some i) = Picked n i

  Choice-SoFar : (n p : ℕ) (o : Option ℕ) → SoFar n p o → Choice n o
  Choice-SoFar n p none s = s.1
  Choice-SoFar n p (some i) s = s.0

  pub pick_loop-Choice : (n : ℕ) → Choice n (pick_loop n 0 index tasks (limit, none)).1
  pick_loop-Choice n =
      let b = pick_loop n 0 index tasks (limit, none) in
      Choice-SoFar n b.0 b.1
        (pick_loop-SoFar n 0 n limit none (omega arith) (refl, λ j t h r. absurd (omega arith)))

-- `pick_next` chooses, of the ready tasks whose priority number is below 999, one with the least
-- number, and of those the one that comes first when counting round from the task after the
-- current one; it returns none exactly when there is no such task.
pub pick_next-Choice :
    (s : Sched) → Choice (from_current s) s.tasks 999 (length s.tasks) (pick_next s)
unfolding pick_next
pick_next-Choice s = pick_loop-Choice (from_current s) s.tasks 999 (length s.tasks)

-- `pick_higher_than(prio)` chooses, of the ready tasks whose priority number is below `prio`, the
-- first one in the table with the least number, and returns none exactly when there is none.
pub pick_higher_than-Choice :
    (prio : ℕ) (s : Sched) → Choice (λ k. k) s.tasks prio (length s.tasks) (pick_higher_than prio s)
unfolding pick_higher_than
pick_higher_than-Choice prio s = pick_loop-Choice (λ k. k) s.tasks prio (length s.tasks)
