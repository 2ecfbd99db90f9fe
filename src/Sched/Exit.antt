-- ===== src/Sched/Exit.antt =====
-- `sched_exit` and `sched_start` of kernel/sched.c.
use native.Mathlib.Decide.{ℕ_discrete}
use fobos_os.Base.{
  ℕ, ◌≡◌, refl, ◌≢◌, ◌⊎◌, ap, ◌∙◌, none, some, arith, inl, inr, Option-cases, modify,
  get_elem?-modify, get_elem?-lt,
}
use fobos_os.Sched.{
  Tcb, Sched, ready, running, dead, set_state, set_tasks, pick_next, give_way, sched_yield_impl,
  sched_exit, sched_start,
}
use fobos_os.Sched.Inv.{At, Sane, Runs, Idle, Mild, At-modify, modify-Sane, run_on}
use fobos_os.Sched.Switch.{
  MostUrgent, MostUrgent-of_pick, picked, none_ready, or_else, given_way, given_way-Sane,
  sched_yield_impl-Sane, At-after,
}

set_dead-Mild : Mild (set_state dead)
set_dead-Mild t = (refl, λ h. h)

module _ {s : Sched} (r c : ℕ) (v : Sane s) (cur : s.current ≡ some c) where
  -- The table once the caller is marked as dead.
  abbrev buried : Sched
  buried = set_tasks s (modify c (set_state dead) s.tasks)

  buried-Sane : Sane buried
  buried-Sane = modify-Sane s c (set_state dead) v set_dead-Mild (λ t at st. cur)

  exit_step : sched_exit r s ≡ sched_yield_impl r buried
  unfolding sched_exit
  exit_step = simp (cur, sched_exit)

  -- `sched_exit` leaves a sane table in which exactly the current task runs.
  pub sched_exit-Sane : Sane (sched_exit r s) × Runs (sched_exit r s)
  sched_exit-Sane =
      let (a, b, d, e) = sched_yield_impl-Sane {s = buried} r c buried-Sane cur in
      rw exit_step (a, b)

  -- A task of the table in which the next one is looked for.
  At-left :
      (i : ℕ) (u : Tcb)
      → At (given_way r c buried) i u
      → (t : Tcb) × At s i t × (i ≡ c → u.state ≡ dead) × (i ≢ c → u ≡ t)
  unfolding give_way
  At-left i u h =
      let (t1, at1, e1) = At-modify buried c (give_way r) i u h in
      let (t0, at0, e0) = At-modify s c (set_state dead) i t1 at1 in
      (t0, at0, λ p. ground arith, λ p. ground arith)

  -- If another task is ready when the current one exits, another task runs afterwards, and the one
  -- that exited stays dead.
  pub sched_exit-dead :
      (i : ℕ) (u : Tcb)
      → i ≢ c
      → At s i u
      → u.state ≡ ready
      → let s' = sched_exit r s in
        (n : ℕ) × (s'.current ≡ some n) × (n ≢ c) × ((t : Tcb) → At s' c t → t.state ≡ dead)
  sched_exit-dead i u ne at st =
      let w = given_way r c buried in
      let (a, b, d, e) = sched_yield_impl-Sane {s = buried} r c buried-Sane cur in
      let at_w : At w i u = ground (
        arith,
        get_elem?-modify c (give_way r) buried.tasks i,
        get_elem?-modify c (set_state dead) s.tasks i,
      ) in
      elim (Option-cases (pick_next w)) [
        | inl none_found ↦
            absurd (
              none_ready w (given_way-Sane {s = buried} r c buried-Sane cur) none_found i u at_w st)
        | inr (n, found) ↦
            let (t, at_n, ready_n, least) = picked w n found in
            let (t0, at0, dead_c, same) = At-left n t at_n in
            let ne_n : n ≢ c = λ p. ground (arith, dead_c p) in
            rw exit_step (
              n,
              d ∙ ap (λ o. some (or_else o c)) found,
              ne_n,
              λ y h.
                  let (y', aty, ey) =
                    At-after w (sched_yield_impl r buried) n
                      (e ∙ ap (λ o. modify (or_else o c) (set_state running) w.tasks) found) c y
                      h in
                  let (t1, at1, dead1, same1) = At-left c y' aty in
                  ground (arith, dead1 refl, ne_n),
            )
      ]

  -- If no other task is ready when the current one exits, the task that exited is marked as running
  -- again and stays the current one.
  pub sched_exit-revives :
      ((i : ℕ) (u : Tcb) → i ≢ c → At s i u → u.state ≢ ready)
      → let s' = sched_exit r s in
        (s'.current ≡ some c) × (t : Tcb) × At s' c t × (t.state ≡ running)
  sched_exit-revives others =
      let w = given_way r c buried in
      let (a, b, d, e) = sched_yield_impl-Sane {s = buried} r c buried-Sane cur in
      elim (Option-cases (pick_next w)) [
        | inl none_found ↦
            let now : (sched_yield_impl r buried).current ≡ some c =
              d ∙ ap (λ o. some (or_else o c)) none_found in
            let (t, at, st) = b c now in rw exit_step (now, t, at, st)
        | inr (n, found) ↦
            let (t, at_n, ready_n, least) = picked w n found in
            let (t0, at0, dead_c, same) = At-left n t at_n in
            elim (ℕ_discrete n c) [
              | yes p ↦ ground (arith, dead_c p)
              | no p ↦ absurd (others n t0 p at0 (ground (arith, same p)))
            ]
      ]

-- `sched_start` on a sane table where nobody runs starts the most urgent ready task, with the
-- invariant, and gives up only when no task is ready.
pub sched_start_lem :
    {s : Sched}
    → Sane s
    → Idle s
    → ((s' : Sched) × (sched_start s ≡ some s') × Sane s' × Runs s' × MostUrgent s')
      ⊎ ((sched_start s ≡ none) × ((i : ℕ) (u : Tcb) → At s i u → u.state ≢ ready))
unfolding sched_start
sched_start_lem {s} v idle = elim (Option-cases (pick_next s)) [
  | inl e ↦ inr (rw (e, sched_start) refl, none_ready s v e)
  | inr (n, e) ↦
      let (t, at, st, least) = picked s n e in
      let chosen : Sched = record s { current = some t.id } in
      let here : chosen.current ≡ some n = ap some (v.ids n t at) in
      let v' : Sane chosen = record {
        few = v.few;
        ids = v.ids;
        prios = v.prios;
        only_current = λ i u h ru. absurd (idle i u h ru);
        in_table = λ c h. ground (arith, get_elem?-lt s.tasks n at, v.ids n t at);
      } in
      let (sane, runs) = run_on n v' here in
      inl (
        record s { tasks = modify n (set_state running) s.tasks; current = some t.id },
        rw (e, sched_start, at) refl,
        sane,
        runs,
        MostUrgent-of_pick s
            (record s { tasks = modify n (set_state running) s.tasks; current = some t.id }) n e
            here refl,
      )
]
