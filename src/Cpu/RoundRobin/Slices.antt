-- ===== src/Cpu/RoundRobin/Slices.antt =====
-- The time slices of the scheduler in pkg/cpu/sched_rr.go.
use os_simulator.Base.{
  ==_refl, Bool-cases, List, Option, Option-cases, [], ap, arith, inl, inr, leb, le→leb, none, refl,
  some, subst, suc, sym, zero, ℕ, ◌++◌, ◌<◌, ◌∙◌, ◌∷◌, ◌≡◌, ◌≤◌, ◌⊎◌,
}
use os_simulator.Cpu.RoundRobin.{
  RrScheduler, check_quantum, new_rr, preempt, rr_dispatch, rr_execute, rr_loaded, rr_run, rr_tick,
}
use os_simulator.Cpu.Core.{
  Core, Store, admit, dispatch, execute, is_zero, run_process, start, used_tick,
}

-- The quantum is positive, and the slice of the running process is within it.
pub record IsSliced (r : RrScheduler) : Type 0 where
  pub positive : 0 < r.quantum
  pub bounded : r.current_slice ≤ r.quantum

-- What is left of the slice, with a tick for the process that is to run.
abbrev Left : Option ℕ → ℕ → ℕ → Type 0
Left none slice quantum = slice ≤ quantum
Left (some p) slice quantum = slice < quantum

HasTickLeft : RrScheduler → Type 0
HasTickLeft r = (0 < r.quantum) × Left r.core.running r.current_slice r.quantum

check_quantum-HasTickLeft : (r : RrScheduler) → IsSliced r → HasTickLeft (check_quantum r)
unfolding check_quantum HasTickLeft preempt
check_quantum-HasTickLeft r v = elim (Option-cases r.core.running) [
  | inl e ↦
      rw (e, check_quantum)
        (v.positive, subst (λ o. Left o r.current_slice r.quantum) (sym e) v.bounded)
  | inr (p, e) ↦ elim (Bool-cases (leb r.quantum r.current_slice)) [
    | inl q ↦ rw (e, q, check_quantum) (v.positive, omega arith)
    | inr q ↦
        rw (e, q, check_quantum)
          (v.positive, subst (λ o. Left o r.current_slice r.quantum) (sym e) (ground arith))
  ]
]

dispatch-HasTickLeft :
    (now : ℕ) (r : RrScheduler) (o : Option ℕ) (ps : List ℕ)
    → r.core.running ≡ o
    → r.core.ready_queue ≡ ps
    → HasTickLeft r
    → HasTickLeft (rr_dispatch now r)
unfolding rr_dispatch dispatch start HasTickLeft
dispatch-HasTickLeft now r (some p) ps e f v = rw (e, rr_dispatch, dispatch) v
dispatch-HasTickLeft now r none [] e f v = rw (e, f, rr_dispatch, dispatch) v
dispatch-HasTickLeft now r none (p ∷ ps) e f v = rw (e, f, rr_dispatch, dispatch) (v.0, v.0)

execute-IsSliced : (now : ℕ) (r : RrScheduler) → HasTickLeft r → IsSliced (rr_execute now r)
unfolding rr_execute HasTickLeft
execute-IsSliced now r v = elim (Option-cases r.core.running) [
  | inl e ↦
      rw e
        (record { positive = v.0; bounded = subst (λ o. Left o r.current_slice r.quantum) e v.1 })
  | inr (p, e) ↦
      let l = subst (λ o. Left o r.current_slice r.quantum) e v.1 in
      elim (Option-cases (execute now r.core).running) [
        | inl f ↦ rw (e, f) (record { positive = v.0; bounded = omega arith })
        | inr (q, f) ↦ rw (e, f) (record { positive = v.0; bounded = omega (arith, l) })
      ]
]

rr_tick-IsSliced : (now : ℕ) (r : RrScheduler) → IsSliced r → IsSliced (rr_tick now r).0
unfolding rr_tick
rr_tick-IsSliced now r v = execute-IsSliced now _ (
    dispatch-HasTickLeft now _ _ _ refl refl (
      check_quantum-HasTickLeft (record r { core = admit now r.core })
        (record { positive = v.positive; bounded = v.bounded })))

new_rr-IsSliced : (quantum : ℕ) (h : Store) (ps : List ℕ) → IsSliced (rr_loaded quantum h ps)
unfolding new_rr
new_rr-IsSliced quantum h ps = record { positive = ground arith; bounded = omega arith }

-- Of a Round Robin scheduler that is loaded with any processes, with any quantum: after any number
-- of ticks the quantum is positive, and the running process has used at most the quantum of its time
-- slice.
pub rr_run-IsSliced :
    (quantum : ℕ) (h : Store) (ps : List ℕ) (n : ℕ) → IsSliced (rr_run n (rr_loaded quantum h ps))
unfolding rr_run
rr_run-IsSliced quantum h ps zero = new_rr-IsSliced quantum h ps
rr_run-IsSliced quantum h ps (suc n) = rr_tick-IsSliced n _ (rr_run-IsSliced quantum h ps n)

check_quantum-expired :
    (p : ℕ) (r : RrScheduler)
    → r.core.running ≡ some p
    → r.quantum ≤ r.current_slice
    → (check_quantum r).core ≡ preempt p r.core
unfolding check_quantum preempt
check_quantum-expired p r e l = rw (e, check_quantum, le→leb r.quantum r.current_slice l) refl

dispatch-preempt :
    (now p q : ℕ) (qs : List ℕ) (s : Core)
    → s.ready_queue ≡ q ∷ qs
    → dispatch now (preempt p s) ≡ start now q (qs ++ p ∷ []) (preempt p s)
unfolding dispatch preempt start
dispatch-preempt now p q qs s f = rw (f, dispatch) refl

-- What a tick of the running process does to the lists.
execute-cases :
    (now q : ℕ) (s : Core)
    → s.running ≡ some q
    → ((execute now s).ready_queue ≡ s.ready_queue)
      × (((execute now s).running ≡ some q) ⊎ ((execute now s).completed ≡ s.completed ++ q ∷ []))
unfolding execute run_process
execute-cases now q s e = elim (Bool-cases (is_zero (used_tick (s.store q)).remaining_time)) [
  | inl z ↦ rw (e, execute, ==_refl q, z, run_process) (refl, inr refl)
  | inr z ↦ rw (e, execute, ==_refl q, z, run_process) (refl, inl e)
]

admit_running : (now : ℕ) (s : Core) → (admit now s).running ≡ s.running
unfolding admit
admit_running now s = refl

expired_core :
    (now p q : ℕ) (qs : List ℕ) (r : RrScheduler)
    → r.core.running ≡ some p
    → r.quantum ≤ r.current_slice
    → (admit now r.core).ready_queue ≡ q ∷ qs
    → (rr_tick now r).0.core
      ≡ execute now (start now q (qs ++ p ∷ []) (preempt p (admit now r.core)))
unfolding rr_tick rr_dispatch rr_execute
expired_core now p q qs r e l f = ap (execute now) (
    ap (dispatch now) (
      check_quantum-expired p (record r { core = admit now r.core }) (admit_running now r.core ∙ e)
        l)
    ∙ dispatch-preempt now p q qs (admit now r.core) f)

-- The running process of a Round Robin scheduler has used its quantum when a tick begins, and the
-- queue is not empty after the arrivals. In this tick the head of the queue gets the CPU: it runs on
-- after the tick, or it is the last of the completed. The process that ran stands at the end of the
-- queue.
pub rr_tick-expired :
    (now p q : ℕ) (qs : List ℕ) (r : RrScheduler)
    → r.core.running ≡ some p
    → r.quantum ≤ r.current_slice
    → (admit now r.core).ready_queue ≡ q ∷ qs
    → let t = (rr_tick now r).0.core in
      (t.ready_queue ≡ qs ++ p ∷ [])
      × ((t.running ≡ some q) ⊎ (t.completed ≡ r.core.completed ++ q ∷ []))
unfolding start preempt admit
rr_tick-expired now p q qs r e l f =
    rw (expired_core now p q qs r e l f) (execute-cases now q _ refl)
