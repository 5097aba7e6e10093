-- ===== src/Cpu/Turnaround.antt =====
-- The times of the processes that the FIFO and the Round Robin scheduler of pkg/cpu have completed.
use os_simulator.Base.{
  Bool, Bool-cases, List, Option-cases, [], arith, count, false, inl, inr, leb, none, refl, subst,
  suc, sym, zero, ℕ, ◌+◌, ◌<◌, ◌∷◌, ◌≡◌,
}
use os_simulator.Cpu.Process.{Process, ProcessState, blocked, new, ready, running, terminated}
use os_simulator.Cpu.Core.{Core, Store, add_process, add_processes, admit, new_core}
use os_simulator.Cpu.Account.{Accounted, IsAccounted, IsFresh, IsSettled, Owes, Stands}
use os_simulator.Cpu.Fifo.{run, tick}
use os_simulator.Cpu.RoundRobin.{
  RrScheduler, check_quantum, new_rr, rr_dispatch, rr_execute, rr_loaded, rr_run, rr_tick,
}
use os_simulator.Cpu.Admission.{admit-IsAccounted}
use os_simulator.Cpu.Dispatching.{dispatch-IsAccounted, preempt-IsAccounted}
use os_simulator.Cpu.Execution.{execute-IsAccounted}

-- Processes that no scheduler has seen.
abbrev pub AreFresh : Store → Type 0
AreFresh h = (p : ℕ) → ((h p).state ≡ new) × IsFresh (h p)

fresh-Accounted : (h : Store) → AreFresh h → Accounted 0 (0 + 1) h [] none []
fresh-Accounted h f p =
    subst (λ t. Owes 0 (0 + 1) t (h p) × Stands t 0 0 false) (sym (f p).0)
      ((f p).1, (refl, refl, refl))

add_processes-IsAccounted :
    (a b : ℕ) (ps : List ℕ) (s : Core) → IsAccounted a b s → IsAccounted a b (add_processes ps s)
unfolding add_process
add_processes-IsAccounted a b [] s v = v
add_processes-IsAccounted a b (p ∷ ps) s v = add_processes-IsAccounted a b ps (add_process s p) v

pub loaded-IsAccounted :
    (h : Store) (ps : List ℕ) → AreFresh h → IsAccounted 0 (0 + 1) (add_processes ps (new_core h))
unfolding new_core
loaded-IsAccounted h ps f =
    add_processes-IsAccounted 0 (0 + 1) ps (new_core h) (fresh-Accounted h f)

pub plus_one : (n : ℕ) → n + 1 ≡ suc n
plus_one n = omega arith

pub tick-IsAccounted :
    (now : ℕ) (s : Core)
    → IsAccounted now (now + 1) s
    → IsAccounted (now + 1) (now + 1 + 1) (tick now s).0
unfolding tick
tick-IsAccounted now s v =
    execute-IsAccounted now _ (dispatch-IsAccounted (now + 1) now _ (admit-IsAccounted now s v))

run-IsAccounted : (n : ℕ) (s : Core) → IsAccounted 0 (0 + 1) s → IsAccounted n (n + 1) (run n s)
unfolding run
run-IsAccounted zero s v = v
run-IsAccounted (suc n) s v =
    subst (λ k. IsAccounted k (k + 1) (tick n (run n s)).0) (plus_one n)
      (tick-IsAccounted n (run n s) (run-IsAccounted n s v))

pub check_quantum-IsAccounted :
    (a : ℕ) (r : RrScheduler) → IsAccounted a a r.core → IsAccounted a a (check_quantum r).core
unfolding check_quantum
check_quantum-IsAccounted a r v = elim (Option-cases r.core.running) [
  | inl e ↦ rw (e, check_quantum) v
  | inr (p, e) ↦ elim (Bool-cases (leb r.quantum r.current_slice)) [
    | inl q ↦ rw (e, q, check_quantum) (preempt-IsAccounted a p r.core e v)
    | inr q ↦ rw (e, q, check_quantum) v
  ]
]

pub rr_tick-IsAccounted :
    (now : ℕ) (r : RrScheduler)
    → IsAccounted now (now + 1) r.core
    → IsAccounted (now + 1) (now + 1 + 1) (rr_tick now r).0.core
unfolding rr_tick rr_dispatch rr_execute
rr_tick-IsAccounted now r v = execute-IsAccounted now _ (
    dispatch-IsAccounted (now + 1) now _ (
      check_quantum-IsAccounted (now + 1) (record r { core = admit now r.core })
        (admit-IsAccounted now r.core v)))

rr_run-IsAccounted :
    (n : ℕ) (r : RrScheduler)
    → IsAccounted 0 (0 + 1) r.core
    → IsAccounted n (n + 1) (rr_run n r).core
unfolding rr_run
rr_run-IsAccounted zero r v = v
rr_run-IsAccounted (suc n) r v =
    subst (λ k. IsAccounted k (k + 1) (rr_tick n (rr_run n r)).0.core) (plus_one n)
      (rr_tick-IsAccounted n (rr_run n r) (rr_run-IsAccounted n r v))

Stands-IsSettled :
    (a b : ℕ) (x : Process) (q d : ℕ) (r : Bool) (st : ProcessState)
    → Owes a b st x
    → Stands st q d r
    → 0 < d
    → (d ≡ 1) × IsSettled x
Stands-IsSettled a b x q d r new o s h = absurd (omega arith)
Stands-IsSettled a b x q d r ready o s h = absurd (omega arith)
Stands-IsSettled a b x q d r running o s h = absurd (omega arith)
Stands-IsSettled a b x q d r blocked o s h = absurd o
Stands-IsSettled a b x q d r terminated o s h = (s.1, o)

-- What an account says of a process in the list of the completed.
pub completed-IsSettled :
    (a b p : ℕ) (s : Core)
    → IsAccounted a b s
    → 0 < count p s.completed
    → (count p s.completed ≡ 1) × IsSettled (s.store p)
completed-IsSettled a b p s v h =
    Stands-IsSettled a b (s.store p) _ _ _ (s.store p).state (v p).0 (v p).1 h

-- Let the FIFO scheduler be loaded with processes that are new, have not waited, have a positive
-- burst time and that burst time remaining. After any number of ticks every process in its list of
-- the completed stands there once. Its waiting and burst times add up to the turnaround time and one
-- more, and its finish time is the arrival time and the turnaround time.
pub fifo_run-IsSettled :
    (h : Store) (ps : List ℕ) (n p : ℕ)
    → AreFresh h
    → 0 < count p (run n (add_processes ps (new_core h))).completed
    → let s = run n (add_processes ps (new_core h)) in
      (count p s.completed ≡ 1) × IsSettled (s.store p)
fifo_run-IsSettled h ps n p f c =
    completed-IsSettled n (n + 1) p (run n (add_processes ps (new_core h)))
      (run-IsAccounted n _ (loaded-IsAccounted h ps f)) c

-- Let the Round Robin scheduler be loaded with such processes, with any quantum. The same holds
-- after any number of ticks: every completed process stands once in the list of the completed, its
-- waiting and burst times add up to the turnaround time and one more, and its finish time is the
-- arrival time and the turnaround time.
pub rr_run-IsSettled :
    (quantum : ℕ) (h : Store) (ps : List ℕ) (n p : ℕ)
    → AreFresh h
    → 0 < count p (rr_run n (rr_loaded quantum h ps)).core.completed
    → let s = (rr_run n (rr_loaded quantum h ps)).core in
      (count p s.completed ≡ 1) × IsSettled (s.store p)
unfolding new_rr
rr_run-IsSettled quantum h ps n p f c =
    completed-IsSettled n (n + 1) p (rr_run n (rr_loaded quantum h ps)).core
      (rr_run-IsAccounted n (rr_loaded quantum h ps) (loaded-IsAccounted h ps f)) c
