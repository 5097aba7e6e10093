-- ===== src/Cpu/Mlfq/Tests.antt =====
-- pkg/cpu/sched_mlfq.go: runs of the MLFQ scheduler, and its theorems at two processes.
use os_simulator.Base.{
  All, Bool-cases, List, Outcome, String, [], arith, if◌then◌else◌, inl, inr, panics, refl, returns,
  ℕ, ◌==◌, ◌∷◌, ◌≡◌, ◌⊎◌,
}
use os_simulator.Cpu.Process.{new_process}
use os_simulator.Cpu.Core.{Store, add_process, execute, new_core, run_process, start, wait_all}
use os_simulator.Cpu.Turnaround.{AreFresh}
use os_simulator.Cpu.Mlfq.{
  MlfqScheduler, admit_top, boost, check_config, check_level, check_running, dispatch_free, enter,
  execute_level, flatten, gather, mlfq_dispatch, mlfq_tick, move_all, move_running, new_mlfq,
  push_at, requeue, start_first, take_first,
}
use os_simulator.Base.Int.{◌-ℤ◌}
use os_simulator.Cpu.Mlfq.Rules.{IsFirst, mlfq_dispatch-IsFirst}
use os_simulator.Cpu.Mlfq.Runs.{mlfq_run}
use os_simulator.Cpu.Mlfq.Loaded.{
  AreAtTop, RunningKeepsTime, SettledIn, mlfq_loaded, mlfq_run-IsSettled,
}

-- Process 1 arrives at 0 with a burst of 7 ticks, every other at 1 with 2 ticks.
abbrev two : Store
two p = if p == 1 then new_process 1 "P1" 0 7 else new_process p "P2" 1 2

two-AreFresh : AreFresh two
unfolding new_process
two-AreFresh p = elim (Bool-cases (p == 1)) [
  | inl e ↦ rw e (refl, record { remains = refl; unfinished = omega arith; unwaited = refl })
  | inr e ↦ rw e (refl, record { remains = refl; unfinished = omega arith; unwaited = refl })
]

two-AreAtTop : AreAtTop two
unfolding new_process
two-AreAtTop p = elim (Bool-cases (p == 1)) [ inl e ↦ rw e refl | inr e ↦ rw e refl ]

abbrev plain : String → ℕ → String
plain name level = name

abbrev both : List ℕ
both = 1 ∷ 2 ∷ []

abbrev finished : Outcome MlfqScheduler → List ℕ
finished panics = []
finished (returns m) = m.core.completed

-- Process 1 is demoted after its allotment of four ticks.
mlfq_finishes : finished (mlfq_run plain 9 (mlfq_loaded 50 two both)) ≡ 2 ∷ 1 ∷ []
unfolding mlfq_run mlfq_tick boost admit_top enter push_at requeue check_level check_config
    check_running take_first start_first dispatch_free execute_level wait_all start execute
    run_process new_core new_mlfq add_process new_process move_running move_all gather ◌-ℤ◌
mlfq_finishes = refl

mlfq_run-IsSettled_example :
    (m : MlfqScheduler) × (mlfq_run plain 9 (mlfq_loaded 50 two both) ≡ returns m)
    × All (SettledIn m.core) m.core.completed
    × RunningKeepsTime m m.core.running
mlfq_run-IsSettled_example = mlfq_run-IsSettled plain 50 two both 9 two-AreFresh two-AreAtTop

-- Process 2 waits at level 1, process 1 below it.
abbrev waiting : MlfqScheduler
waiting = record (new_mlfq 50 two) { queues = [] ∷ (2 ∷ []) ∷ (1 ∷ []) ∷ [] }

mlfq_dispatch-IsFirst_example :
    ((p : ℕ) × (rest : List (List ℕ)) × IsFirst waiting.queues p rest
      × (mlfq_dispatch 3 waiting
          ≡ record waiting { queues = rest; current_slice = 0; core = start 3 p [] waiting.core }))
    ⊎ ((flatten waiting.queues ≡ []) × (mlfq_dispatch 3 waiting ≡ waiting))
unfolding new_mlfq new_core
mlfq_dispatch-IsFirst_example = mlfq_dispatch-IsFirst 3 waiting refl
