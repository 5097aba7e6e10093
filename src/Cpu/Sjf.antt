-- ===== src/Cpu/Sjf.antt =====
-- pkg/cpu/sched_sjf.go: SJFScheduler and STCFScheduler. Both have the fields of the FIFO scheduler.
pub mod Shortest
use os_simulator.Base.{Bool, List, Option, [], if◌then◌else◌, ltb, none, some, ℕ, ◌++◌, ◌∷◌}
use os_simulator.Base.Int.{ltb_ℤ}
use os_simulator.Base.Sorting.{sort_by}
use os_simulator.Cpu.Core.{Core, Store, admit, all_done, execute, new_core, start}
use os_simulator.Cpu.RoundRobin.{preempt}

abbrev pub SjfScheduler : Type 0
SjfScheduler = Core

unfoldable pub new_sjf : Store → SjfScheduler
new_sjf h = new_core h

abbrev pub StcfScheduler : Type 0
StcfScheduler = Core

unfoldable pub new_stcf : Store → StcfScheduler
new_stcf h = new_core h

abbrev pub by_burst : Store → ℕ → ℕ → Bool
by_burst h p q = ltb (h p).burst_time (h q).burst_time

-- Where the CPU is free, sort the queue by burst time and start its head.
unfoldable pub sjf_dispatch : ℕ → SjfScheduler → SjfScheduler
sjf_dispatch now s = elim s.running [
  | some p ↦ s
  | none ↦ elim (sort_by (by_burst s.store) s.ready_queue) [ [] ↦ s | p ∷ ps ↦ start now p ps s ]
]

unfoldable pub sjf_tick : ℕ → SjfScheduler → SjfScheduler × Option ℕ × Bool
sjf_tick now s = let t = execute now (sjf_dispatch now (admit now s)) in (t, t.running, all_done t)

abbrev pub by_remaining : Store → ℕ → ℕ → Bool
by_remaining h p q = ltb_ℤ (h p).remaining_time (h q).remaining_time

-- The head of the sorted queue goes before a running process that has more time remaining. The slice
-- `s.readyQueue[1:]` is taken after the running process has been appended.
unfoldable pub stcf_choose : ℕ → ℕ → List ℕ → StcfScheduler → StcfScheduler
stcf_choose now p ps s = elim s.running [
  | none ↦ start now p ps s
  | some r ↦ if by_remaining s.store p r then start now p (ps ++ r ∷ []) (preempt r s) else s
]

-- The queue stays sorted, whether its head is started or not.
unfoldable pub stcf_dispatch : ℕ → StcfScheduler → StcfScheduler
stcf_dispatch now s = elim (sort_by (by_remaining s.store) s.ready_queue) [
  | [] ↦ s
  | p ∷ ps ↦ stcf_choose now p ps (record s { ready_queue = p ∷ ps })
]

unfoldable pub stcf_tick : ℕ → StcfScheduler → StcfScheduler × Option ℕ × Bool
stcf_tick now s =
    let t = execute now (stcf_dispatch now (admit now s)) in (t, t.running, all_done t)
