-- ===== src/Cpu/RoundRobin.antt =====
-- pkg/cpu/sched_rr.go.
pub mod Slices
use os_simulator.Base.{
  Bool, List, Option, [], false, if◌then◌else◌, leb, none, some, suc, true, zero, ℕ, ◌++◌, ◌+◌,
  ◌==◌, ◌∷◌,
}
use os_simulator.Cpu.Process.{ready, running}
use os_simulator.Cpu.Core.{
  Core, Store, add_processes, admit, all_done, dispatch, execute, new_core, update,
}

pub record RrScheduler : Type 0 where
  pub quantum : ℕ
  pub current_slice : ℕ
  pub core : Core

-- A quantum that is not positive becomes 2.
unfoldable pub new_rr : ℕ → Store → RrScheduler
new_rr quantum h = record {
  quantum = if quantum == 0 then 2 else quantum;
  current_slice = 0;
  core = new_core h;
}

-- Put the running process behind the ready queue.
unfoldable pub preempt : ℕ → Core → Core
preempt p s = record s {
  store = update s.store p (λ x. record x { state = ready });
  ready_queue = s.ready_queue ++ p ∷ [];
  running = none;
}

unfoldable pub check_quantum : RrScheduler → RrScheduler
check_quantum r = elim r.core.running [
  | none ↦ r
  | some p ↦
      if leb r.quantum r.current_slice
      then record r { core = preempt p r.core; current_slice = 0 }
      else r
]

abbrev is_idle_with_work : Core → Bool
is_idle_with_work s = elim s.running [
  | some p ↦ false
  | none ↦ elim s.ready_queue [ [] ↦ false | p ∷ ps ↦ true ]
]

unfoldable pub rr_dispatch : ℕ → RrScheduler → RrScheduler
rr_dispatch now r = record r {
  core = dispatch now r.core;
  current_slice = if is_idle_with_work r.core then 0 else r.current_slice;
}

-- The slice grows with each tick and is cleared when the process finishes.
unfoldable pub rr_execute : ℕ → RrScheduler → RrScheduler
rr_execute now r =
    let s = execute now r.core in
    record r {
      core = s;
      current_slice = elim r.core.running [
        | none ↦ r.current_slice
        | some p ↦ elim s.running [ none ↦ 0 | some q ↦ r.current_slice + 1 ]
      ];
    }

unfoldable pub rr_tick : ℕ → RrScheduler → RrScheduler × Option ℕ × Bool
rr_tick now r =
    let t =
      rr_execute now (rr_dispatch now (check_quantum (record r { core = admit now r.core }))) in
    (t, t.core.running, all_done t.core)

unfoldable pub rr_run : ℕ → RrScheduler → RrScheduler
rr_run zero r = r
rr_run (suc n) r = (rr_tick n (rr_run n r)).0

abbrev pub rr_loaded : ℕ → Store → List ℕ → RrScheduler
rr_loaded quantum h ps = let r = new_rr quantum h in record r { core = add_processes ps r.core }
