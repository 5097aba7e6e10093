-- ===== src/Cpu/Fifo.antt =====
-- pkg/cpu/sched_fifo.go.
pub mod Order
use os_simulator.Base.{Bool, Option, suc, zero, ℕ}
use os_simulator.Cpu.Core.{Core, admit, all_done, dispatch, execute}

-- The scheduler after the tick, the running process and whether all are done.
unfoldable pub tick : ℕ → Core → Core × Option ℕ × Bool
tick now s = let t = execute now (dispatch now (admit now s)) in (t, t.running, all_done t)

-- The ticks 0, 1, …, n - 1.
unfoldable pub run : ℕ → Core → Core
run zero s = s
run (suc n) s = (tick n (run n s)).0
