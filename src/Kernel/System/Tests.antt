-- ===== src/Kernel/System/Tests.antt =====
-- pkg/kernel/os_kernel.go: steps and calls of a kernel with the Round Robin scheduler.
use os_simulator.Base.{List, [], refl, ◌∷◌, ◌≡◌}
use os_simulator.Base.Int.{pos, ◌-ℤ◌}
use os_simulator.Cpu.Process.{new_process}
use os_simulator.Cpu.Core.{
  Store, add_process, admit, arrive, dispatch, execute, new_core, run_process, start, wait_all,
}
use os_simulator.Cpu.RoundRobin.{
  RrScheduler, check_quantum, new_rr, preempt, rr_dispatch, rr_execute, rr_tick,
}
use os_simulator.Cpu.Scheduler.{round_robin}
use os_simulator.Kernel.Traps.{Args}
use os_simulator.Kernel.System.{new_default_kernel, new_os_kernel, step, switch_process}
use os_simulator.Kernel.Lifecycle.{new_process_manager}
use os_simulator.Kernel.System.Running.{
  Event, IsAtUser, called, count_calls, handle_event, new_os_kernel-run_events, run_events, stepped,
  with_init,
}
use os_simulator.Kernel.Modes.{new_hardware_cpu}

abbrev no_args : Args
no_args = record { arg1 = 0; arg2 = 0; arg3 = 0; arg4 = 0; arg5 = 0; arg6 = 0 }

-- The processes before any is made.
abbrev blank : Store
blank p = new_process 0 "" 0 0

abbrev events : List Event
events = stepped ∷ called (pos 1) 13 no_args ∷ stepped ∷ called (pos 1) 99 no_args ∷ []

-- A process with the PID of init that arrives at 1 and runs from tick 1 on: the program counter moves
-- on with every step.
abbrev late_init : RrScheduler
late_init = round_robin.add 7 (new_process 1 "init" 1 5) (new_rr 2 blank)

new_os_kernel-run_events_example :
    IsAtUser round_robin 2
      (count_calls events)
      (with_init round_robin 5 late_init)
      (run_events round_robin events (new_os_kernel round_robin 5 late_init))
new_os_kernel-run_events_example = new_os_kernel-run_events round_robin events 5 late_init

-- The first tick is tick 1, and init arrives at 0, so it never becomes ready.
init_waits :
    (run_events round_robin
      (stepped ∷ stepped ∷ [])
      (new_default_kernel 5 blank)).scheduler.core.ready_queue
    ≡ []
unfolding run_events handle_event step switch_process new_os_kernel rr_tick rr_execute execute
    rr_dispatch dispatch check_quantum admit add_process new_rr new_core arrive new_process wait_all
init_waits = refl

late_init_runs :
    (run_events round_robin
      (stepped ∷ stepped ∷ [])
      (new_os_kernel round_robin 5 late_init)).cpu.program_counter
    ≡ 0x00400008
unfolding run_events handle_event step switch_process new_os_kernel rr_tick rr_execute execute
    rr_dispatch dispatch check_quantum admit add_process new_rr new_core arrive new_process wait_all
    start run_process preempt new_process_manager new_hardware_cpu ◌-ℤ◌
late_init_runs = refl
