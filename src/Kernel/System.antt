-- ===== src/Kernel/System.antt =====
-- pkg/kernel/os_kernel.go: NewOSKernel, Step and TriggerSyscall over a scheduler that fills the
-- interface. Its mutex makes each call one
-- step. The memory manager, the traps, the pipes, the shared memory and the context switcher, which
-- neither reads, and the texts are left out. A `*UnixProcess` is its place in the table, which is its
-- PID.
pub mod Counting
pub mod Switching
pub mod Running
mod Tests
use os_simulator.Base.{Bool, Option, false, if◌then◌else◌, none, some, u64, ℕ, ◌+◌, ◌==◌}
use os_simulator.Base.Int.{ℤ}
use os_simulator.Cpu.Process.{new_process, running}
use os_simulator.Cpu.Core.{Store}
use os_simulator.Cpu.RoundRobin.{RrScheduler, new_rr}
use os_simulator.Cpu.Scheduler.{Scheduler, round_robin}
use os_simulator.Kernel.Lifecycle.{ProcessManager, Processes, SyscallRegisters, new_process_manager}
use os_simulator.Kernel.Modes.{
  HardwareCpu, advance_pc, new_hardware_cpu, return_to_user_mode, switch_to_kernel_mode,
}
use os_simulator.Kernel.Traps.{Args}
use os_simulator.Kernel.Syscalls.{
  SyscallDispatcher, SyscallError, dispatch_syscall, new_syscall_dispatcher,
}

pub record OsKernel (S : Type 0) : Type 0 where
  pub cpu : HardwareCpu
  pub scheduler : S
  pub proc_manager : ProcessManager
  pub syscalls : SyscallDispatcher
  pub running_process : Option ℕ
  pub current_tick : ℕ

-- `Processes[pid]`.
abbrev pub lookup_process : ℕ → Processes → Option ℕ
lookup_process q m = elim (m q) [ none ↦ none | some p ↦ some q ]

abbrev pub is_pid : ℕ → Option ℕ → Bool
is_pid q none = false
is_pid q (some r) = r == q

-- What Step does with the process that the scheduler runs.
unfoldable pub switch_process : {S : Type 0} → Option ℕ → OsKernel S → OsKernel S
switch_process none k = k
switch_process (some q) k =
    if is_pid q k.running_process
    then record k { cpu = advance_pc k.cpu }
    else record k { running_process = lookup_process q k.proc_manager.processes }

-- The registers of the system call are those of TriggerSyscall.
abbrev pub call_registers : ℕ → Args → SyscallRegisters
call_registers num args = record {
  rax = u64 num;
  rdi = args.arg1;
  rsi = args.arg2;
  rdx = args.arg3;
  r10 = args.arg4;
  r8 = args.arg5;
  r9 = args.arg6;
}

unfoldable pub trigger_syscall :
    {S : Type 0} → ℤ → ℕ → Args → OsKernel S → ℤ × Option SyscallError × OsKernel S
trigger_syscall pid num args k =
    let entered = switch_to_kernel_mode k.cpu in
    let r = dispatch_syscall pid (call_registers num args) k.syscalls in
    (r.0, r.1, record k { cpu = return_to_user_mode entered; syscalls = r.3 })

module _ (c : Scheduler) where
  open c use {State, core, next, add}

  -- The process for init stands at the address p.
  unfoldable pub new_os_kernel : ℕ → State → OsKernel State
  new_os_kernel p s = record {
    cpu = new_hardware_cpu;
    scheduler = add p (new_process 1 "init" 0 100) s;
    proc_manager = new_process_manager;
    syscalls = new_syscall_dispatcher;
    running_process = lookup_process 1 new_process_manager.processes;
    current_tick = 0;
  }

  -- The PID of the process that the tick returns.
  abbrev pub scheduled_pid : State → Option ℕ
  scheduled_pid s = elim (core s).running [ none ↦ none | some p ↦ some ((core s).store p).pid ]

  unfoldable pub step : OsKernel State → OsKernel State
  step k =
      let now = k.current_tick + 1 in
      let s = next now k.scheduler in
      switch_process (scheduled_pid s) (record k { current_tick = now; scheduler = s })

-- Without a scheduler: Round Robin with a quantum of 2.
abbrev pub new_default_kernel : ℕ → Store → OsKernel RrScheduler
new_default_kernel p h = new_os_kernel round_robin p (new_rr 2 h)
