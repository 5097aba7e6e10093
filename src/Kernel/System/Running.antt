-- ===== src/Kernel/System/Running.antt =====
-- pkg/kernel/os_kernel.go: what holds of the kernel after any steps and system calls.
use os_simulator.Base.{
  List, Option, [], ap, ap₂, arith, if◌then◌else◌, refl, some, subst, suc, sym, u64, zero, ℕ, ◌*◌,
  ◌+◌, ◌==◌, ◌∙◌, ◌∷◌, ◌≡◌,
}
use os_simulator.Base.Int.{ℤ}
use os_simulator.Cpu.Process.{new_process}
use os_simulator.Cpu.Scheduler.{Scheduler}
use os_simulator.Kernel.Lifecycle.{new_process_manager}
use os_simulator.Kernel.Modes.{HardwareCpu, new_hardware_cpu}
use os_simulator.Kernel.Traps.{Args}
use os_simulator.Kernel.Traps.Returning.{trap_returns}
use os_simulator.Kernel.System.Counting.{counted, counted_zero, dispatch_syscall-counted}
use os_simulator.Kernel.System.Switching.{
  IsInit, advanced_pc, at_pc, lookup_process_init, runs_after, runs_after-IsInit, runs_again,
  switch_process-runs, user_at,
}
use os_simulator.Kernel.System.{
  OsKernel, call_registers, new_os_kernel, scheduled_pid, step, trigger_syscall,
}
use os_simulator.Kernel.Syscalls.{new_syscall_dispatcher}

pub data Event : Type 0 where
  stepped : Event
  called : ℤ → ℕ → Args → Event

abbrev pub count_steps : List Event → ℕ
count_steps [] = 0
count_steps (stepped ∷ es) = suc (count_steps es)
count_steps (called pid num args ∷ es) = count_steps es

-- How often the system call with the number w is made.
abbrev pub count_calls : List Event → ℕ → ℕ
count_calls [] w = 0
count_calls (stepped ∷ es) w = count_calls es w
count_calls (called pid num args ∷ es) w =
    let n = count_calls es w in if w == u64 num then suc n else n

module _ (c : Scheduler) where
  open c use {State, next, add}

  -- The ticks 1 to n.
  unfoldable pub ticked : ℕ → State → State
  ticked zero s = s
  ticked (suc n) s = next (n + 1) (ticked n s)

  -- The process that runs after n ticks.
  unfoldable pub last_running : ℕ → State → Option ℕ
  last_running zero s = some 1
  last_running (suc n) s = runs_after (scheduled_pid c (ticked (suc n) s)) (last_running n s)

  -- How many of the ticks 1 to n went to the process that already ran.
  unfoldable pub executed : ℕ → State → ℕ
  executed zero s = 0
  executed (suc n) s =
      let rest = executed n s in
      if runs_again (scheduled_pid c (ticked (suc n) s)) (last_running n s) then suc rest else rest

  last_running-IsInit : (n : ℕ) (s : State) → IsInit (last_running n s)
  unfolding last_running
  last_running-IsInit zero s = refl
  last_running-IsInit (suc n) s =
      runs_after-IsInit (scheduled_pid c (ticked (suc n) s)) (last_running n s)
        (last_running-IsInit n s)

  pub record IsAtUser (n : ℕ) (calls : ℕ → ℕ) (s : State) (k : OsKernel State) : Type 0 where
    pub cpu : k.cpu ≡ at_pc (u64 (0x00400000 + 4 * executed n s))
    pub processes : k.proc_manager ≡ new_process_manager
    pub running : k.running_process ≡ last_running n s
    pub counts : (w : ℕ) → k.syscalls.table w ≡ counted (calls w) (new_syscall_dispatcher.table w)
    pub tick : k.current_tick ≡ n
    pub scheduled : k.scheduler ≡ ticked n s

  unfoldable pub handle_event : Event → OsKernel State → OsKernel State
  handle_event stepped k = step c k
  handle_event (called pid num args) k = (trigger_syscall pid num args k).2

  -- The first event of the list happens last.
  unfoldable pub run_events : List Event → OsKernel State → OsKernel State
  unfolding handle_event
  run_events [] k = k
  run_events (e ∷ es) k = handle_event e (run_events es k)

  step-IsAtUser :
      (n : ℕ) (calls : ℕ → ℕ) (s : State) (k : OsKernel State)
      → IsAtUser n calls s k
      → IsAtUser (suc n) calls s (step c k)
  unfolding step ticked last_running executed
  step-IsAtUser n calls s k v =
      let t : next (k.current_tick + 1) k.scheduler ≡ next (n + 1) (ticked n s) =
        ap₂ (λ i r. next (i + 1) r) v.tick v.scheduled in
      let o = scheduled_pid c (next (k.current_tick + 1) k.scheduler) in
      let e =
        switch_process-runs o
          (record k {
            current_tick = k.current_tick + 1;
            scheduler = next (k.current_tick + 1) k.scheduler;
          })
          (subst IsInit (sym v.running) (last_running-IsInit n s)) v.processes in
      subst (IsAtUser (suc n) calls s) (sym e) (record {
        cpu =
            rw (v.running, v.cpu, t)
              (advanced_pc
                (runs_again (scheduled_pid c (next (n + 1) (ticked n s))) (last_running n s))
                (executed n s));
        processes = v.processes;
        running = rw (v.running, t) refl;
        counts = v.counts;
        tick = omega (arith, v.tick);
        scheduled = t;
      })

  called-IsAtUser :
      (pid : ℤ) (num : ℕ) (args : Args) (n : ℕ) (calls : ℕ → ℕ) (s : State) (k : OsKernel State)
      → IsAtUser n calls s k
      → IsAtUser n
          (λ w. if w == u64 num then suc (calls w) else calls w)
          s
          (trigger_syscall pid num args k).2
  unfolding trigger_syscall
  called-IsAtUser pid num args n calls s k v = record {
    cpu =
        trap_returns k.cpu (
          ap (λ (x : HardwareCpu). x.current_mode) v.cpu
          ∙ user_at (u64 (0x00400000 + 4 * executed n s)))
        ∙ v.cpu;
    processes = v.processes;
    running = v.running;
    counts =
        dispatch_syscall-counted new_syscall_dispatcher.table calls pid (call_registers num args)
          k.syscalls v.counts;
    tick = v.tick;
    scheduled = v.scheduled;
  }

  run_events-IsAtUser :
      (es : List Event) (s : State) (k : OsKernel State)
      → IsAtUser 0 (λ w. 0) s k
      → IsAtUser (count_steps es) (count_calls es) s (run_events es k)
  unfolding run_events handle_event
  run_events-IsAtUser [] s k v = v
  run_events-IsAtUser (stepped ∷ es) s k v =
      step-IsAtUser (count_steps es) (count_calls es) s (run_events es k)
        (run_events-IsAtUser es s k v)
  run_events-IsAtUser (called pid num args ∷ es) s k v =
      called-IsAtUser pid num args (count_steps es) (count_calls es) s (run_events es k)
        (run_events-IsAtUser es s k v)

  -- The scheduler with init added at the address p.
  abbrev pub with_init : ℕ → State → State
  with_init p s = add p (new_process 1 "init" 0 100) s

  new_os_kernel-IsAtUser :
      (p : ℕ) (s : State) → IsAtUser 0 (λ w. 0) (with_init p s) (new_os_kernel c p s)
  unfolding new_os_kernel ticked last_running executed new_hardware_cpu
  new_os_kernel-IsAtUser p s = record {
    cpu = refl;
    processes = refl;
    running = lookup_process_init 1;
    counts = λ w. counted_zero (new_syscall_dispatcher.table w);
    tick = refl;
    scheduled = refl;
  }

  -- Let a kernel be made with a scheduler that fills the interface Scheduler, as FIFO, SJF, STCF, Round
  -- Robin and Lottery do, and let any steps and system calls follow, in any order and with any PIDs,
  -- numbers and arguments. The scheduler then is the given one with init added and with the ticks from 1
  -- on, one for each step and none for a system call. The process table is unchanged. The running process
  -- is init if the last tick that returned a process returned init or no tick has returned any, and it
  -- is none if that tick returned another process. The CPU is the one of the start, in user mode, with a
  -- program counter that has moved on by four bytes, modulo 2 ^ 64, for each tick that returned the
  -- process that was running. Every entry of the system call table is the one of the start, with as many
  -- calls as were made with its number.
  pub new_os_kernel-run_events :
      (es : List Event) (p : ℕ) (s : State)
      → IsAtUser
          (count_steps es)
          (count_calls es)
          (with_init p s)
          (run_events es (new_os_kernel c p s))
  new_os_kernel-run_events es p s =
      run_events-IsAtUser es (with_init p s) (new_os_kernel c p s) (new_os_kernel-IsAtUser p s)
