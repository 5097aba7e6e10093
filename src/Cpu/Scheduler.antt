-- ===== src/Cpu/Scheduler.antt =====
-- pkg/cpu/scheduler.go: the interface, with AddProcess of a new process at an address, Tick, and the
-- fields that Tick reads and returns. It carries the law that the proofs of the schedulers fill: a tick
-- keeps the time account. The MLFQ scheduler, whose tick may panic, has its own theorems in Cpu.Mlfq.
use os_simulator.Base.{List, count, subst, suc, sym, zero, ℕ, ◌+◌, ◌<◌, ◌≡◌}
use os_simulator.Cpu.Process.{Process}
use os_simulator.Cpu.Core.{Core, Store, add_new_process, add_processes, new_core}
use os_simulator.Cpu.Account.{IsAccounted, IsSettled}
use os_simulator.Cpu.Fifo.{tick}
use os_simulator.Cpu.RoundRobin.{RrScheduler, rr_tick}
use os_simulator.Cpu.Sjf.{sjf_tick, stcf_tick}
use os_simulator.Cpu.Lottery.{LotteryScheduler, lottery_tick}
use os_simulator.Cpu.Turnaround.{
  AreFresh, completed-IsSettled, loaded-IsAccounted, plus_one, rr_tick-IsAccounted,
  tick-IsAccounted,
}
use os_simulator.Cpu.Choosing.{
  lottery_tick-IsAccounted, sjf_tick-IsAccounted, stcf_tick-IsAccounted,
}

pub record Scheduler : Type 1 where
  pub State : Type 0
  pub core : State → Core
  pub add : ℕ → Process → State → State
  pub next : ℕ → State → State
  pub keeps :
      (now : ℕ) (s : State)
      → IsAccounted now (now + 1) (core s)
      → IsAccounted (now + 1) (now + 1 + 1) (core (next now s))

abbrev pub fifo : Scheduler
fifo = record {
  State = Core;
  core = λ s. s;
  add = add_new_process;
  next = λ now s. (tick now s).0;
  keeps = tick-IsAccounted;
}

abbrev pub sjf : Scheduler
sjf = record {
  State = Core;
  core = λ s. s;
  add = add_new_process;
  next = λ now s. (sjf_tick now s).0;
  keeps = sjf_tick-IsAccounted;
}

abbrev pub stcf : Scheduler
stcf = record {
  State = Core;
  core = λ s. s;
  add = add_new_process;
  next = λ now s. (stcf_tick now s).0;
  keeps = stcf_tick-IsAccounted;
}

abbrev pub round_robin : Scheduler
round_robin = record {
  State = RrScheduler;
  core = λ r. r.core;
  add = λ p x r. record r { core = add_new_process p x r.core };
  next = λ now r. (rr_tick now r).0;
  keeps = rr_tick-IsAccounted;
}

abbrev pub lottery : (ℕ → ℕ → ℕ) → Scheduler
lottery draw = record {
  State = LotteryScheduler;
  core = λ l. l.rr.core;
  add = λ p x l. record l { rr = record l.rr { core = add_new_process p x l.rr.core } };
  next = λ now l. (lottery_tick draw now l).0;
  keeps = lottery_tick-IsAccounted draw;
}

module _ (c : Scheduler) where
  open c use {State, core, next, keeps}

  -- The ticks 0 to n - 1.
  unfoldable pub run_scheduler : ℕ → State → State
  run_scheduler zero s = s
  run_scheduler (suc n) s = next n (run_scheduler n s)

  run_scheduler-IsAccounted :
      (n : ℕ) (s : State)
      → IsAccounted 0 (0 + 1) (core s)
      → IsAccounted n (n + 1) (core (run_scheduler n s))
  unfolding run_scheduler
  run_scheduler-IsAccounted zero s v = v
  run_scheduler-IsAccounted (suc n) s v =
      subst (λ k. IsAccounted k (k + 1) (core (next n (run_scheduler n s)))) (plus_one n)
        (keeps n (run_scheduler n s) (run_scheduler-IsAccounted n s v))

  -- Let a scheduler that fills the interface Scheduler (FIFO, SJF, STCF, Round Robin, or Lottery with any
  -- random source) be loaded with new processes that have not waited, have a positive burst time and
  -- that time remaining. After any number of ticks every process in the list of the completed stands there
  -- once. Its waiting and burst times add up to the turnaround time and one more, and its finish
  -- time is the arrival time and the turnaround time.
  pub run_scheduler-IsSettled :
      (s : State) (h : Store) (ps : List ℕ) (n p : ℕ)
      → core s ≡ add_processes ps (new_core h)
      → AreFresh h
      → 0 < count p (core (run_scheduler n s)).completed
      → (count p (core (run_scheduler n s)).completed ≡ 1)
        × IsSettled ((core (run_scheduler n s)).store p)
  run_scheduler-IsSettled s h ps n p e f done =
      completed-IsSettled n (n + 1) p (core (run_scheduler n s))
        (run_scheduler-IsAccounted n s
          (subst (IsAccounted 0 (0 + 1)) (sym e) (loaded-IsAccounted h ps f)))
        done
