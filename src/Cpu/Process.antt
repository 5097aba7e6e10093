-- ===== src/Cpu/Process.antt =====
-- pkg/cpu/process.go. Arrival and burst times are not negative; the times that start at -1 and the
-- remaining time are integers. The list of threads, which no modelled code reads, is left out.
use os_simulator.Base.{String, ℕ}
use os_simulator.Base.Int.{negsuc, pos, ℤ}

pub data ProcessState : Type 0 where
  new ready running blocked terminated : ProcessState

pub record Registers : Type 0 where
  pub pc : ℕ
  pub sp : ℕ
  pub bp : ℕ
  pub ax : ℕ
  pub bx : ℕ
  pub cx : ℕ
  pub dx : ℕ
  pub flags : ℕ

pub record Process : Type 0 where
  pub pid : ℕ
  pub name : String
  pub state : ProcessState
  pub priority : ℕ
  pub arrival_time : ℕ
  pub burst_time : ℕ
  pub remaining_time : ℤ
  pub start_time : ℤ
  pub finish_time : ℤ
  pub waiting_time : ℕ
  pub turnaround : ℤ
  pub response_time : ℤ
  pub io_frequency : ℕ
  pub io_duration : ℕ
  pub io_counter : ℕ
  pub run_ticks : ℕ
  pub allotment_used : ℕ
  pub current_queue : ℕ
  pub tickets : ℕ
  pub registers : Registers
  pub memory_base : ℕ
  pub memory_limit : ℕ

unfoldable pub new_process : ℕ → String → ℕ → ℕ → Process
new_process pid name arrival burst = record {
  pid = pid;
  name = name;
  state = new;
  priority = 0;
  arrival_time = arrival;
  burst_time = burst;
  remaining_time = pos burst;
  start_time = negsuc 0;
  finish_time = negsuc 0;
  waiting_time = 0;
  turnaround = pos 0;
  response_time = pos 0;
  io_frequency = 0;
  io_duration = 0;
  io_counter = 0;
  run_ticks = 0;
  allotment_used = 0;
  current_queue = 0;
  tickets = 10;
  registers = record {
    pc = 0x00400000;
    sp = 0x7FFFFFFF;
    bp = 0;
    ax = 0;
    bx = 0;
    cx = 0;
    dx = 0;
    flags = 0;
  };
  memory_base = 0;
  memory_limit = 0;
}

unfoldable pub clone : Process → Process
clone p = record p {
  state = new;
  remaining_time = pos p.burst_time;
  start_time = negsuc 0;
  finish_time = negsuc 0;
  waiting_time = 0;
  turnaround = pos 0;
  response_time = pos 0;
  allotment_used = 0;
  current_queue = 0;
  run_ticks = 0;
  io_counter = 0;
}
