-- ===== src/Cpu.antt =====
-- pkg/cpu: processes and the CPU schedulers.
pub mod Process
pub mod Core
pub mod Fifo
pub mod RoundRobin
pub mod Mlfq
pub mod Sjf
pub mod Lottery
pub mod Account
pub mod Admission
pub mod Dispatching
pub mod Execution
pub mod Choosing
pub mod Turnaround
pub mod Scheduler
mod Tests
