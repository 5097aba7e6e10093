-- ===== src/Concurrency.antt =====
-- pkg/concurrency: deadlock avoidance and the semaphore.
pub mod Banker
pub mod Semaphore
