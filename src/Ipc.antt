-- ===== src/Ipc.antt =====
-- pkg/ipc: communication between processes.
pub mod MessageQueue
pub mod Pipe
