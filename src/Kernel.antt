-- ===== src/Kernel.antt =====
-- pkg/kernel: the parts of the kernel.
pub mod Lifecycle
pub mod Modes
pub mod Traps
pub mod Syscalls
pub mod System
