-- ===== src/Kernel/Syscalls/Tests.antt =====
-- pkg/kernel/syscall.go: calls of the default handlers.
use os_simulator.Base.{arith, none, refl, ◌≡◌}
use os_simulator.Base.Int.{negsuc, pos}
use os_simulator.Kernel.Lifecycle.{SyscallRegisters}
use os_simulator.Kernel.Syscalls.{
  dispatch_entry, dispatch_syscall, new_syscall_dispatcher, register, to_signed,
  validate_user_pointer,
}
use os_simulator.Kernel.Syscalls.Results.{
  Answers, dispatch_syscall-Answers, new_syscall_dispatcher-AreTyped,
}

-- write(1, buf, 5) with a buffer in kernel space.
abbrev write_kernel : SyscallRegisters
write_kernel = record { rax = 6; rdi = 1; rsi = 0xC0000010; rdx = 5; r10 = 0; r8 = 0; r9 = 0 }

dispatch_syscall-Answers_example :
    Answers
      (pos 7)
      write_kernel
      new_syscall_dispatcher
      (new_syscall_dispatcher.table 6)
      (dispatch_syscall (pos 7) write_kernel new_syscall_dispatcher)
dispatch_syscall-Answers_example =
    dispatch_syscall-Answers (pos 7) write_kernel new_syscall_dispatcher
      new_syscall_dispatcher-AreTyped (omega arith)

-- The handler's error is EFAULT, but RAX is -EINVAL.
write_kernel_result :
    let r = dispatch_syscall (pos 7) write_kernel new_syscall_dispatcher in
    (r.0 ≡ negsuc 13) × (to_signed r.2.rax ≡ negsuc 21)
unfolding dispatch_entry new_syscall_dispatcher register
write_kernel_result = (refl, refl)

-- A range whose end wraps is accepted.
wrapped_range : validate_user_pointer 4096 18446744073709551615 new_syscall_dispatcher ≡ none
unfolding validate_user_pointer new_syscall_dispatcher register
wrapped_range = refl
