-- ===== src/Kernel/Traps/Tests.antt =====
-- pkg/kernel/trap_table.go: traps at the CPU of NewHardwareCPU.
use os_simulator.Base.{List, [], refl, ◌∷◌, ◌≡◌}
use os_simulator.Kernel.Modes.{new_hardware_cpu, return_to_user_mode, switch_to_kernel_mode}
use os_simulator.Kernel.Traps.{Args, dispatch_found, new_trap_table, register_handler}
use os_simulator.Kernel.Traps.Returning.{
  AreTallied, Trap, dispatch_all, dispatch_all-AreTallied, tally,
}

abbrev no_args : Args
no_args = record { arg1 = 0; arg2 = 0; arg3 = 0; arg4 = 0; arg5 = 0; arg6 = 0 }

-- A page fault, two timer ticks and an unknown vector.
abbrev traps : List Trap
traps =
    record { vector = 14; syscall_num = 0; args = no_args }
    ∷ record { vector = 32; syscall_num = 0; args = no_args }
    ∷ record { vector = 32; syscall_num = 0; args = no_args }
    ∷ record { vector = 77; syscall_num = 0; args = no_args }
    ∷ []

dispatch_all-AreTallied_example :
    let r = dispatch_all traps new_hardware_cpu new_trap_table in
    (r.0 ≡ new_hardware_cpu) × AreTallied r.1
unfolding new_hardware_cpu
dispatch_all-AreTallied_example = dispatch_all-AreTallied traps new_hardware_cpu refl

timer_count : tally 32 (dispatch_all traps new_hardware_cpu new_trap_table).1.history ≡ 2
unfolding dispatch_all dispatch_found new_trap_table register_handler new_hardware_cpu
    return_to_user_mode switch_to_kernel_mode
timer_count = refl
