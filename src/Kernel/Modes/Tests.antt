-- ===== src/Kernel/Modes/Tests.antt =====
-- pkg/kernel/cpu_mode.go: a program at the CPU of NewHardwareCPU.
use os_simulator.Base.{List, [], arith, false, map, refl, true, ◌∷◌, ◌≡◌}
use os_simulator.Kernel.Modes.{
  CpuInstruction, execute_instruction, new_hardware_cpu, perform, privileged_cli, user_arithmetic,
  user_branch,
}
use os_simulator.Kernel.Modes.Protection.{
  advanced, count_allowed, execute_all, execute_all-advanced, verdict,
}

abbrev program : List CpuInstruction
program =
    record { opcode = user_arithmetic; description = "ADD"; is_privileged = false }
    ∷ record { opcode = privileged_cli; description = "CLI"; is_privileged = true }
    ∷ record { opcode = user_branch; description = "JMP"; is_privileged = false }
    ∷ []

execute_all-advanced_example :
    execute_all program new_hardware_cpu
    ≡ (map verdict program, advanced (count_allowed program) new_hardware_cpu)
unfolding new_hardware_cpu
execute_all-advanced_example =
    execute_all-advanced program new_hardware_cpu
      (
        record { flagged = refl; calls_none = refl },
        (
          record { flagged = refl; calls_none = refl },
          (record { flagged = refl; calls_none = refl }, tt),
        ),
      )
      refl (omega arith)

program_counts : count_allowed program ≡ 2
unfolding count_allowed
program_counts = refl

-- An instruction without the flag is executed whatever its opcode.
unflagged_runs :
    (execute_instruction
      (record { opcode = privileged_cli; description = "CLI"; is_privileged = false })
      new_hardware_cpu).1.interrupts_on
    ≡ false
unfolding execute_instruction perform new_hardware_cpu
unflagged_runs = refl
