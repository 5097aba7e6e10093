-- ===== src/Kernel/Modes.antt =====
-- pkg/kernel/cpu_mode.go: the CPU with its two modes. The log of texts is left out.
pub mod Protection
mod Tests
use os_simulator.Base.{
  Bool, Option, String, false, if◌then◌else◌, none, some, true, u64, ℕ, ◌&&◌, ◌+◌,
}

pub data CpuMode : Type 0 where
  kernel_mode user_mode : CpuMode

pub data InstructionType : Type 0 where
  user_arithmetic user_branch syscall privileged_halt privileged_cli privileged_sti :
      InstructionType
  privileged_set_cr3 privileged_port_io : InstructionType

pub record CpuInstruction : Type 0 where
  pub opcode : InstructionType
  pub description : String
  pub is_privileged : Bool

pub record HardwareCpu : Type 0 where
  pub current_mode : CpuMode
  pub user_rsp : ℕ
  pub kernel_rsp : ℕ
  pub program_counter : ℕ
  pub cr3 : ℕ
  pub interrupts_on : Bool

-- ErrPrivilegeViolation.
pub data ModeError : Type 0 where
  privilege_violation : ModeError

unfoldable pub new_hardware_cpu : HardwareCpu
new_hardware_cpu = record {
  current_mode = user_mode;
  user_rsp = 0x7FFFFFFF;
  kernel_rsp = 0xFFFFFFFF;
  program_counter = 0x00400000;
  cr3 = 0x00100000;
  interrupts_on = true;
}

abbrev pub is_user : CpuMode → Bool
is_user user_mode = true
is_user kernel_mode = false

-- A CPU in the mode already stays as it is.
unfoldable pub switch_to_kernel_mode : HardwareCpu → HardwareCpu
switch_to_kernel_mode cpu =
    if is_user cpu.current_mode then record cpu { current_mode = kernel_mode } else cpu

unfoldable pub return_to_user_mode : HardwareCpu → HardwareCpu
return_to_user_mode cpu =
    if is_user cpu.current_mode then cpu else record cpu { current_mode = user_mode }

-- The switch over the opcode.
unfoldable pub perform : InstructionType → HardwareCpu → HardwareCpu
perform privileged_cli cpu = record cpu { interrupts_on = false }
perform privileged_sti cpu = record cpu { interrupts_on = true }
perform privileged_set_cr3 cpu = record cpu { cr3 = 0x00200000 }
perform syscall cpu = switch_to_kernel_mode cpu
perform _ cpu = cpu

abbrev pub advance_pc : HardwareCpu → HardwareCpu
advance_pc cpu = record cpu { program_counter = u64 (cpu.program_counter + 4) }

unfoldable pub execute_instruction : CpuInstruction → HardwareCpu → Option ModeError × HardwareCpu
execute_instruction inst cpu =
    if inst.is_privileged && is_user cpu.current_mode
    then (some privilege_violation, cpu)
    else (none, advance_pc (perform inst.opcode cpu))
