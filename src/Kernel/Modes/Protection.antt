-- ===== src/Kernel/Modes/Protection.antt =====
-- pkg/kernel/cpu_mode.go: what a program can change in user mode.
use os_simulator.Base.{
  All, Bool, Bool-cases, List, Option, [], ap, arith, false, if◌then◌else◌, inl, inr, map, none,
  refl, some, suc, true, u64, u64_mod, ℕ, ◌&&◌, ◌*◌, ◌+◌, ◌<◌, ◌∙◌, ◌∷◌, ◌≡◌,
}
use os_simulator.Kernel.Modes.{
  CpuInstruction, CpuMode, HardwareCpu, InstructionType, ModeError, advance_pc, execute_instruction,
  is_user, perform, privilege_violation, privileged_cli, privileged_halt, privileged_port_io,
  privileged_set_cr3, privileged_sti, syscall, user_arithmetic, user_branch, user_mode,
}

-- The opcodes that are meant to be privileged.
abbrev pub needs_privilege : InstructionType → Bool
needs_privilege privileged_halt = true
needs_privilege privileged_cli = true
needs_privilege privileged_sti = true
needs_privilege privileged_set_cr3 = true
needs_privilege privileged_port_io = true
needs_privilege _ = false

abbrev pub is_syscall : InstructionType → Bool
is_syscall syscall = true
is_syscall _ = false

-- The flag of the instruction is the one of its opcode, and it makes no system call.
pub record IsPlain (inst : CpuInstruction) : Type 0 where
  pub flagged : inst.is_privileged ≡ needs_privilege inst.opcode
  pub calls_none : is_syscall inst.opcode ≡ false

-- A program that goes on after a fault, with the result of each instruction.
unfoldable pub execute_all :
    List CpuInstruction → HardwareCpu → List (Option ModeError) × HardwareCpu
execute_all [] cpu = ([], cpu)
execute_all (inst ∷ rest) cpu =
    let r = execute_instruction inst cpu in
    let after = execute_all rest r.1 in (r.0 ∷ after.0, after.1)

-- What an instruction has to answer in user mode.
abbrev pub verdict : CpuInstruction → Option ModeError
verdict inst = if needs_privilege inst.opcode then some privilege_violation else none

-- How many instructions need no privilege.
unfoldable pub count_allowed : List CpuInstruction → ℕ
count_allowed [] = 0
count_allowed (inst ∷ rest) =
    let n = count_allowed rest in if needs_privilege inst.opcode then n else suc n

harmless-perform :
    (i : InstructionType) (cpu : HardwareCpu)
    → needs_privilege i ≡ false
    → is_syscall i ≡ false
    → perform i cpu ≡ cpu
unfolding perform
harmless-perform user_arithmetic cpu n s = refl
harmless-perform user_branch cpu n s = refl
harmless-perform syscall cpu n s = cc
harmless-perform privileged_halt cpu n s = cc
harmless-perform privileged_cli cpu n s = cc
harmless-perform privileged_sti cpu n s = cc
harmless-perform privileged_set_cr3 cpu n s = cc
harmless-perform privileged_port_io cpu n s = cc

user_guard : (a b : Bool) (m : CpuMode) → a ≡ b → m ≡ user_mode → (a && is_user m) ≡ b
user_guard a b m e f = ground arith

plain_step :
    (inst : CpuInstruction) (cpu : HardwareCpu)
    → IsPlain inst
    → cpu.current_mode ≡ user_mode
    → execute_instruction inst cpu
      ≡ (verdict inst, if needs_privilege inst.opcode then cpu else advance_pc cpu)
unfolding execute_instruction
plain_step inst cpu v e =
    let g = user_guard inst.is_privileged _ cpu.current_mode v.flagged e in
    elim (Bool-cases (needs_privilege inst.opcode)) [
      | inl p ↦ rw (g, p) refl
      | inr p ↦
          rw (g, p)
            (ap (λ c. (none, advance_pc c)) (harmless-perform inst.opcode cpu p v.calls_none))
    ]

-- Four bytes for each of n instructions.
abbrev pub advanced : ℕ → HardwareCpu → HardwareCpu
advanced n cpu = record cpu { program_counter = u64 (cpu.program_counter + 4 * n) }

advance_sum : (pc n : ℕ) → u64 (u64 (pc + 4) + 4 * n) ≡ u64 (pc + 4 * suc n)
advance_sum pc n = omega arith

-- One instruction before others, with its answer and the state that it leaves.
execute_all_cons :
    (inst : CpuInstruction) (rest : List CpuInstruction) (cpu next last : HardwareCpu)
    → execute_instruction inst cpu ≡ (verdict inst, next)
    → execute_all rest next ≡ (map verdict rest, last)
    → execute_all (inst ∷ rest) cpu ≡ (map verdict (inst ∷ rest), last)
unfolding execute_all
execute_all_cons inst rest cpu next last p q =
    ap
      (λ (r : Option ModeError × HardwareCpu).
        (r.0 ∷ (execute_all rest r.1).0, (execute_all rest r.1).1))
      p
    ∙ ap (λ (r : List (Option ModeError) × HardwareCpu). (verdict inst ∷ r.0, r.1)) q

-- Let a program run in user mode, in which the flag of each instruction is the one its opcode needs and
-- which makes no system call. Exactly the privileged instructions return the privilege violation, each
-- in its place, and they change nothing, so that after the program the CPU is in user mode with its
-- stack pointers, page table base and interrupt flag as before, and the program counter has moved on
-- by four bytes, modulo 2 ^ 64, for each instruction that needs no privilege.
pub execute_all-advanced :
    (program : List CpuInstruction) (cpu : HardwareCpu)
    → All IsPlain program
    → cpu.current_mode ≡ user_mode
    → cpu.program_counter < u64_mod
    → execute_all program cpu ≡ (map verdict program, advanced (count_allowed program) cpu)
unfolding execute_all count_allowed
execute_all-advanced [] cpu v e h =
    ap (λ pc. ([], record cpu { program_counter = pc })) (omega arith)
execute_all-advanced (inst ∷ rest) cpu v e h = elim (Bool-cases (needs_privilege inst.opcode)) [
  | inl p ↦
      execute_all_cons inst rest cpu cpu _ (plain_step inst cpu v.0 e ∙ rw p refl)
        (execute_all-advanced rest cpu v.1 e h ∙ rw p refl)
  | inr p ↦
      execute_all_cons inst rest cpu (advance_pc cpu) _ (plain_step inst cpu v.0 e ∙ rw p refl) (
        execute_all-advanced rest (advance_pc cpu) v.1 e (omega arith)
        ∙ rw p (
            ap (λ pc. (map verdict rest, record cpu { program_counter = pc }))
              (advance_sum cpu.program_counter (count_allowed rest))))
]
