-- ===== src/Kernel/System/Switching.antt =====
-- pkg/kernel/os_kernel.go: the running process and the program counter after a tick, where the table
-- holds init only.
use os_simulator.Base.{
  ==_cases, Bool, Bool-cases, Option, ap, arith, false, if◌then◌else◌, inl, inr, none, refl, some,
  suc, sym, true, u64, ℕ, ◌*◌, ◌+◌, ◌==◌, ◌∙◌, ◌≡◌,
}
use os_simulator.Kernel.Lifecycle.{ProcessManager, init_process, new_process_manager}
use os_simulator.Kernel.Modes.{HardwareCpu, advance_pc, new_hardware_cpu, user_mode}
use os_simulator.Kernel.System.{OsKernel, is_pid, lookup_process, switch_process}

-- The CPU of the start, with another program counter.
abbrev pub at_pc : ℕ → HardwareCpu
at_pc pc = record new_hardware_cpu { program_counter = pc }

-- No process but init is ever found in the table.
abbrev pub IsInit : Option ℕ → Type 0
IsInit none = Unit
IsInit (some q) = q ≡ 1

-- The process that runs after a tick which returned the first, where the second ran before it: init
-- if init was returned, and none if any other process was, as no other is in the table.
abbrev pub runs_after : Option ℕ → Option ℕ → Option ℕ
runs_after none r = r
runs_after (some q) r = if q == 1 then some 1 else none

-- Whether a tick returned the process that already ran.
abbrev pub runs_again : Option ℕ → Option ℕ → Bool
runs_again none r = false
runs_again (some q) r = is_pid q r

pub lookup_process_init :
    (q : ℕ) → lookup_process q new_process_manager.processes ≡ (if q == 1 then some 1 else none)
unfolding new_process_manager
lookup_process_init q = elim (==_cases q 1) [
  | inl (p, e) ↦ ap found p ∙ ap some e ∙ sym (rw p refl)
  | inr (p, e) ↦ ap found p ∙ sym (rw p refl)
]
  where
    found : Bool → Option ℕ
    found b = elim (if b then some init_process else none) as (λ x. Option ℕ) [
      | none ↦ none
      | some p ↦ some q
    ]

-- A process that is found to run already is init.
is_pid-IsInit : (q : ℕ) (r : Option ℕ) → IsInit r → is_pid q r ≡ true → r ≡ runs_after (some q) r
is_pid-IsInit q none v e = absurd (ground arith)
is_pid-IsInit q (some m) v e = ground arith

pub runs_after-IsInit : (o r : Option ℕ) → IsInit r → IsInit (runs_after o r)
runs_after-IsInit none r v = v
runs_after-IsInit (some q) r v = elim (Bool-cases (q == 1)) [ inl e ↦ rw e refl | inr e ↦ rw e tt ]

pc_sum : (n : ℕ) → u64 (u64 (0x00400000 + 4 * n) + 4) ≡ u64 (0x00400000 + 4 * suc n)
pc_sum n = omega arith

pub user_at : (pc : ℕ) → (at_pc pc).current_mode ≡ user_mode
unfolding new_hardware_cpu
user_at pc = refl

-- What switch_process does to the running process and the program counter.
pub switch_process-runs :
    {S : Type 0} (o : Option ℕ) (k : OsKernel S)
    → IsInit k.running_process
    → k.proc_manager ≡ new_process_manager
    → switch_process o k ≡ record k {
      cpu = if runs_again o k.running_process then advance_pc k.cpu else k.cpu;
      running_process = runs_after o k.running_process;
    }
unfolding switch_process
switch_process-runs none k v e = refl
switch_process-runs (some q) k v e = elim (Bool-cases (is_pid q k.running_process)) [
  | inl p ↦ rw p (
      ap (λ r. record k { cpu = advance_pc k.cpu; running_process = r })
        (is_pid-IsInit q k.running_process v p))
  | inr p ↦ rw p (
      ap (λ r. record k { running_process = r })
        (ap (λ (m : ProcessManager). lookup_process q m.processes) e ∙ lookup_process_init q))
]

pub advanced_pc :
    (b : Bool) (n : ℕ)
    → (if b
        then advance_pc (at_pc (u64 (0x00400000 + 4 * n)))
        else at_pc (u64 (0x00400000 + 4 * n)))
      ≡ at_pc (u64 (0x00400000 + 4 * (if b then suc n else n)))
advanced_pc true n = ap at_pc (pc_sum n)
advanced_pc false n = refl
