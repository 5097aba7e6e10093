-- ===== src/Kernel/System/Counting.antt =====
-- pkg/kernel/syscall.go: the counters of the system call table.
use os_simulator.Base.{
  ==_cases, Option, ap, arith, if◌then◌else◌, inl, inr, none, refl, some, suc, sym, ℕ, ◌+◌, ◌==◌,
  ◌∙◌, ◌≡◌,
}
use os_simulator.Base.Int.{ℤ}
use os_simulator.Kernel.Lifecycle.{SyscallRegisters}
use os_simulator.Kernel.Syscalls.{SyscallDispatcher, SyscallEntry, dispatch_entry, dispatch_syscall}

-- The entry after n calls.
abbrev pub counted : ℕ → Option SyscallEntry → Option SyscallEntry
counted n none = none
counted n (some e) = some (record e { total_calls = e.total_calls + n })

counted_suc : (n : ℕ) (o : Option SyscallEntry) → counted (suc n) o ≡ counted 1 (counted n o)
counted_suc n none = refl
counted_suc n (some e) = ap (λ k. some (record e { total_calls = k })) (omega arith)

pub counted_zero : (o : Option SyscallEntry) → o ≡ counted 0 o
counted_zero none = refl
counted_zero (some e) = ap (λ k. some (record e { total_calls = k })) (omega arith)

-- A call is counted at its own number and at no other.
dispatch_entry-counted :
    (o : Option SyscallEntry) (pid : ℤ) (regs : SyscallRegisters) (sd : SyscallDispatcher) (w : ℕ)
    → sd.table regs.rax ≡ o
    → (dispatch_entry o pid regs sd).3.table w ≡ (if w == regs.rax then counted 1 o else sd.table w)
unfolding dispatch_entry
dispatch_entry-counted none pid regs sd w at = elim (==_cases w regs.rax) [
  | inl (p, e) ↦ rw p (ap sd.table e ∙ at)
  | inr (p, e) ↦ rw p refl
]
dispatch_entry-counted (some e) pid regs sd w at = refl

-- Where every entry has been called as often as `calls` says, one call more.
pub dispatch_syscall-counted :
    (table : ℕ → Option SyscallEntry) (calls : ℕ → ℕ) (pid : ℤ) (regs : SyscallRegisters)
    (sd : SyscallDispatcher)
    → ((w : ℕ) → sd.table w ≡ counted (calls w) (table w))
    → (w : ℕ)
    → (dispatch_syscall pid regs sd).3.table w
      ≡ counted (if w == regs.rax then suc (calls w) else calls w) (table w)
dispatch_syscall-counted table calls pid regs sd h w =
    dispatch_entry-counted (sd.table regs.rax) pid regs sd w refl ∙ (elim (==_cases w regs.rax) [
      | inl (p, e) ↦ rw p (
          ap (λ v. counted 1 (sd.table v)) (sym e)
          ∙ ap (counted 1) (h w)
          ∙ sym (counted_suc (calls w) (table w)))
      | inr (p, e) ↦ rw p (h w)
    ])
