-- ===== src/Kernel/Syscalls/Results.antt =====
-- pkg/kernel/syscall.go: what a system call answers and what the user finds in RAX.
use os_simulator.Base.{
  ==_cases, ==_refl, Bool-cases, Option, ap, arith, false, if◌then◌else◌, inl, inr, int_min, leb,
  ltb, lt→ltb, none, refl, some, subst, u64, u64_mod, ℕ, ◌+◌, ◌-◌, ◌<◌, ◌==◌, ◌∙◌, ◌≡◌, ◌⊎◌,
}
use os_simulator.Base.Int.{negsuc, pos, ℤ}
use os_simulator.Kernel.Syscalls.{
  SyscallDispatcher, SyscallEntry, SyscallError, SyscallResult, answers, bad_user_pointer,
  dispatch_entry, dispatch_syscall, insert_entry, invalid_syscall, new_syscall_dispatcher, register,
  result_word, to_signed, to_word,
}
use os_simulator.Kernel.Lifecycle.{SyscallRegisters}

-- The integers of type `int64`.
abbrev pub IsInt64 : ℤ → Type 0
IsInt64 (pos n) = n < int_min
IsInt64 (negsuc n) = n < int_min

u64_small : (n : ℕ) → n < u64_mod → u64 n ≡ n
u64_small n h = omega arith

signed_small : (n : ℕ) → n < int_min → to_signed n ≡ pos n
signed_small n h = rw (lt→ltb n int_min h) refl

signed_large : (n : ℕ) → n < int_min → to_signed (u64_mod - 1 - n) ≡ negsuc n
signed_large n h =
    let e : ltb (u64_mod - 1 - n) int_min ≡ false = ground arith in rw e (ap negsuc (omega arith))

-- Every 64-bit integer comes back from its word.
signed-word : (z : ℤ) → IsInt64 z → to_signed (to_word z) ≡ z
signed-word (pos n) h = ap to_signed (u64_small n (omega arith)) ∙ signed_small n h
signed-word (negsuc n) h =
    ap (λ k. to_signed (u64_mod - 1 - k)) (u64_small n (omega arith)) ∙ signed_large n h

-- A handler that returns an `int64`.
abbrev pub IsTyped : Option SyscallEntry → Type 0
IsTyped none = Unit
IsTyped (some e) =
    (pid : ℤ) (regs : SyscallRegisters) → IsInt64 pid → IsInt64 (e.handler pid regs).value

-- RAX as the user reads it, with the result of the call and its error.
abbrev pub Reads : ℤ → ℤ → Option SyscallError → Type 0
Reads rax z none = rax ≡ z
Reads rax z (some e) = rax ≡ negsuc 21

-- What a call answers: -1 for an unknown number, and else what the handler of the number answers to
-- the PID and the registers of the call, with -22 in RAX for an error. The handler is counted, and no
-- other entry changes.
abbrev pub Answers :
    ℤ → SyscallRegisters → SyscallDispatcher → Option SyscallEntry → SyscallResult → Type 0
Answers pid regs sd none r =
    (r.0 ≡ negsuc 0)
    × (r.1 ≡ some invalid_syscall)
    × (to_signed r.2.rax ≡ negsuc 0)
    × (r.2 ≡ record regs { rax = r.2.rax })
    × (r.3 ≡ sd)
Answers pid regs sd (some e) r =
    let h = e.handler pid regs in
    (r.0 ≡ h.value)
    × (r.1 ≡ h.error)
    × Reads (to_signed r.2.rax) h.value h.error
    × (r.2 ≡ record h.registers { rax = r.2.rax })
    × (r.3.kernel_base ≡ sd.kernel_base)
    × (r.3.table regs.rax ≡ some (record e { total_calls = e.total_calls + 1 }))
    × ((num : ℕ) → (num ≡ regs.rax) ⊎ (r.3.table num ≡ sd.table num))

Reads-result_word :
    (z : ℤ) (o : Option SyscallError) (regs : SyscallRegisters)
    → IsInt64 z
    → Reads (to_signed (result_word (record { registers = regs; value = z; error = o }))) z o
Reads-result_word z none regs h = signed-word z h
Reads-result_word z (some e) regs h = refl

dispatch_entry-Answers :
    (o : Option SyscallEntry) (pid : ℤ) (regs : SyscallRegisters) (sd : SyscallDispatcher)
    → IsInt64 pid
    → IsTyped o
    → Answers pid regs sd o (dispatch_entry o pid regs sd)
unfolding dispatch_entry
dispatch_entry-Answers none pid regs sd h t = (refl, refl, refl, refl, refl)
dispatch_entry-Answers (some e) pid regs sd h t =
    let r = e.handler pid regs in
    (
      refl,
      refl,
      Reads-result_word r.value r.error r.registers (t pid regs h),
      refl,
      refl,
      rw (==_refl regs.rax) refl,
      λ num. elim (==_cases num regs.rax) [ inl p ↦ inl p.1 | inr p ↦ inr (rw p.0 refl) ],
    )

abbrev pub AreTyped : (ℕ → Option SyscallEntry) → Type 0
AreTyped table = (num : ℕ) → IsTyped (table num)

insert_entry-AreTyped :
    (num : ℕ) (e : SyscallEntry) (table : ℕ → Option SyscallEntry)
    → IsTyped (some e)
    → AreTyped table
    → AreTyped (insert_entry num e table)
insert_entry-AreTyped num e table t k w = elim (Bool-cases (w == num)) [
  | inl p ↦ rw p t
  | inr p ↦ rw p (k w)
]

to_signed-IsInt64 : (x : ℕ) → IsInt64 (to_signed x)
to_signed-IsInt64 x = ground arith

checked-IsInt64 :
    (regs : SyscallRegisters)
    → IsInt64
        (if leb 0xC0000000 regs.rsi
          then record { registers = regs; value = negsuc 13; error = some bad_user_pointer }
          else answers (to_signed regs.rdx) regs).value
checked-IsInt64 regs = elim (Bool-cases (leb 0xC0000000 regs.rsi)) [
  | inl e ↦ rw e (omega arith)
  | inr e ↦ rw e (to_signed-IsInt64 regs.rdx)
]

pub new_syscall_dispatcher-AreTyped : AreTyped new_syscall_dispatcher.table
unfolding new_syscall_dispatcher register
new_syscall_dispatcher-AreTyped =
    let step = insert_entry-AreTyped in
    step 9 _ _ (λ pid regs h. omega arith)
      (step 8 _ _ (λ pid regs h. omega arith)
        (step 7 _ _ (λ pid regs h. omega arith)
          (step 3 _ _ (λ pid regs h. omega arith)
            (step 2 _ _ (λ pid regs h. omega arith)
              (step 1 _ _ (λ pid regs h. omega arith)
                (step 4 _ _ (λ pid regs h. omega arith)
                  (step 11 _ _ (λ pid regs h. omega arith)
                    (step 5 _ _ (λ pid regs h. checked-IsInt64 regs)
                      (step 6 _ _ (λ pid regs h. checked-IsInt64 regs)
                        (step 12 _ _ (λ pid regs h. omega arith)
                          (step 13 _ _ (λ pid regs h. h) (λ num. tt))))))))))))

pub dispatch_entry-AreTyped :
    (o : Option SyscallEntry) (pid : ℤ) (regs : SyscallRegisters) (sd : SyscallDispatcher)
    → sd.table regs.rax ≡ o
    → AreTyped sd.table
    → AreTyped (dispatch_entry o pid regs sd).3.table
unfolding dispatch_entry
dispatch_entry-AreTyped none pid regs sd e t = t
dispatch_entry-AreTyped (some d) pid regs sd e t =
    insert_entry-AreTyped regs.rax _ sd.table (subst IsTyped e (t regs.rax)) t

-- Let every handler of the table return a 64-bit integer where the PID is one. A system call with an
-- unknown number gives -1, the error and RAX = -1 as a signed number, and leaves the dispatcher and the
-- other registers as they are. One with a known number gives the value and the error of its handler at
-- the PID and the registers of the call, with the other registers as the handler leaves them. RAX, as a
-- signed number, is that value where the handler gives no error, and -22 where it gives one. The call
-- is counted at its number, and neither another entry nor the kernel's base changes.
pub dispatch_syscall-Answers :
    (pid : ℤ) (regs : SyscallRegisters) (sd : SyscallDispatcher)
    → AreTyped sd.table
    → IsInt64 pid
    → Answers pid regs sd (sd.table regs.rax) (dispatch_syscall pid regs sd)
dispatch_syscall-Answers pid regs sd t h =
    dispatch_entry-Answers (sd.table regs.rax) pid regs sd h (t regs.rax)
