-- ===== src/Kernel/Traps/Returning.antt =====
-- pkg/kernel/trap_table.go: traps return to the user program, and are counted.
use os_simulator.Base.{
  ==_cases, ==_false, ==_true, Bool-cases, List, Option, String, [], ap, arith, if◌then◌else◌, inl,
  inr, none, refl, some, subst, suc, sym, ℕ, ◌++◌, ◌+◌, ◌==◌, ◌∙◌, ◌∷◌, ◌≡◌, ◌≢◌,
}
use os_simulator.Kernel.Modes.{HardwareCpu, return_to_user_mode, switch_to_kernel_mode, user_mode}
use os_simulator.Kernel.Traps.{
  Args, Dispatched, TrapContext, TrapDescriptor, TrapHandler, TrapTable, TrapType, context_of,
  dispatch_found, dispatch_trap, insert_descriptor, new_trap_table, register_handler, run_handler,
}

abbrev pub tally : ℕ → List TrapContext → ℕ
tally v [] = 0
tally v (c ∷ cs) = let n = tally v cs in if c.vector == v then suc n else n

tally-push :
    (v : ℕ) (cs : List TrapContext) (c : TrapContext)
    → tally v (cs ++ c ∷ []) ≡ (if c.vector == v then suc (tally v cs) else tally v cs)
tally-push v [] c = refl
tally-push v (d ∷ cs) c = ground (arith, tally-push v cs c)

-- A handler that leaves the CPU and the vector alone.
abbrev pub IsQuiet : Option TrapHandler → Type 0
IsQuiet none = Unit
IsQuiet (some f) =
    (cpu : HardwareCpu) (c : TrapContext)
    → ((f cpu c).cpu ≡ cpu) × ((f cpu c).context.vector ≡ c.vector)

-- The counter of a descriptor is the number of its traps in the history.
abbrev pub IsTallied : ℕ → List TrapContext → Option TrapDescriptor → Type 0
IsTallied v history none = tally v history ≡ 0
IsTallied v history (some d) = (d.count ≡ tally v history) × IsQuiet d.handler

abbrev pub AreTallied : TrapTable → Type 0
AreTallied t = (v : ℕ) → IsTallied v t.history (t.descriptors v)

pub trap_returns :
    (cpu : HardwareCpu)
    → cpu.current_mode ≡ user_mode
    → return_to_user_mode (switch_to_kernel_mode cpu) ≡ cpu
unfolding return_to_user_mode switch_to_kernel_mode
trap_returns cpu e = ground arith

run_handler_quiet :
    (f : Option TrapHandler) (cpu : HardwareCpu) (c : TrapContext)
    → IsQuiet f
    → ((run_handler f cpu c).0 ≡ cpu) × ((run_handler f cpu c).1.vector ≡ c.vector)
run_handler_quiet none cpu c q = (refl, refl)
run_handler_quiet (some f) cpu c q = q cpu c

IsTallied-tally :
    (v : ℕ) (before behind : List TrapContext) (o : Option TrapDescriptor)
    → tally v behind ≡ tally v before
    → IsTallied v before o
    → IsTallied v behind o
IsTallied-tally v before behind none e k = e ∙ k
IsTallied-tally v before behind (some d) e k = (k.0 ∙ sym e, k.1)

tally-push_self :
    (v : ℕ) (cs : List TrapContext) (c : TrapContext)
    → c.vector ≡ v
    → tally v (cs ++ c ∷ []) ≡ suc (tally v cs)
tally-push_self v cs c e = tally-push v cs c ∙ rw (==_true c.vector v e) refl

tally-push_other :
    (v : ℕ) (cs : List TrapContext) (c : TrapContext)
    → c.vector ≢ v
    → tally v (cs ++ c ∷ []) ≡ tally v cs
tally-push_other v cs c e = tally-push v cs c ∙ rw (==_false c.vector v e) refl

-- One more trap of the vector v.
IsTallied-insert_descriptor :
    (v w : ℕ) (d : TrapDescriptor) (history : List TrapContext) (c : TrapContext)
    (m : ℕ → Option TrapDescriptor)
    → c.vector ≡ v
    → d.count ≡ tally v history
    → IsQuiet d.handler
    → IsTallied w history (m w)
    → IsTallied w (history ++ c ∷ []) (insert_descriptor v (record d { count = d.count + 1 }) m w)
IsTallied-insert_descriptor v w d history c m e n q k = elim (==_cases w v) [
  | inl p ↦ rw (p.0) (
    omega (arith, n, ap (λ z. tally z history) p.1, tally-push_self w history c (e ∙ sym p.1)),
    q,
  )
  | inr p ↦
      rw (p.0)
        (IsTallied-tally w history _ (m w) (tally-push_other w history c (λ f. p.1 (sym f ∙ e))) k)
]

pub record Returned (cpu : HardwareCpu) (r : Dispatched) : Type 0 where
  pub same_cpu : r.1 ≡ cpu
  pub tallied : AreTallied r.2

dispatch_found-Returned :
    (o : Option TrapDescriptor) (v num : ℕ) (args : Args) (cpu : HardwareCpu) (t : TrapTable)
    → t.descriptors v ≡ o
    → cpu.current_mode ≡ user_mode
    → AreTallied t
    → Returned cpu (dispatch_found o v num args cpu t)
unfolding dispatch_found
dispatch_found-Returned none v num args cpu t e u k = record { same_cpu = refl; tallied = k }
dispatch_found-Returned (some d) v num args cpu t e u k =
    let own = subst (IsTallied v t.history) e (k v) in
    let h =
      run_handler_quiet d.handler (switch_to_kernel_mode cpu) (context_of d cpu v num args) own.1 in
    record {
      same_cpu = ap return_to_user_mode h.0 ∙ trap_returns cpu u;
      tallied =
          λ w. IsTallied-insert_descriptor v w d t.history _ t.descriptors h.1 own.0 own.1 (k w);
    }

pub record Trap : Type 0 where
  pub vector : ℕ
  pub syscall_num : ℕ
  pub args : Args

unfoldable pub dispatch_all : List Trap → HardwareCpu → TrapTable → HardwareCpu × TrapTable
dispatch_all [] cpu t = (cpu, t)
dispatch_all (x ∷ xs) cpu t =
    let r = dispatch_trap x.vector x.syscall_num x.args cpu t in dispatch_all xs r.1 r.2

dispatch_all-tallied :
    (xs : List Trap) (cpu : HardwareCpu) (t : TrapTable)
    → cpu.current_mode ≡ user_mode
    → AreTallied t
    → let r = dispatch_all xs cpu t in (r.0 ≡ cpu) × AreTallied r.1
unfolding dispatch_all
dispatch_all-tallied [] cpu t u k = (refl, k)
dispatch_all-tallied (x ∷ xs) cpu t u k =
    let r =
      dispatch_found-Returned (t.descriptors x.vector) x.vector x.syscall_num x.args cpu t refl u
        k in
    let (e, v) =
      dispatch_all-tallied xs _ _ (ap (λ (c : HardwareCpu). c.current_mode) r.same_cpu ∙ u)
        r.tallied in
    (e ∙ r.same_cpu, v)

register-AreTallied :
    (v : ℕ) (name : String) (kind : TrapType) (text : String) (f : Option TrapHandler)
    (t : TrapTable)
    → t.history ≡ []
    → IsQuiet f
    → AreTallied t
    → AreTallied (register_handler v name kind text f t)
unfolding register_handler
register-AreTallied v name kind text f t e q k w = elim (Bool-cases (w == v)) [
  | inl p ↦ rw (p, e) (refl, q)
  | inr p ↦ rw p (k w)
]

new_trap_table-AreTallied : AreTallied new_trap_table
unfolding new_trap_table register_handler
new_trap_table-AreTallied =
    let step = register-AreTallied in
    step 128 _ _ _ _ _ refl (λ cpu c. (refl, refl))
      (step 46 _ _ _ _ _ refl (λ cpu c. (refl, refl))
        (step 33 _ _ _ _ _ refl (λ cpu c. (refl, refl))
          (step 32 _ _ _ _ _ refl (λ cpu c. (refl, refl))
            (step 14 _ _ _ _ _ refl (λ cpu c. (refl, refl))
              (step 13 _ _ _ _ _ refl (λ cpu c. (refl, refl))
                (step 6 _ _ _ _ _ refl (λ cpu c. (refl, refl))
                  (step 0 _ _ _ _ _ refl (λ cpu c. (refl, refl)) (λ v. refl))))))))

-- Let a CPU in user mode meet any sequence of traps, with registered vectors or not, under the table
-- of NewTrapTable. After them the CPU is the one before, back in user mode, and the fired count of
-- every registered vector is the number of its traps in the history, in which no other vector
-- stands.
pub dispatch_all-AreTallied :
    (xs : List Trap) (cpu : HardwareCpu)
    → cpu.current_mode ≡ user_mode
    → let r = dispatch_all xs cpu new_trap_table in (r.0 ≡ cpu) × AreTallied r.1
dispatch_all-AreTallied xs cpu u =
    dispatch_all-tallied xs cpu new_trap_table u new_trap_table-AreTallied
