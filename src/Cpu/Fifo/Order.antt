-- ===== src/Cpu/Fifo/Order.antt =====
-- The order of service of the scheduler in pkg/cpu/sched_fifo.go.
use os_simulator.Base.{
  ==_iff, ==_refl, Bool, Bool-cases, List, Option, Option-cases, [], ap, append-nil, append_assoc,
  ap₂, arith, count, false, if◌then◌else◌, inl, inr, ltb, none, refl, some, subst, suc, sym, true,
  ℕ, ◌&&◌, ◌++◌, ◌==◌, ◌∙◌, ◌∷◌, ◌≡◌,
}
use os_simulator.Cpu.Process.{Process, ready}
use os_simulator.Cpu.Core.{
  Core, Store, admit, arrive, arrives, dispatch, execute, is_zero, run_process, start, update,
  used_tick,
}
use os_simulator.Cpu.Fifo.{tick}

abbrev pub on_cpu : Option ℕ → List ℕ
on_cpu none = []
on_cpu (some p) = p ∷ []

-- The completed processes, the running one and the waiting ones.
abbrev pub order : Core → List ℕ
order s = s.completed ++ on_cpu s.running ++ s.ready_queue

-- The processes that the arrival loop lets in.
abbrev pub newcomers : ℕ → Core → List ℕ
newcomers now s = (arrive now s.all_processes s.store []).1

-- A process is in the list and arrives now.
abbrev pub is_newcomer : ℕ → List ℕ → Store → ℕ → Bool
is_newcomer now ps h p = ltb 0 (count p ps) && arrives now (h p)

abbrev pub to_nat : Bool → ℕ
to_nat true = 1
to_nat false = 0

arrive-append :
    (now : ℕ) (ps : List ℕ) (h : Store) (queue : List ℕ)
    → (arrive now ps h queue).1 ≡ queue ++ (arrive now ps h []).1
unfolding arrive
arrive-append now [] h queue = sym (append-nil queue)
arrive-append now (p ∷ ps) h queue = elim (Bool-cases (arrives now (h p))) [
  | inr e ↦ rw (e, arrive) (arrive-append now ps h queue)
  | inl e ↦
      rw (e, arrive)
        (arrive-append now ps _ (queue ++ p ∷ [])
          ∙ append_assoc queue (p ∷ []) _
          ∙ ap (◌++◌ queue) (sym (arrive-append now ps _ (p ∷ []))))
]

arrives-ready : (now : ℕ) (x : Process) → arrives now (record x { state = ready }) ≡ false
arrives-ready now x = ground arith

not_arrived : (b c : Bool) → c ≡ false → to_nat (b && c) ≡ 0
not_arrived true c e = rw e refl
not_arrived false c e = refl

-- The count of a list whose head is counted or not.
abbrev suc_if : Bool → ℕ → ℕ
suc_if b n = if b then suc n else n

append_reassoc : (xs ys zs ws : List ℕ) → xs ++ ys ++ (zs ++ ws) ≡ xs ++ ys ++ zs ++ ws
append_reassoc xs ys zs ws = sym (append_assoc (xs ++ ys) zs ws)

has_arrived : (n : ℕ) (c : Bool) → c ≡ true → to_nat (ltb 0 (suc n) && c) ≡ 1
has_arrived n c e = ground arith

newcomers_at :
    (now q : ℕ) (ps : List ℕ) (h : Store) (p : ℕ)
    → arrives now (h q) ≡ true
    → let h' = update h q (λ x. record x { state = ready }) in
      count p (arrive now ps h' []).1 ≡ to_nat (is_newcomer now ps h' p)
      → suc_if (q == p) (count p (arrive now ps h' []).1) ≡ to_nat (is_newcomer now (q ∷ ps) h p)
newcomers_at now q ps h p e k = elim (Bool-cases (q == p)) [
  | inr d ↦ rw d (k ∙ rw d refl)
  | inl d ↦
      let t = subst (λ i. arrives now (h i) ≡ true) ((==_iff q p).0 d) e in
      rw d (
        ap suc (k ∙ rw d (not_arrived _ _ (arrives-ready now (h p))))
        ∙ sym (has_arrived (count p ps) _ t))
]

count-newcomers :
    (now : ℕ) (ps : List ℕ) (h : Store) (p : ℕ)
    → count p (arrive now ps h []).1 ≡ to_nat (is_newcomer now ps h p)
unfolding arrive
count-newcomers now [] h p = refl
count-newcomers now (q ∷ ps) h p = elim (Bool-cases (arrives now (h q))) [
  | inl e ↦
      rw (e, arrive)
        (ap (count p) (arrive-append now ps _ (q ∷ []))
          ∙ newcomers_at now q ps h p e (count-newcomers now ps _ p))
  | inr e ↦ elim (Bool-cases (q == p)) [
    | inr d ↦ rw (e, d, arrive) (count-newcomers now ps h p)
    | inl d ↦
        let z = subst (λ i. arrives now (h i) ≡ false) ((==_iff q p).0 d) e in
        rw (e, d, arrive) (count-newcomers now ps h p ∙ not_arrived _ _ z ∙ sym (not_arrived _ _ z))
  ]
]

admit-order : (now : ℕ) (s : Core) → order (admit now s) ≡ order s ++ newcomers now s
unfolding admit
admit-order now s =
    ap (λ q. s.completed ++ on_cpu s.running ++ q)
      (arrive-append now s.all_processes s.store s.ready_queue)
    ∙ append_reassoc s.completed (on_cpu s.running) s.ready_queue (newcomers now s)

dispatch-order_at :
    (now : ℕ) (s : Core) (o : Option ℕ) (ps : List ℕ)
    → s.running ≡ o
    → s.ready_queue ≡ ps
    → order (dispatch now s) ≡ order s
unfolding dispatch start
dispatch-order_at now s (some p) ps e f =
    rw (e, dispatch) (ap (λ o. s.completed ++ on_cpu o ++ s.ready_queue) e)
dispatch-order_at now s none [] e f =
    rw (e, f, dispatch) (ap₂ (λ o q. s.completed ++ on_cpu o ++ q) e f)
dispatch-order_at now s none (p ∷ ps) e f =
    rw (e, f, dispatch)
      (append_assoc s.completed (p ∷ []) ps ∙ sym (append_assoc s.completed [] (p ∷ ps)))

execute-order : (now : ℕ) (s : Core) → order (execute now s) ≡ order s
unfolding execute run_process
execute-order now s = elim (Option-cases s.running) [
  | inl e ↦ rw (e, execute) (ap (λ o. s.completed ++ on_cpu o ++ s.ready_queue) e)
  | inr (p, e) ↦ elim (Bool-cases (is_zero (used_tick (s.store p)).remaining_time)) [
    | inl z ↦
        rw (e, ==_refl p, z, execute, run_process)
          (ap (λ z. z ++ s.ready_queue) (append-nil (s.completed ++ p ∷ [])))
    | inr z ↦
        rw (e, ==_refl p, z, execute, run_process)
          (ap (λ o. s.completed ++ on_cpu o ++ s.ready_queue) e)
  ]
]

-- A tick of the FIFO scheduler leaves the list of the completed, the running and the waiting
-- processes, in this order, as it is, except that the processes it lets in are appended. These are
-- the ones of the scheduler that are new and arrive at this time, each once.
pub tick-order :
    (now : ℕ) (s : Core)
    → (ns : List ℕ) × (order (tick now s).0 ≡ order s ++ ns)
      × ((p : ℕ) → count p ns ≡ to_nat (is_newcomer now s.all_processes s.store p))
unfolding tick
tick-order now s = (
  newcomers now s,
  execute-order now (dispatch now (admit now s))
      ∙ dispatch-order_at now (admit now s) _ _ refl refl
      ∙ admit-order now s,
  count-newcomers now s.all_processes s.store,
)
