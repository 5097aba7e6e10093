-- ===== src/Cpu/Mlfq/Runs.antt =====
-- pkg/cpu/sched_mlfq.go: the ticks of the MLFQ scheduler.
use os_simulator.Base.{
  All-get_elem?, Bool, List, Option, Option-cases, Outcome, String, [], ap, arith, get_elem?, inl,
  inr, length, length-set, map_outcome, none, refl, returns, some, subst, suc, sym, zero, ℕ, ◌+◌,
  ◌>>=◌, ◌∙◌, ◌≡◌,
}
use os_simulator.Cpu.Mlfq.{
  MlfqScheduler, clocked, execute_level, execute_running, flatten, mlfq_dispatch, mlfq_execute,
  mlfq_tick, slice_after, start_first, take_first, use_allotment,
}
use os_simulator.Cpu.Mlfq.Steps.{
  dispatch_busy, dispatch_none, dispatch_run, execute_level-IsAccounted, execute_view,
  first-is_ready, started-IsAccounted,
}
use os_simulator.Cpu.Mlfq.Spares.{AllFit-update, HasTime, loose-Fits, use_allotment-Fits}
use os_simulator.Cpu.Mlfq.Timed.{IsTimed, Sliced, admit_top-IsTimed, boost-IsTimed}
use os_simulator.Cpu.Mlfq.Levels.{start-AllFit}
use os_simulator.Cpu.Mlfq.Ticked.{
  execute-AllFit, execute-current_queue, execute-idle, execute-running, kept_level,
}
use os_simulator.Cpu.Mlfq.Checks.{Checked, check-Checked, idle-Sliced}
use os_simulator.Cpu.Core.{execute, update}
use os_simulator.Cpu.Mlfq.Rules.{take_first-IsFirst}
use os_simulator.Cpu.Account.{IsAccounted}
use os_simulator.Cpu.Dispatching.{running-IsOwed}
use os_simulator.Cpu.Execution.{execute-IsAccounted}
use os_simulator.Cpu.Mlfq.Accounts.{view}
use os_simulator.Cpu.Turnaround.{plus_one}

length-take_first :
    (qs : List (List ℕ)) (p : ℕ) (rest : List (List ℕ))
    → take_first qs ≡ some (p, rest)
    → length rest ≡ length qs
length-take_first qs p rest e =
    let f = take_first-IsFirst qs p rest e in ap length f.left ∙ length-set qs f.level f.others

-- The state between two ticks.
abbrev pub Ticked : ℕ → MlfqScheduler → Type 0
Ticked now m = IsTimed now (now + 1) 1 m × Sliced 1 m

started-Checked :
    (a now p : ℕ) (rest : List (List ℕ)) (m : MlfqScheduler)
    → m.core.running ≡ none
    → take_first m.queues ≡ some (p, rest)
    → IsTimed a a 0 m
    → Checked a (start_first now m (some (p, rest)))
unfolding start_first
started-Checked a now p rest m e f t = (
  record {
    configured = t.configured;
    same = length-take_first m.queues p rest f ∙ t.same;
    accounted = started-IsAccounted a now p rest m e f t.accounted;
    fits =
        start-AllFit 0 now p m.configs [] m.core (first-is_ready a a p rest m f t.accounted) t.fits;
  },
  λ q config r c. omega (arith, (All-get_elem? HasTime m.configs _ config t.configured.times c).0),
)

mlfq_dispatch-Checked :
    (a now : ℕ) (m : MlfqScheduler) → Checked a m → Checked a (mlfq_dispatch now m)
mlfq_dispatch-Checked a now m (t, l) = elim (Option-cases m.core.running) [
  | inr (p, e) ↦ subst (Checked a) (sym (dispatch_busy now p m e)) (t, l)
  | inl e ↦ elim (Option-cases (take_first m.queues)) [
    | inl f ↦ subst (Checked a) (sym (dispatch_none now m e f)) (t, l)
    | inr ((p, rest), f) ↦
        subst (Checked a) (sym (dispatch_run now p rest m e f))
          (started-Checked a now p rest m e f t)
  ]
]

execute_level-IsTimed :
    (label : String → ℕ → String) (now p : ℕ) (m : MlfqScheduler)
    → m.core.running ≡ some p
    → IsTimed (now + 1) (now + 1) 0 m
    → IsTimed (now + 1) (now + 1 + 1) 1 (execute_level label now p m)
unfolding execute_level
execute_level-IsTimed label now p m e t = record {
  configured = t.configured;
  same = t.same;
  accounted = execute_level-IsAccounted label now p m t.accounted;
  fits =
      execute-AllFit 1 now m.configs (record m.core { store = update m.core.store p use_allotment })
        (AllFit-update 1 p m.configs m.core.store use_allotment
          (use_allotment-Fits m.configs (m.core.store p)
            (running-IsOwed (now + 1) p (view m) e t.accounted).0 (t.fits p))
          (λ q. loose-Fits m.configs (m.core.store q) (t.fits q)));
}

-- Where the process still runs, it is the one that ran before, at its level.
execute_level-Sliced :
    (label : String → ℕ → String) (now p : ℕ) (m : MlfqScheduler)
    → m.core.running ≡ some p
    → Sliced 0 m
    → Sliced 1 (execute_level label now p m)
unfolding execute_level
execute_level-Sliced label now p m e l q config r c =
    let s = record m.core { store = update m.core.store p use_allotment } in
    elim (execute-running now s) [
      | inl n ↦ let z : none ≡ some q = sym n ∙ r in cc
      | inr n ↦
          let z = l q config (sym n ∙ r) (
            ap (get_elem? m.configs) (
              sym (
                execute-current_queue now q s
                ∙ kept_level m.core.store p q use_allotment (λ x. refl)))
            ∙ c) in
          rw (ap (slice_after m.current_slice) (n ∙ e)) (omega arith)
    ]

execute_level-Ticked :
    (label : String → ℕ → String) (now p : ℕ) (m : MlfqScheduler)
    → m.core.running ≡ some p
    → Checked (now + 1) m
    → Ticked (now + 1) (execute_level label now p m)
execute_level-Ticked label now p m e (t, l) =
    (execute_level-IsTimed label now p m e t, execute_level-Sliced label now p m e l)

execute_idle-Ticked :
    (now : ℕ) (m : MlfqScheduler)
    → m.core.running ≡ none
    → Checked (now + 1) m
    → Ticked (now + 1) (record m { core = execute now m.core })
execute_idle-Ticked now m e (t, l) = (
  record {
    configured = t.configured;
    same = t.same;
    accounted =
        subst (IsAccounted (now + 1) (now + 1 + 1)) (execute_view now m.core (flatten m.queues))
          (execute-IsAccounted now (view m) t.accounted);
    fits =
        execute-AllFit 1 now m.configs m.core
          (λ q. loose-Fits m.configs (m.core.store q) (t.fits q));
  },
  idle-Sliced 1 (record m { core = execute now m.core }) (execute-idle now m.core e),
)

mlfq_execute-Ticked :
    (label : String → ℕ → String) (now : ℕ) (m : MlfqScheduler)
    → Checked (now + 1) m
    → Ticked (now + 1) (mlfq_execute label now m)
unfolding mlfq_execute
mlfq_execute-Ticked label now m c = elim (Option-cases m.core.running) [
  | inl e ↦
      subst (Ticked (now + 1)) (sym (ap (execute_running label now m) e))
        (execute_idle-Ticked now m e c)
  | inr (p, e) ↦
      subst (Ticked (now + 1)) (sym (ap (execute_running label now m) e))
        (execute_level-Ticked label now p m e c)
]

-- A tick does not panic, and keeps what the invariant says.
mlfq_tick-Ticked :
    (label : String → ℕ → String) (now : ℕ) (m : MlfqScheduler)
    → Ticked now m
    → (r : MlfqScheduler × Option ℕ × Bool) × (mlfq_tick label now m ≡ returns r)
      × Ticked (now + 1) r.0
unfolding mlfq_tick
mlfq_tick-Ticked label now m (t, l) =
    let started : IsTimed now (now + 1) 1 (clocked now m) = record {
      configured = t.configured;
      same = t.same;
      accounted = t.accounted;
      fits = t.fits;
    } in
    let (k, e, c) =
      check-Checked (now + 1) _
        (admit_top-IsTimed 1 now _ (boost-IsTimed now (now + 1) 1 now (clocked now m) started)) in
    (
      _,
      ap (map_outcome _) e,
      mlfq_execute-Ticked label now _ (mlfq_dispatch-Checked (now + 1) now k c),
    )

unfoldable pub mlfq_run : (String → ℕ → String) → ℕ → MlfqScheduler → Outcome MlfqScheduler
mlfq_run label zero m = returns m
mlfq_run label (suc n) m = mlfq_run label n m >>= λ k. map_outcome (λ r. r.0) (mlfq_tick label n k)

pub mlfq_run-Ticked :
    (label : String → ℕ → String) (n : ℕ) (m : MlfqScheduler)
    → Ticked 0 m
    → (k : MlfqScheduler) × (mlfq_run label n m ≡ returns k) × Ticked n k
unfolding mlfq_run
mlfq_run-Ticked label zero m t = (m, refl, t)
mlfq_run-Ticked label (suc n) m t =
    let (k, e, u) = mlfq_run-Ticked label n m t in
    let (r, f, w) = mlfq_tick-Ticked label n k u in
    (
      r.0,
      ap (λ o. o >>= λ k. map_outcome (λ r. r.0) (mlfq_tick label n k)) e
          ∙ ap (map_outcome (λ r. r.0)) f,
      subst (λ i. Ticked i r.0) (plus_one n) w,
    )
