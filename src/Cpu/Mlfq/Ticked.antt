-- ===== src/Cpu/Mlfq/Ticked.antt =====
-- pkg/cpu/sched_mlfq.go: what the execution of a tick does to levels and allotments.
use os_simulator.Base.{Bool-cases, List, Option-cases, inl, inr, none, refl, ℕ, ◌==◌, ◌∙◌, ◌≡◌, ◌⊎◌}
use os_simulator.Cpu.Process.{Process}
use os_simulator.Cpu.Core.{
  Core, Store, execute, is_zero, mark_finished, run_process, update, used_tick,
}
use os_simulator.Cpu.Mlfq.{QueueConfig}
use os_simulator.Cpu.Mlfq.Spares.{AllFit, AllFit-update, used_tick-Fits}

pub kept_level :
    (h : Store) (p q : ℕ) (f : Process → Process)
    → ((x : Process) → (f x).current_queue ≡ x.current_queue)
    → (update h p f q).current_queue ≡ (h q).current_queue
kept_level h p q f k = elim (Bool-cases (p == q)) [ inl e ↦ rw e (k (h q)) | inr e ↦ rw e refl ]

pub execute-current_queue :
    (now q : ℕ) (s : Core) → ((execute now s).store q).current_queue ≡ (s.store q).current_queue
unfolding execute run_process
execute-current_queue now q s = elim (Option-cases s.running) [
  | inl e ↦ rw (e, execute) refl
  | inr (p, e) ↦
      let h = update s.store p used_tick in
      let k = kept_level s.store p q used_tick (λ x. refl) in
      elim (Bool-cases (is_zero (h p).remaining_time)) [
        | inl z ↦
            rw (e, execute, run_process, z) (kept_level h p q (mark_finished now) (λ x. refl) ∙ k)
        | inr z ↦ rw (e, execute, run_process, z) k
      ]
]

pub execute-running :
    (now : ℕ) (s : Core) → ((execute now s).running ≡ none) ⊎ ((execute now s).running ≡ s.running)
unfolding execute run_process
execute-running now s = elim (Option-cases s.running) [
  | inl e ↦ rw (e, execute) (inl e)
  | inr (p, e) ↦ elim (Bool-cases (is_zero (update s.store p used_tick p).remaining_time)) [
    | inl z ↦ rw (e, execute, run_process, z) (inl refl)
    | inr z ↦ rw (e, execute, run_process, z) (inr e)
  ]
]

pub execute-AllFit :
    (slack now : ℕ) (cs : List QueueConfig) (s : Core)
    → AllFit slack cs s.store
    → AllFit slack cs (execute now s).store
unfolding execute run_process
execute-AllFit slack now cs s v = elim (Option-cases s.running) [
  | inl e ↦ rw (e, execute) v
  | inr (p, e) ↦
      let h = update s.store p used_tick in
      let w : AllFit slack cs h =
        AllFit-update slack p cs s.store used_tick (used_tick-Fits slack cs (s.store p) (v p)) v in
      elim (Bool-cases (is_zero (h p).remaining_time)) [
        | inl z ↦
            rw (e, execute, run_process, z)
              (AllFit-update slack p cs h (mark_finished now)
                (record { config = (w p).config; found = (w p).found; spare = tt }) w)
        | inr z ↦ rw (e, execute, run_process, z) w
      ]
]

pub execute-idle : (now : ℕ) (s : Core) → s.running ≡ none → (execute now s).running ≡ none
execute-idle now s e = elim (execute-running now s) [ inl n ↦ n | inr n ↦ n ∙ e ]
