-- ===== src/Cpu/Mlfq/Timed.antt =====
-- pkg/cpu/sched_mlfq.go: the invariant of the MLFQ scheduler, under the boost and the arrivals.
use os_simulator.Base.{
  Bool-cases, List, [], ap, arith, get_elem?, inl, inr, leb, length, map, refl, some, subst, suc,
  sym, ℕ, ◌+◌, ◌<◌, ◌∙◌, ◌∷◌, ◌≡◌,
}
use os_simulator.Cpu.Core.{Store, arrives}
use os_simulator.Cpu.Account.{IsAccounted}
use os_simulator.Cpu.Mlfq.{MlfqScheduler, QueueConfig, admit_top, boost, enter, gather, push_at}
use os_simulator.Cpu.Mlfq.Accounts.{boost-IsAccounted, length-push_at, view}
use os_simulator.Cpu.Mlfq.Steps.{admit_top-IsAccounted}
use os_simulator.Cpu.Mlfq.Levels.{admit_top-AllFit, boost-AllFit}
use os_simulator.Cpu.Mlfq.Spares.{AllFit, IsConfigured}

-- The quantum of the running process is not overdrawn, up to a slack.
abbrev pub Sliced : ℕ → MlfqScheduler → Type 0
Sliced slack m =
    (p : ℕ) (config : QueueConfig)
    → m.core.running ≡ some p
    → get_elem? m.configs (m.core.store p).current_queue ≡ some config
    → m.current_slice < config.quantum + slack

-- Two clocks, as for the account, and the slack.
pub record IsTimed (a b slack : ℕ) (m : MlfqScheduler) : Type 0 where
  pub configured : IsConfigured m.configs
  pub same : length m.queues ≡ length m.configs
  pub accounted : IsAccounted a b (view m)
  pub fits : AllFit slack m.configs m.core.store

length-emptied : (qs : List (List ℕ)) → length {A = List ℕ} (map (λ _. []) qs) ≡ length qs
length-emptied [] = refl
length-emptied (q ∷ qs) = ap suc (length-emptied qs)

length-gather : (qs : List (List ℕ)) → length (gather qs) ≡ length qs
unfolding gather
length-gather [] = refl
length-gather (q ∷ qs) = ap suc (length-emptied qs)

boost_frame :
    (now : ℕ) (m : MlfqScheduler)
    → ((boost now m).configs ≡ m.configs) × (length (boost now m).queues ≡ length m.queues)
unfolding boost
boost_frame now m = elim (Bool-cases (leb m.boost_period m.ticks_since_boost)) [
  | inl e ↦ rw (e, length-gather m.queues) (refl, refl)
  | inr e ↦ rw e (refl, refl)
]

length-enter :
    (now : ℕ) (ps : List ℕ) (h : Store) (qs : List (List ℕ))
    → length (enter now ps h qs).1 ≡ length qs
unfolding enter
length-enter now [] h qs = refl
length-enter now (p ∷ ps) h qs = elim (Bool-cases (arrives now (h p))) [
  | inr e ↦ rw (e, enter) (length-enter now ps h qs)
  | inl e ↦ rw (e, enter) (length-enter now ps _ (push_at 0 p qs) ∙ length-push_at 0 p qs)
]

pub boost-IsTimed :
    (a b slack now : ℕ) (m : MlfqScheduler) → IsTimed a b slack m → IsTimed a b slack (boost now m)
boost-IsTimed a b slack now m t =
    let f = boost_frame now m in
    record {
      configured = subst IsConfigured (sym f.0) t.configured;
      same = f.1 ∙ t.same ∙ ap length (sym f.0);
      accounted = boost-IsAccounted a b now m t.accounted;
      fits =
          subst (λ cs. AllFit slack cs (boost now m).core.store) (sym f.0)
            (boost-AllFit slack now m t.configured t.fits);
    }

some_queue : (a b slack : ℕ) (m : MlfqScheduler) → IsTimed a b slack m → 0 < length m.queues
some_queue a b slack m t = omega (arith, t.same, t.configured.some_level)

pub admit_top-IsTimed :
    (slack now : ℕ) (m : MlfqScheduler)
    → IsTimed now (now + 1) slack m
    → IsTimed (now + 1) (now + 1) slack (admit_top now m)
unfolding admit_top
admit_top-IsTimed slack now m t = record {
  configured = t.configured;
  same = length-enter now m.core.all_processes m.core.store m.queues ∙ t.same;
  accounted = admit_top-IsAccounted now m (some_queue _ _ _ m t) t.accounted;
  fits = admit_top-AllFit slack now m t.configured t.fits;
}
