-- ===== src/Cpu/Mlfq/Loaded.antt =====
-- pkg/cpu/sched_mlfq.go: whole runs of the MLFQ scheduler.
use os_simulator.Base.{
  ==_refl, All, List, Option, String, [], ap, arith, count, get_elem?, none, refl, returns, some,
  subst, sym, ℕ, ◌+◌, ◌<◌, ◌∙◌, ◌∷◌, ◌≡◌, ◌≤◌,
}
use os_simulator.Cpu.Process.{Process, ProcessState, blocked, new, ready, running, terminated}
use os_simulator.Cpu.Core.{Core, Store, add_process, add_processes, new_core}
use os_simulator.Cpu.Account.{IsAccounted, IsSettled, Stands, runs, runs-is_running}
use os_simulator.Cpu.Turnaround.{AreFresh, completed-IsSettled, loaded-IsAccounted}
use os_simulator.Cpu.Mlfq.{MlfqScheduler, QueueConfig, default_configs, new_mlfq}
use os_simulator.Cpu.Mlfq.Accounts.{view}
use os_simulator.Cpu.Mlfq.Spares.{Fits, IsConfigured, Spare}
use os_simulator.Cpu.Mlfq.Runs.{Ticked, mlfq_run, mlfq_run-Ticked}

abbrev pub mlfq_loaded : ℕ → Store → List ℕ → MlfqScheduler
mlfq_loaded period h ps = let m = new_mlfq period h in record m { core = add_processes ps m.core }

-- New processes stand at level 0, with all of their allotment.
abbrev pub AreAtTop : Store → Type 0
AreAtTop h = (p : ℕ) → (h p).current_queue ≡ 0

default_configs-IsConfigured : IsConfigured default_configs
default_configs-IsConfigured = record {
  some_level = omega arith;
  times =
      ((omega arith, omega arith), ((omega arith, omega arith), ((omega arith, omega arith), tt)));
}

add_processes-Ticked :
    (ps : List ℕ) (m : MlfqScheduler)
    → Ticked 0 m
    → Ticked 0 (record m { core = add_processes ps m.core })
unfolding add_process
add_processes-Ticked [] m t = t
add_processes-Ticked (p ∷ ps) m (t, l) =
    add_processes-Ticked ps (record m { core = add_process m.core p })
      (
        record { configured = t.configured; same = t.same; accounted = t.accounted; fits = t.fits },
        l,
      )

fresh-Fits : (x : Process) → x.state ≡ new → x.current_queue ≡ 0 → Fits 1 default_configs x
fresh-Fits x e f = record {
  config = record { level = 0; quantum = 2; allotment = 4 };
  found = ap (get_elem? default_configs) f;
  spare = subst (λ st. Spare 1 st x.allotment_used 4) (sym e) tt;
}

new_mlfq-Ticked : (period : ℕ) (h : Store) → AreFresh h → AreAtTop h → Ticked 0 (new_mlfq period h)
unfolding new_mlfq new_core
new_mlfq-Ticked period h f top = (
  record {
    configured = default_configs-IsConfigured;
    same = refl;
    accounted = loaded-IsAccounted h [] f;
    fits = λ p. fresh-Fits (h p) (f p).0 (top p);
  },
  λ p config r. cc,
)

counted-All {κ} : (P : ℕ → Type κ) (xs : List ℕ) → ((p : ℕ) → 0 < count p xs → P p) → All P xs
counted-All P [] f = tt
counted-All P (x ∷ xs) f = (f x (ground arith), counted-All P xs (λ p h. f p (ground arith)))

-- What holds of a completed process, and of the running one.
abbrev pub SettledIn : Core → ℕ → Type 0
SettledIn s p = (count p s.completed ≡ 1) × IsSettled (s.store p)

pub record KeepsTime (m : MlfqScheduler) (p : ℕ) : Type 0 where
  pub config : QueueConfig
  pub found : get_elem? m.configs (m.core.store p).current_queue ≡ some config
  pub allotted : (m.core.store p).allotment_used ≤ config.allotment
  pub sliced : m.current_slice ≤ config.quantum

abbrev pub RunningKeepsTime : MlfqScheduler → Option ℕ → Type 0
RunningKeepsTime m none = Unit
RunningKeepsTime m (some p) = KeepsTime m p

running-allotted :
    (used allotment : ℕ) (st : ProcessState)
    → st ≡ running
    → Spare 1 st used allotment
    → used ≤ allotment
running-allotted used allotment new e s = cc
running-allotted used allotment ready e s = cc
running-allotted used allotment running e s = omega arith
running-allotted used allotment blocked e s = cc
running-allotted used allotment terminated e s = cc

running-state :
    (a b p : ℕ) (s : Core) → s.running ≡ some p → IsAccounted a b s → (s.store p).state ≡ running
running-state a b p s e v =
    (runs-is_running (s.store p).state _ _ (
      subst (λ r. Stands (s.store p).state (count p s.ready_queue) (count p s.completed) r)
        (ap (runs p) e ∙ ==_refl p) (v p).1)).0

Ticked-RunningKeepsTime :
    (n : ℕ) (m : MlfqScheduler) (o : Option ℕ)
    → m.core.running ≡ o
    → Ticked n m
    → RunningKeepsTime m o
Ticked-RunningKeepsTime n m none e t = tt
Ticked-RunningKeepsTime n m (some p) e (t, l) =
    let v = t.fits p in
    record {
      config = v.config;
      found = v.found;
      allotted = running-allotted _ _ _ (running-state n (n + 1) p (view m) e t.accounted) v.spare;
      sliced = omega (arith, l p v.config e v.found);
    }

-- Let the MLFQ scheduler, with any boost period, be loaded with processes that are new, stand at level
-- 0, have not waited, have a positive burst time and that burst time remaining. Any number of ticks
-- then runs without a panic. After them every completed process stands once in the list of the
-- completed, its waiting and burst times add up to the turnaround time and one more, and its finish
-- time is the arrival time and the turnaround time. A process that runs has not overdrawn the
-- allotment of its level, and the current slice does not exceed that level's quantum.
pub mlfq_run-IsSettled :
    (label : String → ℕ → String) (period : ℕ) (h : Store) (ps : List ℕ) (n : ℕ)
    → AreFresh h
    → AreAtTop h
    → (m : MlfqScheduler) × (mlfq_run label n (mlfq_loaded period h ps) ≡ returns m)
      × All (SettledIn m.core) m.core.completed
      × RunningKeepsTime m m.core.running
mlfq_run-IsSettled label period h ps n f top =
    let (m, e, t) =
      mlfq_run-Ticked label n _
        (add_processes-Ticked ps (new_mlfq period h) (new_mlfq-Ticked period h f top)) in
    (
      m,
      e,
      counted-All (SettledIn m.core) m.core.completed
          (λ p c. completed-IsSettled n (n + 1) p (view m) t.0.accounted c),
      Ticked-RunningKeepsTime n m m.core.running refl t,
    )
