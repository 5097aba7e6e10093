-- ===== src/Cpu/Mlfq.antt =====
-- pkg/cpu/sched_mlfq.go. The core's ready queue, which this scheduler lacks, stays empty. The number
-- of queues is the length of `queues`. The text of a Gantt segment comes from fmt.Sprintf, which is
-- the parameter `label` of a name and a level.
pub mod Accounts
pub mod Steps
pub mod Spares
pub mod Levels
pub mod Timed
pub mod Checks
pub mod Ticked
pub mod Rules
pub mod Runs
pub mod Loaded
mod Tests
use os_simulator.Base.{
  Bool, List, Option, Outcome, String, [], get_elem?, if◌then◌else◌, leb, length, ltb, map,
  map_outcome, none, panics, replicate, returns, some, suc, zero, ℕ, ◌++◌, ◌+◌, ◌==◌, ◌∷◌,
}
use os_simulator.Cpu.Process.{Process, ready, running}
use os_simulator.Cpu.Core.{
  Core, Store, all_done, arrives, execute, new_core, segment, start, update, wait_all,
}

pub record QueueConfig : Type 0 where
  pub level : ℕ
  pub quantum : ℕ
  pub allotment : ℕ

pub record MlfqScheduler : Type 0 where
  pub configs : List QueueConfig
  pub queues : List (List ℕ)
  pub boost_period : ℕ
  pub ticks_since_boost : ℕ
  pub current_slice : ℕ
  pub boost_events : List ℕ
  pub core : Core

abbrev pub default_configs : List QueueConfig
default_configs =
    record { level = 0; quantum = 2; allotment = 4 }
    ∷ record { level = 1; quantum = 4; allotment = 8 }
    ∷ record { level = 2; quantum = 8; allotment = 16 }
    ∷ []

-- A period that is not positive becomes 50.
unfoldable pub new_mlfq : ℕ → Store → MlfqScheduler
new_mlfq boost_period h = record {
  configs = default_configs;
  queues = replicate (length default_configs) [];
  boost_period = if boost_period == 0 then 50 else boost_period;
  ticks_since_boost = 0;
  current_slice = 0;
  boost_events = [];
  core = new_core h;
}

-- The queues one after the other, as the loops over the levels pass through them.
abbrev pub flatten : List (List ℕ) → List ℕ
flatten [] = []
flatten (q ∷ qs) = q ++ flatten qs

abbrev pub move_to : ℕ → Process → Process
move_to level x = record x { current_queue = level; allotment_used = 0 }

unfoldable pub move_all : List ℕ → Store → Store
move_all [] h = h
move_all (p ∷ ps) h = move_all ps (update h p (move_to 0))

-- Every queued process in queue 0, in the order of the levels.
unfoldable pub gather : List (List ℕ) → List (List ℕ)
gather [] = []
gather (q ∷ qs) = flatten (q ∷ qs) ∷ map (λ _. []) qs

unfoldable pub move_running : Option ℕ → Store → Store
move_running none h = h
move_running (some p) h = update h p (move_to 0)

-- Rule 5.
unfoldable pub boost : ℕ → MlfqScheduler → MlfqScheduler
boost now m =
    if leb m.boost_period m.ticks_since_boost
    then record m {
      boost_events = m.boost_events ++ now ∷ [];
      ticks_since_boost = 0;
      queues = gather m.queues;
      core = record m.core {
        store = move_running m.core.running (move_all (flatten m.queues) m.core.store);
      };
    }
    else m

-- `append(s.Queues[level], p)`.
unfoldable pub push_at : ℕ → ℕ → List (List ℕ) → List (List ℕ)
push_at level p [] = []
push_at zero p (q ∷ qs) = (q ++ p ∷ []) ∷ qs
push_at (suc level) p (q ∷ qs) = q ∷ push_at level p qs

-- Rule 3: the arrival loop over `allProcesses`, with the queues.
unfoldable pub enter : ℕ → List ℕ → Store → List (List ℕ) → Store × List (List ℕ)
enter now [] h queues = (h, queues)
enter now (p ∷ ps) h queues =
    let hit = arrives now (h p) in
    enter now ps (if hit then update h p (λ x. move_to 0 (record x { state = ready })) else h)
      (if hit then push_at 0 p queues else queues)

unfoldable pub admit_top : ℕ → MlfqScheduler → MlfqScheduler
admit_top now m =
    let (h, queues) = enter now m.core.all_processes m.core.store m.queues in
    record m { queues = queues; core = record m.core { store = wait_all (flatten queues) h } }

-- The running process goes to the back of the queue of its level.
unfoldable pub requeue : ℕ → (Process → Process) → MlfqScheduler → MlfqScheduler
requeue p f m =
    let h = update m.core.store p (λ x. record (f x) { state = ready }) in
    record m {
      queues = push_at (h p).current_queue p m.queues;
      current_slice = 0;
      core = record m.core { store = h; running = none };
    }

abbrev pub demoted : ℕ → Process → Process
demoted levels x =
    move_to (if ltb (x.current_queue + 1) levels then x.current_queue + 1 else x.current_queue) x

-- Rules 2 and 4.
unfoldable pub check_level : ℕ → QueueConfig → MlfqScheduler → MlfqScheduler
check_level p config m =
    if leb config.allotment (m.core.store p).allotment_used
    then requeue p (demoted (length m.queues)) m
    else if leb config.quantum m.current_slice
    then requeue p (λ x. x) m
    else m

-- A level without a configuration is an index out of range.
unfoldable pub check_config : MlfqScheduler → ℕ → Option QueueConfig → Outcome MlfqScheduler
check_config m p none = panics
check_config m p (some config) = returns (check_level p config m)

unfoldable pub check_running : MlfqScheduler → Option ℕ → Outcome MlfqScheduler
check_running m none = returns m
check_running m (some p) = check_config m p (get_elem? m.configs (m.core.store p).current_queue)

abbrev pub check_allotment : MlfqScheduler → Outcome MlfqScheduler
check_allotment m = check_running m m.core.running

-- The head of the first queue that is not empty, and the queues without it.
abbrev pub behind_empty : Option (ℕ × List (List ℕ)) → Option (ℕ × List (List ℕ))
behind_empty none = none
behind_empty (some (p, rest)) = some (p, [] ∷ rest)

unfoldable pub take_first : List (List ℕ) → Option (ℕ × List (List ℕ))
take_first [] = none
take_first ([] ∷ qs) = behind_empty (take_first qs)
take_first ((p ∷ ps) ∷ qs) = some (p, ps ∷ qs)

-- Rule 1, where the CPU is free.
unfoldable pub start_first : ℕ → MlfqScheduler → Option (ℕ × List (List ℕ)) → MlfqScheduler
start_first now m none = m
start_first now m (some (p, rest)) = record m {
  queues = rest;
  current_slice = 0;
  core = start now p [] m.core;
}

unfoldable pub dispatch_free : ℕ → MlfqScheduler → Option ℕ → MlfqScheduler
dispatch_free now m (some p) = m
dispatch_free now m none = start_first now m (take_first m.queues)

abbrev pub mlfq_dispatch : ℕ → MlfqScheduler → MlfqScheduler
mlfq_dispatch now m = dispatch_free now m m.core.running

abbrev pub use_allotment : Process → Process
use_allotment x = record x { allotment_used = x.allotment_used + 1 }

abbrev pub slice_after : ℕ → Option ℕ → ℕ
slice_after slice none = 0
slice_after slice (some q) = slice + 1

-- One tick of the running process. Its segment names its level as well.
unfoldable pub execute_level : (String → ℕ → String) → ℕ → ℕ → MlfqScheduler → MlfqScheduler
execute_level label now p m =
    let h = update m.core.store p use_allotment in
    let s = execute now (record m.core { store = h }) in
    record m {
      core = record s {
        gantt = m.core.gantt ++ segment (label (h p).name (h p).current_queue) now ∷ [];
      };
      current_slice = slice_after m.current_slice s.running;
    }

abbrev pub execute_running : (String → ℕ → String) → ℕ → MlfqScheduler → Option ℕ → MlfqScheduler
execute_running label now m none = record m { core = execute now m.core }
execute_running label now m (some p) = execute_level label now p m

abbrev pub mlfq_execute : (String → ℕ → String) → ℕ → MlfqScheduler → MlfqScheduler
mlfq_execute label now m = execute_running label now m m.core.running

abbrev pub clocked : ℕ → MlfqScheduler → MlfqScheduler
clocked now m = record m {
  ticks_since_boost = m.ticks_since_boost + 1;
  core = record m.core { total_time = now + 1 };
}

unfoldable pub mlfq_tick :
    (String → ℕ → String) → ℕ → MlfqScheduler → Outcome (MlfqScheduler × Option ℕ × Bool)
mlfq_tick label now m =
    map_outcome
      (λ k.
        let t = mlfq_execute label now (mlfq_dispatch now k) in
        (t, t.core.running, all_done t.core))
      (check_allotment (admit_top now (boost now (clocked now m))))
