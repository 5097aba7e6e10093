-- ===== src/Cpu/Core.antt =====
-- What the schedulers of pkg/cpu have in common: the fields, the arrival loop, the waiting loop, the
-- start of a process and the execution of one tick, as in sched_fifo.go. A `*Process` is an
-- address in a store, so that the lists share the processes.
use os_simulator.Base.{
  Bool, List, Option, String, [], false, if◌then◌else◌, length, ltb, none, some, true, zero, ℕ,
  ◌&&◌, ◌++◌, ◌+◌, ◌==◌, ◌∷◌,
}
use os_simulator.Base.Int.{negsuc, pos, ℤ, ◌-ℤ◌}
use os_simulator.Cpu.Process.{running, Process, ProcessState, new, ready, terminated}

pub record GanttSegment : Type 0 where
  pub entity_id : String
  pub start_time : ℕ
  pub end_time : ℕ
  pub color : String

abbrev pub Store : Type 0
Store = ℕ → Process

pub record Core : Type 0 where
  pub store : Store
  pub all_processes : List ℕ
  pub ready_queue : List ℕ
  pub running : Option ℕ
  pub completed : List ℕ
  pub gantt : List GanttSegment
  pub context_switches : ℕ
  pub busy_time : ℕ
  pub total_time : ℕ

unfoldable pub new_core : Store → Core
new_core h = record {
  store = h;
  all_processes = [];
  ready_queue = [];
  running = none;
  completed = [];
  gantt = [];
  context_switches = 0;
  busy_time = 0;
  total_time = 0;
}

unfoldable pub add_process : Core → ℕ → Core
add_process s p = record s { all_processes = s.all_processes ++ p ∷ [] }

abbrev pub update : Store → ℕ → (Process → Process) → Store
update h p f q = if p == q then f (h q) else h q

-- A new process at the address p, added.
abbrev pub add_new_process : ℕ → Process → Core → Core
add_new_process p x s = add_process (record s { store = update s.store p (λ y. x) }) p

abbrev pub is_new : ProcessState → Bool
is_new new = true
is_new _ = false

abbrev pub arrives : ℕ → Process → Bool
arrives now x = x.arrival_time == now && is_new x.state

-- The arrival loop over `allProcesses`, with the ready queue.
unfoldable pub arrive : ℕ → List ℕ → Store → List ℕ → Store × List ℕ
arrive now [] h queue = (h, queue)
arrive now (p ∷ ps) h queue =
    let hit = arrives now (h p) in
    arrive now ps (if hit then update h p (λ x. record x { state = ready }) else h)
      (if hit then queue ++ p ∷ [] else queue)

-- The loop over the ready queue that counts waiting time.
unfoldable pub wait_all : List ℕ → Store → Store
wait_all [] h = h
wait_all (p ∷ ps) h = wait_all ps (update h p (λ x. record x { waiting_time = x.waiting_time + 1 }))

-- The beginning of each Tick.
unfoldable pub admit : ℕ → Core → Core
admit now s =
    let (h, queue) = arrive now s.all_processes s.store s.ready_queue in
    record s { total_time = now + 1; store = wait_all queue h; ready_queue = queue }

abbrev pub is_unstarted : ℤ → Bool
is_unstarted (negsuc zero) = true
is_unstarted _ = false

abbrev pub mark_started : ℕ → Process → Process
mark_started now x =
    let y = record x { state = running } in
    if is_unstarted x.start_time
    then record y { start_time = pos now; response_time = pos now -ℤ pos x.arrival_time }
    else y

-- Give the CPU to a process that has been taken off the ready queue.
unfoldable pub start : ℕ → ℕ → List ℕ → Core → Core
start now p queue s = record s {
  running = some p;
  ready_queue = queue;
  context_switches = s.context_switches + 1;
  store = update s.store p (mark_started now);
}

-- Where the CPU is free, start the first process of the ready queue.
unfoldable pub dispatch : ℕ → Core → Core
dispatch now s = elim s.running [
  | some p ↦ s
  | none ↦ elim s.ready_queue [ [] ↦ s | p ∷ ps ↦ start now p ps s ]
]

abbrev pub is_zero : ℤ → Bool
is_zero (pos zero) = true
is_zero _ = false

abbrev pub used_tick : Process → Process
used_tick x = record x { remaining_time = x.remaining_time -ℤ pos 1 }

abbrev pub mark_finished : ℕ → Process → Process
mark_finished now x = record x {
  state = terminated;
  finish_time = pos (now + 1);
  turnaround = pos (now + 1) -ℤ pos x.arrival_time;
}

abbrev pub segment : String → ℕ → GanttSegment
segment name now = record { entity_id = name; start_time = now; end_time = now + 1; color = "" }

-- One tick of the running process, which may finish.
unfoldable pub run_process : ℕ → ℕ → Core → Core
run_process now p s =
    let h = update s.store p used_tick in
    let t = record s {
      busy_time = s.busy_time + 1;
      store = h;
      gantt = s.gantt ++ segment (h p).name now ∷ [];
    } in
    if is_zero (h p).remaining_time
    then record t {
      store = update h p (mark_finished now);
      completed = s.completed ++ p ∷ [];
      running = none;
    }
    else t

unfoldable pub execute : ℕ → Core → Core
execute now s = elim s.running [
  | some p ↦ run_process now p s
  | none ↦ record s { gantt = s.gantt ++ segment "IDLE" now ∷ [] }
]

unfoldable pub all_done : Core → Bool
all_done s = length s.completed == length s.all_processes && ltb 0 (length s.all_processes)

abbrev pub add_processes : List ℕ → Core → Core
add_processes [] s = s
add_processes (p ∷ ps) s = add_processes ps (add_process s p)
