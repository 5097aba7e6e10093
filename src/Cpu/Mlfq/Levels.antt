-- ===== src/Cpu/Mlfq/Levels.antt =====
-- pkg/cpu/sched_mlfq.go: the boost, the arrivals and the start keep the levels and allotments.
use os_simulator.Base.{
  Bool-cases, List, Option, [], arith, inl, inr, leb, none, some, ℕ, ◌<◌, ◌∷◌, ◌≡◌,
}
use os_simulator.Cpu.Process.{Process, ProcessState, blocked, new, ready, running, terminated}
use os_simulator.Cpu.Core.{Core, Store, arrives, is_unstarted, mark_started, start, wait_all}
use os_simulator.Cpu.Mlfq.{
  MlfqScheduler, QueueConfig, admit_top, boost, enter, flatten, move_all, move_running, move_to,
  requeue,
}
use os_simulator.Cpu.Mlfq.Spares.{AllFit, AllFit-update, Fits, IsConfigured, Spare, move_to-Fits}
use os_simulator.Cpu.Admission.{wait_all_at}

move_all-AllFit :
    (slack : ℕ) (cs : List QueueConfig) (ps : List ℕ) (h : Store)
    → IsConfigured cs
    → AllFit slack cs h
    → AllFit slack cs (move_all ps h)
unfolding move_all
move_all-AllFit slack cs [] h c v = v
move_all-AllFit slack cs (p ∷ ps) h c v =
    move_all-AllFit slack cs ps _ c
      (AllFit-update slack p cs h (move_to 0) (move_to-Fits slack 0 cs (h p) c c.some_level) v)

move_running-AllFit :
    (slack : ℕ) (cs : List QueueConfig) (o : Option ℕ) (h : Store)
    → IsConfigured cs
    → AllFit slack cs h
    → AllFit slack cs (move_running o h)
unfolding move_running
move_running-AllFit slack cs none h c v = v
move_running-AllFit slack cs (some p) h c v =
    AllFit-update slack p cs h (move_to 0) (move_to-Fits slack 0 cs (h p) c c.some_level) v

pub boost-AllFit :
    (slack now : ℕ) (m : MlfqScheduler)
    → IsConfigured m.configs
    → AllFit slack m.configs m.core.store
    → AllFit slack m.configs (boost now m).core.store
unfolding boost
boost-AllFit slack now m c v = elim (Bool-cases (leb m.boost_period m.ticks_since_boost)) [
  | inr e ↦ rw e v
  | inl e ↦ rw e (
      move_running-AllFit slack m.configs m.core.running _ c
        (move_all-AllFit slack m.configs (flatten m.queues) m.core.store c v))
]

enter-AllFit :
    (slack now : ℕ) (cs : List QueueConfig) (ps : List ℕ) (h : Store) (qs : List (List ℕ))
    → IsConfigured cs
    → AllFit slack cs h
    → AllFit slack cs (enter now ps h qs).0
unfolding enter
enter-AllFit slack now cs [] h qs c v = v
enter-AllFit slack now cs (p ∷ ps) h qs c v = elim (Bool-cases (arrives now (h p))) [
  | inr e ↦ rw (e, enter) (enter-AllFit slack now cs ps h qs c v)
  | inl e ↦
      rw (e, enter)
        (enter-AllFit slack now cs ps _ _ c (
          AllFit-update slack p cs h (λ x. move_to 0 (record x { state = ready }))
            (move_to-Fits slack 0 cs (record (h p) { state = ready }) c c.some_level) v))
]

wait_all-AllFit :
    (slack : ℕ) (cs : List QueueConfig) (ps : List ℕ) (h : Store)
    → AllFit slack cs h
    → AllFit slack cs (wait_all ps h)
wait_all-AllFit slack cs ps h v p =
    rw (wait_all_at ps h p)
      (record { config = (v p).config; found = (v p).found; spare = (v p).spare })

pub admit_top-AllFit :
    (slack now : ℕ) (m : MlfqScheduler)
    → IsConfigured m.configs
    → AllFit slack m.configs m.core.store
    → AllFit slack m.configs (admit_top now m).core.store
unfolding admit_top
admit_top-AllFit slack now m c v =
    wait_all-AllFit slack m.configs _ _
      (enter-AllFit slack now m.configs m.core.all_processes m.core.store m.queues c v)

pub requeue-AllFit :
    (slack p : ℕ) (f : Process → Process) (m : MlfqScheduler)
    → Fits slack m.configs (record (f (m.core.store p)) { state = ready })
    → AllFit slack m.configs m.core.store
    → AllFit slack m.configs (requeue p f m).core.store
unfolding requeue
requeue-AllFit slack p f m own v =
    AllFit-update slack p m.configs m.core.store (λ x. record (f x) { state = ready }) own v

started-Spare :
    (slack used allotment : ℕ) (st : ProcessState)
    → st ≡ ready
    → Spare slack st used allotment
    → used < allotment
started-Spare slack used allotment new e h = cc
started-Spare slack used allotment ready e h = h
started-Spare slack used allotment running e h = cc
started-Spare slack used allotment blocked e h = cc
started-Spare slack used allotment terminated e h = cc

mark_started-Fits :
    (slack now : ℕ) (cs : List QueueConfig) (x : Process)
    → x.state ≡ ready
    → Fits slack cs x
    → Fits slack cs (mark_started now x)
mark_started-Fits slack now cs x e v =
    let k = started-Spare slack x.allotment_used v.config.allotment x.state e v.spare in
    elim (Bool-cases (is_unstarted x.start_time)) [
      | inl u ↦ rw u (record { config = v.config; found = v.found; spare = omega arith })
      | inr u ↦ rw u (record { config = v.config; found = v.found; spare = omega arith })
    ]

pub start-AllFit :
    (slack now p : ℕ) (cs : List QueueConfig) (ps : List ℕ) (s : Core)
    → (s.store p).state ≡ ready
    → AllFit slack cs s.store
    → AllFit slack cs (start now p ps s).store
unfolding start
start-AllFit slack now p cs ps s e v =
    AllFit-update slack p cs s.store (mark_started now)
      (mark_started-Fits slack now cs (s.store p) e (v p)) v
