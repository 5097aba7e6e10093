-- ===== src/Cpu/Tests.antt =====
-- Runs of the schedulers of pkg/cpu, and their theorems at two processes.
use os_simulator.Base.{
  Bool-cases, List, [], arith, count, if◌then◌else◌, inl, inr, refl, some, ℕ, ◌%◌, ◌++◌, ◌==◌, ◌∷◌,
  ◌≡◌, ◌⊎◌,
}
use os_simulator.Base.Int.{◌-ℤ◌}
use os_simulator.Cpu.Process.{new_process}
use os_simulator.Cpu.Core.{
  Core, Store, add_process, add_processes, admit, arrive, dispatch, execute, new_core, run_process,
  start, wait_all,
}
use os_simulator.Cpu.Account.{IsSettled}
use os_simulator.Cpu.Fifo.{run, tick}
use os_simulator.Cpu.Fifo.Order.{is_newcomer, order, tick-order, to_nat}
use os_simulator.Cpu.RoundRobin.{
  check_quantum, new_rr, preempt, rr_dispatch, rr_execute, rr_loaded, rr_run, rr_tick,
}
use os_simulator.Cpu.RoundRobin.Slices.{rr_tick-expired}
use os_simulator.Cpu.Sjf.{by_burst, sjf_dispatch, stcf_choose, stcf_dispatch, stcf_tick}
use os_simulator.Cpu.Sjf.Shortest.{MayRun, sjf_dispatch_shortest, stcf_dispatch_shortest}
use os_simulator.Cpu.Lottery.{LotteryScheduler, lottery_dispatch, take_winner, total_tickets}
use os_simulator.Cpu.Lottery.Winners.{Wins, lottery_dispatch_winner}
use os_simulator.Cpu.Scheduler.{run_scheduler, run_scheduler-IsSettled, stcf}
use os_simulator.Base.Sorting.{IsFirstLeast, insert_by, sort_by}
use os_simulator.Cpu.Turnaround.{AreFresh}

-- Process 1 arrives at 0 with a burst of 3 ticks, every other at 1 with 2 ticks.
abbrev two : Store
two p = if p == 1 then new_process 1 "P1" 0 3 else new_process p "P2" 1 2

two-AreFresh : AreFresh two
unfolding new_process
two-AreFresh p = elim (Bool-cases (p == 1)) [
  | inl e ↦ rw e (refl, record { remains = refl; unfinished = omega arith; unwaited = refl })
  | inr e ↦ rw e (refl, record { remains = refl; unfinished = omega arith; unwaited = refl })
]

abbrev both : List ℕ
both = 1 ∷ 2 ∷ []

fifo_finishes : (run 5 (add_processes both (new_core two))).completed ≡ 1 ∷ 2 ∷ []
unfolding run tick admit arrive wait_all dispatch start execute run_process new_core add_process
    new_process ◌-ℤ◌
fifo_finishes = refl

rr_finishes : (rr_run 5 (rr_loaded 2 two both)).core.completed ≡ 2 ∷ 1 ∷ []
unfolding rr_run rr_tick admit arrive wait_all check_quantum preempt rr_dispatch rr_execute dispatch
    start execute run_process new_core new_rr add_process new_process ◌-ℤ◌
rr_finishes = refl

tick-order_example :
    (ns : List ℕ) × (order (tick 1 (run 1 (add_processes both (new_core two)))).0
      ≡ order (run 1 (add_processes both (new_core two))) ++ ns)
    × ((p : ℕ)
        → count p ns
          ≡ to_nat (
              is_newcomer 1
                (run 1 (add_processes both (new_core two))).all_processes
                (run 1 (add_processes both (new_core two))).store
                p))
tick-order_example = tick-order 1 (run 1 (add_processes both (new_core two)))

-- At time 2 process 1 has used its two ticks and process 2 waits.
rr_tick-expired_example :
    let t = (rr_tick 2 (rr_run 2 (rr_loaded 2 two both))).0.core in
    (t.ready_queue ≡ [] ++ 1 ∷ [])
    × ((t.running ≡ some 2)
        ⊎ (t.completed ≡ (rr_run 2 (rr_loaded 2 two both)).core.completed ++ 2 ∷ []))
unfolding rr_run rr_tick admit arrive wait_all check_quantum preempt rr_dispatch rr_execute dispatch
    start execute run_process new_core new_rr add_process new_process ◌-ℤ◌
rr_tick-expired_example =
    rr_tick-expired 2 1 2 [] (rr_run 2 (rr_loaded 2 two both)) refl (omega arith) refl

-- Both processes wait; process 2 has the shorter burst.
abbrev waiting : Core
waiting = record (new_core two) { ready_queue = both; all_processes = both }

sjf_dispatch_shortest_example :
    (p : ℕ) × (rest : List ℕ) × IsFirstLeast (by_burst waiting.store) p waiting.ready_queue
    × ((q : ℕ) → count q waiting.ready_queue ≡ count q (p ∷ rest))
    × (sjf_dispatch 1 waiting ≡ start 1 p rest waiting)
unfolding new_core
sjf_dispatch_shortest_example = sjf_dispatch_shortest 1 waiting refl (cc)

sjf_runs : (sjf_dispatch 1 waiting).running ≡ some 2
unfolding sjf_dispatch new_core sort_by insert_by start new_process
sjf_runs = refl

stcf_dispatch_shortest_example :
    (p : ℕ) × ((stcf_dispatch 1 waiting).running ≡ some p) × MayRun waiting p
stcf_dispatch_shortest_example = stcf_dispatch_shortest 1 waiting (cc)

-- Each process has 10 tickets; the number 13 is the second one's.
abbrev thirteen : ℕ → ℕ → ℕ
thirteen k bound = 13 % bound

abbrev drawing : LotteryScheduler
drawing = record { rr = record { quantum = 2; current_slice = 0; core = waiting }; drawn = 0 }

drawing_winner : (lottery_dispatch thirteen 1 drawing).rr.core.running ≡ some 2
unfolding lottery_dispatch new_core total_tickets take_winner start new_process
drawing_winner = refl

lottery_dispatch_winner_example :
    let total = total_tickets two both in
    (r : ℕ × List ℕ) × Wins two (thirteen 0 total) 0 both r
    × (lottery_dispatch thirteen 1 drawing ≡ record {
      rr = record drawing.rr { core = start 1 r.0 r.1 waiting; current_slice = 0 };
      drawn = 1;
    })
unfolding new_core total_tickets new_process
lottery_dispatch_winner_example =
    lottery_dispatch_winner thirteen 1 drawing refl (omega arith) (omega arith)

run_scheduler-IsSettled_example :
    let s = run_scheduler stcf 5 (add_processes both (new_core two)) in
    (count 1 s.completed ≡ 1) × IsSettled (s.store 1)
unfolding run_scheduler stcf_tick admit arrive wait_all stcf_dispatch stcf_choose sort_by insert_by
    preempt start execute run_process new_core add_process new_process ◌-ℤ◌
run_scheduler-IsSettled_example =
    run_scheduler-IsSettled stcf (add_processes both (new_core two)) two both 5 1 refl two-AreFresh
      (omega arith)
