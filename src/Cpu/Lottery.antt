-- ===== src/Cpu/Lottery.antt =====
-- pkg/cpu/sched_lottery.go. Its fields are those of the Round Robin scheduler and the random source,
-- which is a parameter: `draw k n` is the result of the k-th call of Intn, with bound n.
pub mod Winners
use os_simulator.Base.{Bool, List, Option, [], if◌then◌else◌, ltb, none, some, ℕ, ◌+◌, ◌==◌, ◌∷◌}
use os_simulator.Cpu.Core.{Store, admit, all_done, start}
use os_simulator.Cpu.RoundRobin.{RrScheduler, check_quantum, new_rr, rr_execute}

pub record LotteryScheduler : Type 0 where
  pub rr : RrScheduler
  pub drawn : ℕ

unfoldable pub new_lottery : ℕ → Store → LotteryScheduler
new_lottery quantum h = record { rr = new_rr quantum h; drawn = 0 }

unfoldable pub total_tickets : Store → List ℕ → ℕ
total_tickets h [] = 0
total_tickets h (p ∷ ps) = (h p).tickets + total_tickets h ps

-- The first process at which the running sum exceeds the winning ticket, and the queue without it.
unfoldable pub take_winner : Store → ℕ → ℕ → List ℕ → Option (ℕ × List ℕ)
take_winner h winning sum [] = none
take_winner h winning sum (p ∷ ps) =
    let sum' = sum + (h p).tickets in
    let rest = take_winner h winning sum' ps in
    if ltb winning sum'
    then some (p, ps)
    else elim rest [ none ↦ none | some (q, qs) ↦ some (q, p ∷ qs) ]

-- Without such a process the index stays 0.
abbrev pub winner_or_first : ℕ → List ℕ → Option (ℕ × List ℕ) → ℕ × List ℕ
winner_or_first p ps none = (p, ps)
winner_or_first p ps (some r) = r

module _ (draw : ℕ → ℕ → ℕ) where
  unfoldable pub lottery_dispatch : ℕ → LotteryScheduler → LotteryScheduler
  lottery_dispatch now l = elim l.rr.core.running [
    | some p ↦ l
    | none ↦ elim l.rr.core.ready_queue [
      | [] ↦ l
      | p ∷ ps ↦
          let h = l.rr.core.store in
          let total = total_tickets h (p ∷ ps) in
          if total == 0
          then l
          else let winner = winner_or_first p ps (take_winner h (draw l.drawn total) 0 (p ∷ ps)) in
            record {
              rr = record l.rr { core = start now winner.0 winner.1 l.rr.core; current_slice = 0 };
              drawn = l.drawn + 1;
            }
    ]
  ]

  unfoldable pub lottery_tick : ℕ → LotteryScheduler → LotteryScheduler × Option ℕ × Bool
  lottery_tick now l =
      let admitted = record l.rr { core = admit now l.rr.core } in
      let m = lottery_dispatch now (record l { rr = check_quantum admitted }) in
      let t = record m { rr = rr_execute now m.rr } in (t, t.rr.core.running, all_done t.rr.core)
