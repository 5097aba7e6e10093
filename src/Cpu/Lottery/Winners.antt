-- ===== src/Cpu/Lottery/Winners.antt =====
-- Who wins a draw in pkg/cpu/sched_lottery.go.
use os_simulator.Base.{
  Bool-cases, List, Option, [], ap, arith, false, inl, inr, ltb, none, refl, some, true, ℕ, ◌++◌,
  ◌+◌, ◌<◌, ◌==◌, ◌∙◌, ◌∷◌, ◌≡◌, ◌≤◌,
}
use os_simulator.Cpu.Core.{Store, start}
use os_simulator.Cpu.Lottery.{
  LotteryScheduler, lottery_dispatch, take_winner, total_tickets, winner_or_first,
}

-- The tickets of a queue are numbered in its order. The winner is the process that holds the winning
-- number, and the others keep their order.
pub record Wins (h : Store) (winning sum : ℕ) (ps : List ℕ) (r : ℕ × List ℕ) : Type 0 where
  pub before : List ℕ
  pub behind : List ℕ
  pub whole : ps ≡ before ++ r.0 ∷ behind
  pub others : r.1 ≡ before ++ behind
  pub above : sum + total_tickets h before ≤ winning
  pub below : winning < sum + total_tickets h before + (h r.0).tickets

abbrev pub Winner : Store → ℕ → ℕ → List ℕ → Option (ℕ × List ℕ) → Type 0
Winner h winning sum ps none = sum + total_tickets h ps ≤ winning
Winner h winning sum ps (some r) = Wins h winning sum ps r

later-Winner :
    (h : Store) (winning sum p : ℕ) (ps : List ℕ) (o : Option (ℕ × List ℕ))
    → Winner h winning (sum + (h p).tickets) ps o
    → Winner h winning sum (p ∷ ps) (elim o [ none ↦ none | some (q, qs) ↦ some (q, p ∷ qs) ])
unfolding total_tickets
later-Winner h winning sum p ps none w = omega (arith, w)
later-Winner h winning sum p ps (some (q, qs)) w = record {
  before = p ∷ w.before;
  behind = w.behind;
  whole = ap (◌∷◌ p) w.whole;
  others = ap (◌∷◌ p) w.others;
  above = omega (arith, w.above);
  below = omega (arith, w.below);
}

pub take_winner-Winner :
    (h : Store) (winning sum : ℕ) (ps : List ℕ)
    → sum ≤ winning
    → Winner h winning sum ps (take_winner h winning sum ps)
unfolding take_winner total_tickets
take_winner-Winner h winning sum [] l = omega arith
take_winner-Winner h winning sum (p ∷ ps) l =
    elim (Bool-cases (ltb winning (sum + (h p).tickets))) [
      | inl e ↦
          rw (e, take_winner)
            (record {
              before = [];
              behind = ps;
              whole = refl;
              others = refl;
              above = omega arith;
              below = ground (arith, e);
            })
      | inr e ↦
          rw (e, take_winner)
            (later-Winner h winning sum p ps _
              (take_winner-Winner h winning (sum + (h p).tickets) ps (ground (arith, e))))
    ]

search_finds :
    (h : Store) (winning : ℕ) (ps : List ℕ) (o : Option (ℕ × List ℕ))
    → winning < total_tickets h ps
    → Winner h winning 0 ps o
    → (r : ℕ × List ℕ) × (o ≡ some r) × Wins h winning 0 ps r
search_finds h winning ps none l w = absurd (omega arith)
search_finds h winning ps (some r) l w = (r, refl, w)

nonzero : (n : ℕ) → 0 < n → (n == 0) ≡ false
nonzero n h = ground arith

-- With the queue and the winner given.
pub lottery_dispatch_at :
    (draw : ℕ → ℕ → ℕ) (now p : ℕ) (ps : List ℕ) (l : LotteryScheduler)
    → l.rr.core.running ≡ none
    → l.rr.core.ready_queue ≡ p ∷ ps
    → 0 < total_tickets l.rr.core.store (p ∷ ps)
    → let h = l.rr.core.store in
      let r =
        winner_or_first p ps (take_winner h (draw l.drawn (total_tickets h (p ∷ ps))) 0 (p ∷ ps)) in
      lottery_dispatch draw now l ≡ record {
        rr = record l.rr { core = start now r.0 r.1 l.rr.core; current_slice = 0 };
        drawn = l.drawn + 1;
      }
unfolding lottery_dispatch
lottery_dispatch_at draw now p ps l e f pos =
    simp (lottery_dispatch, e, f, nonzero (total_tickets l.rr.core.store (p ∷ ps)) pos) refl

pub lottery_idle :
    (draw : ℕ → ℕ → ℕ) (now p : ℕ) (ps : List ℕ) (l : LotteryScheduler)
    → l.rr.core.running ≡ none
    → l.rr.core.ready_queue ≡ p ∷ ps
    → (total_tickets l.rr.core.store (p ∷ ps) == 0) ≡ true
    → lottery_dispatch draw now l ≡ l
unfolding lottery_dispatch
lottery_idle draw now p ps l e f z = simp (lottery_dispatch, e, f, z) refl

lottery_winner_at :
    (draw : ℕ → ℕ → ℕ) (now : ℕ) (l : LotteryScheduler) (queue : List ℕ) (r : ℕ × List ℕ)
    → l.rr.core.running ≡ none
    → l.rr.core.ready_queue ≡ queue
    → let total = total_tickets l.rr.core.store queue in
      0 < total
      → take_winner l.rr.core.store (draw l.drawn total) 0 queue ≡ some r
      → lottery_dispatch draw now l ≡ record {
        rr = record l.rr { core = start now r.0 r.1 l.rr.core; current_slice = 0 };
        drawn = l.drawn + 1;
      }
unfolding total_tickets
lottery_winner_at draw now l [] r e f pos w = absurd (omega arith)
lottery_winner_at draw now l (p ∷ ps) r e f pos w =
    lottery_dispatch_at draw now p ps l e f pos
    ∙ ap
        (λ o.
          let c = winner_or_first p ps o in
          record {
            rr = record l.rr { core = start now c.0 c.1 l.rr.core; current_slice = 0 };
            drawn = l.drawn + 1;
          })
        w

-- Where the CPU is free and the queue has tickets, let the random source draw a number below their
-- total. Then the process that holds this number gets the CPU with a new slice, and the others stay
-- in the queue, in their order.
pub lottery_dispatch_winner :
    (draw : ℕ → ℕ → ℕ) (now : ℕ) (l : LotteryScheduler)
    → let s = l.rr.core in
      let total = total_tickets s.store s.ready_queue in
      s.running ≡ none
      → 0 < total
      → draw l.drawn total < total
      → (r : ℕ × List ℕ) × Wins s.store (draw l.drawn total) 0 s.ready_queue r
        × (lottery_dispatch draw now l ≡ record {
          rr = record l.rr { core = start now r.0 r.1 s; current_slice = 0 };
          drawn = l.drawn + 1;
        })
lottery_dispatch_winner draw now l e pos fair =
    let s = l.rr.core in
    let winning = draw l.drawn (total_tickets s.store s.ready_queue) in
    let (r, w, wins) =
      search_finds s.store winning s.ready_queue _ fair
        (take_winner-Winner s.store winning 0 s.ready_queue (omega arith)) in
    (r, wins, lottery_winner_at draw now l s.ready_queue r e refl pos w)
