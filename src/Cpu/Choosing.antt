-- ===== src/Cpu/Choosing.antt =====
-- The SJF, STCF and Lottery schedulers of pkg/cpu keep the time account of every process.
use os_simulator.Base.{
  Bool, Bool-cases, List, Option, Option-cases, [], ap, arith, count, if◌then◌else◌, inl, inr, none,
  refl, some, subst, suc, sym, ℕ, ◌++◌, ◌+◌, ◌==◌, ◌∙◌, ◌∷◌, ◌≡◌,
}
use os_simulator.Base.Sorting.{insert_by, sort_by}
use os_simulator.Cpu.Core.{Core, Store, admit}
use os_simulator.Cpu.Account.{Cell, IsAccounted, runs}
use os_simulator.Cpu.Admission.{admit-IsAccounted}
use os_simulator.Cpu.RoundRobin.{preempt, rr_execute}
use os_simulator.Cpu.Dispatching.{preempt-IsAccounted, start-IsAccounted}
use os_simulator.Cpu.Execution.{execute-IsAccounted}
use os_simulator.Cpu.Sjf.{
  by_burst, by_remaining, sjf_dispatch, sjf_tick, stcf_choose, stcf_dispatch, stcf_tick,
}
use os_simulator.Cpu.Lottery.Winners.{
  Winner, Wins, lottery_dispatch_at, lottery_idle, take_winner-Winner,
}
use os_simulator.Cpu.Lottery.{
  LotteryScheduler, lottery_dispatch, lottery_tick, total_tickets, winner_or_first,
}
use os_simulator.Cpu.Turnaround.{check_quantum-IsAccounted}

count_swap : (q x y : ℕ) (ys : List ℕ) → count q (x ∷ y ∷ ys) ≡ count q (y ∷ x ∷ ys)
count_swap q x y ys = ground arith

count-cons :
    (q x : ℕ) (xs ys : List ℕ) → count q xs ≡ count q ys → count q (x ∷ xs) ≡ count q (x ∷ ys)
count-cons q x xs ys h = ap (λ n. if x == q then suc n else n) h

count-insert_by :
    (less : ℕ → ℕ → Bool) (q x : ℕ) (ys : List ℕ) → count q (insert_by less x ys) ≡ count q (x ∷ ys)
unfolding insert_by
count-insert_by less q x [] = refl
count-insert_by less q x (y ∷ ys) = elim (Bool-cases (less y x)) [
  | inl e ↦
      rw (e, insert_by)
        (count-cons q y (insert_by less x ys) (x ∷ ys) (count-insert_by less q x ys)
          ∙ count_swap q y x ys)
  | inr e ↦ rw (e, insert_by) refl
]

pub count-sort_by :
    (less : ℕ → ℕ → Bool) (q : ℕ) (xs : List ℕ) → count q (sort_by less xs) ≡ count q xs
unfolding sort_by
count-sort_by less q [] = refl
count-sort_by less q (x ∷ xs) =
    count-insert_by less q x (sort_by less xs)
    ∙ count-cons q x (sort_by less xs) xs (count-sort_by less q xs)

-- Only how often a process stands in the queue matters.
pub requeued-IsAccounted :
    (a b : ℕ) (s : Core) (queue : List ℕ)
    → ((q : ℕ) → count q s.ready_queue ≡ count q queue)
    → IsAccounted a b s
    → IsAccounted a b (record s { ready_queue = queue })
requeued-IsAccounted a b s queue f v q =
    subst (λ k. Cell a b (s.store q) k (count q s.completed) (runs q s.running)) (f q) (v q)

sjf_dispatch_at :
    (a now : ℕ) (s : Core) (o : Option ℕ) (ps : List ℕ)
    → s.running ≡ o
    → sort_by (by_burst s.store) s.ready_queue ≡ ps
    → IsAccounted a a s
    → IsAccounted a a (sjf_dispatch now s)
unfolding sjf_dispatch
sjf_dispatch_at a now s (some p) ps e f v = rw (e, sjf_dispatch) v
sjf_dispatch_at a now s none [] e f v = rw (e, sjf_dispatch, f) v
sjf_dispatch_at a now s none (p ∷ ps) e f v =
    rw (e, sjf_dispatch, f)
      (start-IsAccounted a now p ps s e
        (λ q. sym (count-sort_by (by_burst s.store) q s.ready_queue) ∙ ap (count q) f) v)

pub sjf_tick-IsAccounted :
    (now : ℕ) (s : Core)
    → IsAccounted now (now + 1) s
    → IsAccounted (now + 1) (now + 1 + 1) (sjf_tick now s).0
unfolding sjf_tick
sjf_tick-IsAccounted now s v =
    execute-IsAccounted now _
      (sjf_dispatch_at (now + 1) now (admit now s) _ _ refl refl (admit-IsAccounted now s v))

preempt_running : (p : ℕ) (s : Core) → (preempt p s).running ≡ none
unfolding preempt
preempt_running p s = refl

preempt_queue : (p : ℕ) (s : Core) → (preempt p s).ready_queue ≡ s.ready_queue ++ p ∷ []
unfolding preempt
preempt_queue p s = refl

stcf_choose-IsAccounted :
    (a now p : ℕ) (ps : List ℕ) (s : Core)
    → s.ready_queue ≡ p ∷ ps
    → IsAccounted a a s
    → IsAccounted a a (stcf_choose now p ps s)
unfolding stcf_choose
stcf_choose-IsAccounted a now p ps s f v = elim (Option-cases s.running) [
  | inl e ↦ rw (e, stcf_choose) (start-IsAccounted a now p ps s e (λ q. ap (count q) f) v)
  | inr (r, e) ↦ elim (Bool-cases (by_remaining s.store p r)) [
    | inr g ↦ rw (e, stcf_choose, g) v
    | inl g ↦
        rw (e, stcf_choose, g)
          (start-IsAccounted a now p (ps ++ r ∷ []) (preempt r s) (preempt_running r s)
            (λ q. ap (count q) (preempt_queue r s ∙ ap (λ z. z ++ r ∷ []) f))
            (preempt-IsAccounted a r s e v))
  ]
]

stcf_dispatch_at :
    (a now : ℕ) (s : Core) (ps : List ℕ)
    → sort_by (by_remaining s.store) s.ready_queue ≡ ps
    → IsAccounted a a s
    → IsAccounted a a (stcf_dispatch now s)
unfolding stcf_dispatch
stcf_dispatch_at a now s [] f v = rw (stcf_dispatch, f) v
stcf_dispatch_at a now s (p ∷ ps) f v =
    rw (stcf_dispatch, f)
      (stcf_choose-IsAccounted a now p ps _ refl (
        requeued-IsAccounted a a s (p ∷ ps)
          (λ q. sym (count-sort_by (by_remaining s.store) q s.ready_queue) ∙ ap (count q) f) v))

pub stcf_tick-IsAccounted :
    (now : ℕ) (s : Core)
    → IsAccounted now (now + 1) s
    → IsAccounted (now + 1) (now + 1 + 1) (stcf_tick now s).0
unfolding stcf_tick
stcf_tick-IsAccounted now s v =
    execute-IsAccounted now _
      (stcf_dispatch_at (now + 1) now (admit now s) _ refl (admit-IsAccounted now s v))

count-middle : (q x : ℕ) (ys zs : List ℕ) → count q (ys ++ x ∷ zs) ≡ count q (x ∷ ys ++ zs)
count-middle q x [] zs = refl
count-middle q x (y ∷ ys) zs =
    count-cons q y (ys ++ x ∷ zs) (x ∷ ys ++ zs) (count-middle q x ys zs)
    ∙ count_swap q y x (ys ++ zs)

take_winner-count :
    (h : Store) (winning sum q : ℕ) (ps : List ℕ) (r : ℕ × List ℕ)
    → Wins h winning sum ps r
    → count q ps ≡ count q (r.0 ∷ r.1)
take_winner-count h winning sum q ps r w =
    ap (count q) w.whole
    ∙ count-middle q r.0 w.before w.behind
    ∙ count-cons q r.0 (w.before ++ w.behind) r.1 (ap (count q) (sym w.others))

-- The winner, or the head of the queue, and the others are the queue.
take-count :
    (h : Store) (winning q p : ℕ) (ps : List ℕ) (o : Option (ℕ × List ℕ))
    → Winner h winning 0 (p ∷ ps) o
    → let r = winner_or_first p ps o in count q (p ∷ ps) ≡ count q (r.0 ∷ r.1)
take-count h winning q p ps none w = refl
take-count h winning q p ps (some r) w = take_winner-count h winning 0 q (p ∷ ps) r w

lottery_dispatch_queue :
    (draw : ℕ → ℕ → ℕ) (a now : ℕ) (l : LotteryScheduler) (queue : List ℕ)
    → l.rr.core.running ≡ none
    → l.rr.core.ready_queue ≡ queue
    → IsAccounted a a l.rr.core
    → IsAccounted a a (lottery_dispatch draw now l).rr.core
unfolding lottery_dispatch
lottery_dispatch_queue draw a now l [] e f v = rw (lottery_dispatch, e, f) v
lottery_dispatch_queue draw a now l (p ∷ ps) e f v =
    let h = l.rr.core.store in
    let winning = draw l.drawn (total_tickets h (p ∷ ps)) in
    elim (Bool-cases (total_tickets h (p ∷ ps) == 0)) [
      | inl z ↦ subst (λ m. IsAccounted a a m.rr.core) (sym (lottery_idle draw now p ps l e f z)) v
      | inr z ↦
          subst (λ m. IsAccounted a a m.rr.core)
            (sym (lottery_dispatch_at draw now p ps l e f (ground (arith, z))))
            (start-IsAccounted a now _ _ l.rr.core e
              (λ q.
                ap (count q) f
                ∙ take-count h winning q p ps _
                    (take_winner-Winner h winning 0 (p ∷ ps) (omega arith)))
              v)
    ]

lottery_dispatch-IsAccounted :
    (draw : ℕ → ℕ → ℕ) (a now : ℕ) (l : LotteryScheduler)
    → IsAccounted a a l.rr.core
    → IsAccounted a a (lottery_dispatch draw now l).rr.core
unfolding lottery_dispatch
lottery_dispatch-IsAccounted draw a now l v = elim (Option-cases l.rr.core.running) [
  | inl e ↦ lottery_dispatch_queue draw a now l l.rr.core.ready_queue e refl v
  | inr (p, e) ↦ rw (lottery_dispatch, e) v
]

pub lottery_tick-IsAccounted :
    (draw : ℕ → ℕ → ℕ) (now : ℕ) (l : LotteryScheduler)
    → IsAccounted now (now + 1) l.rr.core
    → IsAccounted (now + 1) (now + 1 + 1) (lottery_tick draw now l).0.rr.core
unfolding lottery_tick rr_execute
lottery_tick-IsAccounted draw now l v = execute-IsAccounted now _ (
    lottery_dispatch-IsAccounted draw (now + 1) now _ (
      check_quantum-IsAccounted (now + 1) (record l.rr { core = admit now l.rr.core })
        (admit-IsAccounted now l.rr.core v)))
