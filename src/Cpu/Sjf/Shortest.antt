-- ===== src/Cpu/Sjf/Shortest.antt =====
-- Which process the schedulers of pkg/cpu/sched_sjf.go choose.
use os_simulator.Base.{
  Bool-cases, List, Option-cases, [], ap, arith, count, false, inl, inr, none, refl, some, some_inj,
  subst, sym, true, ℕ, ◌++◌, ◌∙◌, ◌∷◌, ◌≡◌, ◌≢◌, ◌⊎◌,
}
use os_simulator.Base.Sorting.{
  Head, IsFirstLeast, IsOrder, NoneLess, NoneLess-least, below_least-NoneLess, sort_by,
  sort_by-Head,
}
use os_simulator.Cpu.Core.{Core, Store, start}
use os_simulator.Cpu.Sjf.{by_burst, by_remaining, sjf_dispatch, stcf_choose, stcf_dispatch}
use os_simulator.Cpu.Choosing.{count-sort_by}

by_burst-IsOrder : (h : Store) → IsOrder (by_burst h)
by_burst-IsOrder h = record { trans = λ x y z a b. ground arith; asym = λ x y a. ground arith }

by_remaining-IsOrder : (h : Store) → IsOrder (by_remaining h)
by_remaining-IsOrder h = record { trans = λ x y z a b. ground arith; asym = λ x y a. ground arith }

sjf_starts :
    (now : ℕ) (s : Core) (ps : List ℕ)
    → s.running ≡ none
    → s.ready_queue ≢ []
    → sort_by (by_burst s.store) s.ready_queue ≡ ps
    → Head (by_burst s.store) s.ready_queue ps
    → (p : ℕ) × (rest : List ℕ) × IsFirstLeast (by_burst s.store) p s.ready_queue
      × (sort_by (by_burst s.store) s.ready_queue ≡ p ∷ rest)
      × (sjf_dispatch now s ≡ start now p rest s)
unfolding sjf_dispatch start
sjf_starts now s [] e busy f h = absurd (busy h)
sjf_starts now s (p ∷ ps) e busy f h = (p, ps, h, f, rw (sjf_dispatch, e, f) refl)

-- Where the CPU is free and the queue is not empty, the SJF scheduler starts a process with the least
-- burst time of the queue, and of those the one that stands first. The others stay in the queue, each
-- as often as before.
pub sjf_dispatch_shortest :
    (now : ℕ) (s : Core)
    → s.running ≡ none
    → s.ready_queue ≢ []
    → (p : ℕ) × (rest : List ℕ) × IsFirstLeast (by_burst s.store) p s.ready_queue
      × ((q : ℕ) → count q s.ready_queue ≡ count q (p ∷ rest))
      × (sjf_dispatch now s ≡ start now p rest s)
sjf_dispatch_shortest now s e busy =
    let (p, rest, least, f, d) =
      sjf_starts now s _ e busy refl
        (sort_by-Head (by_burst s.store) (by_burst-IsOrder s.store) s.ready_queue) in
    (
      p,
      rest,
      least,
      λ q. sym (count-sort_by (by_burst s.store) q s.ready_queue) ∙ ap (count q) f,
      d,
    )

-- The process has no more time remaining than any other of the queue and than the one that runs.
abbrev pub IsShortest : Core → ℕ → Type 0
IsShortest s p =
    NoneLess (by_remaining s.store) p s.ready_queue
    × ((r : ℕ) → s.running ≡ some r → by_remaining s.store r p ≡ false)

by_remaining_refl : (h : Store) (p : ℕ) → by_remaining h p p ≡ false
by_remaining_refl h p = ground arith

start_running : (now p : ℕ) (ps : List ℕ) (s : Core) → (start now p ps s).running ≡ some p
unfolding start
start_running now p ps s = refl

-- A process that may run next: it is shortest, and it takes the CPU from another one only if it has
-- less time remaining.
abbrev pub MayRun : Core → ℕ → Type 0
MayRun s p =
    IsShortest s p × ((r : ℕ) → s.running ≡ some r → (p ≡ r) ⊎ (by_remaining s.store p r ≡ true))

choose_running :
    (now p : ℕ) (ps : List ℕ) (s : Core)
    → IsFirstLeast (by_remaining s.store) p s.ready_queue
    → (c : ℕ) × ((stcf_choose now p ps (record s { ready_queue = p ∷ ps })).running ≡ some c)
      × MayRun s c
unfolding stcf_choose
choose_running now p ps s l =
    let order = by_remaining-IsOrder s.store in
    let refuses = λ (x : ℕ) (y : ℕ). by_remaining s.store x y ≡ false in
    let least =
      NoneLess-least (by_remaining s.store) order p s.ready_queue l (by_remaining_refl s.store p) in
    elim (Option-cases s.running) [
      | inl e ↦ (p, rw (stcf_choose, e) (start_running now p ps _), ((least, λ r f. cc), λ r f. cc))
      | inr (r, e) ↦ elim (Bool-cases (by_remaining s.store p r)) [
        | inl g ↦ (
          p,
          simp (stcf_choose, e, g) (start_running now p (ps ++ r ∷ []) _),
          (
            (least, λ k f. subst (λ z. refuses z p) (some_inj (sym e ∙ f)) (order.asym p r g)),
            λ k f. inr (subst (λ z. by_remaining s.store p z ≡ true) (some_inj (sym e ∙ f)) g),
          ),
        )
        | inr g ↦ (
          r,
          simp (stcf_choose, e, g) refl,
          (
            (
              below_least-NoneLess (by_remaining s.store) order r p s.ready_queue g l,
              λ k f. subst (λ z. refuses z r) (some_inj (sym e ∙ f)) (by_remaining_refl s.store r),
            ),
            λ k f. inl (some_inj (sym e ∙ f)),
          ),
        )
      ]
    ]

stcf_dispatch_runs :
    (now : ℕ) (s : Core) (ps : List ℕ)
    → s.ready_queue ≢ []
    → sort_by (by_remaining s.store) s.ready_queue ≡ ps
    → Head (by_remaining s.store) s.ready_queue ps
    → (p : ℕ) × ((stcf_dispatch now s).running ≡ some p) × MayRun s p
unfolding stcf_dispatch
stcf_dispatch_runs now s [] busy f h = absurd (busy h)
stcf_dispatch_runs now s (p ∷ ps) busy f h =
    let (c, e, m) = choose_running now p ps s h in (c, rw (stcf_dispatch, f) e, m)

-- Where the queue is not empty, the dispatch of the STCF scheduler leaves a process running that has
-- no more time remaining than any in the queue and than the one that ran, and the CPU changes hands
-- only to a process with strictly less.
pub stcf_dispatch_shortest :
    (now : ℕ) (s : Core)
    → s.ready_queue ≢ []
    → (p : ℕ) × ((stcf_dispatch now s).running ≡ some p) × MayRun s p
stcf_dispatch_shortest now s busy =
    stcf_dispatch_runs now s _ busy refl
      (sort_by-Head (by_remaining s.store) (by_remaining-IsOrder s.store) s.ready_queue)
