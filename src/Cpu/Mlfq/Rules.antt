-- ===== src/Cpu/Mlfq/Rules.antt =====
-- pkg/cpu/sched_mlfq.go: which process the dispatch chooses.
use os_simulator.Base.{
  List, Option-cases, [], ap, arith, get_elem?, inl, inr, none, refl, set, some, some_inj, subst₂,
  suc, sym, zero, ℕ, ◌<◌, ◌∙◌, ◌∷◌, ◌≡◌, ◌⊎◌,
}
use os_simulator.Cpu.Core.{start}
use os_simulator.Cpu.Mlfq.{
  MlfqScheduler, behind_empty, flatten, mlfq_dispatch, start_first, take_first,
}
use os_simulator.Cpu.Mlfq.Steps.{dispatch_none, dispatch_run}

-- The process p is the head of a queue, the queues of the higher levels are empty, and it is taken.
pub record IsFirst (qs : List (List ℕ)) (p : ℕ) (rest : List (List ℕ)) : Type 0 where
  pub level : ℕ
  pub others : List ℕ
  pub found : get_elem? qs level ≡ some (p ∷ others)
  pub above : (l : ℕ) → l < level → get_elem? qs l ≡ some []
  pub left : rest ≡ set qs level others

lower-IsFirst :
    (qs : List (List ℕ)) (p : ℕ) (rest : List (List ℕ))
    → IsFirst qs p rest
    → IsFirst ([] ∷ qs) p ([] ∷ rest)
lower-IsFirst qs p rest f = record {
  level = suc f.level;
  others = f.others;
  found = f.found;
  above = below-empty f.above;
  left = ap (◌∷◌ []) f.left;
}
  where
    below-empty :
        {n : ℕ}
        → ((l : ℕ) → l < n → get_elem? qs l ≡ some [])
        → (l : ℕ) → l < suc n
        → get_elem? {A = List ℕ} ([] ∷ qs) l ≡ some []
    below-empty g zero h = refl
    below-empty g (suc l) h = g l (omega arith)

pub take_first-IsFirst :
    (qs : List (List ℕ)) (p : ℕ) (rest : List (List ℕ))
    → take_first qs ≡ some (p, rest)
    → IsFirst qs p rest
unfolding take_first
take_first-IsFirst [] p rest e = cc
take_first-IsFirst ([] ∷ qs) p rest e = elim (Option-cases (take_first qs)) [
  | inl f ↦ let g : none ≡ some (p, rest) = sym (ap behind_empty f) ∙ e in cc
  | inr ((q, r), f) ↦
      let g : (q, [] ∷ r) ≡ (p, rest) = some_inj (sym (ap behind_empty f) ∙ e) in
      let v = lower-IsFirst qs q r (take_first-IsFirst qs q r f) in
      subst₂ (IsFirst ([] ∷ qs)) (ap (λ x. x.0) g) (ap (λ x. x.1) g) v
]
take_first-IsFirst ((q ∷ ps) ∷ qs) p rest e =
    let g : (q, ps ∷ qs) ≡ (p, rest) = some_inj e in
    record {
      level = 0;
      others = ps;
      found = ap (λ x. some (x.0 ∷ ps)) g;
      above = λ l h. absurd (omega arith);
      left = sym (ap (λ x. x.1) g);
    }

flatten-take_first : (qs : List (List ℕ)) → take_first qs ≡ none → flatten qs ≡ []
unfolding take_first
flatten-take_first [] e = refl
flatten-take_first ([] ∷ qs) e = elim (Option-cases (take_first qs)) [
  | inl f ↦ flatten-take_first qs f
  | inr ((q, r), f) ↦ let g : some (q, [] ∷ r) ≡ none = sym (ap behind_empty f) ∙ e in cc
]
flatten-take_first ((q ∷ ps) ∷ qs) e = cc

-- When the CPU is free, the dispatch of MLFQ either starts the head of a queue, with a new slice, where
-- every queue of a higher level is empty and the queues lose only that head, or all queues are empty
-- and it changes nothing.
pub mlfq_dispatch-IsFirst :
    (now : ℕ) (m : MlfqScheduler)
    → m.core.running ≡ none
    → ((p : ℕ) × (rest : List (List ℕ)) × IsFirst m.queues p rest
        × (mlfq_dispatch now m
            ≡ record m { queues = rest; current_slice = 0; core = start now p [] m.core }))
      ⊎ ((flatten m.queues ≡ []) × (mlfq_dispatch now m ≡ m))
unfolding start_first
mlfq_dispatch-IsFirst now m e = elim (Option-cases (take_first m.queues)) [
  | inl f ↦ inr (flatten-take_first m.queues f, dispatch_none now m e f)
  | inr ((p, rest), f) ↦
      inl (p, rest, take_first-IsFirst m.queues p rest f, dispatch_run now p rest m e f)
]
