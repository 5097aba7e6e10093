-- ===== src/Concurrency/Banker/Safety.antt =====
-- The safety algorithm of pkg/concurrency/deadlock_banker.go against the definition of a safe state.
use os_simulator.Base.{
  All, Bool, Bool-cases, List, Option, Option-cases, [], ap, append-nil, append_assoc, arith, false,
  false≢true, get_elem?, if◌then◌else◌, inl, inr, length, length-append, length-replicate,
  length-set, ltb, none, refl, replicate, set, some, subst, suc, sym, true, zero, ℕ, ◌++◌, ◌+◌, ◌<◌,
  ◌∙◌, ◌∷◌, ◌≡◌, ◌⊎◌,
}
use os_simulator.Base.Int.{ℤ}
use os_simulator.Concurrency.Banker.{
  Banker, Claim, add_vec, can_execute, check_safe_state, find_runnable, safety_loop,
}
use os_simulator.Concurrency.Banker.Vectors.{IsNonneg}
use os_simulator.Concurrency.Banker.SafeOrder.{
  SafeFrom, SafeFrom-exchange, done, find_runnable-none, find_runnable-some, runs,
}

-- The number of processes that are not finished.
abbrev pub unfinished : List Bool → ℕ
unfinished [] = 0
unfinished (f ∷ fs) = (if f then 0 else 1) + unfinished fs

unfinished-zero : (fs : List Bool) → unfinished fs ≡ 0 → All (λ f. f ≡ true) fs
unfinished-zero [] h = tt
unfinished-zero (f ∷ fs) h = (ground arith, unfinished-zero fs (ground arith))

All-finished : (fs : List Bool) → All (λ f. f ≡ true) fs → unfinished fs ≡ 0
All-finished [] a = refl
All-finished (f ∷ fs) a = ground (arith, All-finished fs a.1)

unfinished-set :
    (fs : List Bool) (i : ℕ)
    → get_elem? fs i ≡ some false
    → unfinished (set fs i true) + 1 ≡ unfinished fs
unfinished-set [] i e = cc
unfinished-set (f ∷ fs) zero e = ground arith
unfinished-set (f ∷ fs) (suc i) e = omega (arith, unfinished-set fs i e)

abbrev IsSafetyResult : List Claim → List ℤ → List Bool → List ℕ → Option (Bool × List ℕ) → Type 0
IsSafetyResult cs work fs seq r =
    ((rest : List ℕ) × (r ≡ some (true, seq ++ rest)) × SafeFrom cs work fs rest)
    ⊎ ((r ≡ some (false, [])) × ((rest : List ℕ) → ¬ SafeFrom cs work fs rest))

-- With no process that can execute and one that is not finished, no order is safe.
stuck :
    (cs : List Claim) (work : List ℤ) (fs : List Bool) (rest : List ℕ)
    → find_runnable 0 work cs fs ≡ none
    → 0 < unfinished fs
    → ¬ SafeFrom cs work fs rest
stuck cs work fs rest h u (done a) = omega (arith, All-finished fs a)
stuck cs work fs rest h u (runs i c p q e s) =
    false≢true (sym (find_runnable-none 0 i work cs fs c h p q) ∙ e)

safety_loop_ends :
    (fuel : ℕ) (cs : List Claim) (work : List ℤ) (fs : List Bool) (seq : List ℕ)
    → ltb (length seq) (length cs) ≡ false
    → safety_loop (suc fuel) cs work fs seq ≡ some (true, seq)
unfolding safety_loop
safety_loop_ends fuel cs work fs seq h = ground arith

safety_loop_stuck :
    (fuel : ℕ) (cs : List Claim) (work : List ℤ) (fs : List Bool) (seq : List ℕ)
    → ltb (length seq) (length cs) ≡ true
    → find_runnable 0 work cs fs ≡ none
    → safety_loop (suc fuel) cs work fs seq ≡ some (false, [])
unfolding safety_loop
safety_loop_stuck fuel cs work fs seq h k = ground arith

safety_loop_steps :
    (fuel : ℕ) (cs : List Claim) (work : List ℤ) (fs : List Bool) (seq : List ℕ) (i : ℕ) (c : Claim)
    → ltb (length seq) (length cs) ≡ true
    → find_runnable 0 work cs fs ≡ some i
    → get_elem? cs i ≡ some c
    → safety_loop (suc fuel) cs work fs seq
      ≡ safety_loop fuel cs (add_vec work c.allocation) (set fs i true) (seq ++ i ∷ [])
unfolding safety_loop
safety_loop_steps fuel cs work fs seq i c h k e = ground arith

-- One round before a result.
IsSafetyResult-runs :
    {cs : List Claim} {work : List ℤ} {fs : List Bool} (seq : List ℕ) {r : Option (Bool × List ℕ)}
    (k : ℕ) (c : Claim)
    → All (λ d. IsNonneg d.allocation) cs
    → get_elem? cs k ≡ some c
    → get_elem? fs k ≡ some false
    → can_execute c.need work ≡ true
    → IsSafetyResult cs (add_vec work c.allocation) (set fs k true) (seq ++ k ∷ []) r
    → IsSafetyResult cs work fs seq r
IsSafetyResult-runs seq k c n at open_yet runnable (inl (rest, e, s)) = inl (
  k ∷ rest,
  e ∙ ap (λ x. some (true, x)) (append_assoc seq (k ∷ []) rest),
  runs k c at open_yet runnable s,
)
IsSafetyResult-runs seq k c n at open_yet runnable (inr (e, never)) =
    inr (e, λ rest s. let (rest', s') = SafeFrom-exchange s n k c at open_yet in never rest' s')

safety_loop-IsSafetyResult :
    (fuel : ℕ) (cs : List Claim) (work : List ℤ) (fs : List Bool) (seq : List ℕ)
    → All (λ c. IsNonneg c.allocation) cs
    → length fs ≡ length cs
    → length seq + unfinished fs ≡ length cs
    → unfinished fs < fuel
    → IsSafetyResult cs work fs seq (safety_loop fuel cs work fs seq)
safety_loop-IsSafetyResult zero cs work fs seq n l u lt = absurd (omega arith)
safety_loop-IsSafetyResult (suc fuel) cs work fs seq n l u lt =
    elim (Bool-cases (ltb (length seq) (length cs))) [
      | inr finished ↦ inl (
        [],
        safety_loop_ends fuel cs work fs seq finished
            ∙ ap (λ x. some (true, x)) (sym (append-nil seq)),
        done (unfinished-zero fs (ground arith)),
      )
      | inl more ↦ elim (Option-cases (find_runnable 0 work cs fs)) [
        | inl none_found ↦ inr (
          safety_loop_stuck fuel cs work fs seq more none_found,
          λ rest. stuck cs work fs rest none_found (ground arith),
        )
        | inr (j, found) ↦
            let (k, c, q, at, open_yet, runnable) = find_runnable-some 0 j work cs fs found in
            let e : j ≡ k = omega arith in
            let fewer = unfinished-set fs k open_yet in
            let later =
              safety_loop-IsSafetyResult fuel cs (add_vec work c.allocation) (set fs k true)
                (seq ++ k ∷ []) n (length-set fs k true ∙ l)
                (omega (arith, length-append {0} seq (k ∷ []), fewer)) (omega (arith, fewer)) in
            subst (IsSafetyResult cs work fs seq)
              (sym (safety_loop_steps fuel cs work fs seq k c more (found ∙ ap some e) at))
              (IsSafetyResult-runs seq k c n at open_yet runnable later)
      ]
    ]

unfinished-replicate : (n : ℕ) → unfinished (replicate n false) ≡ n
unfinished-replicate zero = refl
unfinished-replicate (suc n) = omega (arith, unfinished-replicate n)

-- Where no process holds a negative amount, the safety algorithm always ends within its rounds. It
-- answers either that the state is safe, with an order in which the processes can really run one
-- after the other, or that it is unsafe, and then no such order exists.
pub check_safe_state_decides :
    (b : Banker)
    → All (λ c. IsNonneg c.allocation) b.claims
    → let fs = replicate (length b.claims) false in
      ((seq : List ℕ) × (check_safe_state b ≡ some (true, seq))
        × SafeFrom b.claims b.available fs seq)
      ⊎ ((check_safe_state b ≡ some (false, []))
          × ((seq : List ℕ) → ¬ SafeFrom b.claims b.available fs seq))
unfolding check_safe_state
check_safe_state_decides b n =
    let m = length b.claims in
    safety_loop-IsSafetyResult (suc m) b.claims b.available (replicate m false) [] n
      (length-replicate m false) (omega (arith, unfinished-replicate m))
      (omega (arith, unfinished-replicate m))
