-- ===== src/Concurrency/Banker/SafeOrder.antt =====
-- What a safe order of the processes is, and when one process may go first
-- (pkg/concurrency/deadlock_banker.go).
use os_simulator.Base.{
  All, All-get_elem?, Bool, Bool-cases, List, [], ap, arith, false, get_elem?, get_elem?-set_ne,
  inl, inr, none, not, refl, set, set-set_swap, some, some_inj, subst₂, suc, sym, true, zero, ℕ,
  ℕ_discrete, ◌&&◌, ◌+◌, ◌∙◌, ◌∷◌, ◌≡◌,
}
use os_simulator.Base.Int.{ℤ}
use os_simulator.Concurrency.Banker.{Claim, add_vec, can_execute, find_runnable}
use os_simulator.Concurrency.Banker.Vectors.{
  IsNonneg, add_vec-mono, add_vec_swap, can_execute_mono, ≤ᵛ-add_vec, ◌≤ᵛ◌,
}

-- The processes that are not finished can run one after the other in the order of the list: each
-- finds its need covered by the units free by then, and gives back all that it holds.
pub data SafeFrom (cs : List Claim) : List ℤ → List Bool → List ℕ → Type 0 where
  done : {work : List ℤ} {fs : List Bool} → All (λ f. f ≡ true) fs → SafeFrom cs work fs []
  runs :
      {work : List ℤ} {fs : List Bool} {seq : List ℕ} (i : ℕ) (c : Claim)
      → get_elem? cs i ≡ some c
      → get_elem? fs i ≡ some false
      → can_execute c.need work ≡ true
      → SafeFrom cs (add_vec work c.allocation) (set fs i true) seq
      → SafeFrom cs work fs (i ∷ seq)

-- A process that the loop finds is not finished and can execute.
pub find_runnable-some :
    (i j : ℕ) (work : List ℤ) (cs : List Claim) (fs : List Bool)
    → find_runnable i work cs fs ≡ some j
    → (k : ℕ) × (c : Claim) × (j ≡ i + k)
      × (get_elem? cs k ≡ some c)
      × (get_elem? fs k ≡ some false)
      × (can_execute c.need work ≡ true)
unfolding find_runnable
find_runnable-some i j work [] fs h = cc
find_runnable-some i j work (c ∷ cs) [] h = cc
find_runnable-some i j work (c ∷ cs) (f ∷ fs) h =
    elim (Bool-cases (not f && can_execute c.need work)) [
      | inl hit ↦ (0, c, ground arith, refl, ground arith, ground arith)
      | inr miss ↦
          let (k, d, p, q, r, s) = find_runnable-some (suc i) j work cs fs (ground arith) in
          (suc k, d, omega arith, q, r, s)
    ]

-- Where the loop finds none, no unfinished process can execute.
pub find_runnable-none :
    (i k : ℕ) (work : List ℤ) (cs : List Claim) (fs : List Bool) (c : Claim)
    → find_runnable i work cs fs ≡ none
    → get_elem? cs k ≡ some c
    → get_elem? fs k ≡ some false
    → can_execute c.need work ≡ false
unfolding find_runnable
find_runnable-none i k work [] fs c h p q = cc
find_runnable-none i k work (d ∷ cs) [] c h p q = cc
find_runnable-none i zero work (d ∷ cs) (f ∷ fs) c h p q = ground arith
find_runnable-none i (suc k) work (d ∷ cs) (f ∷ fs) c h p q =
    find_runnable-none (suc i) k work cs fs c (ground arith) p q

-- More units do no harm.
SafeFrom-mono :
    {cs : List Claim} {fs : List Bool} {seq : List ℕ} {vs : List ℤ}
    → SafeFrom cs vs fs seq
    → (ws : List ℤ) → vs ≤ᵛ ws
    → SafeFrom cs ws fs seq
SafeFrom-mono (done a) ws h = done a
SafeFrom-mono {vs} (runs i c p q e s) ws h =
    runs i c p q (can_execute_mono c.need vs ws h e)
      (SafeFrom-mono s (add_vec ws c.allocation) (add_vec-mono vs ws c.allocation h))

not-All_finished :
    (fs : List Bool) (i : ℕ) → All (λ f. f ≡ true) fs → get_elem? fs i ≡ some false → ⊥
not-All_finished [] i a e = cc
not-All_finished (f ∷ fs) zero a e = ground (arith, a.0)
not-All_finished (f ∷ fs) (suc i) a e = not-All_finished fs i a.1 e

-- An unfinished process may run before all the others, once it can execute.
pub SafeFrom-exchange :
    {cs : List Claim} {fs : List Bool} {seq : List ℕ} {vs : List ℤ}
    → SafeFrom cs vs fs seq
    → All (λ c. IsNonneg c.allocation) cs
    → (i : ℕ) (c : Claim) → get_elem? cs i ≡ some c
    → get_elem? fs i ≡ some false
    → (seq' : List ℕ) × SafeFrom cs (add_vec vs c.allocation) (set fs i true) seq'
SafeFrom-exchange {fs} (done a) n i c p q = absurd (not-All_finished fs i a q)
SafeFrom-exchange {cs} {fs} {seq} {vs} (runs {seq = rest} j d p' q' e s) n i c p q =
    elim (ℕ_discrete i j) [
      | yes same ↦
          let e' : d ≡ c = some_inj (sym p' ∙ ap (get_elem? cs) (sym same) ∙ p) in
          (rest, rw (same, ← e') s)
      | no ne ↦
          let q'' = get_elem?-set_ne fs j i true (λ h. ne (sym h)) ∙ q in
          let (seq', s') = SafeFrom-exchange s n i c p q'' in
          let more = ≤ᵛ-add_vec vs c.allocation (All-get_elem? _ cs i c n p) in
          (
            j ∷ seq',
            runs j d p' (get_elem?-set_ne fs i j true ne ∙ q')
                (can_execute_mono d.need vs (add_vec vs c.allocation) more e)
                (subst₂ (λ w f. SafeFrom cs w f seq') (add_vec_swap vs d.allocation c.allocation)
                  (set-set_swap fs j i true) s'),
          )
    ]
