-- ===== src/Memory/FreeList/Choice.antt =====
-- Which block `Malloc` of pkg/memory/allocator.go chooses.
use os_simulator.Base.{
  All, Bool, Bool-cases, List, Option-cases, [], ap, arith, false, get_elem?, inl, inr, ltb, none,
  refl, some, suc, sym, true, ℕ, ◌+◌, ◌∙◌, ◌∷◌, ◌≡◌, ◌≤◌, ◌⊎◌,
}
use os_simulator.Memory.FreeList.{Block, best_fit, choose, first_fit, fits}

-- A block that a request fits, at an index counted from `i`.
abbrev FitsAt : ℕ → ℕ → ℕ → List Block → Type 0
FitsAt n i j bs =
    (k : ℕ) × (b : Block) × (j ≡ i + k) × (get_elem? bs k ≡ some b) × (fits n b ≡ true)

FitsAt-cons :
    (n i j : ℕ) (b : Block) (bs : List Block) → FitsAt n (suc i) j bs → FitsAt n i j (b ∷ bs)
FitsAt-cons n i j b bs (k, c, p, q, r) = (suc k, c, omega arith, q, r)

first_fit-some : (n i j : ℕ) (bs : List Block) → first_fit n i bs ≡ some j → FitsAt n i j bs
unfolding first_fit
first_fit-some n i j [] h = cc
first_fit-some n i j (b ∷ bs) h = elim (Bool-cases (fits n b)) [
  | inl fit ↦ (0, b, ground arith, refl, fit)
  | inr no_fit ↦ FitsAt-cons n i j b bs (first_fit-some n (suc i) j bs (ground arith))
]

first_fit-none :
    (n i : ℕ) (bs : List Block) → first_fit n i bs ≡ none → All (λ b. fits n b ≡ false) bs
unfolding first_fit
first_fit-none n i [] h = tt
first_fit-none n i (b ∷ bs) h = (ground arith, first_fit-none n (suc i) bs (ground arith))

-- The size of the best block so far bounds the blocks that fit.
abbrev IsBest : ℕ → ℕ → List Block → Type 0
IsBest n best = All (λ b. fits n b ≡ true → best ≤ b.size)

-- A block that fits, of a given size, at an index counted from `i`.
abbrev SizedAt : ℕ → ℕ → ℕ → ℕ → List Block → Type 0
SizedAt n i j best bs =
    (k : ℕ) × (b : Block) × (j ≡ i + k)
    × (get_elem? bs k ≡ some b)
    × (fits n b ≡ true)
    × (b.size ≡ best)

SizedAt-cons :
    (n i j best : ℕ) (b : Block) (bs : List Block)
    → SizedAt n (suc i) j best bs
    → SizedAt n i j best (b ∷ bs)
SizedAt-cons n i j best b bs (k, c, p, q, r, z) = (suc k, c, omega arith, q, r, z)

SizedAt-head :
    (n i j best : ℕ) (b : Block) (bs : List Block)
    → fits n b ≡ true
    → ((j ≡ i) × (best ≡ b.size)) ⊎ SizedAt n (suc i) j best bs
    → SizedAt n i j best (b ∷ bs)
SizedAt-head n i j best b bs f (inl (p, q)) = (0, b, omega arith, refl, f, sym q)
SizedAt-head n i j best b bs f (inr o) = SizedAt-cons n i j best b bs o

-- From a chosen block on, the loop ends with that block or with a smaller one that fits.
best_fit_from :
    (n i c size : ℕ) (bs : List Block)
    → (j : ℕ) × (best : ℕ) × (best_fit n i (some (c, size)) bs ≡ some (j, best))
      × (best ≤ size)
      × IsBest n best bs
      × (((j ≡ c) × (best ≡ size)) ⊎ SizedAt n i j best bs)
unfolding best_fit
best_fit_from n i c size [] = (c, size, refl, omega arith, tt, inl (refl, refl))
best_fit_from n i c size (b ∷ bs) = elim (Bool-cases (fits n b)) [
  | inl fit ↦ elim (Bool-cases (ltb b.size size)) [
    | inl smaller ↦
        let (j, best, p, q, r, o) = best_fit_from n (suc i) i b.size bs in
        (
          j,
          best,
          rw (fit, smaller) p,
          ground arith,
          ((λ _. q), r),
          inr (SizedAt-head n i j best b bs fit o),
        )
    | inr larger ↦
        let (j, best, p, q, r, o) = best_fit_from n (suc i) c size bs in
        (j, best, rw (fit, larger) p, q, ((λ f. ground arith), r), later j best o)
  ]
  | inr no_fit ↦
      let (j, best, p, q, r, o) = best_fit_from n (suc i) c size bs in
      (j, best, rw no_fit p, q, ((λ f. ground arith), r), later j best o)
]
  where
    later :
        (j best : ℕ)
        → ((j ≡ c) × (best ≡ size)) ⊎ SizedAt n (suc i) j best bs
        → ((j ≡ c) × (best ≡ size)) ⊎ SizedAt n i j best (b ∷ bs)
    later j best (inl e) = inl e
    later j best (inr o) = inr (SizedAt-cons n i j best b bs o)

-- The whole best-fit search: nothing fits, or the choice is a smallest block that fits.
best_fit_cases :
    (n i : ℕ) (bs : List Block)
    → ((best_fit n i none bs ≡ none) × All (λ b. fits n b ≡ false) bs)
      ⊎ ((j : ℕ) × (best : ℕ) × (best_fit n i none bs ≡ some (j, best))
          × IsBest n best bs
          × SizedAt n i j best bs)
unfolding best_fit
best_fit_cases n i [] = inl (refl, tt)
best_fit_cases n i (b ∷ bs) = elim (Bool-cases (fits n b)) [
  | inl fit ↦
      let (j, best, p, q, r, o) = best_fit_from n (suc i) i b.size bs in
      inr (j, best, rw fit p, ((λ _. q), r), SizedAt-head n i j best b bs fit o)
  | inr no_fit ↦ elim (best_fit_cases n (suc i) bs) [
    | inl (p, a) ↦ inl (rw no_fit p, (no_fit, a))
    | inr (j, best, p, r, o) ↦
        inr (j, best, rw no_fit p, ((λ f. ground arith), r), SizedAt-cons n i j best b bs o)
  ]
]

-- Either strategy finds a block whenever one fits; best fit finds a smallest one.
pub choose_cases :
    (n : ℕ) (best : Bool) (bs : List Block)
    → ((choose n best bs ≡ none) × All (λ b. fits n b ≡ false) bs)
      ⊎ ((k : ℕ) × (b : Block) × (choose n best bs ≡ some k)
          × (get_elem? bs k ≡ some b)
          × (fits n b ≡ true)
          × (best ≡ true → All (λ c. fits n c ≡ true → b.size ≤ c.size) bs))
unfolding choose
choose_cases n true bs = elim (best_fit_cases n 0 bs) [
  | inl (p, a) ↦ inl (rw p, a)
  | inr (j, size, p, r, (k, b, q, e, f, z)) ↦
      inr (k, b, rw p (ap some (omega arith)), e, f, λ _. rw z r)
]
choose_cases n false bs = elim (Option-cases (first_fit n 0 bs)) [
  | inl p ↦ inl (p, first_fit-none n 0 bs p)
  | inr (j, p) ↦
      let (k, b, q, e, f) = first_fit-some n 0 j bs p in
      inr (k, b, p ∙ ap some (omega arith), e, f, λ h. cc)
]
