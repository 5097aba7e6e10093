-- ===== src/Kernel/Lifecycle/Zombies.antt =====
-- The search of `Wait` of pkg/kernel/process_lifecycle.go for a zombie, and zombies in a tree.
use os_simulator.Base.{
  ==_cases, Bool, List, Option, Option-cases, [], ap, arith, count, false, false≢true,
  if◌then◌else◌, inl, inr, none, refl, some, some_inj, suc, sym, true, ℕ, ◌<◌, ◌==◌, ◌∙◌, ◌∷◌, ◌≡◌,
  ◌≢◌, ◌⊎◌,
}
use os_simulator.Base.Int.{ℤ}
use os_simulator.Kernel.Lifecycle.{
  Processes, UnixProcess, delete_process, find_zombie, is_zombie, zombie_code,
}
use os_simulator.Kernel.Lifecycle.Tree.{IsVital}

-- Either no child is a zombie, or the search finds one and the list of the other children.
pub none_or_zombie :
    (m : Processes) (cs : List ℕ)
    → ((find_zombie m cs ≡ none) × ((d : ℕ) → 0 < count d cs → zombie_code (m d) ≡ none))
      ⊎ ((c : ℕ) × (code : ℤ) × (rest : List ℕ) × (find_zombie m cs ≡ some (c, code, rest))
          × (zombie_code (m c) ≡ some code)
          × (0 < count c cs)
          × ((d : ℕ) → count d cs ≡ (if c == d then suc (count d rest) else count d rest)))
unfolding find_zombie
none_or_zombie m [] = inl (refl, λ d h. absurd (omega arith))
none_or_zombie m (c ∷ cs) = elim (Option-cases (zombie_code (m c))) [
  | inr (code, z) ↦ inr (c, code, cs, rw (z, find_zombie) refl, z, ground arith, λ d. refl)
  | inl living ↦ elim (none_or_zombie m cs) [
    | inl (e, all) ↦ inl (rw (living, find_zombie, e) refl, every c cs living all)
    | inr (z, code, rest, e, is_z, inside, counts) ↦ inr (
      z,
      code,
      c ∷ rest,
      rw (living, find_zombie, e) refl,
      is_z,
      ground (arith, inside),
      λ d. ground (arith, counts d),
    )
  ]
]
  where
    every :
        (c : ℕ) (cs : List ℕ)
        → zombie_code (m c) ≡ none
        → ((d : ℕ) → 0 < count d cs → zombie_code (m d) ≡ none)
        → (d : ℕ) → 0 < count d (c ∷ cs)
        → zombie_code (m d) ≡ none
    every c cs living all d h = elim (==_cases c d) [
      | inl (_, e) ↦ ap (λ x. zombie_code (m x)) (sym e) ∙ living
      | inr (b, _) ↦ all d (ground (arith, h, b))
    ]

coded : (b : Bool) (x code : ℤ) → (if b then some x else none) ≡ some code → (b ≡ true) × (x ≡ code)
coded true x code h = (refl, some_inj h)
coded false x code h = cc

pub zombie_code_found :
    (o : Option UnixProcess) (code : ℤ)
    → zombie_code o ≡ some code
    → (k : UnixProcess) × (o ≡ some k) × (is_zombie k.state ≡ true) × (k.exit_code ≡ code)
zombie_code_found none code h = cc
zombie_code_found (some k) code h =
    let (z, e) = coded (is_zombie k.state) k.exit_code code h in (k, refl, z, e)

-- A zombie in a tree has no children.
pub zombie_childless : (k : UnixProcess) → IsVital k → is_zombie k.state ≡ true → k.children ≡ []
zombie_childless k (inl (_, _, e)) z = e
zombie_childless k (inr (_, _, lives)) z = absurd (false≢true (sym lives ∙ z))

pub delete_finds :
    (i c : ℕ) (k : UnixProcess) (m : Processes)
    → delete_process i m c ≡ some k
    → (c ≢ i) × (m c ≡ some k)
delete_finds i c k m h = elim (==_cases c i) [
  | inl (b, e) ↦ let e0 : none ≡ some k = sym (deleted_here b) ∙ h in cc
  | inr (b, ne) ↦ (ne, sym (deleted_there b) ∙ h)
]
  where
    deleted_here : (c == i) ≡ true → delete_process i m c ≡ none
    deleted_here b = rw b refl

    deleted_there : (c == i) ≡ false → delete_process i m c ≡ m c
    deleted_there b = rw b refl
