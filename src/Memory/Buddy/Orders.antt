-- ===== src/Memory/Buddy/Orders.antt =====
-- pkg/memory/allocator.go: the loop for the order of a buddy block.
use os_simulator.Base.{
  Bool-cases, arith, inl, inr, ltb, ltb→lt, refl, some, subst, suc, zero, ℕ, ◌+◌, ◌-◌, ◌<◌, ◌^◌,
  ◌≡◌, ◌≤◌, ◌⊎◌,
}
use os_simulator.Memory.Buddy.{find_order}

-- The first order from the start on at which a block is large enough.
pub record IsFirstOrder (start size order : ℕ) : Type 0 where
  pub from : start ≤ order
  pub large : size ≤ 2 ^ order
  pub least : (start ≡ order) ⊎ (2 ^ (order - 1) < size)

later-IsFirstOrder :
    (start size order : ℕ)
    → 2 ^ start < size
    → IsFirstOrder (start + 1) size order
    → IsFirstOrder start size order
later-IsFirstOrder start size order h f = record {
  from = omega (arith, f.from);
  large = f.large;
  least = elim f.least [
    | inl e ↦ inr (subst (λ k. 2 ^ k < size) (omega (arith, e)) h)
    | inr l ↦ inr l
  ];
}

one_less : (n : ℕ) → n + 1 - 1 ≡ n
one_less n = omega arith

next_order : (start fuel : ℕ) → start + suc fuel - 1 ≡ start + 1 + fuel - 1
next_order start fuel = omega arith

more_fuel : (fuel start size : ℕ) → size ≤ 2 ^ (start + suc fuel - 1) → 2 ^ start < size → 0 < fuel
more_fuel zero start size k h =
    let l = subst (λ n. size ≤ 2 ^ n) (one_less start) k in absurd (omega arith)
more_fuel (suc fuel) start size k h = omega arith

-- With fuel up to an order that is large enough the loop ends.
pub find_order-IsFirstOrder :
    (fuel start size : ℕ)
    → 0 < fuel
    → size ≤ 2 ^ (start + fuel - 1)
    → (order : ℕ) × (find_order fuel start size ≡ some order) × IsFirstOrder start size order
unfolding find_order
find_order-IsFirstOrder zero start size h k = elim h [ ]
find_order-IsFirstOrder (suc fuel) start size h k = elim (Bool-cases (ltb (2 ^ start) size)) [
  | inr e ↦ (
    start,
    rw (e, find_order) refl,
    record { from = omega arith; large = ground arith; least = inl refl },
  )
  | inl e ↦
      let (order, g, f) =
        find_order-IsFirstOrder fuel (start + 1) size (more_fuel fuel start size k (ltb→lt _ _ e))
          (subst (λ n. size ≤ 2 ^ n) (next_order start fuel) k) in
      (order, rw (e, find_order) g, later-IsFirstOrder start size order (ltb→lt _ _ e) f)
]
