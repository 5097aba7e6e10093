-- ===== src/Memory/Buddy/Splitting.antt =====
-- pkg/memory/allocator.go: findAndSplit finds a free block of the order.
use os_simulator.Base.{
  ==_cases, ==_false, ==_true, Bool, Bool-cases, Option, Option-cases, ap, arith, false, inl, inr,
  ltb, none, refl, some, some_inj, subst, subst₂, suc, sym, true, u64, u64_mod, zero, ℕ, ◌&&◌, ◌*◌,
  ◌+◌, ◌^◌, ◌||◌, ◌∙◌, ◌≡◌, ◌≢◌, ◌≤◌,
}
use os_simulator.Memory.Buddy.{BuddyNode, fork, leaf, split_leaf}
use os_simulator.Memory.Buddy.Blocks.{IsBuddy, in_block, is_taken, pow_pos, two_pow}

-- In the block of an order at an address, whose bytes `old` were taken, a free block of the target
-- order was found and is taken now.
pub record Found (addr order target : ℕ) (old : ℕ → Bool) (r : ℕ × BuddyNode) : Type 0 where
  pub buddy : IsBuddy addr order r.1
  pub fits : target ≤ order
  pub step : ℕ
  pub aligned : r.0 ≡ addr + step * 2 ^ target
  pub inside : r.0 + 2 ^ target ≤ addr + 2 ^ order
  pub fresh : (x : ℕ) → (in_block r.0 target x && old x) ≡ false
  pub taken : (x : ℕ) → is_taken r.1 x ≡ (old x || in_block r.0 target x)

unfoldable pub nothing : ℕ → Bool
nothing x = false

pub none-some {ℓ} : {A : Type ℓ} {a : A} {o : Option A} → o ≡ none → o ≡ some a → ⊥
none-some e f = let g : none ≡ some _ = sym e ∙ f in cc

leaf-Found : (addr order : ℕ) → Found addr order order nothing (addr, leaf addr order true)
unfolding nothing
leaf-Found addr order = record {
  buddy = (refl, refl);
  fits = omega arith;
  step = 0;
  aligned = omega arith;
  inside = omega arith;
  fresh = λ x. ground arith;
  taken = λ x. refl;
}

u64_inside :
    (addr child : ℕ) → addr + 2 ^ suc child ≤ u64_mod → u64 (addr + 2 ^ child) ≡ addr + 2 ^ child
u64_inside addr child h = let k = pow_pos child in omega (arith, two_pow child)

split-Found :
    (addr child target : ℕ) (r : ℕ × BuddyNode)
    → addr + 2 ^ suc child ≤ u64_mod
    → Found addr child target nothing r
    → Found addr
        (suc child)
        target
        nothing
        (r.0, fork addr (suc child) false r.1 (leaf (u64 (addr + 2 ^ child)) child false))
unfolding nothing
split-Found addr child target r h f = record {
  buddy = (refl, refl, refl, f.buddy, (u64_inside addr child h, refl));
  fits = omega (arith, f.fits);
  step = f.step;
  aligned = f.aligned;
  inside = omega (arith, f.inside, two_pow child);
  fresh = f.fresh;
  taken = λ x. rw (f.taken x) (ground arith);
}

abbrev joined : ℕ → ℕ → ℕ × BuddyNode → ℕ × BuddyNode
joined addr child (found, node) =
    (found, fork addr (suc child) false node (leaf (u64 (addr + 2 ^ child)) child false))

abbrev join_left : ℕ → ℕ → Option (ℕ × BuddyNode) → Option (ℕ × BuddyNode)
join_left addr child none = none
join_left addr child (some r) = some (joined addr child r)

split_leaf_here :
    (target addr order : ℕ)
    → order ≡ target
    → split_leaf target addr order ≡ some (addr, leaf addr order true)
unfolding split_leaf
split_leaf_here target addr zero t = rw (==_true 0 target t) refl
split_leaf_here target addr (suc child) t = rw (==_true (suc child) target t) refl

split_leaf_below :
    (target addr child : ℕ)
    → suc child ≢ target
    → ltb target (suc child) ≡ true
    → split_leaf target addr (suc child) ≡ join_left addr child (split_leaf target addr child)
unfolding split_leaf
split_leaf_below target addr child t l = elim (Option-cases (split_leaf target addr child)) [
  | inl n ↦ rw (==_false (suc child) target t, l, n) refl
  | inr (q, n) ↦ rw (==_false (suc child) target t, l, n) refl
]

split_leaf_above :
    (target addr order : ℕ)
    → order ≢ target
    → ltb target order ≡ false
    → split_leaf target addr order ≡ none
unfolding split_leaf
split_leaf_above target addr zero t l = rw (==_false 0 target t) refl
split_leaf_above target addr (suc child) t l = rw (==_false (suc child) target t, l) refl

taken_here :
    (target addr order : ℕ) (r : ℕ × BuddyNode)
    → order ≡ target
    → split_leaf target addr order ≡ some r
    → Found addr order target nothing r
taken_here target addr order r t e =
    subst₂ (λ k q. Found addr order k nothing q) t
      (some_inj (sym (split_leaf_here target addr order t) ∙ e)) (leaf-Found addr order)

pub split_leaf-Found :
    (target addr order : ℕ) (r : ℕ × BuddyNode)
    → addr + 2 ^ order ≤ u64_mod
    → split_leaf target addr order ≡ some r
    → Found addr order target nothing r
split_leaf-Found target addr zero r h e = elim (==_cases 0 target) [
  | inl t ↦ taken_here target addr 0 r t.1 e
  | inr t ↦ absurd (none-some (split_leaf_above target addr 0 t.1 (ground arith)) e)
]
split_leaf-Found target addr (suc child) r h e = elim (==_cases (suc child) target) [
  | inl t ↦ taken_here target addr (suc child) r t.1 e
  | inr t ↦ elim (Bool-cases (ltb target (suc child))) [
    | inr l ↦ absurd (none-some (split_leaf_above target addr (suc child) t.1 l) e)
    | inl l ↦
        let g = sym (split_leaf_below target addr child t.1 l) ∙ e in
        elim (Option-cases (split_leaf target addr child)) [
          | inl n ↦ absurd (none-some (ap (join_left addr child) n) g)
          | inr (q, n) ↦
              subst (Found addr (suc child) target nothing)
                (some_inj (sym (ap (join_left addr child) n) ∙ g))
                (split-Found addr child target q h
                  (split_leaf-Found target addr child q (omega (arith, two_pow child)) n))
        ]
  ]
]
