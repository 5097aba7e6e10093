-- ===== src/Memory/Buddy/Searching.antt =====
-- pkg/memory/allocator.go: the search through the buddy tree.
use native.Mathlib.Nat.{add-mul}
use os_simulator.Base.{
  ==_cases, Bool, Option, Option-cases, ap, ap₂, arith, false, inl, inr, none, refl, some, some_inj,
  subst, suc, sym, true, u64_mod, zero, ℕ, ◌&&◌, ◌*◌, ◌+◌, ◌^◌, ◌||◌, ◌∙◌, ◌≡◌, ◌≤◌, ◌⊎◌,
}
use os_simulator.Memory.Buddy.{BuddyNode, find_and_split, fork, leaf, split_leaf}
use os_simulator.Memory.Buddy.Blocks.{IsBuddy, in_block, is_taken, outside-is_taken, two_pow}
use os_simulator.Memory.Buddy.Splitting.{Found, none-some, nothing, split_leaf-Found}

-- What the search does in a fork that is not allocated.
abbrev searched :
    ℕ
    → ℕ
    → BuddyNode
    → BuddyNode
    → Option (ℕ × BuddyNode)
    → Option (ℕ × BuddyNode)
    → Option (ℕ × BuddyNode)
searched addr order left right (some (found, node)) o =
    some (found, fork addr order false node right)
searched addr order left right none (some (found, node)) =
    some (found, fork addr order false left node)
searched addr order left right none none = none

find_fork :
    (target addr order : ℕ) (left right : BuddyNode)
    → find_and_split target (fork addr order false left right)
      ≡ searched addr order left right (find_and_split target left) (find_and_split target right)
unfolding find_and_split
find_fork target addr order left right = elim (Option-cases (find_and_split target left)) [
  | inr (q, e) ↦ rw (e, find_and_split) refl
  | inl e ↦ elim (Option-cases (find_and_split target right)) [
    | inr (q, f) ↦ rw (e, f, find_and_split) refl
    | inl f ↦ rw (e, f, find_and_split) refl
  ]
]

apart :
    (b k c o x : ℕ)
    → (b + 2 ^ k ≤ c) ⊎ (c + 2 ^ o ≤ b)
    → in_block b k x ≡ true
    → in_block c o x ≡ false
apart b k c o x h e = ground arith

and_or : (t l r : Bool) → (t && l) ≡ false → (t ≡ true → r ≡ false) → (t && (l || r)) ≡ false
and_or false l r h f = refl
and_or true l r h f = rw (h, f refl) refl

or_comm : (a b : Bool) → (a || b) ≡ (b || a)
or_comm a b = ground arith

or_right : (a b c : Bool) → ((a || b) || c) ≡ ((a || c) || b)
or_right a b c = ground arith

or_assoc : (a b c : Bool) → (a || (b || c)) ≡ ((a || b) || c)
or_assoc a b c = ground arith

left-Found :
    (addr child target : ℕ) (left right : BuddyNode) (r : ℕ × BuddyNode)
    → IsBuddy (addr + 2 ^ child) child right
    → Found addr child target (is_taken left) r
    → Found addr
        (suc child)
        target
        (is_taken (fork addr (suc child) false left right))
        (r.0, fork addr (suc child) false r.1 right)
left-Found addr child target left right r v f = record {
  buddy = (refl, refl, refl, f.buddy, v);
  fits = omega (arith, f.fits);
  step = f.step;
  aligned = f.aligned;
  inside = omega (arith, f.inside, two_pow child);
  fresh = λ x. and_or _ _ _ (f.fresh x) (λ e.
      outside-is_taken right (addr + 2 ^ child) child x v
        (apart r.0 target _ child x (inl f.inside) e));
  taken = λ x. rw (f.taken x) (or_right (is_taken left x) _ (is_taken right x));
}

-- A block is a whole number of smaller blocks.
pow_split : (child target : ℕ) → target ≤ child → (k : ℕ) × (2 ^ child ≡ k * 2 ^ target)
pow_split zero target h = (1, rw (target_zero h) refl)
  where
    target_zero : target ≤ 0 → target ≡ 0
    target_zero k = omega arith
pow_split (suc child) target h = elim (==_cases (suc child) target) [
  | inl t ↦ (1, subst (λ n. 2 ^ suc child ≡ 1 * 2 ^ n) t.1 (omega arith))
  | inr t ↦
      let (k, e) = pow_split child target (omega (arith, t.1)) in
      (k + k, rw (add-mul k k (2 ^ target)) (omega (arith, two_pow child, e)))
]

half_steps :
    (addr child target k step found : ℕ)
    → 2 ^ child ≡ k * 2 ^ target
    → found ≡ addr + 2 ^ child + step * 2 ^ target
    → found ≡ addr + (k + step) * 2 ^ target
half_steps addr child target k step found h e =
    rw (add-mul k step (2 ^ target)) (omega (arith, e, h))

right-Found :
    (addr child target : ℕ) (left right : BuddyNode) (r : ℕ × BuddyNode)
    → IsBuddy addr child left
    → Found (addr + 2 ^ child) child target (is_taken right) r
    → Found addr
        (suc child)
        target
        (is_taken (fork addr (suc child) false left right))
        (r.0, fork addr (suc child) false left r.1)
right-Found addr child target left right r v f =
    let (k, p) = pow_split child target f.fits in
    record {
      buddy = (refl, refl, refl, v, f.buddy);
      fits = omega (arith, f.fits);
      step = k + f.step;
      aligned = half_steps addr child target k f.step r.0 p f.aligned;
      inside = omega (arith, f.inside, two_pow child);
      fresh = λ x.
          ap (λ b. in_block r.0 target x && b) (or_comm (is_taken left x) (is_taken right x))
          ∙ and_or _ _ _ (f.fresh x) (λ e.
            outside-is_taken left addr child x v
              (apart r.0 target addr child x (inr (omega (arith, f.aligned))) e));
      taken = λ x. rw (f.taken x) (or_assoc (is_taken left x) (is_taken right x) _);
    }

fork-Found :
    (addr child target : ℕ) (left right : BuddyNode) (r : ℕ × BuddyNode)
    → IsBuddy addr child left
    → IsBuddy (addr + 2 ^ child) child right
    → ((q : ℕ × BuddyNode)
        → find_and_split target left ≡ some q
        → Found addr child target (is_taken left) q)
    → ((q : ℕ × BuddyNode)
        → find_and_split target right ≡ some q
        → Found (addr + 2 ^ child) child target (is_taken right) q)
    → find_and_split target (fork addr (suc child) false left right) ≡ some r
    → Found addr (suc child) target (is_taken (fork addr (suc child) false left right)) r
fork-Found addr child target left right r v w on_left on_right e =
    let g = sym (find_fork target addr (suc child) left right) ∙ e in
    let pick = searched addr (suc child) left right in
    elim (Option-cases (find_and_split target left)) [
      | inr (q, f) ↦
          subst (Found addr (suc child) target (is_taken (fork addr (suc child) false left right)))
            (some_inj (sym (ap (λ o. pick o (find_and_split target right)) f) ∙ g))
            (left-Found addr child target left right q w (on_left q f))
      | inl f ↦ elim (Option-cases (find_and_split target right)) [
        | inr (q, h) ↦
            subst
              (Found addr (suc child) target (is_taken (fork addr (suc child) false left right)))
              (some_inj (sym (ap₂ pick f h) ∙ g))
              (right-Found addr child target left right q v (on_right q h))
        | inl h ↦ absurd (none-some (ap₂ pick f h) g)
      ]
    ]

-- The whole search.
pub find_and_split-Found :
    (target addr order : ℕ) (node : BuddyNode) (r : ℕ × BuddyNode)
    → addr + 2 ^ order ≤ u64_mod
    → IsBuddy addr order node
    → find_and_split target node ≡ some r
    → Found addr order target (is_taken node) r
unfolding find_and_split nothing
find_and_split-Found target addr order (leaf a o true) r h v e = absurd (none-some refl e)
find_and_split-Found target addr order (leaf a o false) r h v e =
    split_leaf-Found target addr order r h (ap₂ (split_leaf target) (sym v.0) (sym v.1) ∙ e)
find_and_split-Found target addr zero (fork a o allocated left right) r h v e = absurd v
find_and_split-Found target addr (suc child) (fork a o allocated left right) r h v e =
    fork-Found addr child target left right r v.3 v.4
      (λ q. find_and_split-Found target addr child left q (omega (arith, two_pow child)) v.3)
      (λ q.
        find_and_split-Found target (addr + 2 ^ child) child right q (omega (arith, two_pow child))
          v.4)
      (ap (λ c. find_and_split target (fork c (suc child) false left right)) (sym v.0)
        ∙ ap (λ c. find_and_split target (fork a c false left right)) (sym v.1)
        ∙ ap (λ c. find_and_split target (fork a o c left right)) (sym v.2)
        ∙ e)
