-- ===== src/Memory/Buddy/Allocating.antt =====
-- pkg/memory/allocator.go: the block that the buddy allocator returns.
use os_simulator.Base.{
  Bool-cases, Option, arith, false, inl, inr, ltb, none, refl, some, subst, u64_mod, ℕ, ◌&&◌, ◌*◌,
  ◌+◌, ◌-◌, ◌<◌, ◌^◌, ◌||◌, ◌≡◌, ◌≤◌,
}
use os_simulator.Memory.FreeList.{out_of_memory}
use os_simulator.Memory.Buddy.{
  AllocResult, BuddyAllocator, BuddyNode, allocate, allocate_node, allocate_order, find_and_split,
  new_buddy_allocator,
}
use os_simulator.Memory.Buddy.Blocks.{IsBuddy, in_block, is_taken}
use os_simulator.Memory.Buddy.Orders.{IsFirstOrder, find_order-IsFirstOrder}
use os_simulator.Memory.Buddy.Searching.{find_and_split-Found}

-- A tree for the whole range of the allocator, which does not wrap.
pub record IsBuddyTree (ba : BuddyAllocator) : Type 0 where
  pub buddy : IsBuddy ba.base_addr ba.max_order ba.root
  pub bounded : ba.base_addr + 2 ^ ba.max_order ≤ u64_mod
  pub ordered : ba.min_order < 64

-- What an allocation of a size returns. On success it is a block whose order is the first one that is
-- large enough, at an address aligned to its size, inside the range of the allocator: its bytes
-- were free, they are taken now, and no other byte changes. Out of memory it changes nothing.
pub record Granted (size : ℕ) (ba : BuddyAllocator) (addr : ℕ) (after : BuddyAllocator)
    : Type 0 where
  pub order : ℕ
  pub smallest : IsFirstOrder ba.min_order size order
  pub step : ℕ
  pub aligned : addr ≡ ba.base_addr + step * 2 ^ order
  pub inside : addr + 2 ^ order ≤ ba.base_addr + 2 ^ ba.max_order
  pub fresh : (x : ℕ) → (in_block addr order x && is_taken ba.root x) ≡ false
  pub taken : (x : ℕ) → is_taken after.root x ≡ (is_taken ba.root x || in_block addr order x)
  pub still : IsBuddyTree after

abbrev pub Allocated : ℕ → BuddyAllocator → AllocResult → Type 0
Allocated size ba (inl addr, after) = Granted size ba addr after
Allocated size ba (inr e, after) = (e ≡ out_of_memory) × (after ≡ ba)

allocate_node-Allocated :
    (size order : ℕ) (ba : BuddyAllocator) (o : Option (ℕ × BuddyNode))
    → IsBuddyTree ba
    → IsFirstOrder ba.min_order size order
    → find_and_split order ba.root ≡ o
    → Allocated size ba (allocate_node o ba)
allocate_node-Allocated size order ba none v s e = (refl, refl)
allocate_node-Allocated size order ba (some r) v s e =
    let f = find_and_split-Found order ba.base_addr ba.max_order ba.root r v.bounded v.buddy e in
    record {
      order = order;
      smallest = s;
      step = f.step;
      aligned = f.aligned;
      inside = f.inside;
      fresh = f.fresh;
      taken = f.taken;
      still = record { buddy = f.buddy; bounded = v.bounded; ordered = v.ordered };
    }

allocate_order-Allocated :
    (size order : ℕ) (ba : BuddyAllocator)
    → IsBuddyTree ba
    → IsFirstOrder ba.min_order size order
    → Allocated size ba (allocate_order order ba)
unfolding allocate_order
allocate_order-Allocated size order ba v s = elim (Bool-cases (ltb ba.max_order order)) [
  | inl e ↦ rw (e, allocate_order) (refl, refl)
  | inr e ↦ rw (e, allocate_order) (allocate_node-Allocated size order ba _ v s refl)
]

last_order : (min : ℕ) → min < 64 → 63 ≡ min + (64 - min) - 1
last_order min h = omega arith

-- Let the tree of a buddy allocator be made of buddies, with its range inside the 64-bit addresses and a
-- least order below 64, and let a size of at most 2 ^ 63 be asked for. The call returns. It gives a
-- block of the first order that is large enough, aligned to its own size and inside the range, whose
-- bytes were all free and are all taken now, while no other byte changes and the tree is made of
-- buddies again; or it is out of memory and changes nothing.
pub allocate-Allocated :
    (size : ℕ) (ba : BuddyAllocator)
    → IsBuddyTree ba
    → size ≤ 2 ^ 63
    → (r : AllocResult) × (allocate size ba ≡ some r) × Allocated size ba r
unfolding allocate
allocate-Allocated size ba v h =
    let (order, e, s) =
      find_order-IsFirstOrder (64 - ba.min_order) ba.min_order size (omega (arith, v.ordered))
        (subst (λ n. size ≤ 2 ^ n) (last_order ba.min_order v.ordered) h) in
    (allocate_order order ba, rw (e, allocate) refl, allocate_order-Allocated size order ba v s)

pub new_buddy_allocator-IsBuddyTree :
    (base min max : ℕ)
    → base + 2 ^ max ≤ u64_mod
    → min < 64
    → IsBuddyTree (new_buddy_allocator base min max)
unfolding new_buddy_allocator
new_buddy_allocator-IsBuddyTree base min max h k = record {
  buddy = (refl, refl);
  bounded = h;
  ordered = k;
}
