-- ===== src/Memory/Buddy/Tests.antt =====
-- pkg/memory/allocator.go: allocations from 64 bytes with blocks of at least 8.
use os_simulator.Base.{Option, arith, inl, none, refl, some, ℕ, ◌≡◌}
use os_simulator.Memory.Buddy.{
  AllocResult, BuddyAllocator, allocate, allocate_order, find_and_split, find_order,
  new_buddy_allocator, split_leaf,
}
use os_simulator.Memory.Buddy.Allocating.{
  Allocated, allocate-Allocated, new_buddy_allocator-IsBuddyTree,
}

abbrev fresh : BuddyAllocator
fresh = new_buddy_allocator 4096 3 6

allocate-Allocated_example : (r : AllocResult) × (allocate 12 fresh ≡ some r) × Allocated 12 fresh r
allocate-Allocated_example =
    allocate-Allocated 12 fresh
      (new_buddy_allocator-IsBuddyTree 4096 3 6 (omega arith) (omega arith)) (omega arith)

abbrev given : Option AllocResult → ℕ
given (some (inl addr, ba)) = addr
given r = 0

abbrev behind : Option AllocResult → BuddyAllocator
behind (some (r, ba)) = ba
behind none = fresh

-- A second block of 16 bytes is the buddy of the first.
second_block : given (allocate 9 (behind (allocate 12 fresh))) ≡ 4112
unfolding allocate allocate_order find_order find_and_split split_leaf new_buddy_allocator
second_block = refl

-- No order is large enough for more than 2 ^ 63 bytes.
endless_size : allocate 9223372036854775809 fresh ≡ none
unfolding allocate allocate_order find_order new_buddy_allocator
endless_size = refl
