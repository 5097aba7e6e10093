-- ===== src/Memory/Buddy.antt =====
-- pkg/memory/allocator.go: the buddy allocator. A node has either both children or none. Allocate marks
-- the node that findAndSplit returns; here the search marks it. `none` of a search is its `nil`.
pub mod Blocks
pub mod Splitting
pub mod Orders
pub mod Searching
pub mod Allocating
mod Tests
use os_simulator.Base.{
  Bool, Option, false, if◌then◌else◌, inl, inr, ltb, none, some, suc, true, u64, zero, ℕ, ◌+◌, ◌-◌,
  ◌==◌, ◌^◌, ◌⊎◌,
}
use os_simulator.Memory.FreeList.{AllocError, out_of_memory}

pub data BuddyNode : Type 0 where
  leaf : ℕ → ℕ → Bool → BuddyNode
  fork : ℕ → ℕ → Bool → BuddyNode → BuddyNode → BuddyNode

pub record BuddyAllocator : Type 0 where
  pub base_addr : ℕ
  pub min_order : ℕ
  pub max_order : ℕ
  pub root : BuddyNode

unfoldable pub new_buddy_allocator : ℕ → ℕ → ℕ → BuddyAllocator
new_buddy_allocator base_addr min_order max_order = record {
  base_addr = base_addr;
  min_order = min_order;
  max_order = max_order;
  root = leaf base_addr max_order false;
}

-- A free leaf: it is taken, or split into two buddies of which the left one is searched.
unfoldable pub split_leaf : ℕ → ℕ → ℕ → Option (ℕ × BuddyNode)
split_leaf target addr zero = if 0 == target then some (addr, leaf addr 0 true) else none
split_leaf target addr (suc child) =
    let left = split_leaf target addr child in
    if suc child == target
    then some (addr, leaf addr (suc child) true)
    else if ltb target (suc child)
    then elim left [
      | none ↦ none
      | some (found, node) ↦
          some (found, fork addr (suc child) false node (leaf (u64 (addr + 2 ^ child)) child false))
    ]
    else none

-- The address of the node that is found, and the tree with that node allocated.
unfoldable pub find_and_split : ℕ → BuddyNode → Option (ℕ × BuddyNode)
find_and_split target (leaf addr order allocated) =
    if allocated then none else split_leaf target addr order
find_and_split target (fork addr order allocated left right) =
    let on_left = find_and_split target left in
    let on_right = find_and_split target right in
    if allocated then none else elim on_left [
      | some (found, node) ↦ some (found, fork addr order allocated node right)
      | none ↦ elim on_right [
        | some (found, node) ↦ some (found, fork addr order allocated left node)
        | none ↦ none
      ]
    ]

-- The loop for the order. `1 << order` is 0 from order 64 on, so that the loop has no end there:
-- `none`. The fuel is the number of the orders up to 63.
unfoldable pub find_order : ℕ → ℕ → ℕ → Option ℕ
find_order zero order size = none
find_order (suc fuel) order size =
    let next = find_order fuel (order + 1) size in if ltb (2 ^ order) size then next else some order

abbrev pub AllocResult : Type 0
AllocResult = (ℕ ⊎ AllocError) × BuddyAllocator

abbrev pub allocate_node : Option (ℕ × BuddyNode) → BuddyAllocator → AllocResult
allocate_node none ba = (inr out_of_memory, ba)
allocate_node (some (addr, node)) ba = (inl addr, record ba { root = node })

unfoldable pub allocate_order : ℕ → BuddyAllocator → AllocResult
allocate_order order ba =
    if ltb ba.max_order order
    then (inr out_of_memory, ba)
    else allocate_node (find_and_split order ba.root) ba

-- `none` where the call does not return.
unfoldable pub allocate : ℕ → BuddyAllocator → Option AllocResult
allocate size ba = elim (find_order (64 - ba.min_order) ba.min_order size) [
  | none ↦ none
  | some order ↦ some (allocate_order order ba)
]
