-- ===== src/Memory/FreeList.antt =====
-- pkg/memory/allocator.go: the free-list allocator. The doubly linked list of block headers is a
-- list, and `Prev` is the element before.
pub mod Heap
pub mod Choice
pub mod Carving
pub mod Malloc
pub mod Merging
pub mod Free
pub mod RoundTrip
pub mod History
mod Tests
use os_simulator.Base.{
  Bool, List, Option, [], false, get_elem?, if◌then◌else◌, leb, ltb, none, not, some, sub64, suc,
  true, u64, zero, ℕ, ◌&&◌, ◌+◌, ◌-◌, ◌==◌, ◌∷◌,
}

-- BlockHeader.
pub record Block : Type 0 where
  pub addr : ℕ
  pub size : ℕ
  pub is_allocated : Bool

pub record Allocator : Type 0 where
  pub heap_start : ℕ
  pub total_size : ℕ
  pub blocks : List Block
  pub allocated_bytes : ℕ
  pub allocations_count : ℕ

-- ErrOutOfMemory, and ErrInvalidFree with the two messages that wrap it.
pub data AllocError : Type 0 where
  out_of_memory double_free not_found : AllocError

unfoldable pub new_allocator : ℕ → ℕ → Allocator
new_allocator start_addr total_size = record {
  heap_start = start_addr;
  total_size = total_size;
  blocks = record { addr = start_addr; size = total_size; is_allocated = false } ∷ [];
  allocated_bytes = 0;
  allocations_count = 0;
}

abbrev pub fits : ℕ → Block → Bool
fits n b = not b.is_allocated && leb n b.size

-- The first-fit loop: the index of the block that it stops at.
unfoldable pub first_fit : ℕ → ℕ → List Block → Option ℕ
first_fit n i [] = none
first_fit n i (b ∷ bs) = let rest = first_fit n (suc i) bs in if fits n b then some i else rest

-- `chosen == nil || curr.Size < chosen.Size`, for `chosen` an index with its size.
abbrev pub improves : Block → Option (ℕ × ℕ) → Bool
improves b none = true
improves b (some (i, best)) = ltb b.size best

-- The best-fit loop, which walks the whole list with its variable `chosen`.
unfoldable pub best_fit : ℕ → ℕ → Option (ℕ × ℕ) → List Block → Option (ℕ × ℕ)
best_fit n i chosen [] = chosen
best_fit n i chosen (b ∷ bs) =
    best_fit n (suc i) (if fits n b && improves b chosen then some (i, b.size) else chosen) bs

abbrev index_of : Option (ℕ × ℕ) → Option ℕ
index_of none = none
index_of (some (i, best)) = some i

unfoldable pub choose : ℕ → Bool → List Block → Option ℕ
choose n best bs = if best then index_of (best_fit n 0 none bs) else first_fit n 0 bs

-- The chosen block is split if more than 16 bytes would remain, and marked as allocated.
unfoldable pub carve : ℕ → Block → List Block → List Block
carve n b bs =
    if ltb (u64 (n + 16)) b.size
    then record { addr = b.addr; size = n; is_allocated = true }
      ∷ record { addr = u64 (b.addr + n); size = b.size - n; is_allocated = false }
      ∷ bs
    else record b { is_allocated = true } ∷ bs

unfoldable pub carve_at : ℕ → ℕ → List Block → List Block
carve_at n i [] = []
carve_at n zero (b ∷ bs) = carve n b bs
carve_at n (suc i) (b ∷ bs) = b ∷ carve_at n i bs

-- The size that the chosen block ends up with, which is what `AllocatedBytes` grows by.
unfoldable pub carved_size : ℕ → Block → ℕ
carved_size n b = if ltb (u64 (n + 16)) b.size then n else b.size

-- The address and the error.
unfoldable pub malloc : Allocator → ℕ → Bool → Allocator × ℕ × Option AllocError
malloc a n best = if n == 0 then (a, 0, none) else elim (choose n best a.blocks) [
  | none ↦ (a, 0, some out_of_memory)
  | some i ↦ elim (get_elem? a.blocks i) [
    | none ↦ (a, 0, some out_of_memory)
    | some b ↦ (
      record a {
        blocks = carve_at n i a.blocks;
        allocated_bytes = u64 (a.allocated_bytes + carved_size n b);
        allocations_count = a.allocations_count + 1;
      },
      b.addr,
      none,
    )
  ]
]

-- Coalesce with `Next` if free.
unfoldable pub merge_next : Block → List Block → List Block
merge_next c [] = c ∷ []
merge_next c (b ∷ bs) =
    if b.is_allocated then c ∷ b ∷ bs else record c { size = u64 (c.size + b.size) } ∷ bs

-- Coalesce with `Prev` if free; the list begins with the block that was freed.
unfoldable pub merge_prev : Block → List Block → List Block
merge_prev p [] = p ∷ []
merge_prev p (c ∷ bs) =
    if p.is_allocated then p ∷ c ∷ bs else record p { size = u64 (p.size + c.size) } ∷ bs

-- What the walk of `Free` comes to: the size of the freed block and the new list, or an error.
pub data Release : Type 0 where
  freed : ℕ → List Block → Release
  refused : AllocError → Release

abbrev pub map_blocks : (List Block → List Block) → Release → Release
map_blocks f (freed n bs) = freed n (f bs)
map_blocks f (refused e) = refused e

-- The block that the address names, with those behind it.
unfoldable pub release_here : Block → List Block → Release
release_here b bs =
    if b.is_allocated
    then freed b.size (merge_next (record b { is_allocated = false }) bs)
    else refused double_free

-- The walk from a block on that has the block `p` before it; the result begins at `p`.
unfoldable pub release_after : ℕ → Block → List Block → Release
release_after addr p [] = refused not_found
release_after addr p (b ∷ bs) =
    let rest = release_after addr b bs in
    if b.addr == addr
    then map_blocks (merge_prev p) (release_here b bs)
    else map_blocks (λ l. p ∷ l) rest

unfoldable pub release : ℕ → List Block → Release
release addr [] = refused not_found
release addr (b ∷ bs) = if b.addr == addr then release_here b bs else release_after addr b bs

unfoldable pub free : Allocator → ℕ → Allocator × Option AllocError
free a addr = elim (release addr a.blocks) [
  | freed n bs ↦ (record a { blocks = bs; allocated_bytes = sub64 a.allocated_bytes n }, none)
  | refused e ↦ (a, some e)
]
