-- ===== src/Memory/FreeList/Heap.antt =====
-- What the list of blocks of pkg/memory/allocator.go looks like between two calls. The heap ends
-- more than 16 bytes below 2 ^ 64, so that `size+16` does not wrap.
use os_simulator.Base.{
  List, Option, [], arith, false, if◌then◌else◌, none, refl, some, true, u64_mod, ℕ, ◌&&◌, ◌+◌, ◌<◌,
  ◌==◌, ◌∷◌, ◌≡◌, ◌≤◌,
}
use os_simulator.Memory.FreeList.{Allocator, Block, new_allocator}

-- The blocks lie end to end from one address to another, and none is empty.
abbrev pub Tiles : ℕ → ℕ → List Block → Type 0
Tiles start end [] = start ≡ end
Tiles start end (b ∷ bs) = (b.addr ≡ start) × (0 < b.size) × Tiles (start + b.size) end bs

abbrev pub StartsAllocated : List Block → Type 0
StartsAllocated [] = Unit
StartsAllocated (b ∷ bs) = b.is_allocated ≡ true

-- No two neighbours are both free.
abbrev pub IsCoalesced : List Block → Type 0
IsCoalesced [] = Unit
IsCoalesced (b ∷ bs) = (b.is_allocated ≡ false → StartsAllocated bs) × IsCoalesced bs

-- The bytes in allocated blocks.
abbrev pub used : List Block → ℕ
used [] = 0
used (b ∷ bs) = (if b.is_allocated then b.size else 0) + used bs

-- The size of the allocated block at an address.
unfoldable pub live : ℕ → List Block → Option ℕ
live p [] = none
live p (b ∷ bs) =
    let rest = live p bs in if b.addr == p && b.is_allocated then some b.size else rest

pub record IsWellFormed (a : Allocator) : Type 0 where
  pub in_memory : a.heap_start + a.total_size + 16 < u64_mod
  pub tiled : Tiles a.heap_start (a.heap_start + a.total_size) a.blocks
  pub coalesced : IsCoalesced a.blocks
  pub counted : a.allocated_bytes ≡ used a.blocks

pub new_allocator-IsWellFormed :
    (start total : ℕ)
    → 0 < total
    → start + total + 16 < u64_mod
    → IsWellFormed (new_allocator start total)
unfolding new_allocator
new_allocator-IsWellFormed start total pos fit = record {
  in_memory = fit;
  tiled = omega arith;
  coalesced = ((λ _. tt), tt);
  counted = refl;
}

pub Tiles-le : (start end : ℕ) (bs : List Block) → Tiles start end bs → start ≤ end
Tiles-le start end [] t = omega arith
Tiles-le start end (b ∷ bs) t = omega (arith, Tiles-le (start + b.size) end bs t.2)

pub used-le : (start end : ℕ) (bs : List Block) → Tiles start end bs → start + used bs ≤ end
used-le start end [] t = omega arith
used-le start end (b ∷ bs) t = ground (arith, used-le (start + b.size) end bs t.2)

-- Nothing is allocated before the first block.
pub live_before :
    (start end p : ℕ) (bs : List Block) → Tiles start end bs → p < start → live p bs ≡ none
unfolding live
live_before start end p [] t h = refl
live_before start end p (b ∷ bs) t h = ground (arith, live_before (start + b.size) end p bs t.2)

-- An allocated block lies inside the tiled range.
pub live_inside :
    (start end p n : ℕ) (bs : List Block)
    → Tiles start end bs
    → live p bs ≡ some n
    → (start ≤ p) × (0 < n) × (p + n ≤ end)
unfolding live
live_inside start end p n [] t h = cc
live_inside start end p n (b ∷ bs) t h =
    ground
      (arith, live_inside (start + b.size) end p n bs t.2, Tiles-le (start + b.size) end bs t.2)

-- Allocated blocks at different addresses do not overlap.
pub live_disjoint :
    (start end p q m n : ℕ) (bs : List Block)
    → Tiles start end bs
    → live p bs ≡ some m
    → live q bs ≡ some n
    → p < q
    → p + m ≤ q
unfolding live
live_disjoint start end p q m n [] t hp hq lt = cc
live_disjoint start end p q m n (b ∷ bs) t hp hq lt = ground (
  arith,
  live_disjoint (start + b.size) end p q m n bs t.2,
  live_inside (start + b.size) end q n bs t.2,
  live_inside (start + b.size) end p m bs t.2,
)
