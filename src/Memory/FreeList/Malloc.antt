-- ===== src/Memory/FreeList/Malloc.antt =====
-- What a call of `Malloc` of pkg/memory/allocator.go comes to.
use os_simulator.Base.{
  All, Bool, List, [], ap, arith, false, get_elem?, if◌then◌else◌, inl, inr, none, refl, some, suc,
  sym, true, u64, zero, ℕ, ◌+◌, ◌<◌, ◌==◌, ◌∙◌, ◌∷◌, ◌≡◌, ◌≤◌, ◌⊎◌,
}
use os_simulator.Memory.FreeList.{
  Allocator, Block, carve_at, carved_size, choose, fits, malloc, out_of_memory,
}
use os_simulator.Memory.FreeList.Heap.{IsWellFormed, Tiles, live, live_before, used, used-le}
use os_simulator.Memory.FreeList.Choice.{choose_cases}
use os_simulator.Memory.FreeList.Carving.{
  Tiles-get, carve_at-IsCoalesced, carve_at-Tiles, carve_at-live, carve_at-used,
}

-- Nothing is allocated at the address of a free block.
live_free :
    (k start end : ℕ) (b : Block) (bs : List Block)
    → Tiles start end bs
    → get_elem? bs k ≡ some b
    → b.is_allocated ≡ false
    → live b.addr bs ≡ none
unfolding live
live_free k start end b [] t e f = cc
live_free zero start end b (c ∷ bs) t e f =
    ground (arith, live_before (start + c.size) end b.addr bs t.2)
live_free (suc k) start end b (c ∷ bs) t e f = ground (
  arith,
  live_free k (start + c.size) end b bs t.2 e f,
  Tiles-get k (start + c.size) end b bs t.2 e,
)

-- An allocation of `m` bytes at `p` for a request of `n`, and what it leaves alone.
pub record Grants (a a' : Allocator) (n p m : ℕ) : Type 0 where
  pub well_formed : IsWellFormed a'
  pub was_free : live p a.blocks ≡ none
  pub large : n ≤ m
  pub tight : m ≤ n + 16
  pub in_heap : (a.heap_start ≤ p) × (p + m ≤ a.heap_start + a.total_size)
  pub placed : (q : ℕ) → live q a'.blocks ≡ (if p == q then some m else live q a.blocks)
  pub accounted : a'.allocated_bytes ≡ a.allocated_bytes + m
  pub framed : a' ≡ record a {
    blocks = a'.blocks;
    allocated_bytes = a'.allocated_bytes;
    allocations_count = a.allocations_count + 1;
  }

module _ (a : Allocator) (n : ℕ) (pos : 0 < n) (w : IsWellFormed a) where
  -- A chosen block is carved.
  malloc_at :
      (best : Bool) (k : ℕ) (b : Block)
      → choose n best a.blocks ≡ some k
      → get_elem? a.blocks k ≡ some b
      → fits n b ≡ true
      → (a' : Allocator) × (malloc a n best ≡ (a', b.addr, none))
        × Grants a a' n b.addr (carved_size n b)
  unfolding malloc
  malloc_at best k b p e f = (
    record a {
      blocks = carve_at n k a.blocks;
      allocated_bytes = u64 (a.allocated_bytes + carved_size n b);
      allocations_count = a.allocations_count + 1;
    },
    ground (arith, p, e),
    record {
      well_formed = record {
        in_memory = w.in_memory;
        tiled = tiled;
        coalesced = carve_at-IsCoalesced n pos end w.in_memory k b a.blocks w.coalesced e f;
        counted = no_wrap ∙ sym more;
      };
      was_free = live_free k a.heap_start end b a.blocks w.tiled e (ground arith);
      large = unfold carved_size in ground arith;
      tight = unfold carved_size in ground (arith, w.in_memory, inside);
      in_heap = unfold carved_size in ground (arith, inside);
      placed = λ q. carve_at-live n pos end w.in_memory k a.heap_start q b a.blocks w.tiled e f;
      accounted = no_wrap ∙ ap (λ x. x + carved_size n b) (sym w.counted);
      framed = refl;
    },
  )
    where
      end : ℕ
      end = a.heap_start + a.total_size

      inside : (a.heap_start ≤ b.addr) × (0 < b.size) × (b.addr + b.size ≤ end)
      inside = Tiles-get k a.heap_start end b a.blocks w.tiled e

      tiled : Tiles a.heap_start end (carve_at n k a.blocks)
      tiled = carve_at-Tiles n pos end w.in_memory k a.heap_start b a.blocks w.tiled e f

      more : used (carve_at n k a.blocks) ≡ used a.blocks + carved_size n b
      more = carve_at-used n pos end w.in_memory k a.heap_start b a.blocks w.tiled e f

      no_wrap : u64 (a.allocated_bytes + carved_size n b) ≡ used a.blocks + carved_size n b
      no_wrap = omega (arith, w.counted, more, used-le a.heap_start end _ tiled, w.in_memory)

-- What `Malloc` may come to: no free block is large enough, or one that is large enough is carved,
-- by best fit a smallest one.
abbrev pub MallocCases : Allocator → ℕ → Bool → Type 0
MallocCases a n best =
    ((malloc a n best ≡ (a, 0, some out_of_memory)) × All (λ b. fits n b ≡ false) a.blocks)
    ⊎ ((a' : Allocator) × (k : ℕ) × (b : Block) × (malloc a n best ≡ (a', b.addr, none))
        × (get_elem? a.blocks k ≡ some b)
        × (fits n b ≡ true)
        × (best ≡ true → All (λ c. fits n c ≡ true → b.size ≤ c.size) a.blocks)
        × Grants a a' n b.addr (carved_size n b))

-- On a well-formed heap a request of at least one byte is refused, with the heap left as it was,
-- only if no free block is large enough. Otherwise it is granted: the address is that of a free
-- block that is large enough, by best fit a smallest one; afterwards the heap is well formed, the
-- address holds an allocated block inside the heap, of the requested size or at most 16 bytes more,
-- no other address has changed, and the byte count has grown by the size of the block.
pub malloc_cases :
    (a : Allocator) (n : ℕ) (best : Bool) → 0 < n → IsWellFormed a → MallocCases a n best
unfolding malloc
malloc_cases a n best pos w = elim (choose_cases n best a.blocks) [
  | inl (p, none_fits) ↦ inl (ground (arith, p), none_fits)
  | inr (k, b, p, e, f, smallest) ↦
      let (a', q, g) = malloc_at a n pos w best k b p e f in inr (a', k, b, q, e, f, smallest, g)
]
