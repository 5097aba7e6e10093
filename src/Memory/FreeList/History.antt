-- ===== src/Memory/FreeList/History.antt =====
-- Any sequence of calls on the allocator of pkg/memory/allocator.go.
use os_simulator.Base.{
  Bool, List, [], arith, inl, inr, some, suc, u64_mod, zero, ℕ, ◌+◌, ◌<◌, ◌∷◌, ◌≡◌, ◌≤◌,
}
use os_simulator.Memory.FreeList.{Allocator, free, malloc, new_allocator}
use os_simulator.Memory.FreeList.Heap.{
  IsWellFormed, live, live_disjoint, new_allocator-IsWellFormed,
}
use os_simulator.Memory.FreeList.Free.{free_cases}
use os_simulator.Memory.FreeList.Malloc.{malloc_cases}

pub data Call : Type 0 where
  mallocs : ℕ → Bool → Call
  frees : ℕ → Call

unfoldable pub step : Allocator → Call → Allocator
step a (mallocs n best) = (malloc a n best).0
step a (frees addr) = (free a addr).0

-- The calls, the newest first.
unfoldable pub run : Allocator → List Call → Allocator
run a [] = a
run a (c ∷ cs) = step (run a cs) c

malloc-IsWellFormed :
    (a : Allocator) (n : ℕ) (best : Bool) → IsWellFormed a → IsWellFormed (malloc a n best).0
malloc-IsWellFormed a zero best w = unfold malloc in w
malloc-IsWellFormed a (suc n) best w = elim (malloc_cases a (suc n) best (omega arith) w) [
  | inl (p, none_fits) ↦ rw p w
  | inr (a', k, b, p, e, f, smallest, g) ↦ rw p g.well_formed
]

free-IsWellFormed : (a : Allocator) (addr : ℕ) → IsWellFormed a → IsWellFormed (free a addr).0
free-IsWellFormed a addr w = elim (free_cases a addr w) [
  | inl (m, a', there, p, v, removed, bytes, framed) ↦ rw p v
  | inr (e, gone, p) ↦ rw p w
]

run-IsWellFormed : (a : Allocator) (cs : List Call) → IsWellFormed a → IsWellFormed (run a cs)
unfolding run step
run-IsWellFormed a [] w = w
run-IsWellFormed a (mallocs n best ∷ cs) w =
    malloc-IsWellFormed (run a cs) n best (run-IsWellFormed a cs w)
run-IsWellFormed a (frees addr ∷ cs) w = free-IsWellFormed (run a cs) addr (run-IsWellFormed a cs w)

-- After any calls of `Malloc` and `Free` on a new heap that is not empty and ends more than 16 bytes
-- below 2 ^ 64, the blocks tile the heap with no two free neighbours and an exact byte count, and
-- two allocated blocks at different addresses never overlap.
pub run-disjoint :
    (start total : ℕ) (cs : List Call) (p q m n : ℕ)
    → 0 < total
    → start + total + 16 < u64_mod
    → let a = run (new_allocator start total) cs in
      IsWellFormed a × (live p a.blocks ≡ some m → live q a.blocks ≡ some n → p < q → p + m ≤ q)
run-disjoint start total cs p q m n pos fit =
    let a = run (new_allocator start total) cs in
    let w =
      run-IsWellFormed (new_allocator start total) cs
        (new_allocator-IsWellFormed start total pos fit) in
    (w, live_disjoint a.heap_start (a.heap_start + a.total_size) p q m n a.blocks w.tiled)
