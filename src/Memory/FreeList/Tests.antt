-- ===== src/Memory/FreeList/Tests.antt =====
-- Runs of the allocator of pkg/memory/allocator.go, and its theorems at a small heap.
use os_simulator.Base.{
  List, Option, [], arith, false, none, refl, some, true, ℕ, ◌+◌, ◌<◌, ◌∷◌, ◌≡◌, ◌≤◌,
}
use os_simulator.Memory.FreeList.{
  AllocError, Allocator, best_fit, carve, carve_at, carved_size, choose, double_free, first_fit,
  free, malloc, merge_next, merge_prev, new_allocator, release, release_after, release_here,
}
use os_simulator.Memory.FreeList.History.{run-disjoint, mallocs, frees, run, Call}
use os_simulator.Memory.FreeList.Free.{free_cases, FreeCases}
use os_simulator.Memory.FreeList.Heap.{new_allocator-IsWellFormed, live, IsWellFormed}
use os_simulator.Memory.FreeList.Malloc.{malloc_cases, MallocCases}
use os_simulator.Memory.FreeList.RoundTrip.{free-malloc}

abbrev heap : Allocator
heap = new_allocator 4096 1024

heap-IsWellFormed : IsWellFormed heap
heap-IsWellFormed = new_allocator-IsWellFormed 4096 1024 (omega arith) (omega arith)

abbrev first_call : Allocator × ℕ × Option AllocError
first_call = malloc heap 100 false

first_fit_runs : (first_call.1 ≡ 4096) × (first_call.0.allocated_bytes ≡ 100)
unfolding malloc new_allocator choose first_fit carve_at carve carved_size
first_fit_runs = (refl, refl)

-- The middle block of three comes free, and a request that it fits best is put there.
best_fit_runs :
    let a = (malloc (malloc (malloc heap 100 false).0 40 false).0 200 false).0 in
    (malloc (free a 4196).0 30 true).1 ≡ 4196
unfolding malloc free new_allocator choose best_fit first_fit carve_at carve carved_size release
    release_after release_here merge_next merge_prev
best_fit_runs = refl

-- Once a block is merged into its neighbour, freeing it again is reported as an unknown address.
double_free_runs :
    (free (free (malloc (malloc heap 100 false).0 40 false).0 4196).0 4196).1 ≡ some double_free
unfolding malloc free new_allocator choose best_fit first_fit carve_at carve carved_size release
    release_after release_here merge_next merge_prev
double_free_runs = refl

malloc_cases_example : MallocCases heap 100 true
malloc_cases_example = malloc_cases heap 100 true (omega arith) heap-IsWellFormed

free_cases_example : FreeCases heap 4096
free_cases_example = free_cases heap 4096 heap-IsWellFormed

free-malloc_example :
    free first_call.0 4096 ≡ (record heap { allocations_count = heap.allocations_count + 1 }, none)
unfolding malloc new_allocator choose first_fit carve_at carve carved_size
free-malloc_example =
    free-malloc heap first_call.0 100 4096 false heap-IsWellFormed (omega arith) refl

abbrev history : List Call
history = frees 4096 ∷ mallocs 40 true ∷ mallocs 100 false ∷ []

run-disjoint_example :
    let a = run heap history in
    IsWellFormed a
    × (live 4196 a.blocks ≡ some 40
        → live 4236 a.blocks ≡ some 788
        → 4196 < 4236
        → 4196 + 40 ≤ 4236)
run-disjoint_example = run-disjoint 4096 1024 history 4196 4236 40 788 (omega arith) (omega arith)
