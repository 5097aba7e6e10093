-- ===== src/Memory/Manager/Invariant.antt =====
-- What holds of the manager of pkg/memory/page_replacement.go between two accesses.
use os_simulator.Base.{
  List, Option, [], ap, arith, length, none, refl, replicate, some, suc, true, zero, ℕ, ◌+◌, ◌<◌,
  ◌∷◌, ◌≡◌, ◌≤◌,
}
use os_simulator.Memory.Manager.{
  FrameInfo, MemoryManager, Policy, empty_frames, find_free, new_memory_manager,
}
use os_simulator.Memory.Paging.{PageTableEntry}
use os_simulator.Memory.Tlb.{Tlb, new_tlb, no_tlb_entry}
use os_simulator.Memory.Tlb.Reads.{cached}
use os_simulator.Memory.Tlb.Invariant.{IsWellFormed, new_tlb-IsWellFormed}

-- Every translation in the buffer is to a frame.
abbrev pub IsBacked : ℕ → Tlb → Type 0
IsBacked n t = (p v frame : ℕ) → cached p v t.entries ≡ some frame → frame < n

-- A page in memory has a frame.
abbrev pub IsPlaced : ℕ → PageTableEntry → Type 0
IsPlaced n e = e.present ≡ true → e.pfn < n

pub record IsManaged (mm : MemoryManager) : Type 0 where
  pub sized : length mm.frames ≡ mm.num_frames
  pub hand_inside : mm.clock_hand < mm.num_frames
  pub buffer : IsWellFormed mm.tlb
  pub backed : IsBacked mm.num_frames mm.tlb
  pub fetched : mm.swap_reads ≡ mm.page_faults
  pub written : mm.swap_writes ≤ mm.page_evictions
  pub evicted : mm.page_evictions ≤ mm.page_faults

length-empty_frames : (i n : ℕ) → length (empty_frames i n) ≡ n
unfolding empty_frames
length-empty_frames i zero = refl
length-empty_frames i (suc n) = ap suc (length-empty_frames (suc i) n)

cached-fresh : (n p v : ℕ) → cached p v (replicate n no_tlb_entry) ≡ none
unfolding cached
cached-fresh zero p v = refl
cached-fresh (suc n) p v = ground (arith, cached-fresh n p v)

-- A new buffer caches nothing.
pub new_tlb-none : (wanted p v : ℕ) → cached p v (new_tlb wanted).entries ≡ none
unfolding new_tlb
new_tlb-none wanted p v = cached-fresh _ p v

pub new_tlb-IsBacked : (n wanted : ℕ) → IsBacked n (new_tlb wanted)
new_tlb-IsBacked n wanted p v frame h = none_lt _ (new_tlb-none wanted p v) h
  where
    none_lt : (o : Option ℕ) → o ≡ none → o ≡ some frame → frame < n
    none_lt none e q = cc
    none_lt (some k) e q = cc

pub new_memory_manager-IsManaged :
    (wanted : ℕ) (policy : Policy) (tlb_capacity : ℕ)
    → IsManaged (new_memory_manager wanted policy tlb_capacity)
unfolding new_memory_manager
new_memory_manager-IsManaged wanted policy tlb_capacity = record {
  sized = length-empty_frames 0 _;
  hand_inside = ground arith;
  buffer = new_tlb-IsWellFormed tlb_capacity;
  backed = new_tlb-IsBacked _ tlb_capacity;
  fetched = refl;
  written = omega arith;
  evicted = omega arith;
}

pub find_free_lt :
    (i : ℕ) (fs : List FrameInfo) (k : ℕ) → find_free i fs ≡ some k → k < i + length fs
unfolding find_free
find_free_lt i [] k h = cc
find_free_lt i (f ∷ fs) k h = ground (arith, find_free_lt (suc i) fs k)
