-- ===== src/Memory/Manager/Tests.antt =====
-- Runs of pkg/memory/page_replacement.go: two frames, both taken, and a table of three pages.
use os_simulator.Base.{
  All, List, [], arith, false, get_elem?, inl, map, refl, returns, true, ℕ, ◌∷◌, ◌≡◌, ◌≢◌,
}
use os_simulator.Memory.Manager.{
  Access, FrameInfo, MemoryManager, Policy, access_memory, choose_victim, clock, clock_loop, fifo,
  loaded_frame, lru,
}
use os_simulator.Memory.Paging.{PageTable, PageTableEntry, mapped_entry}
use os_simulator.Memory.Tlb.{new_tlb}
use os_simulator.Memory.Tlb.Invariant.{new_tlb-IsWellFormed}
use os_simulator.Memory.Manager.Clock.{erase}
use os_simulator.Memory.Manager.Invariant.{IsManaged, IsPlaced, new_tlb-IsBacked, new_tlb-none}
use os_simulator.Memory.Manager.Policies.{IsChoice, IsChosenBy, choose_victim-IsChosenBy}
use os_simulator.Memory.Manager.Accessing.{Named}
use os_simulator.Memory.Manager.Answering.{Accessed}
use os_simulator.Memory.Manager.Results.{
  access_memory-Accessed, access_memory_again, access_memory_fault, frame_address,
}

abbrev full : Policy → MemoryManager
full policy = record {
  num_frames = 2;
  frames = loaded_frame 0 1 0 1 ∷ loaded_frame 1 1 1 2 ∷ [];
  clock_hand = 1;
  current_tick = 2;
  policy = policy;
  page_faults = 2;
  page_evictions = 0;
  swap_writes = 0;
  swap_reads = 2;
  tlb = new_tlb 1;
}

full-IsManaged : (policy : Policy) → IsManaged (full policy)
full-IsManaged policy = record {
  sized = refl;
  hand_inside = omega arith;
  buffer = new_tlb-IsWellFormed 1;
  backed = new_tlb-IsBacked 2 1;
  fetched = refl;
  written = omega arith;
  evicted = omega arith;
}

abbrev away : PageTableEntry
away = record (mapped_entry 0 true) { present = false }

abbrev table : PageTable
table = record {
  pid = 1;
  page_size = 16;
  entries = mapped_entry 0 true ∷ mapped_entry 1 true ∷ away ∷ [];
  num_pages = 3;
}

table-IsPlaced : All (IsPlaced 2) table.entries
table-IsPlaced = ((λ h. omega arith), ((λ h. omega arith), ((λ h. omega arith), tt)))

-- The hand at frame 1 comes round to it again, since both frames have been used.
clock_victim : choose_victim (full clock) ≡ returns (map erase (full clock).frames, 0, 1)
unfolding choose_victim clock_loop
clock_victim = refl

choose_victim-IsChosenBy_example :
    (r : List FrameInfo × ℕ × ℕ) × (choose_victim (full clock) ≡ returns r)
    × IsChoice 2 r
    × IsChosenBy clock (full clock) r
choose_victim-IsChosenBy_example = choose_victim-IsChosenBy (full clock) (full-IsManaged clock)

access_memory-Accessed_example :
    (r : Access) × (access_memory (full lru) table 35 true ≡ returns r)
    × Accessed (full lru) table 2 3 true 3 r
access_memory-Accessed_example =
    access_memory-Accessed (full lru) table 35 true (full-IsManaged lru) table-IsPlaced
      (omega arith) (omega arith)

access_memory_again_example :
    (frame : ℕ) × (r : Access) × (r' : Access) × (access_memory (full lru) table 35 true
      ≡ returns r)
    × (r.2 ≡ inl (frame_address table frame 3))
    × (access_memory r.0 r.1 32 false ≡ returns r')
    × (r'.2 ≡ inl (frame_address table frame 0))
    × (r'.0.page_faults ≡ r.0.page_faults)
access_memory_again_example =
    access_memory_again (full lru) table 35 32 true false (full-IsManaged lru) table-IsPlaced
      (omega arith) (omega arith) (away, refl, refl) refl

access_memory_fault_example :
    (r : Access) × (a : ℕ) × (access_memory (full fifo) table 35 true ≡ returns r)
    × (r.2 ≡ inl a)
    × Named table 2 3 r.0 a
    × (r.0.page_faults ≡ 3)
    × ((v : ℕ) → v ≢ 2 → get_elem? r.1.entries v ≡ get_elem? table.entries v)
access_memory_fault_example =
    access_memory_fault (full fifo) table 35 true away (full-IsManaged fifo) table-IsPlaced
      (omega arith) (omega arith) (new_tlb-none 1 1 2) refl refl refl
