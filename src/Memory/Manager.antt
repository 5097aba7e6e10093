-- ===== src/Memory/Manager.antt =====
-- pkg/memory/page_replacement.go: page faults and the three policies of replacement. The history of
-- texts is left out. A `*FrameInfo` or `*PageTableEntry` is used only within its call, by its index.
pub mod Victims
pub mod Clock
pub mod Invariant
pub mod Policies
pub mod Allocating
pub mod Serving
pub mod Accessing
pub mod Answering
pub mod Results
mod Tests
use os_simulator.Base.{
  Bool, List, Option, Outcome, [], false, get_elem?, if◌then◌else◌, inl, inr, ltb, map_outcome,
  none, not, panics, returns, set, some, suc, true, u64, zero, ℕ, ◌%◌, ◌*◌, ◌+◌, ◌/◌, ◌==◌, ◌>>=◌,
  ◌||◌, ◌∷◌, ◌⊎◌,
}
use os_simulator.Memory.Paging.{PageTable, PageTableEntry, PagingError, in_table, invalid_page}
use os_simulator.Memory.Tlb.{Tlb, insert, lookup, new_tlb}

-- `other` is any text beside the three constants.
pub data Policy : Type 0 where
  fifo lru clock other : Policy

pub record FrameInfo : Type 0 where
  pub pfn : ℕ
  pub pid : ℕ
  pub vpn : ℕ
  pub is_occupied : Bool
  pub loaded_tick : ℕ
  pub last_used_tick : ℕ
  pub use_bit : Bool
  pub is_dirty : Bool

pub record MemoryManager : Type 0 where
  pub num_frames : ℕ
  pub frames : List FrameInfo
  pub clock_hand : ℕ
  pub current_tick : ℕ
  pub policy : Policy
  pub page_faults : ℕ
  pub page_evictions : ℕ
  pub swap_writes : ℕ
  pub swap_reads : ℕ
  pub tlb : Tlb

abbrev pub empty_frame : ℕ → FrameInfo
empty_frame i = record {
  pfn = i;
  pid = 0;
  vpn = 0;
  is_occupied = false;
  loaded_tick = 0;
  last_used_tick = 0;
  use_bit = false;
  is_dirty = false;
}

-- Frames i, i + 1, …, n of them.
unfoldable pub empty_frames : ℕ → ℕ → List FrameInfo
empty_frames i zero = []
empty_frames i (suc n) = empty_frame i ∷ empty_frames (suc i) n

-- A number of frames that is not positive becomes 4.
unfoldable pub new_memory_manager : ℕ → Policy → ℕ → MemoryManager
new_memory_manager wanted policy tlb_capacity =
    let n = if wanted == 0 then 4 else wanted in
    record {
      num_frames = n;
      frames = empty_frames 0 n;
      clock_hand = 0;
      current_tick = 0;
      policy = policy;
      page_faults = 0;
      page_evictions = 0;
      swap_writes = 0;
      swap_reads = 0;
      tlb = new_tlb tlb_capacity;
    }

-- The frame that a page is loaded into at a tick.
abbrev pub loaded_frame : ℕ → ℕ → ℕ → ℕ → FrameInfo
loaded_frame i pid vpn tick = record {
  pfn = i;
  pid = pid;
  vpn = vpn;
  is_occupied = true;
  loaded_tick = tick;
  last_used_tick = tick;
  use_bit = true;
  is_dirty = false;
}

-- The loop over the frames for a free one.
unfoldable pub find_free : ℕ → List FrameInfo → Option ℕ
find_free i [] = none
find_free i (f ∷ fs) = let rest = find_free (suc i) fs in if f.is_occupied then rest else some i

-- The loops of FIFO and LRU from index i on, with `victimIdx` and the oldest tick so far.
unfoldable pub oldest_from : (FrameInfo → ℕ) → ℕ → ℕ → ℕ → List FrameInfo → ℕ
oldest_from key i victim oldest [] = victim
oldest_from key i victim oldest (f ∷ fs) =
    let older = ltb (key f) oldest in
    oldest_from key (suc i) (if older then i else victim) (if older then key f else oldest) fs

-- `mm.Frames[0]` panics where there is no frame.
unfoldable pub oldest_frame : (FrameInfo → ℕ) → List FrameInfo → Outcome ℕ
oldest_frame key [] = panics
oldest_frame key (f ∷ fs) = returns (oldest_from key 1 0 (key f) fs)

-- The loop of the clock, on fuel: `panics` stands for an index out of range, and also for fuel that ran
-- out. The frames, the hand and the victim.
unfoldable pub clock_loop : ℕ → ℕ → List FrameInfo → ℕ → Outcome (List FrameInfo × ℕ × ℕ)
clock_loop zero n frames hand = panics
clock_loop (suc fuel) n frames hand = elim (get_elem? frames hand) [
  | none ↦ panics
  | some f ↦ elim f.use_bit [
    | false ↦ returns (frames, (hand + 1) % n, hand)
    | true ↦ clock_loop fuel n (set frames hand (record f { use_bit = false })) ((hand + 1) % n)
  ]
]

-- The `switch` over the policies. A turn of the hand clears every use bit, so one round more than
-- there are frames suffices.
unfoldable pub choose_victim : MemoryManager → Outcome (List FrameInfo × ℕ × ℕ)
choose_victim mm = elim mm.policy [
  | fifo ↦ do
    i ← oldest_frame FrameInfo.loaded_tick mm.frames
    returns (mm.frames, mm.clock_hand, i)
  | lru ↦ do
    i ← oldest_frame FrameInfo.last_used_tick mm.frames
    returns (mm.frames, mm.clock_hand, i)
  | clock ↦ clock_loop (suc mm.num_frames) mm.num_frames mm.frames mm.clock_hand
  | other ↦ returns (mm.frames, mm.clock_hand, 0)
]

-- The frame, the evicted page and whether one was evicted.
pub record Allocation : Type 0 where
  pub frame : ℕ
  pub evicted_vpn : ℕ
  pub was_evicted : Bool

unfoldable pub evict : MemoryManager → ℕ → ℕ → Outcome (MemoryManager × Allocation)
evict mm pid vpn = do
  (frames, hand, victim) ← choose_victim mm
  elim (get_elem? frames victim) [
    | none ↦ panics
    | some f ↦ returns (
      record mm {
        frames = set frames victim (loaded_frame victim pid vpn mm.current_tick);
        clock_hand = hand;
        page_evictions = mm.page_evictions + 1;
        swap_writes = if f.is_dirty then mm.swap_writes + 1 else mm.swap_writes;
      },
      record { frame = victim; evicted_vpn = f.vpn; was_evicted = true },
    )
  ]

unfoldable pub allocate_frame : MemoryManager → ℕ → ℕ → Outcome (MemoryManager × Allocation)
allocate_frame mm pid vpn = elim (find_free 0 mm.frames) [
  | some i ↦ returns (
    record mm { frames = set mm.frames i (loaded_frame i pid vpn mm.current_tick) },
    record { frame = i; evicted_vpn = 0; was_evicted = false },
  )
  | none ↦ evict mm pid vpn
]

-- The bookkeeping of an access to a frame.
abbrev pub use_frame : ℕ → Bool → FrameInfo → FrameInfo
use_frame tick is_write f = record f {
  last_used_tick = tick;
  use_bit = true;
  is_dirty = is_write || f.is_dirty;
}

unfoldable pub touch_frame : MemoryManager → ℕ → Bool → Outcome MemoryManager
touch_frame mm frame is_write = elim (get_elem? mm.frames frame) [
  | none ↦ panics
  | some f ↦
      returns (record mm { frames = set mm.frames frame (use_frame mm.current_tick is_write f) })
]

-- The page fault: a frame for the page, and the entry that says so.
unfoldable pub page_in :
    MemoryManager → ℕ → ℕ → PageTableEntry → Outcome (MemoryManager × PageTableEntry)
page_in mm pid vpn e = if e.present then returns (mm, e) else do
  (mm', a) ←
      allocate_frame
        (record mm { page_faults = mm.page_faults + 1; swap_reads = mm.swap_reads + 1 }) pid vpn
  returns (mm', record e { present = true; pfn = a.frame; accessed = true })

-- From the page table entry on: fault, TLB, frame, entry.
unfoldable pub access_entry :
    MemoryManager
    → PageTable
    → ℕ
    → ℕ
    → PageTableEntry
    → Bool
    → Outcome (MemoryManager × PageTable × ℕ)
access_entry mm pt vpn offset e is_write = do
  (mm1, e1) ← page_in mm pt.pid vpn e
  tlb ← insert mm1.tlb pt.pid vpn e1.pfn e1.read_write
  mm2 ← touch_frame (record mm1 { tlb = tlb }) e1.pfn is_write
  let e2 = record e1 { dirty = is_write || e1.dirty }
  returns (
    mm2,
    record pt { entries = set pt.entries vpn e2 },
    u64 (u64 (e1.pfn * pt.page_size) + offset),
  )

-- The result of AccessMemory: the address or the error.
abbrev pub Access : Type 0
Access = MemoryManager × PageTable × (ℕ ⊎ PagingError)

-- After a miss in the TLB.
unfoldable pub access_table : MemoryManager → PageTable → ℕ → ℕ → Bool → Outcome Access
access_table mm pt vpn offset is_write =
    if not (in_table pt vpn)
    then returns (mm, pt, inr invalid_page)
    else elim (get_elem? pt.entries vpn) [
      | none ↦ panics
      | some e ↦ if not e.valid then returns (mm, pt, inr invalid_page) else do
        (mm', pt', a) ← access_entry mm pt vpn offset e is_write
        returns (mm', pt', inl a)
    ]

unfoldable pub access_memory : MemoryManager → PageTable → ℕ → Bool → Outcome Access
access_memory mm pt v_addr is_write =
    if pt.page_size == 0
    then panics
    else let vpn = v_addr / pt.page_size in
      let offset = v_addr % pt.page_size in
      let found = lookup mm.tlb pt.pid vpn in
      let mm1 = record mm { current_tick = mm.current_tick + 1; tlb = found.0 } in
      if found.2
      then map_outcome (λ mm2. (mm2, pt, inl (u64 (u64 (found.1 * pt.page_size) + offset))))
          (touch_frame mm1 found.1 is_write)
      else access_table mm1 pt vpn offset is_write
