-- ===== src/Memory/Manager/Serving.antt =====
-- `AccessMemory` of pkg/memory/page_replacement.go, branch by branch.
use os_simulator.Base.{
  Bool, Bool-cases, ap, arith, false, get_elem?, get_elem?-lt_length, get_elem?-set_self,
  if◌then◌else◌, inl, inr, length-set, refl, returns, set, some, true, u64, ℕ, ◌*◌, ◌+◌, ◌<◌, ◌∙◌,
  ◌≡◌,
}
use os_simulator.Memory.Manager.{
  FrameInfo, MemoryManager, loaded_frame, page_in, touch_frame, use_frame,
}
use os_simulator.Memory.Paging.{PageTable, PageTableEntry}
use os_simulator.Memory.Tlb.Reads.{cached}
use os_simulator.Memory.Manager.Invariant.{IsManaged, IsPlaced}
use os_simulator.Memory.Manager.Allocating.{allocate_frame-Allocated}

-- The access was answered from a frame: the address is in it, the buffer knows it, and it is
-- marked as used now, and as dirty by a write.
pub record Served (pt : PageTable) (vpn offset : ℕ) (is_write : Bool) (mm : MemoryManager) (a : ℕ)
    : Type 0 where
  pub frame : ℕ
  pub info : FrameInfo
  pub in_range : frame < mm.num_frames
  pub address : a ≡ u64 (u64 (frame * pt.page_size) + offset)
  pub known : cached pt.pid vpn mm.tlb.entries ≡ some frame
  pub at : get_elem? mm.frames frame ≡ some info
  pub used : info.use_bit ≡ true
  pub used_now : info.last_used_tick ≡ mm.current_tick
  pub marked : is_write ≡ true → info.is_dirty ≡ true

pub touch_run :
    (mm : MemoryManager) (k : ℕ) (is_write : Bool) (f : FrameInfo)
    → get_elem? mm.frames k ≡ some f
    → touch_frame mm k is_write
      ≡ returns (record mm { frames = set mm.frames k (use_frame mm.current_tick is_write f) })
unfolding touch_frame
touch_run mm k is_write f at = rw (at, touch_frame) refl

-- Marking a frame keeps the manager well formed.
pub touch-IsManaged :
    (mm : MemoryManager) (k : ℕ) (g : FrameInfo)
    → IsManaged mm
    → IsManaged (record mm { frames = set mm.frames k g })
touch-IsManaged mm k g w = record {
  sized = length-set mm.frames k g ∙ w.sized;
  hand_inside = w.hand_inside;
  buffer = w.buffer;
  backed = w.backed;
  fetched = w.fetched;
  written = w.written;
  evicted = w.evicted;
}

pub touch-Served :
    (mm : MemoryManager) (pt : PageTable) (vpn offset k : ℕ) (is_write : Bool) (f : FrameInfo)
    → IsManaged mm
    → get_elem? mm.frames k ≡ some f
    → cached pt.pid vpn mm.tlb.entries ≡ some k
    → Served pt vpn offset is_write
        (record mm { frames = set mm.frames k (use_frame mm.current_tick is_write f) })
        (u64 (u64 (k * pt.page_size) + offset))
touch-Served mm pt vpn offset k is_write f w at c = record {
  frame = k;
  info = use_frame mm.current_tick is_write f;
  in_range = w.backed pt.pid vpn k c;
  address = refl;
  known = c;
  at = get_elem?-set_self mm.frames k _ (get_elem?-lt_length mm.frames k f at);
  used = refl;
  used_now = refl;
  marked = λ h. ground (arith, h);
}

-- The page has a frame: well-formed manager, as many frames, the same time, at most one more fault.
pub record PagedIn (mm : MemoryManager) (pid vpn : ℕ) (e : PageTableEntry)
    (r : MemoryManager × PageTableEntry) : Type 0 where
  pub managed : IsManaged r.0
  pub frames_same : r.0.num_frames ≡ mm.num_frames
  pub tick_same : r.0.current_tick ≡ mm.current_tick
  pub faults : r.0.page_faults ≡ (if e.present then mm.page_faults else mm.page_faults + 1)
  pub present : r.1.present ≡ true
  pub in_range : r.1.pfn < mm.num_frames
  pub loaded :
      e.present ≡ false
      → get_elem? r.0.frames r.1.pfn ≡ some (loaded_frame r.1.pfn pid vpn mm.current_tick)

pub page_in-PagedIn :
    (mm : MemoryManager) (pid vpn : ℕ) (e : PageTableEntry)
    → IsManaged mm
    → IsPlaced mm.num_frames e
    → (r : MemoryManager × PageTableEntry) × (page_in mm pid vpn e ≡ returns r)
      × PagedIn mm pid vpn e r
unfolding page_in
page_in-PagedIn mm pid vpn e w p = elim (Bool-cases e.present) [
  | inl there ↦ (
    (mm, e),
    rw (there, page_in) refl,
    record {
      managed = w;
      frames_same = refl;
      tick_same = refl;
      faults = rw there refl;
      present = there;
      in_range = p there;
      loaded = λ h. cc;
    },
  )
  | inr away ↦
      let faulted = record mm {
        page_faults = mm.page_faults + 1;
        swap_reads = mm.swap_reads + 1;
      } in
      let w' : IsManaged faulted = record {
        sized = w.sized;
        hand_inside = w.hand_inside;
        buffer = w.buffer;
        backed = w.backed;
        fetched = ap (λ z. z + 1) w.fetched;
        written = w.written;
        evicted = omega (arith, w.evicted);
      } in
      let (r, q, a) = allocate_frame-Allocated faulted pid vpn w' (omega (arith, w.evicted)) in
      (
        (r.0, record e { present = true; pfn = r.1.frame; accessed = true }),
        rw (away, page_in) (rw q refl),
        record {
          managed = a.managed;
          frames_same = a.frames_same;
          tick_same = a.tick_same;
          faults = rw away a.faults_same;
          present = refl;
          in_range = a.in_range;
          loaded = λ h. a.loaded;
        },
      )
]
