-- ===== src/Memory/Manager/Allocating.antt =====
-- `allocateFrame` of pkg/memory/page_replacement.go and the bookkeeping of an access keep the manager
-- well formed.
use os_simulator.Base.{
  All, List, Option-cases, [], arith, false, get_elem?, get_elem?-set_self, get_elem?_lt,
  if◌then◌else◌, inl, inr, length-set, none, refl, returns, set, some, suc, true, ℕ, ◌+◌, ◌<◌, ◌∙◌,
  ◌∷◌, ◌≡◌,
}
use os_simulator.Memory.Manager.{
  Allocation, FrameInfo, MemoryManager, allocate_frame, choose_victim, evict, find_free,
  loaded_frame,
}
use os_simulator.Memory.Manager.Policies.{IsChoice, choose_victim-IsChosenBy}
use os_simulator.Memory.Manager.Invariant.{IsManaged, find_free_lt}

-- The manager after a frame was found for the page: well formed, with as many frames and the same
-- buffer, counters of faults and time, and the page in its frame; a page is evicted only where no frame is free.
pub record Allocated (mm : MemoryManager) (pid vpn : ℕ) (r : MemoryManager × Allocation)
    : Type 0 where
  pub managed : IsManaged r.0
  pub frames_same : r.0.num_frames ≡ mm.num_frames
  pub faults_same : r.0.page_faults ≡ mm.page_faults
  pub tick_same : r.0.current_tick ≡ mm.current_tick
  pub in_range : r.1.frame < mm.num_frames
  pub counted :
      r.0.page_evictions ≡ (if r.1.was_evicted then mm.page_evictions + 1 else mm.page_evictions)
  pub spared : r.1.was_evicted ≡ true → All (λ f. f.is_occupied ≡ true) mm.frames
  pub loaded :
      get_elem? r.0.frames r.1.frame ≡ some (loaded_frame r.1.frame pid vpn mm.current_tick)

free-Allocated :
    (mm : MemoryManager) (pid vpn i : ℕ)
    → IsManaged mm
    → find_free 0 mm.frames ≡ some i
    → Allocated mm pid vpn (
      record mm { frames = set mm.frames i (loaded_frame i pid vpn mm.current_tick) },
      record { frame = i; evicted_vpn = 0; was_evicted = false },
    )
free-Allocated mm pid vpn i w h =
    let inside = find_free_lt 0 mm.frames i h in
    record {
      managed = record {
        sized = length-set mm.frames i _ ∙ w.sized;
        hand_inside = w.hand_inside;
        buffer = w.buffer;
        backed = w.backed;
        fetched = w.fetched;
        written = w.written;
        evicted = w.evicted;
      };
      frames_same = refl;
      faults_same = refl;
      tick_same = refl;
      counted = refl;
      spared = λ b. cc;
      in_range = omega (arith, inside, w.sized);
      loaded = get_elem?-set_self mm.frames i _ (omega (arith, inside));
    }

-- The state that `evict` leaves when the victim is the frame `f`.
abbrev evicted_state :
    MemoryManager → ℕ → ℕ → List FrameInfo × ℕ × ℕ → FrameInfo → MemoryManager × Allocation
evicted_state mm pid vpn r f = (
  record mm {
    frames = set r.0 r.2 (loaded_frame r.2 pid vpn mm.current_tick);
    clock_hand = r.1;
    page_evictions = mm.page_evictions + 1;
    swap_writes = if f.is_dirty then mm.swap_writes + 1 else mm.swap_writes;
  },
  record { frame = r.2; evicted_vpn = f.vpn; was_evicted = true },
)

find_free-none :
    (i : ℕ) (fs : List FrameInfo) → find_free i fs ≡ none → All (λ f. f.is_occupied ≡ true) fs
unfolding find_free
find_free-none i [] h = tt
find_free-none i (f ∷ fs) h = (ground (arith, h), find_free-none (suc i) fs (ground (arith, h)))

evict_run :
    (mm : MemoryManager) (pid vpn : ℕ) (r : List FrameInfo × ℕ × ℕ) (f : FrameInfo)
    → choose_victim mm ≡ returns r
    → get_elem? r.0 r.2 ≡ some f
    → evict mm pid vpn ≡ returns (evicted_state mm pid vpn r f)
unfolding evict
evict_run mm pid vpn r f c at = ground (arith, c, at)

evicted-Allocated :
    (mm : MemoryManager) (pid vpn : ℕ) (r : List FrameInfo × ℕ × ℕ) (f : FrameInfo)
    → IsManaged mm
    → mm.page_evictions < mm.page_faults
    → IsChoice mm.num_frames r
    → find_free 0 mm.frames ≡ none
    → Allocated mm pid vpn (evicted_state mm pid vpn r f)
evicted-Allocated mm pid vpn r f w h (l, hand, victim) none_free = record {
  managed = record {
    sized = length-set r.0 r.2 _ ∙ l;
    hand_inside = hand;
    buffer = w.buffer;
    backed = w.backed;
    fetched = w.fetched;
    written = ground (arith, w.written);
    evicted = omega arith;
  };
  frames_same = refl;
  faults_same = refl;
  tick_same = refl;
  counted = refl;
  spared = λ b. find_free-none 0 mm.frames none_free;
  in_range = victim;
  loaded = get_elem?-set_self r.0 r.2 _ (omega arith);
}

pub allocate_frame-Allocated :
    (mm : MemoryManager) (pid vpn : ℕ)
    → IsManaged mm
    → mm.page_evictions < mm.page_faults
    → (r : MemoryManager × Allocation) × (allocate_frame mm pid vpn ≡ returns r)
      × Allocated mm pid vpn r
unfolding allocate_frame
allocate_frame-Allocated mm pid vpn w h = elim (Option-cases (find_free 0 mm.frames)) [
  | inl e ↦
      let (r, c, i, _) = choose_victim-IsChosenBy mm w in
      let (f, at) = get_elem?_lt r.0 r.2 (omega (arith, i.0, i.2)) in
      (
        evicted_state mm pid vpn r f,
        rw (e, allocate_frame) (evict_run mm pid vpn r f c at),
        evicted-Allocated mm pid vpn r f w h i e,
      )
  | inr (i, e) ↦ (_, rw (e, allocate_frame) refl, free-Allocated mm pid vpn i w e)
]
