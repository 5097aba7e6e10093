-- ===== src/Memory/Manager/Accessing.antt =====
-- `AccessMemory` of pkg/memory/page_replacement.go from the page table entry on: page fault,
-- buffer, frame and entry.
use os_simulator.Base.{
  All, Bool, Bool-cases, List, [], ap, ap₂, arith, false, get_elem?, get_elem?-lt_length,
  get_elem?-set_ne, get_elem?-set_self, get_elem?_lt, if◌then◌else◌, inl, inr, refl, returns, set,
  some, some_inj, subst, suc, sym, u64, zero, ℕ, ◌*◌, ◌+◌, ◌<◌, ◌||◌, ◌∙◌, ◌∷◌, ◌≡◌, ◌≢◌,
}
use os_simulator.Memory.Manager.{FrameInfo, MemoryManager, access_entry, page_in, use_frame}
use os_simulator.Memory.Paging.{PageTable, PageTableEntry}
use os_simulator.Memory.Tlb.{Tlb, insert}
use os_simulator.Memory.Tlb.Reads.{cached}
use os_simulator.Memory.Tlb.Insertion.{OnlyKeeps, insert-IsWellFormed, is_other}
use os_simulator.Memory.Manager.Invariant.{IsBacked, IsManaged, IsPlaced}
use os_simulator.Memory.Manager.Serving.{
  Served, page_in-PagedIn, touch-IsManaged, touch-Served, touch_run,
}

-- The buffer after `Insert` still names frames only.
insert-IsBacked :
    (n pid vpn frame : ℕ) (t t' : Tlb)
    → frame < n
    → IsBacked n t
    → cached pid vpn t'.entries ≡ some frame
    → OnlyKeeps pid vpn t.entries t'.entries
    → IsBacked n t'
insert-IsBacked n pid vpn frame t t' h b c k p v found q =
    elim (Bool-cases (is_other pid vpn p v)) [
      | inl o ↦ b p v found (k p v found o q)
      | inr o ↦
          let (e, d) = is_other_same pid vpn p v o in
          subst (λ z. z < n) (some_inj (sym c ∙ ap₂ (λ x y. cached x y t'.entries) e d ∙ q)) h
    ]
  where
    is_other_same : (a b c d : ℕ) → is_other a b c d ≡ false → (a ≡ c) × (b ≡ d)
    is_other_same a b c d o = (ground arith, ground arith)

All-set {ℓ κ} :
    {A : Type ℓ} (P : A → Type κ) (xs : List A) (i : ℕ) (a : A)
    → All P xs
    → P a
    → All P (set xs i a)
All-set P [] i a h p = tt
All-set P (x ∷ xs) zero a h p = (p, h.1)
All-set P (x ∷ xs) (suc i) a h p = (h.0, All-set P xs i a h.1 p)

access_entry_run :
    (mm : MemoryManager) (pt : PageTable) (vpn offset : ℕ) (e : PageTableEntry) (is_write : Bool)
    (mm1 : MemoryManager) (e1 : PageTableEntry) (t : Tlb) (f : FrameInfo)
    → page_in mm pt.pid vpn e ≡ returns (mm1, e1)
    → insert mm1.tlb pt.pid vpn e1.pfn e1.read_write ≡ returns t
    → get_elem? mm1.frames e1.pfn ≡ some f
    → access_entry mm pt vpn offset e is_write
      ≡ returns (
        record mm1 {
          tlb = t;
          frames = set mm1.frames e1.pfn (use_frame mm1.current_tick is_write f);
        },
        record pt { entries = set pt.entries vpn (record e1 { dirty = is_write || e1.dirty }) },
        u64 (u64 (e1.pfn * pt.page_size) + offset),
      )
unfolding access_entry
access_entry_run mm pt vpn offset e is_write mm1 e1 t f q c at =
    rw (q, access_entry) (rw c (rw (touch_run (record mm1 { tlb = t }) e1.pfn is_write f at) refl))

-- The address lies in a frame that names the page.
pub record Named (pt : PageTable) (vpn offset : ℕ) (mm : MemoryManager) (a : ℕ) : Type 0 where
  pub frame : ℕ
  pub info : FrameInfo
  pub address : a ≡ u64 (u64 (frame * pt.page_size) + offset)
  pub at : get_elem? mm.frames frame ≡ some info
  pub owner : info.pid ≡ pt.pid
  pub page : info.vpn ≡ vpn

-- The page in a frame, from its entry on: manager and table in order, every other entry as it was,
-- and the access served. After a page fault the frame names the page.
pub record Resolved (mm : MemoryManager) (pt : PageTable) (vpn offset : ℕ) (e : PageTableEntry)
    (is_write : Bool) (r : MemoryManager × PageTable × ℕ) : Type 0 where
  pub managed : IsManaged r.0
  pub frames_same : r.0.num_frames ≡ mm.num_frames
  pub tick_same : r.0.current_tick ≡ mm.current_tick
  pub pid_same : r.1.pid ≡ pt.pid
  pub size_same : r.1.page_size ≡ pt.page_size
  pub placed : All (IsPlaced mm.num_frames) r.1.entries
  pub others : (v : ℕ) → v ≢ vpn → get_elem? r.1.entries v ≡ get_elem? pt.entries v
  pub faults : r.0.page_faults ≡ (if e.present then mm.page_faults else mm.page_faults + 1)
  pub served : Served pt vpn offset is_write r.0 r.2
  pub named : e.present ≡ false → Named pt vpn offset r.0 r.2

pub access_entry-Resolved :
    (mm : MemoryManager) (pt : PageTable) (vpn offset : ℕ) (e : PageTableEntry) (is_write : Bool)
    → IsManaged mm
    → All (IsPlaced mm.num_frames) pt.entries
    → IsPlaced mm.num_frames e
    → (r : MemoryManager × PageTable × ℕ) × (access_entry mm pt vpn offset e is_write ≡ returns r)
      × Resolved mm pt vpn offset e is_write r
access_entry-Resolved mm pt vpn offset e is_write w all p =
    let ((mm1, e1), q, i) = page_in-PagedIn mm pt.pid vpn e w p in
    let (t, c, tw, known, keeps) =
      insert-IsWellFormed mm1.tlb pt.pid vpn e1.pfn e1.read_write i.managed.buffer in
    let (f, at) =
      get_elem?_lt mm1.frames e1.pfn (omega (arith, i.managed.sized, i.frames_same, i.in_range)) in
    let mm2 = record mm1 { tlb = t } in
    let w2 : IsManaged mm2 = record {
      sized = i.managed.sized;
      hand_inside = i.managed.hand_inside;
      buffer = tw;
      backed =
          insert-IsBacked mm1.num_frames pt.pid vpn e1.pfn mm1.tlb t
            (omega (arith, i.frames_same, i.in_range)) i.managed.backed known keeps;
      fetched = i.managed.fetched;
      written = i.managed.written;
      evicted = i.managed.evicted;
    } in
    (
      _,
      access_entry_run mm pt vpn offset e is_write mm1 e1 t f q c at,
      record {
        managed = touch-IsManaged mm2 e1.pfn _ w2;
        frames_same = i.frames_same;
        tick_same = i.tick_same;
        pid_same = refl;
        size_same = refl;
        placed = All-set (IsPlaced mm.num_frames) pt.entries vpn _ all (λ _. i.in_range);
        others = λ v ne. get_elem?-set_ne pt.entries vpn v _ (λ z. ne (sym z));
        faults = i.faults;
        served = touch-Served mm2 pt vpn offset e1.pfn is_write f w2 at known;
        named = λ away.
            let same = some_inj (sym at ∙ i.loaded away) in
            record {
              frame = e1.pfn;
              info = use_frame mm1.current_tick is_write f;
              address = refl;
              at =
                  get_elem?-set_self mm1.frames e1.pfn _
                    (get_elem?-lt_length mm1.frames e1.pfn f at);
              owner = ap FrameInfo.pid same;
              page = ap FrameInfo.vpn same;
            };
      },
    )
