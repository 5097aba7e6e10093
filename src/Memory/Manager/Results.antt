-- ===== src/Memory/Manager/Results.antt =====
-- `AccessMemory` of pkg/memory/page_replacement.go as a whole, on a well-formed manager.
use os_simulator.Base.{
  All, All-get_elem?, Bool, Option-cases, ap, arith, false, get_elem?, get_elem?-lt_length,
  get_elem?_lt, if◌then◌else◌, inl, inr, int_min, lt→ltb, none, refl, returns, some, true, u64, ℕ,
  ◌%◌, ◌*◌, ◌+◌, ◌/◌, ◌<◌, ◌∙◌, ◌≡◌, ◌≢◌, ◌⊎◌,
}
use os_simulator.Memory.Manager.{Access, MemoryManager, access_memory}
use os_simulator.Memory.Paging.{PageTable, PageTableEntry, PagingError}
use os_simulator.Memory.Tlb.Reads.{cached}
use os_simulator.Memory.Tlb.Invariant.{lookup-keeps_cached}
use os_simulator.Memory.Manager.Invariant.{IsManaged, IsPlaced}
use os_simulator.Memory.Manager.Serving.{Served, touch-IsManaged, touch-Served}
use os_simulator.Memory.Manager.Answering.{
  Accessed, Answer, IsMapped, access_memory_hit, access_memory_miss, access_table-Accessed,
  access_table_run, looked_up, looked_up-IsManaged,
}
use os_simulator.Memory.Manager.Accessing.{Named, access_entry-Resolved}

looked_up-Answer :
    (mm : MemoryManager) (pt : PageTable) (vpn offset : ℕ) (is_write : Bool) (r : Access)
    (x : ℕ ⊎ PagingError)
    → Answer (looked_up mm pt.pid vpn) pt vpn offset is_write r x
    → Answer mm pt vpn offset is_write r x
looked_up-Answer mm pt vpn offset is_write r (inl a) s = s
looked_up-Answer mm pt vpn offset is_write r (inr e) s = record {
  invalid = s.invalid;
  unmapped = s.unmapped;
  table_kept = s.table_kept;
  frames_kept = s.frames_kept;
  faults_kept = s.faults_kept;
}

-- An access with a manager in order, a table whose pages in memory have frames, and a page number
-- that is an `int`, never panics. It leaves all this in order, one tick later, and is either served
-- from a frame, or refused with ErrInvalidPage because the page is not mapped.
pub access_memory-Accessed :
    (mm : MemoryManager) (pt : PageTable) (v_addr : ℕ) (is_write : Bool)
    → IsManaged mm
    → All (IsPlaced mm.num_frames) pt.entries
    → 0 < pt.page_size
    → v_addr / pt.page_size < int_min
    → (r : Access) × (access_memory mm pt v_addr is_write ≡ returns r)
      × Accessed mm pt
          (v_addr / pt.page_size)
          (v_addr % pt.page_size)
          is_write
          (mm.current_tick + 1)
          r
access_memory-Accessed mm pt v_addr is_write w all h small =
    elim (Option-cases (cached pt.pid vpn mm.tlb.entries)) [
      | inl c ↦
          let (r, e, a) =
            access_table-Accessed mm1 pt vpn (v_addr % pt.page_size) is_write w1 all small in
          (
            r,
            access_memory_miss mm pt v_addr is_write h c ∙ e,
            record {
              managed = a.managed;
              frames_same = a.frames_same;
              ticked = a.ticked;
              placed = a.placed;
              others = a.others;
              pid_same = a.pid_same;
              size_same = a.size_same;
              answer = looked_up-Answer mm pt vpn (v_addr % pt.page_size) is_write r r.2 a.answer;
            },
          )
      | inr (k, c) ↦
          let (f, at) =
            get_elem?_lt mm.frames k (omega (arith, w.sized, w.backed pt.pid vpn k c)) in
          (
            _,
            access_memory_hit mm pt v_addr is_write k f h c at,
            record {
              managed = touch-IsManaged mm1 k _ w1;
              frames_same = refl;
              ticked = refl;
              pid_same = refl;
              size_same = refl;
              placed = all;
              others = λ v ne. refl;
              answer =
                  touch-Served mm1 pt vpn (v_addr % pt.page_size) k is_write f w1 at
                    (lookup-keeps_cached mm.tlb pt.pid vpn pt.pid vpn ∙ c);
            },
          )
    ]
  where
    vpn : ℕ
    vpn = v_addr / pt.page_size

    mm1 : MemoryManager
    mm1 = looked_up mm pt.pid vpn

    w1 : IsManaged mm1
    w1 = looked_up-IsManaged mm pt.pid vpn w

-- The answer for a mapped page is an address.
answer_mapped :
    (mm : MemoryManager) (pt : PageTable) (vpn offset : ℕ) (is_write : Bool) (r : Access)
    (x : ℕ ⊎ PagingError)
    → IsMapped pt vpn
    → Answer mm pt vpn offset is_write r x
    → (a : ℕ) × (x ≡ inl a) × Served pt vpn offset is_write r.0 a
answer_mapped mm pt vpn offset is_write r (inl a) m s = (a, refl, s)
answer_mapped mm pt vpn offset is_write r (inr e) m s = absurd (s.unmapped m)

-- The address of an offset in a frame of the table's page size.
abbrev pub frame_address : PageTable → ℕ → ℕ → ℕ
frame_address pt frame offset = u64 (u64 (frame * pt.page_size) + offset)

-- With a manager in order, a table whose pages in memory have frames, and a mapped page whose number
-- is an `int`: an access to the page succeeds, and the next access to it, at any offset, reaches
-- the same frame without another page fault.
pub access_memory_again :
    (mm : MemoryManager) (pt : PageTable) (v_addr next : ℕ) (is_write next_write : Bool)
    → IsManaged mm
    → All (IsPlaced mm.num_frames) pt.entries
    → 0 < pt.page_size
    → v_addr / pt.page_size < int_min
    → IsMapped pt (v_addr / pt.page_size)
    → next / pt.page_size ≡ v_addr / pt.page_size
    → (frame : ℕ) × (r : Access) × (r' : Access) × (access_memory mm pt v_addr is_write ≡ returns r)
      × (r.2 ≡ inl (frame_address pt frame (v_addr % pt.page_size)))
      × (access_memory r.0 r.1 next next_write ≡ returns r')
      × (r'.2 ≡ inl (frame_address pt frame (next % pt.page_size)))
      × (r'.0.page_faults ≡ r.0.page_faults)
access_memory_again mm pt v_addr next is_write next_write w all h small m same =
    let (r, e, a) = access_memory-Accessed mm pt v_addr is_write w all h small in
    let (x, q, s) = answer_mapped mm pt _ _ is_write r r.2 m a.answer in
    (
      s.frame,
      r,
      _,
      e,
      q ∙ ap inl s.address,
      access_memory_hit r.0 r.1 next next_write s.frame s.info (omega (arith, h, a.size_same))
          (ap (λ p. cached p (next / r.1.page_size) r.0.tlb.entries) a.pid_same
            ∙ ap (λ v. cached pt.pid v r.0.tlb.entries) (ap (λ z. next / z) a.size_same ∙ same)
            ∙ s.known)
          s.at,
      ap (λ z. inl (u64 (u64 (s.frame * z) + next % z))) a.size_same,
      refl,
    )

-- A page fault: an access, with a manager in order, a table whose pages in memory have frames, and a
-- page number that is an `int`, to a valid page that is not present and not in the TLB. It
-- succeeds, the address lies in a frame that now names the process and the page, and one fault is
-- counted. No other entry of the table changes, so that the entry of a page of this process that
-- was evicted still says that the page is present.
pub access_memory_fault :
    (mm : MemoryManager) (pt : PageTable) (v_addr : ℕ) (is_write : Bool) (e : PageTableEntry)
    → IsManaged mm
    → All (IsPlaced mm.num_frames) pt.entries
    → 0 < pt.page_size
    → v_addr / pt.page_size < int_min
    → cached pt.pid (v_addr / pt.page_size) mm.tlb.entries ≡ none
    → get_elem? pt.entries (v_addr / pt.page_size) ≡ some e
    → e.valid ≡ true
    → e.present ≡ false
    → (r : Access) × (a : ℕ) × (access_memory mm pt v_addr is_write ≡ returns r)
      × (r.2 ≡ inl a)
      × Named pt (v_addr / pt.page_size) (v_addr % pt.page_size) r.0 a
      × (r.0.page_faults ≡ mm.page_faults + 1)
      × ((v : ℕ) → v ≢ v_addr / pt.page_size → get_elem? r.1.entries v ≡ get_elem? pt.entries v)
access_memory_fault mm pt v_addr is_write e w all h small c at good away =
    let vpn = v_addr / pt.page_size in
    let mm1 = looked_up mm pt.pid vpn in
    let (x, q, o) =
      access_entry-Resolved mm1 pt vpn (v_addr % pt.page_size) e is_write
        (looked_up-IsManaged mm pt.pid vpn w) all
        (All-get_elem? (IsPlaced mm.num_frames) pt.entries vpn e all at) in
    (
      (x.0, x.1, inl x.2),
      x.2,
      access_memory_miss mm pt v_addr is_write h c
          ∙ access_table_run mm1 pt vpn _ is_write e x small
              (lt→ltb _ _ (get_elem?-lt_length pt.entries vpn e at)) at good q,
      refl,
      o.named away,
      o.faults ∙ ap (λ b. if b then mm.page_faults else mm.page_faults + 1) away,
      o.others,
    )
