-- ===== src/Memory/Manager/Answering.antt =====
-- `AccessMemory` of pkg/memory/page_replacement.go after the lookup in the buffer: what a hit and a miss do.
use os_simulator.Base.{
  All, All-get_elem?, Bool, Bool-cases, ap, arith, false, get_elem?, get_elem?-lt_length,
  get_elem?_lt, inl, inr, int_min, length, ltb, ltb→lt, none, refl, returns, set, some, sym, true,
  u64, ℕ, ◌%◌, ◌*◌, ◌+◌, ◌/◌, ◌<◌, ◌==◌, ◌∙◌, ◌≡◌, ◌≢◌, ◌⊎◌,
}
use os_simulator.Memory.Manager.{
  Access, FrameInfo, MemoryManager, access_entry, access_memory, access_table, use_frame,
}
use os_simulator.Memory.Paging.{PageTable, PageTableEntry, PagingError, invalid_page}
use os_simulator.Memory.Tlb.{lookup}
use os_simulator.Memory.Tlb.Reads.{cached, lookup-cached, lookup-cached_found, reply}
use os_simulator.Memory.Tlb.Invariant.{lookup-IsWellFormed, lookup-keeps_cached}
use os_simulator.Memory.Manager.Invariant.{IsManaged, IsPlaced}
use os_simulator.Memory.Manager.Serving.{Served, touch_run}
use os_simulator.Memory.Manager.Accessing.{access_entry-Resolved}

-- The page has a valid entry in the table.
abbrev pub IsMapped : PageTable → ℕ → Type 0
IsMapped pt vpn = (e : PageTableEntry) × (get_elem? pt.entries vpn ≡ some e) × (e.valid ≡ true)

-- The access was refused: the page is not mapped, and table and frames stay as they are.
pub record Refused (mm : MemoryManager) (pt : PageTable) (vpn : ℕ) (r : Access) (e : PagingError)
    : Type 0 where
  pub invalid : e ≡ invalid_page
  pub unmapped : ¬ IsMapped pt vpn
  pub table_kept : r.1 ≡ pt
  pub frames_kept : r.0.frames ≡ mm.frames
  pub faults_kept : r.0.page_faults ≡ mm.page_faults

abbrev pub Answer : MemoryManager → PageTable → ℕ → ℕ → Bool → Access → ℕ ⊎ PagingError → Type 0
Answer mm pt vpn offset is_write r (inl a) = Served pt vpn offset is_write r.0 a
Answer mm pt vpn offset is_write r (inr e) = Refused mm pt vpn r e

-- What an access leaves: a well-formed manager with as many frames, one tick later, a table whose
-- pages in memory have frames, and its answer.
pub record Accessed (mm : MemoryManager) (pt : PageTable) (vpn offset : ℕ) (is_write : Bool)
    (now : ℕ) (r : Access) : Type 0 where
  pub managed : IsManaged r.0
  pub frames_same : r.0.num_frames ≡ mm.num_frames
  pub ticked : r.0.current_tick ≡ now
  pub pid_same : r.1.pid ≡ pt.pid
  pub size_same : r.1.page_size ≡ pt.page_size
  pub placed : All (IsPlaced mm.num_frames) r.1.entries
  pub others : (v : ℕ) → v ≢ vpn → get_elem? r.1.entries v ≡ get_elem? pt.entries v
  pub answer : Answer mm pt vpn offset is_write r r.2

pub access_table_run :
    (mm : MemoryManager) (pt : PageTable) (vpn offset : ℕ) (is_write : Bool) (e : PageTableEntry)
    (x : MemoryManager × PageTable × ℕ)
    → vpn < int_min
    → ltb vpn (length pt.entries) ≡ true
    → get_elem? pt.entries vpn ≡ some e
    → e.valid ≡ true
    → access_entry mm pt vpn offset e is_write ≡ returns x
    → access_table mm pt vpn offset is_write ≡ returns (x.0, x.1, inl x.2)
unfolding access_table
access_table_run mm pt vpn offset is_write e x h inside at good q =
    ground (arith, h, inside, at, good, q)

module _ (mm : MemoryManager) (pt : PageTable) (vpn offset : ℕ) (is_write : Bool) (w : IsManaged mm)
    (all : All (IsPlaced mm.num_frames) pt.entries) where
  refused-Accessed :
      ¬ IsMapped pt vpn
      → Accessed mm pt vpn offset is_write mm.current_tick (mm, pt, inr invalid_page)
  refused-Accessed missing = record {
    managed = w;
    frames_same = refl;
    ticked = refl;
    pid_same = refl;
    size_same = refl;
    placed = all;
    others = λ v ne. refl;
    answer = record {
      invalid = refl;
      unmapped = missing;
      table_kept = refl;
      frames_kept = refl;
      faults_kept = refl;
    };
  }

  pub access_table-Accessed :
      vpn < int_min
      → (r : Access) × (access_table mm pt vpn offset is_write ≡ returns r)
        × Accessed mm pt vpn offset is_write mm.current_tick r
  unfolding access_table
  access_table-Accessed h = elim (Bool-cases (ltb vpn (length pt.entries))) [
    | inr out ↦ (
      (mm, pt, inr invalid_page),
      ground (arith, out),
      refused-Accessed (λ (e, at, v). ground (arith, out, get_elem?-lt_length pt.entries vpn e at)),
    )
    | inl inside ↦
        let (e, at) = get_elem?_lt pt.entries vpn (ltb→lt _ _ inside) in
        elim (Bool-cases e.valid) [
          | inr bad ↦ (
            (mm, pt, inr invalid_page),
            ground (arith, inside, at, bad),
            refused-Accessed (λ (e', at', v). cc),
          )
          | inl good ↦
              let (x, q, o) =
                access_entry-Resolved mm pt vpn offset e is_write w all
                  (All-get_elem? (IsPlaced mm.num_frames) pt.entries vpn e all at) in
              (
                (x.0, x.1, inl x.2),
                access_table_run mm pt vpn offset is_write e x h inside at good q,
                record {
                  managed = o.managed;
                  frames_same = o.frames_same;
                  ticked = o.tick_same;
                  pid_same = o.pid_same;
                  size_same = o.size_same;
                  placed = o.placed;
                  others = o.others;
                  answer = o.served;
                },
              )
        ]
  ]

-- The manager after the lookup in the buffer.
abbrev pub looked_up : MemoryManager → ℕ → ℕ → MemoryManager
looked_up mm pid vpn = record mm {
  current_tick = mm.current_tick + 1;
  tlb = (lookup mm.tlb pid vpn).0;
}

pub looked_up-IsManaged :
    (mm : MemoryManager) (pid vpn : ℕ) → IsManaged mm → IsManaged (looked_up mm pid vpn)
looked_up-IsManaged mm pid vpn w = record {
  sized = w.sized;
  hand_inside = w.hand_inside;
  buffer = lookup-IsWellFormed mm.tlb pid vpn w.buffer;
  backed = λ p v k c. w.backed p v k (sym (lookup-keeps_cached mm.tlb pid vpn p v) ∙ c);
  fetched = w.fetched;
  written = w.written;
  evicted = w.evicted;
}

==_pos : (n : ℕ) → 0 < n → (n == 0) ≡ false
==_pos n h = ground arith

pub access_memory_hit :
    (mm : MemoryManager) (pt : PageTable) (v_addr : ℕ) (is_write : Bool) (k : ℕ) (f : FrameInfo)
    → 0 < pt.page_size
    → cached pt.pid (v_addr / pt.page_size) mm.tlb.entries ≡ some k
    → get_elem? mm.frames k ≡ some f
    → access_memory mm pt v_addr is_write
      ≡ returns (
        record (looked_up mm pt.pid (v_addr / pt.page_size)) {
          frames = set mm.frames k (use_frame (mm.current_tick + 1) is_write f);
        },
        pt,
        inl (u64 (u64 (k * pt.page_size) + v_addr % pt.page_size)),
      )
unfolding access_memory
access_memory_hit mm pt v_addr is_write k f h c at =
    let vpn = v_addr / pt.page_size in
    let found : (lookup mm.tlb pt.pid vpn).2 ≡ true =
      lookup-cached_found mm.tlb pt.pid vpn ∙ ap (λ r. (reply r).1) c in
    let frame : (lookup mm.tlb pt.pid vpn).1 ≡ k =
      lookup-cached mm.tlb pt.pid vpn ∙ ap (λ r. (reply r).0) c in
    rw (==_pos pt.page_size h, access_memory)
      (rw (found, frame, touch_run (looked_up mm pt.pid vpn) k is_write f at) refl)

pub access_memory_miss :
    (mm : MemoryManager) (pt : PageTable) (v_addr : ℕ) (is_write : Bool)
    → 0 < pt.page_size
    → cached pt.pid (v_addr / pt.page_size) mm.tlb.entries ≡ none
    → access_memory mm pt v_addr is_write
      ≡ access_table
          (looked_up mm pt.pid (v_addr / pt.page_size))
          pt
          (v_addr / pt.page_size)
          (v_addr % pt.page_size)
          is_write
unfolding access_memory
access_memory_miss mm pt v_addr is_write h c =
    let missing : (lookup mm.tlb pt.pid (v_addr / pt.page_size)).2 ≡ false =
      lookup-cached_found mm.tlb pt.pid (v_addr / pt.page_size) ∙ ap (λ r. (reply r).1) c in
    rw (==_pos pt.page_size h, access_memory) (rw missing refl)
