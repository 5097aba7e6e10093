-- ===== src/Memory/Tlb.antt =====
-- pkg/memory/tlb.go: the translation lookaside buffer. Its mutex makes each method one step.
pub mod Slots
pub mod Reads
pub mod Eviction
pub mod Invariant
pub mod Insertion
pub mod History
mod Tests
use os_simulator.Base.{
  Bool, List, Option, Outcome, [], false, if◌then◌else◌, length, ltb, none, not, panics, replicate,
  returns, set, some, suc, true, zero, ℕ, ◌&&◌, ◌+◌, ◌==◌, ◌∷◌,
}

pub record TlbEntry : Type 0 where
  pub vpn : ℕ
  pub pfn : ℕ
  pub asid : ℕ
  pub valid : Bool
  pub read_write : Bool
  pub last_access : ℕ

pub record Tlb : Type 0 where
  pub capacity : ℕ
  pub entries : List TlbEntry
  pub hits : ℕ
  pub misses : ℕ
  pub access_tick : ℕ

abbrev pub no_tlb_entry : TlbEntry
no_tlb_entry = record {
  vpn = 0;
  pfn = 0;
  asid = 0;
  valid = false;
  read_write = false;
  last_access = 0;
}

unfoldable pub new_tlb : ℕ → Tlb
new_tlb wanted =
    let capacity = if wanted == 0 then 16 else wanted in
    record {
      capacity = capacity;
      entries = replicate capacity no_tlb_entry;
      hits = 0;
      misses = 0;
      access_tick = 0;
    }

-- The test that `Lookup` and `Insert` make of an entry.
abbrev pub is_match : ℕ → ℕ → TlbEntry → Bool
is_match pid vpn e = e.valid && e.asid == pid && e.vpn == vpn

-- The loop of `Lookup`: the index and the frame of the first match.
unfoldable pub find_match : ℕ → ℕ → ℕ → List TlbEntry → Option (ℕ × ℕ)
find_match pid vpn i [] = none
find_match pid vpn i (e ∷ es) =
    let rest = find_match pid vpn (suc i) es in if is_match pid vpn e then some (i, e.pfn) else rest

-- `e.LastAccess = tick` at an index.
unfoldable pub stamp : ℕ → ℕ → List TlbEntry → List TlbEntry
stamp tick i [] = []
stamp tick zero (e ∷ es) = record e { last_access = tick } ∷ es
stamp tick (suc i) (e ∷ es) = e ∷ stamp tick i es

-- The frame number and `found`; a miss returns frame 0.
unfoldable pub lookup : Tlb → ℕ → ℕ → Tlb × ℕ × Bool
lookup t pid vpn =
    let tick = t.access_tick + 1 in
    elim (find_match pid vpn 0 t.entries) [
      | none ↦ (record t { access_tick = tick; misses = t.misses + 1 }, 0, false)
      | some (i, frame) ↦ (
        record t { access_tick = tick; hits = t.hits + 1; entries = stamp tick i t.entries },
        frame,
        true,
      )
    ]

-- Where `Insert` writes: an empty slot, the entry of the same page, or the least recently used.
pub data Slot : Type 0 where
  empty_at update_at evict_at : ℕ → Slot

-- The loop of `Insert`, with its variables `i`, `lruIdx` and `oldestAccess`.
unfoldable pub find_slot : ℕ → ℕ → ℕ → ℕ → ℕ → List TlbEntry → Slot
find_slot pid vpn i lru oldest [] = evict_at lru
find_slot pid vpn i lru oldest (e ∷ es) =
    let older = ltb e.last_access oldest in
    let rest =
      find_slot pid vpn (suc i) (if older then i else lru) (if older then e.last_access else oldest)
        es in
    if not e.valid then empty_at i else if is_match pid vpn e then update_at i else rest

abbrev pub fresh_entry : ℕ → ℕ → ℕ → Bool → ℕ → TlbEntry
fresh_entry pid vpn frame writable tick = record {
  vpn = vpn;
  pfn = frame;
  asid = pid;
  valid = true;
  read_write = writable;
  last_access = tick;
}

-- An update keeps the fields of the entry that it does not name: they are those of the key.
unfoldable pub refresh : ℕ → Bool → ℕ → ℕ → List TlbEntry → List TlbEntry
refresh frame writable tick i [] = []
refresh frame writable tick zero (e ∷ es) =
    record e { pfn = frame; read_write = writable; last_access = tick } ∷ es
refresh frame writable tick (suc i) (e ∷ es) = e ∷ refresh frame writable tick i es

-- `tlb.Entries[lruIdx] = …` panics only where there is no entry at all.
unfoldable pub insert : Tlb → ℕ → ℕ → ℕ → Bool → Outcome Tlb
insert t pid vpn frame writable =
    let tick = t.access_tick + 1 in
    let new = fresh_entry pid vpn frame writable tick in
    elim (find_slot pid vpn 0 0 (tick + 1) t.entries) [
      | empty_at i ↦ returns (record t { access_tick = tick; entries = set t.entries i new })
      | update_at i ↦
          returns
            (record t { access_tick = tick; entries = refresh frame writable tick i t.entries })
      | evict_at i ↦
          if ltb i (length t.entries)
          then returns (record t { access_tick = tick; entries = set t.entries i new })
          else panics
    ]

unfoldable pub flush_entries : List TlbEntry → List TlbEntry
flush_entries [] = []
flush_entries (e ∷ es) = record e { valid = false } ∷ flush_entries es

unfoldable pub flush : Tlb → Tlb
flush t = record t { entries = flush_entries t.entries }
