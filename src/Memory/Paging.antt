-- ===== src/Memory/Paging.antt =====
-- pkg/memory/paging.go: the linear page table of a process.
-- A `*PageTableEntry` that a call returns is the entry's index in the table.
pub mod Laws
mod Tests
use os_simulator.Base.{
  Bool, List, Option, Outcome, false, get_elem?, if◌then◌else◌, is_negative, length, ltb, none, not,
  panics, replicate, returns, set, some, true, u64, ℕ, ◌%◌, ◌&&◌, ◌*◌, ◌+◌, ◌/◌, ◌==◌, ◌||◌,
}

-- ErrPageFault, ErrProtectionFault and ErrInvalidPage.
pub data PagingError : Type 0 where
  page_fault protection_fault invalid_page : PagingError

pub record PageTableEntry : Type 0 where
  pub valid : Bool
  pub present : Bool
  pub read_write : Bool
  pub user_supervisor : Bool
  pub accessed : Bool
  pub dirty : Bool
  pub pfn : ℕ
  pub swap_offset : ℕ

pub record PageTable : Type 0 where
  pub pid : ℕ
  pub page_size : ℕ
  pub entries : List PageTableEntry
  pub num_pages : ℕ

-- The zero value of the struct.
abbrev pub no_entry : PageTableEntry
no_entry = record {
  valid = false;
  present = false;
  read_write = false;
  user_supervisor = false;
  accessed = false;
  dirty = false;
  pfn = 0;
  swap_offset = 0;
}

unfoldable pub new_page_table : ℕ → ℕ → ℕ → PageTable
new_page_table pid num_pages page_size = record {
  pid = pid;
  page_size = if page_size == 0 then 4096 else page_size;
  entries = replicate num_pages no_entry;
  num_pages = num_pages;
}

abbrev pub mapped_entry : ℕ → Bool → PageTableEntry
mapped_entry frame writable = record no_entry {
  valid = true;
  present = true;
  read_write = writable;
  user_supervisor = true;
  pfn = frame;
}

-- `int(vpn) < len(pt.Entries)`: a `vpn` of 2 ^ 63 or more is a negative `int`.
abbrev pub in_table : PageTable → ℕ → Bool
in_table pt vpn = is_negative vpn || ltb vpn (length pt.entries)

-- `pt.Entries[vpn] = …`, past the test on `int(vpn)`, panics out of range.
unfoldable pub map_page : PageTable → ℕ → ℕ → Bool → Outcome PageTable
map_page pt vpn frame writable =
    if in_table pt vpn
    then if ltb vpn (length pt.entries)
      then returns (record pt { entries = set pt.entries vpn (mapped_entry frame writable) })
      else panics
    else returns pt

-- The three results of `Translate`.
pub record Translation : Type 0 where
  pub p_addr : ℕ
  pub pte : Option ℕ
  pub error : Option PagingError

-- The `Accessed` and `Dirty` bits that the MMU sets.
abbrev pub touch : PageTableEntry → Bool → PageTableEntry
touch e is_write = record e { accessed = true; dirty = is_write || e.dirty }

-- `Translate` from the entry on: present bit, permissions, tracking bits, physical address.
unfoldable pub translate_entry : PageTable → ℕ → ℕ → PageTableEntry → Bool → PageTable × Translation
translate_entry pt vpn offset e is_write =
    if not e.valid
    then (pt, record { p_addr = 0; pte = none; error = some invalid_page })
    else if not e.present
    then (pt, record { p_addr = 0; pte = some vpn; error = some page_fault })
    else if is_write && not e.read_write
    then (pt, record { p_addr = 0; pte = some vpn; error = some protection_fault })
    else (
      record pt { entries = set pt.entries vpn (touch e is_write) },
      record { p_addr = u64 (u64 (e.pfn * pt.page_size) + offset); pte = some vpn; error = none },
    )

-- A read out of range, past the test on `int(vpn)`, panics; so does a division by a page size of 0.
unfoldable pub translate : PageTable → ℕ → Bool → Outcome (PageTable × Translation)
unfolding translate_entry
translate pt v_addr is_write =
    if pt.page_size == 0
    then panics
    else let vpn = v_addr / pt.page_size in
      if not (in_table pt vpn)
      then returns (pt, record { p_addr = 0; pte = none; error = some invalid_page })
      else elim (get_elem? pt.entries vpn) [
        | none ↦ panics
        | some e ↦ returns (translate_entry pt vpn (v_addr % pt.page_size) e is_write)
      ]
