-- ===== src/Memory/TwoLevel.antt =====
-- pkg/memory/multilevel_pt.go: a page directory with second-level tables made on demand. The indices
-- are bits 22 to 31 and 12 to 21 of the address, so higher bits do not count.
pub mod Walk
pub mod Mapping
pub mod RoundTrip
mod Tests
use os_simulator.Base.{
  Bool, List, Option, Outcome, false, get_elem?, if◌then◌else◌, none, not, panics, replicate,
  returns, set, some, true, u64, ℕ, ◌%◌, ◌&&◌, ◌*◌, ◌+◌, ◌/◌, ◌>>=◌,
}
use os_simulator.Memory.Paging.{
  PageTable, PageTableEntry, PagingError, in_table, invalid_page, map_page, new_page_table,
  page_fault, protection_fault, touch,
}

pub record DirectoryEntry : Type 0 where
  pub valid : Bool
  pub page_table : Option PageTable
  pub pfn : ℕ

pub record TwoLevelTable : Type 0 where
  pub pid : ℕ
  pub page_size : ℕ
  pub directory_size : ℕ
  pub table_size : ℕ
  pub directory : List DirectoryEntry
  pub allocated_pts : ℕ

abbrev pub no_directory_entry : DirectoryEntry
no_directory_entry = record { valid = false; page_table = none; pfn = 0 }

unfoldable pub new_two_level : ℕ → TwoLevelTable
new_two_level pid = record {
  pid = pid;
  page_size = 4096;
  directory_size = 1024;
  table_size = 1024;
  directory = replicate 1024 no_directory_entry;
  allocated_pts = 0;
}

abbrev pub pde_index : ℕ → ℕ
pde_index v_addr = v_addr / 4194304 % 1024

abbrev pub pte_index : ℕ → ℕ
pte_index v_addr = v_addr / 4096 % 1024

unfoldable pub new_directory_entry : TwoLevelTable → ℕ → DirectoryEntry
new_directory_entry m pde = record {
  valid = true;
  page_table = some (new_page_table m.pid m.table_size m.page_size);
  pfn = u64 (pde + 100);
}

-- `MapPage` on the second-level table; a nil table is a panic.
unfoldable pub map_in : DirectoryEntry → ℕ → ℕ → Bool → Outcome DirectoryEntry
map_in d pte frame writable = elim d.page_table [
  | none ↦ panics
  | some t ↦ do t' ← map_page t pte frame writable; returns (record d { page_table = some t' })
]

unfoldable pub map_two_level : TwoLevelTable → ℕ → ℕ → Bool → Outcome TwoLevelTable
map_two_level m v_addr frame writable =
    let pde = pde_index v_addr in
    elim (get_elem? m.directory pde) [
      | none ↦ panics
      | some d ↦ do
        d' ←
            map_in (if d.valid then d else new_directory_entry m pde) (pte_index v_addr) frame
              writable
        returns (record m {
          directory = set m.directory pde d';
          allocated_pts = if d.valid then m.allocated_pts else m.allocated_pts + 1;
        })
    ]

-- `Translate` from the entry on: the new entry, the address and the error.
unfoldable pub walk_entry : ℕ → ℕ → PageTableEntry → Bool → PageTableEntry × ℕ × Option PagingError
walk_entry page_size offset e is_write =
    if not e.valid
    then (e, 0, some invalid_page)
    else if not e.present
    then (e, 0, some page_fault)
    else if is_write && not e.read_write
    then (e, 0, some protection_fault)
    else (touch e is_write, u64 (u64 (e.pfn * page_size) + offset), none)

-- `Translate` on the second-level table.
unfoldable pub walk_table :
    ℕ → ℕ → ℕ → PageTable → Bool → Outcome (PageTable × ℕ × Option PagingError)
walk_table page_size pte offset t is_write =
    if not (in_table t pte)
    then returns (t, 0, some invalid_page)
    else elim (get_elem? t.entries pte) [
      | none ↦ panics
      | some e ↦
          let (e', a, err) = walk_entry page_size offset e is_write in
          returns (record t { entries = set t.entries pte e' }, a, err)
    ]

unfoldable pub translate_two_level :
    TwoLevelTable → ℕ → Bool → Outcome (TwoLevelTable × ℕ × Option PagingError)
translate_two_level m v_addr is_write =
    let pde = pde_index v_addr in
    elim (get_elem? m.directory pde) [
      | none ↦ panics
      | some d ↦ if not d.valid then returns (m, 0, some invalid_page) else elim d.page_table [
        | none ↦ panics
        | some t ↦ do
          (t', a, err) ← walk_table m.page_size (pte_index v_addr) (v_addr % 4096) t is_write
          returns (
            record m { directory = set m.directory pde (record d { page_table = some t' }) },
            a,
            err,
          )
      ]
    ]
