-- ===== src/Memory/TwoLevel/Mapping.antt =====
-- What `Map` of pkg/memory/multilevel_pt.go puts into the directory.
use os_simulator.Base.{
  Bool, Bool-cases, ap, arith, false, false≢true, get_elem?, get_elem?-lt_length, get_elem?-set_ne,
  get_elem?-set_self, if◌then◌else◌, inl, inr, length, length-replicate, length-set, refl,
  replicate, returns, set, some, some_inj, subst, sym, true, ℕ, ℕ_discrete, ◌+◌, ◌/◌, ◌<◌, ◌>>=◌,
  ◌∙◌, ◌≡◌, ◌≢◌,
}
use os_simulator.Memory.Paging.{PageTable, mapped_entry, new_page_table, no_entry}
use os_simulator.Memory.Paging.Laws.{map_page_known}
use os_simulator.Memory.TwoLevel.{
  DirectoryEntry, TwoLevelTable, map_in, map_two_level, new_directory_entry, pde_index, pte_index,
}
use os_simulator.Memory.TwoLevel.Walk.{IsTwoLevel, entry_of, index_lt, page_entry, page_entry_in}

-- The directory entry that `Map` goes on with, and its second-level table.
abbrev pub base : TwoLevelTable → ℕ → DirectoryEntry → DirectoryEntry
base m i d = if d.valid then d else new_directory_entry m i

pub record Base (m : TwoLevelTable) (i : ℕ) (d : DirectoryEntry) : Type 0 where
  pub table : PageTable
  pub at : (base m i d).page_table ≡ some table
  pub sized : length table.entries ≡ 1024
  pub open_now : (base m i d).valid ≡ true
  pub old : d.valid ≡ true → d.page_table ≡ some table
  pub fresh : d.valid ≡ false → table.entries ≡ replicate 1024 no_entry

pub find-Base :
    (m : TwoLevelTable) (i : ℕ) (d : DirectoryEntry)
    → IsTwoLevel m
    → get_elem? m.directory i ≡ some d
    → Base m i d
unfolding new_directory_entry new_page_table
find-Base m i d v found = elim (Bool-cases d.valid) [
  | inl e ↦
      let (t, at, len) = v.tables i d found e in
      record {
        table = t;
        at = rw e at;
        sized = len;
        open_now = rw e refl;
        old = λ h. at;
        fresh = λ h. absurd (false≢true (sym h ∙ e));
      }
  | inr e ↦ record {
    table = new_page_table m.pid m.table_size m.page_size;
    at = rw e refl;
    sized = length-replicate m.table_size no_entry ∙ v.tables_sized;
    open_now = rw e refl;
    old = λ h. absurd (false≢true (sym e ∙ h));
    fresh = λ h. ap (λ n. replicate n no_entry) v.tables_sized;
  }
]

abbrev pub mapped_table : PageTable → ℕ → ℕ → Bool → PageTable
mapped_table t j frame writable = record t {
  entries = set t.entries j (mapped_entry frame writable);
}

abbrev pub mapped_directory : TwoLevelTable → ℕ → DirectoryEntry → PageTable → TwoLevelTable
mapped_directory m i d t = record m {
  directory = set m.directory i (record (base m i d) { page_table = some t });
  allocated_pts = if d.valid then m.allocated_pts else m.allocated_pts + 1;
}

map_in_known :
    (d : DirectoryEntry) (t : PageTable) (j frame : ℕ) (writable : Bool)
    → d.page_table ≡ some t
    → j < length t.entries
    → map_in d j frame writable
      ≡ returns (record d { page_table = some (mapped_table t j frame writable) })
unfolding map_in
map_in_known d t j frame writable at h =
    rw (map_in, at)
      (ap (λ o. o >>= (λ t'. returns (record d { page_table = some t' })))
        (map_page_known t j frame writable h))

pub map_known :
    (m : TwoLevelTable) (v_addr frame : ℕ) (writable : Bool) (d : DirectoryEntry)
    → get_elem? m.directory (pde_index v_addr) ≡ some d
    → (b : Base m (pde_index v_addr) d)
    → map_two_level m v_addr frame writable
      ≡ returns (
          mapped_directory m
            (pde_index v_addr)
            d
            (mapped_table b.table (pte_index v_addr) frame writable))
unfolding map_two_level
map_known m v_addr frame writable d found b =
    rw (map_two_level, found)
      (ap
        (λ o. o >>= (λ d'. returns (record m {
          directory = set m.directory (pde_index v_addr) d';
          allocated_pts = if d.valid then m.allocated_pts else m.allocated_pts + 1;
        })))
        (map_in_known (base m (pde_index v_addr) d) b.table (pte_index v_addr) frame writable b.at
          (omega (arith, b.sized, index_lt (v_addr / 4096)))))

module _ (m : TwoLevelTable) (v : IsTwoLevel m) (i : ℕ) (d : DirectoryEntry)
    (found : get_elem? m.directory i ≡ some d) (b : Base m i d) (t : PageTable)
    (len : length t.entries ≡ 1024) where
  found_mapped :
      get_elem? (mapped_directory m i d t).directory i
      ≡ some (record (base m i d) { page_table = some t })
  found_mapped = get_elem?-set_self m.directory i _ (get_elem?-lt_length m.directory i d found)

  found_other :
      (k : ℕ) → i ≢ k → get_elem? (mapped_directory m i d t).directory k ≡ get_elem? m.directory k
  found_other k ne = get_elem?-set_ne m.directory i k _ ne

  pub mapped-IsTwoLevel : IsTwoLevel (mapped_directory m i d t)
  mapped-IsTwoLevel = record {
    sized = length-set m.directory i _ ∙ v.sized;
    tables_sized = v.tables_sized;
    tables = λ k e at open_now. elim (ℕ_discrete i k) [
      | yes same ↦
          let same_entry = some_inj (
            sym
              (subst (λ n. get_elem? (mapped_directory m i d t).directory n ≡ some e) (sym same) at)
            ∙ found_mapped) in
          (t, ap DirectoryEntry.page_table same_entry, len)
      | no ne ↦ v.tables k e (sym (found_other k ne) ∙ at) open_now
    ];
  }

  pub page_entry-mapped :
      (j : ℕ) → page_entry (mapped_directory m i d t) i j ≡ get_elem? t.entries j
  page_entry-mapped j =
      page_entry_in (mapped_directory m i d t) i j _ t found_mapped b.open_now refl

  pub page_entry-other :
      (k j : ℕ) → i ≢ k → page_entry (mapped_directory m i d t) k j ≡ page_entry m k j
  page_entry-other k j ne = ap (entry_of j) (found_other k ne)
