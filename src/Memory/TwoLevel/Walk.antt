-- ===== src/Memory/TwoLevel/Walk.antt =====
-- How `Translate` of pkg/memory/multilevel_pt.go finds the entry of a page.
use os_simulator.Base.{
  Bool, Bool-cases, Option, Outcome, ap, arith, false, get_elem?, get_elem?_lt, if◌then◌else◌, inl,
  inr, length, none, panics, refl, returns, set, some, sym, true, ℕ, ◌%◌, ◌/◌, ◌<◌, ◌>>=◌, ◌∙◌, ◌≡◌,
}
use os_simulator.Memory.Paging.{PageTable, PageTableEntry, PagingError, in_table, invalid_page}
use os_simulator.Memory.TwoLevel.{
  DirectoryEntry, TwoLevelTable, pde_index, pte_index, translate_two_level, walk_entry, walk_table,
}

abbrev pub HasTable : DirectoryEntry → Type 0
HasTable d = (t : PageTable) × (d.page_table ≡ some t) × (length t.entries ≡ 1024)

pub record IsTwoLevel (m : TwoLevelTable) : Type 0 where
  pub sized : length m.directory ≡ 1024
  pub tables_sized : m.table_size ≡ 1024
  pub tables :
      (i : ℕ) (d : DirectoryEntry) → get_elem? m.directory i ≡ some d → d.valid ≡ true → HasTable d

-- The entry of a page.
abbrev pub second_level : DirectoryEntry → ℕ → Option PageTableEntry
second_level d j =
    if d.valid then elim d.page_table [ none ↦ none | some t ↦ get_elem? t.entries j ] else none

abbrev pub entry_of : ℕ → Option DirectoryEntry → Option PageTableEntry
entry_of j none = none
entry_of j (some d) = second_level d j

abbrev pub page_entry : TwoLevelTable → ℕ → ℕ → Option PageTableEntry
page_entry m i j = entry_of j (get_elem? m.directory i)

-- The address and the error for an entry.
abbrev pub reply : ℕ → ℕ → Option PageTableEntry → Bool → ℕ × Option PagingError
reply size offset none is_write = (0, some invalid_page)
reply size offset (some e) is_write =
    ((walk_entry size offset e is_write).1, (walk_entry size offset e is_write).2)

abbrev pub reply_of {ℓ} :
    {A : Type ℓ} → Outcome (A × ℕ × Option PagingError) → Outcome (ℕ × Option PagingError)
reply_of (returns (a, n, e)) = returns (n, e)
reply_of panics = panics

inside_table : (t : PageTable) (j : ℕ) → j < length t.entries → in_table t j ≡ true
inside_table t j h = ground arith

walk_table-reply :
    (size j offset : ℕ) (t : PageTable) (is_write : Bool)
    → j < length t.entries
    → reply_of (walk_table size j offset t is_write)
      ≡ returns (reply size offset (get_elem? t.entries j) is_write)
unfolding walk_table
walk_table-reply size j offset t is_write h =
    let (e, found) = get_elem?_lt t.entries j h in rw (inside_table t j h, found, walk_table) refl

pub index_lt : (n : ℕ) → n % 1024 < 1024
index_lt n = omega arith

reply_bind {ℓ κ} :
    {A : Type ℓ} {B : Type κ} (o : Outcome (A × ℕ × Option PagingError)) (f : A → B)
    → reply_of (o >>= (λ r. returns (f r.0, r.1, r.2))) ≡ reply_of o
reply_bind (returns r) f = refl
reply_bind panics f = refl

translate_in :
    (m : TwoLevelTable) (v_addr : ℕ) (is_write : Bool) (d : DirectoryEntry) (t : PageTable)
    → get_elem? m.directory (pde_index v_addr) ≡ some d
    → d.valid ≡ true
    → d.page_table ≡ some t
    → reply_of (translate_two_level m v_addr is_write)
      ≡ reply_of (walk_table m.page_size (pte_index v_addr) (v_addr % 4096) t is_write)
unfolding translate_two_level
translate_in m v_addr is_write d t found e at =
    rw (found, translate_two_level)
      (rw (e, at)
        (reply_bind (walk_table m.page_size (pte_index v_addr) (v_addr % 4096) t is_write) (λ t'.
          record m {
            directory = set m.directory (pde_index v_addr) (record d { page_table = some t' });
          })))

translate_outside :
    (m : TwoLevelTable) (v_addr : ℕ) (is_write : Bool) (d : DirectoryEntry)
    → get_elem? m.directory (pde_index v_addr) ≡ some d
    → d.valid ≡ false
    → translate_two_level m v_addr is_write ≡ returns (m, 0, some invalid_page)
unfolding translate_two_level
translate_outside m v_addr is_write d found e = rw (found, translate_two_level) (rw e refl)

pub page_entry_in :
    (m : TwoLevelTable) (i j : ℕ) (d : DirectoryEntry) (t : PageTable)
    → get_elem? m.directory i ≡ some d
    → d.valid ≡ true
    → d.page_table ≡ some t
    → page_entry m i j ≡ get_elem? t.entries j
page_entry_in m i j d t found e at = rw (page_entry, found) (rw (e, at) refl)

pub page_entry_outside :
    (m : TwoLevelTable) (i j : ℕ) (d : DirectoryEntry)
    → get_elem? m.directory i ≡ some d
    → d.valid ≡ false
    → page_entry m i j ≡ none
page_entry_outside m i j d found e = rw (page_entry, found) (rw e refl)

-- In a well-formed table `Translate` answers by the entry of the page.
pub translate_reply :
    (m : TwoLevelTable) (v_addr : ℕ) (is_write : Bool)
    → IsTwoLevel m
    → reply_of (translate_two_level m v_addr is_write)
      ≡ returns (
          reply m.page_size
            (v_addr % 4096)
            (page_entry m (pde_index v_addr) (pte_index v_addr))
            is_write)
translate_reply m v_addr is_write v =
    let i = pde_index v_addr in
    let j = pte_index v_addr in
    let (d, found) =
      get_elem?_lt m.directory i (omega (arith, v.sized, index_lt (v_addr / 4194304))) in
    elim (Bool-cases d.valid) [
      | inr e ↦
          ap reply_of (translate_outside m v_addr is_write d found e)
          ∙ ap (λ o. returns (reply m.page_size (v_addr % 4096) o is_write))
              (sym (page_entry_outside m i j d found e))
      | inl e ↦
          let (t, at, len) = v.tables i d found e in
          translate_in m v_addr is_write d t found e at
          ∙ walk_table-reply m.page_size j (v_addr % 4096) t is_write
              (omega (arith, len, index_lt (v_addr / 4096)))
          ∙ ap (λ o. returns (reply m.page_size (v_addr % 4096) o is_write))
              (sym (page_entry_in m i j d t found e at))
    ]
