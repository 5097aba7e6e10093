-- ===== src/Memory/TwoLevel/RoundTrip.antt =====
-- What `Map` and `Translate` of pkg/memory/multilevel_pt.go promise together.
use os_simulator.Base.{
  Bool, Bool-cases, Option, ap, arith, false, false≢true, get_elem?, get_elem?-set_ne,
  get_elem?-set_self, get_elem?_lt, inl, inr, length-replicate, length-set, refl, replicate,
  returns, some, some_inj, subst, suc, sym, zero, ℕ, ℕ_discrete, ◌%◌, ◌/◌, ◌<◌, ◌∙◌, ◌≡◌, ◌≢◌, ◌⊎◌,
}
use os_simulator.Memory.Paging.{PageTableEntry, invalid_page, mapped_entry, no_entry}
use os_simulator.Memory.Paging.Laws.{expected_answer}
use os_simulator.Memory.TwoLevel.{
  DirectoryEntry, TwoLevelTable, map_two_level, new_two_level, no_directory_entry, pde_index,
  pte_index, translate_two_level, walk_entry,
}
use os_simulator.Memory.TwoLevel.Walk.{
  IsTwoLevel, index_lt, page_entry, page_entry_in, page_entry_outside, reply, reply_of,
  translate_reply,
}
use os_simulator.Memory.TwoLevel.Mapping.{
  Base, find-Base, map_known, mapped-IsTwoLevel, mapped_directory, mapped_table, page_entry-mapped,
  page_entry-other,
}

reply-mapped :
    (size offset frame : ℕ) (writable is_write : Bool)
    → reply size offset (some (mapped_entry frame writable)) is_write
      ≡ expected_answer size frame offset writable is_write
unfolding walk_entry
reply-mapped size offset frame writable is_write = ground arith

get_elem?-replicate : (n k : ℕ) (e : PageTableEntry) → k < n → get_elem? (replicate n e) k ≡ some e
get_elem?-replicate zero k e h = absurd (omega arith)
get_elem?-replicate (suc n) zero e h = refl
get_elem?-replicate (suc n) (suc k) e h = get_elem?-replicate n k e (omega arith)

reply-no_entry :
    (size offset : ℕ) (is_write : Bool)
    → reply size offset (some no_entry) is_write ≡ (0, some invalid_page)
unfolding walk_entry
reply-no_entry size offset is_write = refl

-- A page of the table that `Map` goes on with answers as before, also if the table is new.
Base-reply :
    (m : TwoLevelTable) (i j size offset : ℕ) (is_write : Bool) (d : DirectoryEntry)
    → get_elem? m.directory i ≡ some d
    → (b : Base m i d) → j < 1024
    → reply size offset (get_elem? b.table.entries j) is_write
      ≡ reply size offset (page_entry m i j) is_write
Base-reply m i j size offset is_write d found b h = elim (Bool-cases d.valid) [
  | inl e ↦
      ap (λ o. reply size offset o is_write) (sym (page_entry_in m i j d b.table found e (b.old e)))
  | inr e ↦
      ap (λ o. reply size offset o is_write)
        (ap (λ es. get_elem? es j) (b.fresh e) ∙ get_elem?-replicate 1024 j no_entry h)
      ∙ reply-no_entry size offset is_write
      ∙ ap (λ o. reply size offset o is_write) (sym (page_entry_outside m i j d found e))
]

-- Two addresses of different pages, as far as the table tells pages apart.
abbrev pub IsOtherPage : ℕ → ℕ → Type 0
IsOtherPage w v = (pde_index w ≢ pde_index v) ⊎ (pte_index w ≢ pte_index v)

other_index : (w v : ℕ) → IsOtherPage w v → pde_index v ≡ pde_index w → pte_index v ≢ pte_index w
other_index w v (inl ne) e = λ h. ne (sym e)
other_index w v (inr ne) e = λ h. ne (sym h)

other-reply :
    (m : TwoLevelTable) (v_addr w_addr frame : ℕ) (writable is_write : Bool) (d : DirectoryEntry)
    (v : IsTwoLevel m) (found : get_elem? m.directory (pde_index v_addr) ≡ some d)
    (b : Base m (pde_index v_addr) d)
    → IsOtherPage w_addr v_addr
    → let t = mapped_table b.table (pte_index v_addr) frame writable in
      let m' = mapped_directory m (pde_index v_addr) d t in
      reply m.page_size
        (w_addr % 4096)
        (page_entry m' (pde_index w_addr) (pte_index w_addr))
        is_write
      ≡ reply m.page_size
          (w_addr % 4096)
          (page_entry m (pde_index w_addr) (pte_index w_addr))
          is_write
other-reply m v_addr w_addr frame writable is_write d v found b ne =
    let i = pde_index v_addr in
    let t = mapped_table b.table (pte_index v_addr) frame writable in
    let len = length-set b.table.entries (pte_index v_addr) _ ∙ b.sized in
    let answer_by = λ (o : Option PageTableEntry). reply m.page_size (w_addr % 4096) o is_write in
    elim (ℕ_discrete i (pde_index w_addr)) [
      | no far ↦
          ap answer_by
            (page_entry-other m v i d found b t len (pde_index w_addr) (pte_index w_addr) far)
      | yes same ↦
          subst
            (λ k.
              answer_by (page_entry (mapped_directory m i d t) k (pte_index w_addr))
              ≡ answer_by (page_entry m k (pte_index w_addr)))
            same
            (ap answer_by (
                page_entry-mapped m v i d found b t len (pte_index w_addr)
                ∙ get_elem?-set_ne b.table.entries (pte_index v_addr) (pte_index w_addr) _
                    (other_index w_addr v_addr ne same))
              ∙ Base-reply m i (pte_index w_addr) m.page_size (w_addr % 4096) is_write d found b
                  (index_lt (w_addr / 4096)))
    ]

-- In a well-formed two-level table `Map` succeeds and keeps the table well formed, also where it has
-- to make a second-level table. Then the address translates to its offset in the given frame, or is
-- refused as a write to a read-only page, and every address of another page is answered as before.
pub translate-map_two_level :
    (m : TwoLevelTable) (v_addr frame : ℕ) (writable is_write : Bool)
    → IsTwoLevel m
    → (m' : TwoLevelTable) × (map_two_level m v_addr frame writable ≡ returns m')
      × IsTwoLevel m'
      × (reply_of (translate_two_level m' v_addr is_write)
          ≡ returns (expected_answer m.page_size frame (v_addr % 4096) writable is_write))
      × ((w_addr : ℕ)
          → IsOtherPage w_addr v_addr
          → reply_of (translate_two_level m' w_addr is_write)
            ≡ reply_of (translate_two_level m w_addr is_write))
translate-map_two_level m v_addr frame writable is_write v =
    let i = pde_index v_addr in
    let j = pte_index v_addr in
    let (d, found) =
      get_elem?_lt m.directory i (omega (arith, v.sized, index_lt (v_addr / 4194304))) in
    let b = find-Base m i d v found in
    let t = mapped_table b.table j frame writable in
    let len = length-set b.table.entries j _ ∙ b.sized in
    let m' = mapped_directory m i d t in
    let v' = mapped-IsTwoLevel m v i d found b t len in
    (
      m',
      map_known m v_addr frame writable d found b,
      v',
      translate_reply m' v_addr is_write v'
          ∙ ap returns (
              ap (λ o. reply m.page_size (v_addr % 4096) o is_write)
                (page_entry-mapped m v i d found b t len j
                  ∙ get_elem?-set_self b.table.entries j _
                      (omega (arith, b.sized, index_lt (v_addr / 4096))))
              ∙ reply-mapped m.page_size (v_addr % 4096) frame writable is_write),
      λ w_addr ne.
          translate_reply m' w_addr is_write v'
          ∙ ap returns (other-reply m v_addr w_addr frame writable is_write d v found b ne)
          ∙ sym (translate_reply m w_addr is_write v),
    )

nothing_valid :
    (n i : ℕ) (d e : DirectoryEntry)
    → e.valid ≡ false
    → get_elem? (replicate n e) i ≡ some d
    → d.valid ≡ false
nothing_valid zero i d e h at = cc
nothing_valid (suc n) zero d e h at = ap DirectoryEntry.valid (sym (some_inj at)) ∙ h
nothing_valid (suc n) (suc i) d e h at = nothing_valid n i d e h at

pub new_two_level-IsTwoLevel : (pid : ℕ) → IsTwoLevel (new_two_level pid)
unfolding new_two_level
new_two_level-IsTwoLevel pid = record {
  sized = length-replicate 1024 no_directory_entry;
  tables_sized = refl;
  tables = λ i d at open_now.
      absurd (false≢true (sym (nothing_valid 1024 i d no_directory_entry refl at) ∙ open_now));
}
