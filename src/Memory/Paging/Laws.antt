-- ===== src/Memory/Paging/Laws.antt =====
-- What `MapPage` and `Translate` of pkg/memory/paging.go promise together.
use os_simulator.Base.{
  Bool, Bool-cases, Option, ap, arith, get_elem?, get_elem?-lt_length, get_elem?-set_ne,
  get_elem?-set_self, get_elem?_lt, if◌then◌else◌, inl, inr, length, ltb, none, not, set, some, sym,
  true, u64, ℕ, ◌%◌, ◌&&◌, ◌*◌, ◌+◌, ◌/◌, ◌<◌, ◌↔◌, ◌∙◌, ◌≡◌, ◌≢◌,
}
use os_simulator.Memory.Paging.{
  Outcome, PageTable, PageTableEntry, PagingError, Translation, map_page, mapped_entry, panics,
  protection_fault, returns, touch, translate, translate_entry,
}

-- An entry that is there is read, and `Translate` goes on from it.
pub translate_known :
    (pt : PageTable) (v_addr : ℕ) (is_write : Bool) (e : PageTableEntry)
    → 0 < pt.page_size
    → get_elem? pt.entries (v_addr / pt.page_size) ≡ some e
    → translate pt v_addr is_write
      ≡ returns (translate_entry pt (v_addr / pt.page_size) (v_addr % pt.page_size) e is_write)
unfolding translate
translate_known pt v_addr is_write e pos found =
    ground (arith, get_elem?-lt_length pt.entries (v_addr / pt.page_size) e found)

pub div_page : (p vpn offset : ℕ) → offset < p → (vpn * p + offset) / p ≡ vpn
div_page p vpn offset h = grind arith

pub mod_page : (p vpn offset : ℕ) → offset < p → (vpn * p + offset) % p ≡ offset
mod_page p vpn offset h = grind arith

-- The same at an address given as a page and an offset.
pub translate_at :
    (pt : PageTable) (vpn offset : ℕ) (is_write : Bool) (e : PageTableEntry)
    → offset < pt.page_size
    → get_elem? pt.entries vpn ≡ some e
    → translate pt (vpn * pt.page_size + offset) is_write
      ≡ returns (translate_entry pt vpn offset e is_write)
translate_at pt vpn offset is_write e h found =
    let d = div_page pt.page_size vpn offset h in
    translate_known pt (vpn * pt.page_size + offset) is_write e (omega arith) (rw d found)
    ∙ rw (d, mod_page pt.page_size vpn offset h)

pub map_page_known :
    (pt : PageTable) (vpn frame : ℕ) (writable : Bool)
    → vpn < length pt.entries
    → map_page pt vpn frame writable
      ≡ returns (record pt { entries = set pt.entries vpn (mapped_entry frame writable) })
unfolding map_page
map_page_known pt vpn frame writable h = ground arith

-- What the calling code reads of a translation: its address and error, not the table.
abbrev pub answer : Outcome (PageTable × Translation) → Outcome (ℕ × Option PagingError)
answer (returns (pt, t)) = returns (t.p_addr, t.error)
answer panics = panics

abbrev pub expected_answer : ℕ → ℕ → ℕ → Bool → Bool → ℕ × Option PagingError
expected_answer page_size frame offset writable is_write =
    if is_write && not writable
    then (0, some protection_fault)
    else (u64 (u64 (frame * page_size) + offset), none)

translate_entry-mapped :
    (pt : PageTable) (vpn offset frame : ℕ) (writable is_write : Bool)
    → let r = translate_entry pt vpn offset (mapped_entry frame writable) is_write in
      answer (returns r) ≡ returns (expected_answer pt.page_size frame offset writable is_write)
unfolding translate_entry
translate_entry-mapped pt vpn offset frame writable is_write = ground arith

-- Mapping a page of the table succeeds, and then every address of that page translates to its
-- offset in the given frame, or is refused as a write to a read-only page.
pub translate-map_page :
    (pt : PageTable) (vpn frame offset : ℕ) (writable is_write : Bool)
    → vpn < length pt.entries
    → offset < pt.page_size
    → (pt' : PageTable) × (map_page pt vpn frame writable ≡ returns pt')
      × (answer (translate pt' (vpn * pt.page_size + offset) is_write)
          ≡ returns (expected_answer pt.page_size frame offset writable is_write))
translate-map_page pt vpn frame offset writable is_write inside small = (
  pt',
  map_page_known pt vpn frame writable inside,
  ap answer (
        translate_at pt' vpn offset is_write (mapped_entry frame writable) small
          (get_elem?-set_self pt.entries vpn _ inside))
      ∙ translate_entry-mapped pt' vpn offset frame writable is_write,
)
  where
    pt' : PageTable
    pt' = record pt { entries = set pt.entries vpn (mapped_entry frame writable) }

translate_entry-answer_other :
    (pt : PageTable) (vpn offset other : ℕ) (e f : PageTableEntry) (is_write : Bool)
    → let pt' = record pt { entries = set pt.entries other f } in
      answer (returns (translate_entry pt' vpn offset e is_write))
      ≡ answer (returns (translate_entry pt vpn offset e is_write))
unfolding translate_entry
translate_entry-answer_other pt vpn offset other e f is_write = ground arith

translate-set_other :
    (pt : PageTable) (vpn other offset : ℕ) (f : PageTableEntry) (is_write : Bool)
    → other ≢ vpn
    → vpn < length pt.entries
    → offset < pt.page_size
    → answer (
        translate
          (record pt { entries = set pt.entries other f })
          (vpn * pt.page_size + offset)
          is_write)
      ≡ answer (translate pt (vpn * pt.page_size + offset) is_write)
translate-set_other pt vpn other offset f is_write ne inside small =
    let (e, found) = get_elem?_lt pt.entries vpn inside in
    let pt' : PageTable = record pt { entries = set pt.entries other f } in
    ap answer (
      translate_at pt' vpn offset is_write e small
        (get_elem?-set_ne pt.entries other vpn f ne ∙ found))
    ∙ translate_entry-answer_other pt vpn offset other e f is_write
    ∙ ap answer (sym (translate_at pt vpn offset is_write e small found))

-- Mapping one page changes the translation of no address in another page of the table.
pub translate-map_page_other :
    (pt pt' : PageTable) (vpn other frame offset : ℕ) (writable is_write : Bool)
    → map_page pt other frame writable ≡ returns pt'
    → other ≢ vpn
    → vpn < length pt.entries
    → offset < pt.page_size
    → answer (translate pt' (vpn * pt.page_size + offset) is_write)
      ≡ answer (translate pt (vpn * pt.page_size + offset) is_write)
unfolding map_page
translate-map_page_other pt pt' vpn other frame offset writable is_write e ne inside small =
    elim (Bool-cases (ltb other (length pt.entries))) [
      | inl lt ↦
          let e' : record pt { entries = set pt.entries other (mapped_entry frame writable) }
              ≡ pt' =
            ground arith in
          rw (← e') (translate-set_other pt vpn other offset _ is_write ne inside small)
      | inr ge ↦ let e' : pt ≡ pt' = ground arith in rw (← e')
    ]

-- The conditions under which a read or write of a page succeeds.
pub record IsAccessible (e : PageTableEntry) (is_write : Bool) : Type 0 where
  pub mapped : e.valid ≡ true
  pub resident : e.present ≡ true
  pub permitted : is_write ≡ true → e.read_write ≡ true

-- `Translate` reports no error exactly when the entry is valid and present and allows the access;
-- then it marks the entry as accessed, and as dirty on a write, and otherwise leaves the table alone.
pub translate_error :
    (pt : PageTable) (vpn offset : ℕ) (is_write : Bool) (e : PageTableEntry)
    → offset < pt.page_size
    → get_elem? pt.entries vpn ≡ some e
    → (r : PageTable × Translation) × (translate pt (vpn * pt.page_size + offset) is_write
        ≡ returns r)
      × ((r.1.error ≡ none) ↔ IsAccessible e is_write)
      × (r.1.error ≡ none → r.0 ≡ record pt { entries = set pt.entries vpn (touch e is_write) })
      × (r.1.error ≢ none → r.0 ≡ pt)
unfolding translate_entry
translate_error pt vpn offset is_write e small found = (
  translate_entry pt vpn offset e is_write,
  translate_at pt vpn offset is_write e small found,
  (λ h. ground arith, λ a. ground arith),
  λ h. ground arith,
  λ h. ground arith,
)
