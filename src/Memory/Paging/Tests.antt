-- ===== src/Memory/Paging/Tests.antt =====
-- The theorems on pkg/memory/paging.go at a table of four pages.
use os_simulator.Base.{
  [], arith, false, none, refl, returns, set, true, ◌*◌, ◌+◌, ◌↔◌, ◌∷◌, ◌≡◌, ◌≢◌,
}
use os_simulator.Memory.Paging.{
  PageTable, Translation, map_page, mapped_entry, new_page_table, no_entry, touch, translate,
}
use os_simulator.Memory.Paging.Laws.{
  IsAccessible, answer, expected_answer, translate-map_page, translate-map_page_other,
  translate_error,
}

abbrev table : PageTable
table = record {
  pid = 1;
  page_size = 4096;
  entries = no_entry ∷ mapped_entry 5 false ∷ no_entry ∷ no_entry ∷ [];
  num_pages = 4;
}

new_page_table_runs : map_page (new_page_table 1 4 0) 1 5 false ≡ returns table
unfolding map_page new_page_table
new_page_table_runs = refl

translate_runs : answer (translate table 4100 false) ≡ returns (20484, none)
unfolding translate
translate_runs = refl

translate-map_page_example :
    (pt' : PageTable) × (map_page table 2 7 true ≡ returns pt')
    × (answer (translate pt' (2 * 4096 + 12) true) ≡ returns (expected_answer 4096 7 12 true true))
translate-map_page_example = translate-map_page table 2 7 12 true true (omega arith) (omega arith)

translate-map_page_other_example :
    answer (
      translate
        (record table { entries = set table.entries 2 (mapped_entry 7 true) })
        (1 * 4096 + 4)
        false)
    ≡ answer (translate table (1 * 4096 + 4) false)
unfolding map_page
translate-map_page_other_example =
    translate-map_page_other table _ 1 2 7 4 true false refl (omega arith) (omega arith)
      (omega arith)

translate_error_example :
    (r : PageTable × Translation) × (translate table (1 * 4096 + 4) true ≡ returns r)
    × ((r.1.error ≡ none) ↔ IsAccessible (mapped_entry 5 false) true)
    × (r.1.error ≡ none
        → r.0 ≡ record table { entries = set table.entries 1 (touch (mapped_entry 5 false) true) })
    × (r.1.error ≢ none → r.0 ≡ table)
translate_error_example = translate_error table 1 4 true (mapped_entry 5 false) (omega arith) refl
