-- ===== src/Memory/Tlb/Tests.antt =====
-- Runs of the TLB of pkg/memory/tlb.go, and its theorems at a buffer of two entries.
use os_simulator.Base.{
  All, List, [], arith, false, get_elem?, refl, returns, set, some, true, ℕ, ◌∷◌, ◌≡◌, ◌≤◌,
}
use os_simulator.Memory.Tlb.{
  Tlb, TlbEntry, find_match, find_slot, fresh_entry, insert, lookup, new_tlb, refresh, stamp,
}
use os_simulator.Memory.Tlb.History.{Call, inserts, latest, looks_up, lookup-run, run, step}
use os_simulator.Memory.Tlb.Eviction.{insert_evicts_oldest}
use os_simulator.Memory.Tlb.Invariant.{IsWellFormed}

abbrev history : List Call
history = inserts 1 9 44 true ∷ looks_up 1 7 ∷ inserts 1 8 43 true ∷ inserts 1 7 42 false ∷ []

abbrev full : Tlb
full = record {
  capacity = 2;
  entries = fresh_entry 1 7 42 false 3 ∷ fresh_entry 1 8 43 true 2 ∷ [];
  hits = 1;
  misses = 0;
  access_tick = 3;
}

full_runs : run 2 (looks_up 1 7 ∷ inserts 1 8 43 true ∷ inserts 1 7 42 false ∷ []) ≡ returns full
unfolding run step new_tlb insert lookup find_slot find_match stamp refresh
full_runs = refl

insert_evicts_oldest_example :
    (k : ℕ) × (e : TlbEntry) × (get_elem? full.entries k ≡ some e)
    × All (λ f. e.last_access ≤ f.last_access) full.entries
    × (insert full 1 9 44 true
        ≡ returns (record full {
          access_tick = 4;
          entries = set full.entries k (fresh_entry 1 9 44 true 4);
        }))
insert_evicts_oldest_example =
    insert_evicts_oldest full 1 9 44 true (omega arith) ((refl, refl), ((refl, refl), tt))
      (omega arith)

lookup-run_example :
    (t : Tlb) × (run 2 history ≡ returns t)
    × IsWellFormed t
    × ((lookup t 1 9).2 ≡ true → latest 1 9 history ≡ some (lookup t 1 9).1)
lookup-run_example = lookup-run 2 history 1 9
