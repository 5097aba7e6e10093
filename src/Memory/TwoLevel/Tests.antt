-- ===== src/Memory/TwoLevel/Tests.antt =====
-- The theorem on pkg/memory/multilevel_pt.go at the table of a new process.
use os_simulator.Base.{returns, true, ℕ, ◌%◌, ◌≡◌}
use os_simulator.Memory.Paging.Laws.{expected_answer}
use os_simulator.Memory.TwoLevel.{TwoLevelTable, map_two_level, new_two_level, translate_two_level}
use os_simulator.Memory.TwoLevel.Walk.{IsTwoLevel, reply_of}
use os_simulator.Memory.TwoLevel.RoundTrip.{
  IsOtherPage, new_two_level-IsTwoLevel, translate-map_two_level,
}

translate-map_two_level_example :
    (m' : TwoLevelTable) × (map_two_level (new_two_level 1) 4198409 77 true ≡ returns m')
    × IsTwoLevel m'
    × (reply_of (translate_two_level m' 4198409 true)
        ≡ returns (expected_answer (new_two_level 1).page_size 77 (4198409 % 4096) true true))
    × ((w_addr : ℕ)
        → IsOtherPage w_addr 4198409
        → reply_of (translate_two_level m' w_addr true)
          ≡ reply_of (translate_two_level (new_two_level 1) w_addr true))
translate-map_two_level_example =
    translate-map_two_level (new_two_level 1) 4198409 77 true true (new_two_level-IsTwoLevel 1)
