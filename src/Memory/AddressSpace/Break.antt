-- ===== src/Memory/AddressSpace/Break.antt =====
-- The program break of pkg/memory/address_space.go.
use os_simulator.Base.{arith, refl, sub64, u64_mod, ℕ, ◌+◌, ◌<◌, ◌≡◌, ◌≤◌}
use os_simulator.Memory.AddressSpace.{AddressSpace, new_address_space}

-- The heap lies between its start and the stack pointer, and its descriptor says how long it is.
pub record IsLaidOut (space : AddressSpace) : Type 0 where
  pub starts : space.heap_start ≤ space.heap_break
  pub below_stack : space.heap_break < space.stack_ptr
  pub is_word : space.stack_ptr < u64_mod
  pub sized : space.heap_start + space.segments.heap.limit ≡ space.heap_break

pub new_address_space-IsLaidOut :
    (pid total base : ℕ)
    → 12289 < total
    → total < u64_mod
    → IsLaidOut (new_address_space pid total base)
unfolding new_address_space
new_address_space-IsLaidOut pid total base h k = record {
  starts = omega arith;
  below_stack = ground arith;
  is_word = ground arith;
  sized = refl;
}

-- The space with another program break.
abbrev pub broken_at : AddressSpace → ℕ → AddressSpace
broken_at space b = record space {
  heap_break = b;
  segments = record space.segments {
    heap = record space.segments.heap { limit = sub64 b space.heap_start };
  };
}
