-- ===== src/Memory/AddressSpace/Tests.antt =====
-- Runs of pkg/memory/address_space.go.
use os_simulator.Base.{inl, inr, refl, ◌≡◌}
use os_simulator.Memory.AddressSpace.{
  AddressSpace, new_address_space, segmentation_fault, translate_base_and_bounds,
}
use os_simulator.Memory.AddressSpace.Break.{broken_at}

abbrev space : AddressSpace
space = new_address_space 1 0 1048576

translate_last : translate_base_and_bounds space 65535 ≡ inl 1114111
unfolding new_address_space translate_base_and_bounds
translate_last = refl

translate_past : translate_base_and_bounds space 65536 ≡ inr segmentation_fault
unfolding new_address_space translate_base_and_bounds
translate_past = refl

abbrev grown : AddressSpace
grown = broken_at (new_address_space 1 65536 0) 16384
