-- ===== src/Memory.antt =====
-- pkg/memory: page tables, the TLB, physical frames and the heap allocators.
pub mod Paging
pub mod Tlb
pub mod FreeList
pub mod Buddy
pub mod TwoLevel
pub mod Manager
pub mod AddressSpace
pub mod CallStack
