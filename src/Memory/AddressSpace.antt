-- ===== src/Memory/AddressSpace.antt =====
-- pkg/memory/address_space.go: base and bounds, the segments and the program break of a process. The
-- map of segments holds the four that the constructor puts there, and is a record of them.
pub mod Break
mod Tests
use os_simulator.Base.{
  Bool, false, if◌then◌else◌, inl, inr, leb, ltb, sub64, true, u64, ℕ, ◌+◌, ◌-◌, ◌==◌, ◌⊎◌,
}

-- ErrSegmentationFault, ErrStackOverflow, and the error of `Sbrk` without a name.
pub data SpaceError : Type 0 where
  segmentation_fault stack_overflow below_heap_start : SpaceError

pub data SegmentType : Type 0 where
  code_segment data_segment heap_segment stack_segment : SegmentType

pub record SegmentDescriptor : Type 0 where
  pub segment_type : SegmentType
  pub base : ℕ
  pub limit : ℕ
  pub grows_down : Bool
  pub readable : Bool
  pub writable : Bool
  pub executable : Bool

pub record Segments : Type 0 where
  pub code : SegmentDescriptor
  pub data_part : SegmentDescriptor
  pub heap : SegmentDescriptor
  pub stack : SegmentDescriptor

pub record AddressSpace : Type 0 where
  pub pid : ℕ
  pub total_size : ℕ
  pub physical_base : ℕ
  pub code_start : ℕ
  pub code_end : ℕ
  pub data_start : ℕ
  pub data_end : ℕ
  pub heap_start : ℕ
  pub heap_break : ℕ
  pub stack_top : ℕ
  pub stack_ptr : ℕ
  pub guard_page : ℕ
  pub segments : Segments

abbrev pub initial_segments : ℕ → ℕ → Segments
initial_segments base total = record {
  code = record {
    segment_type = code_segment;
    base = base;
    limit = 8192;
    grows_down = false;
    readable = true;
    writable = false;
    executable = true;
  };
  data_part = record {
    segment_type = data_segment;
    base = u64 (base + 8192);
    limit = 4096;
    grows_down = false;
    readable = true;
    writable = true;
    executable = false;
  };
  heap = record {
    segment_type = heap_segment;
    base = u64 (base + 12288);
    limit = 0;
    grows_down = false;
    readable = true;
    writable = true;
    executable = false;
  };
  stack = record {
    segment_type = stack_segment;
    base = u64 (base + total);
    limit = 0;
    grows_down = true;
    readable = true;
    writable = true;
    executable = false;
  };
}

unfoldable pub new_address_space : ℕ → ℕ → ℕ → AddressSpace
new_address_space pid wanted base =
    let total = if wanted == 0 then 65536 else wanted in
    record {
      pid = pid;
      total_size = total;
      physical_base = base;
      code_start = 0;
      code_end = 8192;
      data_start = 8192;
      data_end = 12288;
      heap_start = 12288;
      heap_break = 12288;
      stack_top = total - 1;
      stack_ptr = total - 1;
      guard_page = 32768;
      segments = initial_segments base total;
    }

unfoldable pub translate_base_and_bounds : AddressSpace → ℕ → ℕ ⊎ SpaceError
translate_base_and_bounds space v_addr =
    if leb space.total_size v_addr
    then inr segmentation_fault
    else inl (u64 (space.physical_base + v_addr))

-- The `int64` of the increment is given by its 64 bits, as `uint64(increment)` reads them: the sum of
-- `int64` values has the bits of the sum of `uint64` values.
unfoldable pub sbrk : AddressSpace → ℕ → AddressSpace × (ℕ ⊎ SpaceError)
sbrk space increment =
    let new_break = u64 (space.heap_break + increment) in
    if ltb new_break space.heap_start
    then (space, inr below_heap_start)
    else if leb space.stack_ptr new_break
    then (space, inr stack_overflow)
    else (
      record space {
        heap_break = new_break;
        segments = record space.segments {
          heap = record space.segments.heap { limit = sub64 new_break space.heap_start };
        };
      },
      inl space.heap_break,
    )
