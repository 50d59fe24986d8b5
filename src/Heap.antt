-- ===== src/Heap.antt =====
-- The kernel heap of cpu/kheap.c and cpu/kheap.h.
pub mod Resize
pub mod Alloc
pub mod Free
pub mod Blocks
pub mod Take
pub mod Row
pub mod Give
pub mod Unite
pub mod Sizes
pub mod Full
pub mod Trip
pub mod Aligned
pub mod Holes
pub mod Grow
pub mod Grown
pub mod Search
mod Tests
mod GrowTests
use matanos.Base.{
  ℕ, zero, suc, ◌+◌, ◌-◌, ◌*◌, ◌/◌, ◌%◌, ◌^◌, ◌==◌, ltb, leb, Bool, true, false, not, ◌&&◌, List,
  if◌then◌else◌, u32, sub32, bit_and, Option, none, some, Run, ok, out_of_fuel, ◌>>=◌, ◌>>◌, assert,
}
use matanos.Memory.{Memory, load8, load32, store8, store32}
use matanos.Paging.{Machine, find_page, alloc_frame_at, free_frame_at}
use matanos.OrderedArray.{
  OrderedArray, place_ordered_array, lookup_ordered_array, insert_ordered_array,
  remove_ordered_array,
}

-- `heap_t`.
pub record Heap : Type 0 where
  pub index : OrderedArray
  pub start_address : ℕ
  pub end_address : ℕ
  pub max_address : ℕ
  pub supervisor : ℕ
  pub readonly : ℕ

-- `HEAP_MAGIC`, `HEAP_MIN_SIZE`, `HEAP_INDEX_SIZE`, `sizeof(header_t)` and `sizeof(footer_t)`.
abbrev pub magic_number : ℕ
magic_number = 0x123890AB

abbrev pub heap_min_size : ℕ
heap_min_size = 0x70000

abbrev pub heap_index_size : ℕ
heap_index_size = 0x20000

-- The fields of `header_t`: `magic` at 0, `is_hole` at 4 and `size` at 8.
unfoldable pub header_magic : Memory → ℕ → ℕ
header_magic m h = load32 m h

unfoldable pub header_is_hole : Memory → ℕ → ℕ
header_is_hole m h = load8 m (h + 4)

unfoldable pub header_size : Memory → ℕ → ℕ
header_size m h = load32 m (h + 8)

-- The fields of `footer_t`: `magic` at 0 and `header` at 4.
unfoldable pub footer_magic : Memory → ℕ → ℕ
footer_magic m f = load32 m f

unfoldable pub footer_header : Memory → ℕ → ℕ
footer_header m f = load32 m (f + 4)

-- The three assignments that fill a header, and the two that fill a footer.
unfoldable pub write_header : (h is_hole size : ℕ) → Memory → Memory
write_header h is_hole size m =
    store32 (store8 (store32 m h magic_number) (h + 4) is_hole) (h + 8) size

unfoldable pub write_footer : (f header : ℕ) → Memory → Memory
write_footer f header m = store32 (store32 m f magic_number) (f + 4) header

-- `header_t_less_than`.
unfoldable pub header_t_less_than : Memory → ℕ → ℕ → Bool
header_t_less_than m a b = ltb (header_size m a) (header_size m b)
