-- ===== src/Frames.antt =====
-- The physical frames of cpu/paging.c: the bit table of used frames, and the two functions that
-- give a page a frame and take it back.
pub mod Used
pub mod Search
pub mod Alloc
mod Tests
use matanos.Base.{
  ℕ, zero, suc, ◌+◌, ◌*◌, ◌/◌, ◌%◌, ◌^◌, ◌==◌, Bool, true, false, not, List, if◌then◌else◌, u32,
  bit_not, bit_and, bit_or, Option, none, some, Run, ok, panic, fault, ◌>>=◌, ◌>>◌, assert, read,
  write,
}

-- `page_t`. The fields are bit fields: `frame` has 20 bits, `unused` seven and the others one.
pub record Page : Type 0 where
  pub present : ℕ
  pub rw_flag : ℕ
  pub user : ℕ
  pub accessed : ℕ
  pub dirty : ℕ
  pub unused : ℕ
  pub frame : ℕ

-- The globals `frames`, an array of 32-bit words, and `nframes`.
pub record FrameTable : Type 0 where
  pub frames : List ℕ
  pub nframes : ℕ

unfoldable pub index_from_bit : ℕ → ℕ
index_from_bit a = a / (8 * 4)

unfoldable pub offset_from_bit : ℕ → ℕ
offset_from_bit a = a % (8 * 4)

-- `set_frame`.
unfoldable pub set_frame : ℕ → FrameTable → Run FrameTable
unfolding index_from_bit offset_from_bit
set_frame frame_addr t = do
  let frame = frame_addr / 0x1000
  let idx = index_from_bit frame
  let off = offset_from_bit frame
  w ← read t.frames idx
  fs ← write t.frames idx (bit_or w (2 ^ off))
  ok (record t { frames = fs })

-- `clear_frame`.
unfoldable pub clear_frame : ℕ → FrameTable → Run FrameTable
unfolding index_from_bit offset_from_bit
clear_frame frame_addr t = do
  let frame = frame_addr / 0x1000
  let idx = index_from_bit frame
  let off = offset_from_bit frame
  w ← read t.frames idx
  fs ← write t.frames idx (bit_and w (bit_not 32 (2 ^ off)))
  ok (record t { frames = fs })

-- `test_frame`.
unfoldable pub test_frame : ℕ → FrameTable → Run ℕ
unfolding index_from_bit offset_from_bit
test_frame frame_addr t = do
  let frame = frame_addr / 0x1000
  w ← read t.frames (index_from_bit frame)
  ok (bit_and w (2 ^ offset_from_bit frame))

-- The inner loop of `first_frame` at bit `j`, with `left` rounds to go: the first clear bit.
unfoldable pub find_bit : (left j w : ℕ) → Option ℕ
find_bit zero j w = none
find_bit (suc left) j w =
    let rest = find_bit left (j + 1) w in if bit_and w (2 ^ j) == 0 then some j else rest

-- The outer loop of `first_frame` at word `i`. Behind the last word the function ends with no
-- `return`, and its callers use the value: undefined behaviour.
unfoldable pub find_word : (left i : ℕ) → List ℕ → Run ℕ
find_word zero i fs = fault
find_word (suc left) i fs =
    let rest = find_word left (i + 1) fs in
    read fs i >>= λ w.
    if w == 0xFFFFFFFF
    then rest
    else elim (find_bit 32 0 w) [ none ↦ rest | some j ↦ ok (i * 4 * 8 + j) ]

-- `first_frame`.
unfoldable pub first_frame : FrameTable → Run ℕ
unfolding index_from_bit
first_frame t = find_word (index_from_bit t.nframes) 0 t.frames

-- `alloc_frame`. The index goes into a field of 20 bits.
unfoldable pub alloc_frame :
    Page → (is_kernel is_writeable : ℕ) → FrameTable → Run (Page × FrameTable)
alloc_frame page is_kernel is_writeable t = if not (page.frame == 0) then ok (page, t) else (do
  idx ← first_frame t
  assert (not (idx == 0xFFFFFFFF))
  t' ← set_frame (u32 (idx * 0x1000)) t
  ok (
    record page {
      present = 1;
      rw_flag = if is_writeable == 0 then 0 else 1;
      user = if is_kernel == 0 then 1 else 0;
      frame = idx % 2 ^ 20;
    },
    t',
  ))

-- `free_frame`. It hands `clear_frame` the index of the frame, not its address.
unfoldable pub free_frame : Page → FrameTable → Run (Page × FrameTable)
free_frame page t =
    if page.frame == 0
    then ok (page, t)
    else (do t' ← clear_frame page.frame t; ok (record page { frame = 0x0 }, t'))
