-- ===== src/Heap/Free.antt =====
-- `free` of cpu/kheap.c.
use matanos.Base.{
  ℕ, zero, suc, ◌+◌, ◌==◌, ltb, not, ◌&&◌, if◌then◌else◌, u32, sub32, Run, ok, ◌>>=◌, ◌>>◌, assert,
}
use matanos.Memory.{Memory, store8, store32}
use matanos.Paging.{Machine}
use matanos.OrderedArray.{
  OrderedArray, lookup_ordered_array, insert_ordered_array, remove_ordered_array,
}
use matanos.Heap.{
  Heap, magic_number, header_magic, header_is_hole, header_size, footer_magic, footer_header,
  write_footer, header_t_less_than,
}
use matanos.Heap.Resize.{contract}

-- The search of `free` for a header in the index: the first position that has it, or the number
-- of items.
unfoldable pub find_header : (left iterator header : ℕ) → OrderedArray → Run ℕ
find_header zero iterator header index = ok iterator
find_header (suc left) iterator header index =
    let rest = find_header left (iterator + 1) header index in
    lookup_ordered_array iterator index >>= λ found. if found == header then ok iterator else rest

-- Unify left: the header, the memory, and 1 if the header is not in the index yet.
unfoldable pub unify_left : (header footer : ℕ) → Memory → ℕ × Memory × ℕ
unify_left header footer m =
    let test_footer = sub32 header 8 in
    let left = footer_header m test_footer in
    if (footer_magic m test_footer == magic_number) && (header_is_hole m left == 1)
    then (let cache_size = header_size m header in
        let m1 = store32 m (footer + 4) left in
        (left, store32 m1 (left + 8) (u32 (header_size m1 left + cache_size)), 0))
    else (header, m, 1)

-- Unify right: the footer, the heap and the memory.
unfoldable pub unify_right : (header footer : ℕ) → Heap → Memory → Run (ℕ × Heap × Memory)
unify_right header footer heap m =
    let test_header = u32 (footer + 8) in
    if (header_magic m test_header == magic_number) && not (header_is_hole m test_header == 0)
    then (do
      let m1 = store32 m (header + 8) (u32 (header_size m header + header_size m test_header))
      let test_footer = sub32 (u32 (test_header + header_size m1 test_header)) 8
      iterator ← find_header heap.index.size 0 test_header heap.index
      assert (ltb iterator heap.index.size)
      index ← remove_ordered_array iterator heap.index
      ok (test_footer, record heap { index = index }, m1))
    else ok (footer, heap, m)

-- The part of `free` for a hole that ends at the end of the heap.
unfoldable pub shrink : (header test_header : ℕ) → Heap → Machine → Run (Heap × Machine)
shrink header test_header heap s = do
  let old_length = sub32 heap.end_address heap.start_address
  (new_length, heap1, s1) ← contract (sub32 header heap.start_address) heap s
  let gone = sub32 old_length new_length
  let size = sub32 (header_size s1.memory header) gone
  if ltb 0 size
      then (do
        let m1 = store32 s1.memory (header + 8) size
        let m2 = write_footer (sub32 (u32 (header + size)) 8) header m1
        ok (heap1, record s1 { memory = m2 }))
      else (do
        iterator ← find_header heap1.index.size 0 test_header heap1.index
        if ltb iterator heap1.index.size
            then (remove_ordered_array iterator heap1.index >>= λ index.
                ok (record heap1 { index = index }, s1))
            else ok (heap1, s1))

-- `free` behind its checks, with the hole made.
unfoldable pub release : (header footer : ℕ) → Heap → Machine → Run (Heap × Machine)
release header footer heap s = do
  let (header1, m1, do_add) = unify_left header footer s.memory
  (footer1, heap1, m2) ← unify_right header1 footer heap m1
  let s1 = record s { memory = m2 }
  (heap2, s2) ←
      if u32 (footer1 + 8) == heap1.end_address
      then shrink header1 (u32 (footer + 8)) heap1 s1
      else ok (heap1, s1)
  if do_add == 1
      then (insert_ordered_array (header_t_less_than s2.memory) header1 heap2.index >>= λ index.
          ok (record heap2 { index = index }, s2))
      else ok (heap2, s2)

-- `free`.
unfoldable pub free : (p : ℕ) → Heap → Machine → Run (Heap × Machine)
free p heap s = if p == 0 then ok (heap, s) else (do
  let header = sub32 p 12
  let footer = sub32 (u32 (header + header_size s.memory header)) 8
  assert (header_magic s.memory header == magic_number)
  assert (footer_magic s.memory footer == magic_number)
  release header footer heap (record s { memory = store8 s.memory (header + 4) 1 }))
