-- ===== src/Heap/Alloc.antt =====
-- `find_smallest_hole` and `alloc` of cpu/kheap.c.
use matanos.Base.{
  ℕ, zero, suc, ◌+◌, ◌-◌, ◌%◌, ◌^◌, ◌==◌, ltb, leb, Bool, not, ◌&&◌, if◌then◌else◌, u32, sub32,
  bit_and, Option, none, some, Run, ok, out_of_fuel, ◌>>=◌,
}
use matanos.Memory.{Memory, store8, store32}
use matanos.Paging.{Machine}
use matanos.OrderedArray.{lookup_ordered_array, insert_ordered_array, remove_ordered_array}
use matanos.Heap.{Heap, magic_number, header_size, write_header, write_footer, header_t_less_than}
use matanos.Heap.Resize.{expand}

-- The order of `int32_t` on words.
unfoldable pub signed_leb : ℕ → ℕ → Bool
signed_leb a b = leb (u32 (a + 2 ^ 31)) (u32 (b + 2 ^ 31))

-- Does a hole fit? In C, `(location+sizeof(header_t)) & 0xFFFFF000 != 0` is the lowest bit.
unfoldable pub fits : (size page_align header : ℕ) → Memory → Bool
fits size page_align header m =
    if ltb 0 page_align
    then (let start = u32 (header + 12) in
        let offset = if bit_and start 1 == 0 then 0 else 0x1000 - start % 0x1000 in
        signed_leb size (sub32 (header_size m header) offset))
    else leb size (header_size m header)

-- The loop of `find_smallest_hole`; `none` is -1.
unfoldable pub find_hole : (left iterator size page_align : ℕ) → Heap → Memory → Run (Option ℕ)
find_hole zero iterator size page_align heap m = ok none
find_hole (suc left) iterator size page_align heap m =
    let rest = find_hole left (iterator + 1) size page_align heap m in
    lookup_ordered_array iterator heap.index >>= λ header.
    if fits size page_align header m then ok (some iterator) else rest

-- `find_smallest_hole`.
unfoldable pub find_smallest_hole : (size page_align : ℕ) → Heap → Memory → Run (Option ℕ)
find_smallest_hole size page_align heap m = find_hole heap.index.size 0 size page_align heap m

-- The rounds of `alloc` that look for the header at the highest address.
unfoldable pub find_endmost : (left iterator idx value : ℕ) → Heap → Run ℕ
find_endmost zero iterator idx value heap = ok idx
find_endmost (suc left) iterator idx value heap = do
  tmp ← lookup_ordered_array iterator heap.index
  let higher = ltb value tmp
  find_endmost left (iterator + 1) (if higher then iterator else idx)
      (if higher then tmp else value) heap

-- The part of `alloc` that makes room when no hole fits.
unfoldable pub grow : (new_size : ℕ) → Heap → Machine → Run (Heap × Machine)
grow new_size heap s = do
  let old_length = sub32 heap.end_address heap.start_address
  let old_end_address = heap.end_address
  (heap1, s1) ← expand (u32 (old_length + new_size)) heap s
  let new_length = sub32 heap1.end_address heap1.start_address
  idx ← find_endmost heap1.index.size 0 0xFFFFFFFF 0 heap1
  if idx == 0xFFFFFFFF
      then (do
        let header = old_end_address
        let size = sub32 new_length old_length
        let marked =
            store8 (store32 (store32 s1.memory header magic_number) (header + 8) size) (header + 4)
              1
        let m = write_footer (sub32 (u32 (old_end_address + size)) 8) header marked
        index ← insert_ordered_array (header_t_less_than m) header heap1.index
        ok (record heap1 { index = index }, record s1 { memory = m }))
      else (do
        header ← lookup_ordered_array idx heap1.index
        let size = u32 (header_size s1.memory header + sub32 new_length old_length)
        let sized = store32 s1.memory (header + 8) size
        let footer = sub32 (u32 (header + size)) 8
        let m = store32 (store32 sized (footer + 4) header) footer magic_number
        ok (heap1, record s1 { memory = m }))

-- The new hole in front of a block that must begin on a page: the block's position and the size
-- that is left, with the memory, or nothing if the hole is used as it is.
unfoldable pub put_front_hole : (orig_hole_pos orig_hole_size : ℕ) → Memory → ℕ × ℕ × Memory
put_front_hole orig_hole_pos orig_hole_size m =
    let size = sub32 (0x1000 - orig_hole_pos % 0x1000) 12 in
    let new_location = u32 (orig_hole_pos + size) in
    let m1 =
      store8 (store32 (store32 m (orig_hole_pos + 8) size) orig_hole_pos magic_number)
        (orig_hole_pos + 4) 1 in
    let m2 = write_footer (sub32 new_location 8) orig_hole_pos m1 in
    (new_location, sub32 orig_hole_size (header_size m2 orig_hole_pos), m2)

-- The end of `alloc`: the block at a position, and a hole behind it if there is room left.
unfoldable pub put_block : (pos size new_size hole_size : ℕ) → Heap → Memory → Run (Heap × Memory)
put_block pos size new_size hole_size heap m =
    let m1 = write_header pos 0 new_size m in
    let m2 = write_footer (u32 (pos + 12 + size)) pos m1 in
    let left = sub32 hole_size new_size in
    if ltb 0 left
    then (do
      let hole = u32 (pos + 12 + size + 8)
      let m3 = write_header hole 1 left m2
      let footer = sub32 (u32 (hole + left)) 8
      let m4 = if ltb footer heap.end_address then write_footer footer hole m3 else m3
      index ← insert_ordered_array (header_t_less_than m4) hole heap.index
      ok (record heap { index = index }, m4))
    else ok (heap, m2)

-- `alloc` once it has found the hole at `iterator`.
unfoldable pub take_hole :
    (size new_size page_align iterator : ℕ) → Heap → Machine → Run (ℕ × Heap × Machine)
take_hole size new_size page_align iterator heap s = do
  pos ← lookup_ordered_array iterator heap.index
  let hole_size = header_size s.memory pos
  let whole = ltb (sub32 hole_size new_size) 20
  let size' = if whole then u32 (size + sub32 hole_size new_size) else size
  let new_size' = if whole then hole_size else new_size
  if not (page_align == 0) && not (bit_and pos 0xFFFFF000 == 0)
      then (do
        let (pos', hole_size', m) = put_front_hole pos hole_size s.memory
        (heap', m') ← put_block pos' size' new_size' hole_size' heap m
        ok (u32 (pos' + 12), heap', record s { memory = m' }))
      else (do
        index ← remove_ordered_array iterator heap.index
        (heap', m') ←
            put_block pos size' new_size' hole_size (record heap { index = index }) s.memory
        ok (u32 (pos + 12), heap', record s { memory = m' }))

-- `alloc`. Each round that finds no hole expands the heap and calls the function again.
unfoldable pub alloc : (fuel size page_align : ℕ) → Heap → Machine → Run (ℕ × Heap × Machine)
alloc zero size page_align heap s = out_of_fuel
alloc (suc fuel) size page_align heap s =
    find_smallest_hole (u32 (size + 20)) page_align heap s.memory >>= λ found. elim found [
      | some iterator ↦ take_hole size (u32 (size + 20)) page_align iterator heap s
      | none ↦ grow (u32 (size + 20)) heap s >>= λ grown. alloc fuel size page_align grown.0 grown.1
    ]
