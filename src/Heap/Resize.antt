-- ===== src/Heap/Resize.antt =====
-- `expand` and `contract` of cpu/kheap.c.
use matanos.Base.{
  ℕ, zero, suc, ◌+◌, ◌-◌, ◌/◌, ◌==◌, ltb, leb, if◌then◌else◌, u32, sub32, bit_and, Run, ok,
  out_of_fuel, ◌>>=◌, ◌>>◌, assert,
}
use matanos.Paging.{Machine, find_page, alloc_frame_at, free_frame_at}
use matanos.Heap.{Heap, heap_min_size}

-- The loop of `expand`: the frames of the pages from offset `i` on, as long as they lie below the size.
unfoldable pub map_pages : (fuel i new_size : ℕ) → Heap → Machine → Run Machine
map_pages zero i new_size heap s = if ltb i new_size then out_of_fuel else ok s
map_pages (suc fuel) i new_size heap s =
    if ltb i new_size
    then (alloc_frame_at (find_page (u32 (heap.start_address + i)) s.kernel_directory s.memory)
          (if heap.supervisor == 0 then 0 else 1) (if heap.readonly == 0 then 1 else 0) s
        >>= λ s'. map_pages fuel (u32 (i + 0x1000)) new_size heap s')
    else ok s

-- The size that `expand` rounds to. In C, `new_size&0xFFFFF000 != 0` is `new_size & 1`.
unfoldable pub expanded_size : ℕ → ℕ
expanded_size new_size =
    if bit_and new_size 1 == 0 then new_size else u32 (bit_and new_size 0xFFFFF000 + 0x1000)

-- `expand`. A round goes up by a page, so as many rounds as there are new pages are enough,
-- as long as no offset wraps round.
unfoldable pub expand : (new_size : ℕ) → Heap → Machine → Run (Heap × Machine)
expand new_size heap s = do
  let old_size = sub32 heap.end_address heap.start_address
  assert (ltb old_size new_size)
  let size = expanded_size new_size
  assert (leb (u32 (heap.start_address + size)) heap.max_address)
  s' ← map_pages ((size - old_size + 0xFFF) / 0x1000) old_size size heap s
  ok (record heap { end_address = u32 (heap.start_address + size) }, s')

-- The loop of `contract`: the pages from offset `i` downwards, as long as they lie above the size.
unfoldable pub unmap_pages : (fuel new_size i : ℕ) → Heap → Machine → Run Machine
unmap_pages zero new_size i heap s = if ltb new_size i then out_of_fuel else ok s
unmap_pages (suc fuel) new_size i heap s =
    if ltb new_size i
    then (free_frame_at (find_page (u32 (heap.start_address + i)) s.kernel_directory s.memory) s
        >>= λ s'. unmap_pages fuel new_size (sub32 i 0x1000) heap s')
    else ok s

-- The size that `contract` settles on: 0x2000 if bit 12 is set, and at least the least size.
unfoldable pub contracted_size : ℕ → ℕ
contracted_size new_size =
    let rounded =
      if bit_and new_size 0x1000 == 0 then new_size else bit_and new_size 0x1000 + 0x1000 in
    if ltb rounded heap_min_size then heap_min_size else rounded

-- `contract`. A round goes down by a page, so as many rounds as there are pages are enough.
unfoldable pub contract : (new_size : ℕ) → Heap → Machine → Run (ℕ × Heap × Machine)
contract new_size heap s = do
  let old_size = sub32 heap.end_address heap.start_address
  assert (ltb new_size old_size)
  let size = contracted_size new_size
  let i = sub32 old_size 0x1000
  s' ← unmap_pages (i / 0x1000 + 1) size i heap s
  ok (size, record heap { end_address = u32 (heap.start_address + size) }, s')
