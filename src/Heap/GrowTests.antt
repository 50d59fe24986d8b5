-- ===== src/Heap/GrowTests.antt =====
-- The heap of the other tests when it grows, and when a block is taken and given back.
use matanos.Base.{
  ℕ, ◌+◌, ◌<◌, ◌≡◌, refl, List, [], ◌∷◌, arith, ◌≤◌, lt→ltb, le→ltb, ok, read, write, inl, ap, ◌∙◌,
  Run, ◌>>=◌,
}
use matanos.Memory.{Memory, load32, store8, store32}
use matanos.Memory.Frame.{AgreeOff, Agree, load32-store32, store32-AgreeOff}
use matanos.OrderedArray.{OrderedArray}
use matanos.OrderedArray.Contents.{Holds}
use matanos.Paging.{
  Machine, find_page, alloc_frame_at, free_frame_at, page_of, word_of, tables_at, page_in,
}
use matanos.Frames.{
  alloc_frame, free_frame, first_frame, find_word, find_bit, set_frame, index_from_bit,
  offset_from_bit,
}
use matanos.Heap.{Heap, header_is_hole, header_size, write_header, write_footer}
use matanos.Heap.Alloc.{alloc}
use matanos.Heap.Free.{free}
use matanos.Heap.Resize.{contract, map_pages, expanded_size}
use matanos.Heap.Blocks.{Blocks, Blocks-Agree, IsBlock-Agree}
use matanos.Heap.Take.{carve, holes_left}
use matanos.Heap.Search.{AllSmaller}
use matanos.Heap.Aligned.{alloc-aligned}
use matanos.Heap.Trip.{NoneSmaller, AllOutside, alloc-free}
use matanos.Heap.Sizes.{give_back, contract_lem}
use matanos.Heap.Grow.{MayGrow}
use matanos.Heap.Grown.{alloc-grown, alloc-overlap}
use matanos.Heap.Tests.{
  row, machine, index_of, heap_of, first-IsBlock, second-IsBlock, third-IsBlock, one_hole-Holds,
  no_holes-Holds,
}

abbrev one_hole : Heap
one_hole = heap_of (index_of (4128 ∷ 0 ∷ 0 ∷ []) 1)

alloc-free_example :
    (heap1 : Heap) × (s1 : Machine) × (heap2 : Heap) × (s2 : Machine) × (rest : List ℕ) × (alloc 1
        70 0 one_hole
        (machine (row 1 0))
      ≡ ok (4140, heap1, s1))
    × (free 4140 heap1 s1 ≡ ok (heap2, s2))
    × Blocks s2.memory 4096 ((32, 0) ∷ (100, 1) ∷ (32, 0) ∷ []) 4260
    × Holds heap2.index (4128 ∷ []) rest
    × AgreeOff 4128 100 (row 1 0) s2.memory
unfolding Blocks AllSmaller NoneSmaller AllOutside
alloc-free_example =
    alloc-free 0 70 one_hole (machine (row 1 0)) 4096 4260 4096 32 4128 100 32 [] [] [] [] 0
      (0 ∷ []) refl (first-IsBlock 1 0) refl (second-IsBlock 1 0) (third-IsBlock 1 0) refl
      (omega arith) one_hole-Holds tt tt tt tt (omega arith) (omega arith)

-- A machine with a page table for the first pages, and with 32 free frames.
abbrev paged : Memory → Machine
paged m = record {
  memory = store32 m 0x20000 0x21000;
  frames = record { frames = 0 ∷ []; nframes = 32 };
  kernel_directory = 0x20000;
}

-- The heap ends behind the three blocks.
abbrev tight : OrderedArray → Heap
tight index = record (heap_of index) { end_address = 4260 }

abbrev entry : Memory → Memory
entry m = store32 (store32 m 0x20000 0x21000) 0x21004 7

abbrev mapped : Memory → Machine
mapped m = record (paged m) { memory = entry m; frames = record { frames = 1 ∷ []; nframes = 32 } }

page_is_free : (second third : ℕ) → load32 (paged (row second third)).memory 0x21004 ≡ 0
unfolding load32 store8 store32 write_header write_footer
page_is_free second third = refl

grown_mapped :
    (new_size : ℕ) (index : OrderedArray) (m : Memory)
    → 164 < new_size
    → new_size ≤ 0x1000
    → load32 (store32 m 0x20000 0x21000) 0x20000 ≡ 0x21000
    → load32 (store32 m 0x20000 0x21000) 0x21004 ≡ 0
    → map_pages 1 164 new_size (tight index) (paged m) ≡ ok (mapped m)
unfolding map_pages alloc_frame_at find_page tables_at page_in alloc_frame first_frame find_word
    find_bit set_frame index_from_bit offset_from_bit read write page_of word_of
grown_mapped new_size index m more within table unused =
    rw (lt→ltb 164 new_size more, table, unused, le→ltb 4260 new_size (omega arith)) refl

table_there : (m : Memory) → load32 (store32 m 0x20000 0x21000) 0x20000 ≡ 0x21000
table_there m = load32-store32 m 0x20000 0x21000 (omega arith)

abbrev no_holes : OrderedArray
no_holes = index_of (0 ∷ 0 ∷ 0 ∷ []) 0

abbrev some_hole : OrderedArray
some_hole = index_of (4128 ∷ 0 ∷ 0 ∷ []) 1

small-MayGrow : MayGrow 50 (tight no_holes) (paged (row 0 0)) (mapped (row 0 0))
unfolding expanded_size
small-MayGrow = record {
  order = omega arith;
  some = omega arith;
  room = omega arith;
  within = omega arith;
  mapped =
      grown_mapped 214 no_holes (row 0 0) (omega arith) (omega arith) (table_there (row 0 0))
        (page_is_free 0 0);
}

large-MayGrow : MayGrow 120 (tight some_hole) (paged (row 1 0)) (mapped (row 1 0))
unfolding expanded_size
large-MayGrow = record {
  order = omega arith;
  some = omega arith;
  room = omega arith;
  within = omega arith;
  mapped =
      grown_mapped 284 some_hole (row 1 0) (omega arith) (omega arith) (table_there (row 1 0))
        (page_is_free 1 0);
}

-- The page table lies behind the heap.
paged-Agree : (m : Memory) → Agree 4096 164 m (paged m).memory
paged-Agree m k lo hi = store32-AgreeOff m 0x20000 0x21000 k (inl (omega arith))

mapped-Agree : (m : Memory) → Agree 4096 164 (paged m).memory (mapped m).memory
mapped-Agree m k lo hi = store32-AgreeOff (paged m).memory 0x21004 7 k (inl (omega arith))

alloc-grown_example :
    (heap' : Heap) × (s' : Machine) × (free' : List ℕ) × (alloc 2 30 0
        (tight no_holes)
        (paged (row 0 0))
      ≡ ok (4272, heap', s'))
    × Blocks s'.memory 4096 ((32, 0) ∷ (100, 0) ∷ (32, 0) ∷ (50, 0) ∷ []) 4310
    × Holds heap'.index (holes_left s'.memory 4260 50 50 []) free'
    × (heap'.end_address ≡ 4310)
unfolding carve expanded_size Blocks
alloc-grown_example =
    alloc-grown 30 (tight no_holes) (paged (row 0 0)) (mapped (row 0 0)) small-MayGrow 0 4096
      ((32, 0) ∷ (100, 0) ∷ (32, 0) ∷ []) 0 0 (0 ∷ []) no_holes-Holds
      (Blocks-Agree (row 0 0) (paged (row 0 0)).memory 4096 ((32, 0) ∷ (100, 0) ∷ (32, 0) ∷ []) 4260
        (λ k lo hi. paged-Agree (row 0 0) k lo hi)
        (first-IsBlock 0 0, (second-IsBlock 0 0, (third-IsBlock 0 0, refl))))
      (λ k lo hi. mapped-Agree (row 0 0) k lo hi)

alloc-overlap_example :
    (heap' : Heap) × (s' : Machine) × (alloc 2 100 0 (tight some_hole) (paged (row 1 0))
      ≡ ok (4140, heap', s'))
    × (header_is_hole s'.memory 4128 ≡ 0)
    × (4228 < 4128 + header_size s'.memory 4128)
alloc-overlap_example =
    alloc-overlap 100 (tight some_hole) (paged (row 1 0)) (mapped (row 1 0)) large-MayGrow 0 4128
      100 32 0 (0 ∷ []) one_hole-Holds
      (IsBlock-Agree (row 1 0) (paged (row 1 0)).memory 4128 100 1
        (λ k lo hi. paged-Agree (row 1 0) k (omega arith) (omega arith)) (second-IsBlock 1 0))
      (IsBlock-Agree (row 1 0) (paged (row 1 0)).memory 4228 32 0
        (λ k lo hi. paged-Agree (row 1 0) k (omega arith) (omega arith)) (third-IsBlock 1 0))
      (omega arith) (omega arith) (omega arith)
      (λ k lo hi. mapped-Agree (row 1 0) k (omega arith) (omega arith))

-- The hole ends at 4228, and the heap at 8192.
alloc-aligned_example :
    (heap' : Heap) × (s' : Machine) × (alloc 1 30 1 one_hole (machine (row 1 0))
      ≡ ok (8192, heap', s'))
alloc-aligned_example =
    let extent = (second-IsBlock 1 0).extent in
    alloc-aligned 0 30 one_hole (machine (row 1 0)) 4128 [] 0 (0 ∷ []) one_hole-Holds (omega arith)
      (omega arith) (omega arith) (omega arith) (omega (arith, extent)) (omega (arith, extent))

-- A heap of 0x75000 bytes, in pages that have no frames.
abbrev wide : Heap
wide = record (heap_of no_holes) { end_address = 0x76000 }

wide-give_back : (s' : Machine) × (give_back 4 0x74000 wide (paged (row 0 0)) ≡ ok s')
unfolding give_back free_frame_at find_page tables_at page_in free_frame page_of word_of load32
    store8 store32 write_header write_footer
wide-give_back = (_, refl)

contract_lem_example :
    contract 0x71000 wide (paged (row 0 0))
    ≡ ok (0x70000, record wide { end_address = 0x71000 }, wide-give_back.0)
contract_lem_example =
    contract_lem 0x71000 0x70000 wide (paged (row 0 0)) (omega arith) (omega arith) (omega arith)
      refl
    ∙ ap (λ (r : Run Machine). r >>= λ s'. ok (0x70000, record wide { end_address = 0x71000 }, s'))
        (wide-give_back.1)
