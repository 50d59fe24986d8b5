-- ===== src/Heap/Row.antt =====
-- `alloc` of cpu/kheap.c on a heap that is a row of blocks.
use matanos.Base.{ℕ, suc, ◌+◌, ◌≤◌, u32, List, ◌∷◌, ◌++◌, ◌≡◌, arith, ok}
use matanos.Memory.Frame.{AgreeOff}
use matanos.OrderedArray.Contents.{Holds}
use matanos.Paging.{Machine}
use matanos.Heap.{Heap}
use matanos.Heap.Alloc.{alloc}
use matanos.Heap.Blocks.{IsBlock, Blocks, Blocks-around}
use matanos.Heap.Search.{AllSmaller, find_smallest_hole-first}
use matanos.Heap.Take.{carve, holes_left, take_hole-Taken, Taken}

-- `alloc` takes the first hole of the index that is large enough.
pub alloc-Taken :
    (fuel size : ℕ) (heap : Heap) (s : Machine) (h hole_size : ℕ) (p q : List ℕ) (y : ℕ)
    (free : List ℕ)
    → IsBlock s.memory h hole_size 1
    → h + hole_size ≤ heap.end_address
    → Holds heap.index (p ++ (h ∷ q)) (y ∷ free)
    → AllSmaller s.memory (size + 20) p
    → size + 20 ≤ hole_size
    → (heap' : Heap) × (s' : Machine) × (alloc (suc fuel) size 0 heap s ≡ ok (h + 12, heap', s'))
      × Taken h hole_size (size + 20) (p ++ q) heap s.memory heap' s'.memory
unfolding alloc
alloc-Taken fuel size heap s h hole_size p q y free b ends holds smaller fit =
    let inside = b.inside in
    let extent = b.extent in
    let new_size : u32 (size + 20) ≡ size + 20 = omega arith in
    let found =
      find_smallest_hole-first p h q (y ∷ free) (size + 20) heap s.memory holds smaller
        (omega arith) in
    let (heap', s', run, taken, frames) =
      take_hole-Taken size h hole_size heap s p q y free holds b fit ends in
    (heap', s', rw (new_size, found, new_size) run, taken)

-- An unaligned request for which the index has a hole large enough, after only smaller ones. `alloc`
-- returns in its first round. The result is the address behind the header of a block at the place of
-- that first hole; the row of blocks has the block there, with the rest of the hole as a smaller hole
-- if the rest has room for a header and a footer, and all other blocks as before; the index has the
-- holes of that row; and no byte outside the hole changes.
pub alloc_lem :
    (fuel size : ℕ) (heap : Heap) (s : Machine) (start e : ℕ) (pre post : List (ℕ × ℕ))
    (h hole_size : ℕ) (p q : List ℕ) (y : ℕ) (free : List ℕ)
    → Blocks s.memory start pre h
    → IsBlock s.memory h hole_size 1
    → Blocks s.memory (h + hole_size) post e
    → h + hole_size ≤ heap.end_address
    → Holds heap.index (p ++ (h ∷ q)) (y ∷ free)
    → AllSmaller s.memory (size + 20) p
    → size + 20 ≤ hole_size
    → (heap' : Heap) × (s' : Machine) × (free' : List ℕ) × (alloc (suc fuel) size 0 heap s
        ≡ ok (h + 12, heap', s'))
      × Blocks s'.memory start (pre ++ (carve hole_size (size + 20) ++ post)) e
      × Holds heap'.index (holes_left s'.memory h hole_size (size + 20) (p ++ q)) free'
      × AgreeOff h hole_size s.memory s'.memory
alloc_lem fuel size heap s start e pre post h hole_size p q y free before b behind ends holds
      smaller fit =
    let (heap', s', run, taken) =
      alloc-Taken fuel size heap s h hole_size p q y free b ends holds smaller fit in
    (
      heap',
      s',
      taken.free_items,
      run,
      Blocks-around s.memory s'.memory start pre h hole_size (carve hole_size (size + 20)) post e
          taken.outside before taken.blocks behind,
      taken.index,
      taken.outside,
    )
