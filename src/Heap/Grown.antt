-- ===== src/Heap/Grown.antt =====
-- `alloc` of cpu/kheap.c when no hole is large enough and the heap may grow.
use matanos.Base.{
  ℕ, suc, ◌+◌, ◌-◌, ◌<◌, ◌≤◌, inl, inr, ltb, Bool-cases, List, [], ◌∷◌, ◌++◌, ◌≡◌, ◌≢◌, ◌∙◌, arith,
  ok,
}
use matanos.Memory.{Memory}
use matanos.Memory.Frame.{Agree}
use matanos.OrderedArray.Contents.{Holds}
use matanos.Paging.{Machine}
use matanos.Heap.{Heap, header_is_hole, header_size}
use matanos.Heap.Alloc.{alloc}
use matanos.Heap.Blocks.{IsBlock, Blocks, IsBlock-Agree, Blocks-append, Blocks-Agree}
use matanos.Heap.Search.{AllSmaller}
use matanos.Heap.Take.{carve, holes_left}
use matanos.Heap.Row.{alloc-Taken}
use matanos.Heap.Holes.{resized-IsBlock}
use matanos.Heap.Grow.{
  growth, growth-bounds, grown, MayGrow, stretched, grow_round, grow-stretched, grow-created,
}

-- What is cut out of a hole begins with a block in use of at least the bytes asked for.
first_used :
    (m : Memory) (h hole_size new_size : ℕ)
    → Blocks m h (carve hole_size new_size) (h + hole_size)
    → new_size ≤ hole_size
    → (header_is_hole m h ≡ 0) × (new_size ≤ header_size m h)
unfolding carve Blocks
first_used m h hole_size new_size blocks fit = elim (Bool-cases (ltb (hole_size - new_size) 20)) [
  | inl e ↦ let b = (rw e at blocks).0 in let extent = b.extent in (b.kind, omega arith)
  | inr e ↦ let b = (rw e at blocks).0 in let extent = b.extent in (b.kind, omega arith)
]

module _ (size : ℕ) (heap : Heap) (s s1 : Machine) (may : MayGrow (size + 20) heap s s1) where
  -- A request for which the index has no hole, while the heap may grow and the index has room. The
  -- frames for the new pages leave `s1`, where the row of blocks up to the end of the heap is as
  -- before. `alloc` returns in its second round, with the address behind the header of a block at
  -- the old end of the heap; the new bytes are that block and perhaps a hole behind it, the rest of
  -- the row is as before, and the index has the holes of that row.
  pub alloc-grown :
      (fuel start : ℕ) (pre : List (ℕ × ℕ)) (y z : ℕ) (free : List ℕ)
      → Holds heap.index [] (y ∷ z ∷ free)
      → Blocks s.memory start pre heap.end_address
      → ((k : ℕ) → start ≤ k → k < heap.end_address → s1.memory k ≡ s.memory k)
      → (heap' : Heap) × (s' : Machine) × (free' : List ℕ) × (alloc (suc (suc fuel)) size 0 heap s
          ≡ ok (heap.end_address + 12, heap', s'))
        × Blocks s'.memory start
            (pre ++ carve (growth (size + 20) heap) (size + 20))
            (heap.end_address + (growth (size + 20) heap))
        × Holds heap'.index
            (holes_left s'.memory heap.end_address (growth (size + 20) heap) (size + 20) [])
            free'
        × (heap'.end_address ≡ heap.end_address + (growth (size + 20) heap))
  unfolding AllSmaller
  alloc-grown fuel start pre y z free holds row same =
      let (low, high, whole) = growth-bounds (size + 20) heap s s1 may in
      let e = heap.end_address in
      let (index, m2, grows, holds2, block, off) =
        grow-created size heap s s1 may y (z ∷ free) holds in
      let heap2 : Heap = record (grown (size + 20) heap) { index = index } in
      let s2 : Machine = record s1 { memory = m2 } in
      let (heap', s', runs, taken) =
        alloc-Taken fuel size heap2 s2 e (growth (size + 20) heap) [] [] z free block (omega arith)
          holds2 tt low in
      (
        heap',
        s',
        taken.free_items,
        grow_round size heap s s1 may (suc fuel) [] (y ∷ z ∷ free) heap2 s2 holds tt grows ∙ runs,
        Blocks-append s'.memory start pre (carve (growth (size + 20) heap) (size + 20)) e
            (e + (growth (size + 20) heap))
            (Blocks-Agree s.memory s'.memory start pre e
              (λ k lo hi. taken.outside k (inl hi) ∙ off k (inl hi) ∙ same k lo hi) row)
            taken.blocks,
        taken.index,
        taken.same_end,
      )

  -- A request that is larger, with header and footer, than the only hole, which is not at address 0
  -- and lies in front of a block in use, while the heap may grow and the index has room. The frames
  -- for the new pages leave `s1`, where the hole is as before. `alloc` makes that hole larger by the
  -- new bytes, although they do not lie behind it, and returns the address behind its header: a
  -- block in use begins there, and the header of the other block in use lies inside it.
  pub alloc-overlap :
      (fuel h old right y : ℕ) (free : List ℕ)
      → Holds heap.index (h ∷ []) (y ∷ free)
      → IsBlock s.memory h old 1
      → IsBlock s.memory (h + old) right 0
      → h + old + right ≤ heap.end_address
      → h ≢ 0
      → old < size + 20
      → Agree h old s.memory s1.memory
      → (heap' : Heap) × (s' : Machine) × (alloc (suc (suc fuel)) size 0 heap s
          ≡ ok (h + 12, heap', s'))
        × (header_is_hole s'.memory h ≡ 0)
        × (h + old < h + header_size s'.memory h)
  unfolding AllSmaller carve Blocks
  alloc-overlap fuel h old right y free holds b rb ends pos small same =
      let (low, high, whole) = growth-bounds (size + 20) heap s s1 may in
      let room = may.room in
      let b1 = IsBlock-Agree s.memory s1.memory h old 1 same b in
      let grows = grow-stretched size heap s s1 may h old (y ∷ free) holds b1 pos (omega arith) in
      let heap2 : Heap = grown (size + 20) heap in
      let s2 : Machine = record s1 { memory = stretched size heap s s1 may h old } in
      let (block, off) =
        resized-IsBlock s1.memory h old (old + (growth (size + 20) heap)) b1 (omega arith)
          (omega arith) in
      let (heap', s', runs, taken) =
        alloc-Taken fuel size heap2 s2 h (old + (growth (size + 20) heap)) [] [] y free block
          (omega arith) holds tt (omega arith) in
      let extent = b.extent in
      let (kind, far) =
        first_used s'.memory h (old + (growth (size + 20) heap)) (size + 20) taken.blocks
          (omega arith) in
      (
        heap',
        s',
        grow_round size heap s s1 may (suc fuel) (h ∷ []) (y ∷ free) heap2 s2 holds
              (omega arith, tt) grows
            ∙ runs,
        kind,
        omega (arith, far, small),
      )
