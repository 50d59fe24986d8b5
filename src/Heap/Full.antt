-- ===== src/Heap/Full.antt =====
-- `alloc` of cpu/kheap.c on a heap that may not grow.
use matanos.Base.{
  ℕ, suc, ◌+◌, ◌-◌, ◌*◌, ◌/◌, ◌%◌, ◌^◌, ◌<◌, ◌≤◌, ◌==◌, leb, lt→ltb, Bool-cases, inl, inr, false,
  if◌then◌else◌, u32, sub32, List, panic, ◌≡◌, refl, arith,
}
use matanos.Paging.{Machine}
use matanos.OrderedArray.Contents.{Holds}
use matanos.Heap.{Heap}
use matanos.Heap.Resize.{expanded_size, expand}
use matanos.Heap.Alloc.{grow, alloc}
use matanos.Heap.Search.{AllSmaller, find_smallest_hole-none}
use matanos.Heap.Sizes.{expanded_size_lem}

-- Rounding does not make a size smaller, nor larger by more than a page.
pub expanded_size-bounds :
    (n : ℕ) → n + 0x1000 < 2 ^ 32 → (n ≤ expanded_size n) × (expanded_size n ≤ n + 0x1000)
expanded_size-bounds n h = rw (expanded_size_lem n (omega arith)) (either n h)
  where
    either :
        (n : ℕ)
        → n + 0x1000 < 2 ^ 32
        → (n ≤ (if n % 2 == 0 then n else u32 (n / 0x1000 * 0x1000 + 0x1000)))
          × ((if n % 2 == 0 then n else u32 (n / 0x1000 * 0x1000 + 0x1000)) ≤ n + 0x1000)
    either n h = elim (Bool-cases (n % 2 == 0)) [
      | inl e ↦ rw e (omega arith, omega arith)
      | inr e ↦ rw e (omega arith, omega arith)
    ]

expand-panic :
    (new_size : ℕ) (heap : Heap) (s : Machine)
    → heap.start_address ≤ heap.end_address
    → heap.end_address - heap.start_address < new_size
    → heap.start_address + new_size + 0x1000 < 2 ^ 32
    → heap.max_address < heap.start_address + new_size
    → expand new_size heap s ≡ panic
unfolding expand
expand-panic new_size heap s order larger room full =
    let (low, high) = expanded_size-bounds new_size (omega arith) in
    let old : sub32 heap.end_address heap.start_address ≡ heap.end_address - heap.start_address =
      omega arith in
    let grown : leb (u32 (heap.start_address + expanded_size new_size)) heap.max_address ≡ false =
      too_far heap.start_address (expanded_size new_size) heap.max_address (omega arith)
        (omega arith) in
    rw (old, lt→ltb (heap.end_address - heap.start_address) new_size larger, grown) refl
  where
    too_far : (a b m : ℕ) → a + b < 2 ^ 32 → m < a + b → leb (u32 (a + b)) m ≡ false
    too_far a b m h lt =
        let whole : u32 (a + b) ≡ a + b = omega arith in rw whole (far (a + b) m lt)
      where
        far : (x m : ℕ) → m < x → leb x m ≡ false
        far x m lt = ground arith

-- An unaligned request for which every hole of the index is too small, while the heap with the bytes
-- asked for, header and footer would end above its greatest address, on words. `alloc` stops the
-- machine and does not return an address.
pub alloc-panic :
    (fuel size : ℕ) (heap : Heap) (s : Machine) (items free : List ℕ)
    → Holds heap.index items free
    → AllSmaller s.memory (size + 20) items
    → heap.start_address ≤ heap.end_address
    → heap.end_address + size + 0x1014 < 2 ^ 32
    → heap.max_address < heap.end_address + size + 20
    → alloc (suc fuel) size 0 heap s ≡ panic
unfolding alloc grow
alloc-panic fuel size heap s items free holds smaller order room full =
    let new_size : u32 (size + 20) ≡ size + 20 = omega arith in
    let nothing = find_smallest_hole-none items free (size + 20) heap s.memory holds smaller in
    let old : sub32 heap.end_address heap.start_address ≡ heap.end_address - heap.start_address =
      omega arith in
    let wanted : u32 (heap.end_address - heap.start_address + (size + 20))
        ≡ heap.end_address - heap.start_address + (size + 20) =
      omega arith in
    let stopped =
      expand-panic (heap.end_address - heap.start_address + (size + 20)) heap s order (omega arith)
        (omega arith) (omega arith) in
    rw (new_size, nothing, new_size, old, wanted, stopped) refl
