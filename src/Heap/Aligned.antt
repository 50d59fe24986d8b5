-- ===== src/Heap/Aligned.antt =====
-- `alloc` of cpu/kheap.c for a block that must begin on a page.
use matanos.Base.{
  ℕ, suc, ◌+◌, ◌*◌, ◌/◌, ◌%◌, ◌^◌, ◌<◌, ◌≤◌, inl, inr, ltb, leb, ne→==, Bool-cases, true,
  if◌then◌else◌, u32, sub32, bit_and, bit_and-page, bit_and-pow, bit, List, [], ◌∷◌, ◌≡◌, ◌≢◌, refl,
  ap, ◌∙◌, arith, ok, some,
}
use matanos.Memory.{Memory}
use matanos.OrderedArray.Contents.{Holds, lookup_ordered_array-Holds}
use matanos.OrderedArray.Insert.{insert_ordered_array-Holds}
use matanos.Paging.{Machine}
use matanos.Heap.{Heap, header_size, header_t_less_than, write_header, write_footer}
use matanos.Heap.Alloc.{
  signed_leb, fits, find_hole, find_smallest_hole, put_front_hole, put_block, take_hole, alloc,
}

-- With room in the index, the end of `alloc` returns.
put_block-ok :
    (pos size new_size hole_size : ℕ) (heap : Heap) (m : Memory) (items : List ℕ) (y : ℕ)
    (free : List ℕ)
    → Holds heap.index items (y ∷ free)
    → heap.index.size + 1 < 2 ^ 32
    → (heap' : Heap) × (m' : Memory) × (put_block pos size new_size hole_size heap m
        ≡ ok (heap', m'))
unfolding put_block
put_block-ok pos size new_size hole_size heap m items y free holds few =
    let m2 = write_footer (u32 (pos + 12 + size)) pos (write_header pos 0 new_size m) in
    let left = sub32 hole_size new_size in
    let hole = u32 (pos + 12 + size + 8) in
    let m3 = write_header hole 1 left m2 in
    let footer = sub32 (u32 (hole + left)) 8 in
    let m4 = if ltb footer heap.end_address then write_footer footer hole m3 else m3 in
    let (index, inserted, holds') =
      insert_ordered_array-Holds (header_t_less_than m4) hole heap.index items y free holds few in
    elim (Bool-cases (ltb 0 left)) [
      | inl rest ↦ (record heap { index = index }, m4, rw (rest, inserted) refl)
      | inr full ↦ (heap, m2, rw full refl)
    ]

-- The place of the block is such that its bytes begin on the page boundary above the hole's start.
front_place :
    (h x : ℕ) (m : Memory)
    → h + 0x1000 < 2 ^ 32
    → u32 ((put_front_hole h x m).0 + 12) ≡ h / 0x1000 * 0x1000 + 0x1000
unfolding put_front_hole
front_place h x m room = omega arith

-- An even place counts as if it were on a page boundary.
fits-even :
    (size h : ℕ) (m : Memory)
    → h + 12 < 2 ^ 32
    → h % 2 ≡ 0
    → size ≤ header_size m h
    → header_size m h < 2 ^ 31
    → fits size 1 h m ≡ true
unfolding fits signed_leb bit
fits-even size h m room even fit small =
    let zero_bit : bit_and (u32 (h + 12)) 1 ≡ 0 =
      bit_and-pow 0 (u32 (h + 12)) ∙ (omega (arith, even, room)) in
    rw zero_bit (compared size (header_size m h) fit small)
  where
    compared :
        (a b : ℕ) → a ≤ b → b < 2 ^ 31 → leb (u32 (a + 2 ^ 31)) (u32 (sub32 b 0 + 2 ^ 31)) ≡ true
    compared a b le small =
        let left : u32 (a + 2 ^ 31) ≡ a + 2 ^ 31 = omega arith in
        let right : u32 (sub32 b 0 + 2 ^ 31) ≡ b + 2 ^ 31 = omega arith in
        rw (left, right) (below (a + 2 ^ 31) (b + 2 ^ 31) (omega arith))
      where
        below : (x y : ℕ) → x ≤ y → leb x y ≡ true
        below x y h = ground arith

find_smallest_hole-even :
    (h : ℕ) (q free : List ℕ) (size : ℕ) (heap : Heap) (m : Memory)
    → Holds heap.index (h ∷ q) free
    → fits size 1 h m ≡ true
    → find_smallest_hole size 1 heap m ≡ ok (some 0)
unfolding find_smallest_hole find_hole
find_smallest_hole-even h q free size heap m holds fit =
    let look = (lookup_ordered_array-Holds heap.index [] h q free holds).0 in
    ap (λ (n : ℕ). find_hole n 0 size 1 heap m) holds.count ∙ rw (look, fit) refl

-- A request for a block on a page, while the first hole of the index is at an even address from
-- 0x1000 on and has room for the request, its header and its footer, and the index has room for
-- another hole; on words, with sizes below 2 ^ 31. `alloc` returns in its first round, with the first
-- page boundary behind the start of that hole, wherever the hole ends: that the address lies in
-- the hole, with room behind it, is not looked at.
pub alloc-aligned :
    (fuel size : ℕ) (heap : Heap) (s : Machine) (h : ℕ) (q : List ℕ) (y : ℕ) (free : List ℕ)
    → Holds heap.index (h ∷ q) (y ∷ free)
    → heap.index.size + 1 < 2 ^ 32
    → 0x1000 ≤ h
    → h + 0x1000 < 2 ^ 32
    → h % 2 ≡ 0
    → size + 20 ≤ header_size s.memory h
    → header_size s.memory h < 2 ^ 31
    → (heap' : Heap) × (s' : Machine) × (alloc (suc fuel) size 1 heap s
        ≡ ok (h / 0x1000 * 0x1000 + 0x1000, heap', s'))
unfolding alloc take_hole
alloc-aligned fuel size heap s h q y free holds few low room even fit small =
    let m = s.memory in
    let hole_size = header_size m h in
    let new_size : u32 (size + 20) ≡ size + 20 = omega arith in
    let found =
      find_smallest_hole-even h q (y ∷ free) (size + 20) heap m holds
        (fits-even (size + 20) h m (omega arith) even fit small) in
    let look = (lookup_ordered_array-Holds heap.index [] h q (y ∷ free) holds).0 in
    let above : bit_and h 0xFFFFF000 ≢ 0 =
      λ e. omega (arith, bit_and-page h (omega arith), e, low) in
    let front = put_front_hole h hole_size m in
    let whole = ltb (sub32 hole_size (size + 20)) 20 in
    let (heap', m', run) =
      put_block-ok front.0 (if whole then u32 (size + sub32 hole_size (size + 20)) else size)
        (if whole then hole_size else size + 20) front.1 heap front.2 (h ∷ q) y free holds few in
    let place = front_place h hole_size m room in
    (
      heap',
      record s { memory = m' },
      rw (new_size, found, new_size, look, ne→== (bit_and h 0xFFFFF000) 0 above, run, place) refl,
    )
