-- ===== src/Heap/Take.antt =====
-- How `alloc` of cpu/kheap.c cuts a block out of a hole.
use matanos.Base.{
  ℕ, ◌+◌, ◌-◌, ◌^◌, ◌<◌, ◌≤◌, inl, inr, ltb, lt→ltb, le→ltb, ltb→le, Bool-cases, if◌then◌else◌, u32,
  sub32, List, [], ◌∷◌, ◌++◌, length, length-append, ◌≡◌, refl, arith, ok,
}
use matanos.Memory.{Memory}
use matanos.Memory.Frame.{AgreeOff, AgreeOff-Agree, AgreeOff-widen, AgreeOff-trans}
use matanos.OrderedArray.{OrderedArray, lookup_ordered_array, remove_ordered_array}
use matanos.OrderedArray.Spec.{insert_sorted}
use matanos.OrderedArray.Contents.{Holds, lookup_ordered_array-Holds}
use matanos.OrderedArray.Insert.{insert_ordered_array-Holds}
use matanos.OrderedArray.Remove.{remove_ordered_array-Holds}
use matanos.Paging.{Machine}
use matanos.Heap.{Heap, header_size, header_t_less_than, write_header, write_footer}
use matanos.Heap.Alloc.{put_block, take_hole}
use matanos.Heap.Blocks.{IsBlock, Blocks, IsBlock-Agree, written-IsBlock}

-- What becomes of a hole of `hole_size` bytes from which a block of `new_size` bytes is taken: a
-- rest that is too small for a header and a footer goes to the block.
unfoldable pub carve : (hole_size new_size : ℕ) → List (ℕ × ℕ)
carve hole_size new_size =
    if ltb (hole_size - new_size) 20
    then (hole_size, 0) ∷ []
    else (new_size, 0) ∷ (hole_size - new_size, 1) ∷ []

-- The holes that the index has then, from those it had without this one.
unfoldable pub holes_left : Memory → (pos hole_size new_size : ℕ) → List ℕ → List ℕ
holes_left m pos hole_size new_size items =
    if ltb (hole_size - new_size) 20
    then items
    else insert_sorted (header_t_less_than m) (pos + new_size) items

-- The outcome of taking a block at `pos`.
pub record Taken (pos hole_size new_size : ℕ) (items : List ℕ) (heap : Heap) (m : Memory)
    (heap' : Heap) (m' : Memory) : Type 0 where
  pub blocks : Blocks m' pos (carve hole_size new_size) (pos + hole_size)
  pub outside : AgreeOff pos hole_size m m'
  pub free_items : List ℕ
  pub room : (z : ℕ) × (zs : List ℕ) × (free_items ≡ z ∷ zs)
  pub index : Holds heap'.index (holes_left m' pos hole_size new_size items) free_items
  pub same_end : heap'.end_address ≡ heap.end_address

put_whole :
    (pos size hole_size : ℕ) (heap : Heap) (m : Memory)
    → pos + hole_size < 2 ^ 32
    → size + 20 ≡ hole_size
    → put_block pos size hole_size hole_size heap m
      ≡ ok (heap, write_footer (pos + (hole_size - 8)) pos (write_header pos 0 hole_size m))
unfolding put_block
put_whole pos size hole_size heap m room e =
    let place : u32 (pos + 12 + size) ≡ pos + (hole_size - 8) = omega arith in
    let nothing : sub32 hole_size hole_size ≡ 0 = omega arith in rw (place, nothing) refl

put_split :
    (pos size hole_size : ℕ) (heap : Heap) (m : Memory) (items : List ℕ) (y : ℕ) (free : List ℕ)
    → pos + hole_size < 2 ^ 32
    → size + 40 ≤ hole_size
    → pos + hole_size ≤ heap.end_address
    → Holds heap.index items (y ∷ free)
    → heap.index.size + 1 < 2 ^ 32
    → (heap' : Heap) × (m' : Memory) × (put_block pos size (size + 20) hole_size heap m
        ≡ ok (heap', m'))
      × IsBlock m' pos (size + 20) 0
      × IsBlock m' (pos + (size + 20)) (hole_size - (size + 20)) 1
      × AgreeOff pos hole_size m m'
      × Holds heap'.index (insert_sorted (header_t_less_than m') (pos + (size + 20)) items) free
      × (heap'.end_address ≡ heap.end_address)
unfolding put_block
put_split pos size hole_size heap m items y free room large ends holds few =
    let new = size + 20 in
    let left = hole_size - new in
    let hole = pos + new in
    let m2 = write_footer (pos + (new - 8)) pos (write_header pos 0 new m) in
    let m4 = write_footer (hole + (left - 8)) hole (write_header hole 1 left m2) in
    let (first, off1) = written-IsBlock pos new 0 m (omega arith) (omega arith) in
    let (second, off2) = written-IsBlock hole left 1 m2 (omega arith) (omega arith) in
    let (index, inserted, holds') =
      insert_ordered_array-Holds (header_t_less_than m4) hole heap.index items y free holds few in
    let place : u32 (pos + 12 + size) ≡ pos + (new - 8) = omega arith in
    let remains : sub32 hole_size new ≡ left = omega arith in
    let behind : u32 (pos + 12 + size + 8) ≡ hole = omega arith in
    let last : sub32 (u32 (hole + left)) 8 ≡ hole + (left - 8) = omega arith in
    (
      record heap { index = index },
      m4,
      rw
          (
            place,
            remains,
            lt→ltb 0 left (omega arith),
            behind,
            last,
            lt→ltb (hole + (left - 8)) heap.end_address (omega arith),
            inserted,
          )
          refl,
      IsBlock-Agree m2 m4 pos new 0
          (AgreeOff-Agree hole left pos new m2 m4 off2 (inl (omega arith))) first,
      second,
      AgreeOff-trans pos hole_size m m2 m4
          (AgreeOff-widen pos hole_size pos new m m2 off1 (omega arith) (omega arith))
          (AgreeOff-widen pos hole_size hole left m2 m4 off2 (omega arith) (omega arith)),
      holds',
      refl,
    )

take_hole-split :
    (size h hole_size i : ℕ) (heap heap' : Heap) (s : Machine) (m' : Memory) (index : OrderedArray)
    → h + hole_size < 2 ^ 32
    → size + 40 ≤ hole_size
    → lookup_ordered_array i heap.index ≡ ok h
    → header_size s.memory h ≡ hole_size
    → remove_ordered_array i heap.index ≡ ok index
    → put_block h size (size + 20) hole_size (record heap { index = index }) s.memory
      ≡ ok (heap', m')
    → take_hole size (size + 20) 0 i heap s ≡ ok (h + 12, heap', record s { memory = m' })
unfolding take_hole
take_hole-split size h hole_size i heap heap' s m' index inside large look extent removed run =
    let address : u32 (h + 12) ≡ h + 12 = omega arith in
    let rest : sub32 hole_size (size + 20) ≡ hole_size - (size + 20) = omega arith in
    rw
      (look, extent, rest, le→ltb (hole_size - (size + 20)) 20 (omega arith), removed, run, address)
      refl

pub take_hole-Taken :
    (size h hole_size : ℕ) (heap : Heap) (s : Machine) (p q : List ℕ) (y : ℕ) (free : List ℕ)
    → Holds heap.index (p ++ (h ∷ q)) (y ∷ free)
    → IsBlock s.memory h hole_size 1
    → size + 20 ≤ hole_size
    → h + hole_size ≤ heap.end_address
    → (heap' : Heap) × (s' : Machine) × (take_hole size (size + 20) 0 (length p) heap s
        ≡ ok (h + 12, heap', s'))
      × Taken h hole_size (size + 20) (p ++ q) heap s.memory heap' s'.memory
      × (s'.frames ≡ s.frames)
unfolding take_hole carve holes_left Blocks
take_hole-Taken size h hole_size heap s p q y free holds b fit ends =
    let new = size + 20 in
    let look = (lookup_ordered_array-Holds heap.index p h q (y ∷ free) holds).0 in
    let (index, removed, holds') = remove_ordered_array-Holds heap.index p h q y free holds in
    let extent = b.extent in
    let inside = b.inside in
    let rest : sub32 hole_size new ≡ hole_size - new = omega arith in
    let address : u32 (h + 12) ≡ h + 12 = omega arith in
    elim (Bool-cases (ltb (hole_size - new) 20)) [
      | inl small ↦
          let grown : u32 (size + (hole_size - new)) + 20 ≡ hole_size = omega arith in
          let heap1 = record heap { index = index } in
          let block = written-IsBlock h hole_size 0 s.memory b.large b.inside in
          let m = write_footer (h + (hole_size - 8)) h (write_header h 0 hole_size s.memory) in
          (
            heap1,
            record s { memory = m },
            rw
                (
                  look,
                  extent,
                  rest,
                  small,
                  removed,
                  put_whole h (u32 (size + (hole_size - new))) hole_size heap1 s.memory inside
                      grown,
                  address,
                )
                refl,
            record {
              blocks = rw small (block.0, refl);
              outside = block.1;
              free_items = y ∷ y ∷ free;
              room = (y, y ∷ free, refl);
              index = rw small holds';
              same_end = refl;
            },
            refl,
          )
      | inr big ↦
          let heap1 = record heap { index = index } in
          let large : size + 40 ≤ hole_size = omega (arith, ltb→le (hole_size - new) 20 big) in
          let few : index.size + 1 < 2 ^ 32 = omega (
            arith,
            holds'.count,
            holds.count,
            holds.small,
            length-append p q,
            length-append p (h ∷ q),
          ) in
          let (heap', m', run, first, second, outside, index', same_end) =
            put_split h size hole_size heap1 s.memory (p ++ q) y (y ∷ free) inside large ends holds'
              few in
          let whole : h + new + (hole_size - new) ≡ h + hole_size = omega arith in
          (
            heap',
            record s { memory = m' },
            take_hole-split size h hole_size (length p) heap heap' s m' index inside large look
                extent removed run,
            record {
              blocks = rw big (first, (second, whole));
              outside = outside;
              free_items = y ∷ free;
              room = (y, free, refl);
              index = rw big index';
              same_end = same_end;
            },
            refl,
          )
    ]
