-- ===== src/Heap/Grow.antt =====
-- The part of `alloc` of cpu/kheap.c that makes the heap larger.
use matanos.Base.{
  ℕ, suc, ◌+◌, ◌-◌, ◌/◌, ◌^◌, ◌<◌, ◌≤◌, ltb, leb, lt→ltb, true, u32, sub32, List, [], ◌∷◌, ◌≡◌, ◌≢◌,
  refl, ap, ◌∙◌, arith, ok,
}
use matanos.Memory.{Memory, store8, store32}
use matanos.Memory.Frame.{AgreeOff}
use matanos.OrderedArray.{OrderedArray, lookup_ordered_array, insert_ordered_array}
use matanos.OrderedArray.Insert.{insert_ordered_array-Holds}
use matanos.OrderedArray.Contents.{Holds, lookup_ordered_array-Holds}
use matanos.Paging.{Machine}
use matanos.Heap.{Heap, magic_number, header_size, header_t_less_than, write_footer}
use matanos.Heap.Resize.{expand, expanded_size, map_pages}
use matanos.Heap.Alloc.{grow, alloc, find_endmost}
use matanos.Heap.Blocks.{IsBlock}
use matanos.Heap.Full.{expanded_size-bounds}
use matanos.Heap.Search.{AllSmaller, find_smallest_hole-none}
use matanos.Heap.Holes.{created-IsBlock}

-- The bytes by which the heap grows for a request of so many bytes, header and footer included.
abbrev pub growth : ℕ → Heap → ℕ
growth new_size heap =
    expanded_size (heap.end_address - heap.start_address + new_size)
    - (heap.end_address - heap.start_address)

-- The heap may grow for the request: it is in order, stays within its greatest address and within
-- words, and there are frames for the new pages, which leaves the machine `s1`.
pub record MayGrow (new_size : ℕ) (heap : Heap) (s s1 : Machine) : Type 0 where
  pub order : heap.start_address ≤ heap.end_address
  pub some : 20 ≤ new_size
  pub room : heap.end_address + new_size + 0x1000 < 2 ^ 32
  pub within : heap.end_address + growth new_size heap ≤ heap.max_address
  pub mapped :
      map_pages
        ((growth new_size heap + 0xFFF) / 0x1000)
        (heap.end_address - heap.start_address)
        (heap.end_address - heap.start_address + growth new_size heap)
        heap
        s
      ≡ ok s1

pub growth-bounds :
    (new_size : ℕ) (heap : Heap) (s s1 : Machine)
    → MayGrow new_size heap s s1
    → (new_size ≤ growth new_size heap)
      × (growth new_size heap ≤ new_size + 0x1000)
      × (expanded_size (heap.end_address - heap.start_address + new_size)
          ≡ heap.end_address - heap.start_address + growth new_size heap)
growth-bounds new_size heap s s1 may =
    let order = may.order in
    let room = may.room in
    let (low, high) =
      expanded_size-bounds (heap.end_address - heap.start_address + new_size) (omega arith) in
    (omega arith, omega arith, omega arith)

abbrev pub grown : ℕ → Heap → Heap
grown new_size heap = record heap { end_address = heap.end_address + growth new_size heap }

expand-ok :
    (n old e : ℕ) (heap : Heap) (s s1 : Machine)
    → sub32 heap.end_address heap.start_address ≡ old
    → expanded_size n ≡ e
    → old < n
    → leb (u32 (heap.start_address + e)) heap.max_address ≡ true
    → map_pages ((e - old + 0xFFF) / 0x1000) old e heap s ≡ ok s1
    → expand n heap s ≡ ok (record heap { end_address = u32 (heap.start_address + e) }, s1)
unfolding expand
expand-ok n old e heap s s1 length_eq size_eq larger within mapped =
    rw (length_eq, lt→ltb old n larger, size_eq, within, mapped) refl

expand-grown :
    (new_size : ℕ) (heap : Heap) (s s1 : Machine)
    → MayGrow new_size heap s s1
    → expand (heap.end_address - heap.start_address + new_size) heap s
      ≡ ok (grown new_size heap, s1)
expand-grown new_size heap s s1 may =
    let order = may.order in
    let room = may.room in
    let some = may.some in
    let within = may.within in
    let (low, high, whole) = growth-bounds new_size heap s s1 may in
    let n = heap.end_address - heap.start_address + new_size in
    let new_end : u32 (heap.start_address + expanded_size n)
        ≡ heap.end_address + growth new_size heap =
      omega arith in
    let fits : leb (u32 (heap.start_address + expanded_size n)) heap.max_address ≡ true =
      below (u32 (heap.start_address + expanded_size n)) heap.max_address (omega arith) in
    expand-ok n (heap.end_address - heap.start_address) (expanded_size n) heap s s1 (omega arith)
      refl (omega arith) fits
      (ap
          (λ e.
            map_pages ((growth new_size heap + 0xFFF) / 0x1000)
              (heap.end_address - heap.start_address) e heap s)
          whole
        ∙ may.mapped)
    ∙ ap (λ e. ok (record heap { end_address = e }, s1)) new_end
  where
    below : (a b : ℕ) → a ≤ b → leb a b ≡ true
    below a b h = ground arith

-- The search for the hole with the highest address, with one hole and with none.
endmost_one :
    (heap : Heap) (h : ℕ) (free : List ℕ)
    → Holds heap.index (h ∷ []) free
    → h ≢ 0
    → find_endmost heap.index.size 0 0xFFFFFFFF 0 heap ≡ ok 0
unfolding find_endmost
endmost_one heap h free holds pos =
    let look = (lookup_ordered_array-Holds heap.index [] h [] free holds).0 in
    let above : ltb 0 h ≡ true = lt→ltb 0 h (ground (arith, pos)) in
    ap (λ (n : ℕ). find_endmost n 0 0xFFFFFFFF 0 heap) holds.count ∙ rw (look, above) refl

endmost_none :
    (heap : Heap) (free : List ℕ)
    → Holds heap.index [] free
    → find_endmost heap.index.size 0 0xFFFFFFFF 0 heap ≡ ok 0xFFFFFFFF
unfolding find_endmost
endmost_none heap free holds = ap (λ (n : ℕ). find_endmost n 0 0xFFFFFFFF 0 heap) holds.count

grow_stretch :
    (new_size old d f h : ℕ) (heap heap1 : Heap) (s s1 : Machine)
    → expand (u32 (sub32 heap.end_address heap.start_address + new_size)) heap s ≡ ok (heap1, s1)
    → find_endmost heap1.index.size 0 0xFFFFFFFF 0 heap1 ≡ ok 0
    → lookup_ordered_array 0 heap1.index ≡ ok h
    → header_size s1.memory h ≡ old
    → sub32
        (sub32 heap1.end_address heap1.start_address)
        (sub32 heap.end_address heap.start_address)
      ≡ d
    → u32 (old + d) ≡ old + d
    → sub32 (u32 (h + (old + d))) 8 ≡ f
    → grow new_size heap s
      ≡ ok (
        heap1,
        record s1 {
          memory = store32 (store32 (store32 s1.memory (h + 8) (old + d)) (f + 4) h) f magic_number;
        },
      )
unfolding grow
grow_stretch new_size old d f h heap heap1 s s1 expands endmost look extent more total foot =
    rw (expands, endmost, look, extent, more, total, foot) refl

grow_create :
    (new_size d f : ℕ) (heap heap1 : Heap) (s s1 : Machine) (index : OrderedArray)
    → expand (u32 (sub32 heap.end_address heap.start_address + new_size)) heap s ≡ ok (heap1, s1)
    → find_endmost heap1.index.size 0 0xFFFFFFFF 0 heap1 ≡ ok 0xFFFFFFFF
    → sub32
        (sub32 heap1.end_address heap1.start_address)
        (sub32 heap.end_address heap.start_address)
      ≡ d
    → sub32 (u32 (heap.end_address + d)) 8 ≡ f
    → insert_ordered_array
        (header_t_less_than (
          write_footer f heap.end_address (
            store8
              (store32 (store32 s1.memory heap.end_address magic_number) (heap.end_address + 8) d)
              (heap.end_address + 4)
              1)))
        heap.end_address
        heap1.index
      ≡ ok index
    → grow new_size heap s
      ≡ ok (
        record heap1 { index = index },
        record s1 {
          memory = write_footer f heap.end_address (
              store8
                (store32 (store32 s1.memory heap.end_address magic_number) (heap.end_address + 8) d)
                (heap.end_address + 4)
                1);
        },
      )
unfolding grow
grow_create new_size d f heap heap1 s s1 index expands endmost more foot inserted =
    rw (expands, endmost, more, foot, inserted) refl

module _ (size : ℕ) (heap : Heap) (s s1 : Machine) (may : MayGrow (size + 20) heap s s1) where
  abbrev pub bytes : ℕ
  bytes = growth (size + 20) heap

  -- The round of `alloc` that grows the heap, when no hole is large enough.
  pub grow_round :
      (fuel : ℕ) (items free : List ℕ) (heap2 : Heap) (s2 : Machine)
      → Holds heap.index items free
      → AllSmaller s.memory (size + 20) items
      → grow (size + 20) heap s ≡ ok (heap2, s2)
      → alloc (suc fuel) size 0 heap s ≡ alloc fuel size 0 heap2 s2
  unfolding alloc
  grow_round fuel items free heap2 s2 holds smaller grows =
      let room = may.room in
      let new_size : u32 (size + 20) ≡ size + 20 = omega arith in
      let nothing = find_smallest_hole-none items free (size + 20) heap s.memory holds smaller in
      rw (new_size, nothing, new_size, grows) refl

  -- The memory once the last hole `h` has been made larger by the new bytes.
  abbrev pub stretched : (h old : ℕ) → Memory
  stretched h old =
      store32 (store32 (store32 s1.memory (h + 8) (old + bytes)) (h + (old + bytes - 8) + 4) h)
        (h + (old + bytes - 8)) magic_number

  wanted :
      heap.start_address ≤ heap.end_address
      → heap.end_address + (size + 20) + 0x1000 < 2 ^ 32
      → u32 (sub32 heap.end_address heap.start_address + (size + 20))
        ≡ heap.end_address - heap.start_address + (size + 20)
  wanted order room = omega arith

  more :
      heap.start_address ≤ heap.end_address
      → heap.end_address + (size + 20) + 0x1000 < 2 ^ 32
      → bytes ≤ size + 20 + 0x1000
      → sub32
          (sub32 (heap.end_address + bytes) heap.start_address)
          (sub32 heap.end_address heap.start_address)
        ≡ bytes
  more order room high = at (growth (size + 20) heap) high
    where
      at :
          (b : ℕ)
          → b ≤ size + 20 + 0x1000
          → sub32
              (sub32 (heap.end_address + b) heap.start_address)
              (sub32 heap.end_address heap.start_address)
            ≡ b
      at b h = omega arith

  pub grow-stretched :
      (h old : ℕ) (free : List ℕ)
      → Holds heap.index (h ∷ []) free
      → IsBlock s1.memory h old 1
      → h ≢ 0
      → h + old ≤ heap.end_address
      → grow (size + 20) heap s
        ≡ ok (grown (size + 20) heap, record s1 { memory = stretched h old })
  grow-stretched h old free holds b pos ends =
      let order = may.order in
      let room = may.room in
      let (low, high, whole) = growth-bounds (size + 20) heap s s1 may in
      let old_length : sub32 heap.end_address heap.start_address
          ≡ heap.end_address - heap.start_address =
        omega arith in
      let large = b.large in
      let expands = expand-grown (size + 20) heap s s1 may in
      let holds' : Holds (grown (size + 20) heap).index (h ∷ []) free = holds in
      grow_stretch (size + 20) old bytes (h + (old + bytes - 8)) h heap (grown (size + 20) heap) s
        s1 (ap (λ n. expand n heap s) (wanted order room) ∙ expands)
        (endmost_one (grown (size + 20) heap) h free holds' pos)
        (lookup_ordered_array-Holds heap.index [] h [] free holds).0 b.extent (more order room high)
        (omega arith) (omega arith)

  pub grow-created :
      (y : ℕ) (free : List ℕ)
      → Holds heap.index [] (y ∷ free)
      → (index : OrderedArray) × (m2 : Memory) × (grow (size + 20) heap s
          ≡ ok (record (grown (size + 20) heap) { index = index }, record s1 { memory = m2 }))
        × Holds index (heap.end_address ∷ []) free
        × IsBlock m2 heap.end_address bytes 1
        × AgreeOff heap.end_address bytes s1.memory m2
  grow-created y free holds =
      let order = may.order in
      let room = may.room in
      let (low, high, whole) = growth-bounds (size + 20) heap s s1 may in
      let expands = expand-grown (size + 20) heap s s1 may in
      let e = heap.end_address in
      let f = e + (bytes - 8) in
      let m2 =
        write_footer f e
          (store8 (store32 (store32 s1.memory e magic_number) (e + 8) bytes) (e + 4) 1) in
      let (index, inserted, holds') =
        insert_ordered_array-Holds (header_t_less_than m2) e heap.index [] y free holds
          (omega (arith, holds.count)) in
      let (block, off) = created-IsBlock s1.memory e bytes (omega arith) (omega arith) in
      (
        index,
        m2,
        grow_create (size + 20) bytes f heap (grown (size + 20) heap) s s1 index
            (ap (λ n. expand n heap s) (wanted order room) ∙ expands)
            (endmost_none (grown (size + 20) heap) (y ∷ free) holds) (more order room high)
            (omega arith) inserted,
        holds',
        block,
        off,
      )
