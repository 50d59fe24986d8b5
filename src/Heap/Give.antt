-- ===== src/Heap/Give.antt =====
-- `free` of cpu/kheap.c on a heap that is a row of blocks.
use matanos.Base.{
  ℕ, ◌+◌, ◌-◌, ◌^◌, ◌<◌, ◌≤◌, inl, inr, u32, sub32, List, ◌∷◌, ◌++◌, ◌≡◌, refl, ◌∙◌, arith, ok,
}
use matanos.Memory.{Memory, load8, store8}
use matanos.Memory.Frame.{
  load32-Agree, store8_self, store8-AgreeOff, AgreeOff, AgreeOff-Agree, AgreeOff-widen,
}
use matanos.OrderedArray.Spec.{insert_sorted}
use matanos.OrderedArray.Contents.{Holds}
use matanos.OrderedArray.Insert.{insert_ordered_array-Holds}
use matanos.Paging.{Machine}
use matanos.Heap.{
  Heap, header_magic, header_is_hole, header_size, footer_magic, footer_header, header_t_less_than,
}
use matanos.Heap.Blocks.{IsBlock, Blocks, Blocks-le, Blocks-append, Blocks-Agree, IsBlock-Agree}
use matanos.Base.{ne→==}
use matanos.Heap.Free.{unify_left, unify_right, release, free}

-- Setting the mark of a hole changes the kind of a block and nothing else of it.
pub marked-IsBlock :
    (m : Memory) (h size : ℕ) → IsBlock m h size 0 → IsBlock (store8 m (h + 4) 1) h size 1
unfolding header_magic header_is_hole header_size footer_magic footer_header load8
marked-IsBlock m h size b =
    let large = b.large in
    let m1 = store8 m (h + 4) 1 in
    let off = store8-AgreeOff m (h + 4) 1 in
    record {
      large = b.large;
      inside = b.inside;
      magic =
          load32-Agree h m m1 (AgreeOff-Agree (h + 4) 1 h 4 m m1 off (inl (omega arith))) ∙ b.magic;
      kind = store8_self m (h + 4) 1;
      extent =
          load32-Agree (h + 8) m m1
            (AgreeOff-Agree (h + 4) 1 (h + 8) 4 m m1 off (inr (omega arith)))
          ∙ b.extent;
      end_magic =
          load32-Agree (h + (size - 8)) m m1
            (AgreeOff-Agree (h + 4) 1 (h + (size - 8)) 4 m m1 off (inr (omega arith)))
          ∙ b.end_magic;
      back =
          load32-Agree (h + (size - 8) + 4) m m1
            (AgreeOff-Agree (h + 4) 1 (h + (size - 8) + 4) 4 m m1 off (inr (omega arith)))
          ∙ b.back;
    }

-- The checks of `free` pass on a block in use, which is marked.
pub free-release :
    (h size : ℕ) (heap : Heap) (s : Machine)
    → IsBlock s.memory h size 0
    → free (h + 12) heap s
      ≡ release h (h + (size - 8)) heap (record s { memory = store8 s.memory (h + 4) 1 })
unfolding free
free-release h size heap s b =
    let large = b.large in
    let inside = b.inside in
    let header : sub32 (h + 12) 12 ≡ h = omega arith in
    let footer : sub32 (u32 (h + size)) 8 ≡ h + (size - 8) = omega arith in
    rw (ne→== (h + 12) 0 (λ e. omega arith), header, b.extent, footer, b.magic, b.end_magic) refl

-- A block in use on the left is left alone.
pub unify_left-used :
    (l left h footer : ℕ) (m : Memory)
    → IsBlock m l left 0
    → l + left ≡ h
    → unify_left h footer m ≡ (h, m, 1)
unfolding unify_left
unify_left-used l left h footer m b e =
    let large = b.large in
    let inside = b.inside in
    let there : sub32 h 8 ≡ l + (left - 8) = omega arith in
    rw (there, b.end_magic, b.back, b.kind) refl

unify_right-used :
    (h size r right : ℕ) (heap : Heap) (m : Memory)
    → IsBlock m r right 0
    → h + size ≡ r
    → 20 ≤ size
    → unify_right h (h + (size - 8)) heap m ≡ ok (h + (size - 8), heap, m)
unfolding unify_right
unify_right-used h size r right heap m b e large =
    let inside = b.inside in
    let there : u32 (h + (size - 8) + 8) ≡ r = omega arith in rw (there, b.magic, b.kind) refl

-- `free` of a block between two blocks in use, with a free element in the index. It returns; the
-- block is a hole of the same size, the rest of the row is as before, the hole is in the index in the
-- order of sizes, and the only byte that changes is the mark in its header.
pub free_lem :
    (heap : Heap) (s : Machine) (start e l left h size right : ℕ) (pre post : List (ℕ × ℕ))
    (items : List ℕ) (y : ℕ) (rest : List ℕ)
    → Blocks s.memory start pre l
    → IsBlock s.memory l left 0
    → l + left ≡ h
    → IsBlock s.memory h size 0
    → IsBlock s.memory (h + size) right 0
    → Blocks s.memory (h + size + right) post e
    → e ≤ heap.end_address
    → Holds heap.index items (y ∷ rest)
    → heap.index.size + 1 < 2 ^ 32
    → (heap' : Heap) × (s' : Machine) × (free (h + 12) heap s ≡ ok (heap', s'))
      × Blocks s'.memory start (pre ++ ((left, 0) ∷ (size, 1) ∷ (right, 0) ∷ post)) e
      × Holds heap'.index (insert_sorted (header_t_less_than s'.memory) h items) rest
      × AgreeOff (h + 4) 1 s.memory s'.memory
unfolding release Blocks
free_lem heap s start e l left h size right pre post items y rest before lb el b rb behind ends
      holds few =
    let large = b.large in
    let inside = b.inside in
    let wide = rb.large in
    let bound = Blocks-le s.memory (h + size + right) post e behind in
    let m1 = store8 s.memory (h + 4) 1 in
    let off = store8-AgreeOff s.memory (h + 4) 1 in
    let whole = AgreeOff-widen h size (h + 4) 1 s.memory m1 off (omega arith) (omega arith) in
    let lb1 =
      IsBlock-Agree s.memory m1 l left 0
        (AgreeOff-Agree h size l left s.memory m1 whole (inl (omega arith))) lb in
    let rb1 =
      IsBlock-Agree s.memory m1 (h + size) right 0
        (AgreeOff-Agree h size (h + size) right s.memory m1 whole (inr (omega arith))) rb in
    let (index, inserted, holds') =
      insert_ordered_array-Holds (header_t_less_than m1) h heap.index items y rest holds few in
    let last : u32 (h + (size - 8) + 8) ≡ h + size = omega arith in
    (
      record heap { index = index },
      record s { memory = m1 },
      free-release h size heap s b
          ∙ rw
              (
                unify_left-used l left h (h + (size - 8)) m1 lb1 el,
                unify_right-used h size (h + size) right heap m1 rb1 refl large,
                last,
                ne→== (h + size) heap.end_address (λ z. omega arith),
                inserted,
              )
              refl,
      row s.memory m1 start e l left h size right pre post whole before lb1 el
          (marked-IsBlock s.memory h size b) rb1 behind,
      holds',
      off,
    )
  where
    row :
        (m m1 : Memory) (start e l left h size right : ℕ) (pre post : List (ℕ × ℕ))
        → AgreeOff h size m m1
        → Blocks m start pre l
        → IsBlock m1 l left 0
        → l + left ≡ h
        → IsBlock m1 h size 1
        → IsBlock m1 (h + size) right 0
        → Blocks m (h + size + right) post e
        → Blocks m1 start (pre ++ ((left, 0) ∷ (size, 1) ∷ (right, 0) ∷ post)) e
    row m m1 start e l left h size right pre post off before lb el b rb behind =
        let wide = lb.large in
        Blocks-append m1 start pre ((left, 0) ∷ (size, 1) ∷ (right, 0) ∷ post) l e
          (Blocks-Agree m m1 start pre l (λ k lo hi. off k (inl (omega arith))) before)
          (
            lb,
            (rw el (
              b,
              (
                rb,
                Blocks-Agree m m1 (h + size + right) post e (λ k lo hi. off k (inr (omega arith)))
                    behind,
              ),
            )),
          )
