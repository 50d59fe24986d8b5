-- ===== src/Heap/Unite.antt =====
-- `free` of cpu/kheap.c in front of a hole.
use matanos.Base.{
  ℕ, suc, ◌+◌, ◌-◌, ◌^◌, ◌<◌, ◌≤◌, inl, inr, append_snoc, length-snoc, lt→ltb, u32, sub32, List, [],
  ◌∷◌, ◌++◌, length, length-append, ◌≡◌, refl, sym, ap, ◌∙◌, arith, ok,
}
use matanos.Memory.{Memory, store8, store32}
use matanos.Memory.Frame.{
  load32-store32, store8-AgreeOff, store32-AgreeOff, AgreeOff-Agree, AgreeOff-widen,
}
use matanos.OrderedArray.{OrderedArray, OrderedArray, lookup_ordered_array}
use matanos.OrderedArray.Contents.{Holds, lookup_ordered_array-Holds}
use matanos.OrderedArray.Insert.{insert_ordered_array-Holds}
use matanos.OrderedArray.Remove.{remove_ordered_array-Holds}
use matanos.Paging.{Machine}
use matanos.Heap.{Heap, header_size, footer_header, header_t_less_than}
use matanos.Heap.Blocks.{IsBlock, IsBlock-Agree}
use matanos.Base.{ne→==, eq→==}
use matanos.Heap.Free.{find_header, unify_right, release, free}
use matanos.Heap.Give.{marked-IsBlock, free-release, unify_left-used}

-- The items of a list that are not the header searched for.
unfoldable pub NotAmong : ℕ → List ℕ → Type 0
NotAmong header [] = Unit
NotAmong header (x ∷ xs) = (¬ (x ≡ header)) × NotAmong header xs

find_header-passes :
    (done skipped : List ℕ) (header : ℕ) (after free : List ℕ) (left i : ℕ) (index : OrderedArray)
    → length done ≡ i
    → Holds index (done ++ (skipped ++ (header ∷ after))) free
    → NotAmong header skipped
    → find_header (length skipped + suc left) i header index ≡ ok (i + length skipped)
unfolding find_header NotAmong
find_header-passes done [] header after free left i index e holds others =
    let look = (lookup_ordered_array-Holds index done header after free holds).0 in
    let rounds : 0 + suc left ≡ suc left = omega arith in
    let none_passed : i + 0 ≡ i = omega arith in
    rw
      (
        rounds,
        ap (λ (n : ℕ). lookup_ordered_array n index) (sym e) ∙ look,
        eq→== header header refl,
        none_passed,
      )
      refl
find_header-passes done (x ∷ skipped) header after free left i index e holds (ne, others) =
    let look =
      (lookup_ordered_array-Holds index done x (skipped ++ (header ∷ after)) free holds).0 in
    let rounds : suc (length skipped) + suc left ≡ suc (length skipped + suc left) = omega arith in
    let steps : i + suc (length skipped) ≡ i + 1 + length skipped = omega arith in
    let there : length (done ++ (x ∷ [])) ≡ i + 1 = omega (arith, length-snoc done x) in
    let holds' : Holds index ((done ++ (x ∷ [])) ++ (skipped ++ (header ∷ after))) free =
      rw (append_snoc done x (skipped ++ (header ∷ after))) holds in
    rw
      (
        rounds,
        steps,
        ap (λ (n : ℕ). lookup_ordered_array n index) (sym e) ∙ look,
        ne→== x header ne,
      )
      (find_header-passes (done ++ (x ∷ [])) skipped header after free left (i + 1) index there
        holds' others)

-- Uniting with a hole on the right adds its size and takes it from the index.
unify_right-hole :
    (h size r right : ℕ) (heap : Heap) (m : Memory) (p q : List ℕ) (y : ℕ) (free : List ℕ)
    → IsBlock m h size 1
    → IsBlock m r right 1
    → h + size ≡ r
    → Holds heap.index (p ++ (r ∷ q)) (y ∷ free)
    → NotAmong r p
    → (index : OrderedArray) × (unify_right h (h + (size - 8)) heap m
        ≡ ok (r + (right - 8), record heap { index = index }, store32 m (h + 8) (size + right)))
      × Holds index (p ++ q) (y ∷ y ∷ free)
unfolding unify_right
unify_right-hole h size r right heap m p q y free b rb e holds others =
    let large = b.large in
    let wide = rb.large in
    let inside = rb.inside in
    let m1 = store32 m (h + 8) (size + right) in
    let (index, removed, holds') = remove_ordered_array-Holds heap.index p r q y free holds in
    let there : u32 (h + (size - 8) + 8) ≡ r = omega arith in
    let sum : u32 (size + right) ≡ size + right = omega arith in
    let kept : header_size m1 r ≡ right = IsBlock.extent (
      IsBlock-Agree m m1 r right 1
        (AgreeOff-Agree (h + 8) 4 r right m m1 (store32-AgreeOff m (h + 8) (size + right))
          (inr (omega arith)))
        rb) in
    let last : sub32 (u32 (r + right)) 8 ≡ r + (right - 8) = omega arith in
    let rounds : heap.index.size ≡ length p + suc (length q) =
      omega (arith, holds.count, length-append p (r ∷ q)) in
    let start : 0 + length p ≡ length p = omega arith in
    let found =
      ap (λ (n : ℕ). find_header n 0 r heap.index) rounds
      ∙ find_header-passes [] p r q (y ∷ free) (length q) 0 heap.index refl holds others in
    (
      index,
      rw
          (
            there,
            rb.magic,
            rb.kind,
            b.extent,
            rb.extent,
            sum,
            kept,
            last,
            found,
            start,
            lt→ltb (length p) heap.index.size (omega arith),
            removed,
          )
          refl,
      holds',
    )

-- `free` of a block between a block in use and a hole of the index that does not end at the end of
-- the heap. It returns, and the header has the size of both together; but the footer at the end of
-- the two still names the old header of the hole, so that the two are no block of the row.
pub free_stale_footer :
    (heap : Heap) (s : Machine) (l left h size right : ℕ) (p q : List ℕ) (y : ℕ) (rest : List ℕ)
    → IsBlock s.memory l left 0
    → l + left ≡ h
    → IsBlock s.memory h size 0
    → IsBlock s.memory (h + size) right 1
    → h + size + right < heap.end_address
    → Holds heap.index (p ++ ((h + size) ∷ q)) (y ∷ rest)
    → NotAmong (h + size) p
    → (heap' : Heap) × (s' : Machine) × (free (h + 12) heap s ≡ ok (heap', s'))
      × (header_size s'.memory h ≡ size + right)
      × (footer_header s'.memory (h + (size + right - 8)) ≡ h + size)
      × (¬ IsBlock s'.memory h (size + right) 1)
unfolding release header_size
free_stale_footer heap s l left h size right p q y rest lb el b rb ends holds others =
    let large = b.large in
    let wide = rb.large in
    let inside = rb.inside in
    let m1 = store8 s.memory (h + 4) 1 in
    let off = store8-AgreeOff s.memory (h + 4) 1 in
    let whole = AgreeOff-widen h size (h + 4) 1 s.memory m1 off (omega arith) (omega arith) in
    let lb1 =
      IsBlock-Agree s.memory m1 l left 0
        (AgreeOff-Agree h size l left s.memory m1 whole (inl (omega arith))) lb in
    let rb1 =
      IsBlock-Agree s.memory m1 (h + size) right 1
        (AgreeOff-Agree h size (h + size) right s.memory m1 whole (inr (omega arith))) rb in
    let b1 = marked-IsBlock s.memory h size b in
    let m2 = store32 m1 (h + 8) (size + right) in
    let (index1, united, holds1) =
      unify_right-hole h size (h + size) right heap m1 p q y rest b1 rb1 refl holds others in
    let rb2 =
      IsBlock-Agree m1 m2 (h + size) right 1
        (AgreeOff-Agree (h + 8) 4 (h + size) right m1 m2
          (store32-AgreeOff m1 (h + 8) (size + right)) (inr (omega arith)))
        rb1 in
    let few : index1.size + 1 < 2 ^ 32 = omega (
      arith,
      holds1.count,
      holds.count,
      holds.small,
      length-append p q,
      length-append p ((h + size) ∷ q),
    ) in
    let (index2, inserted, holds2) =
      insert_ordered_array-Holds (header_t_less_than m2) h index1 (p ++ q) y (y ∷ rest) holds1
        few in
    let last : u32 (h + size + (right - 8) + 8) ≡ h + size + right = omega arith in
    let end_at : h + (size + right - 8) ≡ h + size + (right - 8) = omega arith in
    let stale : footer_header m2 (h + (size + right - 8)) ≡ h + size = rw end_at rb2.back in
    (
      record heap { index = index2 },
      record s { memory = m2 },
      free-release h size heap s b
          ∙ rw
              (
                unify_left-used l left h (h + (size - 8)) m1 lb1 el,
                united,
                last,
                ne→== (h + size + right) heap.end_address (λ z. omega arith),
                inserted,
              )
              refl,
      united_size m1 h (size + right) (omega arith),
      stale,
      (λ c. mismatch h size (footer_header m2 (h + (size + right - 8))) stale c.back large),
    )
  where
    united_size : (m1 : Memory) (h n : ℕ) → n < 2 ^ 32 → header_size (store32 m1 (h + 8) n) h ≡ n
    united_size m1 h n small = load32-store32 m1 (h + 8) n small

    mismatch : (h size f : ℕ) → f ≡ h + size → f ≡ h → ¬ (20 ≤ size)
    mismatch h size f a b c = omega arith
