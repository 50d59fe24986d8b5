-- ===== src/Heap/Trip.antt =====
-- `alloc` and then `free` of cpu/kheap.c.
use matanos.Base.{
  ℕ, suc, ◌+◌, ◌-◌, ◌^◌, ◌<◌, ◌≤◌, ◌⊎◌, inl, inr, ltb, lt→ltb, le→ltb, true, List, [], ◌∷◌, ◌++◌,
  length-append, ◌≡◌, refl, ap, ◌∙◌, arith, ok,
}
use mathlib.Core.Path.{subst}
use matanos.Memory.{Memory}
use matanos.Memory.Frame.{AgreeOff, AgreeOff-Agree, AgreeOff-widen, AgreeOff-trans, load32-Agree}
use matanos.OrderedArray.Spec.{before, insert_sorted}
use matanos.OrderedArray.Contents.{Holds}
use matanos.Paging.{Machine}
use matanos.Heap.{Heap, header_size, header_t_less_than}
use matanos.Heap.Alloc.{alloc}
use matanos.Heap.Free.{free}
use matanos.Heap.Blocks.{IsBlock, Blocks, IsBlock-Agree, Blocks-Agree, Blocks-le}
use matanos.Heap.Search.{AllSmaller}
use matanos.Heap.Take.{carve, holes_left}
use matanos.Heap.Row.{alloc-Taken}
use matanos.Heap.Give.{free_lem}

-- Every item of the index is a header of at least so many bytes.
unfoldable pub NoneSmaller : Memory → ℕ → List ℕ → Type 0
NoneSmaller m size [] = Unit
NoneSmaller m size (h ∷ hs) = (size ≤ header_size m h) × NoneSmaller m size hs

-- The headers of the items lie outside the `size` bytes at `h`.
unfoldable pub AllOutside : (h size : ℕ) → List ℕ → Type 0
AllOutside h size [] = Unit
AllOutside h size (x ∷ xs) = ((x + 12 ≤ h) ⊎ (h + size ≤ x)) × AllOutside h size xs

header_size-Agree :
    (m m' : Memory) (h size x : ℕ)
    → AgreeOff h size m m'
    → (x + 12 ≤ h) ⊎ (h + size ≤ x)
    → header_size m' x ≡ header_size m x
unfolding header_size
header_size-Agree m m' h size x off (inl out) =
    load32-Agree (x + 8) m m' (AgreeOff-Agree h size (x + 8) 4 m m' off (inl (omega arith)))
header_size-Agree m m' h size x off (inr out) =
    load32-Agree (x + 8) m m' (AgreeOff-Agree h size (x + 8) 4 m m' off (inr (omega arith)))

-- The hole goes back to its place in the index.
insert_sorted-back :
    (m m' : Memory) (h size wanted : ℕ) (p q : List ℕ)
    → AgreeOff h size m m'
    → header_size m' h ≡ size
    → wanted ≤ size
    → AllSmaller m wanted p
    → NoneSmaller m size q
    → AllOutside h size p
    → AllOutside h size q
    → insert_sorted (header_t_less_than m') h (p ++ q) ≡ p ++ (h ∷ q)
unfolding header_t_less_than AllSmaller NoneSmaller AllOutside
insert_sorted-back m m' h size wanted [] [] off extent fit small large out_p out_q = refl
insert_sorted-back m m' h size wanted [] (x ∷ q) off extent fit small large out_p out_q =
    let same = header_size-Agree m m' h size x off out_q.0 in
    rw (le→ltb (header_size m' x) (header_size m' h) (omega (arith, same, extent, large.0))) refl
insert_sorted-back m m' h size wanted (x ∷ p) q off extent fit small large out_p out_q =
    let same = header_size-Agree m m' h size x off out_p.0 in
    rw (lt→ltb (header_size m' x) (header_size m' h) (omega (arith, same, extent, small.0, fit))) (
      ap (λ l. x ∷ l)
        (insert_sorted-back m m' h size wanted p q off extent fit small.1 large out_p.1 out_q))

-- A request that takes a whole hole between two blocks in use, while the index is in the order of
-- sizes: the holes in front of the hole are smaller than the request, those behind it at least as
-- large as the hole, and their headers lie elsewhere. `alloc` returns the address behind the header
-- of that hole, and `free` of this address returns. Then the row of blocks and the index are as
-- before, and no byte outside the hole has changed.
pub alloc-free :
    (fuel size : ℕ) (heap : Heap) (s : Machine) (start e l left h hole_size right : ℕ)
    (pre post : List (ℕ × ℕ)) (p q : List ℕ) (y : ℕ) (free_items : List ℕ)
    → Blocks s.memory start pre l
    → IsBlock s.memory l left 0
    → l + left ≡ h
    → IsBlock s.memory h hole_size 1
    → IsBlock s.memory (h + hole_size) right 0
    → Blocks s.memory (h + hole_size + right) post e
    → e ≤ heap.end_address
    → Holds heap.index (p ++ (h ∷ q)) (y ∷ free_items)
    → AllSmaller s.memory (size + 20) p
    → NoneSmaller s.memory hole_size q
    → AllOutside h hole_size p
    → AllOutside h hole_size q
    → size + 20 ≤ hole_size
    → hole_size < size + 40
    → (heap1 : Heap) × (s1 : Machine) × (heap2 : Heap) × (s2 : Machine) × (rest : List ℕ) × (alloc
          (suc fuel)
          size
          0
          heap
          s
        ≡ ok (h + 12, heap1, s1))
      × (free (h + 12) heap1 s1 ≡ ok (heap2, s2))
      × Blocks s2.memory start (pre ++ ((left, 0) ∷ (hole_size, 1) ∷ (right, 0) ∷ post)) e
      × Holds heap2.index (p ++ (h ∷ q)) rest
      × AgreeOff h hole_size s.memory s2.memory
unfolding carve holes_left Blocks header_size
alloc-free fuel size heap s start e l left h hole_size right pre post p q y free_items before lb el
      b rb behind ends holds smaller larger out_p out_q fit tight =
    let bound = Blocks-le s.memory (h + hole_size + right) post e behind in
    let (heap1, s1, runs, taken) =
      alloc-Taken fuel size heap s h hole_size p q y free_items b (omega arith) holds smaller fit in
    let inside = b.inside in
    let large = b.large in
    let m = s.memory in
    let m1 = s1.memory in
    let off = taken.outside in
    let whole : ltb (hole_size - (size + 20)) 20 ≡ true =
      lt→ltb (hole_size - (size + 20)) 20 (omega arith) in
    let carved : carve hole_size (size + 20) ≡ (hole_size, 0) ∷ [] = rw whole refl in
    let block = (subst (λ c. Blocks m1 h c (h + hole_size)) carved taken.blocks).0 in
    let left_over : holes_left m1 h hole_size (size + 20) (p ++ q) ≡ p ++ q = rw whole refl in
    let (z, zs, some_left) = taken.room in
    let index1 =
      subst (λ f. Holds heap1.index (p ++ q) f) some_left
        (subst (λ l. Holds heap1.index l taken.free_items) left_over taken.index) in
    let few : heap1.index.size + 1 < 2 ^ 32 =
      omega (
        arith,
        index1.count,
        holds.count,
        holds.small,
        length-append p q,
        length-append p (h ∷ q),
      ) in
    let (heap2, s2, frees, row, index2, mark) =
      free_lem heap1 s1 start e l left h hole_size right pre post (p ++ q) z zs
        (Blocks-Agree m m1 start pre l (λ k lo hi. off k (inl (omega arith))) before)
        (IsBlock-Agree m m1 l left 0
          (AgreeOff-Agree h hole_size l left m m1 off (inl (omega arith))) lb)
        el block
        (IsBlock-Agree m m1 (h + hole_size) right 0
          (AgreeOff-Agree h hole_size (h + hole_size) right m m1 off (inr (omega arith))) rb)
        (Blocks-Agree m m1 (h + hole_size + right) post e (λ k lo hi. off k (inr (omega arith)))
          behind)
        (omega (arith, taken.same_end, ends)) index1 few in
    let off2 =
      AgreeOff-trans h hole_size m m1 s2.memory off
        (AgreeOff-widen h hole_size (h + 4) 1 m1 s2.memory mark (omega arith) (omega arith)) in
    let extent =
      load32-Agree (h + 8) m1 s2.memory
        (AgreeOff-Agree (h + 4) 1 (h + 8) 4 m1 s2.memory mark (inr (omega arith)))
      ∙ block.extent in
    (
      heap1,
      s1,
      heap2,
      s2,
      zs,
      runs,
      frees,
      row,
      subst (λ l. Holds heap2.index l zs)
          (insert_sorted-back m s2.memory h hole_size (size + 20) p q off2 extent fit smaller larger
            out_p out_q)
          index2,
      off2,
    )
