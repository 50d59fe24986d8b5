-- ===== src/Heap/Search.antt =====
-- The search of `find_smallest_hole` of cpu/kheap.c through the index.
use matanos.Base.{
  ℕ, suc, ◌+◌, ◌<◌, ◌≤◌, leb, append-nil, append_snoc, length-snoc, true, false, List, [], ◌∷◌,
  ◌++◌, length, length-append, ◌≡◌, refl, sym, ap, ◌∙◌, arith, ok, some, none,
}
use matanos.Memory.{Memory}
use matanos.OrderedArray.{lookup_ordered_array}
use matanos.OrderedArray.Contents.{Holds, lookup_ordered_array-Holds}
use matanos.Heap.{Heap, header_size}
use matanos.Heap.Alloc.{find_hole, find_smallest_hole, fits}

-- Every item of the index is a header of fewer bytes than wanted.
unfoldable pub AllSmaller : Memory → ℕ → List ℕ → Type 0
AllSmaller m size [] = Unit
AllSmaller m size (h ∷ hs) = (header_size m h < size) × AllSmaller m size hs

too_small : (a b : ℕ) → b < a → leb a b ≡ false
too_small a b h = ground arith

big_enough : (a b : ℕ) → a ≤ b → leb a b ≡ true
big_enough a b h = ground arith

find_hole-passes :
    (done skipped after free : List ℕ) (left i size : ℕ) (heap : Heap) (m : Memory)
    → length done ≡ i
    → Holds heap.index (done ++ (skipped ++ after)) free
    → AllSmaller m size skipped
    → find_hole (length skipped + left) i size 0 heap m
      ≡ find_hole left (i + length skipped) size 0 heap m
unfolding find_hole AllSmaller fits
find_hole-passes done [] after free left i size heap m e holds smaller =
    let no_rounds : 0 + left ≡ left = omega arith in
    let no_step : i + 0 ≡ i = omega arith in rw (no_rounds, no_step) refl
find_hole-passes done (x ∷ skipped) after free left i size heap m e holds (lt, smaller) =
    let look = (lookup_ordered_array-Holds heap.index done x (skipped ++ after) free holds).0 in
    let rounds : suc (length skipped) + left ≡ suc (length skipped + left) = omega arith in
    let steps : i + suc (length skipped) ≡ i + 1 + length skipped = omega arith in
    let there : length (done ++ (x ∷ [])) ≡ i + 1 = omega (arith, length-snoc done x) in
    let holds' : Holds heap.index ((done ++ (x ∷ [])) ++ (skipped ++ after)) free =
      rw (append_snoc done x (skipped ++ after)) holds in
    rw
      (
        rounds,
        steps,
        ap (λ (n : ℕ). lookup_ordered_array n heap.index) (sym e) ∙ look,
        too_small size (header_size m x) lt,
      )
      (find_hole-passes (done ++ (x ∷ [])) skipped after free left (i + 1) size heap m there holds'
        smaller)

-- Without page alignment, the search finds the first hole of the index that is large enough, and
-- none if all are too small.
pub find_smallest_hole-first :
    (p : List ℕ) (h : ℕ) (q free : List ℕ) (size : ℕ) (heap : Heap) (m : Memory)
    → Holds heap.index (p ++ (h ∷ q)) free
    → AllSmaller m size p
    → size ≤ header_size m h
    → find_smallest_hole size 0 heap m ≡ ok (some (length p))
unfolding find_smallest_hole find_hole fits
find_smallest_hole-first p h q free size heap m holds smaller fit =
    let rounds : heap.index.size ≡ length p + suc (length q) =
      omega (arith, holds.count, length-append p (h ∷ q)) in
    let start : 0 + length p ≡ length p = omega arith in
    let look = (lookup_ordered_array-Holds heap.index p h q free holds).0 in
    ap (λ (n : ℕ). find_hole n 0 size 0 heap m) rounds
    ∙ (find_hole-passes [] p (h ∷ q) free (suc (length q)) 0 size heap m refl holds smaller
        ∙ rw (start, look, big_enough size (header_size m h) fit) refl)

pub find_smallest_hole-none :
    (items free : List ℕ) (size : ℕ) (heap : Heap) (m : Memory)
    → Holds heap.index items free
    → AllSmaller m size items
    → find_smallest_hole size 0 heap m ≡ ok none
unfolding find_smallest_hole find_hole
find_smallest_hole-none items free size heap m holds smaller =
    let rounds : heap.index.size ≡ length items + 0 = omega (arith, holds.count) in
    let holds' : Holds heap.index ([] ++ (items ++ [])) free = rw (append-nil items) holds in
    ap (λ (n : ℕ). find_hole n 0 size 0 heap m) rounds
    ∙ (find_hole-passes [] items [] free 0 0 size heap m refl holds' smaller)
