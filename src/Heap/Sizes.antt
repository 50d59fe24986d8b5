-- ===== src/Heap/Sizes.antt =====
-- The sizes that `expand` and `contract` of cpu/kheap.c choose, and the end of their loops.
use matanos.Base.{
  ◌⊎◌, ℕ, zero, suc, ◌+◌, ◌-◌, ◌*◌, ◌/◌, ◌%◌, ◌^◌, ◌<◌, ◌≤◌, ◌==◌, ◌≢◌, ltb, ltb→lt, ltb→le, lt→ltb,
  le→ltb, Bool, Bool-cases, inl, inr, true, false, if◌then◌else◌, u32, sub32, bit_and, bit,
  bit_and-pow, bit_and-page, ◌≡◌, refl, sym, ◌∙◌, arith, Run, ok, panic, fault, out_of_fuel, ◌>>=◌,
  assert, read, write, List, [], ◌∷◌,
}
use mathlib.Core.Path.{subst}
use Prim.Native.Nat.{max}
use matanos.Frames.{Page, FrameTable, clear_frame, free_frame}
use matanos.Paging.{Machine, find_page, free_frame_at}
use matanos.Heap.{Heap, heap_min_size}
use matanos.Heap.Resize.{expanded_size, contracted_size, unmap_pages, contract}

-- `expand` leaves an even size as it is, on a page boundary or not, and takes an odd one to the next
-- page boundary, on words.
pub expanded_size_lem :
    (n : ℕ)
    → n < 2 ^ 32
    → expanded_size n ≡ (if n % 2 == 0 then n else u32 (n / 0x1000 * 0x1000 + 0x1000))
unfolding expanded_size bit
expanded_size_lem n h =
    let low : bit_and n 1 ≡ n % 2 = omega (arith, bit_and-pow 0 n) in
    rw (low, bit_and-page n h) refl

-- `contract` settles on the least size whenever bit 12 of the wanted size is set, however large that
-- is, and on the larger of the wanted and the least size otherwise.
contracted_size_lem :
    (n : ℕ)
    → contracted_size n ≡ (if n / 0x1000 % 2 == 0 then max n heap_min_size else heap_min_size)
unfolding contracted_size bit
contracted_size_lem n =
    let masked : bit_and n 0x1000 ≡ n / 0x1000 % 2 * 0x1000 = omega (arith, bit_and-pow 12 n) in
    rw masked (elim (halves (n / 0x1000)) [ inl e ↦ rw e (larger n) | inr e ↦ rw e refl ])
  where
    larger : (n : ℕ) → (if ltb n heap_min_size then heap_min_size else n) ≡ max n heap_min_size
    larger n = elim (Bool-cases (ltb n heap_min_size)) [
      | inl lt ↦ rw lt (omega (arith, ltb→lt n heap_min_size lt))
      | inr ge ↦ rw ge (omega (arith, ltb→le n heap_min_size ge))
    ]

    halves : (n : ℕ) → (n % 2 ≡ 0) ⊎ (n % 2 ≡ 1)
    halves n = ground arith

-- An outcome other than the end of the fuel.
unfoldable pub Ends : {A : Type 0} → Run A → Type 0
Ends r = r ≢ out_of_fuel

Ends-bind :
    {A B : Type 0} (r : Run A) (f : A → Run B) → Ends r → ((a : A) → Ends (f a)) → Ends (r >>= f)
unfolding Ends
Ends-bind (ok a) f h k = k a
Ends-bind panic f h k = λ e. absurd (cc)
Ends-bind fault f h k = λ e. absurd (cc)
Ends-bind out_of_fuel f h k = absurd (h refl)

Ends-ok : {A : Type 0} (a : A) → Ends (ok a)
unfolding Ends
Ends-ok a = λ e. absurd (cc)

Ends-assert : (b : Bool) → Ends (assert b)
unfolding Ends
Ends-assert true = λ e. absurd (cc)
Ends-assert false = λ e. absurd (cc)

Ends-read : (xs : List ℕ) (i : ℕ) → Ends (read xs i)
unfolding Ends read
Ends-read [] i = λ e. absurd (cc)
Ends-read (x ∷ xs) zero = λ e. absurd (cc)
Ends-read (x ∷ xs) (suc i) = Ends-read xs i

Ends-fault : (A : Type 0) → Ends {A = A} fault
unfolding Ends
Ends-fault A = λ e. absurd (cc)

Ends-write : (xs : List ℕ) (i v : ℕ) → Ends (write xs i v)
unfolding write
Ends-write [] i v = Ends-fault _
Ends-write (x ∷ xs) zero v = Ends-ok (v ∷ xs)
Ends-write (x ∷ xs) (suc i) v =
    Ends-bind (write xs i v) (λ ys. ok (x ∷ ys)) (Ends-write xs i v) (λ ys. Ends-ok (x ∷ ys))

Ends-clear_frame : (a : ℕ) (t : FrameTable) → Ends (clear_frame a t)
unfolding clear_frame
Ends-clear_frame a t = Ends-bind (read t.frames _) _ (Ends-read t.frames _) (λ w.
    Ends-bind (write t.frames _ _) _ (Ends-write t.frames _ _)
      (λ fs. Ends-ok (record t { frames = fs })))

Ends-free_frame : (page : Page) (t : FrameTable) → Ends (free_frame page t)
unfolding free_frame
Ends-free_frame page t = elim (Bool-cases (page.frame == 0)) [
  | inl without ↦ rw without (Ends-ok (page, t))
  | inr with_frame ↦ rw with_frame (
      Ends-bind (clear_frame page.frame t) _ (Ends-clear_frame page.frame t)
        (λ t'. Ends-ok (record page { frame = 0x0 }, t')))
]

Ends-free_frame_at : (page : ℕ) (s : Machine) → Ends (free_frame_at page s)
unfolding free_frame_at
Ends-free_frame_at page s = elim (Bool-cases (page == 0)) [
  | inl null ↦ rw null (Ends-fault _)
  | inr there ↦
      rw there (Ends-bind (free_frame _ s.frames) _ (Ends-free_frame _ s.frames) (λ r. Ends-ok _))
]

-- A round of the loop of `contract` goes down by a page and stays above the least size.
unmap_pages-Ends :
    (fuel new_size i : ℕ) (heap : Heap) (s : Machine)
    → heap_min_size ≤ new_size
    → i < 2 ^ 32
    → i / 0x1000 < fuel
    → Ends (unmap_pages fuel new_size i heap s)
unfolding unmap_pages
unmap_pages-Ends zero new_size i heap s least small enough = absurd (omega arith)
unmap_pages-Ends (suc fuel) new_size i heap s least small enough =
    elim (Bool-cases (ltb new_size i)) [
      | inr stop ↦ rw stop (Ends-ok s)
      | inl go ↦
          let above = ltb→lt new_size i go in
          let next : sub32 i 0x1000 ≡ i - 0x1000 = omega arith in
          rw (go, next)
            (Ends-bind (free_frame_at _ s) _ (Ends-free_frame_at _ s) (λ s'.
              unmap_pages-Ends fuel new_size (i - 0x1000) heap s' least (omega arith)
                (omega arith)))
    ]

least_kept : (n : ℕ) → heap_min_size ≤ contracted_size n
unfolding contracted_size
least_kept n = at_least (if bit_and n 0x1000 == 0 then n else bit_and n 0x1000 + 0x1000)
  where
    at_least : (r : ℕ) → heap_min_size ≤ (if ltb r heap_min_size then heap_min_size else r)
    at_least r = ground arith

-- `contract` ends on every heap and for every size: as many rounds as it gives its loop are enough.
pub contract-Ends : (new_size : ℕ) (heap : Heap) (s : Machine) → Ends (contract new_size heap s)
unfolding contract
contract-Ends new_size heap s =
    let old_size = sub32 heap.end_address heap.start_address in
    let i = sub32 old_size 0x1000 in
    Ends-bind (assert (ltb new_size old_size)) _ (Ends-assert (ltb new_size old_size)) (λ u.
      Ends-bind (unmap_pages (i / 0x1000 + 1) (contracted_size new_size) i heap s) _
        (unmap_pages-Ends (i / 0x1000 + 1) (contracted_size new_size) i heap s (least_kept new_size)
          (omega arith) (omega arith))
        (λ s'. Ends-ok _))

-- So many pages from offset `i` downwards lose their frames.
unfoldable pub give_back : (pages i : ℕ) → Heap → Machine → Run Machine
give_back zero i heap s = ok s
give_back (suc pages) i heap s =
    free_frame_at (find_page (u32 (heap.start_address + i)) s.kernel_directory s.memory) s >>= λ s'.
    give_back pages (i - 0x1000) heap s'

bind_ap :
    {A B : Type 0} (r : Run A) (f g : A → Run B) → ((a : A) → f a ≡ g a) → (r >>= f) ≡ (r >>= g)
bind_ap (ok a) f g h = h a
bind_ap panic f g h = refl
bind_ap fault f g h = refl
bind_ap out_of_fuel f g h = refl

-- The loop of `contract` in pages: those that start above the size.
unmap_pages-give_back :
    (fuel pages size i : ℕ) (heap : Heap) (s : Machine)
    → heap_min_size ≤ size
    → i < 2 ^ 32
    → i / 0x1000 < fuel
    → pages ≡ (i - size + 0xFFF) / 0x1000
    → unmap_pages fuel size i heap s ≡ give_back pages i heap s
unfolding unmap_pages give_back
unmap_pages-give_back zero pages size i heap s least small enough count = absurd (omega arith)
unmap_pages-give_back (suc fuel) zero size i heap s least small enough count =
    let stop : ltb size i ≡ false = le→ltb size i (omega arith) in rw stop refl
unmap_pages-give_back (suc fuel) (suc pages) size i heap s least small enough count =
    let go : ltb size i ≡ true = lt→ltb size i (omega arith) in
    let next : sub32 i 0x1000 ≡ i - 0x1000 = omega arith in
    rw (go, next)
      (bind_ap (free_frame_at _ s) _ _ (λ s'.
        unmap_pages-give_back fuel pages size (i - 0x1000) heap s' least (omega arith) (omega arith)
          (omega arith)))

-- `contract` on a heap of at least a page that ends below 2 ^ 32, and is longer than the wanted
-- size. It settles on the least size whenever bit 12 of the wanted size is set, however large that
-- is, and on the larger of the wanted and the least size otherwise. From the last page of the heap
-- downwards, the pages that start above that size lose their frames. Then it returns the size, and
-- the heap ends that far behind its start, on words, and is otherwise as before; it does not return
-- if one of the frames cannot be given back.
pub contract_lem :
    (new_size size : ℕ) (heap : Heap) (s : Machine)
    → heap.start_address + 0x1000 ≤ heap.end_address
    → heap.end_address < 2 ^ 32
    → new_size < heap.end_address - heap.start_address
    → size ≡ (if new_size / 0x1000 % 2 == 0 then max new_size heap_min_size else heap_min_size)
    → contract new_size heap s ≡ (
        give_back
          ((heap.end_address - heap.start_address - 0x1000 - size + 0xFFF) / 0x1000)
          (heap.end_address - heap.start_address - 0x1000)
          heap
          s
        >>= λ s'. ok (size, record heap { end_address = u32 (heap.start_address + size) }, s'))
unfolding contract
contract_lem new_size size heap s order small larger settled =
    let old = heap.end_address - heap.start_address in
    let length_eq : sub32 heap.end_address heap.start_address ≡ old = omega arith in
    let last : sub32 old 0x1000 ≡ old - 0x1000 = omega arith in
    let chosen : contracted_size new_size ≡ size = contracted_size_lem new_size ∙ sym settled in
    let least : heap_min_size ≤ size =
      subst (λ n. heap_min_size ≤ n) chosen (least_kept new_size) in
    let pages = (old - 0x1000 - size + 0xFFF) / 0x1000 in
    let loop =
      unmap_pages-give_back ((old - 0x1000) / 0x1000 + 1) pages size (old - 0x1000) heap s least
        (omega arith) (omega arith) refl in
    rw (length_eq, lt→ltb new_size old larger, chosen, last, loop) refl
