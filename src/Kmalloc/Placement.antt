-- ===== src/Kmalloc/Placement.antt =====
-- Allocation before there is a heap.
use matanos.Base.{
  ℕ, ◌+◌, ◌*◌, ◌/◌, ◌%◌, ◌^◌, ◌<◌, ◌≤◌, ne→==, bit_and-page, Bool, false, u32, Option, none, ok,
  ◌>>=◌, ◌≡◌, refl, ap, ◌∙◌, arith,
}
use matanos.Base.{Run, if◌then◌else◌}
use matanos.Heap.{Heap}
use matanos.Paging.{Machine}
use matanos.Kmalloc.{Kernel, align_placement, kmalloc_int, kmalloc, kmalloc_a}

-- An aligned address is the next page boundary behind the placement address.
pub align_placement-page :
    (p : ℕ) → 0x1000 ≤ p → p + 0x1000 < 2 ^ 32 → align_placement 1 p ≡ p / 0x1000 * 0x1000 + 0x1000
unfolding align_placement
align_placement-page p low high =
    let page = bit_and-page p (omega arith) in
    rw (page, ne→== (p / 0x1000 * 0x1000) 0 (λ e. omega arith)) (omega arith)

-- Without a heap the placement address moves over the bytes asked for.
kmalloc_int-none :
    (rounds sz align : ℕ) (want_phys : Bool) (k : Kernel) (s : Machine) (p : ℕ)
    → k ≡ record { machine = s; kheap = none; placement_address = p }
    → kmalloc_int rounds sz align want_phys k
      ≡ ok (
        align_placement align p,
        if want_phys then align_placement align p else 0,
        record {
          machine = s;
          kheap = none;
          placement_address = u32 (align_placement align p + sz);
        },
      )
unfolding kmalloc_int
kmalloc_int-none rounds sz align want_phys k s p e =
    ap (λ (t : Kernel). kmalloc_int rounds sz align want_phys t) e

-- Before there is a heap, and with room below 2 ^ 32, a page-aligned allocation and a plain one after
-- it return. The first begins on a page boundary behind the placement address, at most a page away,
-- the second begins where the first ends, and the placement address is then the end of the second.
pub kmalloc-kmalloc_a :
    (rounds sz sz' : ℕ) (k : Kernel)
    → k.kheap ≡ none
    → 0x1000 ≤ k.placement_address
    → k.placement_address + 0x1000 + sz + sz' < 2 ^ 32
    → (a : ℕ) × (k1 : Kernel) × (k2 : Kernel) × (kmalloc_a rounds sz k ≡ ok (a, k1))
      × (kmalloc rounds sz' k1 ≡ ok (a + sz, k2))
      × (a % 0x1000 ≡ 0)
      × (k.placement_address < a)
      × (a ≤ k.placement_address + 0x1000)
      × (k2.placement_address ≡ a + sz + sz')
unfolding kmalloc kmalloc_a align_placement
kmalloc-kmalloc_a rounds sz sz' k empty low high =
    let p = k.placement_address in
    let s = k.machine in
    let a = p / 0x1000 * 0x1000 + 0x1000 in
    let aligned = align_placement-page p low (omega arith) in
    let whole : k ≡ record { machine = s; kheap = none; placement_address = p } =
      ap (λ (h : Option Heap). record k { kheap = h }) empty in
    let first = kmalloc_int-none rounds sz 1 false k s p whole in
    let there : u32 (align_placement 1 p + sz) ≡ a + sz = omega (arith, aligned) in
    let second =
      kmalloc_int-none rounds sz' 0 false
        (record { machine = s; kheap = none; placement_address = a + sz }) s (a + sz) refl in
    let behind : u32 (a + sz + sz') ≡ a + sz + sz' = omega arith in
    (
      a,
      record { machine = s; kheap = none; placement_address = a + sz },
      record { machine = s; kheap = none; placement_address = a + sz + sz' },
      rw (first, there, aligned) refl,
      ap (λ (r : Run (ℕ × ℕ × Kernel)). r >>= λ t. ok (t.0, t.2)) second ∙ rw behind refl,
      omega arith,
      omega arith,
      omega arith,
      refl,
    )
