-- ===== src/Kmalloc.antt =====
-- The allocation functions of cpu/kheap.c: on the heap, and from the placement address before there
-- is one. `create_heap` and `create_ordered_array` of cpu/ordered_array.c, which they serve.
pub mod Placement
mod Tests
use matanos.Base.{
  ℕ, zero, suc, ◌+◌, ◌*◌, ◌/◌, ◌%◌, ◌^◌, ◌==◌, Bool, true, false, not, ◌&&◌, List, [], ◌∷◌,
  if◌then◌else◌, u8, u32, sub32, bit_and, Option, none, some, Run, ok, fault, ◌>>=◌, ◌>>◌, assert,
}
use matanos.Memory.{Memory, load32, store8, store32}
use matanos.Frames.{Page}
use matanos.OrderedArray.{OrderedArray, place_ordered_array, insert_ordered_array}
use matanos.Paging.{Machine, find_page, page_of}
use matanos.Heap.{Heap, heap_index_size, header_t_less_than, magic_number}
use matanos.Heap.Alloc.{alloc}
use matanos.Heap.Free.{free}

-- The globals `kheap` and `placement_address`, with the machine.
pub record Kernel : Type 0 where
  pub machine : Machine
  pub kheap : Option Heap
  pub placement_address : ℕ

-- The placement address that `kmalloc_int` aligns, which is moved also from a page boundary.
unfoldable pub align_placement : (align placement_address : ℕ) → ℕ
align_placement align placement_address =
    if (align == 1) && not (bit_and placement_address 0xFFFFF000 == 0)
    then u32 (bit_and placement_address 0xFFFFF000 + 0x1000)
    else placement_address

-- `*phys`: the frame of the address's page, with the offset inside the page.
unfoldable pub physical_of : (address : ℕ) → Machine → Run ℕ
physical_of address s =
    let page = find_page address s.kernel_directory s.memory in
    if page == 0
    then fault
    else ok (u32 ((page_of (load32 s.memory page)).frame * 0x1000 + address % 0x1000))

-- `rounds` bounds how often `alloc` calls itself.
module _ (rounds : ℕ) where
  -- `kmalloc_int`; `want_phys` says that `phys` is not null. The results are the address and `*phys`.
  unfoldable pub kmalloc_int : (sz align : ℕ) → (want_phys : Bool) → Kernel → Run (ℕ × ℕ × Kernel)
  kmalloc_int sz align want_phys k = elim (k.kheap) [
    | some heap ↦ do
      (address, heap', s') ← alloc rounds sz (u8 align) heap k.machine
      phys ← if want_phys then physical_of address s' else ok 0
      ok (address, phys, record k { kheap = some heap'; machine = s' })
    | none ↦
        let tmp = align_placement align k.placement_address in
        ok (tmp, if want_phys then tmp else 0, record k { placement_address = u32 (tmp + sz) })
  ]

  unfoldable pub kmalloc_a : ℕ → Kernel → Run (ℕ × Kernel)
  unfolding kmalloc_int
  kmalloc_a sz k = kmalloc_int sz 1 false k >>= λ r. ok (r.0, r.2)

  unfoldable pub kmalloc_p : ℕ → Kernel → Run (ℕ × ℕ × Kernel)
  kmalloc_p sz k = kmalloc_int sz 0 true k

  unfoldable pub kmalloc_ap : ℕ → Kernel → Run (ℕ × ℕ × Kernel)
  kmalloc_ap sz k = kmalloc_int sz 1 true k

  unfoldable pub kmalloc : ℕ → Kernel → Run (ℕ × Kernel)
  kmalloc sz k = kmalloc_int sz 0 false k >>= λ r. ok (r.0, r.2)

  -- `create_ordered_array`; the array's memory is kept apart from the rest, as in `OrderedArray`.
  unfoldable pub create_ordered_array :
      (max_size less_than : ℕ) → Kernel → Run (ℕ × OrderedArray × Kernel)
  create_ordered_array max_size less_than k = do
    (address, k') ← kmalloc (u32 (max_size * 4)) k
    ok (address, place_ordered_array [] max_size less_than, k')

  -- `create_heap`, with the memory behind the index. In C, `start & 0xFFFFF000 != 0` is the lowest bit.
  unfoldable pub create_heap :
      (behind : List ℕ)
      → (start end_addr max supervisor readonly : ℕ) → Kernel
      → Run (Heap × Kernel)
  create_heap behind start end_addr max supervisor readonly k = do
    (address, k1) ← kmalloc 32 k
    assert (start % 0x1000 == 0)
    assert (end_addr % 0x1000 == 0)
    let index = place_ordered_array behind heap_index_size 1
    let shifted = u32 (start + 4 * heap_index_size)
    let start' =
        if bit_and shifted 1 == 0 then shifted else u32 (bit_and shifted 0xFFFFF000 + 0x1000)
    let m = k1.machine.memory
    let sized = store32 m (start' + 8) (sub32 end_addr start')
    let hole = store8 (store32 sized start' magic_number) (start' + 4) 1
    index' ← insert_ordered_array (header_t_less_than hole) start' index
    ok (
      record {
        index = index';
        start_address = start';
        end_address = end_addr;
        max_address = max;
        supervisor = supervisor;
        readonly = readonly;
      },
      record k1 { machine = record k1.machine { memory = hole } },
    )

-- `kfree`.
unfoldable pub kfree : ℕ → Kernel → Run Kernel
kfree p k = elim (k.kheap) [
  | none ↦ if p == 0 then ok k else fault
  | some heap ↦ free p heap k.machine >>= λ r. ok (record k { kheap = some (r.0); machine = r.1 })
]
