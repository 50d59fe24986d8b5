-- ===== src/Directories.antt =====
-- The page directories of cpu/paging.c: pages made on demand, copies of directories, and the
-- directory of the kernel.
pub mod Links
pub mod Sharing
pub mod Tables
mod Tests
use matanos.Base.{
  ℕ, zero, suc, ◌+◌, ◌*◌, ◌/◌, ◌%◌, ◌^◌, ◌==◌, ltb, Bool, true, false, not, List, replicate,
  if◌then◌else◌, u32, bit_or, Option, none, some, Run, ok, fault, out_of_fuel, ◌>>=◌, ◌>>◌,
}
use matanos.Memory.{Memory, load32, store32, fill}
use matanos.Frames.{Page, FrameTable}
use matanos.Paging.{
  Machine, page_of, word_of, tables_at, tables_physical_at, physical_addr_at, page_in, find_page,
  alloc_frame_at,
}
use matanos.Heap.{Heap}
use matanos.Kmalloc.{Kernel, kmalloc, kmalloc_a, kmalloc_ap, create_heap}

-- `sizeof(page_table_t)` and `sizeof(page_directory_t)`.
abbrev pub table_size : ℕ
table_size = 4096

abbrev pub directory_size : ℕ
directory_size = 8196

-- The kernel with another memory.
abbrev pub with_memory : Memory → Kernel → Kernel
with_memory m k = record k { machine = record k.machine { memory = m } }

-- Copying the bits of the flags that are set; `to` is an entry that has its frame.
unfoldable pub copy_flags : (from to : Page) → Page
copy_flags from to = record to {
  present = if from.present == 0 then to.present else 1;
  rw_flag = if from.rw_flag == 0 then to.rw_flag else 1;
  user = if from.user == 0 then to.user else 1;
  accessed = if from.accessed == 0 then to.accessed else 1;
  dirty = if from.dirty == 0 then to.dirty else 1;
}

-- `rounds` is for `alloc`; `copy_page_physical` is a routine of cpu/process.asm.
module _ (rounds : ℕ) (copy_page_physical : (source dest : ℕ) → Memory → Memory) where
  -- `get_page_ptr_in_page_table`. The new table is not cleared.
  unfoldable pub get_page_ptr_in_page_table : (address make dir : ℕ) → Kernel → Run (ℕ × Kernel)
  get_page_ptr_in_page_table address make dir k =
      let index = address / 0x1000 / 1024 in
      let table = load32 k.machine.memory (tables_at dir index) in
      if not (table == 0)
      then ok (page_in table address, k)
      else if not (make == 0)
      then (do
        (new, tmp, k1) ← kmalloc_ap rounds table_size k
        let assigned = store32 k1.machine.memory (tables_at dir index) new
        let m = store32 assigned (tables_physical_at dir index) (bit_or tmp 0x7)
        ok (page_in (load32 m (tables_at dir index)) address, with_memory m k1))
      else ok (0, k)

  -- The loop of `clone_table` over the entries from `i` on.
  unfoldable pub clone_entries : (left i src table : ℕ) → Machine → Run Machine
  clone_entries zero i src table s = ok s
  clone_entries (suc left) i src table s =
      let skipped = clone_entries left (i + 1) src table s in
      let copied = (do
        s1 ← alloc_frame_at (table + 4 * i) 0 1 s
        let from = page_of (load32 s1.memory (src + 4 * i))
        let to = copy_flags from (page_of (load32 s1.memory (table + 4 * i)))
        let m = store32 s1.memory (table + 4 * i) (word_of to)
        clone_entries left (i + 1) src table (record s1 {
          memory = copy_page_physical (from.frame * 0x1000) (to.frame * 0x1000) m;
        })) in
      if (page_of (load32 s.memory (src + 4 * i))).frame == 0 then skipped else copied

  -- `clone_table`: the new table and its physical address. It clears as many bytes as a directory has.
  unfoldable pub clone_table : ℕ → Kernel → Run (ℕ × ℕ × Kernel)
  clone_table src k = do
    (table, phys, k1) ← kmalloc_ap rounds table_size k
    let cleared = with_memory (fill k1.machine.memory table 0 directory_size) k1
    s ← clone_entries 1024 0 src table cleared.machine
    ok (table, phys, record cleared { machine = s })

  -- The loop of `clone_directory` over the tables from `i` on.
  unfoldable pub clone_tables : (left i src dir : ℕ) → Kernel → Run Kernel
  clone_tables zero i src dir k = ok k
  clone_tables (suc left) i src dir k =
      let m = k.machine.memory in
      let table = load32 m (tables_at src i) in
      let linked = store32 m (tables_at dir i) table in
      let physical = load32 linked (tables_physical_at src i) in
      let empty = clone_tables left (i + 1) src dir k in
      let shared =
        clone_tables left (i + 1) src dir
          (with_memory (store32 linked (tables_physical_at dir i) physical) k) in
      let copied = (do
        (copy, phys, k1) ← clone_table table k
        let assigned = store32 k1.machine.memory (tables_at dir i) copy
        clone_tables left (i + 1) src dir
            (with_memory (store32 assigned (tables_physical_at dir i) (bit_or phys 0x07)) k1)) in
      if table == 0
      then empty
      else (if load32 m (tables_at k.machine.kernel_directory i) == table then shared else copied)

  -- `clone_directory`.
  unfoldable pub clone_directory : ℕ → Kernel → Run (ℕ × Kernel)
  clone_directory src k = do
    (dir, phys, k1) ← kmalloc_ap rounds directory_size k
    let cleared = fill k1.machine.memory dir 0 directory_size
    let m = store32 cleared (physical_addr_at dir) (u32 (phys + 0x1000))
    k2 ← clone_tables 1024 0 src dir (with_memory m k1)
    ok (dir, k2)

  -- The loop of `initialise_paging` that makes the tables for the heap's pages, and the two that give
  -- pages their frames: up to the placement address, which moves, and for the heap.
  unfoldable pub make_tables : (left i : ℕ) → Kernel → Run Kernel
  make_tables zero i k = ok k
  make_tables (suc left) i k = do
    (page, k') ← get_page_ptr_in_page_table i 1 k.machine.kernel_directory k
    make_tables left (i + 0x1000) k'

  unfoldable pub identity_map : (fuel i : ℕ) → Kernel → Run Kernel
  identity_map zero i k = out_of_fuel
  identity_map (suc fuel) i k =
      let rest = (do
        (page, k') ← get_page_ptr_in_page_table i 1 k.machine.kernel_directory k
        s ← alloc_frame_at page 0 0 k'.machine
        identity_map fuel (u32 (i + 0x1000)) (record k' { machine = s })) in
      if ltb i (u32 (k.placement_address + 0x1000)) then rest else ok k

  unfoldable pub map_heap : (left i : ℕ) → Kernel → Run Kernel
  map_heap zero i k = ok k
  map_heap (suc left) i k = do
    (page, k') ← get_page_ptr_in_page_table i 1 k.machine.kernel_directory k
    s ← alloc_frame_at page 0 0 k'.machine
    map_heap left (i + 0x1000) (record k' { machine = s })

  -- `initialise_paging`: the kernel and `current_directory`. The frame table is kept apart from the
  -- rest of the memory; registering the handler and loading the register are not modelled.
  unfoldable pub initialise_paging : (fuel : ℕ) → (behind : List ℕ) → Kernel → Run (ℕ × Kernel)
  initialise_paging fuel behind k = do
    let nframes = 0x1000000 / 0x1000
    (frames, k1) ← kmalloc rounds (nframes / 8) k
    let table : FrameTable = record { frames = replicate (nframes / 32) 0; nframes = nframes }
    (dir, k2) ← kmalloc_a rounds directory_size k1
    let cleared = fill k2.machine.memory dir 0 directory_size
    let m = store32 cleared (physical_addr_at dir) (tables_physical_at dir 0)
    let s : Machine = record { memory = m; frames = table; kernel_directory = dir }
    k3 ← make_tables 256 0xC0000000 (record k2 { machine = s })
    k4 ← identity_map fuel 0 k3
    k5 ← map_heap 256 0xC0000000 k4
    (heap, k6) ← create_heap rounds behind 0xC0000000 0xC0100000 0xCFFFF000 0 0 k5
    clone_directory dir (record k6 { kheap = some heap })
