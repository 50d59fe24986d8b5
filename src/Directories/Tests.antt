-- ===== src/Directories/Tests.antt =====
-- Tables and directories at work, with allocation before there is a heap.
use matanos.Base.{
  ℕ, ◌+◌, ◌-◌, ◌/◌, ◌^◌, ◌<◌, ◌≤◌, ◌==◌, ◌&&◌, leb, ltb, if◌then◌else◌, u32, bit_or, ◌≡◌, refl, [],
  none, ok, inl, inr, arith,
}
use matanos.Memory.{Memory, load32}
use matanos.Memory.Frame.{Agree, AgreeOff}
use matanos.Paging.{page_of, page_in, tables_at, tables_physical_at, physical_addr_at}
use matanos.Heap.Blocks.{IsBlock}
use matanos.Kmalloc.{Kernel, align_placement, kmalloc_int, kmalloc_ap}
use matanos.Directories.{
  table_size, directory_size, with_memory, get_page_ptr_in_page_table, clone_table, clone_directory,
}
use matanos.Directories.Tables.{get_page_ptr-make, clone_table-clobbers}
use matanos.Directories.Sharing.{clone_directory-kernel}

-- The pages of the machine of these tests: 4096 bytes copied.
abbrev copy_page : (source dest : ℕ) → Memory → Memory
copy_page source dest m =
    λ a. if leb dest a && ltb a (dest + 0x1000) then m (source + (a - dest)) else m a

abbrev kernel_of : Memory → (placement : ℕ) → Kernel
kernel_of m placement = record {
  machine = record {
    memory = m;
    frames = record { frames = []; nframes = 0 };
    kernel_directory = 0x200000;
  };
  kheap = none;
  placement_address = placement;
}

-- A directory at 0x200000 with one table at 0x5000.
abbrev linked : Memory
linked = λ a.
    if a == 0x200001 then 0x50 else if a == 0x201001 then 0x50 else if a == 0x201000 then 0x7 else 0

table_made :
    (m : Memory)
    → kmalloc_ap 1 table_size (kernel_of m 0x100000) ≡ ok (0x101000, 0x101000, kernel_of m 0x102000)
unfolding kmalloc_ap kmalloc_int align_placement
table_made m = refl

directory_made :
    (m : Memory)
    → kmalloc_ap 1 directory_size (kernel_of m 0x100000)
      ≡ ok (0x101000, 0x101000, kernel_of m 0x103004)
unfolding kmalloc_ap kmalloc_int align_placement
directory_made m = refl

bytes : (b : ℕ) → linked b < 2 ^ 8
bytes b = ground arith

get_page_ptr-make_example :
    (k2 : Kernel) × (get_page_ptr_in_page_table 1 copy_page 0xC0003000 1 0x200000
        (kernel_of linked 0x100000)
      ≡ ok (page_in 0x101000 0xC0003000, k2))
    × (get_page_ptr_in_page_table 1 copy_page 0xC0003000 0 0x200000 k2
        ≡ ok (page_in 0x101000 0xC0003000, k2))
    × (load32 k2.machine.memory (tables_physical_at 0x200000 (0xC0003000 / 0x1000 / 1024))
        ≡ bit_or 0x101000 0x7)
    × Agree 0x101000 table_size linked k2.machine.memory
unfolding load32 tables_at
get_page_ptr-make_example =
    get_page_ptr-make 1 copy_page 0xC0003000 0x200000 0x101000 0x101000 (kernel_of linked 0x100000)
      (kernel_of linked 0x102000) (omega arith) refl (table_made linked) (λ e. omega arith)
      (omega arith) (omega arith) (inr (omega arith))

clone_table-clobbers_example :
    (k' : Kernel) × (clone_table 1 copy_page 0x300000 (kernel_of (λ a. 0) 0x100000)
      ≡ ok (0x101000, 0x101000, k'))
    × ((b : ℕ) → 0x101000 ≤ b → b < 0x101000 + directory_size → k'.machine.memory b ≡ 0)
    × ¬ (IsBlock k'.machine.memory 0x100FF4 4116 0)
unfolding load32 page_of
clone_table-clobbers_example =
    clone_table-clobbers 1 copy_page 0x300000 0x101000 0x101000 0x100FF4 4116 0
      (kernel_of (λ a. 0) 0x100000) (kernel_of (λ a. 0) 0x102000) (table_made (λ a. 0))
      (inl (omega arith)) (λ j lt. refl) (omega arith) (omega arith)

clone_directory-kernel_example :
    (m' : Memory) × (clone_directory 1 copy_page 0x200000 (kernel_of linked 0x100000)
      ≡ ok (0x101000, with_memory m' (kernel_of linked 0x103004)))
    × ((j : ℕ) → j < 1024 → load32 m' (tables_at 0x101000 j) ≡ load32 linked (tables_at 0x200000 j))
    × ((j : ℕ)
        → j < 1024
        → ¬ (load32 linked (tables_at 0x200000 j) ≡ 0)
        → load32 m' (tables_physical_at 0x101000 j) ≡ load32 linked (tables_physical_at 0x200000 j))
    × (load32 m' (physical_addr_at 0x101000) ≡ u32 (0x101000 + 0x1000))
    × AgreeOff 0x101000 directory_size linked m'
clone_directory-kernel_example =
    clone_directory-kernel 1 copy_page 0x200000 0x101000 0x101000 (kernel_of linked 0x100000)
      (kernel_of linked 0x103004) (directory_made linked) refl (inl (omega arith)) bytes
