-- ===== src/Directories/Tables.antt =====
-- The page tables that cpu/paging.c makes.
use matanos.Base.{
  ℕ, zero, suc, ◌+◌, ◌-◌, ◌*◌, ◌/◌, ◌^◌, ◌<◌, ◌≤◌, ◌⊎◌, inl, inr, ne→==, bit_or, ok, ◌≡◌, refl, ap,
  ◌∙◌, arith,
}
use matanos.Memory.{Memory, load32, store32, fill}
use matanos.Memory.Frame.{
  Agree, AgreeOff-Agree, load32-Agree, load32-store32, store32-AgreeOff, fill-AgreeOff, fill-inside,
  load32-fill,
}
use matanos.Paging.{Machine, page_of, tables_at, tables_physical_at, page_in}
use matanos.Heap.{footer_magic, magic_number}
use matanos.Heap.Blocks.{IsBlock}
use matanos.Kmalloc.{Kernel, kmalloc_ap}
use matanos.Directories.{
  table_size, directory_size, with_memory, get_page_ptr_in_page_table, clone_entries, clone_table,
}

source_kept :
    (src table j : ℕ) (m : Memory)
    → (table + directory_size ≤ src) ⊎ (src + table_size ≤ table)
    → j < 1024
    → load32 (fill m table 0 directory_size) (src + 4 * j) ≡ load32 m (src + 4 * j)
source_kept src table j m apart h = load32-Agree (src + 4 * j) m (fill m table 0 directory_size) (
    AgreeOff-Agree table directory_size (src + 4 * j) 4 m (fill m table 0 directory_size)
      (fill-AgreeOff m table 0 directory_size) (side src table j h apart))
  where
    side :
        (src table j : ℕ)
        → j < 1024
        → (table + 8196 ≤ src) ⊎ (src + 4096 ≤ table)
        → (src + 4 * j + 4 ≤ table) ⊎ (table + 8196 ≤ src + 4 * j)
    side src table j h (inl a) = inr (omega arith)
    side src table j h (inr a) = inl (omega arith)

cleared_footer :
    (m : Memory) (table h n hole : ℕ)
    → table + table_size + 8 ≤ h + n
    → h + n ≤ table + directory_size
    → ((b : ℕ) → table ≤ b → b + 4 ≤ table + directory_size → load32 m b ≡ 0)
    → ¬ (IsBlock m h n hole)
unfolding footer_magic
cleared_footer m table h n hole lo hi zeros b =
    let large = b.large in
    let z = zeros (h + (n - 8)) (omega arith) (omega arith) in
    let magic : load32 m (h + (n - 8)) ≡ magic_number = b.end_magic in
    absurd (omega (arith, z, magic))

module _ (rounds : ℕ) (copy_page_physical : (source dest : ℕ) → Memory → Memory) where
  -- A page of a table that is not there yet, made by a successful allocation apart from the
  -- directory. The page is in the new table, a second look finds it and makes nothing, the physical
  -- entry has the flags, and no byte of the table is cleared.
  pub get_page_ptr-make :
      (address dir new tmp : ℕ) (k k1 : Kernel)
      → address < 2 ^ 32
      → load32 k.machine.memory (tables_at dir (address / 0x1000 / 1024)) ≡ 0
      → kmalloc_ap rounds table_size k ≡ ok (new, tmp, k1)
      → ¬ (new ≡ 0)
      → new < 2 ^ 32
      → bit_or tmp 0x7 < 2 ^ 32
      → (dir + directory_size ≤ new) ⊎ (new + table_size ≤ dir)
      → (k2 : Kernel) × (get_page_ptr_in_page_table rounds copy_page_physical address 1 dir k
          ≡ ok (page_in new address, k2))
        × (get_page_ptr_in_page_table rounds copy_page_physical address 0 dir k2
            ≡ ok (page_in new address, k2))
        × (load32 k2.machine.memory (tables_physical_at dir (address / 0x1000 / 1024))
            ≡ bit_or tmp 0x7)
        × Agree new table_size k1.machine.memory k2.machine.memory
  unfolding get_page_ptr_in_page_table tables_at tables_physical_at
  get_page_ptr-make address dir new tmp k k1 small none_yet made nonzero word phys apart =
      let j = address / 0x1000 / 1024 in
      let m1 = store32 k1.machine.memory (dir + 4 * j) new in
      let m2 = store32 m1 (dir + 0x1000 + 4 * j) (bit_or tmp 0x7) in
      let found : load32 m2 (dir + 4 * j) ≡ new =
        load32-Agree (dir + 4 * j) m1 m2 (
          AgreeOff-Agree (dir + 0x1000 + 4 * j) 4 (dir + 4 * j) 4 m1 m2
            (store32-AgreeOff m1 (dir + 0x1000 + 4 * j) (bit_or tmp 0x7)) (inl (omega arith)))
        ∙ load32-store32 k1.machine.memory (dir + 4 * j) new word in
      (
        with_memory m2 k1,
        rw (none_yet, made, found) refl,
        rw (found, ne→== new 0 nonzero) refl,
        load32-store32 m1 (dir + 0x1000 + 4 * j) (bit_or tmp 0x7) phys,
        (λ b lo hi.
            store32-AgreeOff m1 (dir + 0x1000 + 4 * j) (bit_or tmp 0x7) b
              (side dir new j b (omega arith) lo hi apart)
            ∙ store32-AgreeOff k1.machine.memory (dir + 4 * j) new b
                (near dir new j b (omega arith) lo hi apart)),
      )
    where
      side :
          (dir new j b : ℕ)
          → j < 1024
          → new ≤ b
          → b < new + 4096
          → (dir + 8196 ≤ new) ⊎ (new + 4096 ≤ dir)
          → (b < dir + 0x1000 + 4 * j) ⊎ (dir + 0x1000 + 4 * j + 4 ≤ b)
      side dir new j b h lo hi (inl a) = inr (omega arith)
      side dir new j b h lo hi (inr a) = inl (omega arith)

      near :
          (dir new j b : ℕ)
          → j < 1024
          → new ≤ b
          → b < new + 4096
          → (dir + 8196 ≤ new) ⊎ (new + 4096 ≤ dir)
          → (b < dir + 4 * j) ⊎ (dir + 4 * j + 4 ≤ b)
      near dir new j b h lo hi (inl a) = inr (omega arith)
      near dir new j b h lo hi (inr a) = inl (omega arith)

  clone_entries-empty :
      (left i src table : ℕ) (s : Machine)
      → ((j : ℕ) → j < i + left → (page_of (load32 s.memory (src + 4 * j))).frame ≡ 0)
      → clone_entries rounds copy_page_physical left i src table s ≡ ok s
  unfolding clone_entries
  clone_entries-empty zero i src table s h = refl
  clone_entries-empty (suc left) i src table s h =
      rw (h i (omega arith))
        (clone_entries-empty left (i + 1) src table s (λ j lt. h j (omega arith)))

  -- A clone of a table with no frames, made by a successful allocation apart from it. All 8196
  -- bytes from the new table on are 0, where the table has 4096, and `h`, `n` is not a block of the
  -- heap if its footer, its last 8 bytes, is within the other 4100.
  pub clone_table-clobbers :
      (src table phys h n hole : ℕ) (k k1 : Kernel)
      → kmalloc_ap rounds table_size k ≡ ok (table, phys, k1)
      → (table + directory_size ≤ src) ⊎ (src + table_size ≤ table)
      → ((j : ℕ) → j < 1024 → (page_of (load32 k1.machine.memory (src + 4 * j))).frame ≡ 0)
      → table + table_size + 8 ≤ h + n
      → h + n ≤ table + directory_size
      → (k' : Kernel) × (clone_table rounds copy_page_physical src k ≡ ok (table, phys, k'))
        × ((b : ℕ) → table ≤ b → b < table + directory_size → k'.machine.memory b ≡ 0)
        × ¬ (IsBlock k'.machine.memory h n hole)
  unfolding clone_table
  clone_table-clobbers src table phys h n hole k k1 made apart none_there lo hi =
      let m = fill k1.machine.memory table 0 directory_size in
      let cleared = with_memory m k1 in
      (
        cleared,
        rw
            (
              made,
              clone_entries-empty 1024 0 src table cleared.machine (λ j lt.
                  ap (λ w. (page_of w).frame) (source_kept src table j k1.machine.memory apart lt)
                  ∙ none_there j lt),
            )
            refl,
        (λ b from to. fill-inside k1.machine.memory table 0 directory_size b from to),
        (λ b.
            cleared_footer m table h n hole lo hi
              (λ b lo' hi'. load32-fill k1.machine.memory table directory_size b lo' hi') b),
      )
