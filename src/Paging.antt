-- ===== src/Paging.antt =====
-- The page tables of cpu/paging.c and cpu/paging.h, in memory.
mod Tests
use matanos.Base.{ℕ, ◌+◌, ◌*◌, ◌/◌, ◌%◌, ◌^◌, ◌==◌, if◌then◌else◌, u32, Run, ok, fault, ◌>>=◌, ◌>>◌}
use matanos.Memory.{Memory, load32, store32}
use matanos.Frames.{Page, FrameTable, alloc_frame, free_frame}

-- The bit fields of `page_t`, from the lowest bit on.
unfoldable pub page_of : ℕ → Page
page_of w = record {
  present = w % 2;
  rw_flag = w / 2 % 2;
  user = w / 4 % 2;
  accessed = w / 8 % 2;
  dirty = w / 16 % 2;
  unused = w / 32 % 2 ^ 7;
  frame = w / 2 ^ 12 % 2 ^ 20;
}

unfoldable pub word_of : Page → ℕ
word_of page =
    page.present
    + page.rw_flag * 2
    + page.user * 4
    + page.accessed * 8
    + page.dirty * 16
    + page.unused * 32
    + page.frame * 2 ^ 12

-- The memory, the frames, and the pointer to the kernel's page directory.
pub record Machine : Type 0 where
  pub memory : Memory
  pub frames : FrameTable
  pub kernel_directory : ℕ

-- `dir->tables[i]` and `dir->tablesPhysical[i]` are words from the directory's address on;
-- `physicalAddr` is behind them.
unfoldable pub tables_at : (dir i : ℕ) → ℕ
tables_at dir i = dir + 4 * i

unfoldable pub tables_physical_at : (dir i : ℕ) → ℕ
tables_physical_at dir i = dir + 0x1000 + 4 * i

unfoldable pub physical_addr_at : ℕ → ℕ
physical_addr_at dir = dir + 0x2000

-- The page in its table.
unfoldable pub page_in : (table address : ℕ) → ℕ
page_in table address = table + 4 * (address / 0x1000 % 1024)

-- `get_page_ptr_in_page_table` with `make` 0. The result 0 is the null pointer.
unfoldable pub find_page : (address dir : ℕ) → Memory → ℕ
find_page address dir m =
    let table = load32 m (tables_at dir (address / 0x1000 / 1024)) in
    if table == 0 then 0 else page_in table address

-- `alloc_frame` and `free_frame` through a pointer.
unfoldable pub alloc_frame_at : (page is_kernel is_writeable : ℕ) → Machine → Run Machine
alloc_frame_at page is_kernel is_writeable s = if page == 0 then fault else (do
  (entry, frames) ← alloc_frame (page_of (load32 s.memory page)) is_kernel is_writeable s.frames
  ok (record s { memory = store32 s.memory page (word_of entry); frames = frames }))

unfoldable pub free_frame_at : ℕ → Machine → Run Machine
free_frame_at page s = if page == 0 then fault else (do
  (entry, frames) ← free_frame (page_of (load32 s.memory page)) s.frames
  ok (record s { memory = store32 s.memory page (word_of entry); frames = frames }))
