-- ===== src/Stack.antt =====
-- `move_stack` of cpu/task.c: the stack of the kernel moved to another address.
pub mod Relocate
mod Tests
use matanos.Base.{
  ℕ, zero, suc, ◌+◌, ◌*◌, ◌/◌, ◌%◌, ltb, leb, Bool, true, false, ◌&&◌, if◌then◌else◌, u32, sub32,
  Run, ok, out_of_fuel, ◌>>=◌, ◌>>◌,
}
use matanos.Memory.{Memory, load32, store32, copy}
use matanos.Paging.{alloc_frame_at}
use matanos.Kmalloc.{Kernel}
use matanos.Directories.{with_memory, get_page_ptr_in_page_table}

-- The registers of the stack.
pub record Pointers : Type 0 where
  pub stack_pointer : ℕ
  pub base_pointer : ℕ

-- A word of the stack, with `offset` added if it points into the old stack.
unfoldable pub remapped : (old_stack_pointer initial_esp offset tmp : ℕ) → ℕ
remapped old_stack_pointer initial_esp offset tmp =
    if ltb old_stack_pointer tmp && ltb tmp initial_esp then u32 (tmp + offset) else tmp

-- The loop that remaps the words from `i` down to `low`, which it does not reach.
unfoldable pub remap : (fuel i low old_stack_pointer initial_esp offset : ℕ) → Memory → Run Memory
remap zero i low old_stack_pointer initial_esp offset m = out_of_fuel
remap (suc fuel) i low old_stack_pointer initial_esp offset m =
    let tmp = load32 m i in
    let m' =
      if ltb old_stack_pointer tmp && ltb tmp initial_esp
      then store32 m i (u32 (tmp + offset))
      else m in
    let rest = remap fuel (sub32 i 4) low old_stack_pointer initial_esp offset m' in
    if ltb low i then rest else ok m

-- The copy of the stack and the loop behind it, which makes a round for each word.
unfoldable pub relocate :
    (new_stack_start size initial_esp old_stack_pointer : ℕ) → Memory → Run Memory
relocate new_stack_start size initial_esp old_stack_pointer m =
    let offset = sub32 new_stack_start initial_esp in
    let new_stack_pointer = u32 (old_stack_pointer + offset) in
    remap (size / 4 + 2) new_stack_start (sub32 new_stack_start size) old_stack_pointer initial_esp
      offset (copy old_stack_pointer new_stack_pointer (sub32 initial_esp old_stack_pointer) m)

-- `rounds` is for `alloc`; `copy_page_physical` is a routine of cpu/process.asm.
module _ (rounds : ℕ) (copy_page_physical : (source dest : ℕ) → Memory → Memory) where
  -- The loop that gives the new stack its pages.
  unfoldable pub map_stack : (fuel i low dir : ℕ) → Kernel → Run Kernel
  map_stack zero i low dir k = out_of_fuel
  map_stack (suc fuel) i low dir k =
      let rest = (do
        (page, k') ← get_page_ptr_in_page_table rounds copy_page_physical i 1 dir k
        s ← alloc_frame_at page 0 1 k'.machine
        map_stack fuel (sub32 i 0x1000) low dir (record k' { machine = s })) in
      if leb low i then rest else ok k

  -- `move_stack`, with `current_directory` and the registers; `end_address` is the linker's symbol
  -- `end`. Flushing the translation buffer is not modelled.
  unfoldable pub move_stack :
      (new_stack_start size end_address dir : ℕ) → Pointers → Kernel → Run (Pointers × Kernel)
  move_stack new_stack_start size end_address dir old k = do
    let initial_esp = u32 (end_address + 0x1000)
    let low = sub32 new_stack_start size
    k1 ← map_stack (size / 0x1000 + 2) new_stack_start low dir k
    let offset = sub32 new_stack_start initial_esp
    m ← relocate new_stack_start size initial_esp old.stack_pointer k1.machine.memory
    ok (
      record {
        stack_pointer = u32 (old.stack_pointer + offset);
        base_pointer = u32 (old.base_pointer + offset);
      },
      with_memory m k1,
    )
