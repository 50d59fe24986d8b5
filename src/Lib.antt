-- ===== src/Lib.antt =====
-- matanos, a small 32-bit x86 kernel: a verification of its data structures and algorithms.
--
-- The kernel is started by kernel/kernel.c, which sets up the descriptor tables and interrupts
-- (cpu/isr.c, cpu/idt.c), the timer (cpu/timer.c), the keyboard (drivers/keyboard.c), paging with
-- the frame table (cpu/paging.c), the kernel heap (cpu/kheap.c over cpu/ordered_array.c) and the
-- tasks (cpu/task.c). The timer interrupt wakes sleepers and switches tasks.
--
-- Base: the outcome of C code (`Run`: a normal return, a failed ASSERT or PANIC, undefined
--   behaviour, or a walk cut off by its fuel), arrays as lists with faults outside them, words and
--   their bits.
-- OrderedArray: cpu/ordered_array.c. The memory from the start address of the array on is a list,
--   a pointer is its address, and the comparison behind the function pointer is a parameter.
--   `find_position` and `shift_up` are the two loops of insert_ordered_array, `shift_down` that of
--   remove_ordered_array; each recurs on the rounds that are left.
-- Frames: the bit table of cpu/paging.c. `FrameTable` holds the globals frames and nframes; a
--   function of the source takes it and returns the new one. A function that ends without the
--   value that its caller uses is a fault.
-- Scheduler: cpu/task.c and cpu/timer.c. `Tasks` is the memory that holds the task structures, and
--   `Sched` has the globals. A walk through a queue is bounded by a parameter `walk`; the theorems
--   ask for a bound above the lengths of the queues, and then the walks end by themselves. What
--   kmalloc, kmalloc_a and clone_directory return to fork, the registers and the value of
--   read_eip() are arguments. `Transfer` says whether switch_task returns or jumps. Printing is
--   left out, and interrupts do not arrive inside these functions. `Reach` (Scheduler/Reach) is the
--   relation of the states that multitasking reaches by ticks, sleep and fork, and `IsRegular` says
--   of such a history that read_eip() gives the mark 0x12345 to none of its ticks and sleeps and that
--   no sleep has the wake-up tick 0. The theorems about reached states are about such histories.
--
-- Ports: the two port instructions as an interface over a state of the devices; what the theorems
--   need of a device is a record of laws (`Masks` for the interrupt controllers, `Crtc` for the
--   display controller), and a concrete device satisfies each.
-- Segments, Pic, Interrupts: cpu/isr.c and cpu/idt.c. `Tables` and `Idt` hold the globals; the
--   addresses of the assembly stubs are a parameter, and a handler is a function on the state of
--   everything else. Each handler gets its own copy of the registers, as in the source.
-- Text: kernel/util.c. A buffer is a list of bytes, and an access outside it is a fault; `append`
--   of the source is `append_char` here.
-- Screen: drivers/screen.c on the 4000 bytes of video memory. An `int` that may be negative is of
--   the type `ℤ` of that file.
-- Keyboard: keyboard_callback of drivers/keyboard.c. The shell's user_input is a parameter.
-- Shell: the parser of kernel/shell.c and its user_input (Shell/Commands), and the search of
--   kernel/symbols.c. A parser makes at most four rounds, one for each part. The call of an address
--   is a parameter.
-- Syscalls: cpu/syscall.c with the stubs that the macros of cpu/syscall.h define, and the way of
--   int 0x80 through cpu/interrupt.asm to isr_handler. A handler gets a copy of the registers, and
--   what it does to it is lost (`on_copy`). The call of the function in the table is a parameter.
--
-- Memory, Paging: the bytes of the kernel's memory with loads and stores of words, and the page
--   entries in it. `Machine` has the memory, the frame table and the kernel's directory.
-- Heap: cpu/kheap.c. A block or a hole has its header and its footer in the memory; the index of
--   the holes is the ordered array, kept apart from the bytes. `find_hole`, `find_endmost`,
--   `map_pages`, `unmap_pages` and `find_header` are the loops. `alloc` calls itself on fuel, one
--   unit for each expansion; a request that the index can serve needs one unit, and one that needs
--   more room two. `MayGrow` (Heap/Grow) says when the heap can be expanded.
-- Kmalloc: kmalloc_int with its four faces, kfree, create_heap and create_ordered_array. Before there
--   is a heap the placement address moves. `rounds` is the fuel for `alloc`.
-- Directories: the functions of cpu/paging.c that make and copy tables and directories.
--   copy_page_physical of cpu/process.asm is a parameter. The fuel of `identity_map` bounds the
--   loop of initialise_paging that chases the placement address.
--
-- Ps2: the commands of drivers/keyboard.c to the keyboard controller, over the ports. `Controller`
--   is what they rely on of an 8042, which ignores commands to a channel that it does not have. Its waiting loops are on fuel; `send_port` has its own bound of
--   1000 retries. Messages are left out.
-- Stack: move_stack of cpu/task.c on the bytes of the memory. The registers of the stack and the
--   linker's symbol `end` are arguments.
--
-- Start: main of kernel/kernel.c up to the paging. `Responds` (Start/Answers) is what it relies on
--   of the keyboard controller: behind the disabling commands its output buffer runs empty, behind
--   the command of the self-test an answer comes, and it takes each byte at once.
--
-- Not modelled: kernel/printf.c, which is a copy of the printf of the Linux boot code; the assembly
--   and the instructions that load system registers; page_fault, general_fault and the functions
--   that only print; the demonstration at the end of main in kernel/kernel.c.
pub mod Directories
pub mod Kmalloc
pub mod Heap
pub mod Paging
pub mod Memory
pub mod Shell
pub mod Syscalls
pub mod Ps2
pub mod Stack
pub mod Start
pub mod Keyboard
pub mod Screen
pub mod Text
pub mod Interrupts
pub mod Pic
pub mod Ports
pub mod Segments
pub mod Base
pub mod OrderedArray
pub mod Frames
pub mod Scheduler
