-- ===== src/Lib.antt =====
-- Verification of the sandor_os kernel, a 32-bit x86 kernel in C.
--
-- The parts of the program and their models:
--   * kernel/stdlib.c, the C library routines, in Stdlib: bytes at 32-bit addresses; each function is
--     a function of the memory under its own name, and its loops are recursion on the rounds left.
--   * kernel/memory_manager.c, the allocator of physical pages, in PhysMemory: `alloc_phys_pages` and
--     `free_phys_pages` on the words of the frames, of which one at a time is mapped at TEMP_PAGE.
--     Blocks, FirstFit and Release hold the abstract view, a descending list of free blocks; Ring
--     relates the list to the links in memory.
--   * kernel/memory_manager.c, the table of virtual blocks, in VirtBlocks: `add_virt_block` and
--     `del_virt_block` on the records of AddressSpace. Table has the moves of entries that both
--     tables make, and what they do to blocks in order.
--   * kernel/memory_manager.c, the page tables, in Paging: `get_physaddr`, `map_pages` and
--     `unmap_pages` on the frames of the page allocator. Paging.Space relates the two: tables are in
--     frames that are not free.
--   * kernel/memory_manager.c, virtual pages, in VirtPages: `alloc_virt_pages` and `free_virt_pages`
--     on a Manager, the page allocator with the current address space.
--   * kernel/memory_manager.c, the kernel heap, in KernelHeap: the placement of `kmalloc` is
--     `kmalloc_block`, on the heap alone; KernelHeap.Kmalloc has `kmalloc` with the growth of its
--     table and `kfree`, on a Manager.
--   * kernel/memory_manager.c, its start, and kernel/main.cpp in Startup: `free_regions` is the loop of
--     `init_memory_manager` over the memory map; Startup.Spaces has the rest of it, Startup.Clone
--     `clone_directory`, Startup.Terminal `init_tty` of kernel/tty.c, and Startup.Kernel `kernel_main`.
--     Startup.Offered says which frames the memory map gives. Startup.Memory puts the theorems on the parts together.
--     The addresses of script.ld are a record, and what the boot loader leaves an argument.
--   * kernel/gdt.c, the descriptor table, in Gdt: `create_descriptor`, `tss_install` and `gdt_install`.
--   * kernel/interrupts.c, kernel/PIC.c and kernel/PIT.c in Interrupts: the table of interrupts, the
--     controller and the timer. The code of the wrapper in kernel/interrupts.asm is a parameter.
--   * kernel/tty.c, the terminal, in Tty: cursor, scrolling and text, in Tty.Number the conversion of
--     numbers, and in Tty.Printf `printf`. Tty.Paper is the abstract view, a roll of paper behind a
--     window; Tty.Printf.Format the text that a format makes.
--   * kernel/tty.c, the keyboard buffer, in Keyboard: the interrupt handler and `in_scancode`, in
--     Keyboard.Runs their interleavings against a queue, and in Keyboard.Scancodes `in_char` with the
--     tables of kernel/include/scancodes.h; Keyboard.Scancodes.Presses says what presses and releases
--     of keys type.
--   * kernel/tty.c, line input, in Console: `in_string`.
--   * kernel/shell.c in Shell: `physdump` and `virtdump`; Shell.Commands has `do_command` and `help`, and
--     Shell.Choice what each name does; Shell.Arguments has `pars_input` and the loop of `shell`.
--   * kernel/include/List.hpp, the list of items, in ItemList: its operations on items by address.
--   * kernel/ATA.c, the disk, in Ata: the polls and `send_command`; Ata.Transfer has `read_ata` and
--     `write_ata`, Ata.Init the identification of the disks. Io has the ports: a device is a function
--     that answers a read from the trace of what has happened at the ports.
--
-- The page allocator serves page tables and the tables of blocks; the heap's table and the heap are
-- blocks of virtual pages; interrupts, line input, the shell and the disk take their blocks from the
-- heap; the routines of stdlib.c move the entries of the tables and the rows of
-- the screen.
--
-- Numbers: `size_t`, pointers and `physaddr` are 32 bits wide; wrap-around is written out with `u32`,
-- `sub32` and `shl` of Prelude.Words. `char` is signed on this target.
--
-- Where C leaves a result open - a shift by the width, an argument that was not passed, a read behind
-- a table or of a page that is not mapped - there is no result. Signed overflow wraps around.
--
-- Memory: the frames of the page allocator, the entries of the tables of blocks and of interrupts, and
-- the bytes that the routines of stdlib.c work on are kept apart; the code does not reach one through
-- the address of another, but for a table of blocks that moves, whose new entries are read from its
-- frames (`entry_at`), and the entry of TEMP_PAGE, a word of the kernel's page table that
-- `temp_map_page` keeps in a field of its own. Sizes and lengths that could only wrap in tables and
-- lists larger than the memory do not: the bytes that the tables move, and the length of an item list.
--
-- Fuel: the loops of the page allocator have 2^20 rounds, more than a ring of frames has blocks;
-- `strcmp` and the loops over a line have 2^32 rounds, as many as there are addresses; `int_to_str`
-- has 32, as many as a word has digits, and the parsing of an address eight; the transfers of the disk
-- have 2^24 rounds, as many as there are steps of 256 sectors; `in_string` one more than there are
-- rounds of waiting. Running out is `none`, and the theorems say where it does not happen.
--
-- Not modelled: the sketch of a task switch in kernel/task.c, `create_address_space`, whose body is a
-- comment, and the assembly, which has set the directory when `kernel_main` starts and which goes on
-- behind it. Inline assembly that only flushes caches or loads registers has no counterpart.
mod Prelude
pub mod Stdlib
pub mod PhysMemory
pub mod Paging
pub mod Table
pub mod VirtPages
pub mod AddressSpace
pub mod VirtBlocks
pub mod KernelHeap
pub mod Io
pub mod Ata
pub mod Gdt
pub mod Interrupts
pub mod Tty
pub mod Keyboard
pub mod ItemList
pub mod Console
pub mod Shell
pub mod Startup
