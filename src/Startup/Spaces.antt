-- ===== src/Startup/Spaces.antt =====
-- The address spaces that `init_memory_manager` of kernel/memory_manager.c sets up.
use sandor_os.Startup.Clone.{clone_directory}
use sandor_os.Startup.{Linker, MmapEntry, temp_page_address, kernel_size, init_regions}
use sandor_os.Table.{Entry, entry, Entries}
use sandor_os.AddressSpace.{AddressSpace, DynamicMemory}
use sandor_os.VirtPages.{Manager, alloc_virt_pages, entry_at}
use sandor_os.Paging.{map_pages}
use sandor_os.PhysMemory.{Phys, alloc_phys_pages, temp_map_page}
use sandor_os.Prelude.{ℕ, ◌/◌, ◌^◌, Option, List, ◌==◌, if◌then◌else◌, minus_one}
use mathlib.Core.Option

-- The entry at `i` of a table is written.
abbrev pub set_block : (i : ℕ) → Entry → Entries → Entries
set_block i b entries j = if j == i then b else entries j

module _ (l : Linker) where
  -- The three blocks that the kernel uses from the start: itself, the table of blocks and TEMP_PAGE.
  unfoldable pub first_blocks : Entries → Entries
  first_blocks entries = set_block 2 (entry (temp_page_address l) 1) (
      set_block 1 (entry l.kernel_virt_block_table 1)
        (set_block 0 (entry l.kernel_base_vma (kernel_size l / 2 ^ 12)) entries))

  -- The kernel's address space before its dynamic memory, all fields of which are 0.
  unfoldable pub kernel_space : (kernel_page_dir : ℕ) → Entries → AddressSpace
  unfolding first_blocks
  kernel_space kernel_page_dir entries = record {
    page_dir = kernel_page_dir;
    start = l.kernel_address_space_start;
    end = l.kernel_address_space_end;
    virt_memory = record {
      block_count = 3;
      blocks = l.kernel_virt_block_table;
      entries = first_blocks entries;
      table_size = 1;
    };
    dynamic_memory = record {
      block_count = 0;
      blocks = 0;
      entries = λ i. entry 0 0;
      table_size = 0;
      heap = 0;
      heap_size = 0;
    };
  }

  -- `map_pages(TEMP_PAGE, 0, 1, 0xfff)`, which where it succeeds leaves frame 0 at TEMP_PAGE.
  unfoldable pub map_temp_page : (kernel_page_dir : ℕ) → Phys → Option Phys
  map_temp_page kernel_page_dir s =
      Option.map (λ (s1, mapped). if mapped then temp_map_page 0 s1 else s1)
        (map_pages kernel_page_dir (temp_page_address l) 0 1 4095 s)

  -- The table of virtual blocks gets a frame, and has its first blocks.
  unfoldable pub init_virt_memory : (kernel_page_dir : ℕ) → Phys → Option Manager
  init_virt_memory kernel_page_dir s =
      let table = l.kernel_virt_block_table in
      Option.bind (alloc_phys_pages 1 s) (λ (s1, addr).
        Option.bind (map_pages kernel_page_dir table addr 1 4095 s1) (λ (s2, mapped).
          Option.map
            (λ s3. record {
              phys = s3;
              space = kernel_space kernel_page_dir (entry_at kernel_page_dir table s3);
            })
            (map_temp_page kernel_page_dir s2)))

abbrev pub set_dynamic : (DynamicMemory → DynamicMemory) → Manager → Manager
set_dynamic f mm = record mm {
  space = record mm.space { dynamic_memory = f mm.space.dynamic_memory };
}

-- The table of the heap's blocks.
unfoldable pub init_heap_table : Manager → Option Manager
init_heap_table mm =
    let start = set_dynamic (λ d. record d { block_count = 0; table_size = 1 }) mm in
    Option.map
      (λ (mm1, table).
        set_dynamic
          (λ d. record d { blocks = table; entries = entry_at mm1.space.page_dir table mm1.phys })
          mm1)
      (alloc_virt_pages 0 minus_one 1 4095 start)

-- The heap has ten pages.
unfoldable pub init_heap : Manager → Option Manager
init_heap mm =
    Option.map (λ (mm1, heap). set_dynamic (λ d. record d { heap = heap }) mm1)
      (alloc_virt_pages 0 minus_one 10 4095 (set_dynamic (λ d. record d { heap_size = 10 }) mm))

-- What `init_memory_manager` leaves: `manager` has the kernel's address space, which is the current
-- one.
pub record Started : Type 0 where
  pub memory_map : List MmapEntry
  pub memory_size : ℕ
  pub manager : Manager
  pub user_address_space : AddressSpace

module _ (l : Linker) where
  -- The address space of user programs has the tables of the kernel's.
  unfoldable pub user_space : (page_dir : ℕ) → AddressSpace → AddressSpace
  user_space page_dir kernel = record {
    page_dir = page_dir;
    start = l.user_address_space_start;
    end = l.user_address_space_end;
    virt_memory = kernel.virt_memory;
    dynamic_memory = kernel.dynamic_memory;
  }

  -- `cr3` is the directory that the assembly start-up code has set.
  unfoldable pub init_memory_manager : (cr3 : ℕ) → List MmapEntry → Phys → Option Started
  init_memory_manager cr3 memory_map s =
      Option.bind (init_regions l memory_map s) (λ (memory_map', sized).
        Option.bind (init_virt_memory l cr3 sized.phys) (λ mm1.
          Option.bind (init_heap_table mm1) (λ mm2. Option.bind (init_heap mm2) (λ mm3.
            Option.map
              (λ (mm4, clone). record {
                memory_map = memory_map';
                memory_size = sized.memory_size;
                manager = mm4;
                user_address_space = user_space clone mm4.space;
              })
              (clone_directory cr3 cr3 mm3)))))
