-- ===== src/Startup/Tests.antt =====
-- The theorems on the start of the kernel at a machine with two regions of memory.
use sandor_os.Startup.Stages.{Low}
use sandor_os.Startup.Memory.{Bootable, Initialized, init_memory_manager-Initialized}
use sandor_os.Paging.Map.{page_of}
use sandor_os.Paging.Space.{Space}
use sandor_os.Startup.Directory.{Cloneable, clone_directory-copy}
use sandor_os.Interrupts.{Wrapper, set_int_handler, zero_entry}
use sandor_os.Tty.{Tty, tty_char}
use sandor_os.Startup.Screen.{Ready, Shown, TakesBios, with_machine, init_tty-Shown}
use sandor_os.Startup.Terminal.{Terminal, init_tty}
use sandor_os.Startup.Clone.{clone_directory}
use sandor_os.VirtPages.{Manager}
use sandor_os.AddressSpace.{AddressSpace}
use sandor_os.Paging.Entries.{Tables, entry_of, HasTable}
use sandor_os.VirtBlocks.{add_virt_block, del_virt_block}
use sandor_os.Table.{entry, Entries, place}
use sandor_os.Startup.Spaces.{Started, init_memory_manager}
use sandor_os.Startup.Layout.{Layout}
use sandor_os.PhysMemory.State.{IsRing}
use sandor_os.PhysMemory.Blocks.{Block, free, block, total}
use sandor_os.PhysMemory.{Phys}
use sandor_os.Startup.Regions.{Ascending, ends, used, unused, offered, offered_pages}
use sandor_os.Startup.Offered.{Placed, Offered, region_pages, region_bytes, init_regions-Offered}
use sandor_os.Startup.{Linker, MmapEntry, usable, behind_kernel, init_regions, Sized}
use mathlib.Core.Option
use sandor_os.Prelude.{
  ℕ, ◌+◌, ◌-◌, ◌*◌, ◌^◌, ◌<◌, ◌≡◌, refl, true, some, List, [], ◌∷◌, arith, ◌==◌, if◌then◌else◌, u32,
  false, ◌/◌, ◌≢◌, ◌↔◌,
}

abbrev linker : Linker
linker = record {
  kernel_base_vma = 2 ^ 31;
  kernel_base_lma = 2 ^ 20;
  kernel_page_table = 2 ^ 31 + 57344;
  kernel_end = 2 ^ 31 + 65536;
  kernel_virt_block_table = 2 ^ 31 + 65536;
  kernel_address_space_start = 2 ^ 31;
  kernel_address_space_end = 2 ^ 32 - 1;
  user_address_space_start = 2 ^ 22;
  user_address_space_end = 2 ^ 31 - 4096;
}

abbrev region : (addr len type : ℕ) → MmapEntry
region addr len type = record { size = 20; addr = addr; len = len; type = type }

-- The low memory, the region with the kernel, a reserved one, another free one and the end.
abbrev memory_map : List MmapEntry
memory_map =
    region 0 654336 1
    ∷ region (2 ^ 20) (2 ^ 22) 1
    ∷ region (2 ^ 23) 4096 2
    ∷ region (2 ^ 24) 8192 1
    ∷ region 0 0 0
    ∷ []

memory_map-Ascending : Ascending linker 0 memory_map
unfolding usable behind_kernel
memory_map-Ascending =
    unused (λ e. absurd (omega arith)) refl
      (used (λ e. absurd (omega arith)) refl (omega arith) refl (omega arith) (omega arith)
        (unused (λ e. absurd (omega arith)) refl
          (used (λ e. absurd (omega arith)) refl (omega arith) refl (omega arith) (omega arith)
            (ends refl))))

abbrev ram : Phys
ram = record { memory = λ f i. 0; temp_page = 0; free_page_count = 0; free_phys_memory_pointer = 0 }

linker-Placed : Placed linker
linker-Placed = record { starts = omega arith; word = omega arith; loaded = omega arith }

init_regions-Offered_example :
    (es' : List MmapEntry) × (s' : Sized) × (ys : List Block) × (init_regions linker memory_map ram
      ≡ some (es', s'))
    × IsRing s'.phys ys
    × ((f : ℕ) → (free f ys ≡ true) ↔ Offered linker f memory_map)
    × (total ys ≡ region_pages memory_map)
    × (s'.memory_size ≡ u32 (2 ^ 20 + region_bytes memory_map))
    × ((g i : ℕ) → free g ys ≡ false → s'.phys.memory g i ≡ 0)
init_regions-Offered_example =
    init_regions-Offered linker linker-Placed memory_map ram memory_map-Ascending

linker-Layout : Layout linker
linker-Layout = record {
  at_table = refl;
  starts = refl;
  some_pages = omega arith;
  pages = refl;
  behind = refl;
  below = omega arith;
  ends = omega arith;
  word = omega arith;
}

abbrev no_blocks : Entries
no_blocks i = entry 0 0

-- The directory is in frame 1, its two tables in frames 2 and 3: the first maps the low pages to
-- themselves and the second, of the pages from 2^31 on, maps page 2 to the directory.
abbrev mapped_frames : ℕ → ℕ → ℕ
mapped_frames f i =
    if f == 1
    then (if i == 0 then 2 * 4096 + 7 else if i == 512 then 3 * 4096 + 7 else 0)
    else if f == 2
    then i * 4096 + 4095
    else if f == 3
    then (if i == 2 then 4096 + 4095 else 0)
    else 0

abbrev kernel : AddressSpace
kernel = record {
  page_dir = 4096;
  start = 2 ^ 31;
  end = 2 ^ 32 - 1;
  virt_memory = record {
    block_count = 1;
    blocks = 2 ^ 31;
    entries = λ i. entry (2 ^ 31) 1;
    table_size = 1;
  };
  dynamic_memory = record {
    block_count = 0;
    blocks = 0;
    entries = no_blocks;
    table_size = 0;
    heap = 0;
    heap_size = 0;
  };
}

abbrev mapped : Manager
mapped = record { phys = record ram { memory = mapped_frames }; space = kernel }

-- The same with ten free pages from frame 300 on.
abbrev ring_frames : ℕ → ℕ → ℕ
ring_frames f i = if f == 300 then (if i == 2 then 10 else 300 * 4096) else mapped_frames f i

abbrev with_free : Manager
with_free = record {
  phys = record {
    memory = ring_frames;
    temp_page = 0;
    free_page_count = 10;
    free_phys_memory_pointer = 1228800;
  };
  space = kernel;
}

with_free-Space : Space 1 with_free.phys (block 300 10 ∷ [])
with_free-Space = record {
  ring = record {
    cycle = (refl, refl, refl, tt);
    pointer = refl;
    order = (omega arith, omega arith, tt);
    counted = refl;
  };
  tables = record {
    off = λ i h e. ground (arith, h, e);
    apart = λ i j h h' e. ground (arith, h, h', e);
  };
  dir_used = refl;
  used = λ i h. ground (arith, h);
}

with_free-Cloneable : Cloneable with_free (block 300 10 ∷ [])
unfolding add_virt_block place
with_free-Cloneable = record {
  space = with_free-Space;
  some_free = omega arith;
  whole = refl;
  low = omega arith;
  own_table = refl;
  own_page = refl;
  own_frame = refl;
  room = refl;
  page = refl;
  apart = λ e. absurd (omega arith);
  fits = omega arith;
  table = refl;
}

clone_directory-copy_example :
    (mm : Manager) × (f : ℕ) × (clone_directory 4096 4096 with_free ≡ some (mm, f * 2 ^ 12))
    × (free f (block 300 10 ∷ []) ≡ true)
    × ((i : ℕ) → i < 1024 → mm.phys.memory f i ≡ ring_frames 1 i)
    × ((i : ℕ) → mm.phys.memory 1 i ≡ ring_frames 1 i)
    × ((q : ℕ)
        → HasTable 1 ring_frames (q / 2 ^ 10)
        → q ≢ page_of (add_virt_block 1 kernel).1
        → entry_of 1 mm.phys.memory q ≡ entry_of 1 ring_frames q)
    × (mm.space ≡ (del_virt_block (add_virt_block 1 kernel).1 (add_virt_block 1 kernel).0).0)
clone_directory-copy_example =
    clone_directory-copy with_free (block 300 10 ∷ []) with_free-Cloneable

abbrev boot_ram : Phys
boot_ram = record ram { memory = mapped_frames }

linker-Low : Low linker linker-Layout 4096
linker-Low = omega arith

memory_map-Bootable :
    Bootable linker linker-Layout 4096 linker-Low (omega arith) memory_map boot_ram
unfolding offered offered_pages usable behind_kernel
memory_map-Bootable = record {
  ascending = memory_map-Ascending;
  enough = omega arith;
  tables = record {
    off = λ i h e. ground (arith, h, e);
    apart = λ i j h h' e. ground (arith, h, h', e);
  };
  dir_off = refl;
  tables_off = λ i h. ground (arith, h);
  kernel = refl;
  own_table = refl;
  own_page = refl;
  own_frame = refl;
  whole = refl;
  room = omega arith;
}

init_memory_manager-Initialized_example :
    (r : Started) × (init_memory_manager linker 4096 memory_map boot_ram ≡ some r)
    × Initialized linker linker-Layout 4096 linker-Low (omega arith) memory_map boot_ram r
init_memory_manager-Initialized_example =
    init_memory_manager-Initialized linker linker-Layout 4096 linker-Low (omega arith) memory_map
      boot_ram memory_map-Bootable

abbrev terminal : Terminal
terminal = record {
  tty = record {
    tty_width = 0;
    tty_height = 0;
    cursor = 0;
    text_attr = 0;
    tty_buffer = λ i. tty_char 32 7;
    tty_io_port = 0;
    ports = [];
  };
  screen_address = 0;
  keyboard = record { key_buffer = λ i. 0; key_buffer_head = 3; key_buffer_tail = 5; ports = [] };
  machine = record {
    idt_address = 0;
    idt = λ i. zero_entry;
    manager = mapped;
    memory = λ x. 0;
    trace = [];
  };
}

abbrev wrapper : Wrapper
wrapper = record {
  handler_wrapper_template = 1000;
  wrapper_size = 12;
  call_handler_offset = 3;
  call_size = 5;
}

mapped-Tables : Tables 1 mapped_frames
mapped-Tables = record {
  off = λ i h e. ground (arith, h, e);
  apart = λ i j h h' e. ground (arith, h, h', e);
}

mapped-Ready : Ready mapped
unfolding add_virt_block place
mapped-Ready = record {
  screen_room = refl;
  area_room = refl;
  screen_page = refl;
  area_page = refl;
  apart = λ e. absurd (omega arith);
  screen_fits = omega arith;
  area_fits = omega arith;
  tables = mapped-Tables;
  screen_table = refl;
  area_table = refl;
}

init_tty-Shown_example :
    (mm : Manager) × (tty : Tty) × (init_tty wrapper 5000 terminal
      ≡ Option.map
          (with_machine wrapper 5000 terminal tty)
          (set_int_handler wrapper 33 8 5000 142 (record terminal.machine { manager = mm })))
    × Shown mapped mm
    × TakesBios (mm.phys.memory 0) terminal.tty tty
init_tty-Shown_example = init_tty-Shown wrapper 5000 terminal mapped-Ready
