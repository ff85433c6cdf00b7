-- ===== src/VirtPages/Tests.antt =====
-- The theorem on `alloc_virt_pages` at a directory in frame 1 whose table 0 is in frame 2.
use sandor_os.PhysMemory.Blocks.{Block, block}
use sandor_os.Paging.Space.{Space}
use sandor_os.VirtPages.Fresh.{Fresh}
use sandor_os.VirtPages.Taken.{alloc_virt_pages-Fresh}
use sandor_os.Prelude.{
  ℕ, zero, suc, ◌+◌, ◌*◌, ◌/◌, ◌^◌, ◌≡◌, refl, ◌&&◌, some, arith, ◌==◌, if◌then◌else◌, List, [],
  ◌∷◌, minus_one,
}
use sandor_os.Table.{entry}
use sandor_os.AddressSpace.{AddressSpace}
use sandor_os.PhysMemory.{Phys}
use sandor_os.Paging.{get_physaddr}
use sandor_os.Paging.Entries.{HasTable, Tables}
use sandor_os.Paging.Map.{Covered}
use sandor_os.VirtPages.{Manager, alloc_virt_pages}
use sandor_os.VirtPages.Given.{get_physaddr-alloc_virt_pages}

abbrev start : Phys
start = record {
  memory = λ f i. if (f == 1) && (i == 0) then 8199 else 0;
  temp_page = 0;
  free_page_count = 0;
  free_phys_memory_pointer = 0;
}

abbrev space : AddressSpace
space = record {
  page_dir = 4096;
  start = 4096;
  end = 65536;
  virt_memory = record {
    block_count = 1;
    blocks = 4096;
    entries = λ i. entry 4096 2;
    table_size = 1;
  };
  dynamic_memory = record {
    block_count = 0;
    blocks = 0;
    entries = λ i. entry 0 0;
    table_size = 1;
    heap = 0;
    heap_size = 0;
  };
}

abbrev manager : Manager
manager = record { phys = start; space = space }

only_table : (i : ℕ) → HasTable 1 start.memory i → i ≡ 0
only_table zero h = refl
only_table (suc i) h = grind (arith, h)

start-Tables : Tables 1 start.memory
start-Tables = record {
  off = λ i h e. let z : i ≡ 0 = only_table i h in ground arith;
  apart = λ i j h h' e. omega (arith, only_table i h, only_table j h');
}

start-Covered : Covered 4096 3 2 start.memory
start-Covered k lt = let z : (3 + k) / 2 ^ 10 ≡ 0 = omega arith in rw z refl

get_physaddr-alloc_virt_pages_example :
    (s : Phys) × (alloc_virt_pages 12288 40960 2 4095 manager
      ≡ some (record { phys = s; space = space }, 12288))
    × ((get_physaddr 4096 ((3 + 1) * 2 ^ 12 + 5) s).1 ≡ (10 + 1) * 2 ^ 12 + 5)
get_physaddr-alloc_virt_pages_example =
    get_physaddr-alloc_virt_pages manager 12288 40960 2 4095 refl (omega arith) start-Tables
      start-Covered (omega arith) (omega arith) 1 5 (omega arith) (omega arith)

-- The same with ten free pages from frame 300 on.
abbrev with_ring : Manager
with_ring = record {
  phys = record {
    memory = λ f i. if f == 300 then (if i == 2 then 10 else 1228800) else start.memory f i;
    temp_page = 0;
    free_page_count = 10;
    free_phys_memory_pointer = 1228800;
  };
  space = space;
}

with_ring-Space : Space 1 with_ring.phys (block 300 10 ∷ [])
with_ring-Space = record {
  ring = record {
    cycle = (refl, refl, refl, tt);
    pointer = refl;
    order = (omega arith, omega arith, tt);
    counted = refl;
  };
  tables = record { off = start-Tables.off; apart = start-Tables.apart };
  dir_used = refl;
  used = λ i h. let z : i ≡ 0 = only_table i h in rw z refl;
}

-- Two pages whose table the directory lacks.
alloc_virt_pages-Fresh_example :
    (s : Phys) × (ys : List Block) × (alloc_virt_pages 12582912 minus_one 2 4095 with_ring
      ≡ some (record { phys = s; space = space }, 12582912))
    × Fresh 4096 4095 (omega arith) 3072 2 with_ring.phys.memory (block 300 10 ∷ []) s ys
alloc_virt_pages-Fresh_example =
    alloc_virt_pages-Fresh with_ring 12582912 2 4095 (omega arith) (block 300 10 ∷ []) refl
      with_ring-Space (omega arith) refl (omega arith)
