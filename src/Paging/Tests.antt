-- ===== src/Paging/Tests.antt =====
-- The theorems on page tables at a directory in frame 1 whose table 0 is in frame 2.
use sandor_os.Prelude.{
  ℕ, zero, suc, ◌+◌, ◌*◌, ◌/◌, ◌^◌, ◌≡◌, refl, some, true, arith, ◌&&◌, ◌==◌, if◌then◌else◌,
}
use sandor_os.PhysMemory.{Phys}
use sandor_os.Paging.{map_pages, get_physaddr, unmap_pages}
use sandor_os.Paging.Entries.{HasTable, Tables}
use sandor_os.Paging.Map.{Mapped, Covered, get_physaddr-map_pages, unmap_pages-Mapped}

abbrev start : Phys
start = record {
  memory = λ f i. if (f == 1) && (i == 0) then 8199 else 0;
  temp_page = 0;
  free_page_count = 0;
  free_phys_memory_pointer = 0;
}

only_table : (i : ℕ) → HasTable 1 start.memory i → i ≡ 0
only_table zero h = refl
only_table (suc i) h = grind (arith, h)

start-Tables : Tables 1 start.memory
start-Tables = record {
  off = λ i h e. let z : i ≡ 0 = only_table i h in ground arith;
  apart = λ i j h h' e. omega (arith, only_table i h, only_table j h');
}

start-Covered : Covered 4096 3 2 start.memory
start-Covered k lt = let z : (3 + k) / 2 ^ 10 ≡ 0 = omega arith in rw z refl

get_physaddr-map_pages_example :
    (s : Phys) × (map_pages 4096 12288 40960 2 4095 start ≡ some (s, true))
    × ((get_physaddr 4096 ((3 + 1) * 2 ^ 12 + 5) s).1 ≡ (10 + 1) * 2 ^ 12 + 5)
get_physaddr-map_pages_example =
    get_physaddr-map_pages 4096 4095 (omega arith) 2 12288 40960 start start-Tables start-Covered
      (omega arith) (omega arith) 1 5 (omega arith) (omega arith)

unmap_pages-Mapped_example :
    ((unmap_pages 4096 12288 2 start).1 ≡ true)
    × Mapped 4096 3 2 (λ k. 0) start (unmap_pages 4096 12288 2 start).0
unmap_pages-Mapped_example =
    unmap_pages-Mapped 4096 2 12288 start start-Tables start-Covered (omega arith)
