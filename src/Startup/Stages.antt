-- ===== src/Startup/Stages.antt =====
-- The steps by which `init_memory_manager` takes pages for the kernel, on well-formed page tables.
use sandor_os.VirtPages.{entry_at}
use sandor_os.Table.{Entries, entry}
use sandor_os.Startup.Spaces.{init_virt_memory, map_temp_page, kernel_space}
use sandor_os.Startup.Layout.{Layout, temp_page_address-eq}
use sandor_os.Startup.{Linker, temp_page_address}
use sandor_os.Paging.Rounds.{map_page-Entered}
use sandor_os.Paging.Space.{Space, Took, took-dir, took-entry, took-Space, alloc-Took, IsRing-temp}
use sandor_os.Paging.Map.{dir, page_of}
use sandor_os.Paging.Entries.{HasTable, entry_of}
use sandor_os.Paging.{map_pages, continue_map}
use sandor_os.PhysMemory.Blocks.{Block, total}
use sandor_os.PhysMemory.{Phys, page_size, temp_map_page}
use mathlib.Core.Path.{subst}
use sandor_os.Prelude.{
  ℕ, ◌+◌, ◌*◌, ◌/◌, ◌%◌, ◌^◌, ◌<◌, ◌≤◌, ◌≡◌, refl, true, some, List, arith, ◌≢◌,
}
use mathlib.Core.Option

-- The page allocator and the page tables are well formed, the directory, in frame `d`, has the
-- kernel's table, with index `t`, and the page with the number of its own frame shows it.
pub record Booted (d t : ℕ) (s : Phys) (xs : List Block) : Type 0 where
  pub space : Space d s xs
  pub kernel : HasTable d s.memory t
  pub own_table : HasTable d s.memory (d / 2 ^ 10)
  pub own_page : entry_of d s.memory d % 2 ≡ 1
  pub own_frame : entry_of d s.memory d / 2 ^ 12 ≡ d

module _ (d t : ℕ) (s s' : Phys) (xs ys : List Block) (bt : Booted d t s xs) where
  -- Steps that keep the own page and the kernel's table.
  pub Booted-kept :
      Space d s' ys
      → HasTable d s'.memory t
      → HasTable d s'.memory (d / 2 ^ 10) × (entry_of d s'.memory d ≡ entry_of d s.memory d)
      → Booted d t s' ys
  Booted-kept sp kernel (own, same) = record {
    space = sp;
    kernel = kernel;
    own_table = own;
    own_page = rw same bt.own_page;
    own_frame = rw same bt.own_frame;
  }

  Booted-alloc : (f : ℕ) → Took s.memory xs f s' ys → Booted d t s' ys
  Booted-alloc f took =
      let same = took-dir d f s s' xs ys bt.space took in
      Booted-kept (took-Space d f s s' xs ys bt.space took) (rw (same t) bt.kernel) (
        rw (same (d / 2 ^ 10)) bt.own_table,
        took-entry d f s s' xs ys bt.space took d bt.own_table,
      )

module _ (page_dir t : ℕ) where
  abbrev d : ℕ
  d = dir page_dir

  -- One page of the kernel's table is mapped.
  map_pages-Booted :
      (vaddr paddr flags : ℕ) (s : Phys) (xs : List Block)
      → flags < 2 ^ 12
      → Booted d t s xs
      → 0 < total xs
      → page_of vaddr / 2 ^ 10 ≡ t
      → d ≢ page_of vaddr
      → (s' : Phys) × (ys : List Block) × (map_pages page_dir vaddr paddr 1 flags s
          ≡ some (s', true))
        × Booted d t s' ys
        × (total xs ≤ total ys + 1)
  unfolding map_pages continue_map Option.bind
  map_pages-Booted vaddr paddr flags s xs small bt enough table ne =
      let (s', ys, e, entered) =
        map_page-Entered page_dir vaddr paddr flags s xs small bt.space enough in
      (
        s',
        ys,
        rw e refl,
        Booted-kept d t s s' xs ys bt entered.space (subst (HasTable d s'.memory) table entered.has)
            (entered.kept d bt.own_table ne),
        entered.spent,
      )

  Booted-temp :
      (s : Phys) (xs : List Block) (temp : ℕ)
      → Booted d t s xs
      → Booted d t (record s { temp_page = temp }) xs
  Booted-temp s xs temp bt = record {
    space = record {
      ring = IsRing-temp s xs temp bt.space.ring;
      tables = bt.space.tables;
      dir_used = bt.space.dir_used;
      used = bt.space.used;
    };
    kernel = bt.kernel;
    own_table = bt.own_table;
    own_page = bt.own_page;
    own_frame = bt.own_frame;
  }

module _ (l : Linker) (lay : Layout l) (page_dir : ℕ) where
  abbrev pub table : ℕ
  table = l.kernel_base_vma / 2 ^ 22

  -- The directory's frame is below the kernel's pages.
  abbrev pub Low : Type 0
  Low = dir page_dir < l.kernel_base_vma / 2 ^ 12

  pub init_virt_memory-Booted :
      (s : Phys) (xs : List Block)
      → Low
      → Booted (dir page_dir) table s xs
      → 3 ≤ total xs
      → (s' : Phys) × (ys : List Block) × (entries : Entries) × (init_virt_memory l page_dir s
          ≡ some (record { phys = s'; space = kernel_space l page_dir entries }))
        × Booted (dir page_dir) table s' ys
        × (total xs ≤ total ys + 3)
  unfolding init_virt_memory map_temp_page temp_map_page Option.bind
  init_virt_memory-Booted s xs low bt enough =
      let d = dir page_dir in
      let (s1, f, ys1, e1, took) = alloc-Took s xs bt.space.ring (omega arith) in
      let (s2, ys2, e2, bt2, spent2) =
        map_pages-Booted page_dir table l.kernel_virt_block_table (f * page_size) 4095 s1 ys1
          (omega arith) (Booted-alloc d table s s1 xs ys1 bt f took) (omega (arith, took.counted))
          (omega (arith, lay.at_table, lay.behind, lay.below))
          (λ e. omega (arith, low, lay.behind, e)) in
      let at = temp_page_address-eq l page_dir (λ i. entry 0 0) lay in
      let (s3, ys3, e3, bt3, spent3) =
        map_pages-Booted page_dir table (temp_page_address l) 0 4095 s2 ys2 (omega arith) bt2
          (omega (arith, took.counted, spent2)) (rw at (omega (arith, lay.at_table)))
          (λ e. omega (arith, low, e, at)) in
      (
        record s3 { temp_page = 0 },
        ys3,
        entry_at page_dir l.kernel_virt_block_table (record s3 { temp_page = 0 }),
        rw (e1, e2, e3) refl,
        Booted-temp page_dir table s3 ys3 0 bt3,
        omega (arith, took.counted, spent2, spent3),
      )
