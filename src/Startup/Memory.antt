-- ===== src/Startup/Memory.antt =====
-- `init_memory_manager` as a whole.
use sandor_os.AddressSpace.{DynamicMemory}
use sandor_os.VirtPages.Fresh.{Fresh}
use sandor_os.Startup.Clone.{clone_directory}
use sandor_os.Table.{Entries}
use sandor_os.VirtBlocks.Add.{page}
use sandor_os.Startup.User.{Cloned, own-Cloned}
use sandor_os.VirtPages.{Manager}
use sandor_os.Startup.Spaces.{
  Started, init_memory_manager, user_space, kernel_space, init_virt_memory, init_heap_table,
  init_heap,
}
use sandor_os.Startup.Heap.{Placed, init_heap_table-Placed, init_heap-Placed}
use sandor_os.Startup.Stages.{Booted, Low, table, init_virt_memory-Booted}
use sandor_os.Startup.Layout.{Layout, kernel_space-Packed}
use sandor_os.Startup.Regions.{
  Ascending, offered, offered_pages, offered_bytes, init_regions-offered,
}
use sandor_os.Startup.{Linker, MmapEntry, Sized, init_regions}
use sandor_os.Paging.Map.{dir, page_of}
use sandor_os.Paging.Entries.{HasTable, entry_of, Tables, table_frame}
use sandor_os.PhysMemory.State.{IsRing}
use sandor_os.PhysMemory.Blocks.{Block, free}
use sandor_os.PhysMemory.{Phys, Frames}
use mathlib.Core.Path.{subst}
use sandor_os.Prelude.{
  ℕ, ◌+◌, ◌*◌, ◌/◌, ◌%◌, ◌^◌, ◌<◌, ◌≤◌, ◌≡◌, refl, sym, ap, ◌∙◌, false, some, List, arith, u32, ◌≢◌,
}
use mathlib.Core.Option

module _ (l : Linker) (lay : Layout l) (page_dir : ℕ) (low : Low l lay page_dir)
    (small : 4095 < 2 ^ 12) (es : List MmapEntry) (p : Phys) where
  abbrev d : ℕ
  d = dir page_dir

  abbrev t : ℕ
  t = table l lay page_dir

  -- Where the start-up code and the boot loader leave the machine: the memory map is in order and has
  -- 26 pages, the directory and its tables are apart, and in no region that is free, the directory has
  -- the kernel's table and shows itself at its own address, and 13 pages behind the kernel are before
  -- TEMP_PAGE.
  pub record Bootable : Type 0 where
    pub ascending : Ascending l 0 es
    pub enough : 26 ≤ offered_pages es
    pub tables : Tables d p.memory
    pub dir_off : offered l d es ≡ false
    pub tables_off :
        (i : ℕ) → HasTable d p.memory i → offered l (table_frame d p.memory i) es ≡ false
    pub kernel : HasTable d p.memory t
    pub own_table : HasTable d p.memory (d / 2 ^ 10)
    pub own_page : entry_of d p.memory d % 2 ≡ 1
    pub own_frame : entry_of d p.memory d / 2 ^ 12 ≡ d
    pub whole : d * 2 ^ 12 ≡ page_dir
    pub room : l.kernel_virt_block_table + 13 * 2 ^ 12 ≤ l.kernel_base_vma + 1023 * 2 ^ 12

  module _ (b : Bootable) (s : Phys) (xs : List Block) (ring : IsRing s xs)
      (free_eq : (f : ℕ) → free f xs ≡ offered l f es)
      (words : (g i : ℕ) → offered l g es ≡ false → s.memory g i ≡ p.memory g i) where
    dir_same : (i : ℕ) → s.memory d i ≡ p.memory d i
    dir_same i = words d i b.dir_off

    own_same : entry_of d s.memory d ≡ entry_of d p.memory d
    own_same =
        ap (λ x. s.memory (x / 2 ^ 12) (d % 2 ^ 10)) (dir_same (d / 2 ^ 10))
        ∙ words (table_frame d p.memory (d / 2 ^ 10)) (d % 2 ^ 10)
            (b.tables_off (d / 2 ^ 10) b.own_table)

    -- The free regions leave the page tables.
    regions-Booted : Booted d t s xs
    regions-Booted = record {
      space = record {
        ring = ring;
        tables = record {
          off = λ i h. rw (dir_same i) (b.tables.off i (rw (dir_same i) at h));
          apart = λ i j h h' e.
              b.tables.apart i j (rw (dir_same i) at h) (rw (dir_same j) at h')
                (rw (dir_same i, dir_same j) at e);
        };
        dir_used = free_eq d ∙ b.dir_off;
        used = λ i h.
            rw (dir_same i)
              (free_eq (table_frame d p.memory i) ∙ b.tables_off i (rw (dir_same i) at h));
      };
      kernel = rw (dir_same t) b.kernel;
      own_table = rw (dir_same (d / 2 ^ 10)) b.own_table;
      own_page = rw own_same b.own_page;
      own_frame = rw own_same b.own_frame;
    }

  kernel_space-Placed :
      (entries : Entries)
      → Placed l lay page_dir low small 1
          (l.kernel_virt_block_table + 2 ^ 12)
          (kernel_space l page_dir entries)
  unfolding kernel_space
  kernel_space-Placed entries = record {
    packed = kernel_space-Packed l page_dir entries lay;
    dir_eq = refl;
    one_page = refl;
  }

  -- What `init_memory_manager` leaves: the heap has ten pages, with a frame for each, behind the page
  -- of its table, which follows that of the blocks, and user programs have a copy of the directory.
  pub record Initialized (r : Started) : Type 0 where
    pub memory_size : r.memory_size ≡ u32 (2 ^ 20 + offered_bytes es)
    pub heap_table : r.manager.space.dynamic_memory.blocks ≡ l.kernel_virt_block_table + 2 ^ 12
    pub heap : r.manager.space.dynamic_memory.heap ≡ l.kernel_virt_block_table + 2 * 2 ^ 12
    pub heap_size : r.manager.space.dynamic_memory.heap_size ≡ 10
    pub heap_blocks : r.manager.space.dynamic_memory.block_count ≡ 0
    pub frames : ℕ → ℕ
    pub heap_pages :
        (k : ℕ)
        → k < 10
        → entry_of d r.manager.phys.memory (page_of l.kernel_virt_block_table + 2 + k)
          ≡ frames k * 2 ^ 12 + 4095
    pub distinct : (j k : ℕ) → j < k → k < 10 → frames j ≢ frames k
    pub user_frame : ℕ
    pub user_dir : r.user_address_space.page_dir ≡ user_frame * 2 ^ 12
    pub user_copy :
        (i : ℕ) → i < 1024 → r.manager.phys.memory user_frame i ≡ r.manager.phys.memory d i
    pub user_heap : r.user_address_space.dynamic_memory ≡ r.manager.space.dynamic_memory

  -- The end of the table of the heap, and that of the heap.
  abbrev heap_at : ℕ
  heap_at = l.kernel_virt_block_table + 2 ^ 12 + page

  abbrev heap_stop : ℕ
  heap_stop = heap_at + 10 * page

  module _ (es' : List MmapEntry) (sized : Sized) (mm : Manager) (f : ℕ) (m : Frames) (s3 : Phys)
      (xs2 ys3 : List Block) (dm2 dm3 : DynamicMemory)
      (aligned : l.kernel_virt_block_table % 2 ^ 12 ≡ 0)
      (fresh : Fresh page_dir 4095 small (page_of heap_at) 10 m xs2 s3 ys3)
      (others : (q : ℕ)
        → HasTable d s3.memory (q / 2 ^ 10)
        → q ≢ page_of heap_stop
        → entry_of d mm.phys.memory q ≡ entry_of d s3.memory q) where
    abbrev started : Started
    started = record {
      memory_map = es';
      memory_size = sized.memory_size;
      manager = mm;
      user_address_space = user_space l (f * 2 ^ 12) mm.space;
    }

    heap_page :
        (k : ℕ)
        → k < 10
        → entry_of d mm.phys.memory (page_of l.kernel_virt_block_table + 2 + k)
          ≡ fresh.frames k * 2 ^ 12 + 4095
    heap_page k lt =
        let q : page_of heap_at + k ≡ page_of l.kernel_virt_block_table + 2 + k = omega arith in
        subst (λ z. entry_of d mm.phys.memory z ≡ fresh.frames k * 2 ^ 12 + 4095) q
          (others (page_of heap_at + k) (fresh.has k lt) (λ z. omega (arith, z, aligned, lt))
            ∙ fresh.inside k lt)

    started-Initialized :
        sized.memory_size ≡ u32 (2 ^ 20 + offered_bytes es)
        → mm.space.dynamic_memory ≡ dm3
        → dm3 ≡ record dm2 { heap = heap_at; heap_size = 10 }
        → dm2.blocks ≡ l.kernel_virt_block_table + 2 ^ 12
        → dm2.block_count ≡ 0
        → ((i : ℕ) → i < 1024 → mm.phys.memory f i ≡ s3.memory d i)
        → ((i : ℕ) → mm.phys.memory d i ≡ s3.memory d i)
        → Initialized started
    unfolding user_space
    started-Initialized size dynamic dm_eq table2 count2 copy same =
        let at : heap_at ≡ l.kernel_virt_block_table + 2 * 2 ^ 12 = omega arith in
        let dm = dynamic ∙ dm_eq in
        record {
          memory_size = size;
          heap_table = ap (λ x. x.blocks) dm ∙ table2;
          heap = ap (λ x. x.heap) dm ∙ at;
          heap_size = ap (λ x. x.heap_size) dm;
          heap_blocks = ap (λ x. x.block_count) dm ∙ count2;
          frames = fresh.frames;
          heap_pages = heap_page;
          distinct = fresh.distinct;
          user_frame = f;
          user_dir = refl;
          user_copy = λ i lt. copy i lt ∙ sym (same i);
          user_heap = refl;
        }

  -- The results of the steps, one after the other.
  steps :
      (es' : List MmapEntry) (sized : Sized) (mm1 mm2 mm3 mm4 : Manager) (clone : ℕ)
      → init_regions l es p ≡ some (es', sized)
      → init_virt_memory l page_dir sized.phys ≡ some mm1
      → init_heap_table mm1 ≡ some mm2
      → init_heap mm2 ≡ some mm3
      → clone_directory page_dir page_dir mm3 ≡ some (mm4, clone)
      → init_memory_manager l page_dir es p
        ≡ some (record {
          memory_map = es';
          memory_size = sized.memory_size;
          manager = mm4;
          user_address_space = user_space l clone mm4.space;
        })
  unfolding init_memory_manager Option.bind
  steps es' sized mm1 mm2 mm3 mm4 clone e0 e1 e2 e3 e4 = rw (e0, e1, e2, e3, e4) refl

  -- Where the kernel is at the places that the linker script gives it, the memory map is in order
  -- and has 26 pages, the directory and its tables are apart and in no usable region, the directory
  -- has the kernel's table and shows itself at its own address, which is below the kernel, and 13
  -- pages behind the kernel are before TEMP_PAGE: `init_memory_manager` ends; the page of the
  -- heap's table follows that of the blocks, the ten pages of the heap follow it and are mapped to
  -- ten frames, all different, the heap has no blocks, `memory_size` is a megabyte and the bytes of
  -- the usable regions, and the address space of user programs has a copy of the kernel's directory
  -- and the same heap.
  pub init_memory_manager-Initialized :
      Bootable → (r : Started) × (init_memory_manager l page_dir es p ≡ some r) × Initialized r
  init_memory_manager-Initialized b =
      let (es', sized, xs, e0, ring, free_eq, size, pages, words) =
        init_regions-offered l es p b.ascending in
      let bt0 = regions-Booted b sized.phys xs ring free_eq words in
      let (s1, ys1, entries, e1, bt1, spent1) =
        init_virt_memory-Booted l lay page_dir sized.phys xs low bt0
          (omega (arith, pages, b.enough)) in
      let stop1 = l.kernel_virt_block_table + 2 ^ 12 in
      let pl1 = kernel_space-Placed entries in
      let at_page : stop1 % 2 ^ 12 ≡ 0 = omega (arith, lay.behind, lay.at_table, lay.pages) in
      let (s2, ys2, a2, e2, bt2, pl2, table2, count2, one2, spent2) =
        init_heap_table-Placed l lay page_dir low small stop1 (kernel_space l page_dir entries) s1
          ys1 pl1 (omega (arith, b.room)) at_page (omega (arith, lay.behind)) bt1
          (omega (arith, pages, b.enough, spent1)) in
      let (s3, ys3, a3, e3, bt3, pl3, dm3, fresh) =
        init_heap-Placed l lay page_dir low small (stop1 + page) a2 s2 ys2 pl2
          (omega (arith, b.room)) (omega arith) (omega (arith, lay.behind)) bt2
          (omega (arith, pages, b.enough, spent1, spent2)) in
      let stop3 = stop1 + page + 10 * page in
      let cloned : Cloned page_dir s3 a3 ys3 stop3 =
        subst (λ z. Cloned z s3 a3 ys3 stop3) {x = a3.page_dir} {y = page_dir} pl3.dir_eq
          (own-Cloned t (l.kernel_base_vma + 1023 * 2 ^ 12) stop3 a3 s3 ys3 pl3.packed pl3.one_page
            (subst (λ z. Booted (dir z) t s3 ys3) {x = page_dir} {y = a3.page_dir} (sym pl3.dir_eq)
              bt3)
            (omega (arith, pages, b.enough, spent1, spent2, fresh.spent))
            (omega (arith, pl3.dir_eq, b.whole)) (omega (arith, pl3.dir_eq, low, lay.behind))
            (omega arith) (omega (arith, b.room))
            (omega (arith, lay.behind, lay.at_table, b.room))) in
      let (mm, f, e4, on, copy, same, others, dynamic) = cloned in
      (
        started es' sized mm f s2.memory s3 ys2 ys3 a2.dynamic_memory a3.dynamic_memory
            (omega (arith, at_page)) fresh others,
        steps es' sized (record { phys = s1; space = kernel_space l page_dir entries })
            (record { phys = s2; space = a2 }) (record { phys = s3; space = a3 }) mm (f * 2 ^ 12) e0
            e1 e2 e3 e4,
        started-Initialized es' sized mm f s2.memory s3 ys2 ys3 a2.dynamic_memory a3.dynamic_memory
            (omega (arith, at_page)) fresh others size dynamic dm3 table2 count2 copy same,
      )
