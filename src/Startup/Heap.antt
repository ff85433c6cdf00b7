-- ===== src/Startup/Heap.antt =====
-- The pages of the kernel heap, which `init_memory_manager` takes one after the other.
use sandor_os.Startup.Spaces.{init_heap_table, init_heap}
use sandor_os.AddressSpace.{AddressSpace, DynamicMemory}
use sandor_os.VirtBlocks.Packed.{Packed, grown, grown-Packed, add_virt_block-Packed}
use sandor_os.VirtBlocks.Add.{page}
use sandor_os.VirtBlocks.{add_virt_block}
use sandor_os.VirtPages.Taken.{alloc_virt_pages-Fresh}
use sandor_os.VirtPages.Fresh.{Fresh}
use sandor_os.VirtPages.{table_full, alloc_virt_pages, entry_at}
use sandor_os.Startup.Stages.{Booted, Booted-kept, Low, table}
use sandor_os.Startup.Layout.{Layout}
use sandor_os.Startup.{Linker}
use sandor_os.Paging.Space.{Space}
use sandor_os.Paging.Map.{dir, page_of}
use sandor_os.Paging.Entries.{HasTable}
use sandor_os.PhysMemory.Blocks.{Block, total}
use sandor_os.PhysMemory.{Phys}
use mathlib.Core.Path.{subst}
use sandor_os.Prelude.{
  ℕ, suc, ◌+◌, ◌*◌, ◌%◌, ◌^◌, ◌<◌, ◌≤◌, ◌≡◌, refl, sym, ap, ◌∙◌, inl, false, some, List, arith, u32,
  shl, le→ltb, minus_one,
}

module _ (l : Linker) (lay : Layout l) (page_dir : ℕ) (low : Low l lay page_dir)
    (small : 4095 < 2 ^ 12) where
  abbrev d : ℕ
  d = dir page_dir

  abbrev top : ℕ
  top = l.kernel_base_vma + 1023 * 2 ^ 12

  abbrev t : ℕ
  t = table l lay page_dir

  -- The kernel's address space, whose blocks follow each other up to `stop`.
  pub record Placed (k stop : ℕ) (a : AddressSpace) : Type 0 where
    pub packed : Packed k stop top a
    pub dir_eq : a.page_dir ≡ page_dir
    pub one_page : a.virt_memory.table_size ≡ 1

  Placed-dynamic :
      (k stop : ℕ) (a : AddressSpace) (dm : DynamicMemory)
      → Placed k stop a
      → Placed k stop (record a { dynamic_memory = dm })
  Placed-dynamic k stop a dm pl = record {
    packed = record {
      count = pl.packed.count;
      first = pl.packed.first;
      pages = pl.packed.pages;
      steps = pl.packed.steps;
      stops = pl.packed.stops;
      last = pl.packed.last;
      fits = pl.packed.fits;
      word = pl.packed.word;
    };
    dir_eq = pl.dir_eq;
    one_page = pl.one_page;
  }

  module _ (k stop size : ℕ) (a : AddressSpace) (few : k < 400) (pos : 0 < size)
      (room : stop + size * page ≤ top) (whole : stop % 2 ^ 12 ≡ 0)
      (above : l.kernel_base_vma ≤ stop) (pl : Placed k stop a) where
    abbrev next : AddressSpace
    next = grown k stop top size a (omega arith) pos room pl.packed

    next-Placed : Placed (suc k) (stop + size * page) next
    next-Placed = record {
      packed = grown-Packed k stop top size a (omega arith) pos room pl.packed;
      dir_eq = pl.dir_eq;
      one_page = pl.one_page;
    }

    table_room : table_full a.virt_memory ≡ false
    table_room =
        le→ltb (shl a.virt_memory.table_size 12) (u32 ((a.virt_memory.block_count + 1) * 8))
          (omega (arith, pl.one_page, pl.packed.count, few))

    -- What `alloc_virt_pages` finds, where `add_virt_block` returns `r`.
    taken :
        (r : AddressSpace × ℕ) (s : Phys) (xs : List Block)
        → add_virt_block size a ≡ r
        → r.0.page_dir ≡ page_dir
        → r.1 % 2 ^ 12 ≡ 0
        → r.1 + size * 2 ^ 12 ≤ 2 ^ 32
        → Space d s xs
        → 2 * size ≤ total xs
        → (s' : Phys) × (ys : List Block) × (alloc_virt_pages 0 minus_one size 4095
              (record { phys = s; space = a })
            ≡ some (record { phys = s'; space = r.0 }, r.1))
          × Fresh page_dir 4095 small (page_of r.1) size s.memory xs s' ys
    taken r s xs added dir_eq at_page fits sp enough =
        let same : (add_virt_block size a).0.page_dir ≡ page_dir =
          ap (λ x. x.0.page_dir) added ∙ dir_eq in
        let at : (add_virt_block size a).1 ≡ r.1 = ap (λ x. x.1) added in
        let (s', ys, e, fresh) =
          alloc_virt_pages-Fresh (record { phys = s; space = a }) 0 size 4095 small xs table_room
            (subst (λ p. Space (dir p) s xs) (sym same) sp) enough (omega (arith, at, at_page))
            (omega (arith, at, fits)) in
        (
          s',
          ys,
          e ∙ ap (λ x. some (record { phys = s'; space = x.0 }, x.1)) added,
          subst (λ v. Fresh page_dir 4095 small (page_of v) size s.memory xs s' ys) at
              (subst
                (λ p. Fresh p 4095 small (page_of (add_virt_block size a).1) size s.memory xs s' ys)
                same fresh),
        )

    -- Pages that `alloc_virt_pages` takes for the kernel.
    pub alloc_kernel :
        (s : Phys) (xs : List Block)
        → Booted d t s xs
        → 2 * size ≤ total xs
        → (s' : Phys) × (ys : List Block) × (alloc_virt_pages 0 minus_one size 4095
              (record { phys = s; space = a })
            ≡ some (record { phys = s'; space = next }, stop))
          × Booted d t s' ys
          × Fresh page_dir 4095 small (page_of stop) size s.memory xs s' ys
    alloc_kernel s xs bt enough =
        let (s', ys, e, fresh) =
          taken (next, stop) s xs
            (add_virt_block-Packed k stop top size a (omega arith) pos room pl.packed) pl.dir_eq
            whole (omega (arith, room, lay.ends, lay.word)) bt.space enough in
        (
          s',
          ys,
          e,
          Booted-kept d t s s' xs ys bt fresh.space
              (subst (HasTable d s'.memory) (omega (arith, room, above, pos, lay.at_table))
                (fresh.has 0 pos))
              (fresh.outside d bt.own_table (inl (omega (arith, low, above)))),
          fresh,
        )

  -- The page of the table of the heap's blocks.
  pub init_heap_table-Placed :
      (stop : ℕ) (a : AddressSpace) (s : Phys) (xs : List Block)
      → Placed 1 stop a
      → stop + page ≤ top
      → stop % 2 ^ 12 ≡ 0
      → l.kernel_base_vma ≤ stop
      → Booted d t s xs
      → 2 ≤ total xs
      → (s' : Phys) × (ys : List Block) × (a' : AddressSpace) × (init_heap_table
            (record { phys = s; space = a })
          ≡ some (record { phys = s'; space = a' }))
        × Booted d t s' ys
        × Placed 2 (stop + page) a'
        × (a'.dynamic_memory.blocks ≡ stop)
        × (a'.dynamic_memory.block_count ≡ 0)
        × (a'.dynamic_memory.table_size ≡ 1)
        × (total xs ≤ total ys + 2)
  unfolding init_heap_table
  init_heap_table-Placed stop a s xs pl room whole above bt enough =
      let dm : DynamicMemory = record a.dynamic_memory { block_count = 0; table_size = 1 } in
      let a1 : AddressSpace = record a { dynamic_memory = dm } in
      let pl1 = Placed-dynamic 1 stop a dm pl in
      let one : stop + 1 * page ≤ top = omega arith in
      let (s', ys, e, bt', fresh) =
        alloc_kernel 1 stop 1 a1 (omega arith) (omega arith) one whole above pl1 s xs bt
          (omega arith) in
      let a2 = next 1 stop 1 a1 (omega arith) (omega arith) one whole above pl1 in
      let dm2 : DynamicMemory = record dm {
        blocks = stop;
        entries = entry_at a.page_dir stop s';
      } in
      (
        s',
        ys,
        record a2 { dynamic_memory = dm2 },
        rw e refl,
        bt',
        Placed-dynamic 2 (stop + page) a2 dm2 (
            subst (λ z. Placed 2 z a2) (omega arith)
              (next-Placed 1 stop 1 a1 (omega arith) (omega arith) one whole above pl1)),
        refl,
        refl,
        refl,
        omega (arith, fresh.spent),
      )

  -- The ten pages of the heap.
  pub init_heap-Placed :
      (stop : ℕ) (a : AddressSpace) (s : Phys) (xs : List Block)
      → Placed 2 stop a
      → stop + 10 * page ≤ top
      → stop % 2 ^ 12 ≡ 0
      → l.kernel_base_vma ≤ stop
      → Booted d t s xs
      → 20 ≤ total xs
      → (s' : Phys) × (ys : List Block) × (a' : AddressSpace) × (init_heap
            (record { phys = s; space = a })
          ≡ some (record { phys = s'; space = a' }))
        × Booted d t s' ys
        × Placed 3 (stop + 10 * page) a'
        × (a'.dynamic_memory ≡ record a.dynamic_memory { heap = stop; heap_size = 10 })
        × Fresh page_dir 4095 small (page_of stop) 10 s.memory xs s' ys
  unfolding init_heap
  init_heap-Placed stop a s xs pl room whole above bt enough =
      let dm : DynamicMemory = record a.dynamic_memory { heap_size = 10 } in
      let a1 : AddressSpace = record a { dynamic_memory = dm } in
      let pl1 = Placed-dynamic 2 stop a dm pl in
      let (s', ys, e, bt', fresh) =
        alloc_kernel 2 stop 10 a1 (omega arith) (omega arith) room whole above pl1 s xs bt enough in
      let a2 = next 2 stop 10 a1 (omega arith) (omega arith) room whole above pl1 in
      let dm2 : DynamicMemory = record dm { heap = stop } in
      (
        s',
        ys,
        record a2 { dynamic_memory = dm2 },
        rw e refl,
        bt',
        Placed-dynamic 3 (stop + 10 * page) a2 dm2
            (next-Placed 2 stop 10 a1 (omega arith) (omega arith) room whole above pl1),
        refl,
        fresh,
      )
