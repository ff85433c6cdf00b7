-- ===== src/Startup/User.antt =====
-- The clone of the kernel's directory that `init_memory_manager` makes for user programs.
use sandor_os.AddressSpace.{AddressSpace}
use sandor_os.VirtBlocks.Directory.{del_virt_block-dynamic_memory}
use sandor_os.VirtBlocks.Packed.{Packed, add_virt_block-Packed}
use sandor_os.VirtBlocks.Add.{page}
use sandor_os.VirtBlocks.{add_virt_block}
use sandor_os.VirtPages.{Manager}
use sandor_os.Startup.Directory.{Cloneable, clone_directory-copy}
use sandor_os.Startup.Clone.{clone_directory}
use sandor_os.Startup.Stages.{Booted}
use sandor_os.Paging.Map.{dir, page_of}
use sandor_os.Paging.Entries.{HasTable, entry_of}
use sandor_os.PhysMemory.Blocks.{Block, total, free}
use sandor_os.PhysMemory.{Phys}
use mathlib.Core.Path.{subst}
use sandor_os.Prelude.{
  ℕ, ◌+◌, ◌*◌, ◌/◌, ◌%◌, ◌^◌, ◌<◌, ◌≤◌, ◌≡◌, ap, ◌∙◌, true, some, List, arith, u32, shl, le→ltb,
  ◌≢◌,
}

-- The directory `page_dir` is cloned through a page at `stop`.
abbrev pub Cloned :
    (page_dir : ℕ) (s : Phys) (a : AddressSpace) (xs : List Block) (stop : ℕ) → Type 0
Cloned page_dir s a xs stop =
    (mm : Manager) × (f : ℕ) × (clone_directory page_dir page_dir (record { phys = s; space = a })
      ≡ some (mm, f * 2 ^ 12))
    × (free f xs ≡ true)
    × ((i : ℕ) → i < 1024 → mm.phys.memory f i ≡ s.memory (dir page_dir) i)
    × ((i : ℕ) → mm.phys.memory (dir page_dir) i ≡ s.memory (dir page_dir) i)
    × ((q : ℕ)
        → HasTable (dir page_dir) s.memory (q / 2 ^ 10)
        → q ≢ page_of stop
        → entry_of (dir page_dir) mm.phys.memory q ≡ entry_of (dir page_dir) s.memory q)
    × (mm.space.dynamic_memory ≡ a.dynamic_memory)

module _ (t top stop : ℕ) (a : AddressSpace) (s : Phys) (xs : List Block) where
  abbrev d : ℕ
  d = dir a.page_dir

  pub own-Cloned :
      Packed 3 stop top a
      → a.virt_memory.table_size ≡ 1
      → Booted d t s xs
      → 0 < total xs
      → d * 2 ^ 12 ≡ a.page_dir
      → d < stop / 2 ^ 12
      → stop % 2 ^ 12 ≡ 0
      → stop + page ≤ top
      → stop / 2 ^ 22 ≡ t
      → Cloned a.page_dir s a xs stop
  own-Cloned pk one bt enough whole low at_page room table =
      let fits : stop + 1 * page ≤ top = omega arith in
      let added = add_virt_block-Packed 3 stop top 1 a (omega arith) (omega arith) fits pk in
      let at : (add_virt_block 1 a).1 ≡ stop = ap (λ x. x.1) added in
      let mm0 : Manager = record { phys = s; space = a } in
      let c : Cloneable mm0 xs = record {
        space = bt.space;
        some_free = enough;
        whole = whole;
        low = omega (arith, pk.fits, pk.word);
        own_table = bt.own_table;
        own_page = bt.own_page;
        own_frame = bt.own_frame;
        room =
            le→ltb (shl a.virt_memory.table_size 12) (u32 ((a.virt_memory.block_count + 1) * 8))
              (omega (arith, one, pk.count));
        page = rw at (omega arith);
        apart = λ e. omega (arith, e, at);
        fits = omega (arith, at, pk.fits, pk.word);
        table = subst (HasTable d s.memory) (omega (arith, at, table)) bt.kernel;
      } in
      let (mm, f, e, on, copy, same, others, blocks) = clone_directory-copy mm0 xs c in
      (
        mm,
        f,
        e,
        on,
        copy,
        same,
        (λ q h ne. others q h (λ z. ne (z ∙ ap page_of at))),
        ap (λ x. x.dynamic_memory) blocks
            ∙ (del_virt_block-dynamic_memory (add_virt_block 1 a).1 (add_virt_block 1 a).0
                ∙ ap (λ x. x.0.dynamic_memory) added),
      )
