-- ===== src/VirtPages/Taken.antt =====
-- `alloc_virt_pages` without a physical address.
use sandor_os.PhysMemory.Blocks.{Block, total}
use sandor_os.Paging.Space.{Space}
use sandor_os.VirtPages.Fresh.{Fresh, map_fresh-Fresh}
use sandor_os.VirtPages.Given.{block_for}
use sandor_os.AddressSpace.{AddressSpace}
use sandor_os.VirtPages.{Manager, table_full, alloc_virt_pages, alloc_pages}
use sandor_os.Paging.Map.{dir, page_of}
use sandor_os.PhysMemory.{Phys}
use mathlib.Core.Path.{subst}
use sandor_os.Prelude.{
  ℕ, ◌+◌, ◌*◌, ◌%◌, ◌^◌, ◌<◌, ◌≤◌, ◌≡◌, ap, false, some, List, arith, minus_one,
}
use mathlib.Core.Option

module _ (mm : Manager) (vaddr count flags : ℕ) (small : flags < 2 ^ 12) (xs : List Block) where
  abbrev at : ℕ
  at = (block_for vaddr count mm.space).1

  abbrev space : AddressSpace
  space = (block_for vaddr count mm.space).0

  -- Where the table of blocks has room, the page allocator and the page tables are well formed,
  -- twice as many pages are free as are asked for, the flags are below 2^12, and the pages are
  -- whole and within the 32-bit addresses: `alloc_virt_pages` without a physical address ends and
  -- returns the given address or, for NULL, the one of `add_virt_block`; each page is mapped, with
  -- the flags, to a frame of its own, which was free, is no longer and is no page table, in a new
  -- table where the directory had none; the pages of the tables from before that are not asked for
  -- are mapped as before, and the page allocator and the page tables are well formed.
  pub alloc_virt_pages-Fresh :
      table_full mm.space.virt_memory ≡ false
      → Space (dir space.page_dir) mm.phys xs
      → 2 * count ≤ total xs
      → at % 2 ^ 12 ≡ 0
      → at + count * 2 ^ 12 ≤ 2 ^ 32
      → (s' : Phys) × (ys : List Block) × (alloc_virt_pages vaddr minus_one count flags mm
          ≡ some (record { phys = s'; space = space }, at))
        × Fresh space.page_dir flags small (page_of at) count mm.phys.memory xs s' ys
  unfolding alloc_virt_pages alloc_pages Option.bind
  alloc_virt_pages-Fresh room sp enough whole fits =
      let (s', ys, e, fresh) =
        map_fresh-Fresh space.page_dir flags small count at 0 mm.phys xs sp enough whole
          (omega arith) in
      (
        s',
        ys,
        rw room (ap (Option.map (λ s. (record { phys = s; space = space }, at))) e),
        subst (λ q. Fresh space.page_dir flags small q count mm.phys.memory xs s' ys) (omega arith)
            fresh,
      )
