-- ===== src/KernelHeap/Kmalloc.antt =====
-- `kmalloc` of kernel/memory_manager.c with the growth of its table, and `kfree`, on the memory
-- manager.
use sandor_os.Prelude.{
  ℕ, ◌+◌, ◌*◌, ◌%◌, ◌^◌, ◌<◌, ◌≤◌, ◌≡◌, refl, Bool, true, false, Option, some, arith, ◌==◌,
  if◌then◌else◌, u32, le→ltb, minus_one,
}
use mathlib.Core.Option
use sandor_os.AddressSpace.{DynamicMemory}
use sandor_os.VirtPages.{Manager, entry_at, copied, alloc_virt_pages, free_virt_pages}
use sandor_os.KernelHeap
use sandor_os.KernelHeap.{table_full, kmalloc_block, malloc_loop, placed}

abbrev pub heap_of : Manager → DynamicMemory
heap_of mm = mm.space.dynamic_memory

abbrev pub with_heap : DynamicMemory → Manager → Manager
with_heap d mm = record mm { space = record mm.space { dynamic_memory = d } }

-- The table of `old` at the new address with one more page; a page holds 512 entries.
unfoldable pub moved_table : (old : DynamicMemory) (new_table : ℕ) → Manager → Manager
moved_table old new_table mm =
    with_heap
      (record (heap_of mm) {
        blocks = new_table;
        table_size = u32 (old.table_size + 1);
        entries =
            copied (old.table_size * 512) old.entries
              (entry_at mm.space.page_dir new_table mm.phys);
      })
      mm

-- The growth of the table, which is over without success when there are no pages for it.
unfoldable pub grow_heap_table : Manager → Option (Manager × Bool)
unfolding moved_table
grow_heap_table mm =
    let old = heap_of mm in
    Option.bind (alloc_virt_pages 0 minus_one (u32 (old.table_size + 1)) 4095 mm)
      (λ (mm1, new_table).
        if new_table == 0
        then some (mm1, false)
        else Option.map (λ r. (r.0, true))
            (free_virt_pages old.blocks (moved_table old new_table mm1)))

-- `kmalloc` behind the growth of the table.
unfoldable pub kmalloc_entry : (size : ℕ) → Manager × Bool → Manager × ℕ
kmalloc_entry size (mm, true) =
    let (d, ptr) = kmalloc_block size (heap_of mm) in (with_heap d mm, ptr)
kmalloc_entry size (mm, false) = (mm, 0)

unfoldable pub kmalloc : (size : ℕ) → Manager → Option (Manager × ℕ)
unfolding grow_heap_table kmalloc_entry
kmalloc size mm =
    Option.map (kmalloc_entry size)
      (if table_full (heap_of mm) then grow_heap_table mm else some (mm, true))

unfoldable pub kfree : (ptr : ℕ) → Manager → Manager × Bool
kfree ptr mm = let (d, freed) = KernelHeap.kfree ptr (heap_of mm) in (with_heap d mm, freed)

-- The first block of a heap is at its start.
pub kmalloc-first :
    (size : ℕ) (mm : Manager)
    → (heap_of mm).block_count ≡ 0
    → 8 ≤ (heap_of mm).table_size * 4096
    → (heap_of mm).table_size * 4096 < 2 ^ 32
    → kmalloc size mm ≡ some (with_heap (kmalloc_block size (heap_of mm)).0 mm, (heap_of mm).heap)
unfolding kmalloc kmalloc_entry kmalloc_block malloc_loop placed table_full
kmalloc-first size mm empty room small =
    rw (empty, le→ltb ((heap_of mm).table_size * 4096 % 2 ^ 32) (u32 ((0 + 1) * 8)) (omega arith))
      refl
