-- ===== src/KernelHeap.antt =====
-- The kernel heap of kernel/memory_manager.c: `kmalloc`, from where its table has room for one more
-- block on, and `kfree`, on the current address space. Sizes are in bytes.
pub mod Malloc
pub mod Free
pub mod Kmalloc
mod Tests
use sandor_os.Prelude.{
  ℕ, zero, suc, ◌+◌, ◌-◌, ◌*◌, ◌^◌, Bool, true, false, ltb, leb, ◌==◌, if◌then◌else◌, u32, sub32,
  shl,
}
use sandor_os.Table.{Entry, entry, Entries, place, remove}
use sandor_os.AddressSpace.{DynamicMemory}

-- The test on the size of the table, whose blocks have 8 bytes each.
pub table_full : DynamicMemory → Bool
table_full d = ltb (shl d.table_size 12) (u32 ((d.block_count + 1) * 8))

-- The address behind a block with `size` more bytes.
abbrev pub end_with : Entry → ℕ → ℕ
end_with b size = u32 (b.base + (b.size + size))

-- The address behind the heap.
abbrev pub heap_end : DynamicMemory → ℕ
heap_end d = u32 (d.heap + shl d.heap_size 12)

-- A new block of `size` bytes at `base`, as the entry at `k`; `n` entries from there on are moved.
placed : (k n base size : ℕ) → DynamicMemory → DynamicMemory × ℕ
placed k n base size d = (
  record d {
    block_count = u32 (d.block_count + 1);
    entries = place k n (entry base size) d.entries;
  },
  base,
)

-- The loop over the gaps behind the entries from `i` on, and what follows it. NULL is 0.
malloc_loop : (rounds i size : ℕ) → DynamicMemory → DynamicMemory × ℕ
unfolding placed
malloc_loop zero i size d =
    let cur = d.entries i in
    if ltb (heap_end d) (end_with cur size)
    then (d, 0)
    else placed (i + 1) 0 (u32 (cur.base + cur.size)) size d
malloc_loop (suc rounds) i size d =
    let cur = d.entries i in
    let rest = malloc_loop rounds (i + 1) size d in
    if leb (end_with cur size) (d.entries (i + 1)).base
    then placed (i + 1) (d.block_count - i) (u32 (cur.base + cur.size)) size d
    else rest

-- `kmalloc` behind the growth of its table.
pub kmalloc_block : ℕ → DynamicMemory → DynamicMemory × ℕ
unfolding malloc_loop placed
kmalloc_block size d =
    if d.block_count == 0
    then placed 0 0 d.heap size d
    else if leb (u32 (d.heap + size)) (d.entries 0).base
    then placed 0 d.block_count (sub32 (d.entries 0).base size) size d
    else malloc_loop (sub32 d.block_count 1) 0 size d

-- The loop of `kfree` counts `i` up and compares the first block each time.
free_loop : (rounds i ptr : ℕ) → DynamicMemory → DynamicMemory × Bool
free_loop zero i ptr d = (d, false)
free_loop (suc rounds) i ptr d =
    let rest = free_loop rounds (i + 1) ptr d in
    if (d.entries 0).base == ptr
    then (
      record d {
        block_count = d.block_count - 1;
        entries = remove 0 (d.block_count - i) d.entries;
      },
      true,
    )
    else rest

pub kfree : ℕ → DynamicMemory → DynamicMemory × Bool
unfolding free_loop
kfree ptr d = free_loop d.block_count 0 ptr d
