-- ===== src/VirtBlocks.antt =====
-- The table of virtual blocks: `add_virt_block` and `del_virt_block` of kernel/memory_manager.c, on
-- the current address space. Sizes are in pages.
pub mod Add
pub mod Delete
pub mod Directory
pub mod Packed
mod Tests
use sandor_os.Prelude.{ℕ, zero, suc, ◌+◌, ◌-◌, ◌^◌, ltb, leb, ◌==◌, if◌then◌else◌, u32, sub32, shl}
use sandor_os.Table.{Entry, entry, Entries, place, remove}
use sandor_os.AddressSpace.{VirtMemory, AddressSpace}

-- The address behind a block with `size` more pages.
abbrev pub end_with : Entry → ℕ → ℕ
end_with b size = u32 (b.base + shl (u32 (b.size + size)) 12)

-- The block's own end.
abbrev pub block_end : Entry → ℕ
block_end b = u32 (b.base + shl b.size 12)

-- A new block of `size` pages at `base`, as the entry at `k`; `n` entries from there on are moved.
placed : (k n base size : ℕ) → AddressSpace → AddressSpace × ℕ
placed k n base size a =
    let v = a.virt_memory in
    (
      record a {
        virt_memory = record v {
          block_count = u32 (v.block_count + 1);
          entries = place k n (entry base size) v.entries;
        };
      },
      base,
    )

-- The loop over the gaps behind the entries from `i` on, and what follows it. NULL is 0.
add_loop : (rounds i size : ℕ) → AddressSpace → AddressSpace × ℕ
unfolding placed
add_loop zero i size a =
    let cur = a.virt_memory.entries i in
    if ltb a.end (end_with cur size) then (a, 0) else placed (i + 1) 0 (block_end cur) size a
add_loop (suc rounds) i size a =
    let v = a.virt_memory in
    let cur = v.entries i in
    let rest = add_loop rounds (i + 1) size a in
    if ltb a.end (end_with cur size)
    then (a, 0)
    else if leb (end_with cur size) (v.entries (i + 1)).base
    then placed (i + 1) (v.block_count - i) (block_end cur) size a
    else rest

unfoldable pub add_virt_block : ℕ → AddressSpace → AddressSpace × ℕ
unfolding add_loop placed
add_virt_block size a =
    let v = a.virt_memory in
    if leb (u32 (a.start + shl size 12)) (v.entries 0).base
    then placed 0 v.block_count a.start size a
    else add_loop (sub32 v.block_count 1) 0 size a

-- The loop over the entries from `i` on.
del_loop : (rounds i base : ℕ) → AddressSpace → AddressSpace × ℕ
del_loop zero i base a = (a, 0)
del_loop (suc rounds) i base a =
    let v = a.virt_memory in
    let rest = del_loop rounds (i + 1) base a in
    if (v.entries i).base == base
    then (
      record a {
        virt_memory = record v {
          block_count = v.block_count - 1;
          entries = remove i (v.block_count - i) v.entries;
        };
      },
      (v.entries i).size,
    )
    else rest

pub del_virt_block : ℕ → AddressSpace → AddressSpace × ℕ
unfolding del_loop
del_virt_block base a = del_loop a.virt_memory.block_count 0 base a
