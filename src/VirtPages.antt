-- ===== src/VirtPages.antt =====
-- The allocation of virtual pages of kernel/memory_manager.c: `alloc_virt_pages` and
-- `free_virt_pages`, on the page allocator and the current address space.
pub mod Given
pub mod Fresh
pub mod Taken
pub mod OnePage
mod Tests
use sandor_os.Prelude.{
  ℕ, zero, suc, ◌+◌, ◌-◌, ◌*◌, ◌/◌, ◌%◌, ◌^◌, ◌<◌, ◌≤◌, ◌≡◌, refl, sym, ap, ◌∙◌, ◌⊎◌, inl, inr, ◌↔◌,
  Bool, true, false, ◌&&◌, ◌||◌, Option, none, some, List, [], ◌∷◌, ◌++◌, arith, ltb, leb, ◌==◌,
  if◌then◌else◌, u8, u16, u32, sub32, shl, shr, Bool-cases, lt→ltb, le→ltb, leb→le, leb→gt, ltb→lt,
  ltb→ge, le→leb, lt→leb, eq→==, ne→==, ==→eq, ==→ne, minus_one,
}
use mathlib.Core.Option
use sandor_os.Table.{Entry, entry, Entries}
use sandor_os.AddressSpace.{VirtMemory, AddressSpace}
use sandor_os.PhysMemory.{Phys, alloc_phys_pages, free_phys_pages}
use sandor_os.Paging.{get_physaddr, map_pages, unmap_pages}
use sandor_os.VirtBlocks.{add_virt_block, del_virt_block}

-- The memory manager: `space` is `*cur_address_space`.
pub record Manager : Type 0 where
  pub phys : Phys
  pub space : AddressSpace

-- The entry at index `i` of a table at the virtual address `table`, as its frames hold it.
unfoldable pub entry_at : (page_dir table : ℕ) → Phys → Entries
unfolding get_physaddr
entry_at page_dir table s i =
    let a = (get_physaddr page_dir (u32 (table + i * 8)) s).1 in
    entry (s.memory (a / 2 ^ 12) (a / 4 % 2 ^ 10)) (s.memory (a / 2 ^ 12) (a / 4 % 2 ^ 10 + 1))

-- The first `n` entries are copied to another table. A page holds 512.
abbrev pub copied : (n : ℕ) → Entries → Entries → Entries
copied n old new i = if ltb i n then old i else new i

-- Maps `count` pages from page `i` of `vaddr` on to frames that are allocated one by one. The results
-- of the calls are not looked at.
unfoldable pub map_fresh : (page_dir vaddr i count flags : ℕ) → Phys → Option Phys
map_fresh page_dir vaddr i zero flags s = some s
map_fresh page_dir vaddr i (suc count) flags s = Option.bind (alloc_phys_pages 1 s) (λ (s1, addr).
    Option.bind (map_pages page_dir (u32 (vaddr + i * 2 ^ 12)) addr 1 flags s1)
      (λ (s2, mapped). map_fresh page_dir vaddr (i + 1) count flags s2))

-- The same, to the frames from `paddr` on.
unfoldable pub map_given : (page_dir vaddr paddr i count flags : ℕ) → Phys → Option Phys
map_given page_dir vaddr paddr i zero flags s = some s
map_given page_dir vaddr paddr i (suc count) flags s =
    Option.bind (map_pages page_dir (u32 (vaddr + i * 2 ^ 12)) (u32 (paddr + i * 2 ^ 12)) 1 flags s)
      (λ (s1, mapped). map_given page_dir vaddr paddr (i + 1) count flags s1)

-- Frees the frames of `count` pages from page `i` of `vaddr` on.
unfoldable pub free_frames : (page_dir vaddr i count : ℕ) → Phys → Option Phys
free_frames page_dir vaddr i zero s = some s
free_frames page_dir vaddr i (suc count) s =
    let (s1, paddr) = get_physaddr page_dir (u32 (vaddr + i * 2 ^ 12)) s in
    Option.bind (free_phys_pages paddr 1 s1) (free_frames page_dir vaddr (i + 1) count)

abbrev pub set_virt_memory : (VirtMemory → VirtMemory) → AddressSpace → AddressSpace
set_virt_memory f a = record a { virt_memory = f a.virt_memory }

-- The table is moved to a block with one more page.
unfoldable pub grow_table : Manager → Option Manager
unfolding map_fresh free_frames
grow_table mm =
    let old_table = mm.space.virt_memory.blocks in
    let (a1, _) = del_virt_block old_table mm.space in
    let table_size = u32 (a1.virt_memory.table_size + 1) in
    let (a2, new_table) =
      add_virt_block table_size (set_virt_memory (λ v. record v { table_size = table_size }) a1) in
    Option.bind (map_fresh a2.page_dir new_table 0 table_size 4095 mm.phys) (λ s1.
      Option.map
        (λ s2. record {
          phys = (unmap_pages a2.page_dir old_table (sub32 table_size 1) s2).0;
          space =
              set_virt_memory
                (λ v. record v {
                  blocks = new_table;
                  entries =
                      copied (sub32 table_size 1 * 512) v.entries
                        (entry_at a2.page_dir new_table s1);
                })
                a2;
        })
        (free_frames a2.page_dir old_table 0 (sub32 table_size 1) s1))

-- `alloc_virt_pages` behind the growth of the table. NULL is 0.
unfoldable pub alloc_pages : (vaddr paddr count flags : ℕ) → Manager → Option (Manager × ℕ)
unfolding map_fresh map_given
alloc_pages vaddr paddr count flags mm =
    let (a, v) = if vaddr == 0 then add_virt_block count mm.space else (mm.space, vaddr) in
    Option.map (λ s. (record { phys = s; space = a }, v))
      (if paddr == minus_one
        then map_fresh a.page_dir v 0 count flags mm.phys
        else map_given a.page_dir v paddr 0 count flags mm.phys)

abbrev pub table_full : VirtMemory → Bool
table_full v = ltb (shl v.table_size 12) (u32 ((v.block_count + 1) * 8))

unfoldable pub alloc_virt_pages : (vaddr paddr count flags : ℕ) → Manager → Option (Manager × ℕ)
unfolding grow_table alloc_pages
alloc_virt_pages vaddr paddr count flags mm =
    Option.bind (if table_full mm.space.virt_memory then grow_table mm else some mm)
      (alloc_pages vaddr paddr count flags)

-- Gives back a page of the table. `blocks` points to entries of 8 bytes, so that the address of the
-- page is 8 times as far from it as the page.
unfoldable pub shrink_table : Manager → Option Manager
shrink_table mm =
    let v = mm.space.virt_memory in
    let last = u32 (v.blocks + sub32 v.table_size 1 * 2 ^ 12 * 8) in
    let (s1, paddr) = get_physaddr mm.space.page_dir last mm.phys in
    let a1 = (del_virt_block v.blocks mm.space).0 in
    let table_size = sub32 v.table_size 1 in
    Option.map
      (λ s2. record {
        phys = (unmap_pages mm.space.page_dir last 1 s2).0;
        space =
            (add_virt_block table_size
              (set_virt_memory (λ w. record w { table_size = table_size }) a1)).0;
      })
      (free_phys_pages paddr 1 s1)

unfoldable pub free_virt_pages : (vaddr : ℕ) → Manager → Option (Manager × ℕ)
unfolding shrink_table free_frames
free_virt_pages vaddr mm =
    let (a, count) = del_virt_block vaddr mm.space in
    let v = a.virt_memory in
    Option.bind (free_frames a.page_dir vaddr 0 count mm.phys) (λ s.
      let freed : Manager = record { phys = (unmap_pages a.page_dir vaddr count s).0; space = a } in
      Option.map (λ r. (r, count))
        (if leb 4096 (sub32 (shl v.table_size 12) (u32 (v.block_count * 8)))
          then shrink_table freed
          else some freed))
