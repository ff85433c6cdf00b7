-- ===== src/Paging.antt =====
-- The page tables of kernel/memory_manager.c, on the frames of the page allocator: `get_physaddr`,
-- `map_pages` and `unmap_pages`. `page_dir` is the directory of the current address space.
pub mod Entries
pub mod Map
pub mod Space
pub mod Rounds
mod Tests
use mathlib.Core.Option
use sandor_os.Prelude.{
  ℕ, zero, suc, ◌+◌, ◌*◌, ◌/◌, ◌%◌, ◌^◌, Bool, true, false, Option, none, some, bit_or, ◌==◌,
  if◌then◌else◌, u32, minus_one,
}
use sandor_os.PhysMemory.{Phys, temp_map_page, temp_load, temp_store, alloc_phys_pages}

abbrev pub pdindex : ℕ → ℕ
pdindex vaddr = vaddr / 2 ^ 22

abbrev pub ptindex : ℕ → ℕ
ptindex vaddr = vaddr / 2 ^ 12 % 2 ^ 10

unfoldable pub get_physaddr : (page_dir vaddr : ℕ) → Phys → Phys × ℕ
get_physaddr page_dir vaddr s =
    let s1 = temp_map_page page_dir s in
    let s2 = temp_map_page (temp_load s1 (pdindex vaddr)) s1 in
    (s2, u32 (temp_load s2 (ptindex vaddr) / 2 ^ 12 * 2 ^ 12 + vaddr % 2 ^ 12))

-- Writes the entry of a page, where the directory is mapped and has the table.
unfoldable pub enter_page : (vaddr paddr flags : ℕ) → Phys → Phys
enter_page vaddr paddr flags s =
    temp_store (ptindex vaddr) (bit_or (paddr / 2 ^ 12 * 2 ^ 12) flags)
      (temp_map_page (temp_load s (pdindex vaddr)) s)

-- A new table for the directory; 7 is PAGE_PRESENT | PAGE_WRITABLE | PAGE_USER.
unfoldable pub enter_table : (page_dir vaddr addr : ℕ) → Phys → Phys
enter_table page_dir vaddr addr s =
    temp_store (pdindex vaddr) (bit_or addr 7) (temp_map_page page_dir s)

-- One round of `map_pages`, behind a call of `alloc_phys_pages` that returned `addr`.
unfoldable pub map_in_new_table : (page_dir vaddr paddr flags : ℕ) → Phys × ℕ → Phys × Bool
map_in_new_table page_dir vaddr paddr flags (s, addr) =
    if addr == minus_one
    then (s, false)
    else (enter_page vaddr paddr flags (enter_table page_dir vaddr addr s), true)

-- One round of `map_pages`; PAGE_PRESENT is the lowest bit.
unfoldable pub map_page : (page_dir vaddr paddr flags : ℕ) → Phys → Option (Phys × Bool)
map_page page_dir vaddr paddr flags s =
    let s1 = temp_map_page page_dir s in
    if temp_load s1 (pdindex vaddr) % 2 == 0
    then Option.map (map_in_new_table page_dir vaddr paddr flags) (alloc_phys_pages 1 s1)
    else some (enter_page vaddr paddr flags s1, true)

-- The loop goes on after a round that succeeded.
unfoldable pub continue_map : (Phys → Option (Phys × Bool)) → Phys × Bool → Option (Phys × Bool)
continue_map rest (s, true) = rest s
continue_map rest (s, false) = some (s, false)

unfoldable pub map_pages : (page_dir vaddr paddr count flags : ℕ) → Phys → Option (Phys × Bool)
map_pages page_dir vaddr paddr zero flags s = some (s, true)
map_pages page_dir vaddr paddr (suc count) flags s =
    Option.bind (map_page page_dir vaddr paddr flags s)
      (continue_map (map_pages page_dir (u32 (vaddr + 2 ^ 12)) (u32 (paddr + 2 ^ 12)) count flags))

unfoldable pub unmap_pages : (page_dir vaddr count : ℕ) → Phys → Phys × Bool
unmap_pages page_dir vaddr zero s = (s, true)
unmap_pages page_dir vaddr (suc count) s =
    let s1 = temp_map_page page_dir s in
    let s2 = temp_store (ptindex vaddr) 0 (temp_map_page (temp_load s1 (pdindex vaddr)) s1) in
    let rest = unmap_pages page_dir (u32 (vaddr + 2 ^ 12)) count s2 in
    if temp_load s1 (pdindex vaddr) % 2 == 0 then (s1, false) else rest
