-- ===== src/Startup.antt =====
-- The start of the kernel's memory manager: `init_memory_manager` of kernel/memory_manager.c.
pub mod Region
pub mod Regions
pub mod Offered
pub mod Clone
pub mod Copy
pub mod Terminal
pub mod Bios
pub mod Screen
pub mod Kernel
pub mod Directory
pub mod Stages
pub mod Heap
pub mod User
pub mod Memory
pub mod Spaces
pub mod Layout
mod Tests
use sandor_os.PhysMemory.{Phys, free_phys_pages}
use sandor_os.Prelude.{
  ℕ, zero, suc, ◌+◌, ◌-◌, ◌*◌, ◌/◌, ◌%◌, ◌^◌, ◌<◌, ◌≤◌, ◌≡◌, refl, sym, ap, ◌∙◌, ◌⊎◌, inl, inr, ◌↔◌,
  Bool, true, false, ◌&&◌, ◌||◌, Option, none, some, List, [], ◌∷◌, ◌++◌, arith, ltb, leb, ◌==◌,
  if◌then◌else◌, u8, u16, u32, sub32, shl, shr, Bool-cases, lt→ltb, le→ltb, leb→le, leb→gt, ltb→lt,
  ltb→ge, le→leb, lt→leb, eq→==, ne→==, ==→eq, ==→ne, minus_one,
}
use mathlib.Core.Option

-- The addresses that the linker script gives to the kernel.
pub record Linker : Type 0 where
  pub kernel_base_vma : ℕ
  pub kernel_base_lma : ℕ
  pub kernel_page_table : ℕ
  pub kernel_end : ℕ
  pub kernel_virt_block_table : ℕ
  pub kernel_address_space_start : ℕ
  pub kernel_address_space_end : ℕ
  pub user_address_space_start : ℕ
  pub user_address_space_end : ℕ

-- An entry of the boot loader's memory map, whose address and length have 64 bits.
pub record MmapEntry : Type 0 where
  pub size : ℕ
  pub addr : ℕ
  pub len : ℕ
  pub type : ℕ

-- The entry is memory above the first megabyte that is free to use.
unfoldable pub usable : MmapEntry → Bool
usable e = e.type == 1 && leb (2 ^ 20) e.addr

-- The page allocator and `memory_size`.
pub record Sized : Type 0 where
  pub phys : Phys
  pub memory_size : ℕ

-- An entry with type 1, whose pages are freed. The arguments of `free_phys_pages` have 32 bits.
unfoldable pub free_region : MmapEntry → Sized → Option Sized
free_region e s =
    Option.map (λ p. record { phys = p; memory_size = u32 (s.memory_size + e.len) })
      (free_phys_pages (u32 e.addr) (u32 (e.len / 2 ^ 12)) s.phys)

-- The physical memory at the start: no page is free.
unfoldable pub init_phys : Phys → Phys
init_phys p = record p { free_page_count = 0; free_phys_memory_pointer = minus_one }

module _ (l : Linker) where
  -- The last page of the 4 MB that the kernel's page table covers, and the address of its entry:
  -- KERNEL_PAGE_TABLE points to words.
  unfoldable pub temp_page_address : ℕ
  temp_page_address = u32 (l.kernel_base_vma / 2 ^ 22 * 2 ^ 22 + 1023 * 2 ^ 12)

  unfoldable pub temp_page_info_address : ℕ
  temp_page_info_address = u32 (l.kernel_page_table + temp_page_address / 2 ^ 12 % 2 ^ 10 * 4)

  -- The size of the kernel in bytes.
  abbrev pub kernel_size : ℕ
  kernel_size = sub32 l.kernel_end l.kernel_base_vma

  -- The region that starts with the kernel starts behind it. Its length is kept.
  unfoldable pub behind_kernel : MmapEntry → MmapEntry
  behind_kernel e = record e {
    addr = if e.addr == l.kernel_base_lma then (e.addr + kernel_size) % 2 ^ 64 else e.addr;
  }

  -- The loop over the memory map, up to an entry of type 0. The first result is the map as the loop
  -- leaves it; a map without such an entry, which the loop would run past, is `none`.
  unfoldable pub free_regions : List MmapEntry → Sized → Option (List MmapEntry × Sized)
  unfolding free_region
  free_regions [] s = none
  free_regions (e ∷ es) s =
      let rest = free_regions es in
      if e.type == 0
      then some (e ∷ es, s)
      else if usable e
      then Option.bind (free_region (behind_kernel e) s)
          (λ s1. Option.map (λ (es', s2). (behind_kernel e ∷ es', s2)) (rest s1))
      else Option.map (λ (es', s1). (e ∷ es', s1)) (rest s)

  unfoldable pub init_regions : List MmapEntry → Phys → Option (List MmapEntry × Sized)
  unfolding init_phys
  init_regions es p = free_regions es (record { phys = init_phys p; memory_size = 2 ^ 20 })
