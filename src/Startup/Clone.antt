-- ===== src/Startup/Clone.antt =====
-- The page directory of a new address space: `clone_directory` and `change_address_space` of
-- kernel/memory_manager.c.
use sandor_os.VirtBlocks.{del_virt_block}
use sandor_os.AddressSpace.{AddressSpace}
use sandor_os.VirtPages.{Manager, alloc_virt_pages}
use sandor_os.Paging.{unmap_pages}
use sandor_os.PhysMemory.{Phys, alloc_phys_pages, temp_map_page, temp_store}
use sandor_os.Prelude.{
  ℕ, zero, suc, ◌+◌, ◌*◌, ◌/◌, ◌%◌, ◌^◌, ◌&&◌, Option, none, some, ltb, ◌==◌, if◌then◌else◌, u32,
}
use mathlib.Core.Option

-- The word that the processor finds at the virtual address `vaddr`; `none` is a page fault.
unfoldable pub virt_load : (page_dir vaddr : ℕ) → Phys → Option ℕ
virt_load page_dir vaddr s =
    let table = s.memory (page_dir / 2 ^ 12) (vaddr / 2 ^ 22) in
    let page = s.memory (table / 2 ^ 12) (vaddr / 2 ^ 12 % 2 ^ 10) in
    if table % 2 == 0
    then none
    else if page % 2 == 0
    then none
    else some (s.memory (page / 2 ^ 12) (vaddr / 4 % 2 ^ 10))

-- `memset(TEMP_PAGE, 0, 0x1000)`
unfoldable pub clear_temp_page : Phys → Phys
clear_temp_page s = record s {
  memory = λ f i. if f == s.temp_page && ltb i 1024 then 0 else s.memory f i;
}

-- A round of the loop, behind its two loads.
unfoldable pub clone_word : (i : ℕ) → (ours theirs : ℕ) → Phys → Phys
clone_word i ours theirs s = if ours == theirs then temp_store i theirs s else s

-- The loop over the entries from `i` on. `ours` is `kernel_address_space.page_dir`, which is used as
-- a virtual address.
unfoldable pub clone_loop : (page_dir ours cloneable_dir n i : ℕ) → Phys → Option Phys
clone_loop page_dir ours cloneable_dir zero i s = some s
clone_loop page_dir ours cloneable_dir (suc n) i s =
    Option.bind (virt_load page_dir (u32 (ours + i * 4)) s) (λ a.
      Option.bind (virt_load page_dir (u32 (cloneable_dir + i * 4)) s)
        (λ b. clone_loop page_dir ours cloneable_dir n (i + 1) (clone_word i a b s)))

-- The clone's directory, filled by the loop, in the current address space `mm.space`.
unfoldable pub fill_clone : (ours cloneable_dir clone_dir : ℕ) → Manager → Option Manager
fill_clone ours cloneable_dir clone_dir mm =
    Option.map
      (λ s.
        let a = (del_virt_block cloneable_dir mm.space).0 in
        record { phys = (unmap_pages a.page_dir cloneable_dir 1 s).0; space = a })
      (clone_loop mm.space.page_dir ours cloneable_dir 1024 0
        (clear_temp_page (temp_map_page clone_dir mm.phys)))

unfoldable pub clone_directory : (ours src : ℕ) → Manager → Option (Manager × ℕ)
clone_directory ours src mm = Option.bind (alloc_phys_pages 1 mm.phys) (λ (s, clone_dir).
    Option.bind (alloc_virt_pages 0 src 1 4095 (record mm { phys = s })) (λ (mm1, cloneable_dir).
      Option.map (λ mm2. (mm2, clone_dir)) (fill_clone ours cloneable_dir clone_dir mm1)))

-- The current address space and the directory that the processor uses, in CR3.
pub record Current : Type 0 where
  pub cur_address_space : AddressSpace
  pub cr3 : ℕ

unfoldable pub flush_cr3 : ℕ → Current → Current
flush_cr3 pd c = record c { cr3 = pd }

unfoldable pub change_address_space : AddressSpace → Current → Current
unfolding flush_cr3
change_address_space a c = flush_cr3 a.page_dir (record c { cur_address_space = a })
