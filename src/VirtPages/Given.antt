-- ===== src/VirtPages/Given.antt =====
-- `alloc_virt_pages` at given frames: the pages that it returns are mapped to them.
use mathlib.Core.Option
use sandor_os.Prelude.{
  ℕ, zero, suc, ◌+◌, ◌*◌, ◌^◌, ◌<◌, ◌≡◌, ap, Bool, true, false, Option, none, some, arith, ◌==◌,
  if◌then◌else◌, u32, ne→==, minus_one,
}
use sandor_os.AddressSpace.{AddressSpace}
use sandor_os.PhysMemory.{Phys}
use sandor_os.Paging.{get_physaddr, map_page, continue_map, map_pages}
use sandor_os.Paging.Entries.{Tables}
use sandor_os.Paging.Map.{
  page_of, dir, Covered, Mapped, frames_from, map_pages-Mapped, get_physaddr-entry,
}
use sandor_os.VirtBlocks.{add_virt_block}
use sandor_os.VirtPages.{Manager, map_given, alloc_pages, table_full, alloc_virt_pages}

abbrev succeeded : Option (Phys × Bool) → Bool
succeeded none = false
succeeded (some (s, b)) = b

-- A round that succeeds and the rest of the loop.
bind-next :
    (f : Phys → Option (Phys × Bool)) (g : Phys → Option Phys) (r : Option (Phys × Bool))
    (s' : Phys)
    → ((s1 : Phys) → f s1 ≡ some (s', true) → g s1 ≡ some s')
    → Option.bind r (continue_map f) ≡ some (s', true)
    → Option.bind (Option.bind r (continue_map (λ s. some (s, true)))) (λ x. g x.0) ≡ some s'
unfolding Option.bind continue_map
bind-next f g none s' h e = cc
bind-next f g (some (s1, true)) s' h e = h s1 e
bind-next f g (some (s1, false)) s' h e = let flag : false ≡ true = ap succeeded e in absurd cc

module _ (page_dir flags : ℕ) where
  -- Page by page is the same as all at once.
  map_given-map_pages :
      (count i vaddr paddr : ℕ) (s s' : Phys)
      → vaddr + (i + count) * 2 ^ 12 < 2 ^ 32
      → paddr + (i + count) * 2 ^ 12 < 2 ^ 32
      → map_pages page_dir (vaddr + i * 2 ^ 12) (paddr + i * 2 ^ 12) count flags s ≡ some (s', true)
      → map_given page_dir vaddr paddr i count flags s ≡ some s'
  unfolding map_given map_pages
  map_given-map_pages zero i vaddr paddr s s' v_room p_room e = ap (Option.map (λ r. r.0)) e
  map_given-map_pages (suc count) i vaddr paddr s s' v_room p_room e =
      let v : u32 (vaddr + i * 2 ^ 12) ≡ vaddr + i * 2 ^ 12 = omega arith in
      let p : u32 (paddr + i * 2 ^ 12) ≡ paddr + i * 2 ^ 12 = omega arith in
      let v' : vaddr + (i + 1) * 2 ^ 12 ≡ u32 (vaddr + i * 2 ^ 12 + 2 ^ 12) = omega arith in
      let p' : paddr + (i + 1) * 2 ^ 12 ≡ u32 (paddr + i * 2 ^ 12 + 2 ^ 12) = omega arith in
      rw (v, p)
        (bind-next
          (map_pages page_dir (u32 (vaddr + i * 2 ^ 12 + 2 ^ 12))
            (u32 (paddr + i * 2 ^ 12 + 2 ^ 12)) count flags)
          (map_given page_dir vaddr paddr (i + 1) count flags)
          (map_page page_dir (vaddr + i * 2 ^ 12) (paddr + i * 2 ^ 12) flags s) s'
          (λ s1 e1.
            map_given-map_pages count (i + 1) vaddr paddr s1 s' (omega arith) (omega arith)
              (rw (v', p') e1))
          e)

-- The block that `alloc_virt_pages` uses, and its address.
abbrev pub block_for : (vaddr count : ℕ) → AddressSpace → AddressSpace × ℕ
block_for vaddr count a = if vaddr == 0 then add_virt_block count a else (a, vaddr)

module _ (mm : Manager) (vaddr paddr count flags : ℕ) where
  abbrev at : ℕ
  at = (block_for vaddr count mm.space).1

  abbrev space : AddressSpace
  space = (block_for vaddr count mm.space).0

  -- The entries that `alloc_virt_pages` writes at given frames.
  pub alloc_virt_pages-Mapped :
      0 < count
      → table_full mm.space.virt_memory ≡ false
      → flags < 2 ^ 12
      → Tables (dir space.page_dir) mm.phys.memory
      → Covered space.page_dir (page_of at) count mm.phys.memory
      → at + count * 2 ^ 12 < 2 ^ 32
      → paddr + count * 2 ^ 12 < 2 ^ 32
      → (s' : Phys) × (alloc_virt_pages vaddr paddr count flags mm
          ≡ some (record { phys = s'; space = space }, at))
        × Mapped space.page_dir (page_of at) count (frames_from (page_of paddr) flags) mm.phys s'
  unfolding alloc_virt_pages alloc_pages Option.bind
  alloc_virt_pages-Mapped pos room small t covered v_room p_room =
      let (s', e, mapped) =
        map_pages-Mapped space.page_dir flags small count at paddr mm.phys t covered v_room
          p_room in
      let given : (paddr == minus_one) ≡ false =
        ne→== paddr minus_one (λ z. absurd (omega arith)) in
      let v0 : at ≡ at + 0 * 2 ^ 12 = omega arith in
      let p0 : paddr ≡ paddr + 0 * 2 ^ 12 = omega arith in
      let e' : map_given space.page_dir at paddr 0 count flags mm.phys ≡ some s' =
        map_given-map_pages space.page_dir flags count 0 at paddr mm.phys s' (omega arith)
          (omega arith) (rw⁻¹ (v0, p0) e) in
      (
        s',
        rw (room, given) (ap (Option.map (λ s. (record { phys = s; space = space }, at))) e'),
        mapped,
      )

  -- Where the table of blocks has room, the directory has the tables of the pages that are used,
  -- which are apart from each other and from the directory, the pages and frames do not reach the
  -- last of the 32-bit addresses, and the flags are below 2^12: `alloc_virt_pages` at given frames
  -- ends, returns the given address or, for NULL, the one of `add_virt_block`, whose table it
  -- leaves, and `get_physaddr` then gives for each byte of the pages the byte at the same offset of
  -- its frame.
  pub get_physaddr-alloc_virt_pages :
      table_full mm.space.virt_memory ≡ false
      → flags < 2 ^ 12
      → Tables (dir space.page_dir) mm.phys.memory
      → Covered space.page_dir (page_of at) count mm.phys.memory
      → at + count * 2 ^ 12 < 2 ^ 32
      → paddr + count * 2 ^ 12 < 2 ^ 32
      → (k offset : ℕ) → k < count
      → offset < 2 ^ 12
      → (s' : Phys) × (alloc_virt_pages vaddr paddr count flags mm
          ≡ some (record { phys = s'; space = space }, at))
        × ((get_physaddr space.page_dir ((page_of at + k) * 2 ^ 12 + offset) s').1
            ≡ (page_of paddr + k) * 2 ^ 12 + offset)
  get_physaddr-alloc_virt_pages room small t covered v_room p_room k offset lt low =
      let (s', e, mapped) =
        alloc_virt_pages-Mapped (omega arith) room small t covered v_room p_room in
      (
        s',
        e,
        get_physaddr-entry space.page_dir (page_of at + k) (page_of paddr + k) flags offset s' small
            low (omega arith) (mapped.inside k lt),
      )
