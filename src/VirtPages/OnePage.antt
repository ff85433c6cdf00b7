-- ===== src/VirtPages/OnePage.antt =====
-- `alloc_virt_pages` of one page, which the table of blocks finds, at a given frame.
use sandor_os.VirtPages.Given.{alloc_virt_pages-Mapped}
use sandor_os.VirtBlocks.{add_virt_block}
use sandor_os.VirtBlocks.Directory.{add_virt_block-page_dir}
use sandor_os.VirtPages.{Manager, table_full, alloc_virt_pages}
use sandor_os.Paging.Entries.{HasTable, Tables}
use sandor_os.Paging.Map.{dir, page_of, Covered, Mapped, frames_from}
use sandor_os.PhysMemory.{Phys}
use mathlib.Core.Path.{subst}
use sandor_os.Prelude.{ℕ, ◌+◌, ◌*◌, ◌/◌, ◌^◌, ◌<◌, ◌≡◌, false, some, arith}

-- A page that `alloc_virt_pages` finds and maps to frame `f`.
module _ (mm : Manager) (f : ℕ) (low : f + 1 < 2 ^ 20) where
  abbrev pub at : ℕ
  at = (add_virt_block 1 mm.space).1

  pub alloc_virt_pages-one :
      table_full mm.space.virt_memory ≡ false
      → Tables (dir mm.space.page_dir) mm.phys.memory
      → HasTable (dir mm.space.page_dir) mm.phys.memory (page_of at / 2 ^ 10)
      → at + 2 ^ 12 < 2 ^ 32
      → (s' : Phys) × (alloc_virt_pages 0 (f * 2 ^ 12) 1 4095 mm
          ≡ some (record { phys = s'; space = (add_virt_block 1 mm.space).0 }, at))
        × Mapped mm.space.page_dir (page_of at) 1 (frames_from f 4095) mm.phys s'
  alloc_virt_pages-one room t has fits =
      let d = add_virt_block-page_dir 1 mm.space in
      let covered : Covered mm.space.page_dir (page_of at) 1 mm.phys.memory = λ k lt.
        subst (λ q. HasTable (dir mm.space.page_dir) mm.phys.memory (q / 2 ^ 10)) (omega arith)
          has in
      let (s', e, m) =
        alloc_virt_pages-Mapped mm 0 (f * 2 ^ 12) 1 4095 (omega arith) room (omega arith) (rw d t)
          (rw d covered) fits (omega arith) in
      let page : page_of (f * 2 ^ 12) ≡ f = omega arith in
      (
        s',
        e,
        subst (λ x. Mapped mm.space.page_dir (page_of at) 1 (frames_from x 4095) mm.phys s') page
            (subst
              (λ x. Mapped x (page_of at) 1 (frames_from (page_of (f * 2 ^ 12)) 4095) mm.phys s') d
              m),
      )
