-- ===== src/Startup/Directory.antt =====
-- The directory that `clone_directory` makes of the current one.
use native.Mathlib.Decide.{dec_lt}
use sandor_os.Startup.Clone.{clone_directory, fill_clone}
use sandor_os.Startup.Copy.{Sees, fill_clone-copy, Outside}
use sandor_os.Paging.Space.{Space, Took, alloc-Took, took-dir, took-entry, took-Space, free-ne}
use sandor_os.PhysMemory.Blocks.{Block, total, free}
use sandor_os.VirtPages.OnePage.{alloc_virt_pages-one}
use sandor_os.VirtBlocks.{add_virt_block, del_virt_block}
use sandor_os.VirtBlocks.Directory.{add_virt_block-page_dir}
use sandor_os.VirtPages.{Manager, table_full, alloc_virt_pages}
use sandor_os.Paging.Entries.{
  HasTable, table_frame, entry_of, with_entry, directory_kept, entry-kept,
}
use sandor_os.Paging.Map.{dir, page_of, Mapped, frames_from}
use sandor_os.PhysMemory.{Phys, page_size, Frames, set}
use mathlib.Core.Path.{subst}
use sandor_os.Prelude.{
  ℕ, ◌+◌, ◌*◌, ◌/◌, ◌%◌, ◌^◌, ◌<◌, ◌≡◌, refl, sym, ap, ◌∙◌, inl, inr, true, false, some, List,
  arith, ◌≢◌,
}
use mathlib.Core.Option

module _ (mm : Manager) (xs : List Block) where
  abbrev page_dir : ℕ
  page_dir = mm.space.page_dir

  abbrev d : ℕ
  d = dir page_dir

  -- The page for the given directory.
  abbrev at : ℕ
  at = (add_virt_block 1 mm.space).1

  -- The page allocator and the page tables are well formed, a page is free, the directory's frame is
  -- mapped at the same virtual page, and the table of blocks finds another page.
  pub record Cloneable : Type 0 where
    pub space : Space d mm.phys xs
    pub some_free : 0 < total xs
    pub whole : d * 2 ^ 12 ≡ page_dir
    pub low : d + 1 < 2 ^ 20
    pub own_table : HasTable d mm.phys.memory (d / 2 ^ 10)
    pub own_page : entry_of d mm.phys.memory d % 2 ≡ 1
    pub own_frame : entry_of d mm.phys.memory d / 2 ^ 12 ≡ d
    pub room : table_full mm.space.virt_memory ≡ false
    pub page : page_of at * 2 ^ 12 ≡ at
    pub apart : d ≢ page_of at
    pub fits : at + 2 ^ 12 < 2 ^ 32
    pub table : HasTable d mm.phys.memory (page_of at / 2 ^ 10)

  module _ (c : Cloneable) (f : ℕ) (s1 s2 : Phys) (xs1 : List Block)
      (took : Took mm.phys.memory xs f s1 xs1)
      (mapped : Mapped page_dir (page_of at) 1 (frames_from d 4095) s1 s2) where
    dir_words : (i : ℕ) → s2.memory d i ≡ mm.phys.memory d i
    dir_words i = mapped.directory i ∙ took-dir d f mm.phys s1 xs xs1 c.space took i

    has_at : HasTable d s2.memory (page_of at / 2 ^ 10)
    has_at = rw (dir_words (page_of at / 2 ^ 10)) c.table

    off : d ≢ f
    off = free-ne xs f d took.was_free c.space.dir_used

    -- A page whose table the directory has, and whose entry names its frame.
    page_Sees :
        (q : ℕ)
        → q < 2 ^ 20
        → HasTable d mm.phys.memory (q / 2 ^ 10)
        → entry_of d s2.memory q % 2 ≡ 1
        → entry_of d s2.memory q / 2 ^ 12 ≡ d
        → Sees page_dir q d f s2.memory
    page_Sees q lt has odd frame = record {
      page_lt = lt;
      off_dir = off;
      has_table = rw (dir_words (q / 2 ^ 10)) has;
      off_table = rw (dir_words (q / 2 ^ 10)) (
          free-ne xs f (table_frame d mm.phys.memory (q / 2 ^ 10)) took.was_free
            (c.space.used (q / 2 ^ 10) has));
      has_page = odd;
      frame = frame;
      off_frame = off;
    }

    own_entry : entry_of d s2.memory d ≡ entry_of d mm.phys.memory d
    own_entry =
        mapped.outside d (rw (took-dir d f mm.phys s1 xs xs1 c.space took (d / 2 ^ 10)) c.own_table)
          (elim (dec_lt d (page_of at)) [ yes lt ↦ inl lt | no ge ↦ inr (omega (arith, c.apart)) ])
        ∙ took-entry d f mm.phys s1 xs xs1 c.space took d c.own_table

    own_Sees : Sees page_dir d d f s2.memory
    own_Sees =
        page_Sees d (omega (arith, c.low)) c.own_table (rw own_entry c.own_page)
          (rw own_entry c.own_frame)

    at_entry : entry_of d s2.memory (page_of at) ≡ d * 2 ^ 12 + 4095
    at_entry =
        let word : frames_from d 4095 0 ≡ d * 2 ^ 12 + 4095 = omega arith in
        subst (λ q. entry_of d s2.memory q ≡ d * 2 ^ 12 + 4095) (omega arith)
          (mapped.inside 0 (omega arith) ∙ word)

    at-Sees : Sees page_dir (page_of at) d f s2.memory
    at-Sees =
        page_Sees (page_of at) (omega (arith, c.fits)) c.table
          (ap (λ x. x % 2) at_entry ∙ omega arith) (ap (λ x. x / 2 ^ 12) at_entry ∙ omega arith)

  -- All pages but the one for the given directory are mapped as before.
  module _ (c : Cloneable) (f : ℕ) (s1 s2 : Phys) (xs1 : List Block)
      (took : Took mm.phys.memory xs f s1 xs1)
      (mapped : Mapped page_dir (page_of at) 1 (frames_from d 4095) s1 s2) (m' : Frames)
      (others : Outside f
        (with_entry d s2.memory mapped.tables (page_of at) 0 (has_at c f s1 s2 xs1 took mapped))
        m') where
    abbrev cleared : Frames
    cleared = with_entry d s2.memory mapped.tables (page_of at) 0 (has_at c f s1 s2 xs1 took mapped)

    dir_after : (i : ℕ) → m' d i ≡ mm.phys.memory d i
    dir_after i =
        others d i (off c f s1 s2 xs1 took mapped)
        ∙ (directory_kept d s2.memory mapped.tables (page_of at) 0
              (has_at c f s1 s2 xs1 took mapped) i
            ∙ dir_words c f s1 s2 xs1 took mapped i)

    entry_after :
        (q : ℕ)
        → HasTable d mm.phys.memory (q / 2 ^ 10)
        → q ≢ page_of at
        → entry_of d m' q ≡ entry_of d mm.phys.memory q
    entry_after q h ne =
        let words = dir_words c f s1 s2 xs1 took mapped in
        let h1 : HasTable d s1.memory (q / 2 ^ 10) =
          rw (took-dir d f mm.phys s1 xs xs1 c.space took (q / 2 ^ 10)) h in
        let h2 : HasTable d s2.memory (q / 2 ^ 10) = rw (words (q / 2 ^ 10)) h in
        let dir_now = dir_after (q / 2 ^ 10) in
        let dir_cleared : cleared d (q / 2 ^ 10) ≡ mm.phys.memory d (q / 2 ^ 10) =
          directory_kept d s2.memory mapped.tables (page_of at) 0 (has_at c f s1 s2 xs1 took mapped)
            (q / 2 ^ 10)
          ∙ words (q / 2 ^ 10) in
        let t = table_frame d mm.phys.memory (q / 2 ^ 10) in
        let t_off = free-ne xs f t took.was_free (c.space.used (q / 2 ^ 10) h) in
        ap (λ x. m' (x / 2 ^ 12) (q % 2 ^ 10)) dir_now
        ∙ (others t (q % 2 ^ 10) t_off
            ∙ (sym (ap (λ x. cleared (x / 2 ^ 12) (q % 2 ^ 10)) dir_cleared)
                ∙ (entry-kept d s2.memory mapped.tables (page_of at) 0
                      (has_at c f s1 s2 xs1 took mapped) q h2 ne
                    ∙ (mapped.outside q h1 (elim (dec_lt q (page_of at)) [
                      | yes lt ↦ inl lt
                      | no ge ↦ inr (omega (arith, ne))
                    ])
                        ∙ took-entry d f mm.phys s1 xs xs1 c.space took q h))))

  -- Where the page allocator and the page tables are well formed, a page is free, the current
  -- directory is mapped at the address of its own frame, and the table of blocks has room and finds
  -- another page, whose table the directory has: `clone_directory` of the current directory, with
  -- the same as the kernel's, ends, and returns a page that was free, with the 1024 entries of the
  -- directory; the directory keeps its entries, all other pages of its tables are mapped as before,
  -- and the block of the page that is mapped for this is added and deleted.
  pub clone_directory-copy :
      Cloneable
      → (mm' : Manager) × (f : ℕ) × (clone_directory page_dir page_dir mm ≡ some (mm', f * 2 ^ 12))
        × (free f xs ≡ true)
        × ((i : ℕ) → i < 1024 → mm'.phys.memory f i ≡ mm.phys.memory d i)
        × ((i : ℕ) → mm'.phys.memory d i ≡ mm.phys.memory d i)
        × ((q : ℕ)
            → HasTable d mm.phys.memory (q / 2 ^ 10)
            → q ≢ page_of at
            → entry_of d mm'.phys.memory q ≡ entry_of d mm.phys.memory q)
        × (mm'.space ≡ (del_virt_block at (add_virt_block 1 mm.space).0).0)
  unfolding clone_directory Option.bind
  clone_directory-copy c =
      let (s1, f, xs1, e1, took) = alloc-Took mm.phys xs c.space.ring c.some_free in
      let sp1 = took-Space d f mm.phys s1 xs xs1 c.space took in
      let mm1 : Manager = record { phys = s1; space = mm.space } in
      let has1 : HasTable d s1.memory (page_of at / 2 ^ 10) =
        rw (took-dir d f mm.phys s1 xs xs1 c.space took (page_of at / 2 ^ 10)) c.table in
      let (s2, e2, mapped) = alloc_virt_pages-one mm1 d c.low c.room sp1.tables has1 c.fits in
      let mm2 : Manager = record { phys = s2; space = (add_virt_block 1 mm.space).0 } in
      let same = add_virt_block-page_dir 1 mm.space in
      let frame : f ≡ f * 2 ^ 12 / page_size = omega arith in
      let see = λ (q : ℕ) (v : Sees page_dir q d f s2.memory).
        subst (λ g. Sees mm2.space.page_dir q d g s2.memory) frame
          (subst (λ p. Sees p q d f s2.memory) (sym same) v) in
      let (mm', e3, copy, others, blocks) =
        fill_clone-copy mm2 d (page_of at) d (f * 2 ^ 12)
          (see d (own_Sees c f s1 s2 xs1 took mapped))
          (see (page_of at) (at-Sees c f s1 s2 xs1 took mapped)) in
      let e2' : alloc_virt_pages 0 page_dir 1 4095 mm1 ≡ some (mm2, at) =
        ap (λ p. alloc_virt_pages 0 p 1 4095 mm1) (sym c.whole) ∙ e2 in
      let e3' : fill_clone page_dir at (f * 2 ^ 12) mm2 ≡ some mm' =
        ap (λ p. fill_clone p at (f * 2 ^ 12) mm2) (sym c.whole)
        ∙ (ap (λ q. fill_clone (d * 2 ^ 12) q (f * 2 ^ 12) mm2) (sym c.page) ∙ e3) in
      let unchanged : Outside f
          (with_entry d s2.memory mapped.tables (page_of at) 0 (has_at c f s1 s2 xs1 took mapped))
          mm'.phys.memory =
        λ g i ne.
          others g i (λ z. ne (z ∙ sym frame))
          ∙ ap
              (λ p.
                set s2.memory (s2.memory (p / 2 ^ 12) (page_of at / 2 ^ 10) / 2 ^ 12)
                  (page_of at % 2 ^ 10) 0 g i)
              same in
      (
        mm',
        f,
        rw (e1, e2', e3') refl,
        took.was_free,
        (λ i lt.
            ap (λ g. mm'.phys.memory g i) frame
            ∙ (copy i lt ∙ dir_words c f s1 s2 xs1 took mapped i)),
        dir_after c f s1 s2 xs1 took mapped mm'.phys.memory unchanged,
        entry_after c f s1 s2 xs1 took mapped mm'.phys.memory unchanged,
        blocks ∙ ap (λ b. (del_virt_block b mm2.space).0) c.page,
      )
