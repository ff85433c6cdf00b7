-- ===== src/Paging/Map.antt =====
-- `map_pages` enters pages that `get_physaddr` finds, where the directory has their tables.
use mathlib.Core.Option
use mathlib.Core.Path.{subst}
use sandor_os.Prelude.{
  ℕ, zero, suc, ◌+◌, ◌*◌, ◌/◌, ◌%◌, ◌^◌, ◌≤◌, ◌<◌, ◌≡◌, ◌≢◌, refl, ◌∙◌, ◌⊎◌, inl, inr, true, arith,
  bit_or-low, some, ne→==, u32, fun_ext,
}
use sandor_os.PhysMemory.{Phys, Frames, set, page_size, temp_map_page, temp_load, temp_store}
use sandor_os.Paging.{
  pdindex, ptindex, get_physaddr, enter_page, map_page, continue_map, map_pages, unmap_pages,
}
use sandor_os.Paging.Entries.{
  HasTable, table_frame, entry_of, Tables, with_entry-Tables, directory_kept, entry-written,
  entry-kept,
}

abbrev pub page_of : ℕ → ℕ
page_of a = a / 2 ^ 12

pub pdindex-eq : (v : ℕ) → pdindex v ≡ page_of v / 2 ^ 10
pdindex-eq v = omega arith

-- The entries of frames from `f` on.
abbrev pub frames_from : (f flags : ℕ) → ℕ → ℕ
frames_from f flags k = (f + k) * 2 ^ 12 + flags

module _ (page_dir : ℕ) where
  -- The frame of the directory.
  abbrev pub dir : ℕ
  dir = page_dir / page_size

  -- The state with an entry written, whose table is mapped at TEMP_PAGE.
  abbrev pub entered : (p w : ℕ) → Phys → Phys
  entered p w s = record s {
    memory = set s.memory (table_frame dir s.memory (p / 2 ^ 10)) (p % 2 ^ 10) w;
    temp_page = table_frame dir s.memory (p / 2 ^ 10);
  }

  pub map_page-entered :
      (vaddr paddr flags : ℕ) (s : Phys)
      → HasTable dir s.memory (page_of vaddr / 2 ^ 10)
      → flags < 2 ^ 12
      → map_page page_dir vaddr paddr flags s
        ≡ some (entered (page_of vaddr) (page_of paddr * 2 ^ 12 + flags) s, true)
  unfolding map_page enter_page temp_map_page temp_load temp_store
  map_page-entered vaddr paddr flags s has small =
      rw
        (
          pdindex-eq vaddr,
          ne→== (s.memory dir (page_of vaddr / 2 ^ 10) % 2) 0 (λ e. absurd (omega arith)),
          bit_or-low 12 (page_of paddr) flags small,
        )
        refl

  -- What `get_physaddr` makes of an entry.
  pub get_physaddr-entry :
      (p f flags offset : ℕ) (s : Phys)
      → flags < 2 ^ 12
      → offset < 2 ^ 12
      → f < 2 ^ 20
      → entry_of dir s.memory p ≡ f * 2 ^ 12 + flags
      → (get_physaddr page_dir (p * 2 ^ 12 + offset) s).1 ≡ f * 2 ^ 12 + offset
  unfolding get_physaddr temp_map_page temp_load
  get_physaddr-entry p f flags offset s small low word e =
      let d_index : pdindex (p * 2 ^ 12 + offset) ≡ p / 2 ^ 10 = omega arith in
      let t_index : ptindex (p * 2 ^ 12 + offset) ≡ p % 2 ^ 10 = omega arith in
      rw (d_index, t_index, e) (omega arith)

  -- What giving `count` pages from page `p` on the entries of `value` does to the entries.
  pub record Mapped (p count : ℕ) (value : ℕ → ℕ) (s s' : Phys) : Type 0 where
    pub tables : Tables dir s'.memory
    pub directory : (i : ℕ) → s'.memory dir i ≡ s.memory dir i
    pub inside : (k : ℕ) → k < count → entry_of dir s'.memory (p + k) ≡ value k
    pub outside :
        (q : ℕ)
        → HasTable dir s.memory (q / 2 ^ 10)
        → (q < p) ⊎ (p + count ≤ q)
        → entry_of dir s'.memory q ≡ entry_of dir s.memory q

  -- The directory has the tables of `count` pages from page `p` on.
  abbrev pub Covered : (p count : ℕ) → Frames → Type 0
  Covered p count m = (k : ℕ) → k < count → HasTable dir m ((p + k) / 2 ^ 10)

  Mapped-suc :
      (p count : ℕ) (value : ℕ → ℕ) (s s' : Phys)
      → Tables dir s.memory
      → Covered p (suc count) s.memory
      → Mapped (p + 1) count (λ k. value (suc k)) (entered p (value 0) s) s'
      → Mapped p (suc count) value s s'
  Mapped-suc p count value s s' t covered r = record {
    tables = r.tables;
    directory = λ i. r.directory i ∙ kept i;
    inside = inside;
    outside = outside;
  }
    where
      has : HasTable dir s.memory (p / 2 ^ 10)
      has = subst (λ q. HasTable dir s.memory (q / 2 ^ 10)) (omega arith) (covered 0 (omega arith))

      kept : (i : ℕ) → (entered p (value 0) s).memory dir i ≡ s.memory dir i
      kept i = directory_kept dir s.memory t p (value 0) has i

      still :
          (q : ℕ)
          → HasTable dir s.memory (q / 2 ^ 10)
          → HasTable dir (entered p (value 0) s).memory (q / 2 ^ 10)
      still q h = rw (kept (q / 2 ^ 10)) h

      inside : (k : ℕ) → k < suc count → entry_of dir s'.memory (p + k) ≡ value k
      inside zero lt =
          subst (λ q. entry_of dir s'.memory q ≡ value 0) (omega arith)
            (r.outside p (still p has) (inl (omega arith))
              ∙ entry-written dir s.memory t p (value 0) has)
      inside (suc k) lt =
          subst (λ q. entry_of dir s'.memory q ≡ value (suc k)) (omega arith)
            (r.inside k (omega arith))

      outside :
          (q : ℕ)
          → HasTable dir s.memory (q / 2 ^ 10)
          → (q < p) ⊎ (p + suc count ≤ q)
          → entry_of dir s'.memory q ≡ entry_of dir s.memory q
      outside q h out =
          r.outside q (still q h) (further out)
          ∙ entry-kept dir s.memory t p (value 0) has q h (differs out)
        where
          further : (q < p) ⊎ (p + suc count ≤ q) → (q < p + 1) ⊎ (p + 1 + count ≤ q)
          further (inl lt) = inl (omega arith)
          further (inr ge) = inr (omega arith)

          differs : (q < p) ⊎ (p + suc count ≤ q) → q ≢ p
          differs (inl lt) e = absurd (omega arith)
          differs (inr ge) e = absurd (omega arith)

  Covered-next :
      (p w count : ℕ) (s : Phys)
      → Tables dir s.memory
      → Covered p (suc count) s.memory
      → Covered (p + 1) count (entered p w s).memory
  Covered-next p w count s t covered k lt =
      let has : HasTable dir s.memory (p / 2 ^ 10) =
        subst (λ q. HasTable dir s.memory (q / 2 ^ 10)) (omega arith) (covered 0 (omega arith)) in
      rw (directory_kept dir s.memory t p w has ((p + 1 + k) / 2 ^ 10)) (
        subst (λ q. HasTable dir s.memory (q / 2 ^ 10)) (omega arith)
          (covered (suc k) (omega arith)))

  Mapped-none : (p : ℕ) (value : ℕ → ℕ) (s : Phys) → Tables dir s.memory → Mapped p 0 value s s
  Mapped-none p value s t = record {
    tables = t;
    directory = λ i. refl;
    inside = λ k lt. absurd (omega arith);
    outside = λ q h out. refl;
  }

  pub has_first :
      (p count : ℕ) (s : Phys) → Covered p (suc count) s.memory → HasTable dir s.memory (p / 2 ^ 10)
  has_first p count s covered =
      subst (λ q. HasTable dir s.memory (q / 2 ^ 10)) (omega arith) (covered 0 (omega arith))

  module _ (flags : ℕ) (small : flags < 2 ^ 12) where
    map_pages-step :
        (count vaddr paddr : ℕ) (s s' : Phys)
        → HasTable dir s.memory (page_of vaddr / 2 ^ 10)
        → vaddr + suc count * 2 ^ 12 < 2 ^ 32
        → paddr + suc count * 2 ^ 12 < 2 ^ 32
        → map_pages page_dir
            (vaddr + 2 ^ 12)
            (paddr + 2 ^ 12)
            count
            flags
            (entered (page_of vaddr) (frames_from (page_of paddr) flags 0) s)
          ≡ some (s', true)
        → map_pages page_dir vaddr paddr (suc count) flags s ≡ some (s', true)
    unfolding map_pages continue_map Option.bind
    map_pages-step count vaddr paddr s s' has v_room p_room e =
        let v_word : u32 (vaddr + 2 ^ 12) ≡ vaddr + 2 ^ 12 = omega arith in
        let p_word : u32 (paddr + 2 ^ 12) ≡ paddr + 2 ^ 12 = omega arith in
        let first : page_of paddr * 2 ^ 12 + flags ≡ frames_from (page_of paddr) flags 0 =
          omega arith in
        rw (map_page-entered vaddr paddr flags s has small, first, v_word, p_word) e

    -- Where the directory has the tables of `count` pages, which are apart from each other and from
    -- the directory, and the pages and frames do not reach the last of the 32-bit addresses:
    -- `map_pages` with flags below 2^12 ends and returns true, the entries of these pages are the
    -- frames in order with the flags, and all other entries in tables of the directory are kept.
    pub map_pages-Mapped :
        (count vaddr paddr : ℕ) (s : Phys)
        → Tables dir s.memory
        → Covered (page_of vaddr) count s.memory
        → vaddr + count * 2 ^ 12 < 2 ^ 32
        → paddr + count * 2 ^ 12 < 2 ^ 32
        → (s' : Phys) × (map_pages page_dir vaddr paddr count flags s ≡ some (s', true))
          × Mapped (page_of vaddr) count (frames_from (page_of paddr) flags) s s'
    unfolding map_pages
    map_pages-Mapped zero vaddr paddr s t covered v_room p_room =
        (s, refl, Mapped-none (page_of vaddr) (frames_from (page_of paddr) flags) s t)
    map_pages-Mapped (suc count) vaddr paddr s t covered v_room p_room =
        let value = frames_from (page_of paddr) flags in
        let has = has_first (page_of vaddr) count s covered in
        let v_page : page_of (vaddr + 2 ^ 12) ≡ page_of vaddr + 1 = omega arith in
        let further : frames_from (page_of (paddr + 2 ^ 12)) flags ≡ (λ k. value (suc k)) =
          fun_ext (λ k. omega arith) in
        let (s', e, r) =
          map_pages-Mapped count (vaddr + 2 ^ 12) (paddr + 2 ^ 12)
            (entered (page_of vaddr) (value 0) s)
            (with_entry-Tables dir s.memory t (page_of vaddr) (value 0) has)
            (rw v_page (Covered-next (page_of vaddr) (value 0) count s t covered)) (omega arith)
            (omega arith) in
        (
          s',
          map_pages-step count vaddr paddr s s' has v_room p_room e,
          Mapped-suc (page_of vaddr) count value s s' t covered (
              subst
                (λ q. Mapped q count (λ k. value (suc k)) (entered (page_of vaddr) (value 0) s) s')
                v_page
                (subst
                  (λ g.
                    Mapped (page_of (vaddr + 2 ^ 12)) count g (entered (page_of vaddr) (value 0) s)
                      s')
                  further r)),
        )

    -- Where the directory has the tables of `count` pages, which are apart from each other and from
    -- the directory, the pages and frames do not reach the last of the 32-bit addresses, and the flags
    -- are below 2^12: after `map_pages`, `get_physaddr` gives for each byte of the pages the byte at
    -- the same offset in the frame that its page is mapped to.
    pub get_physaddr-map_pages :
        (count vaddr paddr : ℕ) (s : Phys)
        → Tables dir s.memory
        → Covered (page_of vaddr) count s.memory
        → vaddr + count * 2 ^ 12 < 2 ^ 32
        → paddr + count * 2 ^ 12 < 2 ^ 32
        → (k offset : ℕ) → k < count
        → offset < 2 ^ 12
        → (s' : Phys) × (map_pages page_dir vaddr paddr count flags s ≡ some (s', true))
          × ((get_physaddr page_dir ((page_of vaddr + k) * 2 ^ 12 + offset) s').1
              ≡ (page_of paddr + k) * 2 ^ 12 + offset)
    get_physaddr-map_pages count vaddr paddr s t covered v_room p_room k offset lt low =
        let (s', e, r) = map_pages-Mapped count vaddr paddr s t covered v_room p_room in
        (
          s',
          e,
          get_physaddr-entry (page_of vaddr + k) (page_of paddr + k) flags offset s' small low
              (omega arith) (r.inside k lt),
        )

  unmap_pages-step :
      (count vaddr : ℕ) (s : Phys)
      → HasTable dir s.memory (page_of vaddr / 2 ^ 10)
      → vaddr + suc count * 2 ^ 12 < 2 ^ 32
      → unmap_pages page_dir vaddr (suc count) s
        ≡ unmap_pages page_dir (vaddr + 2 ^ 12) count (entered (page_of vaddr) 0 s)
  unfolding unmap_pages temp_map_page temp_load temp_store
  unmap_pages-step count vaddr s has v_room =
      let v_word : u32 (vaddr + 2 ^ 12) ≡ vaddr + 2 ^ 12 = omega arith in
      rw
        (
          pdindex-eq vaddr,
          ne→== (s.memory dir (page_of vaddr / 2 ^ 10) % 2) 0 (λ e. absurd (omega arith)),
          v_word,
        )
        refl

  -- Where the directory has the tables of `count` pages, which are apart from each other and from the
  -- directory, and the pages do not reach the last of the 32-bit addresses: `unmap_pages` returns
  -- true, the entries of these pages are 0, and all other entries in tables of the directory are
  -- kept.
  pub unmap_pages-Mapped :
      (count vaddr : ℕ) (s : Phys)
      → Tables dir s.memory
      → Covered (page_of vaddr) count s.memory
      → vaddr + count * 2 ^ 12 < 2 ^ 32
      → ((unmap_pages page_dir vaddr count s).1 ≡ true)
        × Mapped (page_of vaddr) count (λ k. 0) s (unmap_pages page_dir vaddr count s).0
  unmap_pages-Mapped zero vaddr s t covered v_room =
      unfold unmap_pages in (refl, Mapped-none (page_of vaddr) (λ k. 0) s t)
  unmap_pages-Mapped (suc count) vaddr s t covered v_room =
      let has = has_first (page_of vaddr) count s covered in
      let v_page : page_of (vaddr + 2 ^ 12) ≡ page_of vaddr + 1 = omega arith in
      let s1 = entered (page_of vaddr) 0 s in
      let ih =
        unmap_pages-Mapped count (vaddr + 2 ^ 12) s1
          (with_entry-Tables dir s.memory t (page_of vaddr) 0 has)
          (rw v_page (Covered-next (page_of vaddr) 0 count s t covered)) (omega arith) in
      rw (unmap_pages-step count vaddr s has v_room) (
        ih.0,
        Mapped-suc (page_of vaddr) count (λ k. 0) s
            (unmap_pages page_dir (vaddr + 2 ^ 12) count s1).0 t covered
            (subst
              (λ q. Mapped q count (λ k. 0) s1 (unmap_pages page_dir (vaddr + 2 ^ 12) count s1).0)
              v_page (ih.1)),
      )
