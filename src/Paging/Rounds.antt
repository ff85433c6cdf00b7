-- ===== src/Paging/Rounds.antt =====
-- A round of `map_pages`, with the table of the page or without, and the page allocator.
use sandor_os.PhysMemory.State.{IsRing}
use sandor_os.Paging.{map_page, map_in_new_table, enter_table, enter_page, minus_one, pdindex}
use native.Mathlib.Decide.{ℕ_discrete}
use sandor_os.Paging.Space.{Space, Took, alloc-Took, IsRing-set, free-ne, IsRing-temp}
use sandor_os.Paging.Map.{dir, entered, page_of, map_page-entered, pdindex-eq}
use sandor_os.Paging.Entries.{
  HasTable, table_frame, entry_of, Tables, set-same, set-frame, set-word, directory_kept,
  with_entry-Tables, entry-written, entry-kept,
}
use sandor_os.PhysMemory.Blocks.{Block, free, total}
use sandor_os.PhysMemory.{
  Phys, Frames, set, alloc_phys_pages, temp_map_page, temp_load, temp_store, frame_count, page_size,
}
use sandor_os.Prelude.{
  ℕ, ◌+◌, ◌*◌, ◌/◌, ◌%◌, ◌^◌, ◌<◌, ◌≤◌, ◌≡◌, refl, sym, ap, ◌∙◌, ◌⊎◌, inl, inr, true, false, some,
  List, arith, eq→==, ne→==, ◌≢◌, bit_or-low,
}

module _ (page_dir : ℕ) where
  abbrev d : ℕ
  d = dir page_dir

  -- The entry of page `p` is `w`, and the entries before are kept. At most one page is taken for it.
  pub record Entered (p w : ℕ) (m : Frames) (xs : List Block) (s' : Phys) (ys : List Block)
      : Type 0 where
    pub space : Space d s' ys
    pub has : HasTable d s'.memory (p / 2 ^ 10)
    pub entry : entry_of d s'.memory p ≡ w
    pub kept :
        (q : ℕ)
        → HasTable d m (q / 2 ^ 10)
        → q ≢ p
        → HasTable d s'.memory (q / 2 ^ 10) × (entry_of d s'.memory q ≡ entry_of d m q)
    pub tables_from :
        (i : ℕ)
        → HasTable d s'.memory i
        → (HasTable d m i × (table_frame d s'.memory i ≡ table_frame d m i))
          ⊎ (free (table_frame d s'.memory i) xs ≡ true)
    pub before : (g : ℕ) → free g xs ≡ false → free g ys ≡ false
    pub spent : total xs ≤ total ys + 1

  entered-Entered :
      (p w : ℕ) (s : Phys) (xs : List Block)
      → Space d s xs
      → HasTable d s.memory (p / 2 ^ 10)
      → Entered p w s.memory xs (entered page_dir p w s) xs
  entered-Entered p w s xs sp has =
      let t = table_frame d s.memory (p / 2 ^ 10) in
      let still = directory_kept d s.memory sp.tables p w has in
      record {
        space = record {
          ring = IsRing-set s xs t (p % 2 ^ 10) w t sp.ring (sp.used (p / 2 ^ 10) has);
          tables = with_entry-Tables d s.memory sp.tables p w has;
          dir_used = sp.dir_used;
          used = λ i h. rw (still i) (sp.used i (rw (still i) at h));
        };
        has = rw (still (p / 2 ^ 10)) has;
        entry = entry-written d s.memory sp.tables p w has;
        kept =
            λ q h ne. (rw (still (q / 2 ^ 10)) h, entry-kept d s.memory sp.tables p w has q h ne);
        tables_from = λ i h. inl (rw (still i) at h, rw (still i) refl);
        before = λ g off. off;
        spent = omega arith;
      }

  -- The state with a new table in frame `f` for page `p`, behind its frame's allocation.
  abbrev with_table : (f p w : ℕ) → Phys → Phys
  with_table f p w s1 = record s1 {
    memory = set (set s1.memory d (p / 2 ^ 10) (f * 2 ^ 12 + 7)) f (p % 2 ^ 10) w;
    temp_page = f;
  }

  module _ (p w f : ℕ) (s s1 : Phys) (xs ys : List Block) (sp : Space d s xs)
      (lacks : s.memory d (p / 2 ^ 10) % 2 ≡ 0) (took : Took s.memory xs f s1 ys) where
    abbrev s2 : Phys
    s2 = with_table f p w s1

    abbrev table_index : ℕ
    table_index = p / 2 ^ 10

    fresh : d ≢ f
    fresh = free-ne xs f d took.was_free sp.dir_used

    dir_new : s2.memory d table_index ≡ f * 2 ^ 12 + 7
    dir_new =
        set-frame (set s1.memory d table_index (f * 2 ^ 12 + 7)) f (p % 2 ^ 10) w d table_index
          fresh
        ∙ set-same s1.memory d table_index (f * 2 ^ 12 + 7)

    dir_old : (i : ℕ) → i ≢ table_index → s2.memory d i ≡ s.memory d i
    dir_old i ne =
        set-frame (set s1.memory d table_index (f * 2 ^ 12 + 7)) f (p % 2 ^ 10) w d i fresh
        ∙ (set-word s1.memory d table_index (f * 2 ^ 12 + 7) d i ne ∙ took.words d i sp.dir_used)

    -- A table from before is another one.
    older : (i : ℕ) → HasTable d s.memory i → i ≢ table_index
    older i h e =
        let same : s.memory d i % 2 ≡ s.memory d table_index % 2 = ap (λ j. s.memory d j % 2) e in
        absurd (omega arith)

    old_frame : (g : ℕ) → free g xs ≡ false → g ≢ f
    old_frame g off = free-ne xs f g took.was_free off

    old_words : (g i : ℕ) → free g xs ≡ false → g ≢ d → s2.memory g i ≡ s.memory g i
    old_words g i off ne =
        set-frame (set s1.memory d table_index (f * 2 ^ 12 + 7)) f (p % 2 ^ 10) w g i
          (old_frame g off)
        ∙ (set-frame s1.memory d table_index (f * 2 ^ 12 + 7) g i ne ∙ took.words g i off)

    -- An entry of the directory that names a table is the new one or one from before.
    table_cases :
        (i : ℕ)
        → HasTable d s2.memory i
        → (i ≡ table_index)
          ⊎ (HasTable d s.memory i × (table_frame d s2.memory i ≡ table_frame d s.memory i))
    table_cases i h = elim (ℕ_discrete i table_index) [
      | yes e ↦ inl e
      | no ne ↦ inr (rw (dir_old i ne) at h, rw (dir_old i ne) refl)
    ]

    new_frame : (i : ℕ) → i ≡ table_index → table_frame d s2.memory i ≡ f
    new_frame i e =
        ap (λ j. s2.memory d j / 2 ^ 12) e ∙ (ap (λ x. x / 2 ^ 12) dir_new ∙ omega arith)

    with_table-Tables : Tables d s2.memory
    with_table-Tables = record {
      off = λ i h. elim (table_cases i h) [
        | inl e ↦ λ at. fresh (sym at ∙ new_frame i e)
        | inr (h', same) ↦ λ at. sp.tables.off i h' (sym same ∙ at)
      ];
      apart = λ i j h h' at. elim (table_cases i h) [
        | inl e ↦ elim (table_cases j h') [
          | inl e' ↦ e ∙ sym e'
          | inr (o', same') ↦ absurd (
              old_frame (table_frame d s.memory j) (sp.used j o')
                (sym same' ∙ (sym at ∙ new_frame i e)))
        ]
        | inr (o, same) ↦ elim (table_cases j h') [
          | inl e' ↦ absurd (
              old_frame (table_frame d s.memory i) (sp.used i o) (sym same ∙ (at ∙ new_frame j e')))
          | inr (o', same') ↦ sp.tables.apart i j o o' (sym same ∙ (at ∙ same'))
        ]
      ];
    }

    with_table-used : (i : ℕ) → HasTable d s2.memory i → free (table_frame d s2.memory i) ys ≡ false
    with_table-used i h = elim (table_cases i h) [
      | inl e ↦ ap (λ g. free g ys) (new_frame i e) ∙ took.now_used
      | inr (o, same) ↦
          ap (λ g. free g ys) same ∙ took.before (table_frame d s.memory i) (sp.used i o)
    ]

    with_table-Entered : Entered p w s.memory xs s2 ys
    with_table-Entered = record {
      space = record {
        ring =
            IsRing-set (record s1 { memory = set s1.memory d table_index (f * 2 ^ 12 + 7) }) ys f
              (p % 2 ^ 10) w f
              (IsRing-set s1 ys d table_index (f * 2 ^ 12 + 7) s1.temp_page took.ring
                (took.before d sp.dir_used))
              took.now_used;
        tables = with_table-Tables;
        dir_used = took.before d sp.dir_used;
        used = with_table-used;
      };
      has = ap (λ x. x % 2) dir_new ∙ omega arith;
      entry =
          ap (λ g. s2.memory g (p % 2 ^ 10)) (new_frame table_index refl)
          ∙ set-same (set s1.memory d table_index (f * 2 ^ 12 + 7)) f (p % 2 ^ 10) w;
      kept = λ q h ne.
          let i = q / 2 ^ 10 in
          let same = dir_old i (older i h) in
          (
            rw same h,
            ap (λ x. s2.memory (x / 2 ^ 12) (q % 2 ^ 10)) same
                ∙ old_words (table_frame d s.memory i) (q % 2 ^ 10) (sp.used i h)
                    (sp.tables.off i h),
          );
      tables_from = λ i h. elim (table_cases i h) [
        | inl e ↦ inr (ap (λ g. free g xs) (new_frame i e) ∙ took.was_free)
        | inr old ↦ inl old
      ];
      before = took.before;
      spent = omega (arith, took.counted);
    }

  map_page-new :
      (vaddr paddr flags f : ℕ) (s s1 : Phys)
      → flags < 2 ^ 12
      → s.memory d (page_of vaddr / 2 ^ 10) % 2 ≡ 0
      → f + 1 ≤ frame_count
      → alloc_phys_pages 1 (temp_map_page page_dir s) ≡ some (s1, f * page_size)
      → map_page page_dir vaddr paddr flags s
        ≡ some (with_table f (page_of vaddr) (page_of paddr * 2 ^ 12 + flags) s1, true)
  unfolding map_page map_in_new_table enter_table enter_page temp_map_page temp_load temp_store
  map_page-new vaddr paddr flags f s s1 small lacks below e =
      let i = pdindex vaddr in
      let back : (f * 2 ^ 12 + 7) / 2 ^ 12 ≡ f = omega arith in
      let lacks' : s.memory d i % 2 ≡ 0 = rw (pdindex-eq vaddr) lacks in
      rw
        (
          lacks',
          e,
          ne→== (f * page_size) minus_one (λ z. omega (arith, below)),
          bit_or-low 12 f 7 (omega arith),
          eq→== d d refl,
          eq→== i i refl,
          bit_or-low 12 (page_of paddr) flags small,
          back,
          pdindex-eq vaddr,
        )
        refl

  -- Where pages are free, a round of `map_pages` ends with the entry in the page's table, which is a
  -- new one, in a page taken from the free ones, where the directory has none.
  pub map_page-Entered :
      (vaddr paddr flags : ℕ) (s : Phys) (xs : List Block)
      → flags < 2 ^ 12
      → Space d s xs
      → 0 < total xs
      → (s' : Phys) × (ys : List Block) × (map_page page_dir vaddr paddr flags s ≡ some (s', true))
        × Entered (page_of vaddr) (page_of paddr * 2 ^ 12 + flags) s.memory xs s' ys
  unfolding temp_map_page
  map_page-Entered vaddr paddr flags s xs small sp h =
      let p = page_of vaddr in
      elim (ℕ_discrete (s.memory d (p / 2 ^ 10) % 2) 1) [
        | yes has ↦ (
          entered page_dir p (page_of paddr * 2 ^ 12 + flags) s,
          xs,
          map_page-entered page_dir vaddr paddr flags s has small,
          entered-Entered p (page_of paddr * 2 ^ 12 + flags) s xs sp has,
        )
        | no lacks ↦
            let z : s.memory d (p / 2 ^ 10) % 2 ≡ 0 = omega arith in
            let ring : IsRing (temp_map_page page_dir s) xs = IsRing-temp s xs d sp.ring in
            let (s1, f, ys, e, took) = alloc-Took (temp_map_page page_dir s) xs ring h in
            (
              with_table f p (page_of paddr * 2 ^ 12 + flags) s1,
              ys,
              map_page-new vaddr paddr flags f s s1 small z took.below e,
              with_table-Entered p (page_of paddr * 2 ^ 12 + flags) f s s1 xs ys sp z took,
            )
      ]
