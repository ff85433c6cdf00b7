-- ===== src/Startup/Copy.antt =====
-- The loop of `clone_directory` copies the directory that both addresses show.
use sandor_os.VirtBlocks.Directory.{del_virt_block-page_dir}
use sandor_os.VirtBlocks.{del_virt_block}
use sandor_os.VirtPages.{Manager}
use sandor_os.Paging.{unmap_pages}
use native.Mathlib.Decide.{ℕ_discrete}
use sandor_os.Paging.Entries.{set-frame, set-same, set-word}
use sandor_os.Startup.Clone.{virt_load, clone_word, clone_loop, clear_temp_page, fill_clone}
use sandor_os.PhysMemory.{Phys, Frames, temp_store, temp_map_page, set, temp_load, page_size}
use sandor_os.Prelude.{
  ℕ, zero, suc, ◌+◌, ◌*◌, ◌/◌, ◌%◌, ◌^◌, ◌<◌, ◌≤◌, ◌≡◌, refl, sym, ap, ◌∙◌, some, arith, u32, eq→==,
  ne→==, ◌≢◌,
}
use mathlib.Core.Option

-- Page `p` is mapped to frame `f`, and none of the frames on the way is `c`.
pub record Sees (page_dir p f c : ℕ) (m : Frames) : Type 0 where
  pub page_lt : p < 2 ^ 20
  pub off_dir : page_dir / 2 ^ 12 ≢ c
  pub has_table : m (page_dir / 2 ^ 12) (p / 2 ^ 10) % 2 ≡ 1
  pub off_table : m (page_dir / 2 ^ 12) (p / 2 ^ 10) / 2 ^ 12 ≢ c
  pub has_page : m (m (page_dir / 2 ^ 12) (p / 2 ^ 10) / 2 ^ 12) (p % 2 ^ 10) % 2 ≡ 1
  pub frame : m (m (page_dir / 2 ^ 12) (p / 2 ^ 10) / 2 ^ 12) (p % 2 ^ 10) / 2 ^ 12 ≡ f
  pub off_frame : f ≢ c

-- All frames but `c` have the same words.
abbrev pub Outside : ℕ → Frames → Frames → Type 0
Outside c m m' = (g i : ℕ) → g ≢ c → m' g i ≡ m g i

module _ (page_dir p f c : ℕ) where
  pub Sees-Outside :
      (m m' : Frames) → Outside c m m' → Sees page_dir p f c m → Sees page_dir p f c m'
  Sees-Outside m m' same v =
      let d = same (page_dir / 2 ^ 12) (p / 2 ^ 10) v.off_dir in
      let t = same (m (page_dir / 2 ^ 12) (p / 2 ^ 10) / 2 ^ 12) (p % 2 ^ 10) v.off_table in
      record {
        page_lt = v.page_lt;
        off_dir = v.off_dir;
        has_table = rw d v.has_table;
        off_table = rw d v.off_table;
        has_page = rw (d, t) v.has_page;
        frame = rw (d, t) v.frame;
        off_frame = v.off_frame;
      }

  virt_load-Sees :
      (s : Phys) (i : ℕ)
      → Sees page_dir p f c s.memory
      → i < 1024
      → virt_load page_dir (u32 (p * 2 ^ 12 + i * 4)) s ≡ some (s.memory f i)
  unfolding virt_load
  virt_load-Sees s i v lt =
      let low = v.page_lt in
      let d : u32 (p * 2 ^ 12 + i * 4) / 2 ^ 22 ≡ p / 2 ^ 10 = omega arith in
      let t : u32 (p * 2 ^ 12 + i * 4) / 2 ^ 12 % 2 ^ 10 ≡ p % 2 ^ 10 = omega arith in
      let w : u32 (p * 2 ^ 12 + i * 4) / 4 % 2 ^ 10 ≡ i = omega arith in
      rw (d, t, w, v.has_table, v.has_page, v.frame) refl

-- The words of frame `c` from `i` on are those of frame `f`.
record Copied (f c i n : ℕ) (s s' : Phys) : Type 0 where
  copy : (j : ℕ) → i ≤ j → j < i + n → s'.memory c j ≡ s.memory f j
  earlier : (j : ℕ) → j < i → s'.memory c j ≡ s.memory c j
  outside : Outside c s.memory s'.memory

module _ (page_dir p q f c : ℕ) where
  clone_loop-Copied :
      (n i : ℕ) (s : Phys)
      → s.temp_page ≡ c
      → Sees page_dir p f c s.memory
      → Sees page_dir q f c s.memory
      → i + n ≤ 1024
      → (s' : Phys) × (clone_loop page_dir (p * 2 ^ 12) (q * 2 ^ 12) n i s ≡ some s')
        × Copied f c i n s s'
  unfolding clone_loop clone_word temp_store Option.bind
  clone_loop-Copied zero i s at v w le = (
    s,
    refl,
    record {
      copy = λ j h lt. absurd (omega arith);
      earlier = λ j h. refl;
      outside = λ g j ne. refl;
    },
  )
  clone_loop-Copied (suc n) i s at v w le =
      let s1 = temp_store i (s.memory f i) s in
      let same : Outside c s.memory s1.memory =
        λ g j ne. set-frame s.memory s.temp_page i (s.memory f i) g j (λ e. ne (e ∙ at)) in
      let here : s1.memory c i ≡ s.memory f i =
        ap (λ g. s1.memory g i) (sym at) ∙ set-same s.memory s.temp_page i (s.memory f i) in
      let (s', eq, o) =
        clone_loop-Copied n (i + 1) s1 at (Sees-Outside page_dir p f c s.memory s1.memory same v)
          (Sees-Outside page_dir q f c s.memory s1.memory same w) (omega arith) in
      (
        s',
        rw
            (
              virt_load-Sees page_dir p f c s i v (omega arith),
              virt_load-Sees page_dir q f c s i w (omega arith),
              eq→== (s.memory f i) (s.memory f i) refl,
            )
            eq,
        record {
          copy = λ j h lt. elim (ℕ_discrete j i) [
            | yes e ↦ rw e (o.earlier i (omega arith) ∙ here)
            | no ne ↦ o.copy j (omega arith) (omega arith) ∙ same f j v.off_frame
          ];
          earlier = λ j h.
              o.earlier j (omega arith)
              ∙ set-word s.memory s.temp_page i (s.memory f i) c j (λ e. omega arith);
          outside = λ g j ne. o.outside g j ne ∙ same g j ne;
        },
      )

cleared-Outside :
    (c : ℕ) (s : Phys) → s.temp_page ≡ c → Outside c s.memory (clear_temp_page s).memory
unfolding clear_temp_page
cleared-Outside c s at g j ne = rw (at, ne→== g c ne) refl

set-Outside :
    (c : ℕ) (m m' : Frames) (t k v : ℕ) → Outside c m m' → Outside c (set m t k v) (set m' t k v)
set-Outside c m m' t k v same g i ne = rw (same g i ne) refl

-- `unmap_pages` of one page, whose table is mapped, clears its entry.
module _ (page_dir q f c : ℕ) (s : Phys) (w : Sees page_dir q f c s.memory) where
  -- The frame of the page's table.
  abbrev table : ℕ
  table = s.memory (page_dir / 2 ^ 12) (q / 2 ^ 10) / 2 ^ 12

  unmap_one : (unmap_pages page_dir (q * 2 ^ 12) 1 s).0.memory ≡ set s.memory table (q % 2 ^ 10) 0
  unfolding unmap_pages temp_map_page temp_load temp_store
  unmap_one =
      let d : q * 2 ^ 12 / 2 ^ 22 ≡ q / 2 ^ 10 = omega arith in
      let t : q * 2 ^ 12 / 2 ^ 12 % 2 ^ 10 ≡ q % 2 ^ 10 = omega arith in rw (d, t, w.has_table) refl

module _ (mm : Manager) (p q f clone_dir : ℕ) where
  abbrev clone_frame : ℕ
  clone_frame = clone_dir / page_size

  -- Where in the current address space the kernel's directory and the page of the given one are
  -- mapped to the same frame, through tables that are not the clone's frame: the clone is filled, it
  -- has all 1024 entries of that frame, the only other word of memory that changes is the entry of
  -- the given directory's page, which is 0, and the block of that page is deleted.
  pub fill_clone-copy :
      Sees mm.space.page_dir p f clone_frame mm.phys.memory
      → Sees mm.space.page_dir q f clone_frame mm.phys.memory
      → (mm' : Manager) × (fill_clone (p * 2 ^ 12) (q * 2 ^ 12) clone_dir mm ≡ some mm')
        × ((i : ℕ) → i < 1024 → mm'.phys.memory clone_frame i ≡ mm.phys.memory f i)
        × ((g i : ℕ)
            → g ≢ clone_frame
            → mm'.phys.memory g i
              ≡ set mm.phys.memory
                  (mm.phys.memory (mm.space.page_dir / 2 ^ 12) (q / 2 ^ 10) / 2 ^ 12)
                  (q % 2 ^ 10)
                  0
                  g
                  i)
        × (mm'.space ≡ (del_virt_block (q * 2 ^ 12) mm.space).0)
  unfolding fill_clone temp_map_page clear_temp_page
  fill_clone-copy v w =
      let dir = mm.space.page_dir in
      let s0 = temp_map_page clone_dir mm.phys in
      let cleared = cleared-Outside clone_frame s0 refl in
      let v0 =
        Sees-Outside dir p f clone_frame mm.phys.memory (clear_temp_page s0).memory cleared v in
      let w0 =
        Sees-Outside dir q f clone_frame mm.phys.memory (clear_temp_page s0).memory cleared w in
      let (s1, eq, o) =
        clone_loop-Copied dir p q f clone_frame 1024 0 (clear_temp_page s0) refl v0 w0
          (omega arith) in
      let w1 =
        Sees-Outside dir q f clone_frame (clear_temp_page s0).memory s1.memory o.outside w0 in
      let on_dir : Outside clone_frame mm.phys.memory s1.memory =
        λ g i ne. o.outside g i ne ∙ cleared g i ne in
      let same = del_virt_block-page_dir (q * 2 ^ 12) mm.space in
      let one = unmap_one dir q f clone_frame s1 w1 in
      (
        record {
          phys = (unmap_pages dir (q * 2 ^ 12) 1 s1).0;
          space = (del_virt_block (q * 2 ^ 12) mm.space).0;
        },
        rw (eq, same) refl,
        (λ i lt.
            ap (λ m. m clone_frame i) one
            ∙ (set-frame s1.memory (table dir q f clone_frame s1 w1) (q % 2 ^ 10) 0 clone_frame i
                  (λ e. w1.off_table (sym e))
                ∙ (o.copy i (omega arith) lt ∙ cleared f i v.off_frame))),
        (λ g i ne.
            ap (λ m. m g i) one
            ∙ (ap (λ x. set s1.memory (x / 2 ^ 12) (q % 2 ^ 10) 0 g i)
                  (on_dir (dir / 2 ^ 12) (q / 2 ^ 10) v.off_dir)
                ∙ set-Outside clone_frame mm.phys.memory s1.memory
                    (mm.phys.memory (dir / 2 ^ 12) (q / 2 ^ 10) / 2 ^ 12) (q % 2 ^ 10) 0 on_dir g i
                    ne)),
        refl,
      )
