-- ===== src/VirtPages/Fresh.antt =====
-- `alloc_virt_pages` at frames that it takes from the page allocator one by one.
use mathlib.Core.Path.{subst}
use sandor_os.VirtPages.{map_fresh}
use sandor_os.Paging.{map_pages, continue_map}
use sandor_os.Paging.Rounds.{Entered, map_page-Entered}
use sandor_os.Paging.Space.{Space, Took, alloc-Took, took-Space, took-dir, took-entry, free-ne}
use sandor_os.Paging.Map.{dir, page_of}
use sandor_os.Paging.Entries.{HasTable, table_frame, entry_of}
use sandor_os.PhysMemory.Blocks.{Block, free, total}
use sandor_os.PhysMemory.{Phys, Frames, page_size}
use sandor_os.Prelude.{
  ℕ, zero, suc, ◌+◌, ◌*◌, ◌/◌, ◌%◌, ◌^◌, ◌<◌, ◌≤◌, ◌≡◌, refl, sym, ap, ◌∙◌, ◌⊎◌, inl, inr, Bool,
  true, false, some, List, arith, u32, ◌≢◌,
}
use mathlib.Core.Option

module _ (page_dir flags : ℕ) (small : flags < 2 ^ 12) where
  abbrev d : ℕ
  d = dir page_dir

  back : (a b : Bool) → (a ≡ false → b ≡ false) → b ≡ true → a ≡ true
  back true b h on = refl
  back false b h on = let clash : true ≡ false = sym on ∙ h refl in absurd cc

  -- Pages from `p` on are mapped to frames that were free: each to its own, and none to a table.
  pub record Fresh (p count : ℕ) (m : Frames) (xs : List Block) (s' : Phys) (ys : List Block)
      : Type 0 where
    pub frames : ℕ → ℕ
    pub space : Space d s' ys
    pub has : (k : ℕ) → k < count → HasTable d s'.memory ((p + k) / 2 ^ 10)
    pub inside : (k : ℕ) → k < count → entry_of d s'.memory (p + k) ≡ frames k * 2 ^ 12 + flags
    pub was_free : (k : ℕ) → k < count → free (frames k) xs ≡ true
    pub now_used : (k : ℕ) → k < count → free (frames k) ys ≡ false
    pub distinct : (j k : ℕ) → j < k → k < count → frames j ≢ frames k
    pub apart :
        (i k : ℕ) → HasTable d s'.memory i → k < count → table_frame d s'.memory i ≢ frames k
    pub tables_from :
        (i : ℕ)
        → HasTable d s'.memory i
        → (HasTable d m i × (table_frame d s'.memory i ≡ table_frame d m i))
          ⊎ (free (table_frame d s'.memory i) xs ≡ true)
    pub outside :
        (q : ℕ)
        → HasTable d m (q / 2 ^ 10)
        → (q < p) ⊎ (p + count ≤ q)
        → HasTable d s'.memory (q / 2 ^ 10) × (entry_of d s'.memory q ≡ entry_of d m q)
    pub before : (g : ℕ) → free g xs ≡ false → free g ys ≡ false
    pub spent : total xs ≤ total ys + 2 * count

  Fresh-none : (p : ℕ) (s : Phys) (xs : List Block) → Space d s xs → Fresh p 0 s.memory xs s xs
  Fresh-none p s xs sp = record {
    frames = λ k. 0;
    space = sp;
    has = λ k lt. absurd (omega arith);
    inside = λ k lt. absurd (omega arith);
    was_free = λ k lt. absurd (omega arith);
    now_used = λ k lt. absurd (omega arith);
    distinct = λ j k lt lt'. absurd (omega arith);
    apart = λ i k h lt. absurd (omega arith);
    tables_from = λ i h. inl (h, refl);
    outside = λ q h out. (h, refl);
    before = λ g off. off;
    spent = omega arith;
  }

  -- A frame that is free in `xs` when `f` is not.
  other : (xs : List Block) (f g : ℕ) → free f xs ≡ false → free g xs ≡ true → g ≢ f
  other xs f g off on e = free-ne xs g f on off (sym e)

  -- One page with its frame, then the rest.
  module _ (p count f : ℕ) (s s1 s2 s' : Phys) (xs xs1 xs2 ys : List Block) (sp : Space d s xs)
      (took : Took s.memory xs f s1 xs1)
      (first : Entered page_dir p (f * 2 ^ 12 + flags) s1.memory xs1 s2 xs2)
      (rest : Fresh (p + 1) count s2.memory xs2 s' ys) where
    -- A frame that is free later was free before.
    still_xs1 : (g : ℕ) → free g xs2 ≡ true → free g xs1 ≡ true
    still_xs1 g on = back (free g xs1) (free g xs2) (first.before g) on

    still_xs : (g : ℕ) → free g xs1 ≡ true → free g xs ≡ true
    still_xs g on = back (free g xs) (free g xs1) (took.before g) on

    f_used : free f xs2 ≡ false
    f_used = first.before f took.now_used

    dir_same : (i : ℕ) → s1.memory d i ≡ s.memory d i
    dir_same i = took-dir d f s s1 xs xs1 sp took i

    abbrev frames_all : ℕ → ℕ
    frames_all zero = f
    frames_all (suc k) = rest.frames k

    first_kept :
        HasTable d s'.memory (p / 2 ^ 10) × (entry_of d s'.memory p ≡ entry_of d s2.memory p)
    first_kept = rest.outside p first.has (inl (omega arith))

    next : (k : ℕ) → p + 1 + k ≡ p + suc k
    next k = omega arith

    has_all : (k : ℕ) → k < suc count → HasTable d s'.memory ((p + k) / 2 ^ 10)
    has_all zero lt = subst (λ q. HasTable d s'.memory (q / 2 ^ 10)) (omega arith) first_kept.0
    has_all (suc k) lt =
        subst (λ q. HasTable d s'.memory (q / 2 ^ 10)) (next k) (rest.has k (omega arith))

    inside_all :
        (k : ℕ) → k < suc count → entry_of d s'.memory (p + k) ≡ frames_all k * 2 ^ 12 + flags
    inside_all zero lt =
        subst (λ q. entry_of d s'.memory q ≡ f * 2 ^ 12 + flags) (omega arith)
          (first_kept.1 ∙ first.entry)
    inside_all (suc k) lt =
        subst (λ q. entry_of d s'.memory q ≡ rest.frames k * 2 ^ 12 + flags) (next k)
          (rest.inside k (omega arith))

    was_free_all : (k : ℕ) → k < suc count → free (frames_all k) xs ≡ true
    was_free_all zero lt = took.was_free
    was_free_all (suc k) lt =
        still_xs (rest.frames k) (still_xs1 (rest.frames k) (rest.was_free k (omega arith)))

    now_used_all : (k : ℕ) → k < suc count → free (frames_all k) ys ≡ false
    now_used_all zero lt = rest.before f f_used
    now_used_all (suc k) lt = rest.now_used k (omega arith)

    distinct_all : (j k : ℕ) → j < k → k < suc count → frames_all j ≢ frames_all k
    distinct_all j zero lt lt' = absurd (omega arith)
    distinct_all zero (suc k) lt lt' =
        free-ne xs2 (rest.frames k) f (rest.was_free k (omega arith)) f_used
    distinct_all (suc j) (suc k) lt lt' = rest.distinct j k (omega arith) (omega arith)

    old_table : (i : ℕ) → HasTable d s.memory i → table_frame d s.memory i ≢ f
    old_table i h = free-ne xs f (table_frame d s.memory i) took.was_free (sp.used i h)

    tables_all :
        (i : ℕ)
        → HasTable d s'.memory i
        → (HasTable d s.memory i × (table_frame d s'.memory i ≡ table_frame d s.memory i))
          ⊎ (free (table_frame d s'.memory i) xs ≡ true)
    tables_all i h = elim (rest.tables_from i h) [
      | inr on ↦
          inr (still_xs (table_frame d s'.memory i) (still_xs1 (table_frame d s'.memory i) on))
      | inl (h2, same) ↦ elim (first.tables_from i h2) [
        | inr on ↦ inr (still_xs (table_frame d s'.memory i) (ap (λ g. free g xs1) same ∙ on))
        | inl (h1, same1) ↦
            inl (rw (dir_same i) at h1, same ∙ (same1 ∙ ap (λ x. x / 2 ^ 12) (dir_same i)))
      ]
    ]

    apart_all :
        (i k : ℕ)
        → HasTable d s'.memory i
        → k < suc count
        → table_frame d s'.memory i ≢ frames_all k
    apart_all i (suc k) h lt = rest.apart i k h (omega arith)
    apart_all i zero h lt = elim (rest.tables_from i h) [
      | inr on ↦ other xs2 f (table_frame d s'.memory i) f_used on
      | inl (h2, same) ↦ elim (first.tables_from i h2) [
        | inr on ↦ λ e. other xs1 f (table_frame d s2.memory i) took.now_used on (sym same ∙ e)
        | inl (h1, same1) ↦ λ e.
            old_table i (rw (dir_same i) at h1)
              (sym (same ∙ (same1 ∙ ap (λ x. x / 2 ^ 12) (dir_same i))) ∙ e)
      ]
    ]

    outside_all :
        (q : ℕ)
        → HasTable d s.memory (q / 2 ^ 10)
        → (q < p) ⊎ (p + suc count ≤ q)
        → HasTable d s'.memory (q / 2 ^ 10) × (entry_of d s'.memory q ≡ entry_of d s.memory q)
    outside_all q h out =
        let h1 : HasTable d s1.memory (q / 2 ^ 10) = rw (dir_same (q / 2 ^ 10)) h in
        let ne : q ≢ p = elim out [
          | inl lt ↦ λ e. absurd (omega arith)
          | inr ge ↦ λ e. absurd (omega arith)
        ] in
        let (h2, e2) = first.kept q h1 ne in
        let out' : (q < p + 1) ⊎ (p + 1 + count ≤ q) = elim out [
          | inl lt ↦ inl (omega arith)
          | inr ge ↦ inr (omega arith)
        ] in
        let (h3, e3) = rest.outside q h2 out' in
        (h3, e3 ∙ (e2 ∙ took-entry d f s s1 xs xs1 sp took q h))

    Fresh-suc : Fresh p (suc count) s.memory xs s' ys
    Fresh-suc = record {
      frames = frames_all;
      space = rest.space;
      has = has_all;
      inside = inside_all;
      was_free = was_free_all;
      now_used = now_used_all;
      distinct = distinct_all;
      apart = apart_all;
      tables_from = tables_all;
      outside = outside_all;
      before = λ g off. rest.before g (first.before g (took.before g off));
      spent = omega (arith, rest.spent, first.spent, took.counted);
    }

  pub map_fresh-Fresh :
      (count vaddr i : ℕ) (s : Phys) (xs : List Block)
      → Space d s xs
      → 2 * count ≤ total xs
      → vaddr % 2 ^ 12 ≡ 0
      → vaddr + (i + count) * 2 ^ 12 ≤ 2 ^ 32
      → (s' : Phys) × (ys : List Block) × (map_fresh page_dir vaddr i count flags s ≡ some s')
        × Fresh (page_of vaddr + i) count s.memory xs s' ys
  unfolding map_fresh map_pages continue_map Option.bind
  map_fresh-Fresh zero vaddr i s xs sp enough whole room =
      (s, xs, refl, Fresh-none (page_of vaddr + i) s xs sp)
  map_fresh-Fresh (suc count) vaddr i s xs sp enough whole room =
      let (s1, f, xs1, e1, took) = alloc-Took s xs sp.ring (omega arith) in
      let sp1 = took-Space d f s s1 xs xs1 sp took in
      let at = u32 (vaddr + i * 2 ^ 12) in
      let (s2, xs2, e2, first) =
        map_page-Entered page_dir at (f * page_size) flags s1 xs1 small sp1
          (omega (arith, took.counted)) in
      let (s', ys, e, rest) =
        map_fresh-Fresh count vaddr (i + 1) s2 xs2 first.space
          (omega (arith, took.counted, first.spent)) whole (omega arith) in
      let page : page_of at ≡ page_of vaddr + i = omega arith in
      let frame : page_of (f * page_size) ≡ f = omega arith in
      (
        s',
        ys,
        rw (e1, e2) e,
        Fresh-suc (page_of vaddr + i) count f s s1 s2 s' xs xs1 xs2 ys sp took
            (subst (λ q. Entered page_dir q (f * 2 ^ 12 + flags) s1.memory xs1 s2 xs2) page
              (subst (λ x. Entered page_dir (page_of at) (x * 2 ^ 12 + flags) s1.memory xs1 s2 xs2)
                frame first))
            (subst (λ q. Fresh q count s2.memory xs2 s' ys) (omega arith) rest),
      )
