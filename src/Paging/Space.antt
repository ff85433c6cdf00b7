-- ===== src/Paging/Space.antt =====
-- The page allocator and the page tables together: the directory and its tables are in frames that
-- are not free, which a round of `map_pages` keeps.
use mathlib.Core.Path.{subst}
use sandor_os.Paging.Entries.{HasTable, table_frame, entry_of, Tables, set-frame}
use sandor_os.PhysMemory.FirstFit.{Takes, take-Outcome, in_range, Outcome}
use sandor_os.PhysMemory.Alloc.{alloc_phys_pages-take, Answers}
use sandor_os.PhysMemory.Kept.{alloc_phys_pages-Leaves}
use sandor_os.PhysMemory.State.{IsRing}
use sandor_os.PhysMemory.Ring.{Cycle, Chain-frame}
use sandor_os.PhysMemory.Blocks.{Block, has, free, total, take, Descending, block, free-has}
use sandor_os.PhysMemory.{Phys, Frames, set, alloc_phys_pages, frame_count, page_size}
use sandor_os.Prelude.{
  ℕ, ◌+◌, ◌-◌, ◌*◌, ◌/◌, ◌%◌, ◌^◌, ◌<◌, ◌≤◌, ◌≡◌, refl, sym, ap, ◌∙◌, inl, inr, true, false, some,
  List, [], ◌∷◌, arith, ◌==◌, Bool-cases, lt→ltb, ◌≢◌, or_left, or_right,
}

-- What holds between the allocator's free blocks `xs` and the tables of the directory in frame `d`.
pub record Space (d : ℕ) (s : Phys) (xs : List Block) : Type 0 where
  pub ring : IsRing s xs
  pub tables : Tables d s.memory
  pub dir_used : free d xs ≡ false
  pub used : (i : ℕ) → HasTable d s.memory i → free (table_frame d s.memory i) xs ≡ false

Cycle-frame :
    (m m' : Frames) (xs : List Block)
    → Cycle m xs
    → ((g i : ℕ) → has g xs ≡ true → m' g i ≡ m g i)
    → Cycle m' xs
Cycle-frame m m' [] c same = tt
Cycle-frame m m' (x ∷ xs) c same = Chain-frame m m' _ _ (x ∷ xs) c same

-- A word of a frame that is not free is written, and another frame is mapped.
pub IsRing-set :
    (s : Phys) (xs : List Block) (t i v temp : ℕ)
    → IsRing s xs
    → free t xs ≡ false
    → IsRing (record s { memory = set s.memory t i v; temp_page = temp }) xs
IsRing-set s xs t i v temp ring off = record {
  cycle = Cycle-frame s.memory (set s.memory t i v) xs ring.cycle (λ g j h.
      let away = free-has frame_count t xs ring.order off in
      set-frame s.memory t i v g j (λ e. ground (arith, h, e)));
  pointer = ring.pointer;
  order = ring.order;
  counted = ring.counted;
}

pub IsRing-temp :
    (s : Phys) (xs : List Block) (temp : ℕ)
    → IsRing s xs
    → IsRing (record s { temp_page = temp }) xs
IsRing-temp s xs temp ring = record {
  cycle = ring.cycle;
  pointer = ring.pointer;
  order = ring.order;
  counted = ring.counted;
}

-- One free page is taken.
pub record Took (m : Frames) (xs : List Block) (f : ℕ) (s1 : Phys) (ys : List Block) : Type 0 where
  pub ring : IsRing s1 ys
  pub was_free : free f xs ≡ true
  pub now_used : free f ys ≡ false
  pub before : (g : ℕ) → free g xs ≡ false → free g ys ≡ false
  pub words : (g i : ℕ) → free g xs ≡ false → s1.memory g i ≡ m g i
  pub counted : total ys + 1 ≡ total xs
  pub below : f + 1 ≤ frame_count

take-found :
    (limit : ℕ) (xs : List Block)
    → Descending limit xs
    → 0 < total xs
    → (r : ℕ × List Block) × (take 1 xs ≡ some r)
unfolding take
take-found limit [] d h = absurd (omega arith)
take-found limit (x ∷ xs) (pos, lt, d) h = elim (Bool-cases (x.pages == 1)) [
  | inl one ↦ rw one ((x.frame, xs), refl)
  | inr more ↦
      rw (more, lt→ltb 1 x.pages (ground arith))
        ((x.frame + (x.pages - 1), block x.frame (x.pages - 1) ∷ xs), refl)
]

in_range_self : (f : ℕ) → in_range f 1 f ≡ true
in_range_self f = ground arith

-- A free frame is not one that is not free.
pub free-ne : (xs : List Block) (f g : ℕ) → free f xs ≡ true → free g xs ≡ false → g ≢ f
free-ne xs f g yes_free no_free e =
    let clash : true ≡ false = sym yes_free ∙ (ap (λ h. free h xs) (sym e) ∙ no_free) in absurd cc

pub alloc-Took :
    (s : Phys) (xs : List Block)
    → IsRing s xs
    → 0 < total xs
    → (s1 : Phys) × (f : ℕ) × (ys : List Block) × (alloc_phys_pages 1 s ≡ some (s1, f * page_size))
      × Took s.memory xs f s1 ys
alloc-Took s xs ring h =
    let ((f, ys), found) = take-found frame_count xs ring.order h in
    let (r, e, a) = alloc_phys_pages-take 1 s xs ring in
    let (address, ring') = subst (λ o. Answers 1 xs o r) found a in
    let t : Takes 1 frame_count xs f ys =
      subst (Outcome 1 frame_count xs) found (take-Outcome 1 frame_count xs ring.order) in
    (
      r.0,
      f,
      ys,
      e ∙ ap (λ a. some (r.0, a)) address,
      record {
        ring = ring';
        was_free = t.before f ∙ or_right (free f ys) (in_range f 1 f) (in_range_self f);
        now_used = t.after f (in_range_self f);
        before = λ g off. or_left (free g ys) (in_range f 1 g) (sym (t.before g) ∙ off);
        words = λ g i off.
            alloc_phys_pages-Leaves g 1 s xs ring (free-has frame_count g xs ring.order off) r e i;
        counted = t.counted;
        below = t.below;
      },
    )

-- Taking a page leaves the directory and its tables.
module _ (d f : ℕ) (s s1 : Phys) (xs ys : List Block) (sp : Space d s xs)
    (took : Took s.memory xs f s1 ys) where
  pub took-dir : (i : ℕ) → s1.memory d i ≡ s.memory d i
  took-dir i = took.words d i sp.dir_used

  pub took-entry :
      (q : ℕ) → HasTable d s.memory (q / 2 ^ 10) → entry_of d s1.memory q ≡ entry_of d s.memory q
  took-entry q h =
      ap (λ x. s1.memory (x / 2 ^ 12) (q % 2 ^ 10)) (took-dir (q / 2 ^ 10))
      ∙ took.words (table_frame d s.memory (q / 2 ^ 10)) (q % 2 ^ 10) (sp.used (q / 2 ^ 10) h)

  pub took-Space : Space d s1 ys
  took-Space = record {
    ring = took.ring;
    tables = record {
      off = λ i h. rw (took-dir i) (sp.tables.off i (rw (took-dir i) at h));
      apart = λ i j h h' e.
          sp.tables.apart i j (rw (took-dir i) at h) (rw (took-dir j) at h')
            (rw (took-dir i, took-dir j) at e);
    };
    dir_used = took.before d sp.dir_used;
    used = λ i h.
        rw (took-dir i) (took.before (table_frame d s.memory i) (sp.used i (rw (took-dir i) at h)));
  }
