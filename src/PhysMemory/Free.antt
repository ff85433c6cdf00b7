-- ===== src/PhysMemory/Free.antt =====
-- `free_phys_pages` links the pages that it is given into the ring, next to the blocks they touch.
use mathlib.Core.List.{append_assoc}
use mathlib.Core.Path.{subst}
use sandor_os.Prelude.{
  ℕ, zero, suc, ◌+◌, ◌≤◌, ◌<◌, ◌≡◌, refl, sym, ap, ◌∙◌, ◌⊎◌, inl, inr, Bool, true, false, List, [],
  ◌∷◌, ◌++◌, some, arith, ◌==◌, minus_one, ne→==, length, length-append, u32,
}
use sandor_os.PhysMemory.{Phys, frame_count, free_loop, free_phys_pages, count_freed, first_block}
use sandor_os.PhysMemory.Blocks.{Block, base, end, has, has-append, Descending, total}
use sandor_os.PhysMemory.Ring.{Cycle, first_or}
use sandor_os.PhysMemory.Ring.Edit.{base-frame}
use sandor_os.PhysMemory.Release.{
  release, links, links-has, Clear, Clear-has, release-Descending, release-total,
}
use sandor_os.PhysMemory.State.{IsRing, Linked}
use sandor_os.PhysMemory.Alloc.{Linked-self, mapped_at, length-le}
use sandor_os.PhysMemory.Rounds.{At, Loops, here, here_last, here_next}

module _ (b : Block) (pos : 0 < b.pages) (fits : end b < frame_count) where
  At-next :
      (s : Phys) (pre : List Block) (c q : Block) (qs : List Block)
      → At b pos fits s pre c (q ∷ qs)
      → (end b == c.frame) ≡ false
      → At b pos fits (mapped_at s c) (pre ++ c ∷ []) q qs
  At-next s pre c q qs a touches =
      let shift = append_assoc pre (c ∷ []) (q ∷ qs) in
      let s1 = mapped_at s c in
      record {
        linked = subst (Linked s1 s1) (sym shift) (Linked-self s c (pre ++ c ∷ q ∷ qs) a.linked);
        order = subst (Descending frame_count) (sym shift) a.order;
        fresh = subst (λ xs. has b.frame xs ≡ false) (sym shift) a.fresh;
        passed = ground (arith, has-append (end b) pre (c ∷ []), a.passed);
        paired =
            inl (omega (arith, length-append (pre ++ c ∷ []) (q ∷ qs), length-append pre (c ∷ [])));
      }

  -- With fuel for the blocks that are left the loop ends, with the block linked in by `release`.
  free_loop-release :
      (fuel : ℕ) (s : Phys) (pre : List Block) (c : Block) (post : List Block)
      → length (c ∷ post) ≤ fuel
      → At b pos fits s pre c post
      → Loops b pos fits fuel s pre c post
  free_loop-release zero s pre c post h a = absurd (omega arith)
  free_loop-release (suc fuel) s pre c [] h a =
      here b pos fits fuel s pre c [] a (here_last b pos fits fuel s pre c a)
  free_loop-release (suc fuel) s pre c (q ∷ qs) h a =
      here b pos fits fuel s pre c (q ∷ qs) a λ above follows touches.
        here_next b pos fits fuel s pre c q qs a above follows touches (
          free_loop-release fuel (mapped_at s c) (pre ++ c ∷ []) q qs (omega arith)
            (At-next s pre c q qs a touches))

  -- A ring of one block is no place for pages just below that block.
  abbrev pub Paired : List Block → Type 0
  Paired xs = (2 ≤ length xs) ⊎ (has (end b) xs ≡ false)

  free_ring :
      (s : Phys) (x : Block) (xs : List Block)
      → IsRing s (x ∷ xs)
      → Clear b (x ∷ xs)
      → Paired (x ∷ xs)
      → (s' : Phys) × (free_phys_pages (base b) b.pages s ≡ some s')
        × Cycle s'.memory (release b (x ∷ xs))
        × (s'.free_phys_memory_pointer ≡ first_or minus_one (release b (x ∷ xs)))
        × (s'.free_page_count ≡ u32 (total (x ∷ xs) + b.pages))
  unfolding free_phys_pages count_freed
  free_ring s x xs ring clear paired =
      let l : Linked s s (x ∷ xs) = record {
        cycle = ring.cycle;
        pointer = ring.pointer;
        count = refl;
      } in
      let a : At b pos fits s [] x xs = record {
        linked = l;
        order = ring.order;
        fresh = Clear-has b frame_count (x ∷ xs) pos ring.order clear;
        passed = refl;
        paired = ground arith;
      } in
      let (s', e, l') =
        free_loop-release frame_count s [] x xs (length-le 0 frame_count (x ∷ xs) ring.order) a in
      let e' : free_loop frame_count (base b) b.pages s.free_phys_memory_pointer s ≡ some s' =
        ap (λ p. free_loop frame_count (base b) b.pages p s) ring.pointer ∙ e in
      rw (ne→== s.free_phys_memory_pointer minus_one (λ h. omega (arith, ring.pointer)), e')
        (
          count_freed b.pages s',
          refl,
          l'.cycle,
          l'.pointer,
          ap (λ n. u32 (n + b.pages)) (l'.count ∙ ring.counted),
        )

  total-le : (limit : ℕ) (xs : List Block) → Descending limit xs → total xs ≤ limit
  total-le limit [] d = omega arith
  total-le limit (x ∷ xs) (p, lt, d) = omega (arith, total-le x.frame xs d)

  free_empty :
      (s : Phys)
      → IsRing s []
      → (s' : Phys) × (free_phys_pages (base b) b.pages s ≡ some s') × IsRing s' (b ∷ [])
  unfolding free_phys_pages count_freed first_block
  free_empty s ring =
      rw (ring.pointer, base-frame b)
        (
          count_freed b.pages (first_block (base b) b.pages s),
          rw (base-frame b),
          rw (base-frame b) (record {
            cycle = ground arith;
            pointer = refl;
            order = omega arith;
            counted = omega (arith, ring.counted);
          }),
        )

-- Where the pages of `b` go: beside the blocks that they touch, or alone.
abbrev pub freed : Block → List Block → List Block
freed b [] = b ∷ []
freed b (x ∷ xs) = release b (x ∷ xs)

-- `free_phys_pages` finds a place for `b`.
abbrev pub accepts : Block → List Block → Bool
accepts b [] = true
accepts b (x ∷ xs) = links b (x ∷ xs)

module _ (b : Block) (s : Phys) (pos : 0 < b.pages) (fits : end b < frame_count) where
  -- On a well-formed ring `free_phys_pages` of some pages, which end before the last frame, ends, and
  -- its pages join the free blocks, next to the blocks that they touch: if they are in no free block,
  -- are not just below the only block, and are not below all blocks with a gap.
  pub free_phys_pages-freed :
      (xs : List Block)
      → IsRing s xs
      → Clear b xs
      → Paired b pos fits xs
      → accepts b xs ≡ true
      → (s' : Phys) × (free_phys_pages (base b) b.pages s ≡ some s') × IsRing s' (freed b xs)
  free_phys_pages-freed [] ring clear paired in_place = free_empty b pos fits s ring
  free_phys_pages-freed (x ∷ xs) ring clear paired in_place =
      let (s', e, cycle, pointer, count) = free_ring b pos fits s x xs ring clear paired in
      let sum = total-le b pos fits frame_count (x ∷ xs) ring.order in
      let grown : total (release b (x ∷ xs)) ≡ total (x ∷ xs) + b.pages =
        release-total b (x ∷ xs) ∙ rw in_place in
      (
        s',
        e,
        record {
          cycle = cycle;
          pointer = pointer;
          order = release-Descending b frame_count (x ∷ xs) pos fits ring.order clear;
          counted = omega (arith, count, grown, sum);
        },
      )

  release-lost : (xs : List Block) → links b xs ≡ false → release b xs ≡ xs
  unfolding release links
  release-lost [] h = refl
  release-lost (c ∷ cs) h = ground (arith, release-lost cs)

  -- On a well-formed ring, some pages, ending before the last frame and in no free block, that lie
  -- below all free blocks and do not touch the lowest are counted as free by `free_phys_pages`, and
  -- yet are linked in nowhere: the ring holds the same blocks as before.
  pub free_phys_pages-lost :
      (x : Block) (xs : List Block)
      → IsRing s (x ∷ xs)
      → Clear b (x ∷ xs)
      → links b (x ∷ xs) ≡ false
      → (s' : Phys) × (free_phys_pages (base b) b.pages s ≡ some s')
        × Cycle s'.memory (x ∷ xs)
        × (s'.free_phys_memory_pointer ≡ base x)
        × (s'.free_page_count ≡ total (x ∷ xs) + b.pages)
  free_phys_pages-lost x xs ring clear out =
      let (s', e, cycle, pointer, count) =
        free_ring b pos fits s x xs ring clear (inr (links-has b (x ∷ xs) out)) in
      let same = release-lost (x ∷ xs) out in
      let sum = total-le b pos fits frame_count (x ∷ xs) ring.order in
      (
        s',
        e,
        subst (Cycle s'.memory) same cycle,
        pointer ∙ ap (first_or minus_one) same,
        count ∙ omega (arith, sum),
      )
