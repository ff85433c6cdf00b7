-- ===== src/PhysMemory/Overlap.antt =====
-- Pages freed just below the only free block: `free_phys_pages` leaves that block in the ring.
use mathlib.Core.Path.{subst}
use sandor_os.Prelude.{
  ℕ, suc, ◌+◌, ◌-◌, ◌*◌, ◌<◌, ◌≡◌, refl, sym, ap, ◌∙◌, [], ◌∷◌, some, arith, minus_one, eq→==,
  ne→==, le→ltb, u32, shl,
}
use sandor_os.PhysMemory.{
  Phys, Frames, set, page_size, frame_count, free_loop, free_phys_pages, count_freed, below,
  grow_down,
}
use sandor_os.PhysMemory.Blocks.{Block, block, base, end}
use sandor_os.PhysMemory.Ring.{Cycle}
use sandor_os.PhysMemory.Ring.Edit.{base-frame}
use sandor_os.PhysMemory.State.{IsRing}
use sandor_os.PhysMemory.Branches.{end_address}

module _ (s : Phys) (b c : Block) (pos : 0 < b.pages) (ring : IsRing s (c ∷ []))
    (touch : end b ≡ c.frame) where
  abbrev wide : Block
  wide = block b.frame (b.pages + c.pages)

  abbrev after : Phys
  after = grow_down (base b) b.pages (base c) (base c) (record s { temp_page = c.frame })

  round : (fuel : ℕ) → free_loop (suc fuel) (base b) b.pages (base c) s ≡ some after
  unfolding free_loop below
  round fuel =
      let c_end : u32 (base c + shl c.pages 12) ≡ end c * page_size =
        end_address c.frame c.pages ring.order.1 in
      let b_end : u32 (base b + shl b.pages 12) ≡ end b * page_size =
        end_address b.frame b.pages (omega (arith, ring.order)) in
      rw (
        base-frame c,
        ring.cycle.2,
        ring.cycle.1,
        c_end,
        b_end,
        le→ltb (end c * page_size) (base b) (omega arith),
        ne→== (end c * page_size) (base b) (λ e. omega arith),
        eq→== (end b * page_size) (base c) (omega arith),
        base-frame c,
        ring.cycle.2,
        c_end,
        ne→== (end c * page_size) (base b) (λ e. omega arith),
      )

  words :
      (m : Frames) (f g n k v w : ℕ)
      → f < g
      → m g 2 ≡ k
      → let m' = set (set (set (set (set m g 1 v) g 0 v) f 0 w) f 1 w) f 2 n in
        (m' f 0 ≡ w) × (m' f 1 ≡ w) × (m' f 2 ≡ n) × (m' g 0 ≡ v) × (m' g 1 ≡ v) × (m' g 2 ≡ k)
  words m f g n k v w lt e = ground arith

  abbrev memory_after : Frames
  memory_after =
      let m = set (set s.memory c.frame 1 (base b)) c.frame 0 (base b) in
      set (set (set m b.frame 0 (base c)) b.frame 1 (base c)) b.frame 2 (b.pages + c.pages)

  after-memory : after.memory ≡ memory_after
  unfolding grow_down
  after-memory =
      let sum : u32 (b.pages + c.pages) ≡ b.pages + c.pages = omega (arith, ring.order) in
      rw (
        eq→== (base c) s.free_phys_memory_pointer (sym ring.pointer),
        base-frame c,
        ring.cycle.2,
        ring.cycle.0,
        sum,
        base-frame c,
        base-frame b,
      )

  after-Cycle : Cycle after.memory (wide ∷ c ∷ [])
  after-Cycle =
      let (b0, b1, b2, c0, c1, c2) =
        words s.memory b.frame c.frame (b.pages + c.pages) c.pages (base b) (base c) (omega arith)
          ring.cycle.2 in
      subst (λ m. Cycle m (wide ∷ c ∷ [])) (sym after-memory) (b0, b1, b2, (c0, c1, c2, tt))

  after-pointer : after.free_phys_memory_pointer ≡ base b
  unfolding grow_down
  after-pointer = rw (eq→== (base c) s.free_phys_memory_pointer (sym ring.pointer))

  after-count : after.free_page_count ≡ c.pages
  unfolding grow_down
  after-count =
      rw (eq→== (base c) s.free_phys_memory_pointer (sym ring.pointer))
        (omega (arith, ring.counted))

  -- When some pages are freed just below the only free block of a well-formed ring, the ring then holds
  -- a block of the pages freed and those of the old block together, and the old block as well: each
  -- page of the old block stands in the ring twice.
  pub free_phys_pages-overlap :
      (s' : Phys) × (free_phys_pages (base b) b.pages s ≡ some s')
      × Cycle s'.memory (block b.frame (b.pages + c.pages) ∷ c ∷ [])
      × (s'.free_phys_memory_pointer ≡ base b)
      × (s'.free_page_count ≡ b.pages + c.pages)
  unfolding free_phys_pages count_freed
  free_phys_pages-overlap =
      let e : free_loop frame_count (base b) b.pages s.free_phys_memory_pointer s ≡ some after =
        ap (λ p. free_loop frame_count (base b) b.pages p s) ring.pointer
        ∙ round (frame_count - 1) in
      rw (ne→== s.free_phys_memory_pointer minus_one (λ h. omega (arith, ring.pointer)), e)
        (
          count_freed b.pages after,
          refl,
          after-Cycle,
          after-pointer,
          ap (λ n. u32 (n + b.pages)) after-count ∙ omega (arith, ring.order),
        )
