-- ===== src/PhysMemory/State.antt =====
-- When the allocator's state holds a list of free blocks.
use sandor_os.Prelude.{◌≡◌, List, ◌∷◌, ◌++◌, minus_one}
use sandor_os.PhysMemory.{Phys, Frames, frame_count}
use sandor_os.PhysMemory.Blocks.{Block, base, Descending, total}
use sandor_os.PhysMemory.Ring.{Cycle, Cycle-rotate, first_or, last_block}

-- The free blocks of `s` are `xs`, from the highest down: they stand in the ring in this order, the
-- pointer is at the first, and their pages are counted. The last frame of the address space is
-- never free.
pub record IsRing (s : Phys) (xs : List Block) : Type 0 where
  pub cycle : Cycle s.memory xs
  pub pointer : s.free_phys_memory_pointer ≡ first_or minus_one xs
  pub order : Descending frame_count xs
  pub counted : s.free_page_count ≡ total xs

-- The part of it that the loops of the allocator keep: they leave the count to their caller.
pub record Linked (s s' : Phys) (xs : List Block) : Type 0 where
  pub cycle : Cycle s'.memory xs
  pub pointer : s'.free_phys_memory_pointer ≡ first_or minus_one xs
  pub count : s'.free_page_count ≡ s.free_page_count

-- The words of the block `c` between the blocks `pre` above and `post` below it.
module _ (m : Frames) (pre : List Block) (c : Block) (post : List Block)
    (ring : Cycle m (pre ++ c ∷ post)) where
  pub turned : Cycle m (c ∷ post ++ pre)
  turned = Cycle-rotate m pre (c ∷ post) ring

  pub here_next : m c.frame 0 ≡ base (last_block c (post ++ pre))
  here_next = turned.0

  pub here_prev : m c.frame 1 ≡ first_or (base c) (post ++ pre)
  here_prev = turned.1

  pub here_size : m c.frame 2 ≡ c.pages
  here_size = turned.2
