-- ===== src/PhysMemory/Tests.antt =====
-- The theorems on the page allocator at a ring of two free blocks, and at one of one block.
use sandor_os.Prelude.{ℕ, ◌+◌, ◌≡◌, refl, inl, inr, [], ◌∷◌, some, arith, ◌==◌, if◌then◌else◌}
use sandor_os.PhysMemory.{Phys, alloc_phys_pages, free_phys_pages}
use sandor_os.PhysMemory.Blocks.{Block, block, base, take}
use sandor_os.PhysMemory.Ring.{Cycle}
use sandor_os.PhysMemory.State.{IsRing}
use sandor_os.PhysMemory.Release.{links}
use sandor_os.PhysMemory.Alloc.{Answers, alloc_phys_pages-take}
use sandor_os.PhysMemory.Free.{freed, free_phys_pages-freed, free_phys_pages-lost}
use sandor_os.PhysMemory.Overlap.{free_phys_pages-overlap}

abbrev high : Block
high = block 300 10

abbrev low : Block
low = block 100 5

-- The words of a block: its neighbours and its size.
abbrev words : (next prev size i : ℕ) → ℕ
words next prev size i = if i == 0 then next else if i == 1 then prev else size

abbrev two : Phys
two = record {
  memory = λ f. if f == 300 then words 409600 409600 10 else words 1228800 1228800 5;
  temp_page = 0;
  free_page_count = 15;
  free_phys_memory_pointer = 1228800;
}

two-IsRing : IsRing two (high ∷ low ∷ [])
two-IsRing = record {
  cycle = (refl, refl, refl, (refl, refl, refl, tt));
  pointer = refl;
  order = (omega arith, omega arith, (omega arith, omega arith, tt));
  counted = refl;
}

abbrev one : Phys
one = record {
  memory = λ f. words 1228800 1228800 10;
  temp_page = 0;
  free_page_count = 10;
  free_phys_memory_pointer = 1228800;
}

one-IsRing : IsRing one (high ∷ [])
one-IsRing = record {
  cycle = (refl, refl, refl, tt);
  pointer = refl;
  order = (omega arith, omega arith, tt);
  counted = refl;
}

alloc_phys_pages-take_example :
    (r : Phys × ℕ) × (alloc_phys_pages 3 two ≡ some r)
    × Answers 3 (high ∷ low ∷ []) (take 3 (high ∷ low ∷ [])) r
alloc_phys_pages-take_example = alloc_phys_pages-take 3 two (high ∷ low ∷ []) two-IsRing

free_phys_pages-freed_example :
    (s : Phys) × (free_phys_pages (base (block 310 4)) 4 two ≡ some s)
    × IsRing s (freed (block 310 4) (high ∷ low ∷ []))
unfolding links
free_phys_pages-freed_example =
    free_phys_pages-freed (block 310 4) two (omega arith) (omega arith) (high ∷ low ∷ []) two-IsRing
      (inr (omega arith), (inr (omega arith), tt)) (inl (omega arith)) refl

free_phys_pages-lost_example :
    (s : Phys) × (free_phys_pages (base (block 10 2)) 2 two ≡ some s)
    × Cycle s.memory (high ∷ low ∷ [])
    × (s.free_phys_memory_pointer ≡ base high)
    × (s.free_page_count ≡ 15 + 2)
unfolding links
free_phys_pages-lost_example =
    free_phys_pages-lost (block 10 2) two (omega arith) (omega arith) high (low ∷ []) two-IsRing
      (inl (omega arith), (inl (omega arith), tt)) refl

free_phys_pages-overlap_example :
    (s : Phys) × (free_phys_pages (base (block 290 10)) 10 one ≡ some s)
    × Cycle s.memory (block 290 20 ∷ high ∷ [])
    × (s.free_phys_memory_pointer ≡ base (block 290 10))
    × (s.free_page_count ≡ 20)
free_phys_pages-overlap_example =
    free_phys_pages-overlap one (block 290 10) high (omega arith) one-IsRing (omega arith)
