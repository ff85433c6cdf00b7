-- ===== src/PhysMemory/Take.antt =====
-- The two ways in which `alloc_phys_pages` takes pages from the mapped block.
use mathlib.Core.Path.{subst}
use sandor_os.Prelude.{
  ℕ, ◌≡◌, refl, sym, ◌∙◌, inl, inr, false, List, [], ◌∷◌, ◌++◌, arith, ◌==◌, if◌then◌else◌,
  Bool-cases, minus_one, eq→==, ne→==,
}
use sandor_os.PhysMemory.{Phys, set, take_block}
use sandor_os.PhysMemory.Blocks.{Block, block, base, has, Distinct, Distinct-rotate, has-append}
use sandor_os.PhysMemory.Ring.{Cycle, Cycle-rotate, first_or, last_block}
use sandor_os.PhysMemory.Ring.Edit.{
  base-frame, unlinked, next_word, prev_word, unlinked-Cycle, resized-Cycle,
}
use sandor_os.PhysMemory.State.{Linked, here_prev, turned}

base-ne :
    (c z : Block) (zs : List Block) → has c.frame (z ∷ zs) ≡ false → (base c == base z) ≡ false
base-ne c z zs h = ne→== (base c) (base z) (λ e. ground arith)

module _ (s : Phys) (c : Block) (mapped : s.temp_page ≡ c.frame) where
  take_block-unlinked :
      (z : Block) (zs : List Block)
      → Cycle s.memory (c ∷ z ∷ zs)
      → (take_block (base c) s).memory ≡ unlinked s.memory (last_block z zs) z
  unfolding take_block
  take_block-unlinked z zs ring =
      let m = s.memory in
      elim (Bool-cases (base c == s.free_phys_memory_pointer)) [
        | inl at ↦ rw (
          at,
          mapped,
          next_word m c z zs ring,
          prev_word m c z zs ring,
          base-frame (last_block z zs),
          base-frame z,
        )
        | inr off ↦ rw (
          off,
          mapped,
          next_word m c z zs ring,
          prev_word m c z zs ring,
          base-frame (last_block z zs),
          base-frame z,
        )
      ]

  take_block-pointer : (take_block (base c) s).free_phys_memory_pointer ≡ (
      if base c == s.free_phys_memory_pointer
      then (if base c == s.memory c.frame 1 then minus_one else s.memory c.frame 1)
      else s.free_phys_memory_pointer)
  unfolding take_block
  take_block-pointer = rw mapped (ground arith)

  take_block-count : (take_block (base c) s).free_page_count ≡ s.free_page_count
  unfolding take_block
  take_block-count = ground arith

-- Distinct blocks of a ring have distinct addresses.
pub base-ne_later :
    (p : Block) (ps : List Block) (c : Block) (post : List Block)
    → Distinct (p ∷ ps ++ c ∷ post)
    → (base c == base p) ≡ false
base-ne_later p ps c post (fresh, dis) =
    ne→== (base c) (base p) (λ e. ground (arith, has-append p.frame ps (c ∷ post)))

module _ (s : Phys) (c : Block) (post : List Block) where
  taken-Cycle :
      (pre : List Block)
      → s.temp_page ≡ c.frame
      → Distinct (pre ++ c ∷ post)
      → Cycle s.memory (pre ++ c ∷ post)
      → Cycle (take_block (base c) s).memory (pre ++ post)
  taken-Cycle pre mapped dis ring =
      Cycle-rotate (take_block (base c) s).memory post pre
        (rest (post ++ pre) (Distinct-rotate pre (c ∷ post) dis) (turned s.memory pre c post ring))
    where
      rest :
          (zs : List Block)
          → Distinct (c ∷ zs)
          → Cycle s.memory (c ∷ zs)
          → Cycle (take_block (base c) s).memory zs
      rest [] dis ring = tt
      rest (z ∷ zs) dis ring =
          subst (λ m. Cycle m (z ∷ zs)) (sym (take_block-unlinked s c mapped z zs ring))
            (unlinked-Cycle s.memory c z zs dis ring)

  taken-pointer :
      (pre : List Block)
      → s.temp_page ≡ c.frame
      → Distinct (pre ++ c ∷ post)
      → Cycle s.memory (pre ++ c ∷ post)
      → s.free_phys_memory_pointer ≡ first_or minus_one (pre ++ c ∷ post)
      → (take_block (base c) s).free_phys_memory_pointer ≡ first_or minus_one (pre ++ post)
  taken-pointer [] mapped dis ring at =
      take_block-pointer s c mapped
      ∙ rw (at, eq→== (base c) (base c) refl, here_prev s.memory [] c post ring) (first post dis)
    where
      first :
          (post : List Block)
          → Distinct (c ∷ post)
          → (if base c == first_or (base c) (post ++ [])
              then minus_one
              else first_or (base c) (post ++ []))
            ≡ first_or minus_one post
      first [] dis = rw (eq→== (base c) (base c) refl)
      first (q ∷ qs) dis = rw (base-ne c q qs dis.0)
  taken-pointer (p ∷ ps) mapped dis ring at =
      take_block-pointer s c mapped ∙ rw (at, base-ne_later p ps c post dis)

  pub taken-Linked :
      (pre : List Block)
      → s.temp_page ≡ c.frame
      → Distinct (pre ++ c ∷ post)
      → Linked s s (pre ++ c ∷ post)
      → Linked s (take_block (base c) s) (pre ++ post)
  taken-Linked pre mapped dis l = record {
    cycle = taken-Cycle pre mapped dis l.cycle;
    pointer = taken-pointer pre mapped dis l.cycle l.pointer;
    count = take_block-count s c mapped;
  }

  -- The block's size is lowered by `count`.
  pub shrunk-Linked :
      (pre : List Block) (n : ℕ)
      → s.temp_page ≡ c.frame
      → Distinct (pre ++ c ∷ post)
      → Linked s s (pre ++ c ∷ post)
      → Linked s (record s { memory = set s.memory c.frame 2 n }) (pre ++ block c.frame n ∷ post)
  shrunk-Linked pre n mapped dis l = record {
    cycle = Cycle-rotate (set s.memory c.frame 2 n) (block c.frame n ∷ post) pre (
        resized-Cycle s.memory c (post ++ pre) n (Distinct-rotate pre (c ∷ post) dis)
          (turned s.memory pre c post l.cycle));
    pointer = l.pointer ∙ same pre;
    count = refl;
  }
    where
      same :
          (pre : List Block)
          → first_or minus_one (pre ++ c ∷ post)
            ≡ first_or minus_one (pre ++ block c.frame n ∷ post)
      same [] = refl
      same (p ∷ ps) = refl
