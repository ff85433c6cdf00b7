-- ===== src/PhysMemory/Branches.antt =====
-- Each branch of the loop of `free_phys_pages` on a ring: the blocks `pre` above the block `c`, and
-- `post` below it.
use mathlib.Core.Path.{subst}
use sandor_os.Prelude.{
  ℕ, ◌+◌, ◌*◌, ◌<◌, ◌≡◌, refl, sym, ◌∙◌, false, List, [], ◌∷◌, ◌++◌, arith, ◌==◌, if◌then◌else◌,
  minus_one, eq→==, ne→==, u32, shl,
}
use sandor_os.PhysMemory.{
  Phys, page_size, frame_count, insert_above, grow_up, join_three, grow_down,
}
use sandor_os.PhysMemory.Blocks.{
  Block, block, base, end, has, has-append, Distinct, Distinct-rotate,
}
use sandor_os.PhysMemory.Ring.{Cycle, Cycle-rotate, first_or, last_block, has-ne, has-last}
use sandor_os.PhysMemory.Ring.Edit.{inserted-Cycle, replaced-Cycle}
use sandor_os.PhysMemory.State.{Linked, turned}
use sandor_os.PhysMemory.Take.{shrunk-Linked, base-ne_later}
use sandor_os.PhysMemory.Link

pub end_address :
    (f n : ℕ) → f + n < frame_count → u32 (f * page_size + shl n 12) ≡ (f + n) * page_size
end_address f n h = omega arith

apart_address :
    (b last : Block)
    → end b < frame_count
    → (end b == last.frame) ≡ false
    → (base last == u32 (base b + shl b.pages 12)) ≡ false
apart_address b last fits ne =
    ne→== (base last) (u32 (base b + shl b.pages 12))
      (λ e. ground (arith, end_address b.frame b.pages fits))

pub has-rotate : (f : ℕ) (xs ys : List Block) → has f (xs ++ ys) ≡ false → has f (ys ++ xs) ≡ false
has-rotate f xs ys h = ground (arith, has-append f xs ys, has-append f ys xs)

-- The pointer follows the block whose place `new` takes.
moved_pointer :
    (pointer : ℕ) (pre : List Block) (c : Block) (post : List Block) (new : Block)
    (rest : List Block)
    → Distinct (pre ++ c ∷ post)
    → pointer ≡ first_or minus_one (pre ++ c ∷ post)
    → (if base c == pointer then base new else pointer) ≡ first_or minus_one (pre ++ new ∷ rest)
moved_pointer pointer [] c post new rest dis at = rw (at, eq→== (base c) (base c) refl)
moved_pointer pointer (p ∷ ps) c post new rest dis at = rw (at, base-ne_later p ps c post dis)

module _ (s : Phys) (b : Block) (pre : List Block) (c : Block) (post : List Block)
    (mapped : s.temp_page ≡ c.frame) (dis : Distinct (pre ++ c ∷ post))
    (l : Linked s s (pre ++ c ∷ post)) where
  pub insert_above-Linked :
      has b.frame (pre ++ c ∷ post) ≡ false
      → Linked s (insert_above (base b) b.pages (base c) s) (pre ++ b ∷ c ∷ post)
  insert_above-Linked fresh =
      let ring = turned s.memory pre c post l.cycle in
      let s' = insert_above (base b) b.pages (base c) s in
      let dis' : Distinct (b ∷ c ∷ post ++ pre) =
        (has-rotate b.frame pre (c ∷ post) fresh, Distinct-rotate pre (c ∷ post) dis) in
      record {
        cycle = Cycle-rotate s'.memory (b ∷ c ∷ post) pre (
            subst (λ m. Cycle m (b ∷ c ∷ post ++ pre))
              (sym (Link.insert_above-inserted s b c (post ++ pre) mapped ring))
              (inserted-Cycle s.memory c b (post ++ pre) dis' ring));
        pointer =
            Link.insert_above-pointer s b c
            ∙ moved_pointer s.free_phys_memory_pointer pre c post b (c ∷ post) dis l.pointer;
        count = Link.insert_above-count s b c;
      }

  pub grow_up-Linked :
      c.pages + b.pages < frame_count
      → end b < frame_count
      → has (end b) (c ∷ post ++ pre) ≡ false
      → Linked s
          (grow_up (base b) b.pages (base c) s)
          (pre ++ block c.frame (c.pages + b.pages) ∷ post)
  grow_up-Linked small fits passed =
      let ring = turned s.memory pre c post l.cycle in
      let last = last_block c (post ++ pre) in
      let ne = has-ne last.frame (end b) (c ∷ post ++ pre) (has-last c (post ++ pre)) passed in
      let apart = apart_address b last fits ne in
      subst (λ s'. Linked s s' (pre ++ block c.frame (c.pages + b.pages) ∷ post))
        (sym (Link.grow_up-resized s b c (post ++ pre) mapped ring small apart))
        (shrunk-Linked s c post pre (c.pages + b.pages) mapped dis l)

  module _ (z : Block) (zs : List Block) (others : post ++ pre ≡ z ∷ zs)
      (fresh : has b.frame (pre ++ c ∷ post) ≡ false)
      (small : b.pages + c.pages < frame_count) where
    abbrev around : Cycle s.memory (c ∷ z ∷ zs)
    around = subst (λ ws. Cycle s.memory (c ∷ ws)) others (turned s.memory pre c post l.cycle)

    abbrev apart : Distinct (c ∷ z ∷ zs)
    apart = subst (λ ws. Distinct (c ∷ ws)) others (Distinct-rotate pre (c ∷ post) dis)

    fresh_others : has b.frame (z ∷ zs) ≡ false
    fresh_others =
        subst (λ ws. has b.frame ws ≡ false) others
          (ground (arith, has-rotate b.frame pre (c ∷ post) fresh))

    -- With `z` mapped, `grow_down` puts the longer block in the place of `c`.
    pub grow_down-Linked :
        let s1 : Phys = record s { temp_page = z.frame } in
        Linked s
          (grow_down (base b) b.pages (base c) (base z) s1)
          (pre ++ block b.frame (b.pages + c.pages) ∷ post)
    grow_down-Linked =
        let s1 : Phys = record s { temp_page = z.frame } in
        let s' = grow_down (base b) b.pages (base c) (base z) s1 in
        let b' = block b.frame (b.pages + c.pages) in
        let ring =
          subst (λ m. Cycle m (b' ∷ z ∷ zs))
            (sym (Link.grow_down-replaced s1 b c z zs around small))
            (replaced-Cycle s.memory c z b' zs apart (fresh_others, apart.1) around) in
        record {
          cycle =
              Cycle-rotate s'.memory (b' ∷ post) pre
                (subst (λ ws. Cycle s'.memory (b' ∷ ws)) (sym others) ring);
          pointer =
              Link.grow_down-pointer s1 b c z zs around small
              ∙ moved_pointer s.free_phys_memory_pointer pre c post b' post dis l.pointer;
          count = Link.grow_down-count s1 b c z zs around small;
        }

-- With the block `p` mapped that ends where `b` begins, `join_three` makes one block of the three.
module _ (s : Phys) (b : Block) (pre : List Block) (c p : Block) (ps : List Block)
    (dis : Distinct (pre ++ c ∷ p ∷ ps)) (l : Linked s s (pre ++ c ∷ p ∷ ps))
    (small : b.pages + c.pages < frame_count)
    (small3 : p.pages + (c.pages + b.pages) < frame_count) where
  pub join_three-Linked :
      let s1 : Phys = record s { temp_page = p.frame } in
      Linked s
        (join_three b.pages (base c) (base p) s1)
        (pre ++ block p.frame (p.pages + (c.pages + b.pages)) ∷ ps)
  join_three-Linked =
      let s1 : Phys = record s { temp_page = p.frame } in
      let s' = join_three b.pages (base c) (base p) s1 in
      let n = p.pages + (c.pages + b.pages) in
      let p' = block p.frame n in
      let ring = turned s.memory pre c (p ∷ ps) l.cycle in
      let rotated = Distinct-rotate pre (c ∷ p ∷ ps) dis in
      record {
        cycle = Cycle-rotate s'.memory (p' ∷ ps) pre (
            subst (λ m. Cycle m (p' ∷ ps ++ pre))
              (sym (Link.join_three-joined s1 b c p (ps ++ pre) ring small small3 ring.3.2))
              (Link.joined-Cycle s1 b c p (ps ++ pre) ring small n rotated));
        pointer =
            Link.join_three-pointer s1 b c p (ps ++ pre) ring small
            ∙ moved_pointer s.free_phys_memory_pointer pre c (p ∷ ps) p' ps dis l.pointer;
        count = Link.join_three-count s1 b c p (ps ++ pre) ring small;
      }
