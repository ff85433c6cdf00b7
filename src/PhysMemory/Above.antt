-- ===== src/PhysMemory/Above.antt =====
-- Pages above all free blocks: where `free_phys_pages` writes.
use mathlib.Core.Path.{subst}
use native.Mathlib.Decide.{dec_lt}
use sandor_os.PhysMemory.Ring.Edit.{base-frame}
use sandor_os.PhysMemory.State.{IsRing}
use sandor_os.PhysMemory.Ring.{Cycle, last_block}
use sandor_os.PhysMemory.Blocks.{Block, base, end, has, Descending}
use sandor_os.PhysMemory.{
  Phys, Frames, insert_above, grow_up, first_block, free_loop, free_phys_pages, count_freed,
  temp_map_page, temp_load, temp_store, frame_count, minus_one,
}
use sandor_os.Prelude.{
  ℕ, suc, ◌+◌, ◌*◌, ◌/◌, ◌<◌, ◌≤◌, ◌≡◌, sym, ◌∙◌, false, Option, none, some, List, [], ◌∷◌, arith,
  u32, shl, lt→ltb, le→ltb, eq→==, ne→==, ◌≢◌,
}
use mathlib.Core.Option

-- The first frames of the blocks, and that of `b`, have other numbers.
abbrev pub Off : ℕ → Block → List Block → Type 0
Off g b xs = (g ≢ b.frame) × (has g xs ≡ false)

insert_above-kept :
    (base count cur_block g i : ℕ) (s : Phys)
    → s.temp_page ≢ g
    → s.memory s.temp_page 0 / 4096 ≢ g
    → base / 4096 ≢ g
    → (insert_above base count cur_block s).memory g i ≡ s.memory g i
unfolding insert_above temp_map_page temp_load temp_store
insert_above-kept base count cur_block g i s here next new = ground arith

grow_up-kept :
    (base count cur_block g i : ℕ) (s : Phys)
    → s.temp_page ≢ g
    → s.memory s.temp_page 0 ≢ u32 (base + shl count 12)
    → (grow_up base count cur_block s).memory g i ≡ s.memory g i
unfolding grow_up temp_map_page temp_load temp_store
grow_up-kept base count cur_block g i s here far = ground arith

first_block-kept :
    (base count g i : ℕ) (s : Phys)
    → base / 4096 ≢ g
    → (first_block base count s).memory g i ≡ s.memory g i
unfolding first_block temp_map_page temp_load temp_store
first_block-kept base count g i s new = ground arith

-- The result leaves the frame `g` of `m`.
abbrev Keeps : ℕ → Frames → Option Phys → Type 0
Keeps g m none = Unit
Keeps g m (some s) = (i : ℕ) → s.memory g i ≡ m g i

Keeps-counted :
    (g count : ℕ) (m : Frames) (o : Option Phys)
    → Keeps g m o
    → Keeps g m (Option.map (count_freed count) o)
unfolding count_freed
Keeps-counted g count m none h = tt
Keeps-counted g count m (some s) h = h

last_block-le :
    (limit : ℕ) (x : Block) (xs : List Block)
    → Descending limit (x ∷ xs)
    → (last_block x xs).frame ≤ x.frame
last_block-le limit x [] d = omega arith
last_block-le limit x (y ∷ ys) (pos, lt, d) = omega (arith, last_block-le x.frame y ys d)

last_block-ne :
    (g : ℕ) (x : Block) (xs : List Block) → has g (x ∷ xs) ≡ false → (last_block x xs).frame ≢ g
last_block-ne g x [] out e = ground arith
last_block-ne g x (y ∷ ys) out e = last_block-ne g y ys (ground arith) e

module _ (b : Block) (g : ℕ) (pos : 0 < b.pages) (fits : end b < frame_count) where
  free_loop-Keeps :
      (fuel : ℕ) (s : Phys) (x : Block) (xs : List Block)
      → Cycle s.memory (x ∷ xs)
      → Descending frame_count (x ∷ xs)
      → end x ≤ b.frame
      → Off g b (x ∷ xs)
      → Keeps g s.memory (free_loop (suc fuel) (base b) b.pages (base x) s)
  unfolding free_loop temp_map_page temp_load
  free_loop-Keeps fuel s x xs ring d above (new, out) =
      let s1 = temp_map_page (base x) s in
      let head : x.frame ≢ g = λ e. ground arith in
      let next : s1.memory x.frame 0 ≡ base (last_block x xs) = ring.0 in
      let stop : u32 (base x + shl x.pages 12) ≡ end x * 4096 = omega (arith, fits) in
      elim (dec_lt (end x) b.frame) [
        | yes lt ↦
            rw (base-frame x, ring.2, stop, lt→ltb (end x * 4096) (base b) (omega arith))
              (λ i.
                insert_above-kept (base b) b.pages (base x) g i (record s { temp_page = x.frame })
                  head
                  (λ e. last_block-ne g x xs out (rw (next, base-frame (last_block x xs)) at e))
                  (λ e. new (sym (sym (base-frame b) ∙ e))))
        | no ge ↦
            let at : end x * 4096 ≡ base b = omega arith in
            rw
              (
                base-frame x,
                ring.2,
                stop,
                le→ltb (end x * 4096) (base b) (omega arith),
                eq→== (end x * 4096) (base b) at,
              )
              (λ i.
                grow_up-kept (base b) b.pages (base x) g i (record s { temp_page = x.frame }) head
                  (λ e. far (rw next at e)))
      ]
    where
      far : base (last_block x xs) ≢ u32 (base b + shl b.pages 12)
      far e = omega (arith, last_block-le frame_count x xs d, e, pos, fits, above)

  -- On a ring whose blocks end by the first page of `b`, the frames where neither `b` nor a free block
  -- starts keep their words.
  pub free_phys_pages-Keeps :
      (s : Phys) (xs : List Block)
      → IsRing s xs
      → Descending (b.frame + 1) xs
      → Off g b xs
      → (s' : Phys) → free_phys_pages (base b) b.pages s ≡ some s'
      → (i : ℕ) → s'.memory g i ≡ s.memory g i
  unfolding free_phys_pages
  free_phys_pages-Keeps s [] ring d (new, out) s' e =
      let first : Keeps g s.memory (some (count_freed b.pages (first_block (base b) b.pages s))) =
        Keeps-counted g b.pages s.memory (some (first_block (base b) b.pages s)) (λ i.
          first_block-kept (base b) b.pages g i s (λ e. new (sym (sym (base-frame b) ∙ e)))) in
      subst (Keeps g s.memory) e
        (rw (eq→== s.free_phys_memory_pointer minus_one ring.pointer) first)
  free_phys_pages-Keeps s (x ∷ xs) ring d off s' e =
      let loop = free_loop-Keeps 1048575 s x xs ring.cycle ring.order (omega (arith, d)) off in
      let searched =
        subst (λ p. Keeps g s.memory (free_loop frame_count (base b) b.pages p s))
          (sym ring.pointer) loop in
      let counted =
        Keeps-counted g b.pages s.memory
          (free_loop frame_count (base b) b.pages s.free_phys_memory_pointer s) searched in
      subst (Keeps g s.memory) e (
        rw
          (ne→== s.free_phys_memory_pointer minus_one
            (λ z. omega (arith, ring.pointer, ring.order)))
          counted)
