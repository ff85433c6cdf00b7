-- ===== src/PhysMemory/Kept.antt =====
-- `alloc_phys_pages` writes to the first frames of free blocks only.
use mathlib.Core.Path.{subst}
use sandor_os.PhysMemory.Ring.Edit.{base-frame}
use sandor_os.PhysMemory.State.{IsRing}
use sandor_os.PhysMemory.Ring.{Cycle, last_block, first_or, Cycle-rotate}
use sandor_os.PhysMemory.Blocks.{Block, base, has, has-append}
use sandor_os.PhysMemory.{
  Phys, Frames, take_block, shrink_block, alloc_loop, alloc_phys_pages, count_taken, temp_map_page,
  temp_load, temp_store, frame_count, set, minus_one,
}
use sandor_os.Prelude.{
  ℕ, zero, suc, ◌-◌, ◌/◌, ◌≡◌, refl, sym, ap, ◌∙◌, Bool, true, false, Option, none, some, List, [],
  ◌∷◌, ◌++◌, arith, ltb, ◌==◌, if◌then◌else◌, eq→==, ne→==, ◌≢◌,
}
use mathlib.Core.Option

-- The result of the loop leaves the frame `g` of `m`.
abbrev Leaves : ℕ → Frames → Option (Phys × ℕ) → Type 0
Leaves g m none = Unit
Leaves g m (some (s, r)) = (i : ℕ) → s.memory g i ≡ m g i

take_block-kept :
    (s : Phys) (cur_block g i : ℕ)
    → s.memory s.temp_page 0 / 4096 ≢ g
    → s.memory s.temp_page 1 / 4096 ≢ g
    → (take_block cur_block s).memory g i ≡ s.memory g i
unfolding take_block temp_map_page temp_load temp_store
take_block-kept s cur_block g i next prev = ground arith

Leaves-if :
    (g : ℕ) (m : Frames) (b : Bool) (x y : Option (Phys × ℕ))
    → Leaves g m x
    → Leaves g m y
    → Leaves g m (if b then x else y)
Leaves-if g m true x y p q = p
Leaves-if g m false x y p q = q

last_block-ne :
    (g : ℕ) (x : Block) (xs : List Block) → has g (x ∷ xs) ≡ false → (last_block x xs).frame ≢ g
last_block-ne g x [] out e = ground arith
last_block-ne g x (y ∷ ys) out e = last_block-ne g y ys (ground arith) e

first_or-ne :
    (g : ℕ) (x : Block) (xs : List Block) → has g (x ∷ xs) ≡ false → first_or (base x) xs / 4096 ≢ g
first_or-ne g x [] out e = ground (arith, base-frame x)
first_or-ne g x (y ∷ ys) out e = ground (arith, base-frame y)

set_frame : (m : Frames) (f i v g j : ℕ) → g ≢ f → set m f i v g j ≡ m g j
set_frame m f i v g j ne = rw (ne→== g f ne) refl

module _ (g count : ℕ) where
  -- A round at the first block of a ring, and what comes behind it.
  round-Leaves :
      (fuel : ℕ) (s : Phys) (c : Block) (zs : List Block)
      → Cycle s.memory (c ∷ zs)
      → has g (c ∷ zs) ≡ false
      → Leaves g s.memory (alloc_loop fuel count (first_or (base c) zs) (temp_map_page (base c) s))
      → Leaves g s.memory (alloc_loop (suc fuel) count (base c) s)
  unfolding alloc_loop temp_map_page temp_load temp_store shrink_block
  round-Leaves fuel s c zs ring out rest =
      let s1 = temp_map_page (base c) s in
      let next : s.memory (base c / 4096) 0 / 4096 ≢ g = λ e.
        last_block-ne g c zs out (rw (base-frame c, ring.0, base-frame (last_block c zs)) at e) in
      let prev : s.memory (base c / 4096) 1 / 4096 ≢ g =
        λ e. first_or-ne g c zs out (rw (base-frame c, ring.1) at e) in
      let below : Leaves g s.memory (alloc_loop fuel count (s.memory (base c / 4096) 1) s1) =
        subst (λ p. Leaves g s.memory (alloc_loop fuel count p s1))
          (sym (ap (λ f. s.memory f 1) (base-frame c) ∙ ring.1)) rest in
      let away : g ≢ base c / 4096 = λ e. ground (arith, base-frame c) in
      let taken : Leaves g s.memory (some (take_block (base c) s1, base c)) =
        λ i. take_block-kept s1 (base c) g i next prev in
      let shrunk : Leaves g s.memory (some (shrink_block (base c) count s1)) =
        λ i. set_frame s.memory (base c / 4096) 2 (s.memory (base c / 4096) 2 - count) g i away in
      let ended : Leaves g s.memory (some (s1, minus_one)) = λ i. refl in
      let size = temp_load s1 2 in
      let prev_block = temp_load s1 1 in
      let go_on =
        if prev_block == s1.free_phys_memory_pointer
        then some (s1, minus_one)
        else alloc_loop fuel count prev_block s1 in
      let larger = if ltb count size then some (shrink_block (base c) count s1) else go_on in
      Leaves-if g s.memory (size == count) (some (take_block (base c) s1, base c)) larger taken (
        Leaves-if g s.memory (ltb count size) (some (shrink_block (base c) count s1)) go_on shrunk (
          Leaves-if g s.memory (prev_block == s1.free_phys_memory_pointer) (some (s1, minus_one))
            (alloc_loop fuel count prev_block s1) ended below))

  alloc_loop-Leaves :
      (fuel : ℕ) (s : Phys) (c : Block) (zs : List Block)
      → Cycle s.memory (c ∷ zs)
      → has g (c ∷ zs) ≡ false
      → Leaves g s.memory (alloc_loop fuel count (base c) s)
  unfolding temp_map_page
  alloc_loop-Leaves zero s c zs ring out = unfold alloc_loop in tt
  alloc_loop-Leaves (suc fuel) s c [] ring out =
      round-Leaves fuel s c [] ring out
        (alloc_loop-Leaves fuel (temp_map_page (base c) s) c [] ring out)
  alloc_loop-Leaves (suc fuel) s c (z ∷ zs) ring out = round-Leaves fuel s c (z ∷ zs) ring out (
      alloc_loop-Leaves fuel (temp_map_page (base c) s) z (zs ++ c ∷ [])
        (Cycle-rotate s.memory (c ∷ []) (z ∷ zs) ring) (ground (arith, has-append g zs (c ∷ []))))

  Leaves-counted :
      (m : Frames) (o : Option (Phys × ℕ))
      → Leaves g m o
      → Leaves g m (Option.map (count_taken count) o)
  unfolding count_taken
  Leaves-counted m none h = tt
  Leaves-counted m (some (s, r)) h = λ i. ground (arith, h i)

  searched :
      (s : Phys) (xs : List Block)
      → IsRing s xs
      → has g xs ≡ false
      → Leaves g s.memory (
          if s.free_phys_memory_pointer == minus_one
          then some (s, minus_one)
          else Option.map
              (count_taken count)
              (alloc_loop frame_count count s.free_phys_memory_pointer s))
  searched s [] ring out = rw (eq→== s.free_phys_memory_pointer minus_one ring.pointer) (λ i. refl)
  searched s (x ∷ xs) ring out =
      rw (ne→== s.free_phys_memory_pointer minus_one (λ e. omega (arith, ring.pointer, ring.order)))
        (Leaves-counted s.memory (alloc_loop frame_count count s.free_phys_memory_pointer s) (
          subst (λ p. Leaves g s.memory (alloc_loop frame_count count p s)) (sym ring.pointer)
            (alloc_loop-Leaves frame_count s x xs ring.cycle out)))

  -- On a ring, a frame with which no free block starts keeps its words.
  pub alloc_phys_pages-Leaves :
      (s : Phys) (xs : List Block)
      → IsRing s xs
      → has g xs ≡ false
      → (r : Phys × ℕ) → alloc_phys_pages count s ≡ some r
      → (i : ℕ) → r.0.memory g i ≡ s.memory g i
  unfolding alloc_phys_pages
  alloc_phys_pages-Leaves s xs ring out r e = subst (Leaves g s.memory) e (
      Leaves-if g s.memory (ltb s.free_page_count count) (some (s, minus_one))
        (if s.free_phys_memory_pointer == minus_one
          then some (s, minus_one)
          else Option.map (count_taken count)
              (alloc_loop frame_count count s.free_phys_memory_pointer s))
        (λ i. refl) (searched s xs ring out))
