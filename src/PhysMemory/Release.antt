-- ===== src/PhysMemory/Release.antt =====
-- What `free_phys_pages` does to the abstract free blocks.
use sandor_os.Prelude.{
  ℕ, ◌+◌, ◌≤◌, ◌<◌, ◌≡◌, refl, ◌⊎◌, Bool, false, ◌&&◌, ◌||◌, List, [], ◌∷◌, arith, ltb, leb, ◌==◌,
  if◌then◌else◌,
}
use sandor_os.PhysMemory.Blocks.{Block, block, end, has, Descending, free, total}
use sandor_os.PhysMemory.FirstFit.{in_range}

-- The block `b` stands just below `c`, and may close the gap to the block below `c`.
unfoldable pub merge_below : (b c : Block) → List Block → List Block
merge_below b c [] = block b.frame (b.pages + c.pages) ∷ []
merge_below b c (p ∷ ps) =
    if end p == b.frame
    then block p.frame (p.pages + (c.pages + b.pages)) ∷ ps
    else block b.frame (b.pages + c.pages) ∷ p ∷ ps

unfoldable pub release : Block → List Block → List Block
release b [] = []
release b (c ∷ cs) =
    let rest = c ∷ release b cs in
    if ltb (end c) b.frame
    then b ∷ c ∷ cs
    else if end c == b.frame
    then block c.frame (c.pages + b.pages) ∷ cs
    else if end b == c.frame
    then merge_below b c cs
    else rest

-- `release` finds a place for `b`. Where it finds none, `b` is below all blocks and touches none.
unfoldable pub links : Block → List Block → Bool
links b [] = false
links b (c ∷ cs) = leb (end c) b.frame || (end b == c.frame) || links b cs

-- The pages of `b` are in no block.
abbrev pub Clear : Block → List Block → Type 0
Clear b [] = Unit {0}
Clear b (x ∷ xs) = ((end b ≤ x.frame) ⊎ (end x ≤ b.frame)) × Clear b xs

pub Clear-has :
    (b : Block) (limit : ℕ) (xs : List Block)
    → 0 < b.pages
    → Descending limit xs
    → Clear b xs
    → has b.frame xs ≡ false
Clear-has b limit [] pos d clear = refl
Clear-has b limit (x ∷ xs) pos (pos', lt, d) (apart, clear) =
    ground (arith, Clear-has b x.frame xs pos d clear)

merge_below-Descending :
    (b c : Block) (limit : ℕ) (ps : List Block)
    → 0 < b.pages
    → end b ≡ c.frame
    → Descending limit (c ∷ ps)
    → Clear b ps
    → Descending limit (merge_below b c ps)
unfolding merge_below
merge_below-Descending b c limit [] pos at (pos', lt, d) clear = omega arith
merge_below-Descending b c limit (p ∷ ps) pos at (pos', lt, d) (apart, clear) = ground arith

-- The blocks stay in order, with gaps between them.
pub release-Descending :
    (b : Block) (limit : ℕ) (xs : List Block)
    → 0 < b.pages
    → end b < limit
    → Descending limit xs
    → Clear b xs
    → Descending limit (release b xs)
unfolding release
release-Descending b limit [] pos lt d clear = tt
release-Descending b limit (c ∷ cs) pos lt (pos', lt', d) (apart, clear) =
    ground (arith, merge_below-Descending b c limit cs, release-Descending b c.frame cs)

merge_below-total :
    (b c : Block) (ps : List Block) → total (merge_below b c ps) ≡ b.pages + (c.pages + total ps)
unfolding merge_below
merge_below-total b c [] = omega arith
merge_below-total b c (p ∷ ps) = ground arith

pub release-total :
    (b : Block) (xs : List Block)
    → total (release b xs) ≡ total xs + (if links b xs then b.pages else 0)
unfolding release links
release-total b [] = refl
release-total b (c ∷ cs) = ground (arith, merge_below-total b c cs, release-total b cs)

merge_below-free :
    (b c : Block) (limit p : ℕ) (ps : List Block)
    → end b ≡ c.frame
    → Descending limit (c ∷ ps)
    → Clear b ps
    → free p (merge_below b c ps) ≡ (free p (c ∷ ps) || in_range b.frame b.pages p)
unfolding merge_below
merge_below-free b c limit p [] at d clear = ground arith
merge_below-free b c limit p (q ∷ qs) at (pos, lt, d) (apart, clear) = ground arith

-- The free pages are those from before and, where `b` finds a place, those of `b`.
pub release-free :
    (b : Block) (limit p : ℕ) (xs : List Block)
    → Descending limit xs
    → Clear b xs
    → free p (release b xs) ≡ (free p xs || (links b xs && in_range b.frame b.pages p))
unfolding release links
release-free b limit p [] d clear = refl
release-free b limit p (c ∷ cs) (pos, lt, d) (apart, clear) =
    ground (arith, merge_below-free b c limit p cs, release-free b c.frame p cs)

pub links-has : (b : Block) (xs : List Block) → links b xs ≡ false → has (end b) xs ≡ false
unfolding links
links-has b [] h = refl
links-has b (c ∷ cs) h = ground (arith, links-has b cs)
