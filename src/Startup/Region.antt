-- ===== src/Startup/Region.antt =====
-- One region of the memory map, above all free blocks.
use sandor_os.PhysMemory.Above.{free_phys_pages-Keeps}
use sandor_os.PhysMemory.State.{IsRing}
use sandor_os.PhysMemory.Free.{freed, accepts, free_phys_pages-freed}
use sandor_os.PhysMemory.Release.{Clear, release-Descending, release-free, links, release-total}
use sandor_os.PhysMemory.FirstFit.{in_range, Descending-le}
use sandor_os.Startup.{MmapEntry, Sized, free_region}
use sandor_os.PhysMemory.{frame_count}
use sandor_os.PhysMemory.Blocks.{Block, block, end, Descending, free, has-lt, base, total, free-has}
use sandor_os.Prelude.{
  ℕ, ◌+◌, ◌/◌, ◌%◌, ◌^◌, ◌<◌, ◌≤◌, ◌≡◌, refl, ◌∙◌, inr, true, false, ◌||◌, some, List, [], ◌∷◌,
  arith, u32, ◌≢◌,
}

-- The pages of a region.
abbrev pub pages_of : MmapEntry → Block
pages_of e = block (e.addr / 2 ^ 12) (e.len / 2 ^ 12)

-- The blocks end by frame `limit`.
abbrev pub UpTo : ℕ → List Block → Type 0
UpTo limit xs = Descending (limit + 1) xs

UpTo-Clear :
    (b : Block) (limit : ℕ) (xs : List Block) → UpTo limit xs → limit ≤ b.frame → Clear b xs
UpTo-Clear b limit [] d h = tt
UpTo-Clear b limit (x ∷ xs) (pos, lt, d) h = (
  inr (omega arith),
  UpTo-Clear b limit xs (Descending-le x.frame (limit + 1) xs (omega arith) d) h,
)

UpTo-accepts :
    (b : Block) (limit : ℕ) (xs : List Block)
    → UpTo limit xs
    → limit ≤ b.frame
    → accepts b xs ≡ true
unfolding links
UpTo-accepts b limit [] d h = refl
UpTo-accepts b limit (x ∷ xs) (pos, lt, d) h = ground arith

pub freed-UpTo :
    (b : Block) (limit : ℕ) (xs : List Block)
    → 0 < b.pages
    → limit ≤ b.frame
    → UpTo limit xs
    → UpTo (end b) (freed b xs)
freed-UpTo b limit [] pos h d = (pos, omega arith, tt)
freed-UpTo b limit (x ∷ xs) pos h d =
    release-Descending b (end b + 1) (x ∷ xs) pos (omega arith)
      (Descending-le (limit + 1) (end b + 1) (x ∷ xs) (omega arith) d)
      (UpTo-Clear b limit (x ∷ xs) d h)

pub freed-free :
    (b : Block) (limit p : ℕ) (xs : List Block)
    → limit ≤ b.frame
    → UpTo limit xs
    → free p (freed b xs) ≡ (free p xs || in_range b.frame b.pages p)
freed-free b limit p [] h d = ground arith
freed-free b limit p (x ∷ xs) h d =
    release-free b (limit + 1) p (x ∷ xs) d (UpTo-Clear b limit (x ∷ xs) d h)
    ∙ rw (UpTo-accepts b limit (x ∷ xs) d h) refl

freed-total :
    (b : Block) (limit : ℕ) (xs : List Block)
    → limit ≤ b.frame
    → UpTo limit xs
    → total (freed b xs) ≡ total xs + b.pages
freed-total b limit [] h d = omega arith
freed-total b limit (x ∷ xs) h d =
    release-total b (x ∷ xs) ∙ rw (UpTo-accepts b limit (x ∷ xs) d h) refl

pub in_range-ne : (f n g : ℕ) → 0 < n → in_range f n g ≡ false → g ≢ f
in_range-ne f n g pos out e = ground arith

-- A region above all free blocks is freed.
pub record Freed (e : MmapEntry) (xs : List Block) (s s1 : Sized) : Type 0 where
  pub ring : IsRing s1.phys (freed (pages_of e) xs)
  pub memory : s1.memory_size ≡ u32 (s.memory_size + e.len)
  pub counted : total (freed (pages_of e) xs) ≡ total xs + e.len / 2 ^ 12
  pub words :
      (g i : ℕ)
      → free g xs ≡ false
      → g ≢ (pages_of e).frame
      → s1.phys.memory g i ≡ s.phys.memory g i

pub free_region-Freed :
    (e : MmapEntry) (limit : ℕ) (s : Sized) (xs : List Block)
    → IsRing s.phys xs
    → UpTo limit xs
    → limit ≤ (pages_of e).frame
    → e.addr % 2 ^ 12 ≡ 0
    → 0 < e.len / 2 ^ 12
    → end (pages_of e) < frame_count
    → (s1 : Sized) × (free_region e s ≡ some s1) × Freed e xs s s1
unfolding free_region
free_region-Freed e limit s xs ring d h aligned pos fits =
    let (p, eq, ring') =
      free_phys_pages-freed (pages_of e) s.phys pos fits xs ring
        (UpTo-Clear (pages_of e) limit xs d h)
        (inr (has-lt (limit + 1) (end (pages_of e)) xs d (omega arith)))
        (UpTo-accepts (pages_of e) limit xs d h) in
    let a : u32 e.addr ≡ base (pages_of e) = omega arith in
    let n : u32 (e.len / 2 ^ 12) ≡ (pages_of e).pages = omega arith in
    (
      record { phys = p; memory_size = u32 (s.memory_size + e.len) },
      rw (a, n, eq) refl,
      record {
        ring = ring';
        memory = refl;
        counted = freed-total (pages_of e) limit xs h d;
        words = λ g i off ne.
            free_phys_pages-Keeps (pages_of e) g pos fits s.phys xs ring
              (Descending-le (limit + 1) ((pages_of e).frame + 1) xs (omega arith) d)
              ((ne, free-has (limit + 1) g xs d off)) p eq i;
      },
    )
