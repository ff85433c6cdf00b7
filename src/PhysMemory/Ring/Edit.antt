-- ===== src/PhysMemory/Ring/Edit.antt =====
-- What the writes of the page allocator do to its ring.
use sandor_os.Prelude.{ℕ, ◌/◌, ◌≡◌, refl, ◌∙◌, true, false, ◌&&◌, List, [], ◌∷◌, arith, ◌==◌}
use sandor_os.PhysMemory.{Frames, set, page_size}
use sandor_os.PhysMemory.Blocks.{Block, block, base, has, Distinct}
use sandor_os.PhysMemory.Ring.{last_block, Cycle, relink, Chain-frame, has-last, not-both}

pub base-frame : (b : Block) → base b / page_size ≡ b.frame
base-frame b = omega arith

-- What the words of the first block of a ring hold.
module _ (m : Frames) (c z : Block) (zs : List Block) (ring : Cycle m (c ∷ z ∷ zs)) where
  pub next_word : m c.frame 0 ≡ base (last_block z zs)
  next_word = ring.0

  pub prev_word : m c.frame 1 ≡ base z
  prev_word = ring.1

  pub size_word : m c.frame 2 ≡ c.pages
  size_word = ring.2

pub set_skip : (m : Frames) (g j v f i : ℕ) → (f == g && i == j) ≡ false → set m g j v f i ≡ m f i
set_skip m g j v f i p = rw p

pub set_hit : (m : Frames) (g j v : ℕ) → set m g j v g j ≡ v
set_hit m g j v = ground arith

pub set_other : (m : Frames) (g j v f i : ℕ) → (i == j) ≡ false → set m g j v f i ≡ m f i
set_other m g j v f i p = ground arith

-- Three words of one block are set.
abbrev pub header : Frames → (f next prev size : ℕ) → Frames
header m f next prev size = set (set (set m f 0 next) f 1 prev) f 2 size

header-own :
    (m : Frames) (f next prev size : ℕ)
    → let m' = header m f next prev size in (m' f 0 ≡ next) × (m' f 1 ≡ prev) × (m' f 2 ≡ size)
header-own m f next prev size = ground arith

has-first : (x : Block) (xs : List Block) → has x.frame (x ∷ xs) ≡ true
has-first x xs = ground arith

header-ne :
    (m : Frames) (b next prev size f i : ℕ) (xs : List Block)
    → has f xs ≡ true
    → has b xs ≡ false
    → header m b next prev size f i ≡ m f i
header-ne m b next prev size f i xs h fresh =
    let away = λ (j : ℕ). not-both f b xs i j h fresh in
    set_skip (set (set m b 0 next) b 1 prev) b 2 size f i (away 2)
    ∙ set_skip (set m b 0 next) b 1 prev f i (away 1)
    ∙ set_skip m b 0 next f i (away 0)

-- The writes of `alloc_phys_pages` that unlink a block.
abbrev pub unlinked : Frames → (last z : Block) → Frames
unlinked m last z = set (set m last.frame 1 (base z)) z.frame 0 (base last)

pub unlinked-Cycle :
    (m : Frames) (c z : Block) (zs : List Block)
    → Distinct (c ∷ z ∷ zs)
    → Cycle m (c ∷ z ∷ zs)
    → Cycle (unlinked m (last_block z zs) z) (z ∷ zs)
unlinked-Cycle m c z zs (fresh, dis) (u, d, s, chain) =
    let last = last_block z zs in
    let m1 = set m last.frame 1 (base z) in
    relink m (unlinked m last z) (base c) (base last) (base c) (base z) z zs dis chain
      (set_hit m1 z.frame 0 (base last))
      (set_other m1 z.frame 0 (base last) last.frame 1 refl ∙ set_hit m last.frame 1 (base z))
      (λ f i h p q.
        set_skip m1 z.frame 0 (base last) f i p ∙ set_skip m last.frame 1 (base z) f i q)

-- Those of `free_phys_pages` that link the block `b` in above `c`.
abbrev pub inserted : Frames → (last c b : Block) → Frames
inserted m last c b =
    let m1 = set (set m c.frame 0 (base b)) last.frame 1 (base b) in
    header m1 b.frame (base last) (base c) b.pages

pub inserted-Cycle :
    (m : Frames) (c b : Block) (cs : List Block)
    → Distinct (b ∷ c ∷ cs)
    → Cycle m (c ∷ cs)
    → Cycle (inserted m (last_block c cs) c b) (b ∷ c ∷ cs)
inserted-Cycle m c b cs (fresh, dis) chain =
    let last = last_block c cs in
    let m0 = set m c.frame 0 (base b) in
    let m1 = set m0 last.frame 1 (base b) in
    let m' = inserted m last c b in
    let (up, down, size) = header-own m1 b.frame (base last) (base c) b.pages in
    let away = λ (f i : ℕ) (h : has f (c ∷ cs) ≡ true).
      header-ne m1 b.frame (base last) (base c) b.pages f i (c ∷ cs) h fresh in
    (
      up,
      down,
      size,
      relink m m' (base last) (base b) (base c) (base b) c cs dis chain
          (away c.frame 0 (has-first c cs)
            ∙ set_other m0 last.frame 1 (base b) c.frame 0 refl
            ∙ set_hit m c.frame 0 (base b))
          (away last.frame 1 (has-last c cs) ∙ set_hit m0 last.frame 1 (base b))
          (λ f i h p q.
            away f i h
            ∙ set_skip m0 last.frame 1 (base b) f i q
            ∙ set_skip m c.frame 0 (base b) f i p),
    )

-- Those that put the block `b` in the place of `c`.
abbrev pub replaced : Frames → (last z b : Block) → Frames
replaced m last z b =
    let m1 = set (set m last.frame 1 (base b)) z.frame 0 (base b) in
    header m1 b.frame (base last) (base z) b.pages

pub replaced-Cycle :
    (m : Frames) (c z b : Block) (zs : List Block)
    → Distinct (c ∷ z ∷ zs)
    → Distinct (b ∷ z ∷ zs)
    → Cycle m (c ∷ z ∷ zs)
    → Cycle (replaced m (last_block z zs) z b) (b ∷ z ∷ zs)
replaced-Cycle m c z b zs (_, dis) (fresh, _) (u, d, s, chain) =
    let last = last_block z zs in
    let m0 = set m last.frame 1 (base b) in
    let m1 = set m0 z.frame 0 (base b) in
    let m' = replaced m last z b in
    let (up, down, size) = header-own m1 b.frame (base last) (base z) b.pages in
    let away = λ (f i : ℕ) (h : has f (z ∷ zs) ≡ true).
      header-ne m1 b.frame (base last) (base z) b.pages f i (z ∷ zs) h fresh in
    (
      up,
      down,
      size,
      relink m m' (base c) (base b) (base c) (base b) z zs dis chain
          (away z.frame 0 (has-first z zs) ∙ set_hit m0 z.frame 0 (base b))
          (away last.frame 1 (has-last z zs)
            ∙ set_other m0 z.frame 0 (base b) last.frame 1 refl
            ∙ set_hit m last.frame 1 (base b))
          (λ f i h p q.
            away f i h
            ∙ set_skip m0 z.frame 0 (base b) f i p
            ∙ set_skip m last.frame 1 (base b) f i q),
    )

-- A new size for the first block.
pub resized-Cycle :
    (m : Frames) (c : Block) (cs : List Block) (n : ℕ)
    → Distinct (c ∷ cs)
    → Cycle m (c ∷ cs)
    → Cycle (set m c.frame 2 n) (block c.frame n ∷ cs)
resized-Cycle m c [] n dis (u, d, s, chain) = (ground arith, ground arith, ground arith, tt)
resized-Cycle m c (z ∷ zs) n (fresh, dis) (u, d, s, chain) = (
  ground arith,
  ground arith,
  ground arith,
  Chain-frame m (set m c.frame 2 n) (base c) (base c) (z ∷ zs) chain
      (λ f i h. set_skip m c.frame 2 n f i (not-both f c.frame (z ∷ zs) i 2 h fresh)),
)
