-- ===== src/PhysMemory/Blocks.antt =====
-- The abstract view of the page allocator: its free blocks, from the highest to the lowest.
use mathlib.Core.Option
use sandor_os.Prelude.{
  ℕ, ◌+◌, ◌-◌, ◌*◌, ◌≤◌, ◌<◌, ◌≡◌, refl, Bool, true, false, ◌&&◌, ◌||◌, List, [], ◌∷◌, ◌++◌, Option,
  none, some, arith, ltb, leb, ◌==◌, if◌then◌else◌,
}
use sandor_os.PhysMemory.{page_size}

-- `pages` free pages from frame `frame` on.
pub record Block : Type 0 where
  pub frame : ℕ
  pub pages : ℕ

abbrev pub block : ℕ → ℕ → Block
block f n = record { frame = f; pages = n }

abbrev pub base : Block → ℕ
base b = b.frame * page_size

abbrev pub end : Block → ℕ
end b = b.frame + b.pages

abbrev pub has : ℕ → List Block → Bool
has f [] = false
has f (x ∷ xs) = (f == x.frame) || has f xs

abbrev pub Distinct : List Block → Type 0
Distinct [] = Unit {0}
Distinct (x ∷ xs) = (has x.frame xs ≡ false) × Distinct xs

-- Nonempty blocks in descending order, below `limit` and with a gap between neighbours.
abbrev pub Descending : ℕ → List Block → Type 0
Descending limit [] = Unit {0}
Descending limit (x ∷ xs) = (0 < x.pages) × (end x < limit) × Descending x.frame xs

-- Frame `p` is free.
abbrev pub free : ℕ → List Block → Bool
free p [] = false
free p (x ∷ xs) = (leb x.frame p && ltb p (end x)) || free p xs

abbrev pub total : List Block → ℕ
total [] = 0
total (x ∷ xs) = x.pages + total xs

-- First fit from the top: the first frame taken and the blocks left.
unfoldable pub take : ℕ → List Block → Option (ℕ × List Block)
take count [] = none
take count (x ∷ xs) =
    let rest = Option.map (λ (f, ys). (f, x ∷ ys)) (take count xs) in
    if x.pages == count
    then some (x.frame, xs)
    else if ltb count x.pages
    then some (x.frame + (x.pages - count), block x.frame (x.pages - count) ∷ xs)
    else rest

pub has-lt : (limit f : ℕ) (xs : List Block) → Descending limit xs → limit ≤ f → has f xs ≡ false
has-lt limit f [] d h = refl
has-lt limit f (x ∷ xs) (pos, lt, d) h = ground (arith, has-lt x.frame f xs d)

pub Descending-Distinct : (limit : ℕ) (xs : List Block) → Descending limit xs → Distinct xs
Descending-Distinct limit [] d = tt
Descending-Distinct limit (x ∷ xs) (pos, lt, d) =
    (has-lt x.frame x.frame xs d (omega arith), Descending-Distinct x.frame xs d)

-- The blocks of `xs` are not in `ys`.
abbrev pub Apart : List Block → List Block → Type 0
Apart xs ys = (f : ℕ) → has f xs ≡ true → has f ys ≡ false

pub has-append : (f : ℕ) (xs ys : List Block) → has f (xs ++ ys) ≡ (has f xs || has f ys)
has-append f [] ys = refl
has-append f (x ∷ xs) ys = ground (arith, has-append f xs ys)

Distinct-split :
    (xs ys : List Block) → Distinct (xs ++ ys) → Distinct xs × Distinct ys × Apart xs ys
Distinct-split [] ys d = (tt, d, λ f h. cc)
Distinct-split (x ∷ xs) ys (fresh, d) =
    let (dx, dy, apart) = Distinct-split xs ys d in
    let split = has-append x.frame xs ys in ((ground arith, dx), dy, λ f h. ground (arith, apart f))

Distinct-join : (xs ys : List Block) → Distinct xs → Distinct ys → Apart xs ys → Distinct (xs ++ ys)
Distinct-join [] ys dx dy apart = dy
Distinct-join (x ∷ xs) ys (fresh, dx) dy apart = (
  ground (arith, has-append x.frame xs ys, apart x.frame),
  Distinct-join xs ys dx dy (λ f h. apart f (ground arith)),
)

pub Distinct-rotate : (xs ys : List Block) → Distinct (xs ++ ys) → Distinct (ys ++ xs)
Distinct-rotate xs ys d =
    let (dx, dy, apart) = Distinct-split xs ys d in
    Distinct-join ys xs dy dx (λ f h. ground (arith, apart f))

-- A frame that is not free heads no block.
pub free-has :
    (limit g : ℕ) (xs : List Block) → Descending limit xs → free g xs ≡ false → has g xs ≡ false
free-has limit g [] d h = refl
free-has limit g (x ∷ xs) (pos, lt, d) h = ground (arith, free-has x.frame g xs d)
