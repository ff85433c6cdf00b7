-- ===== src/PhysMemory/FirstFit.antt =====
-- First fit on the abstract free blocks.
use mathlib.Core.Option
use sandor_os.Prelude.{
  ℕ, ◌+◌, ◌≤◌, ◌<◌, ◌≡◌, refl, inl, inr, Bool, true, false, ◌&&◌, ◌||◌, List, [], ◌∷◌, Option, none,
  some, arith, ltb, leb, ◌==◌, Bool-cases,
}
use sandor_os.PhysMemory.Blocks.{Block, end, Descending, free, total, take}

pub Descending-le :
    (limit limit' : ℕ) (xs : List Block)
    → limit ≤ limit'
    → Descending limit xs
    → Descending limit' xs
Descending-le limit limit' [] h d = tt
Descending-le limit limit' (x ∷ xs) h (pos, lt, d) = (pos, omega arith, d)

-- `p` is one of the `count` frames from `f` on.
abbrev pub in_range : (f count p : ℕ) → Bool
in_range f count p = leb f p && ltb p (f + count)

free-limit : (limit p : ℕ) (xs : List Block) → Descending limit xs → limit ≤ p → free p xs ≡ false
free-limit limit p [] d h = refl
free-limit limit p (x ∷ xs) (pos, lt, d) h = ground (arith, free-limit x.frame p xs d)

-- What is left of the blocks `xs` below `limit`, after `count` pages from `f` on are taken.
pub record Takes (count limit : ℕ) (xs : List Block) (f : ℕ) (ys : List Block) : Type 0 where
  pub order : Descending limit ys
  pub counted : total ys + count ≡ total xs
  pub before : (p : ℕ) → free p xs ≡ (free p ys || in_range f count p)
  pub after : (p : ℕ) → in_range f count p ≡ true → free p ys ≡ false
  pub below : f + count ≤ limit

Takes-cons :
    (count limit : ℕ) (x : Block) (xs : List Block) (f : ℕ) (ys : List Block)
    → 0 < x.pages
    → end x < limit
    → Takes count x.frame xs f ys
    → Takes count limit (x ∷ xs) f (x ∷ ys)
Takes-cons count limit x xs f ys pos lt t = record {
  order = (pos, lt, t.order);
  counted = omega (arith, t.counted);
  before = λ p. ground (arith, t.before p);
  after = λ p h. ground (arith, t.after p, t.below);
  below = omega (arith, t.below);
}

-- The outcome of first fit.
abbrev pub Outcome : (count limit : ℕ) → List Block → Option (ℕ × List Block) → Type 0
Outcome count limit xs none = Unit {0}
Outcome count limit xs (some (f, ys)) = Takes count limit xs f ys

Outcome-cons :
    (count limit : ℕ) (x : Block) (xs : List Block) (o : Option (ℕ × List Block))
    → 0 < x.pages
    → end x < limit
    → Outcome count x.frame xs o
    → Outcome count limit (x ∷ xs) (Option.map (λ (f, ys). (f, x ∷ ys)) o)
Outcome-cons count limit x xs none pos lt t = tt
Outcome-cons count limit x xs (some (f, ys)) pos lt t = Takes-cons count limit x xs f ys pos lt t

pub take-Outcome :
    (count limit : ℕ) (xs : List Block)
    → Descending limit xs
    → Outcome count limit xs (take count xs)
unfolding take
take-Outcome count limit [] d = tt
take-Outcome count limit (x ∷ xs) (pos, lt, d) = elim (Bool-cases (x.pages == count)) [
  | inl exact ↦ rw exact (record {
    order = Descending-le x.frame limit xs (omega arith) d;
    counted = ground arith;
    before = λ p. ground arith;
    after = λ p h. free-limit x.frame p xs d (ground arith);
    below = ground arith;
  })
  | inr other ↦ elim (Bool-cases (ltb count x.pages)) [
    | inl larger ↦
        rw (other, larger)
          (record {
            order = (ground arith, omega arith, d);
            counted = ground arith;
            before = λ p. ground arith;
            after = λ p h. ground (arith, free-limit x.frame p xs d);
            below = ground arith;
          })
    | inr smaller ↦
        rw (other, smaller)
          (Outcome-cons count limit x xs (take count xs) pos lt (take-Outcome count x.frame xs d))
  ]
]
