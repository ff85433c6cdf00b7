-- ===== src/PhysMemory/Ring.antt =====
-- The doubly linked ring in which the page allocator keeps its blocks, as a cyclic list.
pub mod Edit
use mathlib.Core.List.{append-nil, append_assoc}
use mathlib.Core.Path.{subst}
use sandor_os.Prelude.{
  ℕ, zero, suc, ◌+◌, ◌-◌, ◌*◌, ◌/◌, ◌^◌, ◌≤◌, ◌<◌, ◌≡◌, ◌≢◌, refl, sym, ap, ◌∙◌, ◌⊎◌, inl, inr,
  Bool, true, false, ◌&&◌, ◌||◌, List, [], ◌∷◌, ◌++◌, Option, none, some, arith, ltb, leb, ◌==◌,
  if◌then◌else◌,
}
use sandor_os.PhysMemory.{Frames, set, page_size}
use sandor_os.PhysMemory.Blocks.{Block, block, base, has, Distinct, Distinct-rotate}

abbrev pub first_or : ℕ → List Block → ℕ
first_or d [] = d
first_or d (x ∷ xs) = base x

abbrev pub last_block : Block → List Block → Block
last_block x [] = x
last_block x (y ∷ ys) = last_block y ys

-- The blocks `xs` are linked in this order, `prev` going down and `next` going up; `up` stands above
-- the first and `down` below the last.
abbrev pub Chain : Frames → (up : ℕ) → List Block → (down : ℕ) → Type 0
Chain m up [] down = Unit {0}
Chain m up (x ∷ xs) down =
    (m x.frame 0 ≡ up)
    × (m x.frame 1 ≡ first_or down xs)
    × (m x.frame 2 ≡ x.pages)
    × Chain m (base x) xs down

-- The ring of the blocks `xs`.
abbrev pub Cycle : Frames → List Block → Type 0
Cycle m [] = Unit {0}
Cycle m (x ∷ xs) = Chain m (base (last_block x xs)) (x ∷ xs) (base x)

Chain-split :
    (m : Frames) (up down : ℕ) (x : Block) (xs : List Block) (y : Block) (ys : List Block)
    → Chain m up (x ∷ xs ++ y ∷ ys) down
    → Chain m up (x ∷ xs) (base y) × Chain m (base (last_block x xs)) (y ∷ ys) down
Chain-split m up down x [] y ys (u, d, s, c) = ((u, d, s, tt), c)
Chain-split m up down x (z ∷ zs) y ys (u, d, s, c) =
    let (c1, c2) = Chain-split m (base x) down z zs y ys c in ((u, d, s, c1), c2)

Chain-join :
    (m : Frames) (up down : ℕ) (x : Block) (xs : List Block) (y : Block) (ys : List Block)
    → Chain m up (x ∷ xs) (base y)
    → Chain m (base (last_block x xs)) (y ∷ ys) down
    → Chain m up (x ∷ xs ++ y ∷ ys) down
Chain-join m up down x [] y ys (u, d, s, _) c = (u, d, s, c)
Chain-join m up down x (z ∷ zs) y ys (u, d, s, c1) c2 =
    (u, d, s, Chain-join m (base x) down z zs y ys c1 c2)

last_block-append :
    (x : Block) (xs : List Block) (y : Block) (ys : List Block)
    → last_block x (xs ++ y ∷ ys) ≡ last_block y ys
last_block-append x [] y ys = refl
last_block-append x (z ∷ zs) y ys = last_block-append z zs y ys

-- A ring may be read from any of its blocks.
pub Cycle-rotate : (m : Frames) (xs ys : List Block) → Cycle m (xs ++ ys) → Cycle m (ys ++ xs)
Cycle-rotate m [] ys c = rw append-nil c
Cycle-rotate m (x ∷ xs) [] c = rw append-nil at c
Cycle-rotate m (x ∷ xs) (y ∷ ys) c =
    let l = last_block-append x xs y ys in
    let (c1, c2) =
      Chain-split m (base (last_block y ys)) (base x) x xs y ys
        (subst (λ b. Chain m (base b) (x ∷ xs ++ y ∷ ys) (base x)) l c) in
    subst (λ b. Chain m (base b) (y ∷ ys ++ x ∷ xs) (base y)) (sym (last_block-append y ys x xs))
      (Chain-join m (base (last_block x xs)) (base y) y ys x xs c2 c1)

pub has-ne : (f g : ℕ) (xs : List Block) → has f xs ≡ true → has g xs ≡ false → (g == f) ≡ false
has-ne f g xs h k = ground arith

pub has-last : (x : Block) (xs : List Block) → has (last_block x xs).frame (x ∷ xs) ≡ true
has-last x [] = ground arith
has-last x (y ∷ ys) = ground (arith, has-last y ys)

pub not-both :
    (f g : ℕ) (xs : List Block) (i j : ℕ)
    → has f xs ≡ true
    → has g xs ≡ false
    → (f == g && i == j) ≡ false
not-both f g xs i j p q = ground (arith, has-ne f g xs p q)

module _ (m m' : Frames) where
  -- The two memories agree on the blocks of `xs`.
  abbrev pub Agree : List Block → Type 0
  Agree xs = (f i : ℕ) → has f xs ≡ true → m' f i ≡ m f i

  -- They agree there but for one word.
  abbrev pub AgreeBut : (g j : ℕ) → List Block → Type 0
  AgreeBut g j xs = (f i : ℕ) → has f xs ≡ true → (f == g && i == j) ≡ false → m' f i ≡ m f i

  -- They agree there but for two words.
  abbrev pub AgreeBut₂ : (g j h k : ℕ) → List Block → Type 0
  AgreeBut₂ g j h k xs =
      (f i : ℕ)
      → has f xs ≡ true
      → (f == g && i == j) ≡ false
      → (f == h && i == k) ≡ false
      → m' f i ≡ m f i

  pub Chain-frame :
      (up down : ℕ) (xs : List Block) → Chain m up xs down → Agree xs → Chain m' up xs down
  Chain-frame up down [] c same = tt
  Chain-frame up down (x ∷ xs) (u, d, s, c) same = (
    ground (arith, same x.frame 0),
    ground (arith, same x.frame 1),
    ground (arith, same x.frame 2),
    Chain-frame (base x) down xs c (λ f i h. same f i (ground arith)),
  )

  relink_down :
      (up down down' : ℕ) (x : Block) (xs : List Block)
      → Distinct (x ∷ xs)
      → Chain m up (x ∷ xs) down
      → m' (last_block x xs).frame 1 ≡ down'
      → AgreeBut (last_block x xs).frame 1 (x ∷ xs)
      → Chain m' up (x ∷ xs) down'
  relink_down up down down' x [] (fresh, _) (u, d, s, c) new same =
      (ground (arith, same x.frame 0), new, ground (arith, same x.frame 2), tt)
  relink_down up down down' x (y ∷ ys) (fresh, dis) (u, d, s, c) new same =
      let last = last_block y ys in
      let ne = has-ne last.frame x.frame (y ∷ ys) (has-last y ys) fresh in
      (
        ground (arith, same x.frame 0),
        ground (arith, same x.frame 1),
        ground (arith, same x.frame 2),
        relink_down (base x) down down' y ys dis c new (λ f i h. same f i (ground arith)),
      )

  -- A chain whose first block gets another block above it and whose last block another below it.
  pub relink :
      (up up' down down' : ℕ) (x : Block) (xs : List Block)
      → Distinct (x ∷ xs)
      → Chain m up (x ∷ xs) down
      → m' x.frame 0 ≡ up'
      → m' (last_block x xs).frame 1 ≡ down'
      → AgreeBut₂ x.frame 0 (last_block x xs).frame 1 (x ∷ xs)
      → Chain m' up' (x ∷ xs) down'
  relink up up' down down' x [] (fresh, _) (u, d, s, c) new new' same =
      (new, new', ground (arith, same x.frame 2), tt)
  relink up up' down down' x (y ∷ ys) (fresh, dis) (u, d, s, c) new new' same =
      let last = last_block y ys in
      let ne = has-ne last.frame x.frame (y ∷ ys) (has-last y ys) fresh in
      (
        new,
        ground (arith, same x.frame 1),
        ground (arith, same x.frame 2),
        relink_down (base x) down down' y ys dis c new'
            (λ f i h but. same f i (ground arith) (not-both f x.frame (y ∷ ys) i 0 h fresh) but),
      )
