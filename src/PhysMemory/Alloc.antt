-- ===== src/PhysMemory/Alloc.antt =====
-- `alloc_phys_pages` takes the first block from the top that is large enough.
use sandor_os.PhysMemory.FirstFit.{Outcome, take-Outcome}
use mathlib.Core.Option
use mathlib.Core.List.{append_assoc}
use mathlib.Core.Path.{subst}
use sandor_os.Prelude.{
  ℕ, zero, suc, ◌+◌, ◌-◌, ◌*◌, ◌≤◌, ◌<◌, ◌≡◌, refl, sym, ap, ◌∙◌, inl, inr, true, false, List, [],
  ◌∷◌, ◌++◌, Option, none, some, arith, ltb, ◌==◌, if◌then◌else◌, Bool-cases, minus_one, eq→==,
  ne→==, length, u32, shl,
}
use sandor_os.PhysMemory.{
  Phys, set, page_size, frame_count, take_block, shrink_block, alloc_loop, count_taken,
  alloc_phys_pages,
}
use sandor_os.PhysMemory.Blocks.{
  Block, block, base, end, Distinct, Descending, Descending-Distinct, take, total,
}
use sandor_os.PhysMemory.Ring.{first_or}
use sandor_os.PhysMemory.Ring.Edit.{base-frame}
use sandor_os.PhysMemory.State.{IsRing, Linked, here_prev, here_size}
use sandor_os.PhysMemory.Take.{taken-Linked, shrunk-Linked, base-ne_later}

-- The result `r` and the state `s'` follow the abstract outcome `o`, behind the blocks `pre`.
abbrev pub Allocated :
    (s : Phys) (pre xs : List Block) (o : Option (ℕ × List Block)) → Phys × ℕ → Type 0
Allocated s pre xs none (s', r) = (r ≡ minus_one) × Linked s s' (pre ++ xs)
Allocated s pre xs (some (f, ys)) (s', r) = (r ≡ f * page_size) × Linked s s' (pre ++ ys)

-- A block in the middle of a descending list ends below the limit.
pub Descending-end :
    (limit : ℕ) (pre : List Block) (c : Block) (post : List Block)
    → Descending limit (pre ++ c ∷ post)
    → (0 < c.pages) × (end c < limit)
Descending-end limit [] c post (pos, lt, d) = (pos, lt)
Descending-end limit (p ∷ ps) c post (pos, lt, d) =
    let (pos', lt') = Descending-end p.frame ps c post d in (pos', omega arith)

pub shrink_address :
    (f n k : ℕ)
    → f + n < frame_count
    → u32 (f * page_size + shl (n - k) 12) ≡ (f + (n - k)) * page_size
shrink_address f n k h = omega arith

shrink_block-eq :
    (c : Block) (count : ℕ) (s : Phys)
    → s.temp_page ≡ c.frame
    → s.memory c.frame 2 ≡ c.pages
    → shrink_block (base c) count s ≡ (
      record s { memory = set s.memory c.frame 2 (c.pages - count) },
      u32 (base c + shl (c.pages - count) 12),
    )
unfolding shrink_block
shrink_block-eq c count s mapped size = rw (mapped, size)

-- At the lowest block the way down leads to the pointer, and before that it does not.
pub down_to_pointer :
    (pre : List Block) (c : Block) → first_or (base c) pre ≡ first_or minus_one (pre ++ c ∷ [])
down_to_pointer [] c = refl
down_to_pointer (p ∷ ps) c = refl

pub down_not_pointer :
    (pre : List Block) (c q : Block) (qs : List Block)
    → Distinct (pre ++ c ∷ q ∷ qs)
    → (base q == first_or minus_one (pre ++ c ∷ q ∷ qs)) ≡ false
down_not_pointer [] c q qs dis = base-ne_later c [] q qs dis
down_not_pointer (p ∷ ps) c q qs dis =
    base-ne_later p (ps ++ c ∷ []) q qs
      (subst Distinct (sym (append_assoc (p ∷ ps) (c ∷ []) (q ∷ qs))) dis)

-- The state with another frame mapped.
abbrev pub mapped_at : Phys → Block → Phys
mapped_at s c = record s { temp_page = c.frame }

pub Linked-mapped :
    (s s' : Phys) (c : Block) (xs : List Block) → Linked (mapped_at s c) s' xs → Linked s s' xs
Linked-mapped s s' c xs l = record { cycle = l.cycle; pointer = l.pointer; count = l.count }

pub Linked-self :
    (s : Phys) (c : Block) (xs : List Block)
    → Linked s s xs
    → Linked (mapped_at s c) (mapped_at s c) xs
Linked-self s c xs l = record { cycle = l.cycle; pointer = l.pointer; count = refl }

Allocated-cons :
    (s : Phys) (pre : List Block) (c : Block) (xs : List Block) (o : Option (ℕ × List Block))
    (r : Phys × ℕ)
    → Allocated (mapped_at s c) (pre ++ c ∷ []) xs o r
    → Allocated s pre (c ∷ xs) (Option.map (λ (f, ys). (f, c ∷ ys)) o) r
Allocated-cons s pre c xs none (s', r) (e, l) = (
  e,
  Linked-mapped s s' c (pre ++ c ∷ xs)
      (subst (Linked (mapped_at s c) s') (append_assoc pre (c ∷ []) xs) l),
)
Allocated-cons s pre c xs (some (f, ys)) (s', r) (e, l) = (
  e,
  Linked-mapped s s' c (pre ++ c ∷ ys)
      (subst (Linked (mapped_at s c) s') (append_assoc pre (c ∷ []) ys) l),
)

module _ (count : ℕ) where
  -- The loop from the block `c` on, behind the blocks `pre`.
  abbrev Loops : ℕ → Phys → List Block → Block → List Block → Type 0
  Loops fuel s pre c post =
      (r : Phys × ℕ) × (alloc_loop fuel count (base c) s ≡ some r)
      × Allocated s pre (c ∷ post) (take count (c ∷ post)) r

  module _ (fuel : ℕ) (s : Phys) (pre : List Block) (c : Block) where
    here_exact :
        (post : List Block)
        → Distinct (pre ++ c ∷ post)
        → Linked s s (pre ++ c ∷ post)
        → (c.pages == count) ≡ true
        → Loops (suc fuel) s pre c post
    unfolding alloc_loop take
    here_exact post dis l exact =
        let s1 = mapped_at s c in
        let t = taken-Linked s1 c post pre refl dis (Linked-self s c (pre ++ c ∷ post) l) in
        rw (base-frame c, here_size s.memory pre c post l.cycle, exact)
          (
            (take_block (base c) s1, base c),
            refl,
            (refl, Linked-mapped s (take_block (base c) s1) c (pre ++ post) t),
          )

    here_larger :
        (post : List Block)
        → Descending frame_count (pre ++ c ∷ post)
        → Linked s s (pre ++ c ∷ post)
        → (c.pages == count) ≡ false
        → ltb count c.pages ≡ true
        → Loops (suc fuel) s pre c post
    unfolding alloc_loop take
    here_larger post d l other larger =
        let s1 = mapped_at s c in
        let dis = Descending-Distinct frame_count (pre ++ c ∷ post) d in
        let size = here_size s.memory pre c post l.cycle in
        let n = c.pages - count in
        let t = shrunk-Linked s1 c post pre n refl dis (Linked-self s c (pre ++ c ∷ post) l) in
        rw (base-frame c, size, other, larger, shrink_block-eq c count s1 refl size)
          (
            (record s1 { memory = set s.memory c.frame 2 n }, u32 (base c + shl n 12)),
            refl,
            (
              shrink_address c.frame c.pages count (Descending-end frame_count pre c post d).1,
              Linked-mapped s (record s1 { memory = set s.memory c.frame 2 n }) c
                  (pre ++ block c.frame n ∷ post) t,
            ),
          )

    here_last :
        Linked s s (pre ++ c ∷ [])
        → (c.pages == count) ≡ false
        → ltb count c.pages ≡ false
        → Loops (suc fuel) s pre c []
    unfolding alloc_loop take
    here_last l other smaller =
        let s1 = mapped_at s c in
        let back : (first_or (base c) pre == s.free_phys_memory_pointer) ≡ true =
          eq→== _ _ (down_to_pointer pre c ∙ sym l.pointer) in
        rw
          (
            base-frame c,
            here_size s.memory pre c [] l.cycle,
            other,
            smaller,
            here_prev s.memory pre c [] l.cycle,
            back,
          )
          (
            (s1, minus_one),
            refl,
            (refl, record { cycle = l.cycle; pointer = l.pointer; count = refl }),
          )

    here_next :
        (q : Block) (qs : List Block)
        → Distinct (pre ++ c ∷ q ∷ qs)
        → Linked s s (pre ++ c ∷ q ∷ qs)
        → (c.pages == count) ≡ false
        → ltb count c.pages ≡ false
        → Loops fuel (mapped_at s c) (pre ++ c ∷ []) q qs
        → Loops (suc fuel) s pre c (q ∷ qs)
    unfolding alloc_loop take
    here_next q qs dis l other smaller (r, e, a) =
        let on : (base q == s.free_phys_memory_pointer) ≡ false =
          ap (λ p. base q == p) l.pointer ∙ down_not_pointer pre c q qs dis in
        rw
          (
            base-frame c,
            here_size s.memory pre c (q ∷ qs) l.cycle,
            other,
            smaller,
            here_prev s.memory pre c (q ∷ qs) l.cycle,
            on,
          )
          (r, e, Allocated-cons s pre c (q ∷ qs) (take count (q ∷ qs)) r a)

    here :
        (post : List Block)
        → Descending frame_count (pre ++ c ∷ post)
        → Linked s s (pre ++ c ∷ post)
        → ((c.pages == count) ≡ false → ltb count c.pages ≡ false → Loops (suc fuel) s pre c post)
        → Loops (suc fuel) s pre c post
    here post d l on = elim (Bool-cases (c.pages == count)) [
      | inl exact ↦ here_exact post (Descending-Distinct frame_count (pre ++ c ∷ post) d) l exact
      | inr other ↦ elim (Bool-cases (ltb count c.pages)) [
        | inl larger ↦ here_larger post d l other larger
        | inr smaller ↦ on other smaller
      ]
    ]

  -- With fuel for the blocks that are left the loop ends, in what first fit takes from them.
  alloc_loop-Allocated :
      (fuel : ℕ) (s : Phys) (pre : List Block) (c : Block) (post : List Block)
      → length (c ∷ post) ≤ fuel
      → Descending frame_count (pre ++ c ∷ post)
      → Linked s s (pre ++ c ∷ post)
      → Loops fuel s pre c post
  alloc_loop-Allocated zero s pre c post h d l = absurd (omega arith)
  alloc_loop-Allocated (suc fuel) s pre c [] h d l =
      here fuel s pre c [] d l (here_last fuel s pre c l)
  alloc_loop-Allocated (suc fuel) s pre c (q ∷ qs) h d l =
      let shift = append_assoc pre (c ∷ []) (q ∷ qs) in
      let dis = Descending-Distinct frame_count (pre ++ c ∷ q ∷ qs) d in
      let s1 = mapped_at s c in
      let rest =
        alloc_loop-Allocated fuel s1 (pre ++ c ∷ []) q qs (omega arith)
          (subst (Descending frame_count) (sym shift) d)
          (subst (Linked s1 s1) (sym shift) (Linked-self s c (pre ++ c ∷ q ∷ qs) l)) in
      here fuel s pre c (q ∷ qs) d l
        (λ other smaller. here_next fuel s pre c q qs dis l other smaller rest)

  -- The number of blocks is within the fuel.
  pub length-le : (limit : ℕ) (xs : List Block) → Descending limit xs → length xs ≤ limit
  length-le limit [] d = omega arith
  length-le limit (x ∷ xs) (pos, lt, d) = omega (arith, length-le x.frame xs d)

  take-little : (xs : List Block) → total xs < count → take count xs ≡ none
  unfolding take
  take-little [] h = refl
  take-little (x ∷ xs) h = ground (arith, take-little xs)

  -- What the allocator leaves and returns for an outcome of first fit.
  abbrev pub Answers : List Block → Option (ℕ × List Block) → Phys × ℕ → Type 0
  Answers xs none (s', r) = (r ≡ minus_one) × IsRing s' xs
  Answers xs (some (f, ys)) (s', r) = (r ≡ f * page_size) × IsRing s' ys

  answer :
      (s : Phys) (xs : List Block) (o : Option (ℕ × List Block)) (r : Phys × ℕ)
      → IsRing s xs
      → Outcome count frame_count xs o
      → Allocated s [] xs o r
      → Answers xs o (count_taken count r)
  unfolding count_taken
  answer s xs none (s', r) ring t (e, l) = rw (eq→== r minus_one e) (
    e,
    record {
      cycle = l.cycle;
      pointer = l.pointer;
      order = ring.order;
      counted = l.count ∙ ring.counted;
    },
  )
  answer s xs (some (f, ys)) (s', r) ring t (e, l) = rw (ne→== r minus_one (λ h. omega arith)) (
    e,
    record {
      cycle = l.cycle;
      pointer = l.pointer;
      order = t.order;
      counted = omega (arith, l.count, ring.counted, t.counted);
    },
  )

  search_ring :
      (s : Phys) (x : Block) (xs : List Block)
      → IsRing s (x ∷ xs)
      → (r : Phys × ℕ) × (Option.map
            (count_taken count)
            (alloc_loop frame_count count s.free_phys_memory_pointer s)
          ≡ some r)
        × Answers (x ∷ xs) (take count (x ∷ xs)) r
  search_ring s x xs ring =
      let l : Linked s s (x ∷ xs) = record {
        cycle = ring.cycle;
        pointer = ring.pointer;
        count = refl;
      } in
      let (r, e, a) =
        alloc_loop-Allocated frame_count s [] x xs (length-le frame_count (x ∷ xs) ring.order)
          ring.order l in
      (
        count_taken count r,
        ap (λ p. Option.map (count_taken count) (alloc_loop frame_count count p s)) ring.pointer
            ∙ ap (Option.map (count_taken count)) e,
        answer s (x ∷ xs) (take count (x ∷ xs)) r ring
            (take-Outcome count frame_count (x ∷ xs) ring.order) a,
      )

  -- On a well-formed ring `alloc_phys_pages` ends, and takes what first fit from the highest block
  -- down takes: where first fit finds a block, the result is the address of the pages taken and the
  -- ring holds the blocks left; where it finds none, the result is -1 and the blocks are as before.
  pub alloc_phys_pages-take :
      (s : Phys) (xs : List Block)
      → IsRing s xs
      → (r : Phys × ℕ) × (alloc_phys_pages count s ≡ some r) × Answers xs (take count xs) r
  unfolding alloc_phys_pages
  alloc_phys_pages-take s xs ring = elim (Bool-cases (ltb s.free_page_count count)) [
    | inl few ↦ rw (few, take-little xs (ground arith)) ((s, minus_one), refl, (refl, ring))
    | inr many ↦ rw many (go xs ring)
  ]
    where
      go :
          (xs : List Block)
          → IsRing s xs
          → (r : Phys × ℕ) × ((if s.free_phys_memory_pointer == minus_one
                then some (s, minus_one)
                else Option.map
                    (count_taken count)
                    (alloc_loop frame_count count s.free_phys_memory_pointer s))
              ≡ some r)
            × Answers xs (take count xs) r
      go [] ring =
          rw (eq→== s.free_phys_memory_pointer minus_one ring.pointer)
            ((s, minus_one), refl, unfold take in (refl, ring))
      go (x ∷ xs) ring =
          rw (ne→== s.free_phys_memory_pointer minus_one (λ e. omega (arith, ring.pointer)))
            (search_ring s x xs ring)
