-- ===== src/PhysMemory/Link.antt =====
-- The writes of the branches of `free_phys_pages`, in terms of the ring.
use sandor_os.Prelude.{
  ℕ, ◌+◌, ◌*◌, ◌<◌, ◌≡◌, refl, ap, ◌∙◌, inl, inr, false, List, [], ◌∷◌, ◌++◌, arith, ◌==◌,
  if◌then◌else◌, Bool-cases, u32, shl,
}
use sandor_os.PhysMemory.{
  Phys, Frames, set, page_size, frame_count, insert_above, grow_up, join_three, grow_down,
}
use sandor_os.PhysMemory.Blocks.{Block, block, base, Distinct, Distinct-rotate}
use sandor_os.PhysMemory.Ring.{Cycle, Cycle-rotate, Chain-frame, last_block}
use sandor_os.PhysMemory.Ring.Edit.{
  base-frame, next_word, size_word, inserted, replaced, unlinked, unlinked-Cycle, resized-Cycle,
  set_other,
}

module _ (s : Phys) (b c : Block) where
  pub insert_above-inserted :
      (cs : List Block)
      → s.temp_page ≡ c.frame
      → Cycle s.memory (c ∷ cs)
      → (insert_above (base b) b.pages (base c) s).memory ≡ inserted s.memory (last_block c cs) c b
  unfolding insert_above
  insert_above-inserted cs mapped ring = elim (Bool-cases (base c == s.free_phys_memory_pointer)) [
    | inl at ↦ rw (at, mapped, ring.0, base-frame (last_block c cs), base-frame b)
    | inr off ↦ rw (off, mapped, ring.0, base-frame (last_block c cs), base-frame b)
  ]

  pub insert_above-pointer :
      (insert_above (base b) b.pages (base c) s).free_phys_memory_pointer
      ≡ (if base c == s.free_phys_memory_pointer then base b else s.free_phys_memory_pointer)
  unfolding insert_above
  insert_above-pointer = ground arith

  pub insert_above-count :
      (insert_above (base b) b.pages (base c) s).free_page_count ≡ s.free_page_count
  unfolding insert_above
  insert_above-count = ground arith

  pub grow_up-resized :
      (cs : List Block)
      → s.temp_page ≡ c.frame
      → Cycle s.memory (c ∷ cs)
      → c.pages + b.pages < frame_count
      → (base (last_block c cs) == u32 (base b + shl b.pages 12)) ≡ false
      → grow_up (base b) b.pages (base c) s
        ≡ record s { memory = set s.memory c.frame 2 (c.pages + b.pages) }
  unfolding grow_up
  grow_up-resized cs mapped ring small apart =
      let sum : u32 (c.pages + b.pages) ≡ c.pages + b.pages = omega arith in
      let next : set s.memory c.frame 2 (c.pages + b.pages) c.frame 0 ≡ base (last_block c cs) =
        set_other s.memory c.frame 2 (c.pages + b.pages) c.frame 0 refl ∙ ring.0 in
      rw (mapped, ring.2, sum, next, apart)

last_frame :
    (z : Block) (n : ℕ) (zs : List Block)
    → (last_block z zs).frame ≡ (last_block (block z.frame n) zs).frame
last_frame z n [] = refl
last_frame z n (w ∷ ws) = refl

module _ (s : Phys) (b c z : Block) (zs : List Block) (ring : Cycle s.memory (c ∷ z ∷ zs))
    (small : b.pages + c.pages < frame_count) where
  pub grow_down-replaced :
      (grow_down (base b) b.pages (base c) (base z) s).memory
      ≡ replaced s.memory (last_block z zs) z (block b.frame (b.pages + c.pages))
  unfolding grow_down
  grow_down-replaced =
      let m = s.memory in
      let sum : u32 (b.pages + c.pages) ≡ b.pages + c.pages = omega arith in
      elim (Bool-cases (base c == s.free_phys_memory_pointer)) [
        | inl at ↦ rw (
          at,
          base-frame c,
          size_word m c z zs ring,
          next_word m c z zs ring,
          sum,
          base-frame (last_block z zs),
          base-frame z,
          base-frame b,
        )
        | inr off ↦ rw (
          off,
          base-frame c,
          size_word m c z zs ring,
          next_word m c z zs ring,
          sum,
          base-frame (last_block z zs),
          base-frame z,
          base-frame b,
        )
      ]

  pub grow_down-pointer :
      (grow_down (base b) b.pages (base c) (base z) s).free_phys_memory_pointer
      ≡ (if base c == s.free_phys_memory_pointer then base b else s.free_phys_memory_pointer)
  unfolding grow_down
  grow_down-pointer = ground arith

  pub grow_down-count :
      (grow_down (base b) b.pages (base c) (base z) s).free_page_count ≡ s.free_page_count
  unfolding grow_down
  grow_down-count = ground arith

  -- The writes that join `c` to the block `z` below it, whose size becomes `n`.
  abbrev pub joined : ℕ → Frames
  joined n =
      let last = last_block z zs in
      set (set (set s.memory z.frame 0 (base last)) z.frame 2 n) last.frame 1 (base z)

  joined-unlinked :
      (n f i : ℕ) → joined n f i ≡ unlinked (set s.memory z.frame 2 n) (last_block z zs) z f i
  joined-unlinked n f i =
      words s.memory (last_block z zs).frame z.frame (base z) (base (last_block z zs)) n f i
    where
      words :
          (m : Frames) (l k v w n f i : ℕ)
          → set (set (set m k 0 w) k 2 n) l 1 v f i ≡ set (set (set m k 2 n) l 1 v) k 0 w f i
      words m l k v w n f i = ground arith

  pub join_three-joined :
      z.pages + (c.pages + b.pages) < frame_count
      → s.memory z.frame 2 ≡ z.pages
      → (join_three b.pages (base c) (base z) s).memory ≡ joined (z.pages + (c.pages + b.pages))
  unfolding join_three
  join_three-joined small3 size =
      let m = s.memory in
      let sum : u32 (c.pages + b.pages) ≡ c.pages + b.pages = omega arith in
      let sum3 : u32 (z.pages + (c.pages + b.pages)) ≡ z.pages + (c.pages + b.pages) =
        omega arith in
      let old : set m z.frame 0 (base (last_block z zs)) z.frame 2 ≡ z.pages =
        set_other m z.frame 0 (base (last_block z zs)) z.frame 2 refl ∙ size in
      elim (Bool-cases (base c == s.free_phys_memory_pointer)) [
        | inl at ↦ rw (
          at,
          base-frame c,
          size_word m c z zs ring,
          next_word m c z zs ring,
          sum,
          base-frame z,
          old,
          sum3,
          base-frame (last_block z zs),
        )
        | inr off ↦ rw (
          off,
          base-frame c,
          size_word m c z zs ring,
          next_word m c z zs ring,
          sum,
          base-frame z,
          old,
          sum3,
          base-frame (last_block z zs),
        )
      ]

  pub join_three-pointer :
      (join_three b.pages (base c) (base z) s).free_phys_memory_pointer
      ≡ (if base c == s.free_phys_memory_pointer then base z else s.free_phys_memory_pointer)
  unfolding join_three
  join_three-pointer = ground arith

  pub join_three-count :
      (join_three b.pages (base c) (base z) s).free_page_count ≡ s.free_page_count
  unfolding join_three
  join_three-count = ground arith

  pub joined-Cycle : (n : ℕ) → Distinct (c ∷ z ∷ zs) → Cycle (joined n) (block z.frame n ∷ zs)
  joined-Cycle n dis =
      let m1 = set s.memory z.frame 2 n in
      let z' = block z.frame n in
      let turned = Cycle-rotate s.memory (c ∷ []) (z ∷ zs) ring in
      let dis' = Distinct-rotate (c ∷ []) (z ∷ zs) dis in
      let resized =
        Cycle-rotate m1 (z' ∷ zs) (c ∷ [])
          (resized-Cycle s.memory z (zs ++ c ∷ []) n dis' turned) in
      let out = unlinked-Cycle m1 c z' zs dis resized in
      Chain-frame (unlinked m1 (last_block z' zs) z') (joined n) (base (last_block z' zs)) (base z')
        (z' ∷ zs) out
        (λ f i h.
          joined-unlinked n f i
          ∙ ap (λ (k : ℕ). set (set m1 k 1 (base z)) z.frame 0 (k * page_size) f i)
              (last_frame z n zs))
