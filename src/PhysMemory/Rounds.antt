-- ===== src/PhysMemory/Rounds.antt =====
-- One round of the loop of `free_phys_pages`, on each of its branches.
use mathlib.Core.List.{append_assoc}
use mathlib.Core.Path.{subst}
use sandor_os.Prelude.{
  ℕ, suc, ◌*◌, ◌≤◌, ◌<◌, ◌≡◌, ◌≢◌, refl, sym, ap, ◌∙◌, ◌⊎◌, inl, inr, true, false, List, [], ◌∷◌,
  ◌++◌, some, arith, ltb, ◌==◌, Bool-cases, eq→==, ne→==, length, ==_iff,
}
use sandor_os.PhysMemory.{Phys, page_size, frame_count, free_loop, below, insert_above, grow_up}
use sandor_os.PhysMemory.Blocks.{
  Block, base, end, has, has-append, has-lt, Descending, Descending-Distinct,
}
use sandor_os.PhysMemory.Ring.{first_or}
use sandor_os.PhysMemory.Ring.Edit.{base-frame}
use sandor_os.PhysMemory.Release.{merge_below, release}
use sandor_os.PhysMemory.State.{Linked, here_prev, here_size, turned}
use sandor_os.PhysMemory.Alloc.{
  Descending-end, down_to_pointer, down_not_pointer, Linked-mapped, Linked-self, mapped_at,
}
use sandor_os.PhysMemory.Branches.{
  end_address, insert_above-Linked, grow_up-Linked, grow_down-Linked, join_three-Linked,
}

ltb_pages : (x y : ℕ) → ltb (x * page_size) (y * page_size) ≡ ltb x y
ltb_pages x y = ground arith

==_pages : (x y : ℕ) → (x * page_size == y * page_size) ≡ (x == y)
==_pages x y = ground arith

-- A later block is lower.
later-lt :
    (limit : ℕ) (p : Block) (ps : List Block) (c : Block) (post : List Block)
    → Descending limit (p ∷ ps ++ c ∷ post)
    → end c < p.frame
later-lt limit p [] c post (pos, lt, (pos', lt', d)) = lt'
later-lt limit p (q ∷ qs) c post (pos, lt, d) = omega (arith, later-lt p.frame q qs c post d, d)

Descending-tail :
    (limit : ℕ) (pre : List Block) (c : Block) (post : List Block)
    → Descending limit (pre ++ c ∷ post)
    → Descending c.frame post
Descending-tail limit [] c post (pos, lt, d) = d
Descending-tail limit (p ∷ ps) c post (pos, lt, d) = Descending-tail p.frame ps c post d

-- No block of the ring begins at `e`, which is above `c`.
not_here :
    (e : ℕ) (pre : List Block) (c : Block) (post : List Block)
    → has e pre ≡ false
    → has e post ≡ false
    → c.frame < e
    → has e (c ∷ post ++ pre) ≡ false
not_here e pre c post h k lt = ground (arith, has-append e post pre)

module _ (b : Block) (pos : 0 < b.pages) (fits : end b < frame_count) where
  -- The pages of `b`, whose neighbours in the ring are `pre` above and `post` below `c`.
  pub record At (s : Phys) (pre : List Block) (c : Block) (post : List Block) : Type 0 where
    pub linked : Linked s s (pre ++ c ∷ post)
    pub order : Descending frame_count (pre ++ c ∷ post)
    pub fresh : has b.frame (pre ++ c ∷ post) ≡ false
    pub passed : has (end b) pre ≡ false
    pub paired : (2 ≤ length (pre ++ c ∷ post)) ⊎ (end b ≢ c.frame)

  below-Linked :
      (s : Phys) (pre : List Block) (c : Block) (post : List Block)
      → At s pre c post
      → end b ≡ c.frame
      → Linked s (below (base b) b.pages (base c) (mapped_at s c)) (pre ++ merge_below b c post)
  unfolding below merge_below
  below-Linked s pre c (p ∷ ps) a touch =
      let l = a.linked in
      let dis = Descending-Distinct frame_count (pre ++ c ∷ p ∷ ps) a.order in
      let ring = turned s.memory pre c (p ∷ ps) l.cycle in
      let s1 = mapped_at s c in
      let l1 = Linked-self s c (pre ++ c ∷ p ∷ ps) l in
      let c_end = Descending-end frame_count pre c (p ∷ ps) a.order in
      let p_end =
        Descending-end frame_count (pre ++ c ∷ []) p ps
          (subst (Descending frame_count) (sym (append_assoc pre (c ∷ []) (p ∷ ps))) a.order) in
      rw
        (
          here_prev s.memory pre c (p ∷ ps) l.cycle,
          base-frame p,
          ring.3.2,
          end_address p.frame p.pages p_end.1,
          ==_pages (end p) b.frame,
        )
        (elim (Bool-cases (end p == b.frame)) [
          | inl meets ↦ rw meets (
              Linked-mapped s _ c _ (
                join_three-Linked s1 b pre c p ps dis l1 (omega arith)
                  (omega (arith, (==_iff (end p) b.frame).0 meets))))
          | inr gap ↦ rw gap (
              Linked-mapped s _ c _ (
                grow_down-Linked s1 b pre c (p ∷ ps) refl dis l1 p (ps ++ pre) refl a.fresh
                  (omega arith)))
        ])
  below-Linked s [] c [] a touch = absurd (ground (arith, a.paired))
  below-Linked s (p ∷ ps) c [] a touch =
      let l = a.linked in
      let dis = Descending-Distinct frame_count (p ∷ ps ++ c ∷ []) a.order in
      let ring = turned s.memory (p ∷ ps) c [] l.cycle in
      let s1 = mapped_at s c in
      let l1 = Linked-self s c (p ∷ ps ++ c ∷ []) l in
      let c_end = Descending-end frame_count (p ∷ ps) c [] a.order in
      let above = later-lt frame_count p ps c [] a.order in
      let apart : (end p == b.frame) ≡ false = ne→== (end p) b.frame (λ e. omega arith) in
      rw
        (
          here_prev s.memory (p ∷ ps) c [] l.cycle,
          base-frame p,
          ring.3.2,
          end_address p.frame p.pages (omega (arith, a.order)),
          ==_pages (end p) b.frame,
          apart,
        )
        (Linked-mapped s _ c _
          (grow_down-Linked s1 b (p ∷ ps) c [] refl dis l1 p ps refl a.fresh (omega arith)))

  -- What the loop does from the block `c` on, behind the blocks `pre`.
  abbrev pub Loops : ℕ → Phys → List Block → Block → List Block → Type 0
  Loops fuel s pre c post =
      (s' : Phys) × (free_loop fuel (base b) b.pages (base c) s ≡ some s')
      × Linked s s' (pre ++ release b (c ∷ post))

  module _ (fuel : ℕ) (s : Phys) (pre : List Block) (c : Block) where
    here_above :
        (post : List Block)
        → At s pre c post
        → ltb (end c) b.frame ≡ true
        → Loops (suc fuel) s pre c post
    unfolding free_loop release
    here_above post a above =
        let s1 = mapped_at s c in
        let c_end = Descending-end frame_count pre c post a.order in
        let dis = Descending-Distinct frame_count (pre ++ c ∷ post) a.order in
        rw
          (
            base-frame c,
            here_size s.memory pre c post a.linked.cycle,
            end_address c.frame c.pages c_end.1,
            ltb_pages (end c) b.frame,
            above,
          )
          (
            insert_above (base b) b.pages (base c) s1,
            refl,
            Linked-mapped s _ c _ (
                insert_above-Linked s1 b pre c post refl dis
                  (Linked-self s c (pre ++ c ∷ post) a.linked) a.fresh),
          )

    here_follows :
        (post : List Block)
        → At s pre c post
        → ltb (end c) b.frame ≡ false
        → (end c == b.frame) ≡ true
        → Loops (suc fuel) s pre c post
    unfolding free_loop release
    here_follows post a above follows =
        let s1 = mapped_at s c in
        let touch = (==_iff (end c) b.frame).0 follows in
        let c_end = Descending-end frame_count pre c post a.order in
        let dis = Descending-Distinct frame_count (pre ++ c ∷ post) a.order in
        rw
          (
            base-frame c,
            here_size s.memory pre c post a.linked.cycle,
            end_address c.frame c.pages c_end.1,
            ltb_pages (end c) b.frame,
            above,
            ==_pages (end c) b.frame,
            follows,
          )
          (
            grow_up (base b) b.pages (base c) s1,
            refl,
            Linked-mapped s _ c _ (
                grow_up-Linked s1 b pre c post refl dis (Linked-self s c (pre ++ c ∷ post) a.linked)
                  (omega arith) fits
                  (not_here (end b) pre c post a.passed
                    (has-lt c.frame (end b) post (Descending-tail frame_count pre c post a.order)
                      (omega arith))
                    (omega arith))),
          )

    here_below :
        (post : List Block)
        → At s pre c post
        → ltb (end c) b.frame ≡ false
        → (end c == b.frame) ≡ false
        → (end b == c.frame) ≡ true
        → Loops (suc fuel) s pre c post
    unfolding free_loop release
    here_below post a above follows touches =
        let s1 = mapped_at s c in
        let c_end = Descending-end frame_count pre c post a.order in
        rw
          (
            base-frame c,
            here_size s.memory pre c post a.linked.cycle,
            end_address c.frame c.pages c_end.1,
            ltb_pages (end c) b.frame,
            above,
            ==_pages (end c) b.frame,
            follows,
            end_address b.frame b.pages fits,
            ==_pages (end b) c.frame,
            touches,
          )
          (
            below (base b) b.pages (base c) s1,
            refl,
            below-Linked s pre c post a ((==_iff (end b) c.frame).0 touches),
          )

    pub here_last :
        At s pre c []
        → ltb (end c) b.frame ≡ false
        → (end c == b.frame) ≡ false
        → (end b == c.frame) ≡ false
        → Loops (suc fuel) s pre c []
    unfolding free_loop release
    here_last a above follows touches =
        let s1 = mapped_at s c in
        let l = a.linked in
        let c_end = Descending-end frame_count pre c [] a.order in
        let back : (first_or (base c) pre == s.free_phys_memory_pointer) ≡ true =
          eq→== _ _ (down_to_pointer pre c ∙ sym l.pointer) in
        rw
          (
            base-frame c,
            here_size s.memory pre c [] l.cycle,
            here_prev s.memory pre c [] l.cycle,
            back,
            end_address c.frame c.pages c_end.1,
            ltb_pages (end c) b.frame,
            above,
            ==_pages (end c) b.frame,
            follows,
            end_address b.frame b.pages fits,
            ==_pages (end b) c.frame,
            touches,
          )
          (s1, refl, record { cycle = l.cycle; pointer = l.pointer; count = refl })

    pub here_next :
        (q : Block) (qs : List Block)
        → At s pre c (q ∷ qs)
        → ltb (end c) b.frame ≡ false
        → (end c == b.frame) ≡ false
        → (end b == c.frame) ≡ false
        → Loops fuel (mapped_at s c) (pre ++ c ∷ []) q qs
        → Loops (suc fuel) s pre c (q ∷ qs)
    unfolding free_loop release
    here_next q qs a above follows touches (s', e, done) =
        let l = a.linked in
        let dis = Descending-Distinct frame_count (pre ++ c ∷ q ∷ qs) a.order in
        let c_end = Descending-end frame_count pre c (q ∷ qs) a.order in
        let on : (base q == s.free_phys_memory_pointer) ≡ false =
          ap (λ p. base q == p) l.pointer ∙ down_not_pointer pre c q qs dis in
        rw
          (
            base-frame c,
            here_size s.memory pre c (q ∷ qs) l.cycle,
            here_prev s.memory pre c (q ∷ qs) l.cycle,
            on,
            end_address c.frame c.pages c_end.1,
            ltb_pages (end c) b.frame,
            above,
            ==_pages (end c) b.frame,
            follows,
            end_address b.frame b.pages fits,
            ==_pages (end b) c.frame,
            touches,
          )
          (
            s',
            e,
            Linked-mapped s s' c _ (
                subst (Linked (mapped_at s c) s') (append_assoc pre (c ∷ []) (release b (q ∷ qs)))
                  done),
          )

    -- One round: the loop ends here, or its next round decides.
    pub here :
        (post : List Block)
        → At s pre c post
        → (ltb (end c) b.frame ≡ false
            → (end c == b.frame) ≡ false
            → (end b == c.frame) ≡ false
            → Loops (suc fuel) s pre c post)
        → Loops (suc fuel) s pre c post
    here post a on = elim (Bool-cases (ltb (end c) b.frame)) [
      | inl above ↦ here_above post a above
      | inr above ↦ elim (Bool-cases (end c == b.frame)) [
        | inl follows ↦ here_follows post a above follows
        | inr follows ↦ elim (Bool-cases (end b == c.frame)) [
          | inl touches ↦ here_below post a above follows touches
          | inr touches ↦ on above follows touches
        ]
      ]
    ]
