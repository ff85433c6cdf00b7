-- ===== src/VirtBlocks/Add.antt =====
-- `add_virt_block` puts the new block into the first gap that holds it.
use mathlib.Core.Path.{subst}
use native.Mathlib.Nat.{le_refl}
use native.Mathlib.Decide.{dec_lt, ℕ_discrete}
use sandor_os.Prelude.{
  ℕ, zero, suc, ◌+◌, ◌-◌, ◌*◌, ◌^◌, ◌≤◌, ◌<◌, ◌≡◌, refl, ap, ◌⊎◌, inl, inr, true, false, arith, ltb,
  leb, ltb→lt, leb→le, Bool-cases, u32, shl, sub32, ltb→ge, leb→gt,
}
use sandor_os.Table.{Entry, entry, Entries, place}
use sandor_os.Table.Ordered.{Ordered, end_of, ends_mono, place-Ordered, behind-Ordered, base-le}
use sandor_os.AddressSpace.{AddressSpace}
use sandor_os.VirtBlocks.{end_with, block_end, placed, add_loop, add_virt_block}

abbrev pub page : ℕ
page = 4096

-- The table holds at least one block, and its blocks are in order and disjoint in the space.
pub record IsTable (a : AddressSpace) : Type 0 where
  pub some : 0 < a.virt_memory.block_count
  pub ordered : Ordered page a.start a.end a.virt_memory.block_count a.virt_memory.entries

-- `size` pages do not reach past the end of the 32-bit addresses from any place where a block may be
-- put.
pub record Room (size : ℕ) (a : AddressSpace) : Type 0 where
  pub small : a.virt_memory.block_count < 2 ^ 31
  pub front : a.start + size * page < 2 ^ 32
  pub behind :
      (i : ℕ)
      → suc i ≡ a.virt_memory.block_count
      → end_of page (a.virt_memory.entries i) + size * page < 2 ^ 32

-- The state with a block of `size` pages at `base` as the entry at `k`.
abbrev pub with_block : (k n base size : ℕ) → AddressSpace → AddressSpace
with_block k n base size a =
    let v = a.virt_memory in
    record a {
      virt_memory = record v {
        block_count = v.block_count + 1;
        entries = place k n (entry base size) v.entries;
      };
    }

-- No gap of the table holds `size` pages.
pub record Full (size : ℕ) (a : AddressSpace) : Type 0 where
  pub front : (a.virt_memory.entries 0).base < a.start + size * page
  pub between :
      (i : ℕ)
      → suc i < a.virt_memory.block_count
      → (a.virt_memory.entries (suc i)).base < end_of page (a.virt_memory.entries i) + size * page
  pub behind :
      (i : ℕ)
      → suc i ≡ a.virt_memory.block_count
      → a.end < end_of page (a.virt_memory.entries i) + size * page

-- A block of `size` pages is put in as the entry at `k`, and the table stays in order.
pub record Added (size : ℕ) (a : AddressSpace) (r : AddressSpace × ℕ) : Type 0 where
  pub index : ℕ
  pub moved : ℕ
  pub index_le : index ≤ a.virt_memory.block_count
  pub all_moved : a.virt_memory.block_count ≤ index + moved
  pub state : r.0 ≡ with_block index moved r.1 size a
  pub ordered : IsTable r.0

-- The two outcomes.
abbrev pub Outcome : (size : ℕ) → AddressSpace → AddressSpace × ℕ → Type 0
Outcome size a r = Added size a r ⊎ ((r ≡ (a, 0)) × Full size a)

end_with-eq :
    (b : Entry) (size : ℕ)
    → end_of page b + size * page < 2 ^ 32
    → end_with b size ≡ end_of page b + size * page
end_with-eq b size h = omega arith

block_end-eq : (b : Entry) → end_of page b < 2 ^ 32 → block_end b ≡ end_of page b
block_end-eq b h = omega arith

module _ (size : ℕ) (a : AddressSpace) (t : IsTable a) (room : Room size a) where
  abbrev count : ℕ
  count = a.virt_memory.block_count

  abbrev e : Entries
  e = a.virt_memory.entries

  room_at : (i : ℕ) → i < count → end_of page (e i) + size * page < 2 ^ 32
  room_at i h = omega (
    arith,
    room.behind (count - 1) (omega (arith, t.some)),
    ends_mono page a.start a.end count e t.ordered (count - 1 - i) i (count - 1) (omega arith)
        (omega arith),
  )

  placed-Added :
      (k n base : ℕ)
      → k ≤ count
      → count ≤ k + n
      → Ordered page a.start a.end (suc count) (place k n (entry base size) e)
      → Added size a (placed k n base size a)
  unfolding placed
  placed-Added k n base le all o = record {
    index = k;
    moved = n;
    index_le = le;
    all_moved = all;
    state =
        ap
          (λ c. record a {
            virt_memory = record a.virt_memory {
              block_count = c;
              entries = place k n (entry base size) e;
            };
          })
          counted;
    ordered = rw counted (record {
      some = omega arith;
      ordered =
          subst (λ c. Ordered page a.start a.end c (place k n (entry base size) e)) (omega arith) o;
    });
  }
    where
      counted : u32 (count + 1) ≡ count + 1
      counted = omega (arith, room.small)

  -- No gap before the entry at `i` holds the pages.
  abbrev Narrow : ℕ → Type 0
  Narrow i = (j : ℕ) → j < i → (e (suc j)).base < end_of page (e j) + size * page

  Narrow-suc :
      (i : ℕ) → Narrow i → (e (suc i)).base < end_of page (e i) + size * page → Narrow (i + 1)
  Narrow-suc i h here j lt = elim (ℕ_discrete j i) [
    | yes at ↦ rw at here
    | no ne ↦ h j (omega arith)
  ]

  -- Where the pages would reach past the end from the entry at `i`, no later gap holds them.
  past_end :
      (i : ℕ)
      → i < count
      → (e 0).base < a.start + size * page
      → Narrow i
      → a.end < end_of page (e i) + size * page
      → Full size a
  past_end i h front narrow over = record {
    front = front;
    between = λ j lt. elim (dec_lt j i) [
      | yes before ↦ narrow j before
      | no ge ↦ omega (
        arith,
        later j (omega arith) (omega arith),
        base-le page a.start a.end count e t.ordered (suc j) lt,
      )
    ];
    behind = λ j at. omega (arith, later j (omega arith) (omega arith));
  }
    where
      later : (j : ℕ) → i ≤ j → j < count → end_of page (e i) ≤ end_of page (e j)
      later j le lt = ends_mono page a.start a.end count e t.ordered (j - i) i j (omega arith) lt

  -- A block at the end of the entry at `i` keeps the order, where it fits.
  block_end-Ordered :
      (i n : ℕ)
      → i < count
      → count ≤ i + 1 + n
      → (i + 1 < count → end_of page (e i) + size * page ≤ (e (i + 1)).base)
      → (i + 1 ≡ count → end_of page (e i) + size * page ≤ a.end)
      → Ordered page a.start a.end (suc count) (place (i + 1) n (entry (block_end (e i)) size) e)
  block_end-Ordered i n h all above last =
      rw (block_end-eq (e i) (omega (arith, room_at i h)))
        (behind-Ordered page a.start a.end count e t.ordered i n size h all above last)

  fits→le :
      (i : ℕ)
      → i < count
      → ltb a.end (end_with (e i) size) ≡ false
      → end_of page (e i) + size * page ≤ a.end
  fits→le i h fits = omega (arith, ltb→ge _ _ fits, end_with-eq (e i) size (room_at i h))

  no_gap→lt :
      (i : ℕ)
      → i < count
      → leb (end_with (e i) size) (e (i + 1)).base ≡ false
      → (e (suc i)).base < end_of page (e i) + size * page
  no_gap→lt i h no_gap =
      let same : i + 1 ≡ suc i = omega arith in
      subst (λ k. (e k).base < end_of page (e i) + size * page) same
        (omega (arith, leb→gt _ _ no_gap, end_with-eq (e i) size (room_at i h)))

  add_loop-Outcome :
      (rounds i : ℕ)
      → suc (i + rounds) ≡ count
      → (e 0).base < a.start + size * page
      → Narrow i
      → Outcome size a (add_loop rounds i size a)
  unfolding add_loop
  add_loop-Outcome zero i at front narrow =
      let here = room_at i (omega arith) in
      elim (Bool-cases (ltb a.end (end_with (e i) size))) [
        | inl over ↦ rw over (
            inr (
              refl,
              past_end i (omega arith) front narrow
                  (omega (arith, ltb→lt _ _ over, end_with-eq (e i) size here)),
            ))
        | inr fits ↦ rw fits (
            inl (
              placed-Added (i + 1) 0 (block_end (e i)) (omega arith) (omega arith) (
                block_end-Ordered i 0 (omega arith) (omega arith) (λ lt. absurd (omega arith))
                  (λ end. fits→le i (omega arith) fits))))
      ]
  add_loop-Outcome (suc rounds) i at front narrow =
      let here = room_at i (omega arith) in
      elim (Bool-cases (ltb a.end (end_with (e i) size))) [
        | inl over ↦ rw over (
            inr (
              refl,
              past_end i (omega arith) front narrow
                  (omega (arith, ltb→lt _ _ over, end_with-eq (e i) size here)),
            ))
        | inr fits ↦ elim (Bool-cases (leb (end_with (e i) size) (e (i + 1)).base)) [
          | inl gap ↦
              rw (fits, gap)
                (inl (
                  placed-Added (i + 1) (count - i) (block_end (e i)) (omega arith) (omega arith) (
                    block_end-Ordered i (count - i) (omega arith) (omega arith)
                      (λ lt. omega (arith, leb→le _ _ gap, end_with-eq (e i) size here))
                      (λ end. absurd (omega arith)))))
          | inr no_gap ↦
              rw (fits, no_gap)
                (add_loop-Outcome rounds (i + 1) (omega arith) front
                  (Narrow-suc i narrow (no_gap→lt i (omega arith) no_gap)))
        ]
      ]

  -- Where the table has blocks, less than 2^31, in order and disjoint in the space, and `size` pages
  -- at its start or behind any of them do not wrap around: `add_virt_block` returns a place where the pages fit between their neighbours,
  -- enters them there and keeps the order, or it returns NULL, changes nothing, and no gap of the
  -- table holds the pages.
  pub add_virt_block-Outcome : Outcome size a (add_virt_block size a)
  unfolding add_virt_block
  add_virt_block-Outcome = elim (Bool-cases (leb (u32 (a.start + shl size 12)) (e 0).base)) [
    | inl fits ↦
        rw fits
          (inl (placed-Added 0 count a.start (omega arith) (omega arith) (front_Ordered fits)))
    | inr over ↦
        rw over
          (add_loop-Outcome (sub32 count 1) 0 rounds (front_lt over) (λ j lt. absurd (omega arith)))
  ]
    where
      shifted : u32 (a.start + shl size 12) ≡ a.start + size * page
      shifted = omega (arith, room.front)

      rounds : suc (0 + sub32 count 1) ≡ count
      rounds = omega (arith, t.some, room.small)

      front_lt :
          leb (u32 (a.start + shl size 12)) (e 0).base ≡ false → (e 0).base < a.start + size * page
      front_lt over = omega (arith, leb→gt _ _ over, shifted)

      front_Ordered :
          leb (u32 (a.start + shl size 12)) (e 0).base ≡ true
          → Ordered page a.start a.end (suc count) (place 0 count (entry a.start size) e)
      front_Ordered fits =
          place-Ordered page a.start a.end count e t.ordered 0 count (entry a.start size)
            (omega arith) (omega arith) (λ z. le_refl a.start) (λ i at. absurd (omega arith))
            (λ lt. omega (arith, leb→le _ _ fits, shifted)) (λ z. absurd (omega (arith, t.some)))
