-- ===== src/KernelHeap/Malloc.antt =====
-- `kmalloc` puts the new block into the first gap of the heap that holds it.
use mathlib.Core.Path.{subst}
use native.Mathlib.Nat.{le_refl}
use native.Mathlib.Decide.{ℕ_discrete}
use sandor_os.Prelude.{
  ℕ, zero, suc, ◌+◌, ◌-◌, ◌*◌, ◌^◌, ◌≤◌, ◌<◌, ◌≡◌, refl, ap, ◌⊎◌, inl, inr, ◌↔◌, true, false, arith,
  ltb, leb, ltb→lt, leb→le, ltb→ge, leb→gt, ne→==, Bool-cases, u32, sub32,
}
use sandor_os.Table.{entry, Entries, place}
use sandor_os.Table.Ordered.{Ordered, end_of, end-le, place-Ordered, behind-Ordered}
use sandor_os.AddressSpace.{DynamicMemory}
use sandor_os.KernelHeap.{end_with, heap_end, placed, malloc_loop, kmalloc_block}

-- The bytes of the heap end here.
abbrev pub limit : DynamicMemory → ℕ
limit d = d.heap + d.heap_size * 4096

-- The blocks are in order and disjoint within the heap.
abbrev pub IsHeap : DynamicMemory → Type 0
IsHeap d = Ordered 1 d.heap (limit d) d.block_count d.entries

-- The heap, and `size` bytes behind it, do not reach past the end of the 32-bit addresses.
pub record Room (size : ℕ) (d : DynamicMemory) : Type 0 where
  pub small : d.block_count < 2 ^ 31
  pub inside : limit d + size < 2 ^ 32

-- The state with a block of `size` bytes at `base` as the entry at `k`.
abbrev pub with_block : (k n base size : ℕ) → DynamicMemory → DynamicMemory
with_block k n base size d = record d {
  block_count = d.block_count + 1;
  entries = place k n (entry base size) d.entries;
}

-- No gap between blocks, before them or behind them holds `size` bytes.
pub record Full (size : ℕ) (d : DynamicMemory) : Type 0 where
  pub front : (d.entries 0).base < d.heap + size
  pub between :
      (i : ℕ) → suc i < d.block_count → (d.entries (suc i)).base < end_of 1 (d.entries i) + size
  pub behind : (i : ℕ) → suc i ≡ d.block_count → limit d < end_of 1 (d.entries i) + size

-- A block of `size` bytes is put in as the entry at `k`, and the heap stays in order.
pub record Added (size : ℕ) (d : DynamicMemory) (r : DynamicMemory × ℕ) : Type 0 where
  pub index : ℕ
  pub moved : ℕ
  pub index_le : index ≤ d.block_count
  pub all_moved : d.block_count ≤ index + moved
  pub state : r.0 ≡ with_block index moved r.1 size d
  pub ordered : IsHeap r.0

abbrev pub Outcome : (size : ℕ) → DynamicMemory → DynamicMemory × ℕ → Type 0
Outcome size d r = Added size d r ⊎ ((r ≡ (d, 0)) × Full size d)

module _ (size : ℕ) (d : DynamicMemory) (t : IsHeap d) (room : Room size d) where
  abbrev count : ℕ
  count = d.block_count

  abbrev e : Entries
  e = d.entries

  end_with-eq : (i : ℕ) → i < count → end_with (e i) size ≡ end_of 1 (e i) + size
  end_with-eq i h = omega (arith, room.inside, end-le 1 d.heap (limit d) count e t i h)

  block_end-eq : (i : ℕ) → i < count → u32 ((e i).base + (e i).size) ≡ end_of 1 (e i)
  block_end-eq i h = omega (arith, room.inside, end-le 1 d.heap (limit d) count e t i h)

  heap_end-eq : heap_end d ≡ limit d
  heap_end-eq = omega (arith, room.inside)

  placed-Added :
      (k n base : ℕ)
      → k ≤ count
      → count ≤ k + n
      → Ordered 1 d.heap (limit d) (suc count) (place k n (entry base size) e)
      → Added size d (placed k n base size d)
  unfolding placed
  placed-Added k n base le all o = record {
    index = k;
    moved = n;
    index_le = le;
    all_moved = all;
    state = ap (λ c. record d { block_count = c; entries = place k n (entry base size) e }) counted;
    ordered =
        subst (λ c. Ordered 1 d.heap (limit d) c (place k n (entry base size) e)) (omega arith) o;
  }
    where
      counted : u32 (count + 1) ≡ count + 1
      counted = omega (arith, room.small)

  behind-Added :
      (i n : ℕ)
      → i < count
      → count ≤ i + 1 + n
      → (i + 1 < count → end_of 1 (e i) + size ≤ (e (i + 1)).base)
      → (i + 1 ≡ count → end_of 1 (e i) + size ≤ limit d)
      → Added size d (placed (i + 1) n (u32 ((e i).base + (e i).size)) size d)
  behind-Added i n h all above last = rw (block_end-eq i h) (
      placed-Added (i + 1) n (end_of 1 (e i)) (omega arith) all (
        behind-Ordered 1 d.heap (limit d) count e t i n size h all (λ lt. omega (arith, above lt))
          (λ at. omega (arith, last at))))

  -- No gap between the entries up to the one at `i` holds the bytes.
  abbrev Narrow : ℕ → Type 0
  Narrow i = (j : ℕ) → j < i → (e (suc j)).base < end_of 1 (e j) + size

  no_gap→lt :
      (i : ℕ)
      → i < count
      → leb (end_with (e i) size) (e (i + 1)).base ≡ false
      → (e (suc i)).base < end_of 1 (e i) + size
  no_gap→lt i h no_gap =
      let same : i + 1 ≡ suc i = omega arith in
      subst (λ k. (e k).base < end_of 1 (e i) + size) same
        (omega (arith, leb→gt _ _ no_gap, end_with-eq i h))

  Narrow-suc : (i : ℕ) → Narrow i → (e (suc i)).base < end_of 1 (e i) + size → Narrow (i + 1)
  Narrow-suc i h here j lt = elim (ℕ_discrete j i) [
    | yes at ↦ rw at here
    | no ne ↦ h j (omega arith)
  ]

  malloc_loop-Outcome :
      (rounds i : ℕ)
      → suc (i + rounds) ≡ count
      → (e 0).base < d.heap + size
      → Narrow i
      → Outcome size d (malloc_loop rounds i size d)
  unfolding malloc_loop
  malloc_loop-Outcome zero i at front narrow =
      elim (Bool-cases (ltb (heap_end d) (end_with (e i) size))) [
        | inl over ↦ rw over (
            inr (
              refl,
              record {
                front = front;
                between = λ j lt. narrow j (omega arith);
                behind = λ j at'.
                    let same : j ≡ i = omega arith in
                    rw same
                      (omega (arith, ltb→lt _ _ over, heap_end-eq, end_with-eq i (omega arith)));
              },
            ))
        | inr fits ↦ rw fits (
            inl (
              behind-Added i 0 (omega arith) (omega arith) (λ lt. absurd (omega arith))
                (λ end. omega (arith, ltb→ge _ _ fits, heap_end-eq, end_with-eq i (omega arith)))))
      ]
  malloc_loop-Outcome (suc rounds) i at front narrow =
      elim (Bool-cases (leb (end_with (e i) size) (e (i + 1)).base)) [
        | inl gap ↦ rw gap (
            inl (
              behind-Added i (count - i) (omega arith) (omega arith)
                (λ lt. omega (arith, leb→le _ _ gap, end_with-eq i (omega arith)))
                (λ end. absurd (omega arith))))
        | inr no_gap ↦ rw no_gap (
            malloc_loop-Outcome rounds (i + 1) (omega arith) front
              (Narrow-suc i narrow (no_gap→lt i (omega arith) no_gap)))
      ]

  -- Where the heap has blocks, less than 2^31, in order, disjoint and inside the heap, and the heap with `size` bytes
  -- behind it does not wrap around: `kmalloc_block` returns a place where the bytes fit between their
  -- neighbours, enters them there and keeps the order, or it returns NULL, changes nothing, and no
  -- gap of the heap holds the bytes.
  pub kmalloc_block-Outcome : 0 < count → Outcome size d (kmalloc_block size d)
  unfolding kmalloc_block
  kmalloc_block-Outcome some =
      rw (ne→== count 0 (λ z. absurd (omega arith)))
        (elim (Bool-cases (leb (u32 (d.heap + size)) (e 0).base)) [
          | inl fits ↦ rw fits (
              rw (base-eq fits) (
                inl (
                  placed-Added 0 count ((e 0).base - size) (omega arith) (omega arith)
                    (front_Ordered fits))))
          | inr over ↦ rw over (
              malloc_loop-Outcome (sub32 count 1) 0 rounds (omega (arith, leb→gt _ _ over, shifted))
                (λ j lt. absurd (omega arith)))
        ])
    where
      rounds : suc (0 + sub32 count 1) ≡ count
      rounds = omega (arith, some, room.small)

      shifted : u32 (d.heap + size) ≡ d.heap + size
      shifted = omega (arith, room.inside)

      base-le : (e 0).base ≤ limit d
      base-le = omega (arith, end-le 1 d.heap (limit d) count e t 0 some)

      base-eq :
          leb (u32 (d.heap + size)) (e 0).base ≡ true → sub32 (e 0).base size ≡ (e 0).base - size
      base-eq fits = omega (arith, leb→le _ _ fits, shifted, base-le, room.inside)

      front_Ordered :
          leb (u32 (d.heap + size)) (e 0).base ≡ true
          → Ordered 1 d.heap
              (limit d)
              (suc count)
              (place 0 count (entry ((e 0).base - size) size) e)
      front_Ordered fits =
          place-Ordered 1 d.heap (limit d) count e t 0 count (entry ((e 0).base - size) size)
            (omega arith) (omega arith) (λ z. omega (arith, leb→le _ _ fits, shifted))
            (λ i at. absurd (omega arith)) (λ lt. omega (arith, leb→le _ _ fits, shifted))
            (λ z. absurd (omega arith))

-- In an empty heap `kmalloc_block` returns the start of the heap for any size, and the block lies
-- inside the heap just when the heap has that many bytes.
pub kmalloc_block-empty_iff :
    (size : ℕ) (d : DynamicMemory)
    → d.block_count ≡ 0
    → ((kmalloc_block size d).1 ≡ d.heap)
      × (IsHeap (kmalloc_block size d).0 ↔ (size ≤ d.heap_size * 4096))
unfolding kmalloc_block placed place
kmalloc_block-empty_iff size d none = rw none (
  refl,
  (
    (λ o. omega (arith, o.last 0 refl)),
    (λ le. record {
      first = λ h. le_refl d.heap;
      steps = λ i h. absurd (omega arith);
      last = λ i at. let z : i ≡ 0 = omega arith in rw z (omega arith);
    }),
  ),
)
