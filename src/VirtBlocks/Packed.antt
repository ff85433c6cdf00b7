-- ===== src/VirtBlocks/Packed.antt =====
-- `add_virt_block` on a table whose blocks follow each other without a gap, but for the last one.
use mathlib.Core.Path.{subst}
use native.Mathlib.Decide.{dec_lt}
use sandor_os.VirtBlocks.Add.{page, with_block}
use sandor_os.VirtBlocks.{add_loop, placed, end_with, block_end, add_virt_block}
use sandor_os.Table.Ordered.{end_of, place-lt, place_self, place-suc}
use sandor_os.Table.{Entries, entry}
use sandor_os.AddressSpace.{AddressSpace}
use sandor_os.Prelude.{
  ℕ, zero, suc, ◌+◌, ◌-◌, ◌*◌, ◌^◌, ◌<◌, ◌≤◌, ◌≡◌, refl, sym, ap, ◌∙◌, true, false, arith, ltb, leb,
  u32, sub32, shl, le→ltb, le→leb, lt→leb,
}

-- Blocks from `start` up to `stop` without a gap, and one more block at `top`. The first has index 0
-- and the last before the gap index `k`.
pub record Packed (k stop top : ℕ) (a : AddressSpace) : Type 0 where
  pub count : a.virt_memory.block_count ≡ k + 2
  pub first : (a.virt_memory.entries 0).base ≡ a.start
  pub pages : (i : ℕ) → i ≤ k → 0 < (a.virt_memory.entries i).size
  pub steps :
      (i : ℕ) → i < k → end_of page (a.virt_memory.entries i) ≡ (a.virt_memory.entries (suc i)).base
  pub stops : end_of page (a.virt_memory.entries k) ≡ stop
  pub last : (a.virt_memory.entries (suc k)).base ≡ top
  pub fits : top ≤ a.end
  pub word : a.end < 2 ^ 32

module _ (k stop top size : ℕ) (a : AddressSpace) (few : k < 2 ^ 20) (pos : 0 < size)
    (room : stop + size * page ≤ top) (pk : Packed k stop top a) where
  abbrev e : Entries
  e = a.virt_memory.entries

  -- The block of `size` pages at `stop`.
  abbrev pub grown : AddressSpace
  grown = with_block (suc k) (a.virt_memory.block_count - k) stop size a

  end-le : (n i : ℕ) → i + n ≡ k → end_of page (e i) ≤ stop
  end-le zero i at = let same : i ≡ k = omega arith in rw same (omega (arith, pk.stops))
  end-le (suc n) i at = omega (arith, end-le n (suc i) (omega arith), pk.steps i (omega arith))

  placed-grown :
      (i : ℕ)
      → i ≡ k
      → placed (i + 1) (a.virt_memory.block_count - i) (block_end (e i)) size a ≡ (grown, stop)
  unfolding placed
  placed-grown i same =
      let next : k + 1 ≡ suc k = omega arith in
      let stop_eq : block_end (e k) ≡ stop = omega (arith, pk.stops, room, pk.fits, pk.word) in
      let count_eq : u32 (a.virt_memory.block_count + 1) ≡ a.virt_memory.block_count + 1 =
        omega (arith, pk.count, few) in
      rw (same, next, stop_eq, count_eq) refl

  add_loop-Packed :
      (rounds i : ℕ) → i + rounds ≡ suc k → i ≤ k → add_loop rounds i size a ≡ (grown, stop)
  unfolding add_loop placed
  add_loop-Packed zero i at le = absurd (omega arith)
  add_loop-Packed (suc rounds) i at le =
      let below = end-le (k - i) i (omega arith) in
      let with_size : end_with (e i) size ≡ end_of page (e i) + size * page =
        omega (arith, below, room, pk.fits, pk.word) in
      let on : ltb a.end (end_with (e i) size) ≡ false =
        le→ltb a.end (end_with (e i) size) (omega (arith, with_size, below, room, pk.fits)) in
      let next : i + 1 ≡ suc i = omega arith in
      elim (dec_lt i k) [
        | yes lt ↦
            let tight : leb (end_with (e i) size) (e (i + 1)).base ≡ false =
              lt→leb (end_with (e i) size) (e (i + 1)).base
                (rw next (omega (arith, with_size, pk.steps i lt, pos))) in
            rw (on, tight) (rw next (add_loop-Packed rounds (suc i) (omega arith) (omega arith)))
        | no ge ↦
            let same : i ≡ k = omega arith in
            let fits : leb (end_with (e i) size) (e (i + 1)).base ≡ true =
              le→leb (end_with (e i) size) (e (i + 1)).base
                (rw next (rw same (omega (arith, with_size, below, pk.last, room)))) in
            rw (on, fits) (placed-grown i same)
      ]

  pub add_virt_block-Packed : add_virt_block size a ≡ (grown, stop)
  unfolding add_virt_block
  add_virt_block-Packed =
      let low = end-le k 0 (omega arith) in
      let front : leb (u32 (a.start + shl size 12)) (e 0).base ≡ false =
        lt→leb (u32 (a.start + shl size 12)) (e 0).base
          (omega (arith, low, pos, room, pk.first, pk.fits, pk.word)) in
      let rounds : sub32 a.virt_memory.block_count 1 ≡ suc k = omega (arith, pk.count, few) in
      rw (front, rounds) (add_loop-Packed (suc k) 0 (omega arith) (omega arith))

  abbrev moved : ℕ
  moved = a.virt_memory.block_count - k

  old : (i : ℕ) → i ≤ k → grown.virt_memory.entries i ≡ e i
  old i le = place-lt (suc k) moved (entry stop size) e i (omega arith)

  new : grown.virt_memory.entries (suc k) ≡ entry stop size
  new = place_self (suc k) moved (entry stop size) e

  above : grown.virt_memory.entries (suc (suc k)) ≡ e (suc k)
  above =
      place-suc (suc k) moved (entry stop size) e (suc k) (omega arith) (omega (arith, pk.count))

  pub grown-Packed : Packed (suc k) (stop + size * page) top grown
  grown-Packed = record {
    count = omega (arith, pk.count);
    first = ap (λ b. b.base) (old 0 (omega arith)) ∙ pk.first;
    pages = λ i le. elim (dec_lt i (suc k)) [
      | yes lt ↦ subst (λ b. 0 < b.size) (sym (old i (omega arith))) (pk.pages i (omega arith))
      | no ge ↦
          let same : suc k ≡ i = omega arith in
          subst (λ j. 0 < (grown.virt_memory.entries j).size) same
            (subst (λ b. 0 < b.size) (sym new) pos)
    ];
    steps = λ i lt. elim (dec_lt i k) [
      | yes before ↦
          ap (end_of page) (old i (omega arith))
          ∙ (pk.steps i before ∙ sym (ap (λ b. b.base) (old (suc i) (omega arith))))
      | no ge ↦
          let same : i ≡ k = omega arith in
          ap (λ j. end_of page (grown.virt_memory.entries j)) same
          ∙ (ap (end_of page) (old k (omega arith))
              ∙ (pk.stops
                  ∙ sym (
                      ap (λ j. (grown.virt_memory.entries (suc j)).base) same
                      ∙ ap (λ b. b.base) new)))
    ];
    stops = ap (end_of page) new;
    last = ap (λ b. b.base) above ∙ pk.last;
    fits = pk.fits;
    word = pk.word;
  }
