-- ===== src/VirtBlocks/Delete.antt =====
-- `del_virt_block` takes out the first block with the given base, and undoes `add_virt_block`.
use mathlib.Core.Path.{subst}
use native.Mathlib.Decide.{dec_lt, ℕ_discrete}
use sandor_os.Prelude.{
  ℕ, zero, suc, ◌+◌, ◌-◌, ◌≤◌, ◌<◌, ◌≡◌, ◌≢◌, refl, ap, ◌∙◌, ◌⊎◌, inl, inr, arith, ◌==◌, ==→eq,
  ==→ne, Bool-cases,
}
use sandor_os.Table.{entry, Entries, place, remove}
use sandor_os.Table.Ordered.{
  Ordered, end_of, place-lt, place_self, place-suc, remove-lt, remove-ge, remove-Ordered, bases-lt,
}
use sandor_os.AddressSpace.{AddressSpace}
use sandor_os.VirtBlocks.{del_loop, del_virt_block, add_virt_block}
use sandor_os.VirtBlocks.Add.{page, IsTable, Room, Added, with_block, add_virt_block-Outcome}

-- The state without the entry at `i`.
abbrev pub without_block : ℕ → AddressSpace → AddressSpace
without_block i a =
    let v = a.virt_memory in
    record a {
      virt_memory = record v {
        block_count = v.block_count - 1;
        entries = remove i (v.block_count - i) v.entries;
      };
    }

-- The entry at `index` is the first with the base; it is taken out and its size returned.
pub record Removed (base : ℕ) (a : AddressSpace) (r : AddressSpace × ℕ) : Type 0 where
  pub index : ℕ
  pub index_lt : index < a.virt_memory.block_count
  pub found : (a.virt_memory.entries index).base ≡ base
  pub earlier : (j : ℕ) → j < index → (a.virt_memory.entries j).base ≢ base
  pub result : r ≡ (without_block index a, (a.virt_memory.entries index).size)

-- No entry has the base.
abbrev pub Unknown : ℕ → AddressSpace → Type 0
Unknown base a = (j : ℕ) → j < a.virt_memory.block_count → (a.virt_memory.entries j).base ≢ base

module _ (base : ℕ) (a : AddressSpace) where
  abbrev Missed : ℕ → Type 0
  Missed i = (j : ℕ) → j < i → (a.virt_memory.entries j).base ≢ base

  Missed-suc : (i : ℕ) → Missed i → (a.virt_memory.entries i).base ≢ base → Missed (i + 1)
  Missed-suc i h here j lt = elim (ℕ_discrete j i) [
    | yes at ↦ rw at here
    | no ne ↦ h j (omega arith)
  ]

  del_loop-Removed :
      (rounds i : ℕ)
      → i + rounds ≡ a.virt_memory.block_count
      → Missed i
      → Removed base a (del_loop rounds i base a)
        ⊎ ((del_loop rounds i base a ≡ (a, 0)) × Unknown base a)
  unfolding del_loop
  del_loop-Removed zero i at missed = inr (refl, λ j lt. missed j (omega arith))
  del_loop-Removed (suc rounds) i at missed =
      elim (Bool-cases ((a.virt_memory.entries i).base == base)) [
        | inl here ↦ rw here (
            inl (record {
              index = i;
              index_lt = omega arith;
              found = ==→eq _ _ here;
              earlier = missed;
              result = refl;
            }))
        | inr other ↦
            rw other (
              del_loop-Removed rounds (i + 1) (omega arith) (Missed-suc i missed (==→ne _ _ other)))
      ]

  -- `del_virt_block` takes out the first block with the given base and returns its size, or it
  -- returns 0, changes nothing, and no block has that base.
  pub del_virt_block-Removed :
      Removed base a (del_virt_block base a) ⊎ ((del_virt_block base a ≡ (a, 0)) × Unknown base a)
  unfolding del_virt_block
  del_virt_block-Removed =
      del_loop-Removed a.virt_memory.block_count 0 (omega arith) (λ j lt. absurd (omega arith))

-- Two states that differ only behind the entries in use.
pub record Same (a b : AddressSpace) : Type 0 where
  pub start_eq : a.start ≡ b.start
  pub end_eq : a.end ≡ b.end
  pub page_dir_eq : a.page_dir ≡ b.page_dir
  pub dynamic_eq : a.dynamic_memory ≡ b.dynamic_memory
  pub count_eq : a.virt_memory.block_count ≡ b.virt_memory.block_count
  pub blocks_eq : a.virt_memory.blocks ≡ b.virt_memory.blocks
  pub table_size_eq : a.virt_memory.table_size ≡ b.virt_memory.table_size
  pub entries_eq :
      (j : ℕ) → j < a.virt_memory.block_count → a.virt_memory.entries j ≡ b.virt_memory.entries j

-- Every block of the table has a page.
abbrev pub Positive : AddressSpace → Type 0
Positive a = (j : ℕ) → j < a.virt_memory.block_count → 0 < (a.virt_memory.entries j).size

-- Deleting at the returned address gives the size back, and the state before.
abbrev pub Undone : AddressSpace → ℕ → AddressSpace × ℕ → Type 0
Undone a size r = let d = del_virt_block r.1 r.0 in (d.1 ≡ size) × Same d.0 a

module _ (a : AddressSpace) (t : IsTable a) where
  abbrev count : ℕ
  count = a.virt_memory.block_count

  abbrev e : Entries
  e = a.virt_memory.entries

  -- Taking out any entry keeps the order.
  without_block-Ordered :
      (i : ℕ) → i < count → Ordered page a.start a.end (count - 1) (remove i (count - i) e)
  without_block-Ordered i h =
      remove-Ordered page a.start a.end count e t.ordered i (count - i) h (omega arith)

  -- Where the blocks of the table are in order and disjoint, they are after `del_virt_block`.
  pub del_virt_block-Ordered :
      (base : ℕ)
      → Ordered page a.start a.end
          (del_virt_block base a).0.virt_memory.block_count
          (del_virt_block base a).0.virt_memory.entries
  del_virt_block-Ordered base = elim (del_virt_block-Removed base a) [
    | inl r ↦ rw r.result (without_block-Ordered r.index r.index_lt)
    | inr u ↦ rw (u.0) t.ordered
  ]

  module _ (positive : Positive a) (size base k n : ℕ) (le : k ≤ count) (all : count ≤ k + n) where
    abbrev after : AddressSpace
    after = with_block k n base size a

    place-first : IsTable after → (j : ℕ) → j < k → (place k n (entry base size) e j).base ≢ base
    place-first t' j lt same =
        let kept : place k n (entry base size) e j ≡ e j = place-lt k n (entry base size) e j lt in
        let some : (place k n (entry base size) e j).base
            < end_of page (place k n (entry base size) e j) =
          rw kept (omega (arith, positive j (omega arith))) in
        absurd (
          omega (
            arith,
            bases-lt page a.start a.end (count + 1) (place k n (entry base size) e) t'.ordered j k
                lt (omega arith) some,
            same,
            ap (λ b. b.base) (place_self k n (entry base size) e),
          ))

    remove-place :
        (j : ℕ) → j < count → remove k (count + 1 - k) (place k n (entry base size) e) j ≡ e j
    remove-place j lt = elim (dec_lt j k) [
      | yes before ↦
          remove-lt k (count + 1 - k) (place k n (entry base size) e) j before
          ∙ place-lt k n (entry base size) e j before
      | no ge ↦
          remove-ge k (count + 1 - k) (place k n (entry base size) e) j (omega arith) (omega arith)
          ∙ place-suc k n (entry base size) e j (omega arith) (omega arith)
    ]

    unplaced : Same (without_block k after) a
    unplaced = record {
      start_eq = refl;
      end_eq = refl;
      page_dir_eq = refl;
      dynamic_eq = refl;
      count_eq = omega arith;
      blocks_eq = refl;
      table_size_eq = refl;
      entries_eq = λ j lt. remove-place j (omega arith);
    }

    ahead : IsTable after → (i : ℕ) → (place k n (entry base size) e i).base ≡ base → k ≤ i
    ahead t' i found = elim (dec_lt i k) [
      | yes lt ↦ absurd (place-first t' i lt found)
      | no ge ↦ omega arith
    ]

    first_of : (i : ℕ) → ((j : ℕ) → j < i → (place k n (entry base size) e j).base ≢ base) → i ≤ k
    first_of i earlier = elim (dec_lt k i) [
      | yes lt ↦ absurd (earlier k lt (ap (λ b. b.base) (place_self k n (entry base size) e)))
      | no ge ↦ omega arith
    ]

    -- The first entry with the base is the new one.
    del_placed : IsTable after → del_virt_block base after ≡ (without_block k after, size)
    del_placed t' = elim (del_virt_block-Removed base after) [
      | inl r ↦
          let at : r.index ≡ k =
            omega (arith, r.index_lt, first_of r.index r.earlier, ahead t' r.index r.found) in
          r.result
          ∙ ap (λ i. (without_block i after, (place k n (entry base size) e i).size)) at
          ∙ ap (λ b. (without_block k after, b.size)) (place_self k n (entry base size) e)
      | inr u ↦ absurd (u.1 k (omega arith) (ap (λ b. b.base) (place_self k n (entry base size) e)))
    ]

  Added-Undone : Positive a → (size : ℕ) (r : AddressSpace × ℕ) → Added size a r → Undone a size r
  Added-Undone positive size r d =
      let undone =
        del_placed positive size r.1 d.index d.moved d.index_le d.all_moved
          (subst (λ s. IsTable s) d.state d.ordered) in
      rw (d.state, undone) (refl, unplaced positive size r.1 d.index d.moved d.index_le d.all_moved)

  -- Where `add_virt_block` puts a block of `size` pages into a table of blocks, at least one and less
  -- than 2^31, that are non-empty, in order and disjoint in the space, `size` pages at its start or
  -- behind any of them do not wrap around, and the address returned is not 0: `del_virt_block` on that
  -- address gives back that size, and the state is the one before, up to the entries not in use.
  pub del_virt_block-add_virt_block :
      (size : ℕ)
      → Room size a
      → Positive a
      → (add_virt_block size a).1 ≢ 0
      → Undone a size (add_virt_block size a)
  del_virt_block-add_virt_block size room positive ok =
      elim (add_virt_block-Outcome size a t room) [
        | inl d ↦ Added-Undone positive size (add_virt_block size a) d
        | inr z ↦ absurd (ok (ap (λ r. r.1) (z.0)))
      ]
