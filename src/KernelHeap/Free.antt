-- ===== src/KernelHeap/Free.antt =====
-- `kfree` frees the first block of the heap and no other.
use native.Mathlib.Decide.{dec_lt, ℕ_discrete}
use sandor_os.Prelude.{
  ℕ, zero, suc, ◌+◌, ◌-◌, ◌<◌, ◌≡◌, ◌≢◌, refl, ◌⊎◌, inl, inr, true, false, arith, eq→==, ne→==,
}
use sandor_os.Table.{remove}
use sandor_os.Table.Ordered.{bases-lt, remove-Ordered}
use sandor_os.AddressSpace.{DynamicMemory}
use sandor_os.KernelHeap.{free_loop, kfree}
use sandor_os.KernelHeap.Malloc.{IsHeap, limit}

abbrev pub without_first : DynamicMemory → DynamicMemory
without_first d = record d {
  block_count = d.block_count - 1;
  entries = remove 0 d.block_count d.entries;
}

module _ (ptr : ℕ) (d : DynamicMemory) where
  free_loop-other :
      (rounds i : ℕ) → (d.entries 0).base ≢ ptr → free_loop rounds i ptr d ≡ (d, false)
  unfolding free_loop
  free_loop-other zero i ne = refl
  free_loop-other (suc rounds) i ne =
      rw (ne→== (d.entries 0).base ptr ne) (free_loop-other rounds (i + 1) ne)

  free_loop-first :
      (rounds : ℕ)
      → rounds ≡ d.block_count
      → 0 < rounds
      → (d.entries 0).base ≡ ptr
      → free_loop rounds 0 ptr d ≡ (without_first d, true)
  unfolding free_loop
  free_loop-first zero at some same = absurd (omega arith)
  free_loop-first (suc rounds) at some same =
      let all : d.block_count - 0 ≡ d.block_count = omega arith in
      rw (eq→== (d.entries 0).base ptr same, all) refl

  -- In a heap whose blocks are in order and disjoint, `kfree` takes out the first block and keeps the
  -- order where that block has the address; else it returns false and changes nothing.
  pub kfree-first :
      IsHeap d
      → (0 < d.block_count
          × ((d.entries 0).base ≡ ptr)
          × (kfree ptr d ≡ (without_first d, true))
          × IsHeap (without_first d))
        ⊎ ((kfree ptr d ≡ (d, false)) × (0 < d.block_count → (d.entries 0).base ≢ ptr))
  unfolding kfree
  kfree-first t = elim (dec_lt 0 d.block_count) [
    | yes some ↦ elim (ℕ_discrete (d.entries 0).base ptr) [
      | yes same ↦ inl (
        some,
        same,
        free_loop-first d.block_count refl some same,
        remove-Ordered 1 d.heap (limit d) d.block_count d.entries t 0 d.block_count some
            (omega arith),
      )
      | no ne ↦ inr (free_loop-other d.block_count 0 ne, λ h. ne)
    ]
    | no empty ↦
        let none : d.block_count ≡ 0 = omega arith in inr (rw none refl, λ h. absurd (empty h))
  ]

  -- In a heap whose blocks are in order and disjoint and whose first block is not empty, `kfree` on
  -- the address of a later block returns false and changes nothing.
  pub kfree-later :
      (i : ℕ)
      → IsHeap d
      → 0 < (d.entries 0).size
      → 0 < i
      → i < d.block_count
      → (d.entries i).base ≡ ptr
      → kfree ptr d ≡ (d, false)
  unfolding kfree
  kfree-later i t some later lt at = free_loop-other d.block_count 0 (λ same. absurd (
      omega (
        arith,
        bases-lt 1 d.heap (limit d) d.block_count d.entries t 0 i later lt (omega arith),
        same,
        at,
      )))
