-- ===== src/KernelHeap/Tests.antt =====
-- The theorems on the kernel heap at a heap of one page with two blocks.
use sandor_os.Prelude.{ℕ, zero, suc, ◌<◌, ◌≤◌, ◌≡◌, refl, arith, ◌==◌, if◌then◌else◌, false}
use sandor_os.Table.{entry, Entries}
use sandor_os.Table.Ordered.{end_of}
use sandor_os.AddressSpace.{DynamicMemory}
use sandor_os.KernelHeap.{kmalloc_block, kfree}
use sandor_os.KernelHeap.Malloc.{IsHeap, Room, Outcome, kmalloc_block-Outcome}
use sandor_os.KernelHeap.Free.{kfree-later}

abbrev two : Entries
two i = if i == 0 then entry 8192 16 else entry 8224 100

abbrev heap_of : ℕ → DynamicMemory
heap_of count = record {
  block_count = count;
  blocks = 4096;
  entries = two;
  table_size = 1;
  heap = 8192;
  heap_size = 1;
}

abbrev used : DynamicMemory
used = heap_of 2

used-IsHeap : IsHeap used
used-IsHeap = record { first = λ h. omega arith; steps = steps; last = last }
  where
    steps : (i : ℕ) → suc i < 2 → end_of 1 (two i) ≤ (two (suc i)).base
    steps zero h = omega arith
    steps (suc i) h = absurd (omega arith)

    last : (i : ℕ) → suc i ≡ 2 → end_of 1 (two i) ≤ 12288
    last zero h = absurd (omega arith)
    last (suc zero) h = omega arith
    last (suc (suc i)) h = absurd (omega arith)

used-Room : Room 16 used
used-Room = record { small = omega arith; inside = omega arith }

kmalloc_block-Outcome_example : Outcome 16 used (kmalloc_block 16 used)
kmalloc_block-Outcome_example = kmalloc_block-Outcome 16 used used-IsHeap used-Room (omega arith)

kfree-later_example : kfree 8224 used ≡ (used, false)
kfree-later_example =
    kfree-later 8224 used 1 used-IsHeap (omega arith) (omega arith) (omega arith) refl
