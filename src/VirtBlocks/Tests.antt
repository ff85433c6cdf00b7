-- ===== src/VirtBlocks/Tests.antt =====
-- The theorems on the table of virtual blocks at a table of two blocks.
use sandor_os.Prelude.{
  ℕ, zero, suc, ◌+◌, ◌*◌, ◌^◌, ◌<◌, ◌≤◌, ◌≡◌, ◌≢◌, refl, arith, ◌==◌, if◌then◌else◌,
}
use sandor_os.Table.{entry, Entries}
use sandor_os.Table.Ordered.{end_of}
use sandor_os.AddressSpace.{AddressSpace}
use sandor_os.VirtBlocks.{add_virt_block, add_loop, placed}
use sandor_os.VirtBlocks.Add.{page, IsTable, Room, Outcome, add_virt_block-Outcome}
use sandor_os.VirtBlocks.Delete.{Positive, Undone, del_virt_block-add_virt_block}

abbrev two : Entries
two i = if i == 0 then entry 4096 2 else entry 20480 1

abbrev space : AddressSpace
space = record {
  page_dir = 0;
  start = 4096;
  end = 65536;
  virt_memory = record { block_count = 2; blocks = 8192; entries = two; table_size = 1 };
  dynamic_memory = record {
    block_count = 0;
    blocks = 0;
    entries = two;
    table_size = 1;
    heap = 0;
    heap_size = 0;
  };
}

space-IsTable : IsTable space
space-IsTable = record {
  some = omega arith;
  ordered = record { first = λ h. omega arith; steps = steps; last = last };
}
  where
    steps : (i : ℕ) → suc i < 2 → end_of page (two i) ≤ (two (suc i)).base
    steps zero h = omega arith
    steps (suc i) h = absurd (omega arith)

    last : (i : ℕ) → suc i ≡ 2 → end_of page (two i) ≤ 65536
    last zero h = absurd (omega arith)
    last (suc zero) h = omega arith
    last (suc (suc i)) h = absurd (omega arith)

space-Room : Room 1 space
space-Room = record { small = omega arith; front = omega arith; behind = behind }
  where
    behind : (i : ℕ) → suc i ≡ 2 → end_of page (two i) + 1 * page < 2 ^ 32
    behind zero h = absurd (omega arith)
    behind (suc zero) h = omega arith
    behind (suc (suc i)) h = absurd (omega arith)

space-Positive : Positive space
space-Positive zero h = omega arith
space-Positive (suc zero) h = omega arith
space-Positive (suc (suc i)) h = absurd (omega arith)

-- The gap behind the first block.
added_base : (add_virt_block 1 space).1 ≡ 12288
unfolding add_virt_block add_loop placed
added_base = refl

added : (add_virt_block 1 space).1 ≢ 0
added e = omega (arith, e, added_base)

add_virt_block-Outcome_example : Outcome 1 space (add_virt_block 1 space)
add_virt_block-Outcome_example = add_virt_block-Outcome 1 space space-IsTable space-Room

del_virt_block-add_virt_block_example : Undone space 1 (add_virt_block 1 space)
del_virt_block-add_virt_block_example =
    del_virt_block-add_virt_block space space-IsTable 1 space-Room space-Positive added
