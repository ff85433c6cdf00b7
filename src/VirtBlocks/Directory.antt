-- ===== src/VirtBlocks/Directory.antt =====
-- The table of blocks leaves the directory of the address space.
use sandor_os.VirtBlocks.{del_loop, del_virt_block, add_loop, add_virt_block, placed}
use sandor_os.AddressSpace.{AddressSpace}
use sandor_os.Prelude.{ℕ, zero, suc, ◌+◌, ◌≡◌, refl, arith, sub32}

del_loop-page_dir :
    (rounds i base : ℕ) (a : AddressSpace) → (del_loop rounds i base a).0.page_dir ≡ a.page_dir
unfolding del_loop
del_loop-page_dir zero i base a = refl
del_loop-page_dir (suc rounds) i base a = ground (arith, del_loop-page_dir rounds (i + 1) base a)

pub del_virt_block-page_dir :
    (base : ℕ) (a : AddressSpace) → (del_virt_block base a).0.page_dir ≡ a.page_dir
unfolding del_virt_block
del_virt_block-page_dir base a = del_loop-page_dir a.virt_memory.block_count 0 base a

add_loop-page_dir :
    (rounds i size : ℕ) (a : AddressSpace) → (add_loop rounds i size a).0.page_dir ≡ a.page_dir
unfolding add_loop placed
add_loop-page_dir zero i size a = ground arith
add_loop-page_dir (suc rounds) i size a = ground (arith, add_loop-page_dir rounds (i + 1) size a)

pub add_virt_block-page_dir :
    (size : ℕ) (a : AddressSpace) → (add_virt_block size a).0.page_dir ≡ a.page_dir
unfolding add_virt_block placed
add_virt_block-page_dir size a =
    ground (arith, add_loop-page_dir (sub32 a.virt_memory.block_count 1) 0 size a)

del_loop-dynamic_memory :
    (rounds i base : ℕ) (a : AddressSpace)
    → (del_loop rounds i base a).0.dynamic_memory ≡ a.dynamic_memory
unfolding del_loop
del_loop-dynamic_memory zero i base a = refl
del_loop-dynamic_memory (suc rounds) i base a =
    ground (arith, del_loop-dynamic_memory rounds (i + 1) base a)

pub del_virt_block-dynamic_memory :
    (base : ℕ) (a : AddressSpace) → (del_virt_block base a).0.dynamic_memory ≡ a.dynamic_memory
unfolding del_virt_block
del_virt_block-dynamic_memory base a = del_loop-dynamic_memory a.virt_memory.block_count 0 base a
