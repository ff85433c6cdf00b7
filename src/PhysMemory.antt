-- ===== src/PhysMemory.antt =====
-- The allocator of physical pages of kernel/memory_manager.c. Free blocks are linked in a ring
-- through their own first words, which the kernel reaches by mapping one frame at a time at
-- TEMP_PAGE.
pub mod Ring
pub mod Blocks
pub mod FirstFit
pub mod State
mod Take
mod Link
mod Branches
mod Rounds
pub mod Kept
pub mod Free
pub mod Overlap
pub mod Above
pub mod Release
pub mod Alloc
mod Tests
use mathlib.Core.Option
use sandor_os.Prelude.{
  ℕ, zero, suc, ◌+◌, ◌-◌, ◌*◌, ◌/◌, ◌^◌, Bool, true, false, ◌&&◌, Option, none, some, ltb, ◌==◌,
  if◌then◌else◌, u32, shl, minus_one,
}

abbrev pub page_size : ℕ
page_size = 4096

-- Physical memory: the words of each frame by their index.
abbrev pub Frames : Type 0
Frames = ℕ → ℕ → ℕ

abbrev pub set : Frames → ℕ → ℕ → ℕ → Frames
set m f i v g j = if g == f && j == i then v else m g j

-- `temp_page` is the number of the frame that is mapped at TEMP_PAGE.
pub record Phys : Type 0 where
  pub memory : Frames
  pub temp_page : ℕ
  pub free_page_count : ℕ
  pub free_phys_memory_pointer : ℕ

-- The low twelve bits of `page` are masked off. The entry of TEMP_PAGE, a word of the kernel's page
-- table, is the field `temp_page`; its place in `memory` keeps the word it has.
unfoldable pub temp_map_page : ℕ → Phys → Phys
temp_map_page page s = record s { temp_page = page / page_size }

-- The word at index `i` of TEMP_PAGE, and a store there.
unfoldable pub temp_load : Phys → ℕ → ℕ
temp_load s i = s.memory s.temp_page i

unfoldable pub temp_store : ℕ → ℕ → Phys → Phys
temp_store i v s = record s { memory = set s.memory s.temp_page i v }

-- The words of a `PhysMemoryBlock`.
abbrev pub next_field : ℕ
next_field = 0

abbrev pub prev_field : ℕ
prev_field = 1

abbrev pub size_field : ℕ
size_field = 2

-- Unlinks the block `cur_block`, which is mapped.
pub take_block : ℕ → Phys → Phys
unfolding temp_map_page temp_load temp_store
take_block cur_block s =
    let next = temp_load s next_field in
    let prev = temp_load s prev_field in
    let s1 = temp_store prev_field prev (temp_map_page next s) in
    let s2 = temp_store next_field next (temp_map_page prev s1) in
    if cur_block == s2.free_phys_memory_pointer
    then record s2 { free_phys_memory_pointer = if cur_block == prev then minus_one else prev }
    else s2

-- Takes the last pages of the mapped block.
shrink_block : (cur_block count : ℕ) → Phys → Phys × ℕ
unfolding temp_load temp_store
shrink_block cur_block count s =
    let size = temp_load s size_field - count in
    (temp_store size_field size s, u32 (cur_block + shl size 12))

-- The loop goes down the ring until it comes back to its start; `none` is fuel run out.
alloc_loop : ℕ → (count cur_block : ℕ) → Phys → Option (Phys × ℕ)
unfolding temp_map_page temp_load
alloc_loop zero count cur_block s = none
alloc_loop (suc f) count cur_block s =
    let s1 = temp_map_page cur_block s in
    let size = temp_load s1 size_field in
    let prev = temp_load s1 prev_field in
    let rest = alloc_loop f count prev s1 in
    if size == count
    then some (take_block cur_block s1, cur_block)
    else if ltb count size
    then some (shrink_block cur_block count s1)
    else if prev == s1.free_phys_memory_pointer
    then some (s1, minus_one)
    else rest

count_taken : ℕ → Phys × ℕ → Phys × ℕ
count_taken count (s, result) =
    if result == minus_one
    then (s, result)
    else (record s { free_page_count = s.free_page_count - count }, result)

-- One more than the number of frames.
abbrev pub frame_count : ℕ
frame_count = 2 ^ 20

pub alloc_phys_pages : ℕ → Phys → Option (Phys × ℕ)
alloc_phys_pages count s =
    if ltb s.free_page_count count
    then some (s, minus_one)
    else if s.free_phys_memory_pointer == minus_one
    then some (s, minus_one)
    else Option.map (count_taken count) (alloc_loop frame_count count s.free_phys_memory_pointer s)

-- The first free block: a ring of one.
first_block : (base count : ℕ) → Phys → Phys
unfolding temp_map_page temp_store
first_block base count s =
    let s1 = temp_store next_field base (temp_map_page base s) in
    let s2 = temp_store size_field count (temp_store prev_field base s1) in
    record s2 { free_phys_memory_pointer = base }

-- Links the new block in above `cur_block`, which is mapped.
pub insert_above : (base count cur_block : ℕ) → Phys → Phys
unfolding temp_map_page temp_load temp_store
insert_above base count cur_block s =
    let next = temp_load s next_field in
    let s1 = temp_store next_field base s in
    let s2 = temp_store prev_field base (temp_map_page next s1) in
    let s3 = temp_store next_field next (temp_map_page base s2) in
    let s4 = temp_store size_field count (temp_store prev_field cur_block s3) in
    if cur_block == s4.free_phys_memory_pointer
    then record s4 { free_phys_memory_pointer = base }
    else s4

-- The new pages follow the mapped block `cur_block`, and the block above may follow them.
pub grow_up : (base count cur_block : ℕ) → Phys → Phys
unfolding temp_map_page temp_load temp_store
grow_up base count cur_block s =
    let s1 = temp_store size_field (u32 (temp_load s size_field + count)) s in
    let next1 = temp_load s1 next_field in
    if next1 == u32 (base + shl count 12)
    then (let s2 = temp_map_page next1 s1 in
        let next2 = temp_load s2 next_field in
        let new_count = temp_load s2 size_field in
        let s3 = temp_store prev_field cur_block (temp_map_page next2 s2) in
        let s4 = temp_store next_field next2 (temp_map_page cur_block s3) in
        temp_store size_field (u32 (temp_load s4 size_field + new_count)) s4)
    else s1

-- The new pages stand between `prev` and `cur_block`: all three become one block at `prev`.
pub join_three : (count cur_block prev : ℕ) → Phys → Phys
unfolding temp_map_page temp_load temp_store
join_three count cur_block prev s =
    let s1 = temp_map_page cur_block s in
    let next = temp_load s1 next_field in
    let size = temp_load s1 size_field in
    let s2 = temp_store next_field next (temp_map_page prev s1) in
    let s3 = temp_store size_field (u32 (temp_load s2 size_field + u32 (size + count))) s2 in
    let s4 = temp_store prev_field prev (temp_map_page next s3) in
    if cur_block == s4.free_phys_memory_pointer
    then record s4 { free_phys_memory_pointer = prev }
    else s4

-- The new pages stand just below `cur_block`, whose place in the ring they take.
pub grow_down : (base count cur_block prev : ℕ) → Phys → Phys
unfolding temp_map_page temp_load temp_store
grow_down base count cur_block prev s =
    let s1 = temp_map_page cur_block s in
    let old_count = temp_load s1 size_field in
    let next = temp_load s1 next_field in
    let s2 = temp_store prev_field base (temp_map_page next s1) in
    let s3 = temp_store next_field base (temp_map_page prev s2) in
    let s4 = temp_store next_field next (temp_map_page base s3) in
    let s5 = temp_store size_field (u32 (count + old_count)) (temp_store prev_field prev s4) in
    if cur_block == s5.free_phys_memory_pointer
    then record s5 { free_phys_memory_pointer = base }
    else s5

pub below : (base count cur_block : ℕ) → Phys → Phys
unfolding temp_map_page temp_load
below base count cur_block s =
    let prev = temp_load s prev_field in
    let s1 = temp_map_page prev s in
    if u32 (prev + shl (temp_load s1 size_field) 12) == base
    then join_three count cur_block prev s1
    else grow_down base count cur_block prev s1

-- Where no branch of the body applies before the loop comes back to its start, nothing is linked in.
pub free_loop : ℕ → (base count cur_block : ℕ) → Phys → Option Phys
unfolding temp_map_page temp_load
free_loop zero base count cur_block s = none
free_loop (suc f) base count cur_block s =
    let s1 = temp_map_page cur_block s in
    let end = u32 (cur_block + shl (temp_load s1 size_field) 12) in
    let prev = temp_load s1 prev_field in
    let rest = free_loop f base count prev s1 in
    if ltb end base
    then some (insert_above base count cur_block s1)
    else if end == base
    then some (grow_up base count cur_block s1)
    else if u32 (base + shl count 12) == cur_block
    then some (below base count cur_block s1)
    else if prev == s1.free_phys_memory_pointer
    then some s1
    else rest

count_freed : ℕ → Phys → Phys
count_freed count s = record s { free_page_count = u32 (s.free_page_count + count) }

pub free_phys_pages : (base count : ℕ) → Phys → Option Phys
free_phys_pages base count s =
    if s.free_phys_memory_pointer == minus_one
    then some (count_freed count (first_block base count s))
    else Option.map (count_freed count)
        (free_loop frame_count base count s.free_phys_memory_pointer s)
