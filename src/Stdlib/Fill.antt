-- ===== src/Stdlib/Fill.antt =====
-- `memset` and `memset_word` write exactly their block.
use sandor_os.Prelude.{
  ℕ, zero, suc, ◌+◌, ◌-◌, ◌*◌, ◌/◌, ◌%◌, ◌^◌, ◌≤◌, ◌≡◌, ◌&&◌, arith, ltb, leb, ◌==◌, if◌then◌else◌,
  u8, fill,
}
use sandor_os.Stdlib.{
  Memory, store, store_short, memset_loop, memset, memset_word_loop, memset_word,
}
use sandor_os.Stdlib.Word.{u32_lem, store-lt}

memset_loop-fill :
    (mem value n i : ℕ) (m : Memory) (x : ℕ)
    → mem + (i + n) ≤ 2 ^ 32
    → memset_loop mem value n i m x ≡ fill (mem + i) n (u8 value) m x
unfolding memset_loop
memset_loop-fill mem value zero i m x room = ground arith
memset_loop-fill mem value (suc n) i m x room = ground (
  arith,
  memset_loop-fill mem value n (i + 1) (store m (mem + i) value) x (omega arith),
  store-lt m (mem + i) value x (omega arith),
)

-- `memset` sets the `count` bytes from `mem` on to the low byte of `value`, and no other byte, when
-- the block does not pass the end of the address space.
pub memset-fill :
    (mem value count : ℕ) (m : Memory) (x : ℕ)
    → mem + count ≤ 2 ^ 32
    → memset mem value count m x ≡ fill mem count (u8 value) m x
unfolding memset
memset-fill mem value count m x room =
    ground (arith, memset_loop-fill mem value count 0 m x (omega arith))

-- `count` shorts from `dest` on, each with its low byte first.
abbrev pub fill_short : (dest count value : ℕ) → Memory → Memory
fill_short dest count value m x =
    if leb dest x && ltb x (dest + count * 2)
    then (if (x - dest) % 2 == 0 then u8 value else u8 (value / 256))
    else m x

store_short-lt :
    (m : Memory) (a v x : ℕ)
    → a + 2 ≤ 2 ^ 32
    → store_short m a v x ≡ (if x == a + 1 then u8 (v / 256) else if x == a then u8 v else m x)
unfolding store_short
store_short-lt m a v x h = rw (u32_lem a (omega arith), u32_lem (a + 1) (omega arith))

memset_word_loop-fill :
    (mem value n i : ℕ) (m : Memory) (x : ℕ)
    → mem + (i + n) * 2 ≤ 2 ^ 32
    → memset_word_loop mem value n i m x ≡ fill_short (mem + i * 2) n value m x
unfolding memset_word_loop
memset_word_loop-fill mem value zero i m x room = ground arith
memset_word_loop-fill mem value (suc n) i m x room = ground (
  arith,
  memset_word_loop-fill mem value n (i + 1) (store_short m (mem + i * 2) value) x (omega arith),
  store_short-lt m (mem + i * 2) value x (omega arith),
)

-- `memset_word` sets `count` 16-bit cells from `mem` on to `value`, low byte first, and no other
-- byte, when the block does not pass the end of the address space.
pub memset_word-fill_short :
    (mem value count : ℕ) (m : Memory) (x : ℕ)
    → mem + count * 2 ≤ 2 ^ 32
    → memset_word mem value count m x ≡ fill_short mem count value m x
unfolding memset_word
memset_word-fill_short mem value count m x room =
    ground (arith, memset_word_loop-fill mem value count 0 m x (omega arith))
