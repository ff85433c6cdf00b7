-- ===== src/Stdlib.antt =====
-- kernel/stdlib.c over a flat 32-bit memory of bytes.
pub mod Copy
pub mod Fill
pub mod Search
pub mod Strings
pub mod Word
mod Tests
use sandor_os.Prelude.{
  ℕ, zero, suc, ◌+◌, ◌-◌, ◌*◌, ◌/◌, ◌%◌, ◌<◌, ◌≡◌, Bool, true, false, ◌||◌, Option, none, some, ltb,
  leb, ◌==◌, if◌then◌else◌, u8, u32, sub32, ℤ, pos, negsuc, biased,
}

-- The bytes at the 2^32 addresses. A byte is a number below 256 (`IsBytes`).
abbrev pub Memory : Type 0
Memory = ℕ → ℕ

abbrev pub IsBytes : Memory → Type 0
IsBytes m = (a : ℕ) → m a < 256

unfoldable pub load : Memory → ℕ → ℕ
load m a = m (u32 a)

-- A store of a `char`: the low eight bits.
unfoldable pub store : Memory → ℕ → ℕ → Memory
store m a v x = if x == u32 a then u8 v else m x

-- A `size_t` in memory: four bytes, the lowest first.
unfoldable pub load_word : Memory → ℕ → ℕ
unfolding load
load_word m a = load m a + 256 * load m (a + 1) + 65536 * load m (a + 2) + 16777216 * load m (a + 3)

unfoldable pub store_word : Memory → ℕ → ℕ → Memory
unfolding store
store_word m a v =
    store (store (store (store m a v) (a + 1) (v / 256)) (a + 2) (v / 65536)) (a + 3) (v / 16777216)

-- for (; i < i + n; i++) mem[i] = value
memset_loop : ℕ → ℕ → ℕ → ℕ → Memory → Memory
memset_loop mem value zero i m = m
memset_loop mem value (suc n) i m = memset_loop mem value n (i + 1) (store m (mem + i) value)

pub memset : ℕ → ℕ → ℕ → Memory → Memory
memset mem value count m = memset_loop mem value count 0 m

-- A `short` store: two bytes, the lowest first.
unfoldable pub store_short : Memory → ℕ → ℕ → Memory
unfolding store
store_short m a v = store (store m a v) (a + 1) (v / 256)

memset_word_loop : ℕ → ℕ → ℕ → ℕ → Memory → Memory
memset_word_loop mem value zero i m = m
memset_word_loop mem value (suc n) i m =
    memset_word_loop mem value n (i + 1) (store_short m (mem + i * 2) value)

pub memset_word : ℕ → ℕ → ℕ → Memory → Memory
memset_word mem value count m = memset_word_loop mem value count 0 m

-- The four loops of `memcpy`: words and bytes upwards, bytes and words downwards. The downward
-- ones start above index `lo + n` and make `n` rounds.
words_up : (dest src : ℕ) → ℕ → ℕ → Memory → Memory
words_up dest src zero i m = m
words_up dest src (suc n) i m =
    words_up dest src n (i + 1) (store_word m (dest + i * 4) (load_word m (src + i * 4)))

bytes_up : (dest src : ℕ) → ℕ → ℕ → Memory → Memory
bytes_up dest src zero i m = m
bytes_up dest src (suc n) i m = bytes_up dest src n (i + 1) (store m (dest + i) (load m (src + i)))

bytes_down : (dest src : ℕ) → ℕ → ℕ → Memory → Memory
bytes_down dest src lo zero m = m
bytes_down dest src lo (suc n) m =
    bytes_down dest src lo n (store m (dest + (lo + n)) (load m (src + (lo + n))))

words_down : (dest src : ℕ) → ℕ → Memory → Memory
words_down dest src zero m = m
words_down dest src (suc n) m =
    words_down dest src n (store_word m (dest + n * 4) (load_word m (src + n * 4)))

pub memcpy : (dest src count : ℕ) → Memory → Memory
memcpy dest src count m =
    let n = count / 4 in
    if ltb dest src
    then bytes_up dest src (count - n * 4) (n * 4) (words_up dest src n 0 m)
    else words_down dest src n (bytes_down dest src (n * 4) (count - n * 4) m)
