-- ===== src/Stdlib/Word.antt =====
-- Single stores, and a word copied through `load_word` and `store_word`: its four bytes copied.
use sandor_os.Prelude.{
  ℕ, ◌+◌, ◌*◌, ◌/◌, ◌%◌, ◌^◌, ◌≤◌, ◌<◌, ◌≡◌, arith, ◌==◌, if◌then◌else◌, u8, u32, move, ◌⊎◌,
}
use sandor_os.Stdlib.{Memory, IsBytes, load, store, load_word, store_word}

pub u32_lem : (a : ℕ) → a < 2 ^ 32 → u32 a ≡ a
u32_lem a h = omega arith

pub load-lt : (m : Memory) (a : ℕ) → a < 2 ^ 32 → load m a ≡ m a
unfolding load
load-lt m a h = rw (u32_lem a h)

pub store-lt :
    (m : Memory) (a v x : ℕ) → a < 2 ^ 32 → store m a v x ≡ (if x == a then u8 v else m x)
unfolding store
store-lt m a v x h = rw (u32_lem a h)

-- The bytes of a word.
word_bytes :
    (a b c d : ℕ)
    → a < 256
    → b < 256
    → c < 256
    → d < 256
    → let w = a + 256 * b + 65536 * c + 16777216 * d in
      (w % 256 ≡ a) × (w / 256 % 256 ≡ b) × (w / 65536 % 256 ≡ c) × (w / 16777216 % 256 ≡ d)
word_bytes a b c d ha hb hc hd = omega arith

pub load_word-lt :
    (m : Memory) (a : ℕ)
    → a + 4 ≤ 2 ^ 32
    → load_word m a ≡ m a + 256 * m (a + 1) + 65536 * m (a + 2) + 16777216 * m (a + 3)
unfolding load_word
load_word-lt m a h = rw (
  u32_lem a (omega arith),
  u32_lem (a + 1) (omega arith),
  u32_lem (a + 2) (omega arith),
  u32_lem (a + 3) (omega arith),
)

pub store_word-lt :
    (m : Memory) (a v x : ℕ)
    → a + 4 ≤ 2 ^ 32
    → store_word m a v x ≡ (
        if x == a + 3
        then v / 16777216 % 256
        else if x == a + 2
        then v / 65536 % 256
        else if x == a + 1
        then v / 256 % 256
        else if x == a
        then v % 256
        else m x)
unfolding store_word
store_word-lt m a v x h = rw (
  u32_lem a (omega arith),
  u32_lem (a + 1) (omega arith),
  u32_lem (a + 2) (omega arith),
  u32_lem (a + 3) (omega arith),
)

pub copy_word :
    (m : Memory) (d s x : ℕ)
    → IsBytes m
    → d + 4 ≤ 2 ^ 32
    → s + 4 ≤ 2 ^ 32
    → store_word m d (load_word m s) x ≡ move d s 4 m x
copy_word m d s x bytes hd hs =
    let b =
      word_bytes (m s) (m (s + 1)) (m (s + 2)) (m (s + 3)) (bytes s) (bytes (s + 1)) (bytes (s + 2))
        (bytes (s + 3)) in
    rw (store_word-lt m d (load_word m s) x hd, load_word-lt m s hs, b.3, b.2, b.1, b.0)
      (ground arith)

-- A word is read back as it was stored.
pub load_word-store_word :
    (m : Memory) (a v : ℕ) → a + 4 ≤ 2 ^ 32 → v < 2 ^ 32 → load_word (store_word m a v) a ≡ v
load_word-store_word m a v h small =
    let b0 = store_word-lt m a v a h in
    let b1 = store_word-lt m a v (a + 1) h in
    let b2 = store_word-lt m a v (a + 2) h in
    let b3 = store_word-lt m a v (a + 3) h in
    rw (load_word-lt (store_word m a v) a h) (ground (arith, b0, b1, b2, b3))

-- Other bytes are kept.
pub store_word-other :
    (m : Memory) (a v x : ℕ) → a + 4 ≤ 2 ^ 32 → (x < a) ⊎ (a + 4 ≤ x) → store_word m a v x ≡ m x
store_word-other m a v x h out = let b = store_word-lt m a v x h in ground (arith, b)
