-- ===== src/Stdlib/Copy.antt =====
-- `memcpy` moves a block, also where source and destination overlap.
use sandor_os.Prelude.{
  ℕ, zero, suc, ◌+◌, ◌-◌, ◌*◌, ◌/◌, ◌^◌, ◌≤◌, ◌<◌, ◌≡◌, arith, inl, inr, ltb, Bool-cases, ltb→lt,
  move,
}
use sandor_os.Stdlib.{
  Memory, IsBytes, load, store, load_word, store_word, words_up, bytes_up, words_down, bytes_down,
  memcpy,
}
use sandor_os.Stdlib.Word.{load-lt, store-lt, copy_word}

copy_byte :
    (m : Memory) (d s x : ℕ)
    → IsBytes m
    → d < 2 ^ 32
    → s < 2 ^ 32
    → store m d (load m s) x ≡ move d s 1 m x
copy_byte m d s x bytes hd hs =
    rw (store-lt m d (load m s) x hd, load-lt m s hs) (ground (arith, bytes s))

store-IsBytes : (m : Memory) (a v : ℕ) → IsBytes m → IsBytes (store m a v)
unfolding store
store-IsBytes m a v bytes x = ground (arith, bytes x)

store_word-IsBytes : (m : Memory) (a v : ℕ) → IsBytes m → IsBytes (store_word m a v)
unfolding store_word
store_word-IsBytes m a v bytes x = ground (arith, bytes x)

module _ (dest src : ℕ) where
  words_up-move :
      (n i : ℕ) (m : Memory) (x : ℕ)
      → IsBytes m
      → dest < src
      → src + (i + n) * 4 ≤ 2 ^ 32
      → words_up dest src n i m x ≡ move (dest + i * 4) (src + i * 4) (n * 4) m x
  unfolding words_up
  words_up-move zero i m x bytes h room = ground arith
  words_up-move (suc n) i m x bytes h room =
      let d = dest + i * 4 in
      let s = src + i * 4 in
      let m' = store_word m d (load_word m s) in
      ground (
        arith,
        words_up-move n (i + 1) m' x (store_word-IsBytes m d (load_word m s) bytes) h (omega arith),
        copy_word m d s x bytes (omega arith) (omega arith),
        copy_word m d s (src + (i + 1) * 4 + (x - (dest + (i + 1) * 4))) bytes (omega arith)
            (omega arith),
      )

  bytes_up-move :
      (n i : ℕ) (m : Memory) (x : ℕ)
      → IsBytes m
      → dest < src
      → src + (i + n) ≤ 2 ^ 32
      → bytes_up dest src n i m x ≡ move (dest + i) (src + i) n m x
  unfolding bytes_up
  bytes_up-move zero i m x bytes h room = ground arith
  bytes_up-move (suc n) i m x bytes h room =
      let m' = store m (dest + i) (load m (src + i)) in
      ground (
        arith,
        bytes_up-move n (i + 1) m' x (store-IsBytes m (dest + i) (load m (src + i)) bytes) h
            (omega arith),
        copy_byte m (dest + i) (src + i) x bytes (omega arith) (omega arith),
        copy_byte m (dest + i) (src + i) (src + (i + 1) + (x - (dest + (i + 1)))) bytes
            (omega arith) (omega arith),
      )

  bytes_down-move :
      (lo n : ℕ) (m : Memory) (x : ℕ)
      → IsBytes m
      → src ≤ dest
      → dest + (lo + n) ≤ 2 ^ 32
      → bytes_down dest src lo n m x ≡ move (dest + lo) (src + lo) n m x
  unfolding bytes_down
  bytes_down-move lo zero m x bytes h room = ground arith
  bytes_down-move lo (suc n) m x bytes h room =
      let d = dest + (lo + n) in
      let s = src + (lo + n) in
      ground (
        arith,
        bytes_down-move lo n (store m d (load m s)) x (store-IsBytes m d (load m s) bytes) h
            (omega arith),
        copy_byte m d s x bytes (omega arith) (omega arith),
        copy_byte m d s (src + lo + (x - (dest + lo))) bytes (omega arith) (omega arith),
      )

  words_down-move :
      (n : ℕ) (m : Memory) (x : ℕ)
      → IsBytes m
      → src ≤ dest
      → dest + n * 4 ≤ 2 ^ 32
      → words_down dest src n m x ≡ move dest src (n * 4) m x
  unfolding words_down
  words_down-move zero m x bytes h room = ground arith
  words_down-move (suc n) m x bytes h room =
      let d = dest + n * 4 in
      let s = src + n * 4 in
      ground (
        arith,
        words_down-move n (store_word m d (load_word m s)) x
            (store_word-IsBytes m d (load_word m s) bytes) h (omega arith),
        copy_word m d s x bytes (omega arith) (omega arith),
        copy_word m d s (src + (x - dest)) bytes (omega arith) (omega arith),
      )

module _ (dest src count : ℕ) (m : Memory) (bytes : IsBytes m) (from : src + count ≤ 2 ^ 32)
    (to : dest + count ≤ 2 ^ 32) where
  upwards :
      (x : ℕ)
      → dest < src
      → let n = count / 4 in
        bytes_up dest src (count - n * 4) (n * 4) (words_up dest src n 0 m) x
        ≡ move dest src count m x
  upwards x h =
      let n = count / 4 in
      let m' = words_up dest src n 0 m in
      let at = λ (y : ℕ). words_up-move dest src n 0 m y bytes h (omega arith) in
      let bytes' : IsBytes m' =
        λ y. ground (arith, at y, bytes y, bytes (src + 0 * 4 + (y - (dest + 0 * 4)))) in
      ground (
        arith,
        bytes_up-move dest src (count - n * 4) (n * 4) m' x bytes' h (omega arith),
        at x,
        at (src + n * 4 + (x - (dest + n * 4))),
      )

  downwards :
      (x : ℕ)
      → src ≤ dest
      → let n = count / 4 in
        words_down dest src n (bytes_down dest src (n * 4) (count - n * 4) m) x
        ≡ move dest src count m x
  downwards x h =
      let n = count / 4 in
      let m' = bytes_down dest src (n * 4) (count - n * 4) m in
      let at =
        λ (y : ℕ). bytes_down-move dest src (n * 4) (count - n * 4) m y bytes h (omega arith) in
      let bytes' : IsBytes m' =
        λ y. ground (arith, at y, bytes y, bytes (src + n * 4 + (y - (dest + n * 4)))) in
      ground
        (arith, words_down-move dest src n m' x bytes' h (omega arith), at x, at (src + (x - dest)))

  -- `memcpy` moves `count` bytes from `src` to `dest` and changes nothing else, also where the two
  -- blocks overlap, in both directions. Memory holds bytes, and neither block passes the end of
  -- the address space.
  pub memcpy-move : (x : ℕ) → memcpy dest src count m x ≡ move dest src count m x
  unfolding memcpy
  memcpy-move x = elim (Bool-cases (ltb dest src)) [
    | inl below ↦ rw below (upwards x (ltb→lt dest src below))
    | inr above ↦ rw above (downwards x (ground arith))
  ]
