-- ===== src/Stdlib/Strings/Copies.antt =====
-- `strcpy` and `strncpy` on a string.
use sandor_os.Prelude.{
  ℕ, ◌+◌, ◌-◌, ◌^◌, ◌≤◌, ◌<◌, ◌≡◌, ◌⊎◌, inl, inr, arith, if◌then◌else◌, u32, leb, ltb, ◌&&◌,
  Bool-cases, sub32, move, sym, ◌∙◌,
}
use sandor_os.Stdlib.{Memory, IsBytes, load, memcpy}
use sandor_os.Stdlib.Word.{load-lt, store-lt, u32_lem}
use sandor_os.Stdlib.Copy.{memcpy-move}
use sandor_os.Stdlib.Strings.{CString, strlen, strcpy, strncpy, min}
use sandor_os.Stdlib.Strings.Length.{strlen-eq}

-- The character at index `k` of a string, as a cell of memory.
module _ (m : Memory) (s n : ℕ) (string : CString m s n) where
  pub char_at : (k : ℕ) → k ≤ n → load m (s + k) ≡ m (s + k)
  char_at k h = load-lt m (s + k) (omega (arith, string.room))

  pub ends_cell : m (s + n) ≡ 0
  ends_cell = sym (char_at n (omega arith)) ∙ string.ends

  -- A string is still there after writes elsewhere.
  pub CString-frame : (m' : Memory) → ((k : ℕ) → k ≤ n → m' (s + k) ≡ m (s + k)) → CString m' s n
  CString-frame m' same = record {
    ends = load-lt m' (s + n) (omega (arith, string.room)) ∙ same n (omega arith) ∙ ends_cell;
    inside = λ k h e. string.inside k h (
        char_at k (omega arith)
        ∙ sym (same k (omega arith))
        ∙ sym (load-lt m' (s + k) (omega (arith, string.room)))
        ∙ e);
    nonnull = string.nonnull;
    room = string.room;
  }

module _ (m : Memory) (bytes : IsBytes m) (dest src n : ℕ) (string : CString m src n)
    (nonnull : 0 < dest) (room : dest + n < 2 ^ 32) where
  strcpy-move : (x : ℕ) → strcpy dest src m x ≡ move dest src (n + 1) m x
  unfolding strcpy
  strcpy-move x =
      rw (strlen-eq m src n string, u32_lem (n + 1) (omega (arith, string.room, string.nonnull)))
        (memcpy-move dest src (n + 1) m bytes (omega (arith, string.room)) (omega arith) x)

  strcpy-char : (k : ℕ) → k ≤ n → load (strcpy dest src m) (dest + k) ≡ load m (src + k)
  strcpy-char k h = ground (
    arith,
    load-lt (strcpy dest src m) (dest + k) (omega arith),
    strcpy-move (dest + k),
    char_at m src n string k,
  )

  -- In a memory of bytes, where a string of `n` characters and its terminator fit at `dest`, which is
  -- not NULL, `strcpy` puts the same string there, also when the two places overlap, and changes no
  -- other byte.
  pub strcpy-CString :
      CString (strcpy dest src m) dest n
      × ((k : ℕ) → k ≤ n → load (strcpy dest src m) (dest + k) ≡ load m (src + k))
      × ((x : ℕ) → (x < dest) ⊎ (dest + n < x) → strcpy dest src m x ≡ m x)
  strcpy-CString = (
    record {
      ends = strcpy-char n (omega arith) ∙ string.ends;
      inside = λ k h e. string.inside k h (sym (strcpy-char k (omega arith)) ∙ e);
      nonnull = nonnull;
      room = room;
    },
    strcpy-char,
    λ x out. ground (arith, strcpy-move x),
  )

-- The bytes that `strncpy` writes.
abbrev pub written : (max_count n : ℕ) → ℕ
written max_count n = if ltb 0 max_count && leb max_count n then max_count - 1 else n + 1

module _ (m : Memory) (bytes : IsBytes m) (dest src n max_count : ℕ) (string : CString m src n)
    (apart : (dest + n < src) ⊎ (src + n < dest)) (room : dest + n < 2 ^ 32)
    (word : max_count < 2 ^ 32) where
  copied : (len x : ℕ) → len ≤ n → memcpy dest src len m x ≡ move dest src len m x
  copied len x h = memcpy-move dest src len m bytes (omega (arith, string.room)) (omega arith) x

  strlen-copied : (len : ℕ) → len ≤ n → strlen (memcpy dest src len m) src ≡ n
  strlen-copied len h =
      strlen-eq (memcpy dest src len m) src n
        (CString-frame m src n string _ λ k hk. ground (arith, copied len (src + k)))

  fits : max_count ≡ 0 ⊎ (n < max_count) → min (sub32 max_count 1) n ≡ n
  fits h = ground arith

  truncated : 0 < max_count → max_count ≤ n → min (sub32 max_count 1) n ≡ max_count - 1
  truncated h k = ground arith

  short_rounds : 0 < max_count → max_count ≤ n → u32 (max_count - 1 + 1) - n ≡ 0
  short_rounds h k = omega arith

  whole_rounds : u32 (n + 1) - n ≡ 1
  whole_rounds = omega (arith, string.room, string.nonnull)

  -- `strncpy` copies a string of `n` characters with its terminator if `max_count` is above `n`, and
  -- also if it is 0; else it copies `max_count - 1` characters and writes no terminator. Source and
  -- destination are apart, the memory holds bytes, and `max_count` is a word.
  pub strncpy-move :
      (x : ℕ) → strncpy dest src max_count m x ≡ move dest src (written max_count n) m x
  unfolding strncpy
  strncpy-move x = elim (Bool-cases (ltb 0 max_count && leb max_count n)) [
    | inl cut ↦
        rw
          (
            strlen-eq m src n string,
            truncated (ground arith) (ground arith),
            cut,
            strlen-copied (max_count - 1) (ground arith),
            short_rounds (ground arith) (ground arith),
          )
          (copied (max_count - 1) x (ground arith))
    | inr whole ↦
        rw
          (
            strlen-eq m src n string,
            fits (ground arith),
            whole,
            strlen-copied n (omega arith),
            whole_rounds,
          )
          (ground (
            arith,
            store-lt (memcpy dest src n m) (dest + n) 0 x,
            copied n x,
            ends_cell m src n string,
          ))
  ]
