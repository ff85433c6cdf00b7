-- ===== src/Tty/Number.antt =====
-- `int_to_str` of kernel/tty.c: a number in a base, written from the end of `num_buffer` down.
pub mod Digits
use mathlib.Core.Option
use sandor_os.Prelude.{
  ℕ, zero, suc, ◌+◌, ◌/◌, ◌%◌, List, [], ◌∷◌, Option, none, some, get_or, ltb, ◌==◌, ◌||◌,
  if◌then◌else◌, u32, sub32,
}

-- `digits` and the byte that ends it.
abbrev pub digits : List ℕ
digits = 48 ∷ 49 ∷ 50 ∷ 51 ∷ 52 ∷ 53 ∷ 54 ∷ 55 ∷ 56 ∷ 57 ∷ 65 ∷ 66 ∷ 67 ∷ 68 ∷ 69 ∷ 70 ∷ 0 ∷ []

-- The bytes of `num_buffer` and of what stands behind it, by index.
abbrev pub Buffer : Type 0
Buffer = ℕ → ℕ

abbrev pub buffer_size : ℕ
buffer_size = 65

unfoldable pub write : ℕ → ℕ → Buffer → Buffer
write i c m j = if j == i then c else m j

-- The loop, for at most `fuel` rounds. A base of 0 is a division error, and a remainder past the end
-- of `digits` reads foreign memory: no result.
unfoldable pub int_loop : (fuel i value base : ℕ) → Buffer → Option (Buffer × ℕ)
int_loop zero i value base m = none
int_loop (suc fuel) i value base m =
    let m' = write i (get_or digits (value % base) 0) m in
    let rest = int_loop fuel (sub32 i 1) (value / base) base m' in
    if base == 0 || ltb 16 (value % base)
    then none
    else if value / base == 0
    then some (m', u32 (sub32 i 1 + 1))
    else rest

-- The buffer and the index of the first character. A word has at most 32 digits.
unfoldable pub int_to_str : (value base : ℕ) → Buffer → Option (Buffer × ℕ)
int_to_str value base m = int_loop 32 (sub32 buffer_size 1) value base (write buffer_size 0 m)
