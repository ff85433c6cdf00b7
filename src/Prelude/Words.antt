-- ===== src/Prelude/Words.antt =====
-- The kernel's 32-bit words, bytes and signed results. `size_t`, `uint32_t`, `unsigned int`,
-- `physaddr` and the pointers are 32 bits wide on the i386 target.
use Prim.Native.Nat.{ℕ, ◌+◌, ◌-◌, ◌*◌, ◌/◌, ◌%◌, ◌^◌}

abbrev pub u8 : ℕ → ℕ
u8 n = n % 2 ^ 8

abbrev pub u16 : ℕ → ℕ
u16 n = n % 2 ^ 16

abbrev pub u32 : ℕ → ℕ
u32 n = n % 2 ^ 32

abbrev pub sub32 : ℕ → ℕ → ℕ
sub32 a b = (a + 2 ^ 32 - b) % 2 ^ 32

-- The word -1, which the page allocator uses for "none".
abbrev pub minus_one : ℕ
minus_one = 2 ^ 32 - 1

-- `x << k` in a word and `x >> k`.
abbrev pub shl : ℕ → ℕ → ℕ
shl x k = x * 2 ^ k % 2 ^ 32

abbrev pub shr : ℕ → ℕ → ℕ
shr x k = x / 2 ^ k

-- Signed integers; `negsuc n` is -(n + 1).
pub data ℤ : Type 0 where
  pos : ℕ → ℤ
  negsuc : ℕ → ℤ

-- The order of `char` values: a byte read as a signed number, raised by 128.
abbrev pub biased : ℕ → ℕ
biased b = (b + 128) % 2 ^ 8
