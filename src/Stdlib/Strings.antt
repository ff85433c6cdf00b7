-- ===== src/Stdlib/Strings.antt =====
-- The string functions of kernel/stdlib.c. A string is its address; it ends at the first zero byte.
pub mod Length
pub mod Copies
pub mod Order
use sandor_os.Prelude.{
  ℕ, zero, suc, ◌+◌, ◌-◌, ◌^◌, ◌<◌, ◌≡◌, ◌≢◌, Bool, true, false, ◌&&◌, Option, none, some, ltb,
  ◌==◌, if◌then◌else◌, u32, sub32, minus_one, ℤ, pos, negsuc, biased,
}
use sandor_os.Stdlib.{Memory, load, store, memcpy}
use sandor_os.Stdlib.Search.{memchr}

-- A string of `n` characters stands at `s`.
pub record CString (m : Memory) (s n : ℕ) : Type 0 where
  pub ends : load m (s + n) ≡ 0
  pub inside : (k : ℕ) → k < n → load m (s + k) ≢ 0
  pub nonnull : 0 < s
  pub room : s + n < 2 ^ 32

pub strlen : Memory → ℕ → ℕ
strlen m str = sub32 (memchr m str 0 minus_one) str

pub strcpy : (dest src : ℕ) → Memory → Memory
strcpy dest src m = memcpy dest src (u32 (strlen m src + 1)) m

-- The macro `min`.
abbrev min : ℕ → ℕ → ℕ
min a b = if ltb b a then b else a

-- The rounds of the last loop all write the same byte.
terminate_loop : ℕ → ℕ → Memory → Memory
terminate_loop at zero m = m
terminate_loop at (suc n) m = terminate_loop at n (store m at 0)

pub strncpy : (dest src max_count : ℕ) → Memory → Memory
unfolding terminate_loop
strncpy dest src max_count m =
    let len = min (sub32 max_count 1) (strlen m src) in
    let m' = memcpy dest src len m in terminate_loop (dest + len) (u32 (len + 1) - strlen m' src) m'

-- The loop of `strcmp` ends at a zero byte of either string; `none` is fuel run out.
strcmp_loop : ℕ → Memory → (str1 str2 : ℕ) → Option ℤ
strcmp_loop zero m str1 str2 = none
strcmp_loop (suc f) m str1 str2 =
    let a = load m str1 in
    let b = load m str2 in
    let rest = strcmp_loop f m (u32 (str1 + 1)) (u32 (str2 + 1)) in
    if a == 0
    then (if b == 0 then some (pos 0) else some (pos 1))
    else if b == 0
    then some (negsuc 0)
    else if ltb (biased b) (biased a)
    then some (pos 1)
    else if ltb (biased a) (biased b)
    then some (negsuc 0)
    else rest

-- More fuel than there are addresses.
pub strcmp : Memory → (str1 str2 : ℕ) → Option ℤ
strcmp m str1 str2 = strcmp_loop (2 ^ 32) m str1 str2

pub strchr : Memory → (str value : ℕ) → ℕ
strchr m str value =
    if value == 0 then u32 (str + strlen m str) else memchr m str value (strlen m str)
