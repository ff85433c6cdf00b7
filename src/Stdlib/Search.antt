-- ===== src/Stdlib/Search.antt =====
-- `memcmp` and `memchr` of kernel/stdlib.c. `char` is signed on this target: its order is that of
-- the biased bytes.
pub mod Compare
pub mod First
use sandor_os.Prelude.{ℕ, zero, suc, ◌+◌, ltb, ◌==◌, if◌then◌else◌, u8, u32, ℤ, pos, negsuc, biased}
use sandor_os.Stdlib.{Memory, load}

memcmp_loop : Memory → (mem1 mem2 : ℕ) → ℕ → ℕ → ℤ
memcmp_loop m mem1 mem2 zero i = pos 0
memcmp_loop m mem1 mem2 (suc n) i =
    let a = biased (load m (mem1 + i)) in
    let b = biased (load m (mem2 + i)) in
    let rest = memcmp_loop m mem1 mem2 n (i + 1) in
    if ltb b a then pos 1 else if ltb a b then negsuc 0 else rest

pub memcmp : Memory → (mem1 mem2 count : ℕ) → ℤ
memcmp m mem1 mem2 count = memcmp_loop m mem1 mem2 count 0

-- NULL is 0.
memchr_loop : Memory → (mem value : ℕ) → ℕ → ℕ → ℕ
memchr_loop m mem value zero i = 0
memchr_loop m mem value (suc n) i =
    let rest = memchr_loop m mem value n (i + 1) in
    if load m (mem + i) == u8 value then u32 (mem + i) else rest

pub memchr : Memory → (mem value count : ℕ) → ℕ
memchr m mem value count = memchr_loop m mem value count 0
