-- ===== src/Stdlib/Search/Compare.antt =====
-- What the result of `memcmp` says.
use sandor_os.Prelude.{
  ℕ, zero, suc, ◌+◌, ◌≤◌, ◌<◌, ◌≡◌, refl, ◌↔◌, arith, ℤ, pos, negsuc, u32, biased,
}
use mathlib.Core.Path.{subst}
use native.Mathlib.Decide.{ℕ_discrete}
use sandor_os.Stdlib.{Memory, IsBytes, load}
use sandor_os.Stdlib.Search.{memcmp_loop, memcmp}

pub load-IsByte : (m : Memory) (a : ℕ) → IsBytes m → load m a < 256
unfolding load
load-IsByte m a bytes = bytes (u32 a)

-- The negation of a comparison's result.
abbrev pub flip : ℤ → ℤ
flip (pos zero) = pos 0
flip (pos (suc n)) = negsuc n
flip (negsuc n) = pos (suc n)

pub biased-injective : (a b : ℕ) → a < 256 → b < 256 → biased a ≡ biased b → a ≡ b
biased-injective a b ha hb e = omega arith

module _ (m : Memory) (bytes : IsBytes m) where
  -- The two blocks agree from index `i` on, over `n` bytes.
  abbrev pub SameBytes : (mem1 mem2 i n : ℕ) → Type 0
  SameBytes mem1 mem2 i n = (k : ℕ) → i ≤ k → k < i + n → load m (mem1 + k) ≡ load m (mem2 + k)

  module _ (mem1 mem2 : ℕ) where
    memcmp_step :
        (n i : ℕ)
        → memcmp_loop m mem1 mem2 (suc n) i ≡ pos 0
        → (load m (mem1 + i) ≡ load m (mem2 + i)) × (memcmp_loop m mem1 mem2 n (i + 1) ≡ pos 0)
    unfolding memcmp_loop
    memcmp_step n i h =
        let a = load m (mem1 + i) in
        let b = load m (mem2 + i) in
        let a<256 : a < 256 = load-IsByte m (mem1 + i) bytes in
        let b<256 : b < 256 = load-IsByte m (mem2 + i) bytes in ground (arith, biased-injective a b)

    memcmp_loop-SameBytes :
        (n i : ℕ) → memcmp_loop m mem1 mem2 n i ≡ pos 0 → SameBytes mem1 mem2 i n
    memcmp_loop-SameBytes zero i h k lo hi = absurd (omega arith)
    memcmp_loop-SameBytes (suc n) i h k lo hi =
        let (same, rest) = memcmp_step n i h in
        elim (ℕ_discrete i k) [
          | yes e ↦ subst (λ j. load m (mem1 + j) ≡ load m (mem2 + j)) e same
          | no ne ↦ memcmp_loop-SameBytes n (i + 1) rest k (omega arith) (omega arith)
        ]

    SameBytes-memcmp_loop :
        (n i : ℕ) → SameBytes mem1 mem2 i n → memcmp_loop m mem1 mem2 n i ≡ pos 0
    unfolding memcmp_loop
    SameBytes-memcmp_loop zero i h = refl
    SameBytes-memcmp_loop (suc n) i h =
        let same = h i (omega arith) (omega arith) in
        let rest = SameBytes-memcmp_loop n (i + 1) λ k lo hi. h k (omega arith) (omega arith) in
        ground arith

    -- In a memory of bytes `memcmp` returns 0 exactly when the two blocks hold the same bytes.
    pub memcmp-zero_iff :
        (count : ℕ) → (memcmp m mem1 mem2 count ≡ pos 0) ↔ SameBytes mem1 mem2 0 count
    unfolding memcmp
    memcmp-zero_iff count = (memcmp_loop-SameBytes count 0, SameBytes-memcmp_loop count 0)

  memcmp_loop-flip :
      (mem1 mem2 n i : ℕ) → memcmp_loop m mem2 mem1 n i ≡ flip (memcmp_loop m mem1 mem2 n i)
  unfolding memcmp_loop
  memcmp_loop-flip mem1 mem2 zero i = refl
  memcmp_loop-flip mem1 mem2 (suc n) i = ground (arith, memcmp_loop-flip mem1 mem2 n (i + 1))

  -- In a memory of bytes, exchanging the two blocks negates the result of `memcmp`.
  pub memcmp-flip :
      (mem1 mem2 count : ℕ) → memcmp m mem2 mem1 count ≡ flip (memcmp m mem1 mem2 count)
  unfolding memcmp
  memcmp-flip mem1 mem2 count = memcmp_loop-flip mem1 mem2 count 0
