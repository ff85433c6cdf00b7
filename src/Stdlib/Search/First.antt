-- ===== src/Stdlib/Search/First.antt =====
-- `memchr` finds the first occurrence.
use mathlib.Core.Path.{subst}
use native.Mathlib.Decide.{ℕ_discrete}
use sandor_os.Prelude.{
  ℕ, zero, suc, ◌+◌, ◌≤◌, ◌<◌, ◌≡◌, refl, ◌≢◌, ◌⊎◌, inl, inr, arith, Bool-cases, ◌==◌, u8, u32,
}
use sandor_os.Stdlib.{Memory, load}
use sandor_os.Stdlib.Search.{memchr_loop, memchr}

module _ (m : Memory) (mem value : ℕ) where
  -- No byte of `mem[i .. j)` is `value`.
  abbrev pub Absent : ℕ → ℕ → Type 0
  Absent i j = (k : ℕ) → i ≤ k → k < j → load m (mem + k) ≢ u8 value

  -- `r` is the address of the first byte of `mem[i .. j)` that is `value`, or NULL if there is none.
  abbrev pub FirstAt : (i j r : ℕ) → Type 0
  FirstAt i j r =
      ((k : ℕ) × (i ≤ k)
        × (k < j)
        × (load m (mem + k) ≡ u8 value)
        × (r ≡ u32 (mem + k))
        × Absent i k)
      ⊎ ((r ≡ 0) × Absent i j)

  Absent-pred : (i j : ℕ) → load m (mem + i) ≢ u8 value → Absent (i + 1) j → Absent i j
  Absent-pred i j here later k lo hi = elim (ℕ_discrete i k) [
    | yes e ↦ subst (λ k. load m (mem + k) ≢ u8 value) e here
    | no ne ↦ later k (omega arith) hi
  ]

  FirstAt-pred : (i j r : ℕ) → load m (mem + i) ≢ u8 value → FirstAt (i + 1) j r → FirstAt i j r
  FirstAt-pred i j r here (inl (k, lo, hi, at, is, before)) =
      inl (k, omega arith, hi, at, is, Absent-pred i k here before)
  FirstAt-pred i j r here (inr (is, before)) = inr (is, Absent-pred i j here before)

  memchr_loop-FirstAt : (n i j : ℕ) → i + n ≡ j → FirstAt i j (memchr_loop m mem value n i)
  unfolding memchr_loop
  memchr_loop-FirstAt zero i j e = inr (refl, λ k lo hi. absurd (omega arith))
  memchr_loop-FirstAt (suc n) i j e = elim (Bool-cases (load m (mem + i) == u8 value)) [
    | inl hit ↦
        rw hit
          (inl (i, omega arith, omega arith, ground arith, refl, λ k lo hi. absurd (omega arith)))
    | inr miss ↦
        rw miss (FirstAt-pred i j _ (ground arith) (memchr_loop-FirstAt n (i + 1) j (omega arith)))
  ]

  -- `memchr` returns the address of the first of the `count` bytes that equals the low byte of
  -- `value`, and NULL when there is none.
  pub memchr-FirstAt : (count : ℕ) → FirstAt 0 count (memchr m mem value count)
  unfolding memchr
  memchr-FirstAt count = memchr_loop-FirstAt count 0 count (omega arith)
