-- ===== src/Stdlib/Strings/Length.antt =====
-- `strlen` and `strchr` on a string.
use native.Mathlib.Decide.{ℕ_discrete}
use sandor_os.Prelude.{ℕ, ◌+◌, ◌≡◌, ◌≢◌, ◌⊎◌, inl, inr, arith, u32, minus_one, eq→==, ne→==}
use sandor_os.Stdlib.{Memory}
use sandor_os.Stdlib.Search.First.{FirstAt, memchr-FirstAt}
use sandor_os.Stdlib.Strings.{CString, strlen, strchr}

module _ (m : Memory) (s n : ℕ) (string : CString m s n) where
  FirstAt-zero : (r : ℕ) → FirstAt m s 0 0 minus_one r → r ≡ u32 (s + n)
  FirstAt-zero r (inl (k, lo, hi, at, is, before)) =
      ground (arith, before n, string.inside k, string.ends)
  FirstAt-zero r (inr (is, absent)) = ground (arith, absent n, string.room, string.ends)

  -- On a string of `n` characters, wherever it stands in memory, `strlen` returns `n`.
  pub strlen-eq : strlen m s ≡ n
  unfolding strlen
  strlen-eq = omega (arith, FirstAt-zero _ (memchr-FirstAt m s 0 minus_one), string.room)

  -- On a string of `n` characters, `strchr` finds the terminator for the character 0, and else the
  -- first of the `n` characters that equals `value`, or NULL if there is none.
  pub strchr-FirstAt :
      (value : ℕ)
      → ((value ≡ 0) × (strchr m s value ≡ s + n))
        ⊎ ((value ≢ 0) × FirstAt m s value 0 n (strchr m s value))
  unfolding strchr
  strchr-FirstAt value = elim (ℕ_discrete value 0) [
    | yes e ↦ inl (e, rw (eq→== value 0 e, strlen-eq) (omega (arith, string.room)))
    | no ne ↦ inr (ne, rw (ne→== value 0 ne, strlen-eq) (memchr-FirstAt m s value n))
  ]
