-- ===== src/Prelude/Bits.antt =====
-- The bitwise or of a number with its low bits clear and a number in these bits.
use Prim.Native.Nat.{
  max, digits, bit_or, bit_or-bitwise, ℕ, zero, suc, ◌+◌, ◌*◌, ◌/◌, ◌^◌, ◌≤◌, ◌<◌,
}
use mathlib.Core.Path.{◌≡◌, refl, sym, ◌∙◌}
use native.Mathlib.Nat.{le_refl, mul_assoc}
use native.Mathlib.Numerals.{unary_clauses}
use native.Mathlib.Omega.{arith}

-- By recursion on the digits that are left.
digits-low : (n k q r a : ℕ) → a ≡ q * 2 ^ k → a ≤ n → r < 2 ^ k → digits (λ b. b) max n a r ≡ a + r
digits-low zero k q r zero e le small = omega arith
digits-low zero k q r (suc a) e le small = absurd (omega arith)
digits-low (suc n) k q r zero e le small = omega arith
digits-low (suc n) zero q r (suc a) e le small =
    let ih =
      digits-low n zero (suc a / 2) (r / 2) (suc a / 2) (omega arith) (omega arith) (omega arith) in
    omega (arith, ih)
digits-low (suc n) (suc k) q r (suc a) e le small =
    let twice : q * 2 ^ suc k ≡ q * 2 ^ k * 2 = simp unary_clauses (sym (mul_assoc q (2 ^ k) 2)) in
    let ih = digits-low n k q (r / 2) (suc a / 2) (omega arith) (omega arith) (omega arith) in
    omega (arith, ih)

pub bit_or-low : (k q r : ℕ) → r < 2 ^ k → bit_or (q * 2 ^ k) r ≡ q * 2 ^ k + r
bit_or-low k q r small =
    bit_or-bitwise (q * 2 ^ k) r
    ∙ digits-low (q * 2 ^ k) k q r (q * 2 ^ k) refl (le_refl (q * 2 ^ k)) small
