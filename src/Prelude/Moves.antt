-- ===== src/Prelude/Moves.antt =====
-- A block of cells moved within an array, whose cells are given by a function of the index.
use Prim.Native.Nat.{ℕ, ◌+◌, ◌-◌, ◌≤◌, ◌<◌}
use native.Mathlib.Omega.{arith}
use mathlib.Core.Path.{◌≡◌}
use mathlib.Core.Bool.{◌&&◌}
use sandor_os.Prelude.Tests.{ltb, leb, if◌then◌else◌}

-- `n` cells from `src` on are copied to `dest` on, as if through a buffer.
abbrev pub move {ℓ} : {A : Type ℓ} → (dest src n : ℕ) → (ℕ → A) → ℕ → A
move dest src n m x = if leb dest x && ltb x (dest + n) then m (src + (x - dest)) else m x

-- `n` cells from `dest` on are set to `v`.
abbrev pub fill {ℓ} : {A : Type ℓ} → (dest n : ℕ) → A → (ℕ → A) → ℕ → A
fill dest n v m x = if leb dest x && ltb x (dest + n) then v else m x

module _ {ℓ} {A : Type ℓ} (dest n x : ℕ) (m : ℕ → A) where
  pub fill-inside : (v : A) → dest ≤ x → x < dest + n → fill dest n v m x ≡ v
  fill-inside v le lt = ground arith

  pub fill-before : (v : A) → x < dest → fill dest n v m x ≡ m x
  fill-before v lt = ground arith

  pub fill-behind : (v : A) → dest + n ≤ x → fill dest n v m x ≡ m x
  fill-behind v ge = ground arith

  pub move-inside : (src : ℕ) → dest ≤ x → x < dest + n → move dest src n m x ≡ m (src + (x - dest))
  move-inside src le lt = ground arith
