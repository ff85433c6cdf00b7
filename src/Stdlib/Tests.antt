-- ===== src/Stdlib/Tests.antt =====
-- The theorems on kernel/stdlib.c at a memory with the strings "hi" and "hi!".
use sandor_os.Prelude.{
  ℕ, zero, suc, ◌+◌, ◌-◌, ◌<◌, ◌≡◌, ◌≢◌, refl, inl, inr, List, [], ◌∷◌, some, arith, get_or, leb,
  if◌then◌else◌, move, Bool-cases, ℤ,
}
use sandor_os.Stdlib.{Memory, IsBytes, load, memcpy}
use sandor_os.Stdlib.Copy.{memcpy-move}
use sandor_os.Stdlib.Strings.{CString, strncpy, strcmp}
use sandor_os.Stdlib.Strings.Copies.{strncpy-move, written}
use sandor_os.Stdlib.Strings.Order.{chars, Compared, strcmp-Compared}

abbrev text : List ℕ
text = 104 ∷ 105 ∷ 0 ∷ 104 ∷ 105 ∷ 33 ∷ 0 ∷ []

abbrev mark : ℕ
mark = 33

abbrev sample : Memory
sample x = if leb 100 x then get_or text (x - 100) 0 else 0

text-small : (i : ℕ) → get_or text i 0 < 256
text-small zero = omega arith
text-small (suc zero) = omega arith
text-small (suc (suc zero)) = omega arith
text-small (suc (suc (suc zero))) = omega arith
text-small (suc (suc (suc (suc zero)))) = omega arith
text-small (suc (suc (suc (suc (suc zero))))) = omega arith
text-small (suc (suc (suc (suc (suc (suc zero)))))) = omega arith
text-small (suc (suc (suc (suc (suc (suc (suc i))))))) = omega arith

sample-IsBytes : IsBytes sample
sample-IsBytes x = elim (Bool-cases (leb 100 x)) [
  | inl here ↦ rw here (text-small (x - 100))
  | inr out ↦ rw out (omega arith)
]

hi : CString sample 100 2
unfolding load
hi = record { ends = refl; inside = inside; nonnull = omega arith; room = omega arith }
  where
    inside : (k : ℕ) → k < 2 → load sample (100 + k) ≢ 0
    inside zero lt e = omega (arith, e)
    inside (suc zero) lt e = omega (arith, e)
    inside (suc (suc k)) lt e = absurd (omega arith)

hi_mark : CString sample 103 3
unfolding load
hi_mark = record { ends = refl; inside = inside; nonnull = omega arith; room = omega arith }
  where
    inside : (k : ℕ) → k < 3 → load sample (103 + k) ≢ 0
    inside zero lt e = omega (arith, e)
    inside (suc zero) lt e = omega (arith, e)
    inside (suc (suc zero)) lt e = omega (arith, e)
    inside (suc (suc (suc k))) lt e = absurd (omega arith)

memcpy-move_example : memcpy 101 100 4 sample 103 ≡ move 101 100 4 sample 103
memcpy-move_example = memcpy-move 101 100 4 sample sample-IsBytes (omega arith) (omega arith) 103

strncpy-move_example : strncpy 200 103 3 sample 202 ≡ move 200 103 (written 3 3) sample 202
strncpy-move_example =
    strncpy-move sample sample-IsBytes 200 103 3 3 hi_mark (inr (omega arith)) (omega arith)
      (omega arith) 202

strcmp-Compared_example :
    (z : ℤ) × (strcmp sample 100 103 ≡ some z)
    × Compared (chars sample 100 2) (chars sample 103 3) z
strcmp-Compared_example = strcmp-Compared sample sample-IsBytes 100 103 2 3 hi hi_mark
