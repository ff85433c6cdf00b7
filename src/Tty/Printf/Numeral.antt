-- ===== src/Tty/Printf/Numeral.antt =====
-- The characters that `int_to_str` leaves in its buffer, as a list.
use sandor_os.Tty.Number.Digits.{below, shrinks, valid}
use native.Mathlib.Decide.{dec_lt}
use mathlib.Core.Path.{subst}
use sandor_os.Prelude.{
  ℕ, zero, suc, ◌+◌, ◌-◌, ◌/◌, ◌%◌, ◌^◌, ◌<◌, ◌≤◌, ◌≡◌, refl, ap, ◌∙◌, inl, inr, Bool, true, false,
  ◌&&◌, some, List, [], ◌∷◌, arith, ltb, ◌==◌, if◌then◌else◌, u32, sub32, Bool-cases, ltb→lt, eq→==,
  ne→==, ==→ne, get_or,
}
use sandor_os.Tty.Number.{digits, Buffer, write, int_loop, int_to_str}
use sandor_os.Tty.Printf.{text}

-- The digits of a number in front of others.
unfoldable pub numeral_loop : (fuel base value : ℕ) → List ℕ → List ℕ
numeral_loop zero base value cs = cs
numeral_loop (suc fuel) base value cs =
    let more = numeral_loop fuel base (value / base) (get_or digits (value % base) 0 ∷ cs) in
    if value / base == 0 then get_or digits (value % base) 0 ∷ cs else more

-- The digits of a word, the highest first.
abbrev pub numeral : (base value : ℕ) → List ℕ
numeral base value = numeral_loop 32 base value []

text-write : (n j i c : ℕ) (m : Buffer) → i < j → text n j (write i c m) ≡ text n j m
unfolding text write
text-write zero j i c m lt = refl
text-write (suc n) j i c m lt =
    rw (ne→== j i (λ e. absurd (omega arith)), text-write n (j + 1) i c m (omega arith)) refl

abbrev all_positive : (n : ℕ) → List ℕ → Bool
all_positive zero cs = true
all_positive (suc n) [] = false
all_positive (suc n) (c ∷ cs) = ltb 0 c && all_positive n cs

all_positive-get_or :
    (n : ℕ) (cs : List ℕ) → all_positive n cs ≡ true → (k : ℕ) → k < n → 0 < get_or cs k 0
all_positive-get_or zero cs e k lt = absurd (omega arith)
all_positive-get_or (suc n) [] e k lt = absurd cc
all_positive-get_or (suc n) (c ∷ cs) e zero lt = elim (Bool-cases (ltb 0 c)) [
  | inl pos ↦ ltb→lt 0 c pos
  | inr off ↦ absurd (stop off e)
]
  where
    stop : ltb 0 c ≡ false → (ltb 0 c && all_positive n cs) ≡ true → ⊥
    stop off e = let e' : false ≡ true = subst (λ b. (b && all_positive n cs) ≡ true) off e in cc
all_positive-get_or (suc n) (c ∷ cs) e (suc k) lt =
    all_positive-get_or n cs (rest (ltb 0 c) e) k (omega arith)
  where
    rest : (b : Bool) → (b && all_positive n cs) ≡ true → all_positive n cs ≡ true
    rest true e = e
    rest false e = absurd cc

digits-positive : (k : ℕ) → k < 16 → 0 < get_or digits k 0
digits-positive = all_positive-get_or 16 digits refl

module _ (base : ℕ) (low : 1 < base) (high : base ≤ 16) where
  -- The text behind a digit that is written in front of it.
  text-digit :
      (i value : ℕ) (m : Buffer) (cs : List ℕ)
      → i < 65
      → text (65 - i) (suc i) m ≡ cs
      → text (66 - i) i (write i (get_or digits (value % base) 0) m)
        ≡ get_or digits (value % base) 0 ∷ cs
  unfolding text write
  text-digit i value m cs lt e =
      let n : 66 - i ≡ suc (65 - i) = omega arith in
      let pos = digits-positive (value % base) (omega (arith, below base low high value)) in
      let next : i + 1 ≡ suc i = omega arith in
      rw
        (
          n,
          eq→== i i refl,
          ne→== (get_or digits (value % base) 0) 0 (λ z. absurd (omega (arith, pos, z))),
          next,
        )
        (ap (λ t. get_or digits (value % base) 0 ∷ t)
          (text-write (65 - i) (suc i) i _ m (omega arith) ∙ e))

  int_loop-numeral :
      (fuel i value : ℕ) (m : Buffer) (cs : List ℕ)
      → value < 2 ^ fuel
      → fuel ≤ i
      → 0 < fuel
      → i < 65
      → text (65 - i) (suc i) m ≡ cs
      → (r : Buffer × ℕ) × (int_loop fuel i value base m ≡ some r)
        × (text (66 - r.1) r.1 r.0 ≡ numeral_loop fuel base value cs)
  unfolding int_loop numeral_loop
  int_loop-numeral zero i value m cs small room some_fuel lt e = absurd (omega arith)
  int_loop-numeral (suc fuel) i value m cs small room some_fuel lt e =
      let byte = get_or digits (value % base) 0 in
      let here = text-digit i value m cs lt e in
      rw (valid base low high value) (elim (Bool-cases (value / base == 0)) [
        | inl end ↦
            let first : u32 (sub32 i 1 + 1) ≡ i = omega arith in
            rw (end, first) ((write i byte m, i), refl, here)
        | inr more ↦
            let prev : sub32 i 1 ≡ i - 1 = omega arith in
            let n : 65 - (i - 1) ≡ 66 - i = omega arith in
            let at : suc (i - 1) ≡ i = omega arith in
            rw (more, prev)
              (int_loop-numeral fuel (i - 1) (value / base) (write i byte m) (byte ∷ cs)
                (shrinks base low high fuel value small) (omega arith) (some_left more)
                (omega arith) (rw (n, at) here))
      ])
    where
      some_left : (value / base == 0) ≡ false → 0 < fuel
      some_left more = elim (dec_lt 0 fuel) [
        | yes h ↦ h
        | no h ↦
            let none_left : fuel ≡ 0 = omega arith in
            let tiny : value / base < 2 ^ 0 =
              subst (λ f. value / base < 2 ^ f) none_left
                (shrinks base low high fuel value small) in
            absurd (==→ne _ _ more (omega arith))
      ]

  pub int_to_str-numeral :
      (value : ℕ) (m : Buffer)
      → value < 2 ^ 32
      → (r : Buffer × ℕ) × (int_to_str value base m ≡ some r)
        × (text (66 - r.1) r.1 r.0 ≡ numeral base value)
  unfolding int_to_str text write
  int_to_str-numeral value m small =
      int_loop-numeral 32 64 value (write 65 0 m) [] small (omega arith) (omega arith) (omega arith)
        refl
