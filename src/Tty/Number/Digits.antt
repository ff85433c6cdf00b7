-- ===== src/Tty/Number/Digits.antt =====
-- What `int_to_str` writes are the digits of the number.
use native.Mathlib.Nat.{div-lt_iff_lt-mul, mod-lt, div-add-mod, mul-le-mul_left}
use mathlib.Core.Path.{subst}
use native.Mathlib.Decide.{dec_lt, ℕ_discrete}
use sandor_os.Prelude.{
  ℕ, zero, suc, ◌+◌, ◌-◌, ◌*◌, ◌/◌, ◌%◌, ◌^◌, ◌≤◌, ◌<◌, ◌≡◌, ◌≢◌, refl, ◌∙◌, ◌⊎◌, inl, inr, List,
  [], ◌∷◌, some, false, arith, length, get_or, ltb, ◌==◌, ==→eq, ==→ne, ne→==, eq→==, le→ltb, ◌||◌,
  Bool-cases, u32, sub32,
}
use sandor_os.Tty.Number.{digits, Buffer, write, int_loop, int_to_str}

-- The number that digits spell in a base, the lowest digit first.
abbrev pub number : ℕ → List ℕ → ℕ
number base [] = 0
number base (d ∷ ds) = d + base * number base ds

-- The highest digit.
abbrev pub leading : List ℕ → ℕ
leading [] = 0
leading (d ∷ []) = d
leading (d ∷ e ∷ ds) = leading (e ∷ ds)

-- The bytes from `first` to `last` spell `value`, without leading zeros, and no others of `m` change.
pub record Spells (base value first last : ℕ) (m n : Buffer) : Type 0 where
  pub ds : List ℕ
  pub small : (k : ℕ) → k < length ds → get_or ds k 0 < base
  pub spelled : number base ds ≡ value
  pub proper : ((value ≡ 0) × (length ds ≡ 1)) ⊎ (0 < leading ds)
  pub width : length ds + first ≡ last + 1
  pub bytes : (k : ℕ) → k < length ds → n (last - k) ≡ get_or digits (get_or ds k 0) 0
  pub behind : (j : ℕ) → last < j → n j ≡ m j
  pub before : (j : ℕ) → j < first → n j ≡ m j

leading-cons : (d : ℕ) (ds : List ℕ) → 0 < leading ds → leading (d ∷ ds) ≡ leading ds
leading-cons d [] h = absurd (omega arith)
leading-cons d (e ∷ ds) h = refl

write-same : (i c : ℕ) (m : Buffer) → write i c m i ≡ c
unfolding write
write-same i c m = rw (eq→== i i refl) refl

write-other : (i c : ℕ) (m : Buffer) (j : ℕ) → j ≢ i → write i c m j ≡ m j
unfolding write
write-other i c m j ne = rw (ne→== j i ne) refl

module _ (base : ℕ) (low : 1 < base) (high : base ≤ 16) where
  pub below : (value : ℕ) → value % base < base
  below value = mod-lt value (omega arith)

  pub valid : (value : ℕ) → (base == 0 || ltb 16 (value % base)) ≡ false
  valid value =
      let le : value % base ≤ 16 = omega (arith, below value) in
      rw (ne→== base 0 (λ e. absurd (omega arith)), le→ltb 16 (value % base) le) refl

  -- The byte of the lowest digit.
  abbrev byte : ℕ → ℕ
  byte value = get_or digits (value % base) 0

  last_digit :
      (i value : ℕ) (m : Buffer)
      → value / base ≡ 0
      → Spells base value i i m (write i (byte value) m)
  last_digit i value m end = record {
    ds = value % base ∷ [];
    small = small;
    spelled = omega (arith, same);
    proper = elim (ℕ_discrete value 0) [
      | yes z ↦ inl (z, refl)
      | no ne ↦ inr (omega (arith, same))
    ];
    width = omega arith;
    bytes = bytes;
    behind = λ j lt. write-other i (byte value) m j (λ e. absurd (omega arith));
    before = λ j lt. write-other i (byte value) m j (λ e. absurd (omega arith));
  }
    where
      same : value % base ≡ value
      same =
          let nothing : base * (value / base) ≡ 0 = rw end (omega arith) in
          omega (arith, div-add-mod value base, nothing)

      small : (k : ℕ) → k < 1 → get_or (value % base ∷ []) k 0 < base
      small zero lt = below value
      small (suc k) lt = absurd (omega arith)

      bytes :
          (k : ℕ)
          → k < 1
          → write i (byte value) m (i - k) ≡ get_or digits (get_or (value % base ∷ []) k 0) 0
      bytes zero lt = let at : i - 0 ≡ i = omega arith in rw at (write-same i (byte value) m)
      bytes (suc k) lt = absurd (omega arith)

  more_digits :
      (i value first : ℕ) (m n : Buffer)
      → 0 < i
      → value / base ≢ 0
      → Spells base (value / base) first (i - 1) (write i (byte value) m) n
      → Spells base value first i m n
  more_digits i value first m n pos more s = record {
    ds = value % base ∷ s.ds;
    small = small;
    spelled = rw s.spelled (omega (arith, div-add-mod value base));
    proper = elim s.proper [
      | inl z ↦ absurd (more (z.0))
      | inr lead ↦ inr (rw (leading-cons (value % base) s.ds lead) lead)
    ];
    width = omega (arith, s.width);
    bytes = bytes;
    behind = λ j lt.
        s.behind j (omega arith) ∙ write-other i (byte value) m j (λ e. absurd (omega arith));
    before = λ j lt.
        s.before j lt ∙ write-other i (byte value) m j (λ e. absurd (omega (arith, s.width)));
  }
    where
      small : (k : ℕ) → k < suc (length s.ds) → get_or (value % base ∷ s.ds) k 0 < base
      small zero lt = below value
      small (suc k) lt = s.small k (omega arith)

      bytes :
          (k : ℕ)
          → k < suc (length s.ds)
          → n (i - k) ≡ get_or digits (get_or (value % base ∷ s.ds) k 0) 0
      bytes zero lt =
          let at : i - 0 ≡ i = omega arith in
          rw at (s.behind i (omega arith) ∙ write-same i (byte value) m)
      bytes (suc k) lt =
          let at : i - suc k ≡ i - 1 - k = omega arith in rw at (s.bytes k (omega arith))

  pub shrinks : (fuel value : ℕ) → value < 2 ^ suc fuel → value / base < 2 ^ fuel
  shrinks fuel value small =
      (div-lt_iff_lt-mul {x = value} {y = 2 ^ fuel} (omega arith)).1
        (omega (arith, mul-le-mul_left (2 ^ fuel) low))

  int_loop-Spells :
      (fuel i value : ℕ) (m : Buffer)
      → value < 2 ^ fuel
      → fuel ≤ i
      → 0 < fuel
      → i < 2 ^ 31
      → (r : Buffer × ℕ) × (int_loop fuel i value base m ≡ some r)
        × Spells base value r.1 i m r.0
        × (suc i ≤ r.1 + fuel)
  unfolding int_loop
  int_loop-Spells zero i value m small room some_fuel word = absurd (omega arith)
  int_loop-Spells (suc fuel) i value m small room some_fuel word =
      rw (valid value) (elim (Bool-cases (value / base == 0)) [
        | inl end ↦
            let first : u32 (sub32 i 1 + 1) ≡ i = omega arith in
            rw (end, first)
              ((write i (byte value) m, i), refl, last_digit i value m (==→eq _ _ end), omega arith)
        | inr more ↦
            let prev : sub32 i 1 ≡ i - 1 = omega arith in
            let r =
              int_loop-Spells fuel (i - 1) (value / base) (write i (byte value) m)
                (shrinks fuel value small) (omega arith) (some_left more) (omega arith) in
            rw (more, prev)
              (
                r.0,
                r.1,
                more_digits i value (r.0.1) m (r.0.0) (omega arith) (==→ne _ _ more) (r.2),
                omega (arith, r.3),
              )
      ])
    where
      some_left : (value / base == 0) ≡ false → 0 < fuel
      some_left more = elim (dec_lt 0 fuel) [
        | yes h ↦ h
        | no h ↦
            let none_left : fuel ≡ 0 = omega arith in
            let tiny : value / base < 2 ^ 0 =
              subst (λ f. value / base < 2 ^ f) none_left (shrinks fuel value small) in
            absurd (==→ne _ _ more (omega arith))
      ]

  -- For a base from 2 to 16 and a 32-bit number, `int_to_str` writes the digits of the number in that
  -- base, without leading zeros, at the indices from the returned one to 64, which is not below 33,
  -- and a zero behind them at 65; no other byte changes.
  pub int_to_str-Spells :
      (value : ℕ) (m : Buffer)
      → value < 2 ^ 32
      → (r : Buffer × ℕ) × (int_to_str value base m ≡ some r)
        × Spells base value r.1 64 (write 65 0 m) r.0
        × (33 ≤ r.1)
        × (r.0 65 ≡ 0)
  unfolding int_to_str
  int_to_str-Spells value m small =
      let r =
        int_loop-Spells 32 64 value (write 65 0 m) small (omega arith) (omega arith)
          (omega arith) in
      (r.0, r.1, r.2, omega (arith, r.3), r.2.behind 65 (omega arith) ∙ write-same 65 0 m)
