-- ===== src/Shell/Numbers.antt =====
-- What `parse_address` makes of a hexadecimal number.
use mathlib.Core.Path.{subst}
use native.Mathlib.Decide.{dec_lt}
use sandor_os.Prelude.{
  ℕ, zero, suc, ◌+◌, ◌-◌, ◌*◌, ◌^◌, ◌<◌, ◌≤◌, ◌≡◌, refl, sym, ap, ◌∙◌, ◌⊎◌, inl, inr, ◌&&◌, Option,
  none, some, arith, ltb, leb, ◌==◌, if◌then◌else◌, u32, sub32, shl, Bool-cases, eq→==, ne→==, ◌≢◌,
}
use mathlib.Core.Option
use native.Mathlib.Nat.{
  mul-le-mul_right, pow-le-pow_right, pow-suc, mul_comm, mul_assoc, mul_left_comm, mul-add,
}
use sandor_os.Stdlib.{Memory, load}
use sandor_os.Shell.{digit_value, arg_end, digits_loop, parse_address}

-- The value of a character as a hexadecimal digit.
abbrev pub hex_digit : ℕ → Option ℕ
hex_digit c =
    if leb 48 c && ltb c 58
    then some (c - 48)
    else if leb 65 c && ltb c 71
    then some (c - 55)
    else if leb 97 c && ltb c 103
    then some (c - 87)
    else none

-- The number that the first `n` digits make, the highest first.
abbrev pub value : (digit : ℕ → ℕ) → (n : ℕ) → ℕ
value digit zero = 0
value digit (suc n) = 16 * value digit n + digit n

-- The argument is `n` digits behind a prefix of `limit` characters, which is empty or ends in 'x',
-- and in front of its end or an 'h'.
pub record Spelled (m : Memory) (arg limit n : ℕ) (digit : ℕ → ℕ) : Type 0 where
  pub some_digit : 0 < n
  pub word : n ≤ 8
  pub digits : (k : ℕ) → k < n → hex_digit (load m (arg + (limit + k))) ≡ some (digit k)
  pub ends : (load m (arg + (limit + n)) ≡ 0) ⊎ (load m (arg + (limit + n)) ≡ 104)
  pub prefix :
      ((limit ≡ 0) × (load m (arg + 1) ≢ 120))
      ⊎ ((limit ≡ 2) × (load m (arg + 1) ≡ 120) × (load m (arg + 0) ≢ 0) × (load m (arg + 0) ≢ 104))

-- A digit's value as the switch computes it.
pub record Digit (c d : ℕ) : Type 0 where
  pub small : d < 16
  pub computed : digit_value c ≡ d
  pub inside : (c ≢ 0) × (c ≢ 104)

power_step : (k : ℕ) → 2 ^ (k + 4) ≡ 16 * 2 ^ k
power_step k =
    let e : k + 4 ≡ suc (suc (suc (suc k))) = omega arith in
    ap (λ j. 2 ^ j) e
    ∙ omega (
      arith,
      pow-suc 2 k,
      pow-suc 2 (suc k),
      pow-suc 2 (suc (suc k)),
      pow-suc 2 (suc (suc (suc k))),
    )

power_bound : (k : ℕ) → k ≤ 28 → 2 ^ k ≤ 2 ^ 28
power_bound k le = pow-le-pow_right {n = 2} (omega arith) {i = k} {j = 28} le

abbrev or_zero : Option ℕ → ℕ
or_zero none = 0
or_zero (some d) = d

Digit-of : (c d : ℕ) → d < 16 → digit_value c ≡ d → (48 ≤ c) × (c < 104) → Digit c d
Digit-of c d small computed (low, high) = record {
  small = small;
  computed = computed;
  inside = ((λ z. absurd (omega arith)), (λ z. absurd (omega arith)));
}

hex_digit-Digit : (c d : ℕ) → hex_digit c ≡ some d → Digit c d
hex_digit-Digit c d e = elim (Bool-cases (leb 48 c && ltb c 58)) [
  | inl a ↦
      Digit-of c d (ground (arith, ap or_zero e)) (ground (arith, ap or_zero e)) (ground arith)
  | inr a ↦ elim (Bool-cases (leb 65 c && ltb c 71)) [
    | inl b ↦
        Digit-of c d (ground (arith, ap or_zero e)) (ground (arith, ap or_zero e)) (ground arith)
    | inr b ↦ elim (Bool-cases (leb 97 c && ltb c 103)) [
      | inl f ↦
          Digit-of c d (ground (arith, ap or_zero e)) (ground (arith, ap or_zero e)) (ground arith)
      | inr f ↦ let z : hex_digit c ≡ none = rw (a, b, f) refl in absurd cc
    ]
  ]
]

module _ (m : Memory) (arg : ℕ) where
  arg_end-eq :
      (fuel left j : ℕ)
      → left < fuel
      → j + left < 2 ^ 32
      → ((k : ℕ) → j ≤ k → k < j + left → (load m (arg + k) ≢ 0) × (load m (arg + k) ≢ 104))
      → (load m (arg + (j + left)) ≡ 0) ⊎ (load m (arg + (j + left)) ≡ 104)
      → arg_end fuel j m arg ≡ some (j + left)
  unfolding arg_end
  arg_end-eq zero left j lt small inside ends = absurd (omega arith)
  arg_end-eq (suc fuel) zero j lt small inside ends =
      let e : j + 0 ≡ j = omega arith in
      elim ends [
        | inl z ↦ rw (eq→== _ 0 (ap (λ i. load m (arg + i)) (sym e) ∙ z), e) refl
        | inr h ↦
            let h' : load m (arg + j) ≡ 104 = ap (λ i. load m (arg + i)) (sym e) ∙ h in
            rw
              (
                ne→== (load m (arg + j)) 0 (λ z. absurd (omega (arith, z, h'))),
                eq→== (load m (arg + j)) 104 h',
                e,
              )
              refl
      ]
  arg_end-eq (suc fuel) (suc left) j lt small inside ends =
      let (a, b) = inside j (omega arith) (omega arith) in
      let next : u32 (j + 1) ≡ j + 1 = omega arith in
      let same : j + suc left ≡ j + 1 + left = omega arith in
      rw (ne→== _ 0 a, ne→== _ 104 b, next, same)
        (arg_end-eq fuel left (j + 1) (omega arith) (omega arith)
          (λ k ge lt. inside k (omega arith) (omega arith)) (rw⁻¹ same ends))

  module _ (limit n : ℕ) (digit : ℕ → ℕ) (s : Spelled m arg limit n digit) where
    digits_loop-value :
        (i q address : ℕ)
        → i + q + 1 ≡ n
        → address < 2 ^ (4 * q)
        → limit ≤ 2
        → digits_loop (8 - q) (limit + i) (4 * q) limit address m arg
          ≡ some (address + 2 ^ (4 * q) * value digit (suc i))
    unfolding digits_loop
    digits_loop-value zero q address e small low =
        let P = 2 ^ (4 * q) in
        let d : Digit (load m (arg + (limit + 0))) (digit 0) =
          hex_digit-Digit _ _ (s.digits 0 (omega (arith, s.some_digit))) in
        let fuel : 8 - q ≡ suc (7 - q) = omega (arith, s.word) in
        let bound : P ≤ 2 ^ 28 = power_bound (4 * q) (omega (arith, s.word)) in
        let most : digit 0 * P ≤ 15 * P = mul-le-mul_right P (omega (arith, d.small)) in
        let sum : u32 (address + shl (digit 0) (4 * q)) ≡ address + P * (16 * 0 + digit 0) =
          omega (arith, bound, most, mul_comm P (16 * 0 + digit 0)) in
        rw (fuel, d.computed, eq→== (limit + 0) limit (omega arith), sum) refl
    digits_loop-value (suc i) q address e small low =
        let P = 2 ^ (4 * q) in
        let d : Digit (load m (arg + (limit + suc i))) (digit (suc i)) =
          hex_digit-Digit _ _ (s.digits (suc i) (omega arith)) in
        let fuel : 8 - q ≡ suc (8 - suc q) = omega (arith, s.word) in
        let bound : P ≤ 2 ^ 28 = power_bound (4 * q) (omega (arith, s.word)) in
        let most : digit (suc i) * P ≤ 15 * P = mul-le-mul_right P (omega (arith, d.small)) in
        let sum : u32 (address + shl (digit (suc i)) (4 * q)) ≡ address + digit (suc i) * P =
          omega (arith, bound, most) in
        let prev : sub32 (limit + suc i) 1 ≡ limit + i = omega (arith, s.word) in
        let shift : 4 * q + 4 ≡ 4 * suc q = omega arith in
        let power : 2 ^ (4 * suc q) ≡ 16 * P = ap (λ k. 2 ^ k) (sym shift) ∙ power_step (4 * q) in
        let v = value digit (suc i) in
        let further : 2 ^ (4 * suc q) * v ≡ P * (16 * v) =
          ap (λ x. x * v) power ∙ mul_assoc 16 P v ∙ mul_left_comm 16 P v in
        let ih =
          digits_loop-value i (suc q) (address + digit (suc i) * P) (omega arith) (omega arith)
            low in
        rw
          (
            fuel,
            d.computed,
            ne→== (limit + suc i) limit (λ z. absurd (omega arith)),
            sum,
            prev,
            shift,
          )
          (ih
            ∙ ap some (
                omega
                  (arith, further, mul-add P (16 * v) (digit (suc i)), mul_comm P (digit (suc i)))))

    prefix_length : (if load m (arg + 1) == 120 then 2 else 0) ≡ limit
    prefix_length = elim s.prefix [
      | inl (e, other) ↦ rw (ne→== _ 120 other) (sym e)
      | inr (e, x, a, b) ↦ rw (eq→== _ 120 x) (sym e)
    ]

    inside : (k : ℕ) → k < limit + n → (load m (arg + k) ≢ 0) × (load m (arg + k) ≢ 104)
    inside k lt = elim (dec_lt k limit) [
      | no ge ↦
          let at : limit + (k - limit) ≡ k = omega arith in
          subst (λ i. (load m (arg + i) ≢ 0) × (load m (arg + i) ≢ 104)) at
            (hex_digit-Digit _ _ (s.digits (k - limit) (omega arith))).inside
      | yes low ↦ elim s.prefix [
        | inl (e, other) ↦ absurd (omega arith)
        | inr (e, x, a, b) ↦ at k (omega arith) x a b
      ]
    ]
      where
        at :
            (k : ℕ)
            → k < 2
            → load m (arg + 1) ≡ 120
            → (load m (arg + 0) ≢ 0)
            → (load m (arg + 0) ≢ 104)
            → (load m (arg + k) ≢ 0) × (load m (arg + k) ≢ 104)
        at zero lt x a b = (a, b)
        at (suc zero) lt x a b =
            ((λ z. absurd (omega (arith, x, z))), (λ z. absurd (omega (arith, x, z))))
        at (suc (suc k)) lt x a b = absurd (omega arith)

    short : limit ≤ 2
    short = elim s.prefix [ inl (e, other) ↦ omega arith | inr (e, x, a, b) ↦ omega arith ]

    -- For an argument of one to eight hexadecimal digits in upper or lower case, after nothing or
    -- after two characters of which the second is an x and the first is neither zero nor an h, and
    -- before the end of the string or an h, `parse_address` ends and returns the number that the
    -- digits spell.
    pub parse_address-value : parse_address m arg ≡ some (value digit n)
    unfolding parse_address Option.bind
    parse_address-value =
        let last : sub32 (limit + n) 1 ≡ limit + (n - 1) =
          omega (arith, s.some_digit, s.word, short) in
        let all : suc (n - 1) ≡ n = omega (arith, s.some_digit) in
        let start : 0 + (limit + n) ≡ limit + n = omega arith in
        let stop =
          arg_end-eq (2 ^ 32) (limit + n) 0 (omega (arith, short, s.word))
            (omega (arith, short, s.word)) (λ k ge lt. inside k (omega arith)) (rw start s.ends) in
        rw (stop, start, prefix_length, last)
          (digits_loop-value (n - 1) 0 0 (omega (arith, s.some_digit)) (omega arith) short
            ∙ ap some (ap (λ i. 0 + 2 ^ 0 * value digit i) all ∙ omega arith))
