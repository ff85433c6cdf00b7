-- ===== src/Stdlib/Strings/Order.antt =====
-- `strcmp` against the comparison of the two strings as lists of characters.
use sandor_os.Prelude.{
  ℕ, zero, suc, ◌+◌, ◌^◌, ◌<◌, ◌≡◌, ◌≢◌, refl, ◌∙◌, ap, ◌↔◌, arith, ltb, if◌then◌else◌, u32, ℤ, pos,
  negsuc, biased, List, [], ◌∷◌, some, eq→==, ne→==, ◌++◌, ◌%◌, Bool-cases, inl, inr, ltb→lt,
  ltb→ge,
}
use mathlib.Core.Path.{subst}
use sandor_os.Stdlib.{Memory, IsBytes, load}
use sandor_os.Stdlib.Word.{u32_lem}
use sandor_os.Stdlib.Search.Compare.{load-IsByte, biased-injective}
use sandor_os.Stdlib.Strings.{CString, strcmp_loop, strcmp}

-- The characters of a string of length `n` at `s`.
abbrev pub chars : Memory → (s n : ℕ) → List ℕ
chars m s zero = []
chars m s (suc n) = load m s ∷ chars m (u32 (s + 1)) n

-- How `strcmp` orders two lists of characters: by the first place at which they differ, as signed
-- characters, and where one goes on behind the other, the shorter one is the greater.
pub data Compared (xs ys : List ℕ) : ℤ → Type 0 where
  same : xs ≡ ys → Compared xs ys (pos 0)
  above :
      (ps : List ℕ) (x y : ℕ) (us vs : List ℕ)
      → xs ≡ ps ++ x ∷ us
      → ys ≡ ps ++ y ∷ vs
      → (y + 128) % 256 < (x + 128) % 256
      → Compared xs ys (pos 1)
  below :
      (ps : List ℕ) (x y : ℕ) (us vs : List ℕ)
      → xs ≡ ps ++ x ∷ us
      → ys ≡ ps ++ y ∷ vs
      → (x + 128) % 256 < (y + 128) % 256
      → Compared xs ys (negsuc 0)
  shorter : (y : ℕ) (vs : List ℕ) → ys ≡ xs ++ y ∷ vs → Compared xs ys (pos 1)
  longer : (x : ℕ) (us : List ℕ) → xs ≡ ys ++ x ∷ us → Compared xs ys (negsuc 0)

-- The same by comparing one pair of characters after the other.
unfoldable pub compare_chars : List ℕ → List ℕ → ℤ
compare_chars [] [] = pos 0
compare_chars [] (y ∷ ys) = pos 1
compare_chars (x ∷ xs) [] = negsuc 0
compare_chars (x ∷ xs) (y ∷ ys) =
    let rest = compare_chars xs ys in
    if ltb (biased y) (biased x)
    then pos 1
    else if ltb (biased x) (biased y)
    then negsuc 0
    else rest

CString-tail : (m : Memory) (s n : ℕ) → CString m s (suc n) → CString m (u32 (s + 1)) n
CString-tail m s n c = rw (u32_lem (s + 1) (omega (arith, c.room))) (record {
  ends = ap (load m) (omega arith) ∙ c.ends;
  inside = λ k h e. c.inside (suc k) (omega arith) (ap (load m) (omega arith) ∙ e);
  nonnull = omega arith;
  room = omega (arith, c.room);
})

head_zero : (m : Memory) (s : ℕ) → CString m s 0 → load m s ≡ 0
head_zero m s c = ap (load m) (omega arith) ∙ c.ends

head_nonzero : (m : Memory) (s n : ℕ) → CString m s (suc n) → load m s ≢ 0
head_nonzero m s n c e = c.inside 0 (omega arith) (ap (load m) (omega arith) ∙ e)

module _ (m : Memory) where
  strcmp_loop-chars :
      (f p q a b : ℕ)
      → CString m p a
      → CString m q b
      → a < f
      → strcmp_loop f m p q ≡ some (compare_chars (chars m p a) (chars m q b))
  unfolding strcmp_loop compare_chars
  strcmp_loop-chars zero p q a b s t h = absurd (omega arith)
  strcmp_loop-chars (suc f) p q zero zero s t h =
      rw (eq→== _ 0 (head_zero m p s), eq→== _ 0 (head_zero m q t))
  strcmp_loop-chars (suc f) p q zero (suc b) s t h =
      rw (eq→== _ 0 (head_zero m p s), ne→== _ 0 (head_nonzero m q b t))
  strcmp_loop-chars (suc f) p q (suc a) zero s t h =
      rw (ne→== _ 0 (head_nonzero m p a s), eq→== _ 0 (head_zero m q t))
  strcmp_loop-chars (suc f) p q (suc a) (suc b) s t h =
      let ih =
        strcmp_loop-chars f (u32 (p + 1)) (u32 (q + 1)) a b (CString-tail m p a s)
          (CString-tail m q b t) (omega arith) in
      ground (arith, ih, head_nonzero m p a s, head_nonzero m q b t)

  pub strcmp-compare_chars :
      (str1 str2 a b : ℕ)
      → CString m str1 a
      → CString m str2 b
      → strcmp m str1 str2 ≡ some (compare_chars (chars m str1 a) (chars m str2 b))
  unfolding strcmp
  strcmp-compare_chars str1 str2 a b s t =
      strcmp_loop-chars (2 ^ 32) str1 str2 a b s t (omega (arith, s.room))

abbrev Bytes : List ℕ → Type 0
Bytes [] = Unit {0}
Bytes (x ∷ xs) = (x < 256) × Bytes xs

chars-Bytes : (m : Memory) (s n : ℕ) → IsBytes m → Bytes (chars m s n)
chars-Bytes m s zero bytes = tt
chars-Bytes m s (suc n) bytes = (load-IsByte m s bytes, chars-Bytes m (u32 (s + 1)) n bytes)

compare_chars-eq : (xs ys : List ℕ) → Bytes xs → Bytes ys → compare_chars xs ys ≡ pos 0 → xs ≡ ys
unfolding compare_chars
compare_chars-eq [] [] hx hy e = refl
compare_chars-eq [] (y ∷ ys) hx hy e = cc
compare_chars-eq (x ∷ xs) [] hx hy e = cc
compare_chars-eq (x ∷ xs) (y ∷ ys) (x<256, hx) (y<256, hy) e =
    ground (arith, biased-injective x y, compare_chars-eq xs ys hx hy)

compare_chars_self : (xs : List ℕ) → compare_chars xs xs ≡ pos 0
unfolding compare_chars
compare_chars_self [] = refl
compare_chars_self (x ∷ xs) = ground (arith, compare_chars_self xs)

Compared-cons : (c : ℕ) (xs ys : List ℕ) (z : ℤ) → Compared xs ys z → Compared (c ∷ xs) (c ∷ ys) z
Compared-cons c xs ys z (same e) = same (ap (λ l. c ∷ l) e)
Compared-cons c xs ys z (above ps x y us vs e f lt) =
    above (c ∷ ps) x y us vs (ap (λ l. c ∷ l) e) (ap (λ l. c ∷ l) f) lt
Compared-cons c xs ys z (below ps x y us vs e f lt) =
    below (c ∷ ps) x y us vs (ap (λ l. c ∷ l) e) (ap (λ l. c ∷ l) f) lt
Compared-cons c xs ys z (shorter y vs e) = shorter y vs (ap (λ l. c ∷ l) e)
Compared-cons c xs ys z (longer x us e) = longer x us (ap (λ l. c ∷ l) e)

compare_chars-Compared :
    (xs ys : List ℕ) → Bytes xs → Bytes ys → Compared xs ys (compare_chars xs ys)
unfolding compare_chars
compare_chars-Compared [] [] hx hy = same refl
compare_chars-Compared [] (y ∷ ys) hx hy = shorter y ys refl
compare_chars-Compared (x ∷ xs) [] hx hy = longer x xs refl
compare_chars-Compared (x ∷ xs) (y ∷ ys) (x<256, hx) (y<256, hy) =
    elim (Bool-cases (ltb (biased y) (biased x))) [
      | inl gt ↦ rw gt (above [] x y xs ys refl refl (ltb→lt _ _ gt))
      | inr le ↦ rw le (elim (Bool-cases (ltb (biased x) (biased y))) [
        | inl lt ↦ rw lt (below [] x y xs ys refl refl (ltb→lt _ _ lt))
        | inr ge ↦ rw ge (
            subst (λ c. Compared (x ∷ xs) (c ∷ ys) (compare_chars xs ys))
              (biased-injective x y x<256 y<256 (omega (arith, ltb→ge _ _ le, ltb→ge _ _ ge)))
              (Compared-cons x xs ys _ (compare_chars-Compared xs ys hx hy)))
      ])
    ]

module _ (m : Memory) (bytes : IsBytes m) (str1 str2 a b : ℕ) (s : CString m str1 a)
    (t : CString m str2 b) where
  -- In a memory of bytes `strcmp` on two strings returns 0 exactly when they have the same characters.
  pub strcmp-zero_iff : (strcmp m str1 str2 ≡ some (pos 0)) ↔ (chars m str1 a ≡ chars m str2 b)
  strcmp-zero_iff = (
    λ e.
        compare_chars-eq (chars m str1 a) (chars m str2 b) (chars-Bytes m str1 a bytes)
          (chars-Bytes m str2 b bytes) (cc (strcmp-compare_chars m str1 str2 a b s t)),
    λ e.
        strcmp-compare_chars m str1 str2 a b s t
        ∙ rw (← e) (ap some (compare_chars_self (chars m str1 a))),
  )

  -- In a memory of bytes `strcmp` on two strings ends. It returns 0 where they have the same
  -- characters; 1 or -1 where at the first place at which they differ the character of the first one
  -- is the greater or the smaller, as a signed character; and where one string goes on behind the
  -- other, 1 if the second is the longer and -1 if the first is: the other way round than the C
  -- library's.
  pub strcmp-Compared :
      (z : ℤ) × (strcmp m str1 str2 ≡ some z) × Compared (chars m str1 a) (chars m str2 b) z
  strcmp-Compared = (
    compare_chars (chars m str1 a) (chars m str2 b),
    strcmp-compare_chars m str1 str2 a b s t,
    compare_chars-Compared (chars m str1 a) (chars m str2 b) (chars-Bytes m str1 a bytes)
        (chars-Bytes m str2 b bytes),
  )
