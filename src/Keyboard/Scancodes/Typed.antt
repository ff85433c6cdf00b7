-- ===== src/Keyboard/Scancodes/Typed.antt =====
-- `in_char` on a queue of scancodes.
use mathlib.Core.List.{append-nil, append_assoc}
use sandor_os.Prelude.{
  ℕ, List, [], ◌∷◌, ◌++◌, length, ◌<◌, ◌≡◌, refl, inl, inr, Bool, false, ◌&&◌, Option, none, some,
  arith, ◌==◌, Bool-cases, length-append,
}
use sandor_os.Keyboard.{Keyboard, keyboard_int_handler, in_scancode}
use sandor_os.Keyboard.Queue.{
  Holds, keyboard_int_handler-Holds, in_scancode-Holds, in_scancode-empty,
}
use sandor_os.Keyboard.Scancodes.{
  shift_after, character, interrupts, in_char_loop, in_char, Rounds, answer,
}

-- The scancodes of some interrupts.
abbrev pub codes : List (ℕ × ℕ) → List ℕ
codes [] = []
codes ((key_code, status) ∷ es) = key_code ∷ codes es

-- The first of a queue, 0 where it is empty, and the others.
abbrev pub head_or : List ℕ → ℕ
head_or [] = 0
head_or (x ∷ xs) = x

abbrev pub tail : List ℕ → List ℕ
tail [] = []
tail (x ∷ xs) = xs

-- The next character typed, with the scancodes and the interrupts behind it.
unfoldable pub next_char :
    (wait shift : Bool) (rounds : Rounds) (xs : List ℕ) → Option (List ℕ × ℕ × Rounds)
next_char wait shift [] xs = none
next_char wait shift (es ∷ rounds) xs =
    let ys = xs ++ codes es in
    let shift' = shift_after shift (head_or ys) in
    let rest = next_char wait shift' rounds (tail ys) in
    answer wait (tail ys) rounds rest (character shift' (head_or ys))

-- At most fifteen scancodes wait at any time.
unfoldable pub Rests : (rounds : Rounds) (xs : List ℕ) → Type 0
Rests [] xs = Unit
Rests (es ∷ rounds) xs = (length (xs ++ codes es) < 16) × Rests rounds (tail (xs ++ codes es))

-- The two results agree: the same character, and the buffer holds the queue.
abbrev pub Agree : Option (Keyboard × ℕ × Rounds) → Option (List ℕ × ℕ × Rounds) → Type 0
Agree none none = Unit
Agree (some (k, c, rest)) (some (xs, d, rest')) = Holds xs k × (c ≡ d) × (rest ≡ rest')
Agree _ _ = ⊥

pub interrupts-Holds :
    (es : List (ℕ × ℕ)) (xs : List ℕ) (k : Keyboard)
    → Holds xs k
    → length (xs ++ codes es) < 16
    → Holds (xs ++ codes es) (interrupts es k)
unfolding interrupts
interrupts-Holds [] xs k q lt = rw (append-nil xs) q
interrupts-Holds ((c, status) ∷ es) xs k q lt =
    let e = append_assoc xs (c ∷ []) (codes es) in
    let room : length xs < 15 = omega (arith, length-append xs (c ∷ codes es)) in
    rw⁻¹ e (
      interrupts-Holds es (xs ++ (c ∷ [])) (keyboard_int_handler c status k)
        (keyboard_int_handler-Holds xs c status k q room) (rw e lt))

pub in_scancode-queue :
    (xs : List ℕ) (k : Keyboard)
    → Holds xs k
    → ((in_scancode k).1 ≡ head_or xs) × Holds (tail xs) (in_scancode k).0
in_scancode-queue [] k q = rw (in_scancode-empty k q) (refl, q)
in_scancode-queue (x ∷ xs) k q = in_scancode-Holds x xs k q

Agree-answer :
    (wait : Bool) (k : Keyboard) (xs : List ℕ) (rounds : Rounds)
    (r : Option (Keyboard × ℕ × Rounds)) (x : Option (List ℕ × ℕ × Rounds)) (o : Option ℕ)
    → Holds xs k
    → Agree r x
    → Agree (answer wait k rounds r o) (answer wait xs rounds x o)
Agree-answer wait k xs rounds r x none q agree = tt
Agree-answer wait k xs rounds r x (some chr) q agree = elim (Bool-cases (wait && chr == 0)) [
  | inl on ↦ rw on agree
  | inr off ↦ rw off (q, refl, refl)
]

in_char_loop-next_char :
    (wait shift : Bool) (rounds : Rounds) (xs : List ℕ) (k : Keyboard)
    → Holds xs k
    → Rests rounds xs
    → Agree (in_char_loop wait shift rounds k) (next_char wait shift rounds xs)
unfolding in_char_loop next_char Rests
in_char_loop-next_char wait shift [] xs k q rests = tt
in_char_loop-next_char wait shift (es ∷ rounds) xs k q rests =
    let (code, q') =
      in_scancode-queue (xs ++ codes es) (interrupts es k) (interrupts-Holds es xs k q (rests.0)) in
    rw code (
      Agree-answer wait _ _ rounds _ _
        (character (shift_after shift (head_or (xs ++ codes es))) (head_or (xs ++ codes es))) q'
        (in_char_loop-next_char wait (shift_after shift (head_or (xs ++ codes es))) rounds
          (tail (xs ++ codes es)) (in_scancode (interrupts es k)).0 q' (rests.1)))

-- `in_char` on the buffer and `next_char` on the queue agree, both without shift at first.
pub in_char-next_char :
    (wait : Bool) (rounds : Rounds) (xs : List ℕ) (k : Keyboard)
    → Holds xs k
    → Rests rounds xs
    → Agree (in_char wait rounds k) (next_char wait false rounds xs)
unfolding in_char
in_char-next_char wait rounds xs k q rests = in_char_loop-next_char wait false rounds xs k q rests
