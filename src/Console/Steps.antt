-- ===== src/Console/Steps.antt =====
-- A character of the line that `in_string` reads.
use mathlib.Core.Path.{subst}
use sandor_os.Prelude.{
  ℕ, zero, suc, ◌/◌, ◌%◌, ◌<◌, ◌≡◌, refl, inl, inr, Bool, true, false, ◌&&◌, Option, none, some,
  List, [], ◌∷◌, ◌++◌, arith, ltb, leb, ◌==◌, if◌then◌else◌, sub32, Bool-cases, ltb→lt, length,
  get_or,
}
use mathlib.Core.Option
use sandor_os.Keyboard.Scancodes.{
  Rounds, answer, character, scancodes, scancodes_shifted, shift_after,
}
use sandor_os.Keyboard.Scancodes.Typed.{Rests, next_char, codes, head_or, tail}
use sandor_os.Console.{Console, Line, on_tty, rub_out, store_char, edit}
use sandor_os.Console.Editing.{edited}

-- The line up to a line break, for keys that wait or come before the rounds of waiting, with the
-- scancodes and the interrupts behind it. None where the line has fifteen characters, which fills the
-- first buffer, or where there is no line break.
unfoldable pub line_of :
    (fuel : ℕ) (rounds : Rounds) (xs cs : List ℕ) → Option (List ℕ × List ℕ × Rounds)
line_of zero rounds xs cs = none
line_of (suc fuel) rounds xs cs =
    let next = Option.bind (next_char true false rounds xs) (λ (ys, chr, rest).
      let more = line_of fuel rest ys (edited chr cs) in
      if chr == 10 then some (cs, ys, rest) else more) in
    if leb 15 (length cs) then none else next

abbrev all_bytes : List ℕ → Bool
all_bytes [] = true
all_bytes (c ∷ cs) = if ltb c 256 then all_bytes cs else false

all_bytes-get_or : (cs : List ℕ) → all_bytes cs ≡ true → (k : ℕ) → get_or cs k 0 < 256
all_bytes-get_or [] e k = omega arith
all_bytes-get_or (c ∷ cs) e zero = elim (Bool-cases (ltb c 256)) [
  | inl small ↦ ltb→lt c 256 small
  | inr large ↦ absurd (stop large e)
]
  where
    stop : ltb c 256 ≡ false → (if ltb c 256 then all_bytes cs else false) ≡ true → ⊥
    stop large e =
        let e' : false ≡ true = subst (λ b. (if b then all_bytes cs else false) ≡ true) large e in
        cc
all_bytes-get_or (c ∷ cs) e (suc k) = all_bytes-get_or cs (rest (ltb c 256) e) k
  where
    rest : (b : Bool) → (if b then all_bytes cs else false) ≡ true → all_bytes cs ≡ true
    rest true e = e
    rest false e = absurd cc

-- A character that `next_char` yields is a byte, and what is left of the queue and the interrupts
-- still fits into the buffer.
abbrev pub Next : Option (List ℕ × ℕ × Rounds) → Type 0
Next none = Unit
Next (some (ys, chr, rest)) = (chr < 256) × Rests rest ys

abbrev pub IsByte : Option ℕ → Type 0
IsByte none = Unit
IsByte (some c) = c < 256

character-IsByte : (shift : Bool) (code : ℕ) → IsByte (character shift code)
unfolding character
character-IsByte shift code =
    elim (Bool-cases (ltb (if code / 128 % 2 == 1 then 0 else code) 109)) [
      | inl on ↦ rw on (table shift (if code / 128 % 2 == 1 then 0 else code))
      | inr off ↦ rw off tt
    ]
  where
    table :
        (shift : Bool) (k : ℕ) → get_or (if shift then scancodes_shifted else scancodes) k 0 < 256
    table true k = all_bytes-get_or scancodes_shifted refl k
    table false k = all_bytes-get_or scancodes refl k

Next-answer :
    (wait : Bool) (ys : List ℕ) (rounds : Rounds) (x : Option (List ℕ × ℕ × Rounds)) (o : Option ℕ)
    → IsByte o
    → Rests rounds ys
    → Next x
    → Next (answer wait ys rounds x o)
Next-answer wait ys rounds x none byte rests next = tt
Next-answer wait ys rounds x (some c) byte rests next = elim (Bool-cases (wait && c == 0)) [
  | inl on ↦ rw on next
  | inr off ↦ rw off (byte, rests)
]

pub next_char-Next :
    (wait shift : Bool) (rounds : Rounds) (xs : List ℕ)
    → Rests rounds xs
    → Next (next_char wait shift rounds xs)
unfolding next_char Rests
next_char-Next wait shift [] xs rests = tt
next_char-Next wait shift (es ∷ rounds) xs rests =
    let ys = xs ++ codes es in
    Next-answer wait (tail ys) rounds _ (character (shift_after shift (head_or ys)) (head_or ys))
      (character-IsByte (shift_after shift (head_or ys)) (head_or ys)) (rests.1)
      (next_char-Next wait (shift_after shift (head_or ys)) rounds (tail ys) (rests.1))

-- What `edit` keeps while the buffer has room.
pub record Same (l : Line) (s : Console) (r : Line × Console) : Type 0 where
  pub buffer : r.0.buffer ≡ l.buffer
  pub size : r.0.buffer_size ≡ l.buffer_size
  pub keyboard : r.1.keyboard ≡ s.keyboard

abbrev pub AllSame : Line → Console → Option (Line × Console) → Type 0
AllSame l s none = Unit
AllSame l s (some r) = Same l s r

AllSame-if :
    (b : Bool) (l : Line) (s : Console) (x y : Option (Line × Console))
    → AllSame l s x
    → AllSame l s y
    → AllSame l s (if b then x else y)
AllSame-if true l s x y p q = p
AllSame-if false l s x y p q = q

pub edit-Same :
    (chr : ℕ) (l : Line) (s : Console)
    → (l.position == sub32 l.buffer_size 1) ≡ false
    → AllSame l s (edit chr (l, s))
unfolding edit store_char
edit-Same chr l s room =
    let kept : Same l s (l, s) = record { buffer = refl; size = refl; keyboard = refl } in
    let back : AllSame l s (
        some (
          if ltb 0 l.position
          then (record l { position = sub32 l.position 1 }, on_tty rub_out s)
          else (l, s))) =
      elim (Bool-cases (ltb 0 l.position)) [
        | inl on ↦ rw on (record { buffer = refl; size = refl; keyboard = refl })
        | inr off ↦ rw off kept
      ] in
    rw room (
      AllSame-if (chr == 0) l s _ _ kept (
        AllSame-if (chr == 8) l s _ _ back (
          AllSame-if (chr == 10) l s _ _ (record { buffer = refl; size = refl; keyboard = refl })
            (record { buffer = refl; size = refl; keyboard = refl }))))
