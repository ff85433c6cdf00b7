-- ===== src/Keyboard/Scancodes.antt =====
-- `in_char` of kernel/tty.c with the tables of kernel/include/scancodes.h.
pub mod Typed
pub mod Presses
mod Tests
use sandor_os.Prelude.{
  ℕ, List, [], ◌∷◌, ◌==◌, ◌||◌, if◌then◌else◌, get_or, zero, suc, ◌+◌, ◌-◌, ◌*◌, ◌/◌, ◌%◌, ◌^◌, ◌<◌,
  ◌≤◌, ◌≡◌, refl, sym, ap, ◌∙◌, ◌⊎◌, inl, inr, ◌↔◌, Bool, true, false, ◌&&◌, Option, none, some,
  ◌++◌, arith, ltb, leb, u8, u16, u32, sub32, shl, shr, Bool-cases, lt→ltb, le→ltb, leb→le, leb→gt,
  ltb→lt, ltb→ge, le→leb, lt→leb, eq→==, ne→==, ==→eq, ==→ne,
}
use sandor_os.Keyboard.{Keyboard, keyboard_int_handler, in_scancode}

abbrev pub scancodes : List ℕ
scancodes =
    0 ∷ 0 ∷ 49 ∷ 50 ∷ 51 ∷ 52 ∷ 53 ∷ 54 ∷ 55 ∷ 56 ∷ 57 ∷ 48 ∷ 45 ∷ 61 ∷ 8 ∷ 9 ∷ 113 ∷ 119 ∷ 101
    ∷ 114 ∷ 116 ∷ 121 ∷ 117 ∷ 105 ∷ 111 ∷ 112 ∷ 91 ∷ 93 ∷ 10 ∷ 0 ∷ 97 ∷ 115 ∷ 100 ∷ 102 ∷ 103 ∷ 104
    ∷ 106 ∷ 107 ∷ 108 ∷ 59 ∷ 39 ∷ 96 ∷ 0 ∷ 92 ∷ 122 ∷ 120 ∷ 99 ∷ 118 ∷ 98 ∷ 110 ∷ 109 ∷ 44 ∷ 46 ∷ 47
    ∷ 0 ∷ 42 ∷ 0 ∷ 32 ∷ 0 ∷ 0 ∷ 0 ∷ 0 ∷ 0 ∷ 0 ∷ 0 ∷ 0 ∷ 0 ∷ 0 ∷ 0 ∷ 0 ∷ 0 ∷ 0 ∷ 0 ∷ 0 ∷ 45 ∷ 0 ∷ 0
    ∷ 0 ∷ 43 ∷ 0 ∷ 0 ∷ 0 ∷ 0 ∷ 0 ∷ 0 ∷ 0 ∷ 0 ∷ 0 ∷ 0 ∷ 0 ∷ 0 ∷ 0 ∷ 0 ∷ 0 ∷ 0 ∷ 0 ∷ 0 ∷ 0 ∷ 0 ∷ 0 ∷ 0
    ∷ 0 ∷ 0 ∷ 0 ∷ 0 ∷ 0 ∷ 0 ∷ 0 ∷ 0 ∷ []

abbrev pub scancodes_shifted : List ℕ
scancodes_shifted =
    0 ∷ 0 ∷ 33 ∷ 64 ∷ 35 ∷ 36 ∷ 37 ∷ 94 ∷ 38 ∷ 42 ∷ 40 ∷ 41 ∷ 95 ∷ 43 ∷ 8 ∷ 9 ∷ 81 ∷ 87 ∷ 69 ∷ 82
    ∷ 84 ∷ 89 ∷ 85 ∷ 73 ∷ 79 ∷ 80 ∷ 123 ∷ 125 ∷ 10 ∷ 0 ∷ 65 ∷ 83 ∷ 68 ∷ 70 ∷ 71 ∷ 72 ∷ 74 ∷ 75 ∷ 76
    ∷ 58 ∷ 34 ∷ 126 ∷ 0 ∷ 124 ∷ 90 ∷ 88 ∷ 67 ∷ 86 ∷ 66 ∷ 78 ∷ 77 ∷ 60 ∷ 62 ∷ 63 ∷ 0 ∷ 42 ∷ 0 ∷ 32
    ∷ 0 ∷ 0 ∷ 0 ∷ 0 ∷ 0 ∷ 0 ∷ 0 ∷ 0 ∷ 0 ∷ 0 ∷ 0 ∷ 0 ∷ 0 ∷ 0 ∷ 0 ∷ 0 ∷ 45 ∷ 0 ∷ 0 ∷ 0 ∷ 43 ∷ 0 ∷ 0
    ∷ 0 ∷ 0 ∷ 0 ∷ 0 ∷ 0 ∷ 0 ∷ 0 ∷ 0 ∷ 0 ∷ 0 ∷ 0 ∷ 0 ∷ 0 ∷ 0 ∷ 0 ∷ 0 ∷ 0 ∷ 0 ∷ 0 ∷ 0 ∷ 0 ∷ 0 ∷ 0 ∷ 0
    ∷ 0 ∷ 0 ∷ 0 ∷ 0 ∷ []

-- The scancodes of the two shift keys, and those of their release.
abbrev pub shift_after : (shift : Bool) → (scancode : ℕ) → Bool
shift_after shift chr =
    if chr == 42 || chr == 54 then true else if chr == 170 || chr == 182 then false else shift

-- The character of a scancode; that of a release is that of 0. None stands behind the tables, which
-- have 109 entries.
unfoldable pub character : (shift : Bool) → (scancode : ℕ) → Option ℕ
character shift chr =
    let key = if chr / 128 % 2 == 1 then 0 else chr in
    if ltb key 109
    then some (get_or (if shift then scancodes_shifted else scancodes) key 0)
    else none

-- Interrupts to come before each call of `in_scancode`, each with the two bytes that it reads.
abbrev pub Rounds : Type 0
Rounds = List (List (ℕ × ℕ))

-- The end of a round: the loop goes on, or ends with a character.
abbrev pub answer :
    {S : Type 0}
    → (wait : Bool) → S
    → Rounds
    → Option (S × ℕ × Rounds)
    → Option ℕ
    → Option (S × ℕ × Rounds)
answer wait s rounds rest none = none
answer wait s rounds rest (some chr) = if wait && chr == 0 then rest else some (s, chr, rounds)

unfoldable pub interrupts : List (ℕ × ℕ) → Keyboard → Keyboard
interrupts [] k = k
interrupts ((key_code, status) ∷ es) k = interrupts es (keyboard_int_handler key_code status k)

-- The loop of `in_char`; `rounds` are the interrupts before each call of `in_scancode`. There is no
-- result while it waits. What is left of `rounds` comes after the return.
unfoldable pub in_char_loop :
    (wait shift : Bool) (rounds : Rounds) → Keyboard → Option (Keyboard × ℕ × Rounds)
unfolding character interrupts
in_char_loop wait shift [] k = none
in_char_loop wait shift (es ∷ rounds) k =
    let (k', code) = in_scancode (interrupts es k) in
    let shift' = shift_after shift code in
    let rest = in_char_loop wait shift' rounds k' in
    answer wait k' rounds rest (character shift' code)

unfoldable pub in_char : (wait : Bool) (rounds : Rounds) → Keyboard → Option (Keyboard × ℕ × Rounds)
unfolding in_char_loop
in_char wait rounds k = in_char_loop wait false rounds k
