-- ===== src/Keyboard/Overflow.antt =====
-- A sixteenth scancode, and all before it, are lost.
use sandor_os.Prelude.{ℕ, ◌+◌, ◌%◌, ◌<◌, ◌≡◌, refl, List, [], arith, length, eq→==}
use sandor_os.Keyboard.{Keyboard, keyboard_int_handler, in_scancode}
use sandor_os.Keyboard.Queue.{Holds, around-eq}

-- With fifteen scancodes waiting, and some already taken out since the start, one more makes the
-- buffer empty: `in_scancode` then returns 0.
pub keyboard_int_handler-overflow :
    (xs : List ℕ) (c status : ℕ) (k : Keyboard)
    → Holds xs k
    → length xs ≡ 15
    → 0 < k.key_buffer_head
    → Holds [] (keyboard_int_handler c status k)
      × ((in_scancode (keyboard_int_handler c status k)).1 ≡ 0)
unfolding keyboard_int_handler in_scancode
keyboard_int_handler-overflow xs c status k q full used =
    let meet : k.key_buffer_head ≡ k.key_buffer_tail % 16 + 1 =
      omega (arith, q.placed, q.head_le) in
    rw (around-eq k.key_buffer_tail q.tail_le) (
      record {
        head_le = q.head_le;
        tail_le = omega arith;
        room = omega arith;
        empty = λ z. meet;
        tail_pos = λ h. absurd (omega arith);
        placed = omega (arith, meet);
        keys = λ i lt. absurd (omega arith);
      },
      rw (eq→== k.key_buffer_head (k.key_buffer_tail % 16 + 1) meet) refl,
    )
