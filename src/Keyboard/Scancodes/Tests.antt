-- ===== src/Keyboard/Scancodes/Tests.antt =====
-- The theorem on `in_char` at the shift key and the key of the letter a.
use sandor_os.Prelude.{false, true, refl, inl, [], ◌∷◌, arith}
use sandor_os.Keyboard.{Keyboard, init_keys, keyboard_int_handler}
use sandor_os.Keyboard.Queue.{Holds, init_keys-Holds, keyboard_int_handler-Holds}
use sandor_os.Keyboard.Scancodes.{Rounds, in_char}
use sandor_os.Keyboard.Scancodes.Typed.{Rests}
use sandor_os.Keyboard.Scancodes.Presses.{Press, shift_down, typed, to_come, Ended, in_char-Press}

abbrev started : Keyboard
started = record { key_buffer = λ i. 0; key_buffer_head = 5; key_buffer_tail = 9; ports = [] }

-- Both keys are down, and the first is released during the rounds.
abbrev waiting : Keyboard
waiting = keyboard_int_handler 30 0 (keyboard_int_handler 42 0 (init_keys started))

waiting-Holds : Holds (42 ∷ 30 ∷ []) waiting
waiting-Holds =
    keyboard_int_handler-Holds (42 ∷ []) 30 0 _
      (keyboard_int_handler-Holds [] 42 0 (init_keys started) (init_keys-Holds started)
        (omega arith))
      (omega arith)

abbrev rounds : Rounds
rounds = [] ∷ ((170, 0) ∷ []) ∷ []

rounds-Rests : Rests rounds (42 ∷ 30 ∷ [])
unfolding Rests
rounds-Rests = (omega arith, (omega arith, tt))

-- A capital A.
capital : Press false (42 ∷ 30 ∷ []) 65 []
capital = shift_down (inl refl) (
    typed (omega arith) (λ e. omega (arith, e)) (λ e. omega (arith, e)) refl (λ e. omega (arith, e))
      refl)

in_char-Press_example : Ended 65 (to_come rounds) (in_char true rounds waiting)
in_char-Press_example =
    in_char-Press (42 ∷ 30 ∷ []) [] 65 rounds waiting capital (omega arith) waiting-Holds
      rounds-Rests
