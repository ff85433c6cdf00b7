-- ===== src/Keyboard/Tests.antt =====
-- The theorems on the keyboard buffer at one that is empty and at one that is full.
use sandor_os.Prelude.{ℕ, zero, suc, ◌<◌, ◌≡◌, refl, List, [], ◌∷◌, arith, get_or}
use sandor_os.Keyboard.{Keyboard, init_keys, keyboard_int_handler, in_scancode}
use sandor_os.Keyboard.Queue.{Holds, init_keys-Holds}
use sandor_os.Keyboard.Overflow.{keyboard_int_handler-overflow}
use sandor_os.Keyboard.Runs.{Event, press, read, run, queue_run, Calm, run-queue_run}

abbrev started : Keyboard
started = record { key_buffer = λ i. 0; key_buffer_head = 5; key_buffer_tail = 9; ports = [] }

abbrev events : List Event
events = press 30 0 ∷ press 48 0 ∷ read ∷ read ∷ read ∷ []

events-Calm : Calm events []
unfolding Calm
events-Calm = (omega arith, (omega arith, tt))

run-queue_run_example : run events (init_keys started) ≡ queue_run events []
run-queue_run_example =
    run-queue_run events [] (init_keys started) (init_keys-Holds started) events-Calm

abbrev fifteen : List ℕ
fifteen = 7 ∷ 7 ∷ 7 ∷ 7 ∷ 7 ∷ 7 ∷ 7 ∷ 7 ∷ 7 ∷ 7 ∷ 7 ∷ 7 ∷ 7 ∷ 7 ∷ 7 ∷ []

abbrev full : Keyboard
full = record { key_buffer = λ i. 7; key_buffer_head = 3; key_buffer_tail = 2; ports = [] }

sevens : (i : ℕ) → i < 15 → 7 ≡ get_or fifteen i 0
sevens zero h = refl
sevens (suc zero) h = refl
sevens (suc (suc zero)) h = refl
sevens (suc (suc (suc zero))) h = refl
sevens (suc (suc (suc (suc zero)))) h = refl
sevens (suc (suc (suc (suc (suc zero))))) h = refl
sevens (suc (suc (suc (suc (suc (suc zero)))))) h = refl
sevens (suc (suc (suc (suc (suc (suc (suc zero))))))) h = refl
sevens (suc (suc (suc (suc (suc (suc (suc (suc zero)))))))) h = refl
sevens (suc (suc (suc (suc (suc (suc (suc (suc (suc zero))))))))) h = refl
sevens (suc (suc (suc (suc (suc (suc (suc (suc (suc (suc zero)))))))))) h = refl
sevens (suc (suc (suc (suc (suc (suc (suc (suc (suc (suc (suc zero))))))))))) h = refl
sevens (suc (suc (suc (suc (suc (suc (suc (suc (suc (suc (suc (suc zero)))))))))))) h = refl
sevens (suc (suc (suc (suc (suc (suc (suc (suc (suc (suc (suc (suc (suc zero))))))))))))) h = refl
sevens (suc (suc (suc (suc (suc (suc (suc (suc (suc (suc (suc (suc (suc (suc zero)))))))))))))) h =
    refl
sevens (suc (suc (suc (suc (suc (suc (suc (suc (suc (suc (suc (suc (suc (suc (suc i)))))))))))))))
      h =
    absurd (omega arith)

full-Holds : Holds fifteen full
full-Holds = record {
  head_le = omega arith;
  tail_le = omega arith;
  room = omega arith;
  empty = λ e. absurd (omega (arith, e));
  tail_pos = λ h. omega arith;
  placed = refl;
  keys = sevens;
}

keyboard_int_handler-overflow_example :
    Holds [] (keyboard_int_handler 30 0 full)
    × ((in_scancode (keyboard_int_handler 30 0 full)).1 ≡ 0)
keyboard_int_handler-overflow_example =
    keyboard_int_handler-overflow fifteen 30 0 full full-Holds refl (omega arith)
