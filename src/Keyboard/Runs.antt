-- ===== src/Keyboard/Runs.antt =====
-- Any interleaving of interrupts and reads is one of a queue.
use sandor_os.Prelude.{ℕ, ◌<◌, ◌≡◌, refl, ap, List, [], ◌∷◌, ◌++◌, length}
use sandor_os.Keyboard.{Keyboard, keyboard_int_handler, in_scancode}
use sandor_os.Keyboard.Queue.{
  Holds, keyboard_int_handler-Holds, in_scancode-Holds, in_scancode-empty,
}

pub data Event : Type 0 where
  press : (key_code status : ℕ) → Event
  read : Event

-- The answers to the reads, in order.
pub run : List Event → Keyboard → List ℕ
run [] k = []
run (press c status ∷ es) k = run es (keyboard_int_handler c status k)
run (read ∷ es) k = (in_scancode k).1 ∷ run es (in_scancode k).0

-- The same on a queue, where a read of the empty queue answers 0.
pub queue_run : List Event → List ℕ → List ℕ
queue_run [] xs = []
queue_run (press c status ∷ es) xs = queue_run es (xs ++ (c ∷ []))
queue_run (read ∷ es) [] = 0 ∷ queue_run es []
queue_run (read ∷ es) (x ∷ xs) = x ∷ queue_run es xs

-- Each interrupt finds fewer than fifteen scancodes waiting.
unfoldable pub Calm : List Event → List ℕ → Type 0
Calm [] xs = Unit
Calm (press c status ∷ es) xs = length xs < 15 × Calm es (xs ++ (c ∷ []))
Calm (read ∷ es) [] = Calm es []
Calm (read ∷ es) (x ∷ xs) = Calm es xs

-- From a buffer that holds a queue of scancodes, for any sequence of interrupts and reads in which each interrupt finds fewer than fifteen scancodes
-- waiting, the reads return what the queue of the scancodes returns.
pub run-queue_run :
    (es : List Event) (xs : List ℕ) (k : Keyboard)
    → Holds xs k
    → Calm es xs
    → run es k ≡ queue_run es xs
unfolding run queue_run Calm
run-queue_run [] xs k q calm = refl
run-queue_run (press c status ∷ es) xs k q calm =
    run-queue_run es (xs ++ (c ∷ [])) (keyboard_int_handler c status k)
      (keyboard_int_handler-Holds xs c status k q (calm.0)) (calm.1)
run-queue_run (read ∷ es) [] k q calm =
    rw (in_scancode-empty k q) (ap (λ r. 0 ∷ r) (run-queue_run es [] k q calm))
run-queue_run (read ∷ es) (x ∷ xs) k q calm =
    let step = in_scancode-Holds x xs k q in
    rw (step.0) (ap (λ r. x ∷ r) (run-queue_run es xs (in_scancode k).0 (step.1) calm))
