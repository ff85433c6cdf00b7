-- ===== src/Keyboard/Queue.antt =====
-- The buffer is a queue of at most fifteen scancodes.
use native.Mathlib.Decide.{ℕ_discrete}
use sandor_os.Prelude.{
  ℕ, suc, ◌+◌, ◌-◌, ◌%◌, ◌≤◌, ◌<◌, ◌≡◌, ◌≢◌, refl, sym, ◌∙◌, List, [], ◌∷◌, ◌++◌, arith, length,
  get_or, length-append, ne→==, eq→==, get_or-last, get_or-before,
}
use sandor_os.Keyboard.{Keyboard, around, store_key, init_keys, keyboard_int_handler, in_scancode}

-- The scancodes that wait, the oldest first.
pub record Holds (xs : List ℕ) (k : Keyboard) : Type 0 where
  pub head_le : k.key_buffer_head ≤ 16
  pub tail_le : k.key_buffer_tail ≤ 16
  pub room : length xs < 16
  pub empty : length xs ≡ 0 → k.key_buffer_head ≡ k.key_buffer_tail
  pub tail_pos : 0 < length xs → 0 < k.key_buffer_tail
  pub placed : (k.key_buffer_head + length xs) % 16 ≡ k.key_buffer_tail % 16
  pub keys : (i : ℕ) → i < length xs → k.key_buffer ((k.key_buffer_head + i) % 16) ≡ get_or xs i 0

pub around-eq : (i : ℕ) → i ≤ 16 → around i ≡ i % 16
around-eq i h = ground arith

pub init_keys-Holds : (k : Keyboard) → Holds [] (init_keys k)
unfolding init_keys
init_keys-Holds k = record {
  head_le = omega arith;
  tail_le = omega arith;
  room = omega arith;
  empty = λ z. refl;
  tail_pos = λ h. absurd (omega arith);
  placed = refl;
  keys = λ i lt. absurd (omega arith);
}

store_key-same : (i c : ℕ) (m : ℕ → ℕ) → store_key i c m i ≡ c
unfolding store_key
store_key-same i c m = rw (eq→== i i refl) refl

store_key-other : (i c : ℕ) (m : ℕ → ℕ) (j : ℕ) → j ≢ i → store_key i c m j ≡ m j
unfolding store_key
store_key-other i c m j ne = rw (ne→== j i ne) refl

-- With fewer than fifteen scancodes waiting, the interrupt handler puts the new one behind them.
pub keyboard_int_handler-Holds :
    (xs : List ℕ) (c status : ℕ) (k : Keyboard)
    → Holds xs k
    → length xs < 15
    → Holds (xs ++ (c ∷ [])) (keyboard_int_handler c status k)
unfolding keyboard_int_handler
keyboard_int_handler-Holds xs c status k q lt = rw (around-eq k.key_buffer_tail q.tail_le) (record {
  head_le = q.head_le;
  tail_le = omega arith;
  room = omega (arith, longer);
  empty = λ z. absurd (omega (arith, longer));
  tail_pos = λ h. omega arith;
  placed = omega (arith, longer, q.placed);
  keys = keys;
})
  where
    longer : length (xs ++ (c ∷ [])) ≡ length xs + 1
    longer = length-append xs (c ∷ [])

    keys :
        (i : ℕ)
        → i < length (xs ++ (c ∷ []))
        → store_key (k.key_buffer_tail % 16 + 1 - 1) c k.key_buffer ((k.key_buffer_head + i) % 16)
          ≡ get_or (xs ++ (c ∷ [])) i 0
    keys i bound = elim (ℕ_discrete i (length xs)) [
      | yes last ↦
          let at : (k.key_buffer_head + i) % 16 ≡ k.key_buffer_tail % 16 + 1 - 1 =
            omega (arith, q.placed) in
          rw at (
            store_key-same (k.key_buffer_tail % 16 + 1 - 1) c k.key_buffer
            ∙ sym (rw last (get_or-last xs c)))
      | no before ↦
          store_key-other (k.key_buffer_tail % 16 + 1 - 1) c k.key_buffer
            ((k.key_buffer_head + i) % 16) (λ e. absurd (omega (arith, q.placed, longer)))
          ∙ q.keys i (omega (arith, longer))
          ∙ sym (get_or-before xs c i (omega (arith, longer)))
    ]

-- With a scancode waiting, `in_scancode` returns the oldest and takes it out.
pub in_scancode-Holds :
    (x : ℕ) (xs : List ℕ) (k : Keyboard)
    → Holds (x ∷ xs) k
    → ((in_scancode k).1 ≡ x) × Holds xs (in_scancode k).0
unfolding in_scancode
in_scancode-Holds x xs k q =
    rw
      (
        ne→== k.key_buffer_head k.key_buffer_tail (λ e. absurd (omega (arith, q.placed, q.room))),
        around-eq k.key_buffer_head q.head_le,
      )
      (
        first,
        record {
          head_le = omega arith;
          tail_le = q.tail_le;
          room = omega (arith, q.room);
          empty = λ z. omega (arith, q.placed, q.tail_pos (omega arith), q.tail_le);
          tail_pos = λ h. q.tail_pos (omega arith);
          placed = omega (arith, q.placed);
          keys = λ i lt.
              let at : (k.key_buffer_head % 16 + 1 + i) % 16 ≡ (k.key_buffer_head + suc i) % 16 =
                omega arith in
              rw at (q.keys (suc i) (omega arith));
        },
      )
  where
    first : k.key_buffer (k.key_buffer_head % 16) ≡ x
    first =
        let at : (k.key_buffer_head + 0) % 16 ≡ k.key_buffer_head % 16 = omega arith in
        rw⁻¹ at (q.keys 0 (omega arith))

-- With none waiting, `in_scancode` returns 0 and changes nothing.
pub in_scancode-empty : (k : Keyboard) → Holds [] k → in_scancode k ≡ (k, 0)
unfolding in_scancode
in_scancode-empty k q = rw (eq→== k.key_buffer_head k.key_buffer_tail (q.empty refl)) refl
