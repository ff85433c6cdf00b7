-- ===== src/Keyboard.antt =====
-- The keyboard buffer of kernel/tty.c: the interrupt handler puts scancodes in and `in_scancode` takes
-- them out.
pub mod Queue
pub mod Overflow
pub mod Runs
pub mod Scancodes
mod Tests
use sandor_os.Prelude.{
  ℕ, ◌+◌, ◌-◌, ◌^◌, ◌*◌, ◌/◌, ◌%◌, List, [], ◌∷◌, leb, ◌==◌, if◌then◌else◌, u8, u32,
}

abbrev pub key_buffer_size : ℕ
key_buffer_size = 16

-- `ports` are the bytes written to ports, the last one first.
pub record Keyboard : Type 0 where
  pub key_buffer : ℕ → ℕ
  pub key_buffer_head : ℕ
  pub key_buffer_tail : ℕ
  pub ports : List (ℕ × ℕ)

-- `init_tty` empties the buffer.
unfoldable pub init_keys : Keyboard → Keyboard
init_keys k = record k { key_buffer_head = 0; key_buffer_tail = 0 }

-- An index at the end of the buffer starts again.
abbrev pub around : ℕ → ℕ
around i = if leb key_buffer_size i then 0 else i

unfoldable pub store_key : ℕ → ℕ → (ℕ → ℕ) → ℕ → ℕ
store_key i c m j = if j == i then c else m j

-- `key_code` and `status` are read from the ports 0x60 and 0x61; `status | 1` sets the lowest bit.
unfoldable pub keyboard_int_handler : (key_code status : ℕ) → Keyboard → Keyboard
keyboard_int_handler key_code status k =
    let tail = around k.key_buffer_tail + 1 in
    record k {
      key_buffer = store_key (tail - 1) key_code k.key_buffer;
      key_buffer_tail = tail;
      ports = (97, status / 2 * 2 + 1) ∷ k.ports;
    }

unfoldable pub in_scancode : Keyboard → Keyboard × ℕ
in_scancode k =
    if k.key_buffer_head == k.key_buffer_tail
    then (k, 0)
    else let head = around k.key_buffer_head in
      (record k { key_buffer_head = head + 1 }, k.key_buffer head)
