-- ===== src/Io.antt =====
-- The ports of the machine. A device answers a read by what has happened at the ports before, which
-- makes it a function of their trace; the devices themselves are parameters of what uses them.
use sandor_os.Prelude.{ℕ, List, [], ◌∷◌, u8, u16}

-- What happened at a port: a byte read or written, or a 16-bit word read or written.
pub data Event : Type 0 where
  got put : (port value : ℕ) → Event
  got_word put_word : (port value : ℕ) → Event

-- The events so far, the last one first.
abbrev pub Trace : Type 0
Trace = List Event

-- What a read from a port yields after a trace.
abbrev pub Device : Type 0
Device = Trace → ℕ → ℕ

-- The byte written to each port, the last one first.
abbrev pub puts : Trace → List (ℕ × ℕ)
puts [] = []
puts (put port value ∷ t) = (port, value) ∷ puts t
puts (got port value ∷ t) = puts t
puts (got_word port value ∷ t) = puts t
puts (put_word port value ∷ t) = puts t

unfoldable pub outportb : (port value : ℕ) → Trace → Trace
outportb port value t = put (u16 port) (u8 value) ∷ t

module _ (device : Device) where
  unfoldable pub inportb : (port : ℕ) → Trace → ℕ × Trace
  inportb port t = let value = u8 (device t (u16 port)) in (value, got (u16 port) value ∷ t)

  unfoldable pub inportw : (port : ℕ) → Trace → ℕ × Trace
  inportw port t = let value = u16 (device t (u16 port)) in (value, got_word (u16 port) value ∷ t)
