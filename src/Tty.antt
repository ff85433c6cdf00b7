-- ===== src/Tty.antt =====
-- The text terminal of kernel/tty.c: the screen, the cursor and the text that goes there. The video
-- memory is an array of cells; `memcpy` and `memset_word` move and set whole cells.
pub mod Screen
pub mod Paper
pub mod Window
pub mod Text
pub mod Number
pub mod Printf
mod Tests
use sandor_os.Prelude.{
  ℕ, zero, suc, ◌+◌, ◌-◌, ◌*◌, ◌/◌, ◌%◌, ◌^◌, List, [], ◌∷◌, ltb, leb, ◌==◌, if◌then◌else◌, u8, u16,
  u32, sub32, move, fill,
}

pub record TtyChar : Type 0 where
  pub chr : ℕ
  pub attr : ℕ

abbrev pub tty_char : ℕ → ℕ → TtyChar
tty_char c a = record { chr = c; attr = a }

abbrev pub Cells : Type 0
Cells = ℕ → TtyChar

-- `ports` are the bytes written to ports, the last one first.
pub record Tty : Type 0 where
  pub tty_width : ℕ
  pub tty_height : ℕ
  pub cursor : ℕ
  pub text_attr : ℕ
  pub tty_buffer : Cells
  pub tty_io_port : ℕ
  pub ports : List (ℕ × ℕ)

abbrev pub size_of : Tty → ℕ
size_of t = u32 (t.tty_width * t.tty_height)

-- The word `(text_attr << 8) + ' '` as a cell.
abbrev pub blank : Tty → TtyChar
blank t = tty_char 32 t.text_attr

abbrev pub newline : ℕ
newline = 10

-- The cell at `k` is written.
unfoldable pub put : ℕ → TtyChar → Cells → Cells
put k c m j = if j == k then c else m j

-- The rows go one up, the first one out, and the last row is blank.
unfoldable pub scroll : Tty → Cells
scroll t =
    fill (u32 (t.tty_width * sub32 t.tty_height 1)) t.tty_width (blank t)
      (move 0 t.tty_width (size_of t) t.tty_buffer)

unfoldable pub scrolled : ℕ → Tty → Tty
scrolled pos t =
    if leb (size_of t) pos
    then record t { cursor = u32 (sub32 t.tty_height 1 * t.tty_width); tty_buffer = scroll t }
    else record t { cursor = pos }

unfoldable pub outportb : ℕ → ℕ → Tty → Tty
outportb port value t = record t { ports = (u16 port, u8 value) ∷ t.ports }

-- The two registers of the cursor's place are selected and written.
unfoldable pub out_cursor : Tty → Tty
unfolding outportb
out_cursor t = outportb (t.tty_io_port + 1) t.cursor (
    outportb t.tty_io_port 15
      (outportb (t.tty_io_port + 1) (t.cursor / 2 ^ 8) (outportb t.tty_io_port 14 t)))

unfoldable pub move_cursor : ℕ → Tty → Tty
move_cursor pos t = out_cursor (scrolled pos t)

unfoldable pub out_char : ℕ → Tty → Tty
out_char chr t =
    if chr == newline
    then move_cursor (u32 ((t.cursor / t.tty_width + 1) * t.tty_width)) t
    else move_cursor (u32 (t.cursor + 1))
        (record t { tty_buffer = put t.cursor (tty_char chr t.text_attr) t.tty_buffer })

-- The characters of a string before its end.
unfoldable pub out_string : List ℕ → Tty → Tty
out_string [] t = t
out_string (c ∷ cs) t = out_string cs (out_char c t)

unfoldable pub clear_screen : Tty → Tty
clear_screen t = move_cursor 0 (record t { tty_buffer = fill 0 (size_of t) (blank t) t.tty_buffer })

unfoldable pub set_text_attr : ℕ → Tty → Tty
set_text_attr attr t = record t { text_attr = u8 attr }
