-- ===== src/Tty/Tests.antt =====
-- The theorems on the terminal at a screen of three rows of four cells.
use sandor_os.Prelude.{ℕ, ◌≤◌, ◌≡◌, refl, List, [], ◌∷◌, some, arith}
use sandor_os.Tty.{Tty, tty_char, move_cursor, out_string}
use sandor_os.Tty.Screen.{Sizes, OnScreen, Synced, move_cursor-OnScreen}
use sandor_os.Tty.Paper.{Paper, Shows, type}
use sandor_os.Tty.Window.{out_string-Shows}
use sandor_os.Tty.Text.{Printable}
use sandor_os.Tty.Number.{int_to_str, write, Buffer}
use sandor_os.Tty.Number.Digits.{Spells, int_to_str-Spells}

abbrev screen : Tty
screen = record {
  tty_width = 4;
  tty_height = 3;
  cursor = 10;
  text_attr = 7;
  tty_buffer = λ i. tty_char 46 7;
  tty_io_port = 980;
  ports = [];
}

abbrev roll : Paper
roll = record { written = λ i. tty_char 46 7; rows = 0; place = 10 }

four_by_three : Sizes 4 3
four_by_three = record {
  wide = omega arith;
  high = omega arith;
  word = omega arith;
  small = omega arith;
}

screen-Shows : Shows 4 3 roll screen
screen-Shows = record {
  width = refl;
  height = refl;
  inside = omega arith;
  placed = refl;
  shown = λ i h. refl;
}

abbrev text : List ℕ
text = 72 ∷ 101 ∷ 108 ∷ 108 ∷ 111 ∷ []

text-Printable : Printable text
unfolding Printable
text-Printable = (
  (λ e. omega (arith, e)),
  (
    (λ e. omega (arith, e)),
    ((λ e. omega (arith, e)), ((λ e. omega (arith, e)), ((λ e. omega (arith, e)), tt))),
  ),
)

move_cursor-OnScreen_example : OnScreen (move_cursor 12 screen) × Synced (move_cursor 12 screen)
move_cursor-OnScreen_example = move_cursor-OnScreen screen four_by_three 12

out_string-Shows_example :
    Shows 4 3 (type 4 3 (72 ∷ 10 ∷ 105 ∷ []) 7 roll) (out_string (72 ∷ 10 ∷ 105 ∷ []) screen)
out_string-Shows_example =
    out_string-Shows 4 3 four_by_three (72 ∷ 10 ∷ 105 ∷ []) roll screen screen-Shows

int_to_str-Spells_example :
    (r : Buffer × ℕ) × (int_to_str 255 16 (λ i. 0) ≡ some r)
    × Spells 16 255 r.1 64 (write 65 0 (λ i. 0)) r.0
    × (33 ≤ r.1)
    × (r.0 65 ≡ 0)
int_to_str-Spells_example =
    int_to_str-Spells 16 (omega arith) (omega arith) 255 (λ i. 0) (omega arith)
