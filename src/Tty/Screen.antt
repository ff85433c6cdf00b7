-- ===== src/Tty/Screen.antt =====
-- The cursor stays on the screen, and what one character does to the screen and to the ports.
use native.Mathlib.Decide.{dec_lt}
use sandor_os.Prelude.{
  ℕ, zero, suc, ◌+◌, ◌-◌, ◌*◌, ◌/◌, ◌^◌, ◌≤◌, ◌<◌, ◌≡◌, refl, List, ◌∷◌, arith, le→leb, lt→leb, u8,
  u16, u32, sub32,
}
use sandor_os.Tty.{Tty, size_of, scroll, scrolled, outportb, out_cursor, move_cursor}

-- The screen has cells, and the numbers of its rows, its cells and the cells with one more row are
-- words.
pub record Sizes (w h : ℕ) : Type 0 where
  pub wide : 0 < w
  pub high : 0 < h
  pub word : h < 2 ^ 32
  pub small : w * h + w < 2 ^ 32

-- The cursor is on one of the cells.
abbrev pub OnScreen : Tty → Type 0
OnScreen t = t.cursor < t.tty_width * t.tty_height

-- The last four writes to ports set the registers of the cursor's place to the cursor.
pub record Synced (t : Tty) : Type 0 where
  pub high : ℕ
  pub low : ℕ
  pub before : List (ℕ × ℕ)
  pub writes :
      t.ports
      ≡ (u16 (t.tty_io_port + 1), low)
        ∷ (u16 t.tty_io_port, 15)
        ∷ (u16 (t.tty_io_port + 1), high)
        ∷ (u16 t.tty_io_port, 14)
        ∷ before
  pub place : high * 2 ^ 8 + low ≡ u16 t.cursor

pub last_row-eq : (w h : ℕ) → 0 < h → (h - 1) * w + w ≡ w * h
last_row-eq w zero some = absurd (omega arith)
last_row-eq w (suc h) some = let less : suc h - 1 ≡ h = omega arith in rw less (omega arith)

pub out_cursor-Synced : (t : Tty) → Synced (out_cursor t)
unfolding out_cursor outportb
out_cursor-Synced t = record {
  high = u8 (t.cursor / 2 ^ 8);
  low = u8 t.cursor;
  before = t.ports;
  writes = refl;
  place = omega arith;
}

out_cursor-OnScreen : (t : Tty) → OnScreen t → OnScreen (out_cursor t)
unfolding out_cursor outportb
out_cursor-OnScreen t h = h

-- The state after a move past the last cell, and after any other.
abbrev pub wrapped : Tty → Tty
wrapped t = record t { cursor = (t.tty_height - 1) * t.tty_width; tty_buffer = scroll t }

module _ (t : Tty) (g : Sizes t.tty_width t.tty_height) where
  abbrev cells : ℕ
  cells = t.tty_width * t.tty_height

  pub size_of-eq : size_of t ≡ cells
  size_of-eq = omega (arith, g.small)

  pub height_less : sub32 t.tty_height 1 ≡ t.tty_height - 1
  height_less = omega (arith, g.high, g.word)

  pub last_row : u32 (sub32 t.tty_height 1 * t.tty_width) ≡ (t.tty_height - 1) * t.tty_width
  last_row = rw height_less (omega (arith, last_row-eq t.tty_width t.tty_height g.high, g.small))

  pub scrolled-over : (pos : ℕ) → cells ≤ pos → scrolled pos t ≡ wrapped t
  unfolding scrolled
  scrolled-over pos h = rw (le→leb (size_of t) pos (omega (arith, size_of-eq)), last_row) refl

  pub scrolled-on : (pos : ℕ) → pos < cells → scrolled pos t ≡ record t { cursor = pos }
  unfolding scrolled
  scrolled-on pos h = rw (lt→leb (size_of t) pos (omega (arith, size_of-eq))) refl

  scrolled-OnScreen : (pos : ℕ) → OnScreen (scrolled pos t)
  scrolled-OnScreen pos = elim (dec_lt pos cells) [
    | yes on ↦ rw (scrolled-on pos on) on
    | no over ↦
        rw (scrolled-over pos (omega arith))
          (omega (arith, last_row-eq t.tty_width t.tty_height g.high, g.wide))
  ]

  -- On a screen with cells, whose number is a word with one more row, the cursor is on the screen and the registers of
  -- its place hold it after `move_cursor`, to whatever place.
  pub move_cursor-OnScreen : (pos : ℕ) → OnScreen (move_cursor pos t) × Synced (move_cursor pos t)
  unfolding move_cursor
  move_cursor-OnScreen pos = (
    out_cursor-OnScreen (scrolled pos t) (scrolled-OnScreen pos),
    out_cursor-Synced (scrolled pos t),
  )
