-- ===== src/Tty/Paper.antt =====
-- The screen is a window on a roll of paper on which the text is typed line by line.
use sandor_os.Prelude.{ℕ, ◌+◌, ◌*◌, ◌/◌, ◌<◌, ◌≡◌, List, [], ◌∷◌, ltb, ◌==◌, if◌then◌else◌, fill}
use sandor_os.Tty.{Tty, tty_char, Cells, newline, put}

-- `rows` have left the window at its top, and `place` is the place of the next character.
pub record Paper : Type 0 where
  pub written : Cells
  pub rows : ℕ
  pub place : ℕ

module _ (w h : ℕ) where
  -- The place behind a character.
  unfoldable pub next : ℕ → ℕ → ℕ
  next c place = if c == newline then (place / w + 1) * w else place + 1

  unfoldable pub marked : ℕ → ℕ → Paper → Cells
  marked c attr p = if c == newline then p.written else put p.place (tty_char c attr) p.written

  -- The paper with a new place; a row comes in at the bottom of the window, blank, where the place
  -- is behind the window.
  unfoldable pub feed : ℕ → Cells → ℕ → ℕ → Paper
  feed attr written rows place =
      if ltb place ((rows + h) * w)
      then record { written = written; rows = rows; place = place }
      else record {
        written = fill ((rows + h) * w) w (tty_char 32 attr) written;
        rows = rows + 1;
        place = place;
      }

  unfoldable pub type_char : ℕ → ℕ → Paper → Paper
  unfolding feed next marked
  type_char c attr p = feed attr (marked c attr p) p.rows (next c p.place)

  unfoldable pub type : List ℕ → ℕ → Paper → Paper
  unfolding type_char
  type [] attr p = p
  type (c ∷ cs) attr p = type cs attr (type_char c attr p)

  -- The screen shows the window of the paper behind the rows that have left it.
  pub record Shows (p : Paper) (t : Tty) : Type 0 where
    pub width : t.tty_width ≡ w
    pub height : t.tty_height ≡ h
    pub inside : t.cursor < w * h
    pub placed : t.cursor + p.rows * w ≡ p.place
    pub shown : (i : ℕ) → i < w * h → t.tty_buffer i ≡ p.written (p.rows * w + i)

  -- The place is on the paper that has come into the window.
  abbrev pub InWindow : Paper → Type 0
  InWindow p = p.place < (p.rows + h) * w
