-- ===== src/Tty/Window.antt =====
-- `out_char` and `out_string` on the screen are typing on the paper.
use mathlib.Core.Path.{subst}
use native.Mathlib.Nat.{le_refl, add-mul-div_right, div-lt_iff_lt-mul, mul-le-mul_right}
use native.Mathlib.Decide.{dec_lt, ℕ_discrete}
use sandor_os.Prelude.{
  ℕ, ◌+◌, ◌-◌, ◌*◌, ◌/◌, ◌≤◌, ◌<◌, ◌≡◌, refl, sym, ap, ◌∙◌, inl, inr, List, [], ◌∷◌, arith, leb,
  lt→ltb, le→ltb, ◌==◌, Bool-cases, u32, sub32, move, fill, fill-inside, fill-before, move-inside,
  eq→==, ne→==,
}
use sandor_os.Tty.{
  Tty, TtyChar, tty_char, Cells, size_of, newline, put, scroll, scrolled, out_cursor, outportb,
  move_cursor, out_char, out_string,
}
use sandor_os.Tty.Screen.{Sizes, wrapped, scrolled-over, scrolled-on, last_row-eq}
use sandor_os.Tty.Paper.{Paper, next, marked, feed, type_char, type, Shows}

out_char-attr : (c : ℕ) (t : Tty) → (out_char c t).text_attr ≡ t.text_attr
unfolding out_char move_cursor scrolled out_cursor outportb
out_char-attr c t = elim (Bool-cases (c == newline)) [
  | inl line ↦ rw line (moved-attr (u32 ((t.cursor / t.tty_width + 1) * t.tty_width)) t)
  | inr other ↦ rw other (
      moved-attr (u32 (t.cursor + 1))
        (record t { tty_buffer = put t.cursor (tty_char c t.text_attr) t.tty_buffer }))
]
  where
    moved-attr : (pos : ℕ) (s : Tty) → (move_cursor pos s).text_attr ≡ s.text_attr
    moved-attr pos s = elim (Bool-cases (leb (size_of s) pos)) [
      | inl over ↦ rw over refl
      | inr on ↦ rw on refl
    ]

module _ (w h : ℕ) where
  -- The cells of the window.
  abbrev Window : ℕ → Cells → Cells → Type 0
  Window rows written buffer = (i : ℕ) → i < w * h → buffer i ≡ written (rows * w + i)

  module _ (g : Sizes w h) (t : Tty) (width : t.tty_width ≡ w) (height : t.tty_height ≡ h) where
    sizes : Sizes t.tty_width t.tty_height
    sizes = rw (width, height) g

    scroll-eq :
        scroll t ≡ fill ((h - 1) * w) w (tty_char 32 t.text_attr) (move 0 w (w * h) t.tty_buffer)
    unfolding scroll
    scroll-eq = rw (width, height, less, last_row, all) refl
      where
        less : sub32 h 1 ≡ h - 1
        less = omega (arith, g.high, g.word)

        last_row : u32 (w * (h - 1)) ≡ (h - 1) * w
        last_row = omega (arith, last_row-eq w h g.high, g.small)

        all : u32 (w * h) ≡ w * h
        all = omega (arith, g.small)

    scroll-Window :
        (rows : ℕ) (written : Cells)
        → Window rows written t.tty_buffer
        → Window (rows + 1) (fill ((rows + h) * w) w (tty_char 32 t.text_attr) written) (scroll t)
    scroll-Window rows written shown i lt = rw scroll-eq (elim (dec_lt i ((h - 1) * w)) [
      | yes before ↦
          fill-before ((h - 1) * w) w i (move 0 w (w * h) t.tty_buffer) (tty_char 32 t.text_attr)
            before
          ∙ move-inside 0 (w * h) i t.tty_buffer w (omega arith) (omega arith)
          ∙ shown (w + (i - 0)) (omega (arith, row))
          ∙ ap written (omega arith)
          ∙ sym (
              fill-before ((rows + h) * w) w ((rows + 1) * w + i) written (tty_char 32 t.text_attr)
                (omega (arith, row)))
      | no last ↦
          fill-inside ((h - 1) * w) w i (move 0 w (w * h) t.tty_buffer) (tty_char 32 t.text_attr)
            (omega arith) (omega (arith, row))
          ∙ sym (
              fill-inside ((rows + h) * w) w ((rows + 1) * w + i) written (tty_char 32 t.text_attr)
                (omega (arith, row)) (omega (arith, row)))
    ])
      where
        row : (h - 1) * w + w ≡ w * h
        row = last_row-eq w h g.high

    wrapped-Shows :
        (rows : ℕ) (written : Cells)
        → Window rows written t.tty_buffer
        → Shows w h (feed w h t.text_attr written rows ((rows + h) * w)) (out_cursor (wrapped t))
    unfolding feed out_cursor outportb
    wrapped-Shows rows written shown =
        rw (le→ltb ((rows + h) * w) ((rows + h) * w) (le_refl ((rows + h) * w))) (record {
          width = width;
          height = height;
          inside = rw (width, height) (omega (arith, last_row-eq w h g.high, g.wide));
          placed = rw (width, height) (omega (arith, last_row-eq w h g.high));
          shown = scroll-Window rows written shown;
        })

    moved-Shows :
        (rows : ℕ) (written : Cells) (pos : ℕ)
        → Window rows written t.tty_buffer
        → pos < w * h
        → Shows w h
            (feed w h t.text_attr written rows (pos + rows * w))
            (out_cursor (record t { cursor = pos }))
    unfolding feed out_cursor outportb
    moved-Shows rows written pos shown on =
        rw (lt→ltb (pos + rows * w) ((rows + h) * w) (omega arith))
          (record { width = width; height = height; inside = on; placed = refl; shown = shown })

    move_cursor-Shows :
        (rows : ℕ) (written : Cells) (pos place : ℕ)
        → Window rows written t.tty_buffer
        → pos ≤ w * h
        → pos + rows * w ≡ place
        → Shows w h (feed w h t.text_attr written rows place) (move_cursor pos t)
    unfolding move_cursor
    move_cursor-Shows rows written pos place shown le at = elim (dec_lt pos (w * h)) [
      | yes on ↦
          rw (sym at, scrolled-on t sizes pos (rw (width, height) on))
            (moved-Shows rows written pos shown on)
      | no over ↦
          let end : place ≡ (rows + h) * w = omega arith in
          rw (end, scrolled-over t sizes pos (rw (width, height) (omega arith)))
            (wrapped-Shows rows written shown)
    ]

  put-Window :
      (rows cursor place : ℕ) (c : TtyChar) (written buffer : Cells)
      → Window rows written buffer
      → cursor + rows * w ≡ place
      → Window rows (put place c written) (put cursor c buffer)
  unfolding put
  put-Window rows cursor place c written buffer shown at i lt = elim (ℕ_discrete i cursor) [
    | yes same ↦ rw (eq→== i cursor same, eq→== (rows * w + i) place (omega arith)) refl
    | no other ↦
        rw (ne→== i cursor other, ne→== (rows * w + i) place (λ e. other (omega arith)))
          (shown i lt)
  ]

  module _ (g : Sizes w h) where
    next_line :
        (cursor rows place : ℕ)
        → cursor + rows * w ≡ place
        → (cursor / w + 1) * w + rows * w ≡ (place / w + 1) * w
    next_line cursor rows place at = rw (sym at, add-mul-div_right cursor rows g.wide) (omega arith)

    next_line-le : (cursor : ℕ) → cursor < w * h → (cursor / w + 1) * w ≤ w * h
    next_line-le cursor lt =
        let row : cursor / w + 1 ≤ h =
          omega (arith, (div-lt_iff_lt-mul {x = cursor} {y = h} g.wide).1 (omega arith)) in
        omega (arith, mul-le-mul_right w row)

    -- Where the screen shows the paper, it shows the paper with one more character after `out_char`.
    pub out_char-Shows :
        (c : ℕ) (p : Paper) (t : Tty)
        → Shows w h p t
        → Shows w h (type_char w h c t.text_attr p) (out_char c t)
    unfolding out_char type_char next marked
    out_char-Shows c p t s = elim (Bool-cases (c == newline)) [
      | inl line ↦
          rw (line, word)
            (move_cursor-Shows g t s.width s.height p.rows p.written ((t.cursor / w + 1) * w)
              ((p.place / w + 1) * w) s.shown le (next_line t.cursor p.rows p.place s.placed))
      | inr other ↦
          rw (other, one)
            (move_cursor-Shows g
              (record t { tty_buffer = put t.cursor (tty_char c t.text_attr) t.tty_buffer }) s.width
              s.height p.rows (put p.place (tty_char c t.text_attr) p.written) (t.cursor + 1)
              (p.place + 1)
              (put-Window p.rows t.cursor p.place (tty_char c t.text_attr) p.written t.tty_buffer
                s.shown s.placed)
              (omega (arith, s.inside)) (omega (arith, s.placed)))
    ]
      where
        le : (t.cursor / w + 1) * w ≤ w * h
        le = next_line-le t.cursor s.inside

        word : u32 ((t.cursor / t.tty_width + 1) * t.tty_width) ≡ (t.cursor / w + 1) * w
        word = rw s.width (omega (arith, le, g.small))

        one : u32 (t.cursor + 1) ≡ t.cursor + 1
        one = omega (arith, s.inside, g.small)

    -- Where a screen with cells, whose number is a word with one more row, shows the paper, after
    -- `out_string` it shows the paper with the whole text typed on it.
    pub out_string-Shows :
        (cs : List ℕ) (p : Paper) (t : Tty)
        → Shows w h p t
        → Shows w h (type w h cs t.text_attr p) (out_string cs t)
    unfolding out_string type
    out_string-Shows [] p t s = s
    out_string-Shows (c ∷ cs) p t s =
        subst
          (λ a.
            Shows w h (type w h cs a (type_char w h c t.text_attr p))
              (out_string cs (out_char c t)))
          (out_char-attr c t)
          (out_string-Shows cs (type_char w h c t.text_attr p) (out_char c t)
            (out_char-Shows c p t s))
