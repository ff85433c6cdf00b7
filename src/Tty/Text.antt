-- ===== src/Tty/Text.antt =====
-- What is typed stays on the paper, and a text without line breaks stands there in order.
use native.Mathlib.Nat.{lt-div-mul-add, div-lt_iff_lt-mul, mul-le-mul_right}
use sandor_os.Prelude.{
  ℕ, zero, suc, ◌+◌, ◌*◌, ◌/◌, ◌≤◌, ◌<◌, ◌≡◌, ◌≢◌, refl, ap, ◌∙◌, inl, inr, List, [], ◌∷◌, arith,
  length, get_or, ltb, ◌==◌, ne→==, eq→==, Bool-cases, ltb→lt, fill-before,
}
use sandor_os.Tty.{Tty, tty_char, newline, put, out_string}
use sandor_os.Tty.Screen.{Sizes}
use sandor_os.Tty.Paper.{Paper, next, marked, feed, type_char, type, Shows, InWindow}
use sandor_os.Tty.Window.{out_string-Shows}

-- No line break.
unfoldable pub Printable : List ℕ → Type 0
Printable [] = Unit
Printable (c ∷ cs) = (c ≢ newline) × Printable cs

module _ (w h : ℕ) (wide : 0 < w) where
  next-lt : (c place : ℕ) → place < next w h c place
  unfolding next
  next-lt c place = elim (Bool-cases (c == newline)) [
    | inl line ↦ rw line (omega (arith, lt-div-mul-add {a = place} {b = w} wide))
    | inr other ↦ rw other (omega arith)
  ]

  next-le : (c place n : ℕ) → place < n * w → next w h c place ≤ n * w
  unfolding next
  next-le c place n lt = elim (Bool-cases (c == newline)) [
    | inl line ↦
        let row : place / w + 1 ≤ n =
          omega (arith, (div-lt_iff_lt-mul {x = place} {y = n} wide).1 lt) in
        rw line (mul-le-mul_right w row)
    | inr other ↦ rw other (omega arith)
  ]

  type_char-InWindow :
      (c attr : ℕ) (p : Paper) → InWindow w h p → InWindow w h (type_char w h c attr p)
  unfolding type_char feed
  type_char-InWindow c attr p lt = elim (Bool-cases (ltb (next w h c p.place) ((p.rows + h) * w))) [
    | inl on ↦ rw on (ltb→lt _ _ on)
    | inr over ↦ rw over (omega (arith, next-le c p.place (p.rows + h) lt, wide))
  ]

  type_char-place : (c attr : ℕ) (p : Paper) → (type_char w h c attr p).place ≡ next w h c p.place
  unfolding type_char feed
  type_char-place c attr p = elim (Bool-cases (ltb (next w h c p.place) ((p.rows + h) * w))) [
    | inl on ↦ rw on refl
    | inr over ↦ rw over refl
  ]

  -- A row that comes in leaves the cells before the new place.
  type_char-marked :
      (c attr : ℕ) (p : Paper) (j : ℕ)
      → j < next w h c p.place
      → InWindow w h p
      → (type_char w h c attr p).written j ≡ marked w h c attr p j
  unfolding type_char feed
  type_char-marked c attr p j lt in_window =
      elim (Bool-cases (ltb (next w h c p.place) ((p.rows + h) * w))) [
        | inl on ↦ rw on refl
        | inr over ↦ rw over (
            fill-before ((p.rows + h) * w) w j (marked w h c attr p) (tty_char 32 attr)
              (omega (arith, next-le c p.place (p.rows + h) in_window)))
      ]

  marked-kept : (c attr : ℕ) (p : Paper) (j : ℕ) → j < p.place → marked w h c attr p j ≡ p.written j
  unfolding marked put
  marked-kept c attr p j lt = elim (Bool-cases (c == newline)) [
    | inl line ↦ rw line refl
    | inr other ↦ rw (other, ne→== j p.place (λ e. absurd (omega arith))) refl
  ]

  marked-place :
      (c attr : ℕ) (p : Paper) → c ≢ newline → marked w h c attr p p.place ≡ tty_char c attr
  unfolding marked put
  marked-place c attr p ne = rw (ne→== c newline ne, eq→== p.place p.place refl) refl

  type-kept :
      (cs : List ℕ) (attr : ℕ) (p : Paper) (j : ℕ)
      → InWindow w h p
      → j < p.place
      → (type w h cs attr p).written j ≡ p.written j
  unfolding type
  type-kept [] attr p j in_window lt = refl
  type-kept (c ∷ cs) attr p j in_window lt =
      type-kept cs attr (type_char w h c attr p) j (type_char-InWindow c attr p in_window)
        (omega (arith, type_char-place c attr p, next-lt c p.place))
      ∙ type_char-marked c attr p j (omega (arith, next-lt c p.place)) in_window
      ∙ marked-kept c attr p j lt

  type-text :
      (cs : List ℕ) (attr : ℕ) (p : Paper) (k : ℕ)
      → InWindow w h p
      → Printable cs
      → k < length cs
      → (type w h cs attr p).written (p.place + k) ≡ tty_char (get_or cs k 0) attr
  unfolding type next Printable
  type-text [] attr p k in_window fine lt = absurd (omega arith)
  type-text (c ∷ cs) attr p zero in_window fine lt =
      ap (type w h cs attr (type_char w h c attr p)).written (omega arith)
      ∙ type-kept cs attr (type_char w h c attr p) p.place (type_char-InWindow c attr p in_window)
          (omega (arith, type_char-place c attr p, next-lt c p.place))
      ∙ type_char-marked c attr p p.place (next-lt c p.place) in_window
      ∙ marked-place c attr p (fine.0)
  type-text (c ∷ cs) attr p (suc k) in_window fine lt =
      ap (type w h cs attr (type_char w h c attr p)).written (omega (arith, behind))
      ∙ type-text cs attr (type_char w h c attr p) k (type_char-InWindow c attr p in_window)
          (fine.1) (omega arith)
    where
      behind : (type_char w h c attr p).place ≡ p.place + 1
      behind = type_char-place c attr p ∙ rw (ne→== c newline (fine.0)) refl

-- Where a screen with cells, whose number is a word with one more row, shows a paper whose place is in the window, after `out_string` of a text without
-- line breaks it shows a paper that has the text from that place on, in the current attribute, and
-- whatever stood before that place.
pub out_string-text :
    (w h : ℕ)
    → Sizes w h
    → (cs : List ℕ) (p : Paper) (t : Tty) → Shows w h p t
    → InWindow w h p
    → Printable cs
    → (q : Paper) × Shows w h q (out_string cs t)
      × ((k : ℕ) → k < length cs → q.written (p.place + k) ≡ tty_char (get_or cs k 0) t.text_attr)
      × ((j : ℕ) → j < p.place → q.written j ≡ p.written j)
out_string-text w h g cs p t s in_window fine = (
  type w h cs t.text_attr p,
  out_string-Shows w h g cs p t s,
  (λ k lt. type-text w h g.wide cs t.text_attr p k in_window fine lt),
  (λ j lt. type-kept w h g.wide cs t.text_attr p j in_window lt),
)
