-- ===== src/Console/Editing.antt =====
-- What `in_string` keeps in its buffer.
use mathlib.Core.Path.{subst}
use native.Mathlib.Decide.{ℕ_discrete}
use sandor_os.Prelude.{
  ℕ, zero, suc, ◌+◌, ◌-◌, ◌*◌, ◌^◌, ◌<◌, ◌≤◌, ◌≡◌, refl, sym, ◌∙◌, ◌⊎◌, inl, inr, true, false,
  Option, none, some, List, [], ◌∷◌, ◌++◌, arith, ltb, ◌==◌, if◌then◌else◌, u8, u32, sub32,
  Bool-cases, lt→ltb, ltb→lt, ltb→ge, le→leb, eq→==, ne→==, ==→eq, ==→ne, length, get_or,
  length-append, get_or-before, get_or-last, move,
}
use mathlib.Core.Option
use sandor_os.Stdlib.{Memory, IsBytes, store, memcpy}
use sandor_os.Stdlib.Copy.{memcpy-move}
use sandor_os.Stdlib.Word.{store-lt}
use sandor_os.VirtPages.{Manager}
use sandor_os.KernelHeap.Kmalloc.{kmalloc, kfree}
use sandor_os.Console.{Console, Line, grow_buffer, store_char, edit, rub_out, on_tty}

-- The line after a character: a backspace takes the last one away, and a zero or a line break adds
-- nothing.
abbrev pub drop_last : List ℕ → List ℕ
drop_last [] = []
drop_last (x ∷ []) = []
drop_last (x ∷ y ∷ xs) = x ∷ drop_last (y ∷ xs)

unfoldable pub edited : (chr : ℕ) → List ℕ → List ℕ
edited chr cs =
    if chr == 0
    then cs
    else if chr == 8
    then drop_last cs
    else if chr == 10
    then cs
    else cs ++ (chr ∷ [])

-- The buffer holds the characters and has room for one more byte.
pub record Holds (cs : List ℕ) (l : Line) (m : Memory) : Type 0 where
  pub bytes : IsBytes m
  pub position : l.position ≡ length cs
  pub room : l.position < l.buffer_size
  pub fits : l.buffer + l.buffer_size ≤ 2 ^ 32
  pub held : (k : ℕ) → k < length cs → m (l.buffer + k) ≡ get_or cs k 0

drop_last-length : (cs : List ℕ) → length (drop_last cs) ≡ length cs - 1
drop_last-length [] = refl
drop_last-length (x ∷ []) = refl
drop_last-length (x ∷ y ∷ xs) = omega (arith, drop_last-length (y ∷ xs))

drop_last-get_or :
    (cs : List ℕ) (k : ℕ) → k < length cs - 1 → get_or (drop_last cs) k 0 ≡ get_or cs k 0
drop_last-get_or [] k lt = refl
drop_last-get_or (x ∷ []) k lt = absurd (omega arith)
drop_last-get_or (x ∷ y ∷ xs) zero lt = refl
drop_last-get_or (x ∷ y ∷ xs) (suc k) lt = drop_last-get_or (y ∷ xs) k (omega arith)

-- When the buffer is full, there is a block of twice the size.
abbrev pub Grows : Line → Console → Type 0
Grows l s =
    l.position ≡ l.buffer_size - 1
    → (r : Manager × ℕ) × (kmalloc (u32 (l.buffer_size * 2)) s.manager ≡ some r)
      × (r.1 + l.buffer_size * 2 < 2 ^ 32)

abbrev pub After : (cs : List ℕ) → Option (Line × Console) → Type 0
After cs none = ⊥
After cs (some (l, s)) = Holds cs l s.memory

store_char-Holds :
    (chr : ℕ) (cs : List ℕ) (l : Line) (s : Console)
    → chr < 256
    → Holds cs l s.memory
    → l.position + 1 < l.buffer_size
    → Holds (cs ++ (chr ∷ [])) (store_char chr (l, s)).0 (store_char chr (l, s)).1.memory
unfolding store_char
store_char-Holds chr cs l s small h more =
    let longer : length (cs ++ (chr ∷ [])) ≡ length cs + 1 = length-append cs (chr ∷ []) in
    let next : u32 (l.position + 1) ≡ l.position + 1 = omega (arith, h.fits) in
    rw next (record {
      bytes = λ x. let b = byte x in let c = h.bytes x in ground arith;
      position = omega (arith, longer, h.position);
      room = more;
      fits = h.fits;
      held = λ k lt.
          let b = byte (l.buffer + k) in
          elim (ℕ_discrete k (length cs)) [
            | yes last ↦
                let at : (l.buffer + k == l.buffer + l.position) ≡ true =
                  eq→== _ _ (omega (arith, h.position, last)) in
                let here : get_or (cs ++ (chr ∷ [])) k 0 ≡ chr =
                  subst (λ i. get_or (cs ++ (chr ∷ [])) i 0 ≡ chr) (sym last)
                    (get_or-last cs chr) in
                let same : u8 chr ≡ chr = omega arith in b ∙ rw at same ∙ sym here
            | no before ↦
                let off : (l.buffer + k == l.buffer + l.position) ≡ false =
                  ne→== _ _ (λ e. absurd (omega (arith, h.position))) in
                b
                ∙ rw off (h.held k (omega (arith, longer)))
                ∙ sym (get_or-before cs chr k (omega (arith, longer)))
          ];
    })
  where
    byte :
        (x : ℕ)
        → store s.memory (l.buffer + l.position) chr x
          ≡ (if x == l.buffer + l.position then u8 chr else s.memory x)
    byte x = store-lt s.memory (l.buffer + l.position) chr x (omega (arith, h.fits, h.room))

-- The bigger buffer holds the same characters.
grow_buffer-Holds :
    (cs : List ℕ) (l : Line) (s : Console)
    → Holds cs l s.memory
    → l.position ≡ l.buffer_size - 1
    → Grows l s
    → (r : Line × Console) × (grow_buffer (l, s) ≡ some r)
      × Holds cs r.0 r.1.memory
      × (r.0.position + 1 < r.0.buffer_size)
unfolding grow_buffer
grow_buffer-Holds cs l s h full grows =
    let (block, e, room) = grows full in
    let mm = block.0 in
    let temp = block.1 in
    let size : u32 (l.buffer_size * 2) ≡ l.buffer_size * 2 = omega arith in
    let r : Line × Console = (
      record l { buffer = temp; buffer_size = u32 (l.buffer_size * 2) },
      record s {
        manager = (kfree l.buffer mm).0;
        memory = memcpy temp l.buffer l.buffer_size s.memory;
      },
    ) in
    (
      r,
      rw e refl,
      rw size (record {
        bytes = λ x.
            let b = byte temp room x in
            let c = h.bytes x in let d = h.bytes (l.buffer + (x - temp)) in ground arith;
        position = h.position;
        room = omega (arith, h.room);
        fits = omega arith;
        held = λ k lt.
            byte temp room (temp + k)
            ∙ within temp k (omega (arith, h.position, h.room))
            ∙ h.held k lt;
      }),
      omega (arith, h.room, size),
    )
  where
    byte :
        (temp : ℕ)
        → temp + l.buffer_size * 2 < 2 ^ 32
        → (x : ℕ)
        → memcpy temp l.buffer l.buffer_size s.memory x
          ≡ move temp l.buffer l.buffer_size s.memory x
    byte temp room x =
        memcpy-move temp l.buffer l.buffer_size s.memory h.bytes h.fits (omega arith) x

    within :
        (temp k : ℕ)
        → k < l.buffer_size
        → move temp l.buffer l.buffer_size s.memory (temp + k) ≡ s.memory (l.buffer + k)
    within temp k lt =
        let at : temp + k - temp ≡ k = omega arith in
        rw
          (
            le→leb temp (temp + k) (omega arith),
            lt→ltb (temp + k) (temp + l.buffer_size) (omega arith),
            at,
          )
          refl

-- Where the buffer of `in_string` holds the characters of a line, memory holds bytes, the character
-- is a byte and, if the buffer is full, `kmalloc` gives a block of twice its size: the switch on a
-- character ends and the buffer, the old or the new one, holds the edited line: without its last
-- character for a backspace, unchanged for a zero or a line break, with the character added for any
-- other.
pub edit-Holds :
    (chr : ℕ) (cs : List ℕ) (l : Line) (s : Console)
    → chr < 256
    → Holds cs l s.memory
    → Grows l s
    → After (edited chr cs) (edit chr (l, s))
unfolding edit edited
edit-Holds chr cs l s small h grows = elim (Bool-cases (chr == 0)) [
  | inl nothing ↦ rw nothing h
  | inr nonzero ↦ elim (Bool-cases (chr == 8)) [
    | inl back ↦ rw (nonzero, back) (back_step (Bool-cases (ltb 0 l.position)))
    | inr other ↦ elim (Bool-cases (chr == 10)) [
      | inl line ↦ rw (nonzero, other, line) h
      | inr char ↦
          rw (nonzero, other, char) (char_step (Bool-cases (l.position == sub32 l.buffer_size 1)))
    ]
  ]
]
  where
    shorter :
        (p : ℕ) → p ≡ l.position - 1 → Holds (drop_last cs) (record l { position = p }) s.memory
    shorter p e = record {
      bytes = h.bytes;
      position = omega (arith, drop_last-length cs, h.position);
      room = omega (arith, h.room);
      fits = h.fits;
      held = λ k lt.
          h.held k (omega (arith, drop_last-length cs))
          ∙ sym (drop_last-get_or cs k (omega (arith, drop_last-length cs)));
    }

    back_step :
        (ltb 0 l.position ≡ true) ⊎ (ltb 0 l.position ≡ false)
        → After (drop_last cs) (
            some (
              if ltb 0 l.position
              then (record l { position = sub32 l.position 1 }, on_tty rub_out s)
              else (l, s)))
    back_step (inl on) =
        rw on (shorter (sub32 l.position 1) (omega (arith, ltb→lt _ _ on, h.room, h.fits)))
    back_step (inr off) = rw off (shorter l.position (omega (arith, ltb→ge _ _ off)))

    char_step :
        ((l.position == sub32 l.buffer_size 1) ≡ true)
          ⊎ ((l.position == sub32 l.buffer_size 1) ≡ false)
        → After (cs ++ (chr ∷ [])) (
            Option.map
              (store_char chr)
              (if l.position == sub32 l.buffer_size 1 then grow_buffer (l, s) else some (l, s)))
    char_step (inl full) =
        let last : l.position ≡ l.buffer_size - 1 = omega (arith, ==→eq _ _ full, h.room, h.fits) in
        let (r, e, h', more) = grow_buffer-Holds cs l s h last grows in
        rw (full, e) (store_char-Holds chr cs r.0 r.1 small h' more)
    char_step (inr room) =
        rw room
          (store_char-Holds chr cs l s small h (omega (arith, ==→ne _ _ room, h.room, h.fits)))
