-- ===== src/Keyboard/Scancodes/Presses.antt =====
-- What `in_char` of kernel/tty.c makes of the keys that are pressed and released.
use mathlib.Core.List.{append-nil, append_assoc}
use mathlib.Core.Path.{subst}
use sandor_os.Prelude.{
  ℕ, List, [], ◌∷◌, ◌++◌, length, get_or, ◌/◌, ◌%◌, ◌<◌, ◌≤◌, ◌≡◌, ◌≢◌, refl, sym, ap, ◌∙◌, ◌⊎◌,
  inl, inr, Bool, true, false, Option, some, arith, ◌==◌, eq→==, ne→==, lt→ltb,
}
use sandor_os.Keyboard.{Keyboard, in_scancode}
use sandor_os.Keyboard.Queue.{Holds}
use sandor_os.Keyboard.Scancodes.{
  Rounds, scancodes, scancodes_shifted, shift_after, character, interrupts, in_char_loop, in_char,
  answer,
}
use sandor_os.Keyboard.Scancodes.Typed.{Rests, codes, interrupts-Holds, in_scancode-queue}

-- The character of a key with and without shift.
abbrev pub layout : (shift : Bool) → (key : ℕ) → ℕ
layout true key = get_or scancodes_shifted key 0
layout false key = get_or scancodes key 0

-- From a state of the shift keys, the scancodes `xs` type the character `c`, and `rest` is left:
-- pressing a shift key (42 or 54) and releasing one (170 or 182) changes the state, other releases
-- and keys without a character are passed over, and the first key with a character types it.
pub data Press : (shift : Bool) → (xs : List ℕ) → (c : ℕ) → (rest : List ℕ) → Type 0 where
  shift_down :
      {shift : Bool} {x c : ℕ} {xs rest : List ℕ}
      → (x ≡ 42) ⊎ (x ≡ 54)
      → Press true xs c rest
      → Press shift (x ∷ xs) c rest
  shift_up :
      {shift : Bool} {x c : ℕ} {xs rest : List ℕ}
      → (x ≡ 170) ⊎ (x ≡ 182)
      → Press false xs c rest
      → Press shift (x ∷ xs) c rest
  released :
      {shift : Bool} {x c : ℕ} {xs rest : List ℕ}
      → 128 ≤ x
      → x < 256
      → x ≢ 170
      → x ≢ 182
      → Press shift xs c rest
      → Press shift (x ∷ xs) c rest
  no_character :
      {shift : Bool} {x c : ℕ} {xs rest : List ℕ}
      → x < 109
      → x ≢ 42
      → x ≢ 54
      → layout shift x ≡ 0
      → Press shift xs c rest
      → Press shift (x ∷ xs) c rest
  typed :
      {shift : Bool} {x c : ℕ} {xs rest : List ℕ}
      → x < 109
      → x ≢ 42
      → x ≢ 54
      → layout shift x ≡ c
      → c ≢ 0
      → rest ≡ xs
      → Press shift (x ∷ xs) c rest

-- The scancodes of all interrupts to come.
abbrev pub to_come : Rounds → List ℕ
to_come [] = []
to_come (es ∷ rounds) = codes es ++ to_come rounds

-- The loop of `in_char` has ended with the character `c`, and behind it come the scancodes `zs`.
pub record Ended (c : ℕ) (zs : List ℕ) (r : Option (Keyboard × ℕ × Rounds)) : Type 0 where
  pub after : Keyboard
  pub rounds : Rounds
  pub waiting : List ℕ
  pub result : r ≡ some (after, c, rounds)
  pub queue : Holds waiting after
  pub left : waiting ++ to_come rounds ≡ zs

other_key :
    (shift : Bool) (x : ℕ) → x ≢ 42 → x ≢ 54 → x ≢ 170 → x ≢ 182 → shift_after shift x ≡ shift
other_key shift x a b c d = rw (ne→== x 42 a, ne→== x 54 b, ne→== x 170 c, ne→== x 182 d) refl

character-layout : (shift : Bool) (x : ℕ) → x < 109 → character shift x ≡ some (layout shift x)
unfolding character
character-layout true x lt =
    let low : (x / 128 % 2 == 1) ≡ false = ne→== _ _ (omega arith) in rw (low, lt→ltb x 109 lt) refl
character-layout false x lt =
    let low : (x / 128 % 2 == 1) ≡ false = ne→== _ _ (omega arith) in rw (low, lt→ltb x 109 lt) refl

character-released : (shift : Bool) (x : ℕ) → 128 ≤ x → x < 256 → character shift x ≡ some 0
unfolding character
character-released true x ge lt =
    let high : (x / 128 % 2 == 1) ≡ true = eq→== _ _ (omega arith) in rw high refl
character-released false x ge lt =
    let high : (x / 128 % 2 == 1) ≡ true = eq→== _ _ (omega arith) in rw high refl

pressed : (shift : Bool) (x : ℕ) → (x ≡ 42) ⊎ (x ≡ 54) → shift_after shift x ≡ true
pressed shift x (inl e) = rw e refl
pressed shift x (inr e) = rw e refl

pressed-silent : (x : ℕ) → (x ≡ 42) ⊎ (x ≡ 54) → character true x ≡ some 0
unfolding character
pressed-silent x (inl e) = rw e refl
pressed-silent x (inr e) = rw e refl

let_go : (shift : Bool) (x : ℕ) → (x ≡ 170) ⊎ (x ≡ 182) → shift_after shift x ≡ false
let_go shift x (inl e) = rw e refl
let_go shift x (inr e) = rw e refl

let_go-silent : (x : ℕ) → (x ≡ 170) ⊎ (x ≡ 182) → character false x ≡ some 0
unfolding character
let_go-silent x (inl e) = rw e refl
let_go-silent x (inr e) = rw e refl

-- One round of the loop, with the scancode `x` first in the queue.
round :
    (shift : Bool) (x : ℕ) (xs more : List ℕ) (es : List (ℕ × ℕ)) (rounds : Rounds) (k : Keyboard)
    → Holds (x ∷ (xs ++ more)) k
    → Rests (es ∷ rounds) (x ∷ (xs ++ more))
    → (k1 : Keyboard) × (in_char_loop true shift (es ∷ rounds) k
        ≡ answer true k1 rounds
            (in_char_loop true (shift_after shift x) rounds k1)
            (character (shift_after shift x) x))
      × Holds (xs ++ (more ++ codes es)) k1
      × Rests rounds (xs ++ (more ++ codes es))
unfolding in_char_loop Rests
round shift x xs more es rounds k q (room, rests) =
    let e = append_assoc xs more (codes es) in
    let (code, q') =
      in_scancode-queue _ (interrupts es k) (interrupts-Holds es (x ∷ (xs ++ more)) k q room) in
    (
      (in_scancode (interrupts es k)).0,
      rw code refl,
      subst (λ l. Holds l (in_scancode (interrupts es k)).0) e q',
      subst (λ l. Rests rounds l) e rests,
    )

-- A scancode without a character.
passed :
    (shift shift' : Bool) (x c : ℕ) (xs more zs : List ℕ) (es : List (ℕ × ℕ)) (rounds : Rounds)
    (k : Keyboard)
    → Holds (x ∷ (xs ++ more)) k
    → Rests (es ∷ rounds) (x ∷ (xs ++ more))
    → shift_after shift x ≡ shift'
    → character shift' x ≡ some 0
    → ((k1 : Keyboard)
        → Holds (xs ++ (more ++ codes es)) k1
        → Rests rounds (xs ++ (more ++ codes es))
        → Ended c
            (zs ++ ((more ++ codes es) ++ to_come rounds))
            (in_char_loop true shift' rounds k1))
    → Ended c (zs ++ (more ++ to_come (es ∷ rounds))) (in_char_loop true shift (es ∷ rounds) k)
passed shift shift' x c xs more zs es rounds k q rests s silent ih =
    let (k1, e, q1, rests1) = round shift x xs more es rounds k q rests in
    rw (e, s, silent, sym (append_assoc more (codes es) (to_come rounds))) (ih k1 q1 rests1)

Press-Ended :
    (shift : Bool) (xs more zs : List ℕ) (c : ℕ) (rounds : Rounds) (k : Keyboard)
    → Press shift xs c zs
    → length xs ≤ length rounds
    → Holds (xs ++ more) k
    → Rests rounds (xs ++ more)
    → Ended c (zs ++ (more ++ to_come rounds)) (in_char_loop true shift rounds k)
Press-Ended shift [] more zs c rounds k p le q rests = elim p [ ]
Press-Ended shift (x ∷ xs) more zs c [] k p le q rests = absurd (omega (arith, le))
Press-Ended shift (x ∷ xs) more zs c (es ∷ rounds) k (shift_down key p) le q rests =
    passed shift true x c xs more zs es rounds k q rests (pressed shift x key)
      (pressed-silent x key)
      (λ k1 q1 rests1.
        Press-Ended true xs (more ++ codes es) zs c rounds k1 p (omega (arith, le)) q1 rests1)
Press-Ended shift (x ∷ xs) more zs c (es ∷ rounds) k (shift_up key p) le q rests =
    passed shift false x c xs more zs es rounds k q rests (let_go shift x key) (let_go-silent x key)
      (λ k1 q1 rests1.
        Press-Ended false xs (more ++ codes es) zs c rounds k1 p (omega (arith, le)) q1 rests1)
Press-Ended shift (x ∷ xs) more zs c (es ∷ rounds) k (released ge lt a b p) le q rests =
    passed shift shift x c xs more zs es rounds k q rests
      (other_key shift x (λ e. omega (arith, e, ge)) (λ e. omega (arith, e, ge)) a b)
      (character-released shift x ge lt)
      (λ k1 q1 rests1.
        Press-Ended shift xs (more ++ codes es) zs c rounds k1 p (omega (arith, le)) q1 rests1)
Press-Ended shift (x ∷ xs) more zs c (es ∷ rounds) k (no_character lt a b none p) le q rests =
    passed shift shift x c xs more zs es rounds k q rests
      (other_key shift x a b (λ e. omega (arith, e, lt)) (λ e. omega (arith, e, lt)))
      (character-layout shift x lt ∙ ap some none)
      (λ k1 q1 rests1.
        Press-Ended shift xs (more ++ codes es) zs c rounds k1 p (omega (arith, le)) q1 rests1)
Press-Ended shift (x ∷ xs) more zs c (es ∷ rounds) k (typed lt a b key some_key last) le q rests =
    let (k1, e, q1, rests1) = round shift x xs more es rounds k q rests in
    let same = other_key shift x a b (λ e. omega (arith, e, lt)) (λ e. omega (arith, e, lt)) in
    let found : character (shift_after shift x) x ≡ some c =
      ap (λ s. character s x) same ∙ character-layout shift x lt ∙ ap some key in
    record {
      after = k1;
      rounds = rounds;
      waiting = xs ++ (more ++ codes es);
      result = e ∙ rw (found, ne→== c 0 some_key) refl;
      queue = q1;
      left =
          append_assoc xs (more ++ codes es) (to_come rounds)
          ∙ ap (λ l. xs ++ l) (append_assoc more (codes es) (to_come rounds))
          ∙ ap (λ l. l ++ (more ++ to_come (es ∷ rounds))) (sym last);
    }

-- From a buffer that holds scancodes which type a character `c` by the layout of the keyboard, with
-- the shift keys up at first, and as many rounds of the loop as there are scancodes, between which any
-- interrupts come as long as at most fifteen scancodes wait at any time: `in_char` that waits ends
-- with `c`, and the scancodes behind those of `c` are left in their order, before those that came
-- during the rounds and come later.
pub in_char-Press :
    (xs zs : List ℕ) (c : ℕ) (rounds : Rounds) (k : Keyboard)
    → Press false xs c zs
    → length xs ≤ length rounds
    → Holds xs k
    → Rests rounds xs
    → Ended c (zs ++ to_come rounds) (in_char true rounds k)
unfolding in_char
in_char-Press xs zs c rounds k p le q rests =
    Press-Ended false xs [] zs c rounds k p le (subst (λ l. Holds l k) (sym (append-nil xs)) q)
      (subst (λ l. Rests rounds l) (sym (append-nil xs)) rests)
