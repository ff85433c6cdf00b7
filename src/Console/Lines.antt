-- ===== src/Console/Lines.antt =====
-- The line that `in_string` returns.
use sandor_os.Console.Steps.{line_of, Next, next_char-Next, AllSame, edit-Same}
use sandor_os.KernelHeap.Kmalloc.{kmalloc}
use sandor_os.VirtPages.{Manager}
use mathlib.Core.Path.{subst}
use sandor_os.Prelude.{
  ℕ, zero, suc, ◌+◌, ◌^◌, ◌<◌, ◌≤◌, ◌≡◌, refl, ap, ◌∙◌, inl, inr, true, false, Option, none, some,
  List, [], arith, leb, ◌==◌, if◌then◌else◌, sub32, Bool-cases, leb→gt, eq→==, ne→==, ==→eq, length,
  get_or,
}
use mathlib.Core.Option
use sandor_os.Keyboard.{Keyboard}
use sandor_os.Keyboard.Queue
use sandor_os.Keyboard.Scancodes.{Rounds, in_char}
use sandor_os.Keyboard.Scancodes.Typed.{Rests, Agree, next_char, in_char-next_char}
use sandor_os.Stdlib.{store, IsBytes}
use sandor_os.Stdlib.Word.{store-lt}
use sandor_os.Console.{Console, Line, edit, in_string_loop, in_string}
use sandor_os.Console.Editing.{edited, Holds, After, Grows, edit-Holds}

-- The buffer's address is returned and the line stands there with a zero byte behind it; the keyboard
-- holds the queue that is left.
pub record LineAt (buffer : ℕ) (r : List ℕ × List ℕ × Rounds) (q : Console × ℕ × Rounds)
    : Type 0 where
  pub address : q.1 ≡ buffer
  pub held : (k : ℕ) → k < length r.0 → (q.0).memory (buffer + k) ≡ get_or r.0 k 0
  pub ends : (q.0).memory (buffer + length r.0) ≡ 0
  pub queue : Queue.Holds r.1 (q.0).keyboard
  pub rounds : q.2 ≡ r.2

abbrev pub Returned :
    (buffer : ℕ) (r : List ℕ × List ℕ × Rounds) → Option (Console × ℕ × Rounds) → Type 0
Returned buffer r none = ⊥
Returned buffer r (some q) = LineAt buffer r q

-- What the loop does with a character, and with the others.
abbrev finish : (fuel chr : ℕ) (rest : Rounds) → Line × Console → Option (Console × ℕ × Rounds)
finish fuel chr rest (l, s) =
    let more = in_string_loop fuel rest (l, s) in
    if chr == 10
    then some (record s { memory = store s.memory (l.buffer + l.position) 0 }, l.buffer, rest)
    else more

abbrev Continues : (fuel : ℕ) → Type 0
Continues fuel =
    (rounds : Rounds) (xs cs : List ℕ) (l : Line) (s : Console) (r : List ℕ × List ℕ × Rounds)
    → Queue.Holds xs s.keyboard
    → Rests rounds xs
    → Holds cs l s.memory
    → l.buffer_size ≡ 16
    → line_of fuel rounds xs cs ≡ some r
    → Returned l.buffer r (in_string_loop fuel rounds (l, s))

abbrev or_empty : Option (List ℕ × List ℕ × Rounds) → List ℕ × List ℕ × Rounds
or_empty none = ([], [], [])
or_empty (some r) = r

edited-line : (chr : ℕ) (cs : List ℕ) → (chr == 10) ≡ true → edited chr cs ≡ cs
unfolding edited
edited-line chr cs on =
    let e : chr ≡ 10 = ==→eq chr 10 on in
    rw
      (
        ne→== chr 0 (λ z. absurd (omega (arith, z, e))),
        ne→== chr 8 (λ z. absurd (omega (arith, z, e))),
        on,
      )
      refl

finish-last :
    (fuel chr : ℕ) (rest : Rounds) (cs ys : List ℕ) (l : Line) (s : Console)
    → Queue.Holds ys s.keyboard
    → Holds cs l s.memory
    → (chr == 10) ≡ true
    → Returned l.buffer (cs, ys, rest) (finish fuel chr rest (l, s))
finish-last fuel chr rest cs ys l s q h on = rw on (record {
  address = refl;
  held = λ k lt.
      byte (l.buffer + k)
      ∙ rw (ne→== (l.buffer + k) (l.buffer + l.position) (λ e. absurd (omega (arith, h.position))))
          (h.held k lt);
  ends =
      let at : l.buffer + length cs ≡ l.buffer + l.position = omega (arith, h.position) in
      rw at (
        byte (l.buffer + l.position)
        ∙ rw (eq→== (l.buffer + l.position) (l.buffer + l.position) refl) refl);
  queue = q;
  rounds = refl;
})
  where
    byte :
        (x : ℕ)
        → store s.memory (l.buffer + l.position) 0 x
          ≡ (if x == l.buffer + l.position then 0 else s.memory x)
    byte x = store-lt s.memory (l.buffer + l.position) 0 x (omega (arith, h.room, h.fits))

finish-line_of :
    (fuel : ℕ)
    → Continues fuel
    → (chr : ℕ) (rest : Rounds) (cs ys : List ℕ) (l : Line) (s : Console)
      (r : List ℕ × List ℕ × Rounds) (o : Option (Line × Console))
    → Queue.Holds ys s.keyboard
    → Rests rest ys
    → l.buffer_size ≡ 16
    → After (edited chr cs) o
    → AllSame l s o
    → (if chr == 10 then some (cs, ys, rest) else line_of fuel rest ys (edited chr cs)) ≡ some r
    → Returned l.buffer r (Option.bind o (finish fuel chr rest))
unfolding Option.bind
finish-line_of fuel ih chr rest cs ys l s r none q rests size after same e = absurd after
finish-line_of fuel ih chr rest cs ys l s r (some (l', s')) q rests size after same e =
    let q' : Queue.Holds ys s'.keyboard = rw same.keyboard q in
    elim (Bool-cases (chr == 10)) [
      | inl on ↦
          let er : (cs, ys, rest) ≡ r = ap or_empty (
            subst
              (λ b.
                (if b then some (cs, ys, rest) else line_of fuel rest ys (edited chr cs)) ≡ some r)
              on e) in
          let h : Holds cs l' s'.memory =
            subst (λ ds. Holds ds l' s'.memory) (edited-line chr cs on) after in
          subst (λ b. Returned b r (finish fuel chr rest (l', s'))) same.buffer
            (subst (λ r. Returned l'.buffer r (finish fuel chr rest (l', s'))) er
              (finish-last fuel chr rest cs ys l' s' q' h on))
      | inr off ↦
          let e' =
            subst
              (λ b.
                (if b then some (cs, ys, rest) else line_of fuel rest ys (edited chr cs)) ≡ some r)
              off e in
          rw off (
            subst (λ b. Returned b r (in_string_loop fuel rest (l', s'))) same.buffer
              (ih rest ys (edited chr cs) l' s' r q' rests after (same.size ∙ size) e'))
    ]

-- A character that is read, and the rest of the line.
read-line_of :
    (fuel : ℕ)
    → Continues fuel
    → (cs : List ℕ) (l : Line) (s : Console) (r : List ℕ × List ℕ × Rounds)
      (o : Option (Keyboard × ℕ × Rounds)) (n : Option (List ℕ × ℕ × Rounds))
    → Agree o n
    → Next n
    → Holds cs l s.memory
    → l.buffer_size ≡ 16
    → length cs < 15
    → Option.bind n (λ (ys, chr, rest).
      if chr == 10 then some (cs, ys, rest) else line_of fuel rest ys (edited chr cs))
      ≡ some r
    → Returned l.buffer r (
        Option.bind o (λ (k, chr, rest).
          Option.bind (edit chr (l, record s { keyboard = k })) (finish fuel chr rest)))
unfolding Option.bind
read-line_of fuel ih cs l s r none none agree next h size short e = absurd cc
read-line_of fuel ih cs l s r none (some (ys, d, rest')) agree next h size short e = absurd agree
read-line_of fuel ih cs l s r (some (k, c, rest)) none agree next h size short e = absurd agree
read-line_of fuel ih cs l s r (some (k, c, rest)) (some (ys, d, rest')) (q, same_char, same_rest)
      (byte, rests) h size short e =
    let s1 : Console = record s { keyboard = k } in
    let room : (l.position == sub32 l.buffer_size 1) ≡ false =
      ne→== l.position (sub32 l.buffer_size 1) (λ z. absurd (omega (arith, z, size, h.position))) in
    let grows : Grows l s1 = λ full. absurd (omega (arith, full, size, h.position)) in
    rw (same_char, same_rest)
      (finish-line_of fuel ih d rest' cs ys l s1 r (edit d (l, s1)) q rests size
        (edit-Holds d cs l s1 byte h grows) (edit-Same d l s1 room) e)

in_string_loop-line_of : (fuel : ℕ) → Continues fuel
unfolding in_string_loop line_of
in_string_loop-line_of zero rounds xs cs l s r q rests h size e = absurd cc
in_string_loop-line_of (suc fuel) rounds xs cs l s r q rests h size e =
    elim (Bool-cases (leb 15 (length cs))) [
      | inl full ↦ absurd (stop full)
      | inr off ↦
          read-line_of fuel (in_string_loop-line_of fuel) cs l s r (in_char true rounds s.keyboard)
            (next_char true false rounds xs) (in_char-next_char true rounds xs s.keyboard q rests)
            (next_char-Next true false rounds xs rests) h size (leb→gt 15 (length cs) off)
            (subst (λ b. (if b then none else next) ≡ some r) off e)
    ]
  where
    next : Option (List ℕ × List ℕ × Rounds)
    next = Option.bind (next_char true false rounds xs) (λ (ys, chr, rest).
        let more = line_of fuel rest ys (edited chr cs) in
        if chr == 10 then some (cs, ys, rest) else more)

    stop : leb 15 (length cs) ≡ true → ⊥
    stop full =
        let z : none ≡ some r = subst (λ b. (if b then none else next) ≡ some r) full e in cc

-- Where the keyboard holds a queue, at most fifteen scancodes wait at any time, memory holds bytes,
-- `kmalloc` gives a block of 16 bytes, and the keys make a line (`line_of`), which stays below
-- fifteen characters: `in_string` ends and returns the address of the block, where the line stands
-- as edited with a zero byte behind it, and the keyboard holds the queue that is left.
pub in_string-line_of :
    (rounds : Rounds) (xs : List ℕ) (s : Console) (mm : Manager) (buffer : ℕ)
    (r : List ℕ × List ℕ × Rounds)
    → Queue.Holds xs s.keyboard
    → Rests rounds xs
    → IsBytes s.memory
    → kmalloc 16 s.manager ≡ some (mm, buffer)
    → buffer + 16 ≤ 2 ^ 32
    → line_of (length rounds + 1) rounds xs [] ≡ some r
    → Returned buffer r (in_string rounds s)
unfolding in_string Option.bind
in_string-line_of rounds xs s mm buffer r q rests bytes e room line =
    let l : Line = record { position = 0; buffer_size = 16; buffer = buffer } in
    let s1 : Console = record s { manager = mm } in
    rw e (
      in_string_loop-line_of (length rounds + 1) rounds xs [] l s1 r q rests
        (record {
          bytes = bytes;
          position = refl;
          room = omega arith;
          fits = room;
          held = λ k lt. absurd (omega arith);
        })
        refl line)
