-- ===== src/Console.antt =====
-- Line input, `in_string` of kernel/tty.c, with the parts of the kernel that it works on.
pub mod Editing
pub mod Steps
pub mod Lines
mod Tests
use sandor_os.Prelude.{
  ℕ, zero, suc, ◌+◌, ◌-◌, ◌*◌, ◌/◌, ◌%◌, ◌^◌, ◌<◌, ◌≤◌, ◌≡◌, refl, sym, ap, ◌∙◌, ◌⊎◌, inl, inr, ◌↔◌,
  Bool, true, false, ◌&&◌, ◌||◌, Option, none, some, List, [], ◌∷◌, ◌++◌, arith, ltb, leb, ◌==◌,
  if◌then◌else◌, u8, u16, u32, sub32, shl, shr, Bool-cases, lt→ltb, le→ltb, leb→le, leb→gt, ltb→lt,
  ltb→ge, le→leb, lt→leb, eq→==, ne→==, ==→eq, ==→ne, length,
}
use mathlib.Core.Option
use sandor_os.Tty.{Tty, move_cursor, out_char}
use sandor_os.Tty.Printf.{Out, out}
use sandor_os.Keyboard.{Keyboard}
use sandor_os.Keyboard.Scancodes.{Rounds, in_char}
use sandor_os.Stdlib.{Memory, load, store, memcpy}
use sandor_os.VirtPages.{Manager}
use sandor_os.KernelHeap.Kmalloc.{kmalloc, kfree}

-- The terminal with its buffer for numbers, the keyboard, the memory manager and memory.
pub record Console : Type 0 where
  pub screen : Out
  pub keyboard : Keyboard
  pub manager : Manager
  pub memory : Memory

-- The variables of `in_string`.
pub record Line : Type 0 where
  pub position : ℕ
  pub buffer_size : ℕ
  pub buffer : ℕ

abbrev pub on_tty : (Tty → Tty) → Console → Console
on_tty f s = record s { screen = (f (s.screen).0, (s.screen).1) }

-- The blank over the last character, between two moves of the cursor.
unfoldable pub rub_out : Tty → Tty
rub_out t =
    let t1 = move_cursor (sub32 t.cursor 1) t in
    let t2 = out_char 0 t1 in move_cursor (sub32 t2.cursor 1) t2

-- A buffer of twice the size with the same content; what `kmalloc` returns is not looked at.
unfoldable pub grow_buffer : Line × Console → Option (Line × Console)
grow_buffer (l, s) =
    Option.map
      (λ (mm, temp). (
        record l { buffer = temp; buffer_size = u32 (l.buffer_size * 2) },
        record s {
          manager = (kfree l.buffer mm).0;
          memory = memcpy temp l.buffer l.buffer_size s.memory;
        },
      ))
      (kmalloc (u32 (l.buffer_size * 2)) s.manager)

unfoldable pub store_char : (chr : ℕ) → Line × Console → Line × Console
store_char chr (l, s) = (
  record l { position = u32 (l.position + 1) },
  on_tty (out_char chr) (record s { memory = store s.memory (l.buffer + l.position) chr }),
)

-- The switch on a character: 8 is the backspace, 10 the end of the line.
unfoldable pub edit : (chr : ℕ) → Line × Console → Option (Line × Console)
unfolding grow_buffer store_char rub_out
edit chr (l, s) =
    if chr == 0
    then some (l, s)
    else if chr == 8
    then some (
        if ltb 0 l.position
        then (record l { position = sub32 l.position 1 }, on_tty rub_out s)
        else (l, s))
    else if chr == 10
    then some (l, on_tty (out_char 10) s)
    else Option.map (store_char chr)
        (if l.position == sub32 l.buffer_size 1 then grow_buffer (l, s) else some (l, s))

-- The loop of `in_string`, for at most `fuel` characters. `rounds` are the interrupts to come.
unfoldable pub in_string_loop :
    (fuel : ℕ) (rounds : Rounds) → Line × Console → Option (Console × ℕ × Rounds)
unfolding edit
in_string_loop zero rounds ls = none
in_string_loop (suc fuel) rounds (l, s) =
    Option.bind (in_char true rounds s.keyboard) (λ (k, chr, rest).
      Option.bind (edit chr (l, record s { keyboard = k })) (λ (l', s').
        let more = in_string_loop fuel rest (l', s') in
        if chr == 10
        then some
            (record s' { memory = store s'.memory (l'.buffer + l'.position) 0 }, l'.buffer, rest)
        else more))

-- There are no more characters than rounds.
unfoldable pub in_string : Rounds → Console → Option (Console × ℕ × Rounds)
unfolding in_string_loop
in_string rounds s = Option.bind (kmalloc 16 s.manager) (λ (mm, buffer).
    in_string_loop (length rounds + 1) rounds
      (record { position = 0; buffer_size = 16; buffer = buffer }, record s { manager = mm }))
