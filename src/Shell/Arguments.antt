-- ===== src/Shell/Arguments.antt =====
-- The command line of kernel/shell.c: `pars_input` and the loop of `shell`.
pub mod Command
use sandor_os.Prelude.{
  ℕ, zero, suc, ◌+◌, ◌-◌, ◌*◌, ◌/◌, ◌%◌, ◌^◌, ◌<◌, ◌≤◌, ◌≡◌, refl, sym, ap, ◌∙◌, ◌⊎◌, inl, inr, ◌↔◌,
  Bool, true, false, ◌&&◌, ◌||◌, Option, none, some, List, [], ◌∷◌, ◌++◌, arith, ltb, leb, ◌==◌,
  if◌then◌else◌, u8, u16, u32, sub32, shl, shr, Bool-cases, lt→ltb, le→ltb, leb→le, leb→gt, ltb→lt,
  ltb→ge, le→leb, lt→leb, eq→==, ne→==, ==→eq, ==→ne,
}
use mathlib.Core.Option
use sandor_os.Stdlib.{Memory, load, store, store_word, memcpy}
use sandor_os.VirtPages.{Manager}
use sandor_os.KernelHeap.Kmalloc.{kmalloc, kfree}
use sandor_os.Keyboard.Scancodes.{Rounds}
use sandor_os.Tty.{clear_screen}
use sandor_os.Tty.Printf.{printf}
use sandor_os.Console.{Console, on_tty, in_string}
use sandor_os.Shell.Commands.{put_screen, do_command}

-- The first index from `i` on whose character does not pass the test. An `int` counts.
unfoldable pub skip : (again : ℕ → Bool) (fuel i : ℕ) → Memory → (input : ℕ) → Option ℕ
skip again zero i m input = none
skip again (suc fuel) i m input =
    let rest = skip again fuel (u32 (i + 1)) m input in
    if again (load m (input + i)) then rest else some i

abbrev pub is_space : ℕ → Bool
is_space c = c == 32

abbrev pub in_word : ℕ → Bool
in_word c = if c == 32 then false else if c == 0 then false else true

abbrev pub all : ℕ
all = 2 ^ 32

-- The loop that counts the arguments from `i` on, and their characters.
unfoldable pub count_tokens : (fuel i token_count total : ℕ) → Memory → (input : ℕ) → Option (ℕ × ℕ)
unfolding skip
count_tokens zero i token_count total m input = none
count_tokens (suc fuel) i token_count total m input =
    let next = Option.bind (skip is_space all i m input) (λ start.
      Option.bind (skip in_word all start m input) (λ stop.
        let rest =
          count_tokens fuel stop (u32 (token_count + 1)) (u32 (total + sub32 stop start)) m input in
        if load m (input + start) == 0 then some (token_count, total) else rest)) in
    if load m (input + i) == 0 then some (token_count, total) else next

-- The loop that copies the arguments from `i` on: the `c`-th to `offset` behind `argv`, and its
-- address to the `c`-th word there.
unfoldable pub copy_tokens : (n c i offset argv input : ℕ) → Memory → Option Memory
unfolding skip
copy_tokens zero c i offset argv input m = some m
copy_tokens (suc n) c i offset argv input m = Option.bind (skip is_space all i m input) (λ start.
    Option.bind (skip in_word all start m input) (λ stop.
      let to = u32 (argv + offset) in
      let length = sub32 stop start in
      let m1 = store_word m (argv + c * 4) to in
      let m2 = store (memcpy to (u32 (input + start)) length m1) (to + length) 0 in
      let rest = copy_tokens n (c + 1) stop (u32 (offset + length + 1)) argv input m2 in
      if load m (input + start) == 0 then some m else rest))

-- What `pars_input` hands out.
pub record Parsed : Type 0 where
  pub command : ℕ
  pub argc : ℕ
  pub argv : ℕ

-- The part behind the command, which ends at `i` and has `j` characters. The second loop starts at
-- the `j`-th character.
unfoldable pub parse_arguments : (i j input : ℕ) → Parsed × Console → Option (Parsed × Console)
unfolding count_tokens copy_tokens
parse_arguments i j input (r, s) =
    Option.bind (count_tokens all i 0 0 s.memory input) (λ (argc, total).
      Option.bind (kmalloc (u32 (argc * 4 + total + argc)) s.manager) (λ (mm, argv).
        Option.map
          (λ m. (
            record r { argc = argc; argv = argv },
            record s { memory = m; manager = (kfree input mm).0 },
          ))
          (copy_tokens argc 0 j (u32 (argc * 4)) argv input s.memory)))

-- What follows the two loops that find the command from `start` to `i`. With no character behind it,
-- nothing but the command is set.
unfoldable pub set_command : (start i input : ℕ) → Parsed × Console → Option (Parsed × Console)
set_command start i input (r, s) =
    let j = sub32 i start in
    Option.bind (kmalloc (u32 (j + 1)) s.manager) (λ (mm, command).
      let m = store (memcpy command (u32 (input + start)) j s.memory) (command + j) 0 in
      let r1 : Parsed = record r { command = command } in
      let s1 : Console = record s { memory = m; manager = mm } in
      let rest = parse_arguments i j input (r1, s1) in
      if load m (input + i) == 0 then some (r1, s1) else rest)

-- `r` is what the three variables hold before.
unfoldable pub pars_input : (input : ℕ) → Parsed × Console → Option (Parsed × Console)
pars_input input (r, s) = Option.bind (skip is_space all 0 s.memory input) (λ start.
    Option.bind (skip in_word all start s.memory input) (λ i. set_command start i input (r, s)))

-- One round of the loop of `shell`, which prints "$ ". It ends with two calls of `kfree`.
unfoldable pub shell_round :
    (ds commands : ℕ) (rounds : Rounds) → Parsed × Console → Option (Parsed × Console × Rounds)
unfolding pars_input
shell_round ds commands rounds (r, s) = Option.bind (printf (36 ∷ 32 ∷ []) [] s.screen) (λ o.
    Option.bind (in_string rounds (put_screen s o)) (λ (s1, input, rest).
      Option.bind (pars_input input (r, s1)) (λ (r2, s2).
        Option.map
          (λ s3.
            (r2, record s3 { manager = (kfree r2.argv (kfree r2.command s3.manager).0).0 }, rest))
          (do_command ds commands r2.command r2.argc r2.argv s2))))

-- The first `n` rounds; `argc` starts as 0, and `command` and `argv` are not set.
unfoldable pub shell :
    (n ds commands : ℕ) (rounds : Rounds) → Parsed × Console → Option (Parsed × Console × Rounds)
unfolding shell_round
shell n ds commands rounds (r, s) =
    shell_rounds n rounds (record r { argc = 0 }) (on_tty clear_screen s)
  where
    shell_rounds : (n : ℕ) → Rounds → Parsed → Console → Option (Parsed × Console × Rounds)
    shell_rounds zero rounds r s = some (r, s, rounds)
    shell_rounds (suc n) rounds r s =
        Option.bind (shell_round ds commands rounds (r, s))
          (λ (r', s', rest). shell_rounds n rest r' s')
