-- ===== src/Tty/Printf.antt =====
-- `printf` of kernel/tty.c. A format is its characters; the arguments are words, or strings that are
-- given by their characters.
pub mod Numeral
pub mod Format
mod Tests
use mathlib.Core.Option
use sandor_os.Prelude.{
  ℕ, zero, suc, ◌+◌, ◌-◌, ◌*◌, ◌/◌, ◌%◌, ◌^◌, ◌<◌, ◌≤◌, ◌≡◌, refl, sym, ap, ◌∙◌, ◌⊎◌, inl, inr, ◌↔◌,
  Bool, true, false, ◌&&◌, ◌||◌, Option, none, some, List, [], ◌∷◌, ◌++◌, arith, ltb, leb, ◌==◌,
  if◌then◌else◌, u8, u16, u32, sub32, shl, shr, Bool-cases, lt→ltb, le→ltb, leb→le, leb→gt, ltb→lt,
  ltb→ge, le→leb, lt→leb, eq→==, ne→==, ==→eq, ==→ne,
}
use sandor_os.Tty.{Tty, out_char, out_string}
use sandor_os.Tty.Number.{Buffer, int_to_str}

-- A `size_t` of the argument list: a number, or a pointer to a string.
pub data Arg : Type 0 where
  word : ℕ → Arg
  string : List ℕ → Arg

-- The characters from `i` on before the next zero byte, at most `n`.
unfoldable pub text : (n i : ℕ) → Buffer → List ℕ
text zero i m = []
text (suc n) i m = let rest = text n (i + 1) m in if m i == 0 then [] else m i ∷ rest

-- The terminal and `num_buffer`.
abbrev pub Out : Type 0
Out = Tty × Buffer

unfoldable pub out : ℕ → Out → Out
out c (t, m) = (out_char c t, m)

-- `out_string(int_to_str(value, base))`; the buffer ends at 65.
unfoldable pub out_number : (value base : ℕ) → Out → Option Out
out_number value base (t, m) =
    Option.map (λ r. (out_string (text (66 - r.1) r.1 r.0) t, r.0)) (int_to_str value base m)

-- The switch. A number is not printed as a string, nor a string as a number.
unfoldable pub convert : (c : ℕ) → Arg → Out → Option Out
unfolding out out_number
convert c (word v) s =
    let arg = u32 v in
    if c == 37
    then some (out 37 s)
    else if c == 99
    then some (out (u8 arg) s)
    else if c == 115
    then none
    else if c == 98
    then out_number arg 2 s
    else if c == 111
    then out_number arg 8 s
    else if c == 100
    then out_number arg 10 s
    else if c == 120
    then out_number arg 16 s
    else some s
convert c (string cs) (t, m) =
    if c == 37
    then some (out 37 (t, m))
    else if c == 115
    then some (out_string cs t, m)
    else if c == 99 || c == 98 || c == 111 || c == 100 || c == 120
    then none
    else some (t, m)

-- The loop; `percent` is set behind a '%'. An argument is taken before the switch. A format that ends
-- in '%' is read past its end, and so are the arguments when there are too few: no result.
unfoldable pub printf_loop : (percent : Bool) → List ℕ → List Arg → Out → Option Out
unfolding convert
printf_loop false [] args s = some s
printf_loop true [] args s = none
printf_loop false (c ∷ fmt) args s = printf_loop (c == 37) fmt args (if c == 37 then s else out c s)
printf_loop true (c ∷ fmt) [] s = none
printf_loop true (c ∷ fmt) (a ∷ args) s = Option.bind (convert c a s) (printf_loop false fmt args)

unfoldable pub printf : List ℕ → List Arg → Out → Option Out
unfolding printf_loop
printf fmt args s = printf_loop false fmt args s
