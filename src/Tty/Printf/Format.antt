-- ===== src/Tty/Printf/Format.antt =====
-- What `printf` shows: the text that a format and its arguments make, as if `out_string` showed it.
use mathlib.Core.Option
use sandor_os.Prelude.{
  ℕ, ◌^◌, ◌<◌, ◌≤◌, ◌≡◌, refl, Bool, true, false, ◌||◌, Option, none, some, List, [], ◌∷◌, ◌++◌,
  arith, ◌==◌, if◌then◌else◌, u8, u32,
}
use sandor_os.Tty.{Tty, out_char, out_string}
use sandor_os.Tty.Number.{Buffer}
use sandor_os.Tty.Printf.{Arg, word, string, Out, out, out_number, convert, printf_loop, printf}
use sandor_os.Tty.Printf.Numeral.{numeral, int_to_str-numeral}

-- The text of one conversion.
unfoldable pub conversion : (c : ℕ) → Arg → Option (List ℕ)
conversion c (word v) =
    if c == 37
    then some (37 ∷ [])
    else if c == 99
    then some (u8 v ∷ [])
    else if c == 115
    then none
    else if c == 98
    then some (numeral 2 (u32 v))
    else if c == 111
    then some (numeral 8 (u32 v))
    else if c == 100
    then some (numeral 10 (u32 v))
    else if c == 120
    then some (numeral 16 (u32 v))
    else some []
conversion c (string cs) =
    if c == 37
    then some (37 ∷ [])
    else if c == 115
    then some cs
    else if c == 99 || c == 98 || c == 111 || c == 100 || c == 120
    then none
    else some []

-- The text of a format. Each conversion takes an argument, `%%` and unknown letters too.
unfoldable pub format : (percent : Bool) → List ℕ → List Arg → Option (List ℕ)
format false [] args = some []
format true [] args = none
format false (c ∷ fmt) args =
    Option.map (λ cs. (if c == 37 then [] else c ∷ []) ++ cs) (format (c == 37) fmt args)
format true (c ∷ fmt) [] = none
format true (c ∷ fmt) (a ∷ args) =
    Option.bind (conversion c a) (λ cs. Option.map (λ ds. cs ++ ds) (format false fmt args))

pub out_string-append :
    (cs ds : List ℕ) (t : Tty) → out_string (cs ++ ds) t ≡ out_string ds (out_string cs t)
unfolding out_string
out_string-append [] ds t = refl
out_string-append (c ∷ cs) ds t = out_string-append cs ds (out_char c t)

-- The text goes to the screen, if there is one; there is no result, if there is none.
abbrev pub Shown : Option (List ℕ) → Tty → Option Out → Type 0
Shown none t r = r ≡ none
Shown (some cs) t r = (m : Buffer) × (r ≡ some (out_string cs t, m))

out_number-Shown :
    (value base : ℕ) (t : Tty) (m : Buffer)
    → value < 2 ^ 32
    → 1 < base
    → base ≤ 16
    → Shown (some (numeral base value)) t (out_number value base (t, m))
unfolding out_number
out_number-Shown value base t m small low high =
    let (r, e, shown) = int_to_str-numeral base low high value m small in (r.0, rw (e, shown) refl)

Shown-if :
    (b : Bool) (x y : Option (List ℕ)) (t : Tty) (r s : Option Out)
    → Shown x t r
    → Shown y t s
    → Shown (if b then x else y) t (if b then r else s)
Shown-if true x y t r s p q = p
Shown-if false x y t r s p q = q

convert-Shown :
    (c : ℕ) (a : Arg) (t : Tty) (m : Buffer) → Shown (conversion c a) t (convert c a (t, m))
unfolding convert conversion out out_string
convert-Shown c (word v) t m =
    let n : u32 v < 2 ^ 32 = omega arith in
    let byte : u8 (u32 v) ≡ u8 v = omega arith in
    Shown-if (c == 37) _ _ t _ _ (m, refl)
      (Shown-if (c == 99) _ _ t _ _ (m, rw byte refl)
        (Shown-if (c == 115) _ _ t _ _ refl (
          Shown-if (c == 98) _ _ t _ _
            (out_number-Shown (u32 v) 2 t m n (omega arith) (omega arith))
            (Shown-if (c == 111) _ _ t _ _
              (out_number-Shown (u32 v) 8 t m n (omega arith) (omega arith))
              (Shown-if (c == 100) _ _ t _ _
                (out_number-Shown (u32 v) 10 t m n (omega arith) (omega arith))
                (Shown-if (c == 120) _ _ t _ _
                  (out_number-Shown (u32 v) 16 t m n (omega arith) (omega arith)) (m, refl)))))))
convert-Shown c (string cs) t m =
    Shown-if (c == 37) _ _ t _ _ (m, refl)
      (Shown-if (c == 115) _ _ t _ _ (m, refl)
        (Shown-if (c == 99 || c == 98 || c == 111 || c == 100 || c == 120) _ _ t _ _ refl
          (m, refl)))

-- A text and then a text.
Shown-bind :
    (x y : Option (List ℕ)) (t : Tty) (r : Option Out) (f : Out → Option Out)
    → Shown x t r
    → ((t' : Tty) (m : Buffer) → Shown y t' (f (t', m)))
    → Shown (Option.bind x (λ cs. Option.map (λ ds. cs ++ ds) y)) t (Option.bind r f)
unfolding Option.bind
Shown-bind none y t r f p q = rw p refl
Shown-bind (some cs) none t r f (m, e) q = rw e (q (out_string cs t) m)
Shown-bind (some cs) (some ds) t r f (m, e) q =
    let (m', e') = q (out_string cs t) m in (m', rw (e, out_string-append cs ds t) e')

Shown-map :
    (b : Bool) (c : ℕ) (y : Option (List ℕ)) (t : Tty) (m : Buffer) (f : Out → Option Out)
    → ((t' : Tty) (m : Buffer) → Shown y t' (f (t', m)))
    → Shown
        (Option.map (λ cs. (if b then [] else c ∷ []) ++ cs) y)
        t
        (f (if b then (t, m) else out c (t, m)))
unfolding out out_string
Shown-map true c none t m f q = q t m
Shown-map true c (some cs) t m f q = q t m
Shown-map false c none t m f q = q (out_char c t) m
Shown-map false c (some cs) t m f q = q (out_char c t) m

printf_loop-format :
    (percent : Bool) (fmt : List ℕ) (args : List Arg) (t : Tty) (m : Buffer)
    → Shown (format percent fmt args) t (printf_loop percent fmt args (t, m))
unfolding printf_loop format out_string
printf_loop-format false [] args t m = (m, refl)
printf_loop-format true [] args t m = refl
printf_loop-format false (c ∷ fmt) args t m =
    Shown-map (c == 37) c (format (c == 37) fmt args) t m (printf_loop (c == 37) fmt args)
      (λ t m. printf_loop-format (c == 37) fmt args t m)
printf_loop-format true (c ∷ fmt) [] t m = refl
printf_loop-format true (c ∷ fmt) (a ∷ args) t m =
    Shown-bind (conversion c a) (format false fmt args) t (convert c a (t, m))
      (printf_loop false fmt args) (convert-Shown c a t m)
      (λ t m. printf_loop-format false fmt args t m)

-- For any format and arguments, on any terminal, `printf` has the result that `format` tells: where
-- `format` gives a text, `printf` ends and the terminal is the one that `out_string` leaves of this
-- text; where it gives none, `printf` has none. In the text, each `%` takes the next argument, also
-- in front of a `%` or a letter that is no conversion; numbers are spelled by `numeral` in the base
-- of the conversion.
pub printf-format :
    (fmt : List ℕ) (args : List Arg) (t : Tty) (m : Buffer)
    → Shown (format false fmt args) t (printf fmt args (t, m))
unfolding printf
printf-format fmt args t m = printf_loop-format false fmt args t m
