-- ===== src/Tty/Printf/Tests.antt =====
-- The theorem on `printf` at a format with a number, a string and a percent sign.
use sandor_os.Prelude.{ℕ, false, List, [], ◌∷◌}
use sandor_os.Tty.{Tty, tty_char}
use sandor_os.Tty.Printf.{word, string, printf}
use sandor_os.Tty.Printf.Format.{Shown, format, printf-format}

abbrev screen : Tty
screen = record {
  tty_width = 4;
  tty_height = 3;
  cursor = 10;
  text_attr = 7;
  tty_buffer = λ i. tty_char 46 7;
  tty_io_port = 980;
  ports = [];
}

-- "%x-%s%%".
abbrev sample : List ℕ
sample = 37 ∷ 120 ∷ 45 ∷ 37 ∷ 115 ∷ 37 ∷ 37 ∷ []

printf-format_example :
    Shown
      (format false sample (word 255 ∷ string (104 ∷ 105 ∷ []) ∷ word 0 ∷ []))
      screen
      (printf sample (word 255 ∷ string (104 ∷ 105 ∷ []) ∷ word 0 ∷ []) (screen, (λ i. 0)))
printf-format_example =
    printf-format sample (word 255 ∷ string (104 ∷ 105 ∷ []) ∷ word 0 ∷ []) screen (λ i. 0)
