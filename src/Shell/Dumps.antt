-- ===== src/Shell/Dumps.antt =====
-- The text of a dump.
use sandor_os.Prelude.{
  ℕ, zero, suc, ◌+◌, ◌*◌, ◌/◌, ◌%◌, ◌^◌, ◌<◌, ◌≤◌, ◌≡◌, refl, Bool, true, false, Option, some, List,
  [], ◌∷◌, ◌++◌, arith, ltb, if◌then◌else◌, u8, u32, lt→ltb,
}
use mathlib.Core.Option
use sandor_os.Tty.{Tty, out_string}
use sandor_os.Tty.Number.{Buffer}
use sandor_os.Stdlib.{Memory, load, load_word}
use sandor_os.Tty.Printf.{word, Out, printf}
use sandor_os.Tty.Printf.Numeral.{numeral}
use sandor_os.Tty.Printf.Format.{conversion, format, out_string-append, printf-format}
use sandor_os.PhysMemory.{Phys, temp_map_page, temp_load}
use sandor_os.Shell.{
  parse_address, dump_hex, dump_chars, dump_line, dump_lines, virtdump, physdump, temp_byte,
  temp_page_info,
}

-- On every screen, `f` ends and shows the text.
abbrev pub Prints : (cs : List ℕ) → (Out → Option Out) → Type 0
Prints cs f = (t : Tty) (m : Buffer) → (m' : Buffer) × (f (t, m) ≡ some (out_string cs t, m'))

Prints-bind :
    (cs ds : List ℕ) (f g : Out → Option Out)
    → Prints cs f
    → Prints ds g
    → Prints (cs ++ ds) (λ s. Option.bind (f s) g)
unfolding Option.bind
Prints-bind cs ds f g p q t m =
    let (m1, e1) = p t m in
    let (m2, e2) = q (out_string cs t) m1 in (m2, rw (e1, out_string-append cs ds t) e2)

Prints-nothing : Prints [] (λ s. some s)
unfolding out_string
Prints-nothing t m = (m, refl)

-- `n` bytes from `j` on in hexadecimal, each with two digits and a space.
abbrev pub hex_text : (byte : ℕ → ℕ) → (n j : ℕ) → List ℕ
hex_text byte zero j = []
hex_text byte (suc n) j =
    (if ltb (byte j) 16 then 48 ∷ [] else [])
    ++ ((numeral 16 (u32 (byte j)) ++ (32 ∷ [])) ++ hex_text byte n (j + 1))

-- The same bytes as characters, with a dot for a control character.
abbrev pub char_text : (byte : ℕ → ℕ) → (n j : ℕ) → List ℕ
char_text byte zero j = []
char_text byte (suc n) j =
    (if ltb (byte j) 32 then 46 ∷ [] else u8 (byte j) ∷ []) ++ char_text byte n (j + 1)

-- A line of sixteen bytes.
abbrev pub line_text : (ds address : ℕ) (byte : ℕ → ℕ) (i : ℕ) → List ℕ
line_text ds address byte i =
    (numeral 16 (u32 ds) ++ (58 ∷ (numeral 16 (u32 (address + i * 16)) ++ (32 ∷ 32 ∷ []))))
    ++ (hex_text byte 16 (i * 16) ++ ((32 ∷ []) ++ (char_text byte 16 (i * 16) ++ (10 ∷ []))))

abbrev pub dump_text : (ds address : ℕ) (byte : ℕ → ℕ) (n i : ℕ) → List ℕ
dump_text ds address byte zero i = []
dump_text ds address byte (suc n) i =
    line_text ds address byte i ++ dump_text ds address byte n (i + 1)

printf-zero : Prints (48 ∷ []) (printf (48 ∷ []) [])
unfolding format
printf-zero t m = printf-format (48 ∷ []) [] t m

printf-space : Prints (32 ∷ []) (printf (32 ∷ []) [])
unfolding format
printf-space t m = printf-format (32 ∷ []) [] t m

printf-dot : Prints (46 ∷ []) (printf (46 ∷ []) [])
unfolding format
printf-dot t m = printf-format (46 ∷ []) [] t m

printf-line : Prints (10 ∷ []) (printf (10 ∷ []) [])
unfolding format
printf-line t m = printf-format (10 ∷ []) [] t m

printf-hex :
    (v : ℕ) → Prints (numeral 16 (u32 v) ++ (32 ∷ [])) (printf (37 ∷ 120 ∷ 32 ∷ []) (word v ∷ []))
unfolding format conversion Option.bind
printf-hex v t m = printf-format (37 ∷ 120 ∷ 32 ∷ []) (word v ∷ []) t m

printf-char : (v : ℕ) → Prints (u8 v ∷ []) (printf (37 ∷ 99 ∷ []) (word v ∷ []))
unfolding format conversion Option.bind
printf-char v t m = printf-format (37 ∷ 99 ∷ []) (word v ∷ []) t m

printf-pair :
    (v w : ℕ)
    → Prints
        (numeral 16 (u32 v) ++ (58 ∷ (numeral 16 (u32 w) ++ (32 ∷ 32 ∷ []))))
        (printf (37 ∷ 120 ∷ 58 ∷ 37 ∷ 120 ∷ 32 ∷ 32 ∷ []) (word v ∷ word w ∷ []))
unfolding format conversion Option.bind
printf-pair v w t m =
    printf-format (37 ∷ 120 ∷ 58 ∷ 37 ∷ 120 ∷ 32 ∷ 32 ∷ []) (word v ∷ word w ∷ []) t m

Prints-if :
    (b : Bool) (cs ds : List ℕ) (f g : Out → Option Out)
    → Prints cs f
    → Prints ds g
    → Prints (if b then cs else ds) (λ s. if b then f s else g s)
Prints-if true cs ds f g p q = p
Prints-if false cs ds f g p q = q

module _ (byte : ℕ → ℕ) (read : ℕ → Option ℕ) (limit : ℕ)
    (known : (j : ℕ) → j < limit → read j ≡ some (byte j)) where
  dump_hex-text : (n j : ℕ) → j + n ≤ limit → Prints (hex_text byte n j) (dump_hex read n j)
  unfolding dump_hex Option.bind
  dump_hex-text zero j inside = Prints-nothing
  dump_hex-text (suc n) j inside = rw (known j (omega arith)) (
      Prints-bind (if ltb (byte j) 16 then 48 ∷ [] else []) _
        (λ s. if ltb (byte j) 16 then printf (48 ∷ []) [] s else some s) _
        (Prints-if (ltb (byte j) 16) (48 ∷ []) [] (printf (48 ∷ []) []) (λ s. some s) printf-zero
          Prints-nothing)
        (Prints-bind _ (hex_text byte n (j + 1)) (printf (37 ∷ 120 ∷ 32 ∷ []) (word (byte j) ∷ []))
          (dump_hex read n (j + 1)) (printf-hex (byte j)) (dump_hex-text n (j + 1) (omega arith))))

  dump_chars-text : (n j : ℕ) → j + n ≤ limit → Prints (char_text byte n j) (dump_chars read n j)
  unfolding dump_chars Option.bind
  dump_chars-text zero j inside = Prints-nothing
  dump_chars-text (suc n) j inside = rw (known j (omega arith)) (
      Prints-bind (if ltb (byte j) 32 then 46 ∷ [] else u8 (byte j) ∷ []) (char_text byte n (j + 1))
        (λ s.
          if ltb (byte j) 32
          then printf (46 ∷ []) [] s
          else printf (37 ∷ 99 ∷ []) (word (byte j) ∷ []) s)
        (dump_chars read n (j + 1))
        (Prints-if (ltb (byte j) 32) _ _ (printf (46 ∷ []) [])
          (printf (37 ∷ 99 ∷ []) (word (byte j) ∷ [])) printf-dot (printf-char (byte j)))
        (dump_chars-text n (j + 1) (omega arith)))

  module _ (ds address : ℕ) where
    dump_line-text :
        (i : ℕ)
        → i * 16 + 16 ≤ limit
        → Prints (line_text ds address byte i) (dump_line ds address read i)
    unfolding dump_line
    dump_line-text i inside =
        Prints-bind _ _
          (printf (37 ∷ 120 ∷ 58 ∷ 37 ∷ 120 ∷ 32 ∷ 32 ∷ [])
            (word ds ∷ word (address + i * 16) ∷ []))
          _ (printf-pair ds (address + i * 16))
          (Prints-bind (hex_text byte 16 (i * 16)) _ (dump_hex read 16 (i * 16)) _
            (dump_hex-text 16 (i * 16) inside)
            (Prints-bind (32 ∷ []) _ (printf (32 ∷ []) []) _ printf-space (
              Prints-bind (char_text byte 16 (i * 16)) (10 ∷ []) (dump_chars read 16 (i * 16))
                (printf (10 ∷ []) []) (dump_chars-text 16 (i * 16) inside) printf-line)))

    dump_lines-text :
        (n i : ℕ)
        → (i + n) * 16 ≤ limit
        → Prints (dump_text ds address byte n i) (dump_lines ds address read n i)
    unfolding dump_lines
    dump_lines-text zero i inside = Prints-nothing
    dump_lines-text (suc n) i inside =
        Prints-bind (line_text ds address byte i) (dump_text ds address byte n (i + 1))
          (dump_line ds address read i) (dump_lines ds address read n (i + 1))
          (dump_line-text i (omega arith)) (dump_lines-text n (i + 1) (omega arith))

-- With one argument that spells an address, on any terminal, `virtdump` ends and shows `dump_text`
-- of the 256 bytes of memory from this address on: sixteen lines, each of the selector and the
-- address, of sixteen bytes as two hexadecimal digits and of the same bytes as characters, with a
-- dot for each below 32.
pub virtdump-text :
    (ds argv address : ℕ) (m : Memory)
    → parse_address m (load_word m argv) ≡ some address
    → Prints (dump_text ds address (λ j. load m (address + j)) 16 0) (virtdump ds 1 argv m)
unfolding virtdump Option.bind
virtdump-text ds argv address m e = rw e (
    dump_lines-text (λ j. load m (address + j)) (λ j. some (load m (address + j))) 256
      (λ j lt. refl) ds address 16 0 (omega arith))

-- The byte at offset `o` of a frame.
abbrev pub frame_byte : Phys → (frame o : ℕ) → ℕ
frame_byte p frame o = p.memory frame (o / 4) / 2 ^ (8 * (o % 4)) % 2 ^ 8

-- With one argument that spells an address whose frame has 256 bytes from there on, `physdump`
-- ends, shows `dump_text` of the bytes of the frame from this address on, and leaves the memory
-- manager as it was, TEMP_PAGE mapped as before.
pub physdump-text :
    (ds argv address : ℕ) (m : Memory) (p : Phys) (t : Tty) (b : Buffer)
    → parse_address m (load_word m argv) ≡ some address
    → address % 2 ^ 12 + 256 ≤ 2 ^ 12
    → (b' : Buffer) × (physdump ds 1 argv m (p, (t, b))
        ≡ some (
          p,
          (
            out_string
                (dump_text ds address
                  (λ j. frame_byte p (address / 2 ^ 12) (address % 2 ^ 12 + j))
                  16
                  0)
                t,
            b',
          ),
        ))
unfolding physdump Option.bind temp_byte temp_map_page temp_load
physdump-text ds argv address m p t b e room =
    let p1 = temp_map_page address p in
    let shown =
      dump_lines-text (λ j. frame_byte p (address / 2 ^ 12) (address % 2 ^ 12 + j))
        (temp_byte p1 address) 256 byte ds address 16 0 (omega arith) t b in
    let back : temp_page_info p / 4096 ≡ p.temp_page = omega arith in
    (shown.0, rw (e, shown.1, back) refl)
  where
    byte :
        (j : ℕ)
        → j < 256
        → temp_byte (temp_map_page address p) address j
          ≡ some (frame_byte p (address / 2 ^ 12) (address % 2 ^ 12 + j))
    byte j lt = rw (lt→ltb (address % 2 ^ 12 + j) (2 ^ 12) (omega arith)) refl
