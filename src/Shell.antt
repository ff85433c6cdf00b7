-- ===== src/Shell.antt =====
-- The commands of kernel/shell.c: the parsing of an address and the two dumps.
pub mod Numbers
pub mod Dumps
pub mod Commands
pub mod Choice
pub mod Arguments
mod Tests
use sandor_os.Prelude.{
  ℕ, zero, suc, ◌+◌, ◌-◌, ◌*◌, ◌/◌, ◌%◌, ◌^◌, ◌<◌, ◌≤◌, ◌≡◌, refl, sym, ap, ◌∙◌, ◌⊎◌, inl, inr, ◌↔◌,
  Bool, true, false, ◌&&◌, ◌||◌, Option, none, some, List, [], ◌∷◌, ◌++◌, arith, ltb, leb, ◌==◌,
  if◌then◌else◌, u8, u16, u32, sub32, shl, shr, Bool-cases, lt→ltb, le→ltb, leb→le, leb→gt, ltb→lt,
  ltb→ge, le→leb, lt→leb, eq→==, ne→==, ==→eq, ==→ne,
}
use mathlib.Core.Option
use sandor_os.Stdlib.{Memory, load, load_word}
use sandor_os.PhysMemory.{Phys, temp_map_page, temp_load}
use sandor_os.Tty.Printf.{Arg, word, Out, printf}

-- A `char` as a 32-bit word.
abbrev pub extended : ℕ → ℕ
extended c = if leb 128 c then c + (2 ^ 32 - 256) else c

-- The switch on a digit: 'A' is 65 and 'a' 97.
abbrev pub digit_value : (c : ℕ) → ℕ
digit_value c =
    if c == 65 || c == 97
    then 10
    else if c == 66 || c == 98
    then 11
    else if c == 67 || c == 99
    then 12
    else if c == 68 || c == 100
    then 13
    else if c == 69 || c == 101
    then 14
    else if c == 70 || c == 102
    then 15
    else sub32 (extended c) 48

-- The first index from `j` on of a zero or of 'h'.
unfoldable pub arg_end : (fuel j : ℕ) → Memory → (arg : ℕ) → Option ℕ
arg_end zero j m arg = none
arg_end (suc fuel) j m arg =
    let rest = arg_end fuel (u32 (j + 1)) m arg in
    if load m (arg + j) == 0 || load m (arg + j) == 104 then some j else rest

-- The loop over the digits, the last one first. Its ninth round would shift by 32, which has no
-- defined value: no result.
unfoldable pub digits_loop : (rounds j k limit address : ℕ) → Memory → (arg : ℕ) → Option ℕ
digits_loop zero j k limit address m arg = none
digits_loop (suc rounds) j k limit address m arg =
    let address' = u32 (address + shl (digit_value (load m (arg + j))) k) in
    let rest = digits_loop rounds (sub32 j 1) (k + 4) limit address' m arg in
    if j == limit then some address' else rest

-- The address that an argument spells; 120 is 'x'.
unfoldable pub parse_address : Memory → (arg : ℕ) → Option ℕ
unfolding arg_end digits_loop
parse_address m arg =
    Option.bind (arg_end (2 ^ 32) 0 m arg)
      (λ j. digits_loop 8 (sub32 j 1) 0 (if load m (arg + 1) == 120 then 2 else 0) 0 m arg)

-- The bytes from `j` on in hexadecimal; `read` is none at a page fault.
unfoldable pub dump_hex : (read : ℕ → Option ℕ) (n j : ℕ) → Out → Option Out
dump_hex read zero j s = some s
dump_hex read (suc n) j s = Option.bind (read j) (λ output.
    Option.bind (if ltb output 16 then printf (48 ∷ []) [] s else some s) (λ s1.
      Option.bind (printf (37 ∷ 120 ∷ 32 ∷ []) (word output ∷ []) s1) (dump_hex read n (j + 1))))

-- The same as characters.
unfoldable pub dump_chars : (read : ℕ → Option ℕ) (n j : ℕ) → Out → Option Out
dump_chars read zero j s = some s
dump_chars read (suc n) j s = Option.bind (read j) (λ output.
    Option.bind
      (if ltb output 32 then printf (46 ∷ []) [] s else printf (37 ∷ 99 ∷ []) (word output ∷ []) s)
      (dump_chars read n (j + 1)))

-- One line, "%x:%x  " and the sixteen bytes twice; `ds` is the data segment's selector.
unfoldable pub dump_line : (ds address : ℕ) (read : ℕ → Option ℕ) (i : ℕ) → Out → Option Out
unfolding dump_hex dump_chars
dump_line ds address read i s =
    Option.bind
      (printf (37 ∷ 120 ∷ 58 ∷ 37 ∷ 120 ∷ 32 ∷ 32 ∷ []) (word ds ∷ word (address + i * 16) ∷ []) s)
      (λ s1. Option.bind (dump_hex read 16 (i * 16) s1) (λ s2.
        Option.bind (printf (32 ∷ []) [] s2)
          (λ s3. Option.bind (dump_chars read 16 (i * 16) s3) (printf (10 ∷ []) []))))

unfoldable pub dump_lines : (ds address : ℕ) (read : ℕ → Option ℕ) (n i : ℕ) → Out → Option Out
unfolding dump_line
dump_lines ds address read zero i s = some s
dump_lines ds address read (suc n) i s =
    Option.bind (dump_line ds address read i s) (dump_lines ds address read n (i + 1))

-- The two messages of a wrong number of arguments: "<name> takes one value" and
-- "you passed %x value".
abbrev pub takes_one : List ℕ
takes_one =
    32 ∷ 116 ∷ 97 ∷ 107 ∷ 101 ∷ 115 ∷ 32 ∷ 111 ∷ 110 ∷ 101 ∷ 32 ∷ 118 ∷ 97 ∷ 108 ∷ 117 ∷ 101 ∷ 10
    ∷ []

abbrev pub you_passed : List ℕ
you_passed =
    121 ∷ 111 ∷ 117 ∷ 32 ∷ 112 ∷ 97 ∷ 115 ∷ 115 ∷ 101 ∷ 100 ∷ 32 ∷ 37 ∷ 120 ∷ 32 ∷ 118 ∷ 97 ∷ 108
    ∷ 117 ∷ 101 ∷ 10 ∷ []

abbrev pub physdump_name : List ℕ
physdump_name = 112 ∷ 104 ∷ 121 ∷ 115 ∷ 100 ∷ 117 ∷ 109 ∷ 112 ∷ []

abbrev pub virtdump_name : List ℕ
virtdump_name = 118 ∷ 105 ∷ 114 ∷ 116 ∷ 100 ∷ 117 ∷ 109 ∷ 112 ∷ []

unfoldable pub wrong_count : (name : List ℕ) (argc : ℕ) → Out → Option Out
wrong_count name argc s =
    Option.bind (printf (name ++ takes_one) [] s) (printf you_passed (word argc ∷ []))

-- `argv[0]` is the word at `argv`.
unfoldable pub virtdump : (ds argc argv : ℕ) → Memory → Out → Option Out
unfolding parse_address dump_lines wrong_count
virtdump ds argc argv m s =
    if argc == 1
    then Option.bind (parse_address m (load_word m argv))
        (λ address. dump_lines ds address (λ j. some (load m (address + j))) 16 0 s)
    else wrong_count virtdump_name argc s

-- The byte `j` behind the address on the frame that is mapped at TEMP_PAGE; the next page is not
-- mapped.
unfoldable pub temp_byte : Phys → (address j : ℕ) → Option ℕ
temp_byte p address j =
    let o = address % 2 ^ 12 + j in
    if ltb o (2 ^ 12) then some (temp_load p (o / 4) / 2 ^ (8 * (o % 4)) % 2 ^ 8) else none

-- The word at TEMP_PAGE_INFO.
abbrev pub temp_page_info : Phys → ℕ
temp_page_info p = p.temp_page * 2 ^ 12 + 4095

unfoldable pub physdump : (ds argc argv : ℕ) → Memory → Phys × Out → Option (Phys × Out)
unfolding parse_address dump_lines wrong_count temp_byte
physdump ds argc argv m (p, s) =
    if argc == 1
    then Option.bind (parse_address m (load_word m argv)) (λ address.
      let p1 = temp_map_page address p in
      Option.map (λ s1. (temp_map_page (temp_page_info p) p1, s1))
        (dump_lines ds address (temp_byte p1 address) 16 0 s))
    else Option.map (λ s1. (p, s1)) (wrong_count physdump_name argc s)
