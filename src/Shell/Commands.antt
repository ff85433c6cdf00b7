-- ===== src/Shell/Commands.antt =====
-- The commands of kernel/shell.c and the choice between them.
use mathlib.Core.Path.{subst}
use native.Mathlib.Decide.{ℕ_discrete}
use sandor_os.Prelude.{
  ℕ, zero, suc, ◌+◌, ◌*◌, ◌<◌, ◌≤◌, ◌≡◌, refl, sym, ap, ◌∙◌, inl, inr, Bool, true, false, Option,
  none, some, List, [], ◌∷◌, arith, ◌==◌, if◌then◌else◌, Bool-cases, ==→eq, ◌≢◌, ℤ, pos, negsuc,
}
use mathlib.Core.Option
use sandor_os.PhysMemory.{Phys}
use sandor_os.Stdlib.{Memory, IsBytes}
use sandor_os.Stdlib.Strings.{CString, strcmp}
use sandor_os.Stdlib.Strings.Order.{chars, strcmp-zero_iff, strcmp-compare_chars, compare_chars}
use sandor_os.Tty.Printf.{Out, printf}
use sandor_os.Console.{Console}
use sandor_os.Shell.{virtdump, physdump}

abbrev pub command_size : ℕ
command_size = 32

-- The names in `commands`: "help", "pd", "vd" and two that are empty.
abbrev pub help_name : List ℕ
help_name = 104 ∷ 101 ∷ 108 ∷ 112 ∷ []

abbrev pub pd_name : List ℕ
pd_name = 112 ∷ 100 ∷ []

abbrev pub vd_name : List ℕ
vd_name = 118 ∷ 100 ∷ []

abbrev pub command_name : ℕ → List ℕ
command_name i =
    if i == 0 then help_name else if i == 1 then pd_name else if i == 2 then vd_name else []

-- "pd - physical dump" and "vd - virtual dump".
abbrev pub physical_help : List ℕ
physical_help =
    112 ∷ 100 ∷ 32 ∷ 45 ∷ 32 ∷ 112 ∷ 104 ∷ 121 ∷ 115 ∷ 105 ∷ 99 ∷ 97 ∷ 108 ∷ 32 ∷ 100 ∷ 117 ∷ 109
    ∷ 112 ∷ 10 ∷ []

abbrev pub virtual_help : List ℕ
virtual_help =
    118 ∷ 100 ∷ 32 ∷ 45 ∷ 32 ∷ 118 ∷ 105 ∷ 114 ∷ 116 ∷ 117 ∷ 97 ∷ 108 ∷ 32 ∷ 100 ∷ 117 ∷ 109 ∷ 112
    ∷ 10 ∷ []

unfoldable pub help : Out → Option Out
help s = Option.bind (printf physical_help [] s) (printf virtual_help [])

abbrev pub invalid : List ℕ
invalid =
    73 ∷ 110 ∷ 118 ∷ 97 ∷ 108 ∷ 105 ∷ 100 ∷ 32 ∷ 99 ∷ 111 ∷ 109 ∷ 109 ∷ 97 ∷ 110 ∷ 100 ∷ 10 ∷ []

abbrev pub is_zero : ℤ → Bool
is_zero (pos n) = n == 0
is_zero (negsuc n) = false

-- The loop of `do_command` from command `i` on; `n` are left.
unfoldable pub find_command : (n i : ℕ) → Memory → (command commands : ℕ) → Option ℕ
find_command zero i m command commands = some i
find_command (suc n) i m command commands =
    Option.bind (strcmp m command (commands + i * command_size)) (λ r.
      let rest = find_command n (i + 1) m command commands in if is_zero r then some i else rest)

abbrev pub put_screen : Console → Out → Console
put_screen s o = record s { screen = o }

abbrev pub put_phys : Console → Phys × Out → Console
put_phys s (p, o) = record s { screen = o; manager = record (s.manager) { phys = p } }

-- The switch; `ds` is the data segment's selector.
unfoldable pub run_command : (ds i argc argv : ℕ) → Console → Option Console
unfolding help
run_command ds i argc argv s =
    if i == 0
    then Option.map (put_screen s) (help s.screen)
    else if i == 1
    then Option.map (put_phys s) (physdump ds argc argv s.memory (s.manager.phys, s.screen))
    else if i == 2
    then Option.map (put_screen s) (virtdump ds argc argv s.memory s.screen)
    else Option.map (put_screen s) (printf invalid [] s.screen)

-- There are five commands, the last two with empty names.
unfoldable pub do_command : (ds commands command argc argv : ℕ) → Console → Option Console
unfolding find_command run_command
do_command ds commands command argc argv s =
    Option.bind (find_command 5 0 s.memory command commands) (λ i. run_command ds i argc argv s)

abbrev or_pos : Option ℤ → ℤ
or_pos none = pos 0
or_pos (some z) = z

is_zero-eq : (z : ℤ) → is_zero z ≡ true → z ≡ pos 0
is_zero-eq (pos n) e = ap pos (==→eq n 0 e)
is_zero-eq (negsuc n) e = absurd cc

is_zero-ne : (z : ℤ) → is_zero z ≡ false → z ≢ pos 0
is_zero-ne z e z0 = let on : is_zero z ≡ true = rw z0 refl in absurd cc

-- The names of the five commands stand in memory.
abbrev pub Named : (m : Memory) (commands : ℕ) (len : ℕ → ℕ) → Type 0
Named m commands len = (i : ℕ) → i < 5 → CString m (commands + i * command_size) (len i)

-- The characters of a command's name.
abbrev pub name : (m : Memory) (commands : ℕ) (len : ℕ → ℕ) → ℕ → List ℕ
name m commands len i = chars m (commands + i * command_size) (len i)

-- Of the commands from `i` to `i + n`, the one at `r` is the first with the given name, and there is
-- none if `r` is `i + n`.
pub record First (name_of : ℕ → List ℕ) (given : List ℕ) (i n r : ℕ) : Type 0 where
  pub from : i ≤ r
  pub upto : r ≤ i + n
  pub earlier : (j : ℕ) → i ≤ j → j < r → given ≢ name_of j
  pub found : r < i + n → given ≡ name_of r

module _ (m : Memory) (bytes : IsBytes m) (command a commands : ℕ) (len : ℕ → ℕ)
    (s : CString m command a) (named : Named m commands len) where
  find_command-First :
      (n i : ℕ)
      → i + n ≤ 5
      → (r : ℕ) × (find_command n i m command commands ≡ some r)
        × First (name m commands len) (chars m command a) i n r
  unfolding find_command Option.bind
  find_command-First zero i le = (
    i,
    refl,
    record {
      from = omega arith;
      upto = omega arith;
      earlier = λ j ge lt. absurd (omega arith);
      found = λ lt. absurd (omega arith);
    },
  )
  find_command-First (suc n) i le =
      let t = named i (omega arith) in
      let z = compare_chars (chars m command a) (name m commands len i) in
      let e = strcmp-compare_chars m command (commands + i * command_size) a (len i) s t in
      let iff = strcmp-zero_iff m bytes command (commands + i * command_size) a (len i) s t in
      elim (Bool-cases (is_zero z)) [
        | inl on ↦
            rw (e, on)
              (
                i,
                refl,
                record {
                  from = omega arith;
                  upto = omega arith;
                  earlier = λ j ge lt. absurd (omega arith);
                  found = λ lt. iff.0 (e ∙ ap some (is_zero-eq z on));
                },
              )
        | inr off ↦
            let (r, e', f) = find_command-First n (i + 1) (omega arith) in
            rw (e, off)
              (
                r,
                e',
                record {
                  from = omega (arith, f.from);
                  upto = omega (arith, f.upto);
                  earlier = λ j ge lt. elim (ℕ_discrete j i) [
                    | yes here ↦ λ same. is_zero-ne z off (
                        ap or_pos (
                          sym e
                          ∙ iff.1
                              (subst (λ k. chars m command a ≡ name m commands len k) here same)))
                    | no later ↦ f.earlier j (omega arith) lt
                  ];
                  found = λ lt. f.found (omega arith);
                },
              )
      ]

-- The choice, by the place of the name.
pub do_command-First :
    (ds command a commands argc argv : ℕ) (len : ℕ → ℕ) (s : Console)
    → IsBytes s.memory
    → CString s.memory command a
    → Named s.memory commands len
    → (i : ℕ) × (do_command ds commands command argc argv s ≡ run_command ds i argc argv s)
      × First (name s.memory commands len) (chars s.memory command a) 0 5 i
unfolding do_command Option.bind
do_command-First ds command a commands argc argv len s bytes given named =
    let (i, e, first) =
      find_command-First s.memory bytes command a commands len given named 5 0 (omega arith) in
    (i, rw e refl, first)
