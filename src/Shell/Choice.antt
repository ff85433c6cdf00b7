-- ===== src/Shell/Choice.antt =====
-- What `do_command` of kernel/shell.c does for each name.
use mathlib.Core.Option
use sandor_os.Prelude.{ℕ, zero, suc, ◌<◌, ◌≡◌, ◌≢◌, refl, sym, ◌∙◌, Option, List, [], arith, ne→==}
use sandor_os.Stdlib.{Memory, IsBytes}
use sandor_os.Stdlib.Strings.{CString}
use sandor_os.Stdlib.Strings.Order.{chars}
use sandor_os.Tty.Printf.{printf}
use sandor_os.Console.{Console}
use sandor_os.Shell.{virtdump, physdump}
use sandor_os.Shell.Commands.{
  help_name, pd_name, vd_name, command_name, physical_help, virtual_help, invalid, help,
  run_command, do_command, Named, name, First, do_command-First,
}

-- What a command with a given name does: the help, the dump of a frame, the dump behind an address,
-- or for any other name a message.
pub data Does (ds argc argv : ℕ) (s : Console) (given : List ℕ) (result : Option Console)
    : Type 0 where
  helps :
      given ≡ help_name
      → result
        ≡ Option.map
            (λ o. record s { screen = o })
            (Option.bind (printf physical_help [] s.screen) (printf virtual_help []))
      → Does ds argc argv s given result
  dumps_frame :
      given ≡ pd_name
      → result
        ≡ Option.map
            (λ (p, o). record s { screen = o; manager = record (s.manager) { phys = p } })
            (physdump ds argc argv s.memory (s.manager.phys, s.screen))
      → Does ds argc argv s given result
  dumps_virtual :
      given ≡ vd_name
      → result ≡ Option.map (λ o. record s { screen = o }) (virtdump ds argc argv s.memory s.screen)
      → Does ds argc argv s given result
  refuses :
      given ≢ help_name
      → given ≢ pd_name
      → given ≢ vd_name
      → result ≡ Option.map (λ o. record s { screen = o }) (printf invalid [] s.screen)
      → Does ds argc argv s given result

-- The table of the names stands at `commands`.
pub record NameTable (m : Memory) (commands : ℕ) (len : ℕ → ℕ) : Type 0 where
  pub named : Named m commands len
  pub texts : (i : ℕ) → i < 5 → name m commands len i ≡ command_name i

First-Does :
    (ds argc argv : ℕ) (s : Console) (name_of : ℕ → List ℕ) (given : List ℕ) (i : ℕ)
    → ((j : ℕ) → j < 5 → name_of j ≡ command_name j)
    → First name_of given 0 5 i
    → Does ds argc argv s given (run_command ds i argc argv s)
unfolding run_command help
First-Does ds argc argv s name_of given zero texts f =
    helps (f.found (omega arith) ∙ texts 0 (omega arith)) refl
First-Does ds argc argv s name_of given (suc zero) texts f =
    dumps_frame (f.found (omega arith) ∙ texts 1 (omega arith)) refl
First-Does ds argc argv s name_of given (suc (suc zero)) texts f =
    dumps_virtual (f.found (omega arith) ∙ texts 2 (omega arith)) refl
First-Does ds argc argv s name_of given (suc (suc (suc i))) texts f =
    let other = λ (j : ℕ) (lt : j < 3) (e : given ≡ command_name j).
      f.earlier j (omega arith) (omega arith) (e ∙ sym (texts j (omega arith))) in
    refuses (other 0 (omega arith)) (other 1 (omega arith)) (other 2 (omega arith)) (
      rw
        (
          ne→== (suc (suc (suc i))) 0 (omega arith),
          ne→== (suc (suc (suc i))) 1 (omega arith),
          ne→== (suc (suc (suc i))) 2 (omega arith),
        )
        refl)

-- In a memory of bytes with the table of the names "help", "pd" and "vd" and a given string,
-- `do_command` prints the two lines of the help for "help", runs `physdump` for "pd" and `virtdump`
-- for "vd", and for every other string, the empty one included, prints that the command is invalid.
pub do_command-Does :
    (ds command a commands argc argv : ℕ) (len : ℕ → ℕ) (s : Console)
    → IsBytes s.memory
    → CString s.memory command a
    → NameTable s.memory commands len
    → Does ds argc argv s (chars s.memory command a) (do_command ds commands command argc argv s)
do_command-Does ds command a commands argc argv len s bytes given table =
    let (i, e, first) =
      do_command-First ds command a commands argc argv len s bytes given table.named in
    rw e (First-Does ds argc argv s (name s.memory commands len) _ i table.texts first)
