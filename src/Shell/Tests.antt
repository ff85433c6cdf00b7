-- ===== src/Shell/Tests.antt =====
-- The theorems on the shell at a memory with the names of the commands and three lines.
use sandor_os.KernelHeap.{kmalloc_block}
use sandor_os.Prelude.{
  ℕ, zero, suc, ◌+◌, ◌-◌, ◌/◌, ◌%◌, ◌^◌, ◌<◌, ◌≤◌, ◌≡◌, refl, ap, ◌∙◌, inl, inr, some, List, [],
  ◌∷◌, arith, ltb, ◌==◌, if◌then◌else◌, get_or, ◌≢◌,
}
use sandor_os.Stdlib.{Memory, IsBytes, load, load_word}
use sandor_os.Stdlib.Strings.{CString}
use sandor_os.Stdlib.Strings.Order.{chars}
use sandor_os.Table.{entry}
use sandor_os.Tty.{Tty, tty_char, out_string}
use sandor_os.Tty.Number.{Buffer}
use sandor_os.PhysMemory.{Phys}
use sandor_os.VirtPages.{Manager}
use sandor_os.KernelHeap.Kmalloc.{kmalloc-first, with_heap}
use sandor_os.Console.{Console}
use sandor_os.Shell.{parse_address, physdump}
use sandor_os.Shell.Numbers.{Spelled, value, parse_address-value, hex_digit}
use sandor_os.Shell.Dumps.{dump_text, frame_byte, physdump-text}
use sandor_os.Shell.Commands.{Named, name, command_name, do_command}
use sandor_os.Shell.Choice.{Does, do_command-Does}
use sandor_os.Shell.Arguments.{Parsed, pars_input}
use sandor_os.Shell.Arguments.Command.{Alone, Copied, pars_input-Alone}

-- "12h", the pointer to it, "pd" and " pd".
abbrev lines : List ℕ
lines = 49 ∷ 50 ∷ 104 ∷ 0 ∷ 232 ∷ 3 ∷ 0 ∷ 0 ∷ 112 ∷ 100 ∷ 0 ∷ 32 ∷ 112 ∷ 100 ∷ 0 ∷ []

abbrev bytes : ℕ → ℕ
bytes x =
    if ltb x 1000
    then 0
    else if ltb x 2000
    then get_or lines (x - 1000) 0
    else get_or (command_name ((x - 2000) / 32)) ((x - 2000) % 32) 0

abbrev sample : Memory
sample x = bytes x % 256

sample-IsBytes : IsBytes sample
sample-IsBytes x = omega arith

digits : ℕ → ℕ
digits k = if k == 0 then 1 else 2

twelve : Spelled sample 1000 0 2 digits
unfolding digits load
twelve = record {
  some_digit = omega arith;
  word = omega arith;
  digits = each;
  ends = inr refl;
  prefix = inl (refl, (λ e. omega (arith, e)));
}
  where
    each : (k : ℕ) → k < 2 → hex_digit (load sample (1000 + (0 + k))) ≡ some (digits k)
    each zero lt = refl
    each (suc zero) lt = refl
    each (suc (suc k)) lt = absurd (omega arith)

parse_address-value_example : parse_address sample 1000 ≡ some (value digits 2)
parse_address-value_example = parse_address-value sample 1000 0 2 digits twelve

argument : load_word sample 1004 ≡ 1000
unfolding load_word load
argument = refl

parsed : parse_address sample (load_word sample 1004) ≡ some (value digits 2)
parsed = ap (parse_address sample) argument ∙ parse_address-value sample 1000 0 2 digits twelve

abbrev screen : Tty
screen = record {
  tty_width = 80;
  tty_height = 25;
  cursor = 0;
  text_attr = 7;
  tty_buffer = λ i. tty_char 32 7;
  tty_io_port = 980;
  ports = [];
}

abbrev phys : Phys
phys = record {
  memory = λ f i. i;
  temp_page = 5;
  free_page_count = 0;
  free_phys_memory_pointer = 0;
}

physdump-text_example :
    (b : Buffer) × (physdump 16 1 1004 sample (phys, (screen, (λ i. 0)))
      ≡ some (
        phys,
        (
          out_string
              (dump_text 16
                (value digits 2)
                (λ j. frame_byte phys (value digits 2 / 2 ^ 12) (value digits 2 % 2 ^ 12 + j))
                16
                0)
              screen,
          b,
        ),
      ))
unfolding digits
physdump-text_example =
    physdump-text 16 1004 (value digits 2) sample phys screen (λ i. 0) parsed (omega arith)

abbrev manager : Manager
manager = record {
  phys = phys;
  space = record {
    page_dir = 4096;
    start = 4096;
    end = 65536;
    virt_memory = record {
      block_count = 1;
      blocks = 4096;
      entries = λ i. entry 4096 2;
      table_size = 1;
    };
    dynamic_memory = record {
      block_count = 0;
      blocks = 8192;
      entries = λ i. entry 0 0;
      table_size = 1;
      heap = 12288;
      heap_size = 1;
    };
  };
}

abbrev console : Console
console = record {
  screen = (screen, (λ i. 0));
  keyboard = record { key_buffer = λ i. 0; key_buffer_head = 0; key_buffer_tail = 0; ports = [] };
  manager = manager;
  memory = sample;
}

letters :
    (m : Memory) (s : ℕ) → load m s ≢ 0 → load m (s + 1) ≢ 0 → (k : ℕ) → k < 2 → load m (s + k) ≢ 0
letters m s a b zero lt e = a (ap (load m) (omega arith) ∙ e)
letters m s a b (suc zero) lt e = b e
letters m s a b (suc (suc k)) lt e = absurd (omega arith)

pd : CString sample 1008 2
unfolding load
pd = record {
  ends = refl;
  inside = letters sample 1008 (λ e. omega (arith, e)) (λ e. omega (arith, e));
  nonnull = omega arith;
  room = omega arith;
}

abbrev len : ℕ → ℕ
len i = if i == 0 then 4 else if ltb i 3 then 2 else 0

named : Named sample 2000 len
unfolding load
named zero lt = record { ends = refl; inside = inside; nonnull = omega arith; room = omega arith }
  where
    inside : (k : ℕ) → k < 4 → load sample (2000 + k) ≢ 0
    inside zero lt e = omega (arith, e)
    inside (suc zero) lt e = omega (arith, e)
    inside (suc (suc zero)) lt e = omega (arith, e)
    inside (suc (suc (suc zero))) lt e = omega (arith, e)
    inside (suc (suc (suc (suc k)))) lt e = absurd (omega arith)
named (suc zero) lt = record {
  ends = refl;
  inside = letters sample 2032 (λ e. omega (arith, e)) (λ e. omega (arith, e));
  nonnull = omega arith;
  room = omega arith;
}
named (suc (suc zero)) lt = record {
  ends = refl;
  inside = letters sample 2064 (λ e. omega (arith, e)) (λ e. omega (arith, e));
  nonnull = omega arith;
  room = omega arith;
}
named (suc (suc (suc zero))) lt = record {
  ends = refl;
  inside = λ k h. absurd (omega arith);
  nonnull = omega arith;
  room = omega arith;
}
named (suc (suc (suc (suc zero)))) lt = record {
  ends = refl;
  inside = λ k h. absurd (omega arith);
  nonnull = omega arith;
  room = omega arith;
}
named (suc (suc (suc (suc (suc i))))) lt = absurd (omega arith)

texts : (i : ℕ) → i < 5 → name sample 2000 len i ≡ command_name i
unfolding load
texts zero lt = refl
texts (suc zero) lt = refl
texts (suc (suc zero)) lt = refl
texts (suc (suc (suc zero))) lt = refl
texts (suc (suc (suc (suc zero)))) lt = refl
texts (suc (suc (suc (suc (suc i))))) lt = absurd (omega arith)

do_command-Does_example :
    Does 16 1 1004 console (chars sample 1008 2) (do_command 16 2000 1008 1 1004 console)
do_command-Does_example =
    do_command-Does 16 1008 2 2000 1 1004 len console sample-IsBytes pd
      (record { named = named; texts = texts })

line : Alone sample 1011 1 2
unfolding load
line = record { spaces = spaces; letters = inside; ends = refl; room = omega arith }
  where
    spaces : (k : ℕ) → k < 1 → load sample (1011 + k) ≡ 32
    spaces zero lt = refl
    spaces (suc k) lt = absurd (omega arith)

    inside :
        (k : ℕ) → 1 ≤ k → k < 1 + 2 → (load sample (1011 + k) ≢ 32) × (load sample (1011 + k) ≢ 0)
    inside zero ge lt = absurd (omega arith)
    inside (suc zero) ge lt = ((λ e. omega (arith, e)), (λ e. omega (arith, e)))
    inside (suc (suc zero)) ge lt = ((λ e. omega (arith, e)), (λ e. omega (arith, e)))
    inside (suc (suc (suc k))) ge lt = absurd (omega arith)

-- The memory manager with a block of three bytes.
abbrev kmalloc_result : Manager
kmalloc_result = with_heap (kmalloc_block 3 manager.space.dynamic_memory).0 manager

abbrev before : Parsed
before = record { command = 0; argc = 1; argv = 1004 }

pars_input-Alone_example :
    (m : Memory) × (pars_input 1011 (before, console)
      ≡ some (
        record before { command = 12288 },
        record console { memory = m; manager = kmalloc_result },
      ))
    × Copied sample m 12288 (1011 + 1) 2
pars_input-Alone_example =
    pars_input-Alone 1011 1 2 12288 before console kmalloc_result sample-IsBytes line
      (kmalloc-first 3 manager refl (omega arith) (omega arith)) (omega arith) (inl (omega arith))
