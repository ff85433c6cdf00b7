-- ===== src/Console/Tests.antt =====
-- The theorem on `in_string` at the keys of the line "hi".
use sandor_os.Console.Steps.{line_of}
use mathlib.Core.Option
use sandor_os.Prelude.{◌%◌, ◌≡◌, refl, some, [], ◌∷◌, arith}
use sandor_os.Table.{entry}
use sandor_os.Tty.{tty_char}
use sandor_os.Keyboard.Queue.{init_keys-Holds}
use sandor_os.Keyboard.{init_keys}
use sandor_os.Keyboard.Scancodes.{Rounds, character}
use sandor_os.Keyboard.Scancodes.Typed.{Rests, next_char}
use sandor_os.VirtPages.{Manager}
use sandor_os.KernelHeap.{kmalloc_block}
use sandor_os.KernelHeap.Kmalloc.{with_heap, kmalloc-first}
use sandor_os.Console.{Console, in_string, Line, edit}
use sandor_os.Console.Editing.{edited, After, Holds, edit-Holds}
use sandor_os.Console.Lines.{Returned, in_string-line_of}

abbrev manager : Manager
manager = record {
  phys = record {
    memory = λ f i. 0;
    temp_page = 0;
    free_page_count = 0;
    free_phys_memory_pointer = 0;
  };
  space = record {
    page_dir = 4096;
    start = 4096;
    end = 65536;
    virt_memory = record {
      block_count = 1;
      blocks = 4096;
      entries = λ i. entry 4096 2;
      table_size = 1;
    };
    dynamic_memory = record {
      block_count = 0;
      blocks = 8192;
      entries = λ i. entry 0 0;
      table_size = 1;
      heap = 12288;
      heap_size = 1;
    };
  };
}

abbrev console : Console
console = record {
  screen = (
    record {
      tty_width = 80;
      tty_height = 25;
      cursor = 0;
      text_attr = 7;
      tty_buffer = λ i. tty_char 32 7;
      tty_io_port = 980;
      ports = [];
    },
    (λ i. 0),
  );
  keyboard =
      init_keys
        (record { key_buffer = λ i. 0; key_buffer_head = 0; key_buffer_tail = 0; ports = [] });
  manager = manager;
  memory = λ x. x % 256;
}

-- h, x, backspace, i and the line break; two of them come later.
abbrev keys : Rounds
keys = ((35, 0) ∷ (45, 0) ∷ (14, 0) ∷ []) ∷ [] ∷ [] ∷ ((23, 0) ∷ []) ∷ ((28, 0) ∷ []) ∷ []

keys-Rests : Rests keys []
unfolding Rests
keys-Rests = (omega arith, (omega arith, (omega arith, (omega arith, (omega arith, tt)))))

typed : line_of 6 keys [] [] ≡ some (104 ∷ 105 ∷ [], [], [])
unfolding line_of next_char character edited Option.bind
typed = refl

in_string-line_of_example : Returned 12288 (104 ∷ 105 ∷ [], [], []) (in_string keys console)
in_string-line_of_example =
    in_string-line_of keys [] console
      (with_heap (kmalloc_block 16 manager.space.dynamic_memory).0 manager) 12288
      (104 ∷ 105 ∷ [], [], []) (init_keys-Holds _) keys-Rests (λ x. omega arith)
      (kmalloc-first 16 manager refl (omega arith) (omega arith)) (omega arith) typed

abbrev begun : Line
begun = record { position = 0; buffer_size = 16; buffer = 12288 }

begun-Holds : Holds [] begun console.memory
begun-Holds = record {
  bytes = λ x. omega arith;
  position = refl;
  room = omega arith;
  fits = omega arith;
  held = λ k lt. absurd (omega arith);
}

edit-Holds_example : After (edited 104 []) (edit 104 (begun, console))
edit-Holds_example =
    edit-Holds 104 [] begun console (omega arith) begun-Holds (λ full. absurd (omega (arith, full)))
