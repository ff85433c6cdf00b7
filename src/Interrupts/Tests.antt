-- ===== src/Interrupts/Tests.antt =====
-- The theorem on the interrupt table at an empty heap.
use sandor_os.Prelude.{◌%◌, ◌≡◌, refl, some, [], arith}
use sandor_os.Stdlib.{IsBytes}
use sandor_os.Table.{entry}
use sandor_os.VirtPages.{Manager}
use sandor_os.KernelHeap.Kmalloc.{kmalloc-first}
use sandor_os.Interrupts.{Wrapper, Machine, zero_entry, set_int_handler}
use sandor_os.Interrupts.Vectors.{Fits, Routed, set_int_handler-Routed}

abbrev manager : Manager
manager = record {
  phys = record {
    memory = λ f i. 0;
    temp_page = 0;
    free_page_count = 0;
    free_phys_memory_pointer = 0;
  };
  space = record {
    page_dir = 4096;
    start = 4096;
    end = 65536;
    virt_memory = record {
      block_count = 1;
      blocks = 4096;
      entries = λ i. entry 4096 2;
      table_size = 1;
    };
    dynamic_memory = record {
      block_count = 0;
      blocks = 8192;
      entries = λ i. entry 0 0;
      table_size = 1;
      heap = 12288;
      heap_size = 1;
    };
  };
}

abbrev machine : Machine
machine = record {
  idt_address = 20480;
  idt = λ i. zero_entry;
  manager = manager;
  memory = λ x. x % 256;
  trace = [];
}

-- As interrupts.asm has it.
abbrev wrapper : Wrapper
wrapper = record {
  handler_wrapper_template = 1048576;
  wrapper_size = 14;
  call_handler_offset = 1;
  call_size = 5;
}

wrapper-Fits : Fits wrapper 12288
wrapper-Fits = record {
  inside = omega arith;
  room = omega arith;
  source = omega arith;
  behind = omega arith;
}

machine-IsBytes : IsBytes machine.memory
machine-IsBytes x = omega arith

set_int_handler-Routed_example :
    (s : Machine) × (set_int_handler wrapper 33 8 2000000 142 machine ≡ some s)
    × Routed wrapper 33 8 2000000 142 12288 machine s
set_int_handler-Routed_example =
    set_int_handler-Routed wrapper 33 8 2000000 142 12288 machine _ (omega arith) (omega arith)
      (omega arith) (omega arith) machine-IsBytes
      (kmalloc-first 14 manager refl (omega arith) (omega arith)) wrapper-Fits
