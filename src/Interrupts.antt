-- ===== src/Interrupts.antt =====
-- The interrupt controller, the timer and the interrupt table: kernel/PIC.c, kernel/PIT.c and
-- kernel/interrupts.c.
pub mod Vectors
mod Tests
use sandor_os.Prelude.{
  ℕ, zero, suc, ◌+◌, ◌-◌, ◌*◌, ◌/◌, ◌%◌, ◌^◌, ◌<◌, ◌≤◌, ◌≡◌, refl, sym, ap, ◌∙◌, ◌⊎◌, inl, inr, ◌↔◌,
  Bool, true, false, ◌&&◌, ◌||◌, Option, none, some, List, [], ◌∷◌, ◌++◌, arith, ltb, leb, ◌==◌,
  if◌then◌else◌, u8, u16, u32, sub32, shl, shr, Bool-cases, lt→ltb, le→ltb, leb→le, leb→gt, ltb→lt,
  ltb→ge, le→leb, lt→leb, eq→==, ne→==, ==→eq, ==→ne, minus_one,
}
use mathlib.Core.Option
use sandor_os.Io.{Trace, Device, outportb, inportb}
use sandor_os.Stdlib.{Memory, load, store, store_word, memset, memcpy}
use sandor_os.VirtPages.{Manager, alloc_virt_pages}
use sandor_os.KernelHeap.Kmalloc.{kmalloc}

abbrev pub pic_1_ctrl : ℕ
pic_1_ctrl = 32

abbrev pub pic_1_data : ℕ
pic_1_data = 33

abbrev pub pic_2_ctrl : ℕ
pic_2_ctrl = 160

abbrev pub pic_2_data : ℕ
pic_2_data = 161

abbrev pub icw_1 : ℕ
icw_1 = 17

abbrev pub irq_0 : ℕ
irq_0 = 32

abbrev pub irq_8 : ℕ
irq_8 = 40

unfoldable pub init_master_pic : Trace → Trace
init_master_pic t =
    outportb pic_1_data 1
      (outportb pic_1_data 4 (outportb pic_1_data irq_0 (outportb pic_1_ctrl icw_1 t)))

unfoldable pub init_slave_pic : Trace → Trace
init_slave_pic t =
    outportb pic_2_data 1
      (outportb pic_2_data 2 (outportb pic_2_data irq_8 (outportb pic_2_ctrl icw_1 t)))

-- `~0` is the word -1.
unfoldable pub init_pic : Trace → Trace
unfolding init_master_pic init_slave_pic
init_pic t = outportb pic_1_data minus_one (init_slave_pic (init_master_pic t))

-- The interrupt table, the memory manager, memory and the ports. An entry of the table is kept as
-- the record that stands at its index.
pub record IntDesc : Type 0 where
  pub address_0_15 : ℕ
  pub selector : ℕ
  pub reserved : ℕ
  pub type : ℕ
  pub address_16_31 : ℕ

pub record Machine : Type 0 where
  pub idt_address : ℕ
  pub idt : ℕ → IntDesc
  pub manager : Manager
  pub memory : Memory
  pub trace : Trace

-- What interrupts.asm defines: the code of the wrapper, its size, where it calls the handler and the
-- size of that call.
pub record Wrapper : Type 0 where
  pub handler_wrapper_template : ℕ
  pub wrapper_size : ℕ
  pub call_handler_offset : ℕ
  pub call_size : ℕ

abbrev pub set_entry : (index : ℕ) → IntDesc → (ℕ → IntDesc) → ℕ → IntDesc
set_entry index d idt i = if i == index then d else idt i

-- The bytes of the wrapper at `temp`, with the distance to `handler` behind the call's first byte.
unfoldable pub write_wrapper : Wrapper → (handler temp : ℕ) → Memory → Memory
write_wrapper w handler temp m =
    let copy = memcpy temp w.handler_wrapper_template w.wrapper_size m in
    store_word copy (u32 (temp + w.call_handler_offset + 1))
      (sub32 handler (u32 (temp + w.call_handler_offset + w.call_size)))

unfoldable pub set_int_handler : Wrapper → (index sel handler type : ℕ) → Machine → Option Machine
unfolding write_wrapper
set_int_handler w index sel handler type s =
    Option.map
      (λ (mm, temp). record s {
        idt =
            set_entry (u8 index)
              (record {
                address_0_15 = temp % 2 ^ 16;
                selector = u16 sel;
                reserved = 0;
                type = u8 type;
                address_16_31 = u16 (temp / 2 ^ 16);
              })
              s.idt;
        manager = mm;
        memory = write_wrapper w handler temp s.memory;
      })
      (kmalloc w.wrapper_size s.manager)

abbrev pub trace_of : (Trace → Trace) → Machine → Machine
trace_of f s = record s { trace = f s.trace }

-- The commands of the timer; 142 is 0x8e.
unfoldable pub init_pit : Wrapper → (timer_handler : ℕ) → Machine → Option Machine
init_pit w timer_handler s =
    set_int_handler w irq_0 8 timer_handler 142
      (trace_of (λ t. outportb 64 255 (outportb 64 255 (outportb 67 52 t))) s)

-- The loop over the entries from `i` on; 238 is 0xee.
unfoldable pub set_all : Wrapper → (default_handler n i : ℕ) → Machine → Option Machine
set_all w default_handler zero i s = some s
set_all w default_handler (suc n) i s =
    Option.bind (set_int_handler w i 8 default_handler 238 s) (set_all w default_handler n (i + 1))

abbrev pub zero_entry : IntDesc
zero_entry = record { address_0_15 = 0; selector = 0; reserved = 0; type = 0; address_16_31 = 0 }

-- `memset` clears the 256 entries of the table, 8 bytes each.
unfoldable pub init_interrupts :
    Wrapper → (default_handler timer_handler : ℕ) → Machine → Option Machine
unfolding init_pic init_pit
init_interrupts w default_handler timer_handler s =
    Option.bind (alloc_virt_pages 0 minus_one 1 4095 s.manager) (λ (mm, idt).
      Option.bind
        (set_all w default_handler 256 0 (record s {
          idt_address = idt;
          idt = λ i. if ltb i 256 then zero_entry else s.idt i;
          manager = mm;
        }))
        (λ s1. init_pit w timer_handler (trace_of init_pic s1)))

-- The byte at the start of the video memory is raised by one.
unfoldable pub timer_handler : Memory → Memory
timer_handler m = store m 753664 (load m 753664 + 1)

module _ (device : Device) where
  -- `i & ~1` and `i & ~2` clear a bit of the mask.
  unfoldable pub enable_pit : Trace → Trace
  enable_pit t = let (i, t') = inportb device pic_1_data t in outportb pic_1_data (i / 2 * 2) t'

  unfoldable pub enable_keyboard : Trace → Trace
  enable_keyboard t =
      let (i, t') = inportb device pic_1_data t in outportb pic_1_data (i / 4 * 4 + i % 2) t'
