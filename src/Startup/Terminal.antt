-- ===== src/Startup/Terminal.antt =====
-- `init_tty` of kernel/tty.c: the terminal takes its sizes and the cursor from the BIOS data area.
use sandor_os.VirtPages.{Manager, alloc_virt_pages}
use sandor_os.Interrupts.{Machine, Wrapper, set_int_handler, irq_0}
use sandor_os.Keyboard.{Keyboard, init_keys}
use sandor_os.Tty.{Tty}
use sandor_os.Startup.Clone.{virt_load}
use sandor_os.PhysMemory.{Phys}
use sandor_os.Prelude.{ℕ, ◌+◌, ◌*◌, ◌/◌, ◌%◌, ◌^◌, Option, u32}
use mathlib.Core.Option

-- The byte and the 16-bit word at a virtual address of the address space with the directory
-- `page_dir`; `none` is a page fault.
unfoldable pub virt_byte : (page_dir vaddr : ℕ) → Phys → Option ℕ
virt_byte page_dir vaddr s =
    Option.map (λ w. w / 2 ^ (vaddr % 4 * 8) % 2 ^ 8) (virt_load page_dir (u32 vaddr) s)

unfoldable pub virt_half : (page_dir vaddr : ℕ) → Phys → Option ℕ
virt_half page_dir vaddr s =
    Option.bind (virt_byte page_dir vaddr s)
      (λ low. Option.map (λ high. low + high * 2 ^ 8) (virt_byte page_dir (vaddr + 1) s))

-- `screen_address` is where the video memory is mapped, whose cells `tty` has.
pub record Terminal : Type 0 where
  pub tty : Tty
  pub screen_address : ℕ
  pub keyboard : Keyboard
  pub machine : Machine

-- What the BIOS leaves behind `vaddr`: the width, the cursor's column and row, and the port.
pub record BiosData : Type 0 where
  pub width : ℕ
  pub column : ℕ
  pub row : ℕ
  pub port : ℕ

unfoldable pub read_bios : (page_dir vaddr : ℕ) → Phys → Option BiosData
read_bios page_dir vaddr s = Option.bind (virt_half page_dir (vaddr + 1098) s) (λ width.
    Option.bind (virt_half page_dir (vaddr + 1123) s) (λ port.
      Option.bind (virt_byte page_dir (vaddr + 1105) s) (λ row.
        Option.map (λ column. record { width = width; column = column; row = row; port = port })
          (virt_byte page_dir (vaddr + 1104) s))))

unfoldable pub set_screen : BiosData → Tty → Tty
set_screen b t = record t {
  tty_width = b.width;
  tty_height = 25;
  tty_io_port = b.port;
  cursor = u32 (b.row * b.width + b.column);
  text_attr = 7;
}

-- The two pages: the video memory at 0xb8000 and the BIOS data area in frame 0.
unfoldable pub map_screen : Manager → Option (Manager × ℕ × ℕ)
map_screen mm = Option.bind (alloc_virt_pages 0 753664 1 4095 mm) (λ (mm1, screen).
    Option.map (λ (mm2, vaddr). (mm2, screen, vaddr)) (alloc_virt_pages 0 0 1 4095 mm1))

-- The handler of the keyboard's interrupt is set behind the timer's; 142 is 0x8e.
unfoldable pub init_tty : Wrapper → (keyboard_handler : ℕ) → Terminal → Option Terminal
init_tty w keyboard_handler t = Option.bind (map_screen t.machine.manager) (λ (mm, screen, vaddr).
    Option.bind (read_bios mm.space.page_dir vaddr mm.phys) (λ bios.
      Option.map
        (λ machine. record {
          tty = set_screen bios t.tty;
          screen_address = screen;
          keyboard = init_keys t.keyboard;
          machine = machine;
        })
        (set_int_handler w (irq_0 + 1) 8 keyboard_handler 142 (record t.machine { manager = mm }))))
