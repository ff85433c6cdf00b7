-- ===== src/Startup/Kernel.antt =====
-- `kernel_main` of kernel/main.cpp, up to the switch to user mode.
use sandor_os.AddressSpace.{AddressSpace}
use sandor_os.Gdt.{Descriptors, gdt_install}
use sandor_os.Interrupts.{Wrapper, init_interrupts}
use sandor_os.Tty.{clear_screen}
use sandor_os.Startup.Terminal.{Terminal, init_tty}
use sandor_os.Startup.Clone.{change_address_space}
use sandor_os.Startup.Spaces.{init_memory_manager}
use sandor_os.Startup.{Linker, MmapEntry}
use sandor_os.Prelude.{ℕ, Option, List}
use mathlib.Core.Option

-- What the kernel is linked with: addresses, the code of interrupts.asm and the handlers.
pub record Image : Type 0 where
  pub linker : Linker
  pub wrapper : Wrapper
  pub default_handler : ℕ
  pub timer_handler : ℕ
  pub keyboard_handler : ℕ
  pub gdt_address : ℕ
  pub tss_address : ℕ
  pub gp_address : ℕ

-- The state of the whole kernel: the current address space is `terminal.machine.manager.space`.
pub record Kernel : Type 0 where
  pub memory_size : ℕ
  pub user_address_space : AddressSpace
  pub descriptors : Descriptors
  pub terminal : Terminal
  pub cr3 : ℕ

unfoldable pub clear_terminal : Terminal → Terminal
clear_terminal t = record t { tty = clear_screen t.tty }

module _ (image : Image) where
  -- `init_memory_manager` and `gdt_install`.
  unfoldable pub start_memory : (cr3 : ℕ) → List MmapEntry → Kernel → Option Kernel
  start_memory cr3 memory_map k =
      Option.map
        (λ started.
          let mm = started.manager in
          let (phys, descriptors) =
            gdt_install mm.space.page_dir image.gdt_address image.tss_address image.gp_address
              mm.phys k.descriptors in
          record k {
            memory_size = started.memory_size;
            user_address_space = started.user_address_space;
            descriptors = descriptors;
            terminal = record k.terminal {
              machine = record k.terminal.machine { manager = record mm { phys = phys } };
            };
          })
        (init_memory_manager image.linker cr3 memory_map k.terminal.machine.manager.phys)

  -- `init_interrupts`, `init_tty` and `clear_screen`.
  unfoldable pub start_terminal : Terminal → Option Terminal
  start_terminal t =
      Option.bind
        (init_interrupts image.wrapper image.default_handler image.timer_handler t.machine)
        (λ machine.
          Option.map clear_terminal
            (init_tty image.wrapper image.keyboard_handler (record t { machine = machine })))

  -- `change_address_space(&user_address_space)`
  unfoldable pub enter_user_space : Kernel → Kernel
  enter_user_space k =
      let machine = k.terminal.machine in
      let c =
        change_address_space k.user_address_space
          (record { cur_address_space = machine.manager.space; cr3 = k.cr3 }) in
      record k {
        terminal = record k.terminal {
          machine = record machine {
            manager = record machine.manager { space = c.cur_address_space };
          };
        };
        cr3 = c.cr3;
      }

  -- `enter_usermode`, which follows, is assembly code.
  unfoldable pub kernel_main : (memory_map : List MmapEntry) → Kernel → Option Kernel
  kernel_main memory_map k = Option.bind (start_memory k.cr3 memory_map k) (λ k1.
      Option.map (λ t. enter_user_space (record k1 { terminal = t })) (start_terminal k1.terminal))
