-- ===== src/Startup/Layout.antt =====
-- The addresses of the kernel's first blocks of virtual memory.
use sandor_os.VirtBlocks.Packed.{Packed}
use sandor_os.Paging.{pdindex, ptindex}
use sandor_os.VirtBlocks.Add.{IsTable, Room}
use sandor_os.Startup.Spaces.{kernel_space, first_blocks}
use sandor_os.Startup.{Linker, temp_page_address, kernel_size}
use sandor_os.Table.{Entries}
use sandor_os.AddressSpace.{AddressSpace}
use sandor_os.Prelude.{ℕ, ◌+◌, ◌*◌, ◌%◌, ◌^◌, ◌<◌, ◌≤◌, ◌≡◌, arith, sym, refl}

module _ (l : Linker) where
  -- The places that kernel/script.ld gives to the kernel: it starts at a whole table of pages, has
  -- whole pages, the table of blocks follows it, and all end before the last page of the kernel's
  -- table.
  pub record Layout : Type 0 where
    pub at_table : l.kernel_base_vma % 2 ^ 22 ≡ 0
    pub starts : l.kernel_address_space_start ≡ l.kernel_base_vma
    pub some_pages : 0 < kernel_size l
    pub pages : kernel_size l % 2 ^ 12 ≡ 0
    pub behind : l.kernel_base_vma + kernel_size l ≡ l.kernel_virt_block_table
    pub below : l.kernel_virt_block_table + 2 ^ 12 ≤ l.kernel_base_vma + 1023 * 2 ^ 12
    pub ends : l.kernel_base_vma + 2 ^ 22 ≤ l.kernel_address_space_end
    pub word : l.kernel_address_space_end < 2 ^ 32

  module _ (page_dir : ℕ) (entries : Entries) (lay : Layout) where
    abbrev space : AddressSpace
    space = kernel_space l page_dir entries

    -- TEMP_PAGE.
    abbrev pub top_page : ℕ
    top_page = l.kernel_base_vma + 1023 * 2 ^ 12

    pub temp_page_address-eq : temp_page_address l ≡ top_page
    unfolding temp_page_address
    temp_page_address-eq = omega (arith, lay.at_table, lay.ends, lay.word)

    pub kernel_space-Packed :
        Packed 1 (l.kernel_virt_block_table + 2 ^ 12) top_page (kernel_space l page_dir entries)
    unfolding kernel_space first_blocks
    kernel_space-Packed = rw temp_page_address-eq (record {
      count = refl;
      first = sym lay.starts;
      pages = λ i le. ground (arith, lay.some_pages, lay.pages);
      steps = λ i lt. ground (arith, lay.pages, lay.behind);
      stops = omega arith;
      last = refl;
      fits = omega (arith, lay.ends);
      word = lay.word;
    })

    -- With the kernel at the places that the linker script gives it, the table of virtual blocks
    -- that `init_memory_manager` fills by hand is well formed, and has room for a block that does
    -- not reach past the end of the 32-bit addresses; TEMP_PAGE is the last page that the kernel's
    -- table of pages covers.
    pub kernel_space-IsTable :
        (IsTable space
          × ((size : ℕ) → l.kernel_base_vma + 2 ^ 22 + size * 2 ^ 12 < 2 ^ 32 → Room size space))
        × (pdindex (temp_page_address l) ≡ pdindex l.kernel_base_vma)
        × (ptindex (temp_page_address l) ≡ 1023)
    unfolding kernel_space first_blocks
    kernel_space-IsTable = rw temp_page_address-eq (
      (
        record {
          some = omega arith;
          ordered = record {
            first = λ h. omega (arith, lay.starts);
            steps = λ i h. ground (arith, lay.pages, lay.behind, lay.below);
            last = λ i h. ground (arith, lay.ends);
          };
        },
        λ size fits. record {
          small = omega arith;
          front = omega (arith, lay.starts);
          behind = λ i at. ground (arith, fits);
        },
      ),
      omega (arith, lay.at_table),
      omega (arith, lay.at_table),
    )
