-- ===== src/Gdt/Tests.antt =====
-- The theorems on descriptors at a table of zeros.
use sandor_os.Gdt.Install.{Installed, translated, gdt_install-Installed}
use sandor_os.Prelude.{ℕ, ◌/◌, ◌%◌, ◌^◌, ◌≡◌, ◌≢◌, ◌↔◌, arith}
use sandor_os.PhysMemory.{Phys}
use sandor_os.Gdt.{Descriptors, create_descriptor, gdt_install, zero_tss}
use sandor_os.Gdt.Descriptor.{limit_of, base_of, flags_of, create_descriptor-fields}

abbrev zeros : Descriptors
zeros = record {
  gdt = λ i. record {
    limit_low = 0;
    base_low = 0;
    base_middle = 0;
    access = 0;
    granularity = 0;
    base_high = 0;
  };
  gp_limit = 0;
  gp_base = 0;
  tss = zero_tss;
}

abbrev memory : Phys
memory = record {
  memory = λ f i. 0;
  temp_page = 0;
  free_page_count = 0;
  free_phys_memory_pointer = 0;
}

abbrev created : Descriptors
created = create_descriptor 5 1193046 104 137 0 zeros

create_descriptor-fields_example :
    (limit_of (created.gdt 5) ≡ 104 % 2 ^ 20)
    × (flags_of (created.gdt 5) ≡ 0 % 2 ^ 4)
    × ((created.gdt 5).access ≡ 137)
    × ((base_of (created.gdt 5) ≡ 1193046) ↔ ((zeros.gdt 5).base_high ≡ 1193046 / 2 ^ 24))
    × ((i : ℕ) → i ≢ 5 → created.gdt i ≡ zeros.gdt i)
create_descriptor-fields_example = create_descriptor-fields 5 1193046 104 137 0 zeros (omega arith)

gdt_install-Installed_example :
    Installed
      (translated 0 memory.memory)
      8192
      12288
      zeros
      (gdt_install 0 8192 12288 16384 memory zeros).1
gdt_install-Installed_example = gdt_install-Installed 0 8192 12288 16384 memory zeros
