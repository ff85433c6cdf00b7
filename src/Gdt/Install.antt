-- ===== src/Gdt/Install.antt =====
-- The descriptor table, its pointer and the task state segment that `gdt_install` leaves.
use sandor_os.Prelude.{
  ℕ, ◌+◌, ◌*◌, ◌-◌, ◌/◌, ◌%◌, ◌^◌, ◌≤◌, ◌≡◌, refl, arith, u32, ne→==, ◌==◌, ◌<◌, false,
}
use sandor_os.PhysMemory.{Phys, Frames, temp_map_page, temp_load}
use sandor_os.Paging.{get_physaddr, pdindex}
use sandor_os.Paging.Entries.{entry_of}
use sandor_os.Gdt.{
  GdtEntry, Descriptors, TssEntry, described, create_descriptor, flat_segments, tss_install,
  gdt_install, set_tss,
}
use sandor_os.Gdt.Descriptor.{
  limit_of, base_of, flags_of, described-limit, described-base, described-flags,
}

-- The descriptor has a base below its top byte `top`, a limit, an access byte and flags.
pub record Segment (base top limit access flags : ℕ) (e : GdtEntry) : Type 0 where
  pub base_eq : base_of e ≡ base % 2 ^ 24 + top * 2 ^ 24
  pub limit_eq : limit_of e ≡ limit
  pub access_eq : e.access ≡ access
  pub flags_eq : flags_of e ≡ flags

-- The segments of the processor's tasks: those of level 3 in the selectors, and the kernel's stack.
pub record TaskSegments (t : TssEntry) : Type 0 where
  pub ss0_eq : t.ss0 ≡ 16
  pub esp0_eq : t.esp0 ≡ 0
  pub cs_eq : t.cs ≡ 11
  pub ss_eq : t.ss ≡ 19
  pub es_eq : t.es ≡ 19
  pub ds_eq : t.ds ≡ 19
  pub fs_eq : t.fs ≡ 19
  pub gs_eq : t.gs ≡ 19

-- The address that the page tables in frames `m` give to a virtual address.
abbrev pub translated : (page_dir : ℕ) → Frames → (vaddr : ℕ) → ℕ
translated page_dir m vaddr =
    u32 (entry_of (page_dir / 2 ^ 12) m (vaddr / 2 ^ 12) / 2 ^ 12 * 2 ^ 12 + vaddr % 2 ^ 12)

get_physaddr-translated :
    (page_dir vaddr : ℕ) (s : Phys)
    → (get_physaddr page_dir vaddr s).1 ≡ translated page_dir s.memory vaddr
unfolding get_physaddr temp_map_page temp_load
get_physaddr-translated page_dir vaddr s =
    let d_index : pdindex vaddr ≡ vaddr / 2 ^ 12 / 2 ^ 10 = omega arith in rw d_index refl

off : (i j : ℕ) → 6 ≤ i → j < 6 → (i == j) ≡ false
off i j ge lt = ne→== i j (omega arith)

described-Segment :
    (base limit access flags : ℕ) (e : GdtEntry)
    → Segment base e.base_high
        (limit % 2 ^ 20)
        access
        (flags % 2 ^ 4)
        (described base limit access flags e)
unfolding described
described-Segment base limit access flags e = record {
  base_eq = described-base base limit access flags e;
  limit_eq = described-limit base limit access flags e;
  access_eq = refl;
  flags_eq = described-flags base limit access flags e;
}

-- What `gdt_install` leaves of the table `d`, where `address` gives the physical addresses.
pub record Installed (address : ℕ → ℕ) (gdt_address tss_address : ℕ) (d d' : Descriptors)
    : Type 0 where
  pub null : Segment 0 (d.gdt 0).base_high 0 0 0 (d'.gdt 0)
  pub kernel_code : Segment 0 (d.gdt 1).base_high (2 ^ 20 - 1) 154 12 (d'.gdt 1)
  pub kernel_data : Segment 0 (d.gdt 2).base_high (2 ^ 20 - 1) 146 12 (d'.gdt 2)
  pub user_code : Segment 0 (d.gdt 3).base_high (2 ^ 20 - 1) 250 12 (d'.gdt 3)
  pub user_data : Segment 0 (d.gdt 4).base_high (2 ^ 20 - 1) 242 12 (d'.gdt 4)
  pub task :
      Segment (address tss_address) (d.gdt 5).base_high (address 104 % 2 ^ 20) 137 0 (d'.gdt 5)
  pub others : (i : ℕ) → 6 ≤ i → d'.gdt i ≡ d.gdt i
  pub limit : d'.gp_limit ≡ 47
  pub base : d'.gp_base ≡ address gdt_address
  pub task_segments : TaskSegments d'.tss

module _ (page_dir gdt_address tss_address gp_address : ℕ) (s : Phys) (d : Descriptors) where
  -- After `gdt_install` the descriptors 0 to 5 are the empty one, the code and data of the kernel and
  -- of user programs from address 0 over all 2^20 pages, and the task state segment at its physical
  -- address, whose limit is the physical address of address 104 instead of a size; of each base the
  -- top byte is what the table had there before. All other descriptors are kept, the pointer has the
  -- limit 47 and the physical address of the table, and the task state segment has the kernel's stack
  -- segment 16 with the pointer 0 and the selectors 11 and 19.
  pub gdt_install-Installed :
      Installed
        (translated page_dir s.memory)
        gdt_address
        tss_address
        d
        (gdt_install page_dir gdt_address tss_address gp_address s d).1
  unfolding gdt_install tss_install flat_segments create_descriptor get_physaddr temp_map_page
      temp_load set_tss
  gdt_install-Installed = record {
    null = described-Segment 0 0 0 0 (d.gdt 0);
    kernel_code = described-Segment 0 (2 ^ 32 - 1) 154 12 (d.gdt 1);
    kernel_data = described-Segment 0 (2 ^ 32 - 1) 146 12 (d.gdt 2);
    user_code = described-Segment 0 (2 ^ 32 - 1) 250 12 (d.gdt 3);
    user_data = described-Segment 0 (2 ^ 32 - 1) 242 12 (d.gdt 4);
    task =
        let d_index : pdindex tss_address ≡ tss_address / 2 ^ 12 / 2 ^ 10 = omega arith in
        rw d_index (
          described-Segment (translated page_dir s.memory tss_address)
            (translated page_dir s.memory 104) 137 0 (d.gdt 5));
    others = λ i ge.
        rw
          (
            off i 5 ge (omega arith),
            off i 4 ge (omega arith),
            off i 3 ge (omega arith),
            off i 2 ge (omega arith),
            off i 1 ge (omega arith),
            off i 0 ge (omega arith),
          )
          refl;
    limit = refl;
    base = get_physaddr-translated page_dir gdt_address s;
    task_segments = record {
      ss0_eq = refl;
      esp0_eq = refl;
      cs_eq = refl;
      ss_eq = refl;
      es_eq = refl;
      ds_eq = refl;
      fs_eq = refl;
      gs_eq = refl;
    };
  }
