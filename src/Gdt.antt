-- ===== src/Gdt.antt =====
-- The descriptor table of kernel/gdt.c and the task state segment that it names.
pub mod Descriptor
pub mod Install
mod Tests
use sandor_os.Prelude.{ℕ, ◌+◌, ◌*◌, ◌-◌, ◌/◌, ◌%◌, ◌^◌, ◌==◌, if◌then◌else◌, u8, u16, u32, bit_or}
use sandor_os.PhysMemory.{Phys}
use sandor_os.Paging.{get_physaddr}

pub record GdtEntry : Type 0 where
  pub limit_low : ℕ
  pub base_low : ℕ
  pub base_middle : ℕ
  pub access : ℕ
  pub granularity : ℕ
  pub base_high : ℕ

pub record TssEntry : Type 0 where
  pub prev_tss : ℕ
  pub esp0 : ℕ
  pub ss0 : ℕ
  pub esp1 : ℕ
  pub ss1 : ℕ
  pub esp2 : ℕ
  pub ss2 : ℕ
  pub cr3 : ℕ
  pub eip : ℕ
  pub eflags : ℕ
  pub eax : ℕ
  pub ecx : ℕ
  pub edx : ℕ
  pub ebx : ℕ
  pub esp : ℕ
  pub ebp : ℕ
  pub esi : ℕ
  pub edi : ℕ
  pub es : ℕ
  pub cs : ℕ
  pub ss : ℕ
  pub ds : ℕ
  pub fs : ℕ
  pub gs : ℕ
  pub ldt : ℕ
  pub trap : ℕ
  pub iomap : ℕ

-- `gp_limit` and `gp_base` are the fields of `_gp`.
pub record Descriptors : Type 0 where
  pub gdt : ℕ → GdtEntry
  pub gp_limit : ℕ
  pub gp_base : ℕ
  pub tss : TssEntry

-- The fields of the flags and of the access byte.
abbrev seg_savl : ℕ → ℕ
seg_savl x = x

abbrev seg_long : ℕ → ℕ
seg_long x = x * 2 ^ 1

abbrev seg_size : ℕ → ℕ
seg_size x = x * 2 ^ 2

abbrev seg_gran : ℕ → ℕ
seg_gran x = x * 2 ^ 3

abbrev seg_desctype : ℕ → ℕ
seg_desctype x = x * 2 ^ 4

abbrev seg_priv : ℕ → ℕ
seg_priv x = x % 2 ^ 2 * 2 ^ 5

abbrev seg_pres : ℕ → ℕ
seg_pres x = x * 2 ^ 7

abbrev seg_data_rdwr : ℕ
seg_data_rdwr = 2

abbrev seg_code_exrd : ℕ
seg_code_exrd = 10

abbrev gdt_flags : ℕ
gdt_flags = bit_or (bit_or (bit_or (seg_gran 1) (seg_size 1)) (seg_long 0)) (seg_savl 0)

-- The access byte of a segment of code or data with a privilege level and a type.
abbrev gdt_access : (level type : ℕ) → ℕ
gdt_access level type = bit_or (bit_or (bit_or (seg_desctype 1) (seg_pres 1)) (seg_priv level)) type

abbrev gdt_access_code_pl0 : ℕ
gdt_access_code_pl0 = gdt_access 0 seg_code_exrd

abbrev gdt_access_data_pl0 : ℕ
gdt_access_data_pl0 = gdt_access 0 seg_data_rdwr

abbrev gdt_access_code_pl3 : ℕ
gdt_access_code_pl3 = gdt_access 3 seg_code_exrd

abbrev gdt_access_data_pl3 : ℕ
gdt_access_data_pl3 = gdt_access 3 seg_data_rdwr

-- The fields of a descriptor that are written; `base_high` is not.
unfoldable pub described : (base limit access flags : ℕ) → GdtEntry → GdtEntry
described base limit access flags e = record e {
  limit_low = limit % 2 ^ 16;
  granularity = limit / 2 ^ 16 % 2 ^ 4 + u8 (flags * 2 ^ 4);
  base_low = base % 2 ^ 16;
  base_middle = base / 2 ^ 16 % 2 ^ 8;
  access = access;
}

unfoldable pub create_descriptor : (num base limit access flags : ℕ) → Descriptors → Descriptors
create_descriptor num base limit access flags d = record d {
  gdt = λ i. if i == num then described base limit access flags (d.gdt num) else d.gdt i;
}

-- TSS after `memset`.
abbrev pub zero_tss : TssEntry
zero_tss = record {
  prev_tss = 0;
  esp0 = 0;
  ss0 = 0;
  esp1 = 0;
  ss1 = 0;
  esp2 = 0;
  ss2 = 0;
  cr3 = 0;
  eip = 0;
  eflags = 0;
  eax = 0;
  ecx = 0;
  edx = 0;
  ebx = 0;
  esp = 0;
  ebp = 0;
  esi = 0;
  edi = 0;
  es = 0;
  cs = 0;
  ss = 0;
  ds = 0;
  fs = 0;
  gs = 0;
  ldt = 0;
  trap = 0;
  iomap = 0;
}

-- The fields that are set behind it.
unfoldable pub set_tss : (kernel_ss kernel_esp : ℕ) → TssEntry → TssEntry
set_tss kernel_ss kernel_esp t = record t {
  ss0 = kernel_ss;
  esp0 = kernel_esp;
  cs = 11;
  ss = 19;
  es = 19;
  ds = 19;
  fs = 19;
  gs = 19;
}

-- `tss_address` is the address of TSS, whose size is 104 bytes.
unfoldable pub tss_install :
    (page_dir tss_address idx kernel_ss kernel_esp : ℕ) → Phys → Descriptors → Phys × Descriptors
tss_install page_dir tss_address idx kernel_ss kernel_esp s d =
    let r = get_physaddr page_dir tss_address s in
    let l = get_physaddr page_dir 104 (r.0) in
    (
      l.0,
      record (create_descriptor idx (r.1) (l.1) 137 0 d) {
        tss = set_tss kernel_ss kernel_esp zero_tss;
      },
    )

-- The descriptors of `gdt_install` before that of the task state segment.
unfoldable pub flat_segments : Descriptors → Descriptors
flat_segments d = create_descriptor 4 0 (2 ^ 32 - 1) gdt_access_data_pl3 gdt_flags (
    create_descriptor 3 0 (2 ^ 32 - 1) gdt_access_code_pl3 gdt_flags (
      create_descriptor 2 0 (2 ^ 32 - 1) gdt_access_data_pl0 gdt_flags (
        create_descriptor 1 0 (2 ^ 32 - 1) gdt_access_code_pl0 gdt_flags
          (create_descriptor 0 0 0 0 0 d))))

-- The arguments are the addresses of the two tables and of `_gp`, whose physical address the
-- processor is given.
unfoldable pub gdt_install :
    (page_dir gdt_address tss_address gp_address : ℕ) → Phys → Descriptors → Phys × Descriptors
gdt_install page_dir gdt_address tss_address gp_address s d =
    let r = get_physaddr page_dir gdt_address s in
    let t =
      tss_install page_dir tss_address 5 16 0 (r.0)
        (flat_segments (record d { gp_limit = 8 * 6 - 1; gp_base = r.1 })) in
    ((get_physaddr page_dir gp_address (t.0)).0, t.1)
