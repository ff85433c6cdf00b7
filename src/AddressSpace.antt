-- ===== src/AddressSpace.antt =====
-- The records of an address space of kernel/include/memory_manager.h. A table of blocks is its
-- address with the entries that stand there.
use sandor_os.Prelude.{ℕ}
use sandor_os.Table.{Entries}

pub record VirtMemory : Type 0 where
  pub block_count : ℕ
  pub blocks : ℕ
  pub entries : Entries
  pub table_size : ℕ

pub record DynamicMemory : Type 0 where
  pub block_count : ℕ
  pub blocks : ℕ
  pub entries : Entries
  pub table_size : ℕ
  pub heap : ℕ
  pub heap_size : ℕ

pub record AddressSpace : Type 0 where
  pub page_dir : ℕ
  pub start : ℕ
  pub end : ℕ
  pub virt_memory : VirtMemory
  pub dynamic_memory : DynamicMemory
