-- ===== src/Table.antt =====
-- The tables of blocks of kernel/memory_manager.c: arrays of structs with a base and a size, in
-- ascending order. `VirtMemoryBlock` counts pages and `DynamicMemoryBlock` bytes.
pub mod Ordered
use sandor_os.Prelude.{ℕ, ◌+◌, ◌*◌, ◌==◌, if◌then◌else◌, move}

pub record Entry : Type 0 where
  pub base : ℕ
  pub size : ℕ

abbrev pub entry : ℕ → ℕ → Entry
entry b n = record { base = b; size = n }

abbrev pub Entries : Type 0
Entries = ℕ → Entry

-- The `memcpy` calls move whole structs: `n` entries from index `k` on go one up, and the entry at
-- `k` is written. Their size in bytes is not wrapped: the tables have fewer than 2^29 entries.
unfoldable pub place : (k n : ℕ) → Entry → Entries → Entries
place k n b e j = if j == k then b else move (k + 1) k n e j

-- The entries behind index `k` go one down over it.
unfoldable pub remove : (k n : ℕ) → Entries → Entries
remove k n e = move k (k + 1) n e
