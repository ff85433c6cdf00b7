-- ===== src/Startup/Bios.antt =====
-- What a mapped page shows of its frame.
use sandor_os.Startup.Terminal.{virt_byte, virt_half, BiosData, read_bios}
use sandor_os.Startup.Clone.{virt_load}
use sandor_os.Paging.Map.{dir}
use sandor_os.Paging.Entries.{HasTable, entry_of}
use sandor_os.PhysMemory.{Phys}
use sandor_os.Prelude.{ℕ, ◌+◌, ◌*◌, ◌/◌, ◌%◌, ◌^◌, ◌<◌, ◌≡◌, refl, some, arith, u32}
use mathlib.Core.Option

-- The byte of a frame, and its 16-bit word.
abbrev pub byte_of : (ℕ → ℕ) → ℕ → ℕ
byte_of words k = words (k / 4) / 2 ^ (k % 4 * 8) % 2 ^ 8

abbrev pub half_of : (ℕ → ℕ) → ℕ → ℕ
half_of words k = byte_of words k + byte_of words (k + 1) * 2 ^ 8

-- The BIOS data area of a frame: the bytes 0x44a, 0x463, 0x451 and 0x450.
abbrev pub bios_of : (ℕ → ℕ) → BiosData
bios_of words = record {
  width = half_of words 1098;
  column = byte_of words 1104;
  row = byte_of words 1105;
  port = half_of words 1123;
}

module _ (page_dir p f : ℕ) (s : Phys) (low : p < 2 ^ 20)
    (has : HasTable (dir page_dir) s.memory (p / 2 ^ 10))
    (entry : entry_of (dir page_dir) s.memory p ≡ f * 2 ^ 12 + 4095) where
  -- A page whose entry names a frame shows its words and bytes.
  pub virt_load-entry :
      (k : ℕ) → k < 2 ^ 12 → virt_load page_dir (u32 (p * 2 ^ 12 + k)) s ≡ some (s.memory f (k / 4))
  unfolding virt_load
  virt_load-entry k lt =
      let d : u32 (p * 2 ^ 12 + k) / 2 ^ 22 ≡ p / 2 ^ 10 = omega arith in
      let t : u32 (p * 2 ^ 12 + k) / 2 ^ 12 % 2 ^ 10 ≡ p % 2 ^ 10 = omega arith in
      let w : u32 (p * 2 ^ 12 + k) / 4 % 2 ^ 10 ≡ k / 4 = omega arith in
      let odd : (f * 2 ^ 12 + 4095) % 2 ≡ 1 = omega arith in
      let f_eq : (f * 2 ^ 12 + 4095) / 2 ^ 12 ≡ f = omega arith in
      rw (d, t, w, has, entry, odd, f_eq) refl

  virt_byte-entry :
      (k : ℕ) → k < 2 ^ 12 → virt_byte page_dir (p * 2 ^ 12 + k) s ≡ some (byte_of (s.memory f) k)
  unfolding virt_byte
  virt_byte-entry k lt =
      let b : (p * 2 ^ 12 + k) % 4 ≡ k % 4 = omega arith in rw (virt_load-entry k lt, b) refl

  virt_half-entry :
      (k : ℕ)
      → k + 1 < 2 ^ 12
      → virt_half page_dir (p * 2 ^ 12 + k) s ≡ some (half_of (s.memory f) k)
  unfolding virt_half Option.bind
  virt_half-entry k lt =
      let next : p * 2 ^ 12 + k + 1 ≡ p * 2 ^ 12 + (k + 1) = omega arith in
      rw (next, virt_byte-entry k (omega arith), virt_byte-entry (k + 1) lt) refl

  pub read_bios-entry : read_bios page_dir (p * 2 ^ 12) s ≡ some (bios_of (s.memory f))
  unfolding read_bios Option.bind
  read_bios-entry =
      rw
        (
          virt_half-entry 1098 (omega arith),
          virt_half-entry 1123 (omega arith),
          virt_byte-entry 1105 (omega arith),
          virt_byte-entry 1104 (omega arith),
        )
        refl
