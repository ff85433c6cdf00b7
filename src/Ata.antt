-- ===== src/Ata.antt =====
-- The disk driver, kernel/ATA.c. The disk is a device at the ports; buffers stand in the flat memory
-- of kernel/stdlib.c.
pub mod Poll
pub mod Command
pub mod Transfer
pub mod Init
mod Tests
use sandor_os.Prelude.{
  ℕ, zero, suc, ◌+◌, ◌-◌, ◌*◌, ◌/◌, ◌%◌, ◌^◌, Bool, true, false, ◌&&◌, List, [], ◌∷◌, Option, none,
  some, ltb, leb, ◌==◌, if◌then◌else◌, u8, u16, u32, bit_or, shl,
}
use sandor_os.Io.{Event, put_word, Trace, Device, inportb, inportw, outportb}
use sandor_os.Stdlib.{Memory, load, store_short, load_word}

abbrev pub hd_nsector_offset : ℕ
hd_nsector_offset = 2

abbrev pub lba_0_7_offset : ℕ
lba_0_7_offset = 3

abbrev pub lba_8_15_offset : ℕ
lba_8_15_offset = 4

abbrev pub lba_16_23_offset : ℕ
lba_16_23_offset = 5

abbrev pub hd_current_offset : ℕ
hd_current_offset = 6

abbrev pub hd_status_offset : ℕ
hd_status_offset = 7

abbrev pub identify_command : ℕ
identify_command = 236

abbrev pub read_command : ℕ
read_command = 32

abbrev pub write_command : ℕ
write_command = 48

abbrev pub not : Bool → Bool
not true = false
not false = true

-- A status bit.
abbrev pub has_bit : (bit status : ℕ) → Bool
has_bit bit status = status / bit % 2 == 1

abbrev pub polls : ℕ
polls = 6000

-- The drive and the highest four bits of the sector; 0xe0 is 224.
abbrev pub drive_head : (slave_bit lba : ℕ) → ℕ
drive_head slave_bit lba = bit_or (bit_or 224 (shl slave_bit 4)) (lba / 2 ^ 24 % 2 ^ 4)

-- The writes behind the checks.
unfoldable pub command_writes : (port hd_nsector lba command : ℕ) → Trace → Trace
command_writes port hd_nsector lba command t = outportb (port + hd_status_offset) command (
    outportb (port + lba_16_23_offset) (lba / 2 ^ 16) (
      outportb (port + lba_8_15_offset) (lba / 2 ^ 8)
        (outportb (port + lba_0_7_offset) lba (outportb (port + hd_nsector_offset) hd_nsector t))))

-- `rep outsw`: `n` words from memory to the port.
unfoldable pub outsw : Memory → (port n buffer : ℕ) → Trace → Trace
outsw m port zero buffer t = t
outsw m port (suc n) buffer t =
    outsw m port n (u32 (buffer + 2))
      (put_word (u16 port) (load m buffer + 256 * load m (buffer + 1)) ∷ t)

pub record AtaDevice : Type 0 where
  pub available : Bool
  pub port : ℕ
  pub slave_bit : ℕ
  pub sector_number : ℕ
  pub is_lba48_supported : ℕ

module _ (device : Device) where
  -- The three loops: read the status and count `i` down, while the status passes the test and `i` is
  -- not 0. The result is `i`.
  unfoldable pub poll : (ℕ → Bool) → (port i : ℕ) → Trace → ℕ × Trace
  poll again port zero t = (0, t)
  poll again port (suc i) t =
      let (status, t') = inportb device (port + hd_status_offset) t in
      let rest = poll again port i t' in if again status && not (i == 0) then rest else (i, t')

  unfoldable pub hd_busy : (port : ℕ) → Trace → Bool × Trace
  hd_busy port t = let (i, t') = poll (λ status. has_bit 128 status) port polls t in (i == 0, t')

  unfoldable pub hd_ready : (port : ℕ) → Trace → Bool × Trace
  hd_ready port t =
      let (i, t') = poll (λ status. not (has_bit 64 status)) port polls t in (not (i == 0), t')

  unfoldable pub hd_drq : (port : ℕ) → Trace → Bool × Trace
  hd_drq port t =
      let (i, t') = poll (λ status. not (has_bit 8 status)) port polls t in (not (i == 0), t')

  unfoldable pub send_command : (port slave_bit hd_nsector lba command : ℕ) → Trace → Bool × Trace
  send_command port slave_bit hd_nsector lba command t =
      let (busy, t1) = hd_busy port t in
      let t2 = outportb (port + hd_current_offset) (drive_head slave_bit lba) t1 in
      let (ready, t3) = hd_ready port t2 in
      let (busy', t4) = hd_busy port t3 in
      let (_, t5) = hd_busy port (command_writes port hd_nsector lba command t4) in
      let (_, t6) = hd_drq port t5 in
      if busy
      then (false, t1)
      else if not ready
      then (false, t3)
      else if busy'
      then (false, t4)
      else (true, t6)

  -- `rep insw`: `n` words from the port to memory.
  unfoldable pub insw : (port n buffer : ℕ) → Memory × Trace → Memory × Trace
  insw port zero buffer (m, t) = (m, t)
  insw port (suc n) buffer (m, t) =
      let (word, t') = inportw device port t in
      insw port n (u32 (buffer + 2)) (store_short m buffer word, t')
