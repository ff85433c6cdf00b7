-- ===== src/Ata/Init.antt =====
-- init_ATA_device and init_ATA_devices of kernel/ATA.c.
use sandor_os.Prelude.{
  ℕ, ◌+◌, ◌-◌, ◌*◌, ◌/◌, ◌%◌, ◌^◌, true, false, Option, some, ltb, ◌==◌, if◌then◌else◌, u32,
}
use mathlib.Core.Option
use sandor_os.Io.{Trace, Device}
use sandor_os.Stdlib.{Memory, load}
use sandor_os.VirtPages.{Manager}
use sandor_os.KernelHeap.Kmalloc.{kmalloc, kfree}
use sandor_os.Ata.{AtaDevice, identify_command, send_command, insw}

-- The memory, the memory manager and the ports.
pub record Host : Type 0 where
  pub memory : Memory
  pub manager : Manager
  pub trace : Trace

-- The `short` at index `i`, and its value as a word.
abbrev pub short_at : Memory → (buffer i : ℕ) → ℕ
short_at m buffer i = load m (buffer + i * 2) + 256 * load m (buffer + i * 2 + 1)

abbrev pub signed_short : ℕ → ℕ
signed_short v = if ltb v (2 ^ 15) then v else v + (2 ^ 32 - 2 ^ 16)

-- The device that the words of the answer describe.
unfoldable pub identified : (port slave_bit : ℕ) → Memory → (buffer : ℕ) → AtaDevice
identified port slave_bit m buffer = record {
  available = true;
  port = port;
  slave_bit = slave_bit;
  sector_number = u32 (
      signed_short (short_at m buffer 1)
      * signed_short (short_at m buffer 3)
      * signed_short (short_at m buffer 6));
  is_lba48_supported = if short_at m buffer 83 / 1024 % 2 == 1 then 1 else 0;
}

module _ (device : Device) where
  unfoldable pub init_ata_device :
      (port slave_bit : ℕ) → AtaDevice × Host → Option (AtaDevice × Host)
  init_ata_device port slave_bit (d, h) =
      let (available, t) = send_command device port slave_bit 0 0 identify_command h.trace in
      if available
      then Option.map
          (λ (mm, buffer).
            let (m, t') = insw device port 256 buffer (h.memory, t) in
            (
              identified port slave_bit m buffer,
              record { memory = m; manager = (kfree buffer mm).0; trace = t' },
            ))
          (kmalloc 512 h.manager)
      else some (record d { available = false }, record h { trace = t })

  -- The four devices: 496 is 0x1f0 and 368 is 0x170.
  unfoldable pub init_ata_devices :
      AtaDevice × AtaDevice × AtaDevice × AtaDevice × Host
      → Option (AtaDevice × AtaDevice × AtaDevice × AtaDevice × Host)
  init_ata_devices (d0, d1, d2, d3, h) = Option.bind (init_ata_device 496 0 (d0, h)) (λ (e0, h0).
      Option.bind (init_ata_device 496 1 (d1, h0)) (λ (e1, h1).
        Option.bind (init_ata_device 368 0 (d2, h1)) (λ (e2, h2).
          Option.map (λ (e3, h3). (e0, e1, e2, e3, h3)) (init_ata_device 368 1 (d3, h2)))))
