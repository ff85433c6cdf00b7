-- ===== src/Ata/Tests.antt =====
-- The theorems on the disk at one that is ready at once.
use sandor_os.Prelude.{ℕ, ◌<◌, ◌≡◌, ◌↔◌, true, some, [], arith}
use sandor_os.Io.{Device}
use sandor_os.Stdlib.{Memory}
use sandor_os.Ata.{AtaDevice, has_bit, hd_ready}
use sandor_os.Ata.Poll.{status, hd_ready-true_iff}
use sandor_os.Ata.Transfer.{read_ata, read_round, repeat, read_ata-repeat}

-- The status is ready and wants data.
abbrev quiet : Device
quiet t port = 72

abbrev disk : AtaDevice
disk = record {
  available = true;
  port = 496;
  slave_bit = 0;
  sector_number = 1000;
  is_lba48_supported = 0;
}

abbrev empty : Memory
empty x = 0

hd_ready-true_iff_example :
    ((hd_ready quiet 496 []).0 ≡ true)
    ↔ ((k : ℕ) × (k < 5999) × (has_bit 64 (status quiet 496 k []) ≡ true))
hd_ready-true_iff_example = hd_ready-true_iff quiet 496 []

read_ata-repeat_example :
    read_ata quiet disk 5 300 4096 (empty, [])
    ≡ some (repeat 2 (read_round quiet disk 5 300 4096) (empty, []))
read_ata-repeat_example = read_ata-repeat quiet disk 5 300 4096 (empty, []) (omega arith)
