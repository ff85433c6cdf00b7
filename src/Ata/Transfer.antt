-- ===== src/Ata/Transfer.antt =====
-- The transfers of kernel/ATA.c, read_ATA and write_ATA.
use sandor_os.Stdlib.{Memory}
use sandor_os.Prelude.{
  ℕ, zero, suc, ◌<◌, ◌+◌, ◌-◌, ◌*◌, ◌/◌, ◌^◌, ◌≡◌, refl, ap, inl, inr, true, false, ◌&&◌, Option,
  none, some, arith, ltb, leb, if◌then◌else◌, u32, Bool-cases, lt→ltb, le→ltb, leb→le, leb→gt,
}
use sandor_os.Io.{Trace, Device}
use sandor_os.Ata.{AtaDevice, read_command, write_command, send_command, insw, outsw}

-- `count * SECTOR_SIZE / 2`, a signed division, as a word.
abbrev pub words : (count : ℕ) → ℕ
words count =
    let bytes = u32 (count * 512) in
    if ltb bytes (2 ^ 31) then bytes / 2 else u32 (2 ^ 32 - (2 ^ 32 - bytes) / 2)

module _ (device : Device) (d : AtaDevice) where
  -- What a round of `read_ata` does.
  unfoldable pub read_round : (lba count buffer : ℕ) → Memory × Trace → Memory × Trace
  read_round lba count buffer (m, t) =
      insw device d.port (words count) buffer
        (m, (send_command device d.port d.slave_bit count lba read_command t).1)

  -- The loop from `j` on, for at most `fuel` rounds.
  unfoldable pub read_loop :
      (fuel j lba count buffer : ℕ) → Memory × Trace → Option (Memory × Trace)
  read_loop zero j lba count buffer s = none
  read_loop (suc fuel) j lba count buffer s =
      let rest = read_loop fuel (u32 (j + 256)) lba count buffer (read_round lba count buffer s) in
      if ltb j (u32 (lba + count)) then rest else some s

  unfoldable pub read_ata : (lba count buffer : ℕ) → Memory × Trace → Option (Memory × Trace)
  read_ata lba count buffer s = read_loop (2 ^ 24) lba lba count buffer s

  unfoldable pub write_round : (lba count buffer : ℕ) → Memory → Trace → Trace
  write_round lba count buffer m t =
      outsw m d.port (words count) buffer
        (send_command device d.port d.slave_bit count lba write_command t).1

  unfoldable pub write_loop : (fuel j lba count buffer : ℕ) → Memory → Trace → Option Trace
  write_loop zero j lba count buffer m t = none
  write_loop (suc fuel) j lba count buffer m t =
      let rest =
        write_loop fuel (u32 (j + 256)) lba count buffer m (write_round lba count buffer m t) in
      if ltb j (u32 (lba + count)) then rest else some t

  -- `count` is signed, and so is its test.
  unfoldable pub write_ata : (lba count buffer : ℕ) → Memory → Trace → Option Trace
  write_ata lba count buffer m t =
      if leb 256 count && ltb count (2 ^ 31)
      then write_loop (2 ^ 24) lba lba count buffer m t
      else some t

-- `f`, `n` times.
abbrev pub repeat {ℓ} : {A : Type ℓ} → ℕ → (A → A) → A → A
repeat zero f x = x
repeat (suc n) f x = repeat n f (f x)

-- The rounds it takes to go from a sector to `end` in steps of 256.
abbrev pub rounds : (left : ℕ) → ℕ
rounds left = (left + 255) / 256

module _ (device : Device) (d : AtaDevice) (lba count buffer : ℕ) where
  read_loop-repeat :
      (n fuel j : ℕ) (s : Memory × Trace)
      → n < fuel
      → lba + count < 2 ^ 32 - 256
      → j < 2 ^ 32
      → rounds (lba + count - j) ≡ n
      → read_loop device d fuel j lba count buffer s
        ≡ some (repeat n (read_round device d lba count buffer) s)
  unfolding read_loop
  read_loop-repeat n zero j s lt fit small e = absurd (omega arith)
  read_loop-repeat zero (suc fuel) j s lt fit small e =
      let off : ltb j (u32 (lba + count)) ≡ false = le→ltb _ _ (omega arith) in rw off refl
  read_loop-repeat (suc n) (suc fuel) j s lt fit small e =
      let on : ltb j (u32 (lba + count)) ≡ true = lt→ltb _ _ (omega arith) in
      rw on
        (read_loop-repeat n fuel (u32 (j + 256)) _ (omega arith) fit (omega arith) (omega arith))

  write_loop-repeat :
      (n fuel j : ℕ) (m : Memory) (t : Trace)
      → n < fuel
      → lba + count < 2 ^ 32 - 256
      → j < 2 ^ 32
      → rounds (lba + count - j) ≡ n
      → write_loop device d fuel j lba count buffer m t
        ≡ some (repeat n (write_round device d lba count buffer m) t)
  unfolding write_loop
  write_loop-repeat n zero j m t lt fit small e = absurd (omega arith)
  write_loop-repeat zero (suc fuel) j m t lt fit small e =
      let off : ltb j (u32 (lba + count)) ≡ false = le→ltb _ _ (omega arith) in rw off refl
  write_loop-repeat (suc n) (suc fuel) j m t lt fit small e =
      let on : ltb j (u32 (lba + count)) ≡ true = lt→ltb _ _ (omega arith) in
      rw on
        (write_loop-repeat n fuel (u32 (j + 256)) m _ (omega arith) fit (omega arith) (omega arith))

  -- Where `lba + count` is below 2^32 - 256, `read_ata` ends after `count / 256` rounds, rounded
  -- up, and each round does the same: the command for all `count` sectors from `lba` on and the
  -- transfer of `count` sectors to the start of the buffer. For up to 256 sectors this is the one
  -- command that is meant; for more, the same sectors are read again.
  pub read_ata-repeat :
      (s : Memory × Trace)
      → lba + count < 2 ^ 32 - 256
      → read_ata device d lba count buffer s
        ≡ some (repeat (rounds count) (read_round device d lba count buffer) s)
  unfolding read_ata
  read_ata-repeat s fit =
      read_loop-repeat (rounds count) (2 ^ 24) lba s (omega arith) fit (omega arith)
        (ap rounds (omega arith))

  -- Where `lba + count` is below 2^31, `write_ata` ends. For fewer than 256 sectors it leaves the
  -- ports alone, so that nothing is written; else it makes `count / 256` rounds, rounded up, which
  -- all send the same command and the same words.
  pub write_ata-repeat :
      (m : Memory) (t : Trace)
      → lba + count < 2 ^ 31
      → write_ata device d lba count buffer m t
        ≡ some (
            repeat
              (if ltb count 256 then 0 else rounds count)
              (write_round device d lba count buffer m)
              t)
  unfolding write_ata
  write_ata-repeat m t fit = elim (Bool-cases (leb 256 count)) [
    | inl on ↦
        rw (on, lt→ltb count (2 ^ 31) (omega arith), le→ltb count 256 (leb→le _ _ on))
          (write_loop-repeat (rounds count) (2 ^ 24) lba m t (omega arith) (omega arith)
            (omega arith) (ap rounds (omega arith)))
    | inr off ↦ rw (off, lt→ltb count 256 (leb→gt _ _ off)) refl
  ]
