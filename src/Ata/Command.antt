-- ===== src/Ata/Command.antt =====
-- The registers that a command writes.
use sandor_os.Prelude.{
  ℕ, zero, suc, ◌+◌, ◌*◌, ◌/◌, ◌%◌, ◌^◌, ◌≡◌, refl, ap, ◌∙◌, ◌⊎◌, inl, inr, Bool, true, false, List,
  ◌∷◌, Bool-cases, u8, u16, ◌==◌, ◌&&◌, Option, some, none, [], if◌then◌else◌,
}
use sandor_os.Io.{Trace, Device, puts, inportb, outportb}
use sandor_os.Ata.{
  hd_status_offset, hd_current_offset, hd_nsector_offset, lba_0_7_offset, lba_8_15_offset,
  lba_16_23_offset, drive_head, has_bit, not, poll, hd_busy, hd_ready, hd_drq, command_writes,
  send_command,
}

-- The bytes of a command, the last one first.
abbrev pub registers : (port hd_nsector lba command : ℕ) → List (ℕ × ℕ) → List (ℕ × ℕ)
registers port hd_nsector lba command ps =
    (u16 (port + hd_status_offset), u8 command)
    ∷ (u16 (port + lba_16_23_offset), u8 (lba / 2 ^ 16))
    ∷ (u16 (port + lba_8_15_offset), u8 (lba / 2 ^ 8))
    ∷ (u16 (port + lba_0_7_offset), u8 lba)
    ∷ (u16 (port + hd_nsector_offset), u8 hd_nsector)
    ∷ ps

abbrev pub selection : (port slave_bit lba : ℕ) → ℕ × ℕ
selection port slave_bit lba = (u16 (port + hd_current_offset), u8 (drive_head slave_bit lba))

command_writes-puts :
    (port hd_nsector lba command : ℕ) (t : Trace)
    → puts (command_writes port hd_nsector lba command t)
      ≡ registers port hd_nsector lba command (puts t)
unfolding command_writes outportb
command_writes-puts port hd_nsector lba command t = refl

module _ (device : Device) (port : ℕ) where
  poll-puts : (again : ℕ → Bool) (i : ℕ) (t : Trace) → puts (poll device again port i t).1 ≡ puts t
  unfolding poll inportb
  poll-puts again zero t = refl
  poll-puts again (suc i) t =
      let value = (inportb device (port + hd_status_offset) t).0 in
      elim (Bool-cases (again value && not (i == 0))) [
        | inl on ↦ rw on (poll-puts again i (inportb device (port + hd_status_offset) t).1)
        | inr off ↦ rw off refl
      ]

  hd_busy-puts : (t : Trace) → puts (hd_busy device port t).1 ≡ puts t
  unfolding hd_busy
  hd_busy-puts t = poll-puts (λ s. has_bit 128 s) 6000 t

  hd_ready-puts : (t : Trace) → puts (hd_ready device port t).1 ≡ puts t
  unfolding hd_ready
  hd_ready-puts t = poll-puts (λ s. not (has_bit 64 s)) 6000 t

  hd_drq-puts : (t : Trace) → puts (hd_drq device port t).1 ≡ puts t
  unfolding hd_drq
  hd_drq-puts t = poll-puts (λ s. not (has_bit 8 s)) 6000 t

  -- The three ends of `send_command`, with what has been written to the ports.
  abbrev pub Ends : (slave_bit hd_nsector lba command : ℕ) → Trace → Bool × Trace → Type 0
  Ends slave_bit hd_nsector lba command t r =
      ((r.0 ≡ true)
        × (puts r.1
            ≡ registers port hd_nsector lba command (selection port slave_bit lba ∷ puts t)))
      ⊎ ((r.0 ≡ false) × ((puts r.1 ≡ puts t) ⊎ (puts r.1 ≡ selection port slave_bit lba ∷ puts t)))

  -- For any device, `send_command` ends in one of three ways: it returns true, and has written the
  -- drive and then the five registers of the command in order; or it returns false and has written
  -- nothing; or it returns false and has written the drive only. It writes nothing else.
  pub send_command-Ends :
      (slave_bit hd_nsector lba command : ℕ) (t : Trace)
      → Ends slave_bit hd_nsector lba command t
          (send_command device port slave_bit hd_nsector lba command t)
  unfolding send_command outportb
  send_command-Ends slave_bit hd_nsector lba command t =
      let t1 = (hd_busy device port t).1 in
      let t2 = outportb (port + hd_current_offset) (drive_head slave_bit lba) t1 in
      let t3 = (hd_ready device port t2).1 in
      let t4 = (hd_busy device port t3).1 in
      let e1 : puts t1 ≡ puts t = hd_busy-puts t in
      let e2 : puts t2 ≡ selection port slave_bit lba ∷ puts t =
        ap (λ ps. selection port slave_bit lba ∷ ps) e1 in
      let e3 : puts t3 ≡ selection port slave_bit lba ∷ puts t = hd_ready-puts t2 ∙ e2 in
      let e4 : puts t4 ≡ selection port slave_bit lba ∷ puts t = hd_busy-puts t3 ∙ e3 in
      let e5 = hd_busy-puts (command_writes port hd_nsector lba command t4) in
      let e6 =
        hd_drq-puts (hd_busy device port (command_writes port hd_nsector lba command t4)).1 in
      elim (Bool-cases (hd_busy device port t).0) [
        | inl busy ↦ rw busy (inr (refl, inl e1))
        | inr idle ↦ rw idle (elim (Bool-cases (hd_ready device port t2).0) [
          | inr unready ↦ rw unready (inr (refl, inr e3))
          | inl ready ↦ rw ready (elim (Bool-cases (hd_busy device port t3).0) [
            | inl busy ↦ rw busy (inr (refl, inr e4))
            | inr idle' ↦ rw idle' (
                inl (
                  refl,
                  e6
                      ∙ e5
                      ∙ command_writes-puts port hd_nsector lba command t4
                      ∙ ap (registers port hd_nsector lba command) e4,
                ))
          ])
        ])
      ]

-- The byte that a port was given last.
abbrev register : (p : ℕ) → List (ℕ × ℕ) → Option ℕ
register p [] = none
register p ((q, value) ∷ ps) = let rest = register p ps in if p == q then some value else rest

-- The registers of the controller at `port` when the command comes: the command at port 7, written
-- last, the count of sectors at 2, the four parts of the first sector at 3 to 6, and the mode and the
-- drive in the upper half of the byte at 6.
pub record Commanded (port slave_bit hd_nsector lba command : ℕ) (ps : List (ℕ × ℕ)) : Type 0 where
  pub before : List (ℕ × ℕ)
  pub last : ps ≡ (u16 (port + 7), command % 256) ∷ before
  pub count : register (u16 (port + 2)) ps ≡ some (hd_nsector % 256)
  pub low : ℕ
  pub low_at : register (u16 (port + 3)) ps ≡ some low
  pub mid : ℕ
  pub mid_at : register (u16 (port + 4)) ps ≡ some mid
  pub high : ℕ
  pub high_at : register (u16 (port + 5)) ps ≡ some high
  pub head : ℕ
  pub head_at : register (u16 (port + 6)) ps ≡ some head
  pub sector : low + 256 * mid + 65536 * high + 16777216 * (head % 16) ≡ lba % 2 ^ 28
  pub drive : head / 16 ≡ 14 + slave_bit
