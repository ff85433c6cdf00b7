-- ===== src/Gdt/Descriptor.antt =====
-- What the processor reads from a descriptor that `create_descriptor` wrote.
use sandor_os.Prelude.{ℕ, ◌+◌, ◌*◌, ◌/◌, ◌%◌, ◌^◌, ◌<◌, ◌≡◌, ◌≢◌, ◌↔◌, refl, arith, eq→==, ne→==}
use sandor_os.Gdt.{GdtEntry, Descriptors, described, create_descriptor}

-- The limit, the base and the flags of a descriptor.
abbrev pub limit_of : GdtEntry → ℕ
limit_of e = e.limit_low + e.granularity % 2 ^ 4 * 2 ^ 16

abbrev pub base_of : GdtEntry → ℕ
base_of e = e.base_low + e.base_middle * 2 ^ 16 + e.base_high * 2 ^ 24

abbrev pub flags_of : GdtEntry → ℕ
flags_of e = e.granularity / 2 ^ 4

pub described-limit :
    (base limit access flags : ℕ) (e : GdtEntry)
    → limit_of (described base limit access flags e) ≡ limit % 2 ^ 20
unfolding described
described-limit base limit access flags e = omega arith

pub described-flags :
    (base limit access flags : ℕ) (e : GdtEntry)
    → flags_of (described base limit access flags e) ≡ flags % 2 ^ 4
unfolding described
described-flags base limit access flags e = omega arith

pub described-base :
    (base limit access flags : ℕ) (e : GdtEntry)
    → base_of (described base limit access flags e) ≡ base % 2 ^ 24 + e.base_high * 2 ^ 24
unfolding described
described-base base limit access flags e = omega arith

-- After `create_descriptor` the descriptor `num` has the low 20 bits of the limit, the low 4 bits of
-- the flags and the access byte, and its base is `base`, a 32-bit number, just when its byte
-- `base_high` held the top byte of `base` before; all other descriptors are kept.
pub create_descriptor-fields :
    (num base limit access flags : ℕ) (d : Descriptors)
    → base < 2 ^ 32
    → (limit_of ((create_descriptor num base limit access flags d).gdt num) ≡ limit % 2 ^ 20)
      × (flags_of ((create_descriptor num base limit access flags d).gdt num) ≡ flags % 2 ^ 4)
      × (((create_descriptor num base limit access flags d).gdt num).access ≡ access)
      × ((base_of ((create_descriptor num base limit access flags d).gdt num) ≡ base)
          ↔ ((d.gdt num).base_high ≡ base / 2 ^ 24))
      × ((i : ℕ) → i ≢ num → (create_descriptor num base limit access flags d).gdt i ≡ d.gdt i)
unfolding create_descriptor described
create_descriptor-fields num base limit access flags d word = rw (eq→== num num refl) (
  described-limit base limit access flags (d.gdt num),
  described-flags base limit access flags (d.gdt num),
  refl,
  (
    (λ e. omega (arith, described-base base limit access flags (d.gdt num), e)),
    (λ e. omega (arith, described-base base limit access flags (d.gdt num), e)),
  ),
  (λ i ne. rw (ne→== i num ne) refl),
)
