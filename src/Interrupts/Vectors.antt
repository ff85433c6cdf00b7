-- ===== src/Interrupts/Vectors.antt =====
-- What an entry of the interrupt table leads to.
use sandor_os.Prelude.{
  ℕ, ◌+◌, ◌*◌, ◌/◌, ◌%◌, ◌^◌, ◌<◌, ◌≤◌, ◌≡◌, refl, ◌∙◌, ◌⊎◌, inl, inr, some, arith, u8, u16, u32,
  sub32, eq→==, ne→==, ◌≢◌,
}
use sandor_os.Stdlib.{Memory, IsBytes, load_word, memcpy}
use sandor_os.Stdlib.Copy.{memcpy-move}
use sandor_os.Stdlib.Word.{load_word-store_word, store_word-other}
use sandor_os.VirtPages.{Manager}
use sandor_os.KernelHeap.Kmalloc.{kmalloc}
use sandor_os.Interrupts.{Wrapper, Machine, set_entry, write_wrapper, set_int_handler}

-- The call is one byte and a distance, inside the wrapper, which is copied within the 32-bit
-- addresses from elsewhere.
pub record Fits (w : Wrapper) (temp : ℕ) : Type 0 where
  pub inside : w.call_handler_offset + 5 ≤ w.wrapper_size
  pub room : temp + w.wrapper_size + w.call_size < 2 ^ 32
  pub source : w.handler_wrapper_template + w.wrapper_size < 2 ^ 32
  pub behind : w.call_size ≤ w.wrapper_size

-- The entry at `index` has the given fields and leads to the wrapper at `temp`, a copy of the
-- template whose call goes to the handler.
pub record Routed (w : Wrapper) (index sel handler type temp : ℕ) (s s' : Machine) : Type 0 where
  pub address : (s'.idt index).address_0_15 + 2 ^ 16 * (s'.idt index).address_16_31 ≡ temp
  pub selector : (s'.idt index).selector ≡ sel
  pub kind : (s'.idt index).type ≡ type
  pub others : (i : ℕ) → i ≢ index → s'.idt i ≡ s.idt i
  pub call :
      (temp
          + w.call_handler_offset
          + w.call_size
          + load_word s'.memory (temp + w.call_handler_offset + 1))
        % 2 ^ 32
      ≡ handler
  pub code :
      (k : ℕ)
      → k < w.wrapper_size
      → (k < w.call_handler_offset + 1) ⊎ (w.call_handler_offset + 5 ≤ k)
      → s'.memory (temp + k) ≡ s.memory (w.handler_wrapper_template + k)
  pub kept : (x : ℕ) → (x < temp) ⊎ (temp + w.wrapper_size ≤ x) → s'.memory x ≡ s.memory x

module _ (w : Wrapper) (temp : ℕ) (fits : Fits w temp) (handler : ℕ) (small : handler < 2 ^ 32)
    (m : Memory) (bytes : IsBytes m) where
  abbrev written : Memory
  written = write_wrapper w handler temp m

  abbrev copy : Memory
  copy = memcpy temp w.handler_wrapper_template w.wrapper_size m

  abbrev at : ℕ
  at = temp + w.call_handler_offset + 1

  at-word : u32 at ≡ at
  at-word = omega (arith, fits.inside, fits.room)

  wrapper-call :
      (temp + w.call_handler_offset + w.call_size + load_word written at) % 2 ^ 32 ≡ handler
  unfolding write_wrapper
  wrapper-call =
      let back = u32 (temp + w.call_handler_offset + w.call_size) in
      let e =
        load_word-store_word copy at (sub32 handler back) (omega (arith, fits.inside, fits.room))
          (omega arith) in
      rw (at-word, e) (omega (arith, fits.inside, fits.room))

  wrapper-code :
      (k : ℕ)
      → k < w.wrapper_size
      → (k < w.call_handler_offset + 1) ⊎ (w.call_handler_offset + 5 ≤ k)
      → written (temp + k) ≡ m (w.handler_wrapper_template + k)
  unfolding write_wrapper
  wrapper-code k lt out =
      let e =
        store_word-other copy at (sub32 handler (u32 (temp + w.call_handler_offset + w.call_size)))
          (temp + k) (omega (arith, fits.inside, fits.room))
          (elim out [ inl h ↦ inl (omega arith) | inr h ↦ inr (omega arith) ]) in
      let moved =
        memcpy-move temp w.handler_wrapper_template w.wrapper_size m bytes
          (omega (arith, fits.source)) (omega (arith, fits.room)) (temp + k) in
      rw at-word (e ∙ moved ∙ ground arith)

  wrapper-kept : (x : ℕ) → (x < temp) ⊎ (temp + w.wrapper_size ≤ x) → written x ≡ m x
  unfolding write_wrapper
  wrapper-kept x out =
      let e =
        store_word-other copy at (sub32 handler (u32 (temp + w.call_handler_offset + w.call_size)))
          x (omega (arith, fits.inside, fits.room))
          (elim out [ inl h ↦ inl (omega arith) | inr h ↦ inr (omega (arith, fits.inside)) ]) in
      let moved =
        memcpy-move temp w.handler_wrapper_template w.wrapper_size m bytes
          (omega (arith, fits.source)) (omega (arith, fits.room)) x in
      rw at-word (e ∙ moved ∙ ground arith)

-- Where `kmalloc` gives a block for the wrapper, the call stands inside the wrapper, the template
-- and the block do not pass the end of the address space, memory holds bytes, and the arguments
-- have the widths of their types: `set_int_handler` ends, the entry has the given selector and type
-- and the address of the block, no other entry changes, the block is a copy of the template but for
-- the four bytes behind the first of the call, these make the call go to the handler, and no byte
-- outside the block changes.
pub set_int_handler-Routed :
    (w : Wrapper) (index sel handler type temp : ℕ) (s : Machine) (mm : Manager)
    → index < 256
    → sel < 2 ^ 16
    → handler < 2 ^ 32
    → type < 2 ^ 8
    → IsBytes s.memory
    → kmalloc w.wrapper_size s.manager ≡ some (mm, temp)
    → Fits w temp
    → (s' : Machine) × (set_int_handler w index sel handler type s ≡ some s')
      × Routed w index sel handler type temp s s'
unfolding set_int_handler
set_int_handler-Routed w index sel handler type temp s mm index_lt sel_lt small type_lt bytes e
      fits =
    let s' : Machine = record s {
      idt =
          set_entry (u8 index)
            (record {
              address_0_15 = temp % 2 ^ 16;
              selector = u16 sel;
              reserved = 0;
              type = u8 type;
              address_16_31 = u16 (temp / 2 ^ 16);
            })
            s.idt;
      manager = mm;
      memory = write_wrapper w handler temp s.memory;
    } in
    let at : u8 index ≡ index = omega arith in
    (
      s',
      rw e refl,
      record {
        address = rw (at, eq→== index index refl) (omega (arith, fits.room));
        selector = rw (at, eq→== index index refl) (omega arith);
        kind = rw (at, eq→== index index refl) (omega arith);
        others = λ i ne. rw (at, ne→== i index ne) refl;
        call = wrapper-call w temp fits handler small s.memory bytes;
        code = wrapper-code w temp fits handler small s.memory bytes;
        kept = wrapper-kept w temp fits handler small s.memory bytes;
      },
    )
