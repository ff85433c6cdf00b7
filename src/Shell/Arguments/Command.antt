-- ===== src/Shell/Arguments/Command.antt =====
-- `pars_input` on a line that is a command alone.
use mathlib.Core.Path.{subst}
use native.Mathlib.Decide.{dec_lt}
use sandor_os.Prelude.{
  ℕ, zero, suc, ◌+◌, ◌^◌, ◌<◌, ◌≤◌, ◌≡◌, refl, sym, ap, ◌∙◌, ◌⊎◌, inl, inr, Bool, true, false, some,
  arith, ◌==◌, if◌then◌else◌, u32, sub32, eq→==, ne→==, ◌≢◌, move,
}
use mathlib.Core.Option
use sandor_os.Stdlib.{Memory, IsBytes, load, store, memcpy}
use sandor_os.Stdlib.Copy.{memcpy-move}
use sandor_os.Stdlib.Word.{load-lt, store-lt}
use sandor_os.VirtPages.{Manager}
use sandor_os.KernelHeap.Kmalloc.{kmalloc}
use sandor_os.Console.{Console}
use sandor_os.Shell.Arguments.{skip, is_space, in_word, all, Parsed, pars_input, set_command}

-- The line at `input` is `p` spaces and `j` letters.
pub record Alone (m : Memory) (input p j : ℕ) : Type 0 where
  pub spaces : (k : ℕ) → k < p → load m (input + k) ≡ 32
  pub letters : (k : ℕ) → p ≤ k → k < p + j → (load m (input + k) ≢ 32) × (load m (input + k) ≢ 0)
  pub ends : load m (input + (p + j)) ≡ 0
  pub room : input + (p + j) < 2 ^ 32

skip-eq :
    (again : ℕ → Bool) (m : Memory) (input fuel left i : ℕ)
    → left < fuel
    → i + left < 2 ^ 32
    → ((k : ℕ) → i ≤ k → k < i + left → again (load m (input + k)) ≡ true)
    → again (load m (input + (i + left))) ≡ false
    → skip again fuel i m input ≡ some (i + left)
unfolding skip
skip-eq again m input zero left i lt small on off = absurd (omega arith)
skip-eq again m input (suc fuel) zero i lt small on off =
    let e : i + 0 ≡ i = omega arith in
    let off' : again (load m (input + i)) ≡ false = rw⁻¹ e off in rw (off', e) refl
skip-eq again m input (suc fuel) (suc left) i lt small on off =
    let next : u32 (i + 1) ≡ i + 1 = omega arith in
    let same : i + suc left ≡ i + 1 + left = omega arith in
    rw (on i (omega arith) (omega arith), next, same)
      (skip-eq again m input fuel left (i + 1) (omega arith) (omega arith)
        (λ k ge lt. on k (omega arith) (omega arith)) (rw⁻¹ same off))

in_word-false : (c : ℕ) → c ≡ 0 → in_word c ≡ false
in_word-false c e = rw e refl

in_word-true : (c : ℕ) → c ≢ 32 → c ≢ 0 → in_word c ≡ true
in_word-true c a b = rw (ne→== c 32 a, ne→== c 0 b) refl

module _ (m : Memory) (input p j : ℕ) (line : Alone m input p j) where
  at_start : is_space (load m (input + p)) ≡ false
  at_start = elim (dec_lt 0 j) [
    | yes some_letter ↦ ne→== (load m (input + p)) 32 (line.letters p (omega arith) (omega arith)).0
    | no empty ↦
        let e : p + j ≡ p = omega arith in
        let z : load m (input + p) ≡ 0 = subst (λ i. load m (input + i) ≡ 0) e line.ends in
        ne→== (load m (input + p)) 32 (λ s. absurd (omega (arith, z, s)))
  ]

  skip_spaces : skip is_space all 0 m input ≡ some p
  skip_spaces =
      let e : 0 + p ≡ p = omega arith in
      skip-eq is_space m input all p 0 (omega (arith, line.room)) (omega (arith, line.room))
        (λ k ge lt. eq→== (load m (input + k)) 32 (line.spaces k (omega arith))) (rw e at_start)
      ∙ ap some e

  skip_letters : skip in_word all p m input ≡ some (p + j)
  skip_letters =
      skip-eq in_word m input all j p (omega (arith, line.room)) (omega (arith, line.room))
        (λ k ge lt. let (a, b) = line.letters k ge lt in in_word-true (load m (input + k)) a b)
        (in_word-false _ line.ends)

-- A string of `j` characters, copied from `src` to `command`, and no other change.
pub record Copied (m m' : Memory) (command src j : ℕ) : Type 0 where
  pub same : (k : ℕ) → k < j → m' (command + k) ≡ m (src + k)
  pub ends : m' (command + j) ≡ 0
  pub kept : (x : ℕ) → (x < command) ⊎ (command + j < x) → m' x ≡ m x

module _ (m : Memory) (bytes : IsBytes m) (command src j : ℕ) (from : src + j ≤ 2 ^ 32)
    (to : command + j < 2 ^ 32) where
  abbrev copy : Memory
  copy = store (memcpy command src j m) (command + j) 0

  copy-Copied : Copied m copy command src j
  copy-Copied = record {
    same = λ k lt. let b = byte (command + k) in ground (arith, b);
    ends = let b = byte (command + j) in ground (arith, b);
    kept = λ x out. let b = byte x in ground (arith, b);
  }
    where
      byte : (x : ℕ) → copy x ≡ (if x == command + j then 0 else move command src j m x)
      byte x =
          store-lt (memcpy command src j m) (command + j) 0 x to
          ∙ rw (memcpy-move command src j m bytes from (omega arith) x) refl

set_command-Alone :
    (input p j command : ℕ) (r : Parsed) (s : Console) (mm : Manager)
    → IsBytes s.memory
    → input + (p + j) < 2 ^ 32
    → load s.memory (input + (p + j)) ≡ 0
    → kmalloc (j + 1) s.manager ≡ some (mm, command)
    → command + j < 2 ^ 32
    → (input + (p + j) < command) ⊎ (command + j < input)
    → (m : Memory) × (set_command p (p + j) input (r, s)
        ≡ some (record r { command = command }, record s { memory = m; manager = mm }))
      × Copied s.memory m command (input + p) j
unfolding set_command Option.bind
set_command-Alone input p j command r s mm bytes room ends e to apart =
    let m = copy s.memory bytes command (input + p) j (omega arith) to in
    let copied = copy-Copied s.memory bytes command (input + p) j (omega arith) to in
    let at = input + (p + j) in
    let there : load m at ≡ 0 =
      load-lt m at room
      ∙ copied.kept at (elim apart [ inl h ↦ inl h | inr h ↦ inr (omega arith) ])
      ∙ sym (load-lt s.memory at room)
      ∙ ends in
    let length : sub32 (p + j) p ≡ j = omega arith in
    let size : u32 (j + 1) ≡ j + 1 = omega arith in
    let from : u32 (input + p) ≡ input + p = omega arith in
    (m, rw (length, size, e, from, eq→== (load m at) 0 there) refl, copied)

-- On a line of spaces and one word, in a memory of bytes, where `kmalloc` gives a block for the
-- word and its terminator that does not touch the line: `pars_input` ends, the command is a copy of
-- the word with a terminator, no other byte changes, and `argc` and `argv` are what they were
-- before, whatever that was.
pub pars_input-Alone :
    (input p j command : ℕ) (r : Parsed) (s : Console) (mm : Manager)
    → IsBytes s.memory
    → Alone s.memory input p j
    → kmalloc (j + 1) s.manager ≡ some (mm, command)
    → command + j < 2 ^ 32
    → (input + (p + j) < command) ⊎ (command + j < input)
    → (m : Memory) × (pars_input input (r, s)
        ≡ some (record r { command = command }, record s { memory = m; manager = mm }))
      × Copied s.memory m command (input + p) j
unfolding pars_input Option.bind
pars_input-Alone input p j command r s mm bytes line e to apart =
    let (m, set, copied) =
      set_command-Alone input p j command r s mm bytes line.room line.ends e to apart in
    (
      m,
      ap
            (λ o. Option.bind o (λ start.
              Option.bind (skip in_word all start s.memory input)
                (λ i. set_command start i input (r, s))))
            (skip_spaces s.memory input p j line)
          ∙ ap (λ o. Option.bind o (λ i. set_command p i input (r, s)))
              (skip_letters s.memory input p j line)
          ∙ set,
      copied,
    )
